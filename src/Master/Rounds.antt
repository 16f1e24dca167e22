-- ===== src/Master/Rounds.antt =====
-- The frame of the rounds of SlaveThread and ObjThread, and of the start of the master.
use aistream.Base.{
  ℕ, ◌+◌, Bool, true, false, ◌≡◌, refl, sym, ◌∙◌, subst, inl, inr, Option, none, some, List, [],
  ◌∷◌, Text, text, All, All-map, All-self, Has, map, ap, ap₂, Bool-cases, if◌then◌else◌, leb,
}
use aistream.Platform.{Platform}
use aistream.Master.State.{MObjParam, MasterParams, write}
use aistream.Master.Http.{http_start, assign_obj_to_slave}
use aistream.Master.Slaves.{
  get_slave_obj, status_ack, reset_slave_obj, points_to, missed_answer, got_answer,
  update_slave_status, poll_slave, poll_slaves, slave_thread_round, is_uninitialised, is_skipped,
}
use aistream.Master.Objects.{
  start_tasks, update_obj_task, update_objs, obj_thread_round, is_on_live_slave, start_body,
}
use aistream.Master.Frame.{
  Frame, Frame-refl, Frame-trans, Frame-send, Frame-write_same, Frame-write_registered, obj_ids,
}
use aistream.Master.Steps.{slave_system_init-Frame, http_start-Frame, assign_obj_to_slave-Frame}

module _ (P : Platform) where
  reset_ids :
      (a : ℕ) (objs : List MObjParam)
      → obj_ids
          (map (λ obj. if points_to P a obj.slave then record obj { slave = none } else obj) objs)
        ≡ obj_ids objs
  reset_ids a [] = refl
  reset_ids a (obj ∷ objs) = elim (Bool-cases (points_to P a obj.slave)) [
    | inl e ↦ rw e (ap (◌∷◌ obj.id) (reset_ids a objs))
    | inr e ↦ rw e (ap (◌∷◌ obj.id) (reset_ids a objs))
  ]

  pub reset_slave_obj-Frame : (a : ℕ) (m : MasterParams P) → Frame P m (reset_slave_obj P a m)
  unfolding reset_slave_obj
  reset_slave_obj-Frame a m = record {
    vec = refl;
    next = refl;
    ip = λ b. refl;
    rest_port = λ b. refl;
    alive = λ b h. inl h;
    ids = reset_ids a m.m_obj_vec;
  }

  -- Frames are kept by a choice between two ways to go on.
  Frame-if :
      (b : Bool) (m m1 m2 : MasterParams P)
      → Frame P m m1
      → Frame P m m2
      → Frame P m (if b then m1 else m2)
  Frame-if true m m1 m2 f g = f
  Frame-if false m m1 m2 f g = g

  get_slave_obj-Frame : (a : ℕ) (m : MasterParams P) → Frame P m (get_slave_obj P a m)
  unfolding get_slave_obj
  get_slave_obj-Frame a m =
      Frame-trans P m _ _ (Frame-send P m _) (Frame-write_same P _ a _ refl refl (λ h. h))

  pub status_ack-Frame :
      (a : ℕ) (ack : Option Text) (m : MasterParams P)
      → Has a m.m_slave_vec
      → Frame P m (status_ack P a ack m)
  unfolding status_ack
  status_ack-Frame a none m h = Frame-refl P m
  status_ack-Frame a (some body) m h =
      Frame-trans P m _ _
        (Frame-trans P m _ _ (Frame-write_registered P m a _ h refl refl) (
          Frame-if (is_uninitialised P body) _ _ _ (slave_system_init-Frame P a _ h)
            (Frame-refl P _)))
        (get_slave_obj-Frame a _)

  missed_answer-Frame : (a : ℕ) (m : MasterParams P) → Frame P m (missed_answer P a m)
  unfolding missed_answer
  missed_answer-Frame a m =
      let s = m.slave_at a in
      let m1 = write P m a (record s { offline_cnt = s.offline_cnt + 1 }) in
      let f1 =
        Frame-write_same P m a (record s { offline_cnt = s.offline_cnt + 1 }) refl refl (λ h. h) in
      Frame-if (leb 3 (s.offline_cnt + 1)) _ _ _
        (Frame-trans P m _ _
          (Frame-trans P m m1 _ f1
            (Frame-if s.alive m1 _ _ (reset_slave_obj-Frame a m1) (Frame-refl P m1)))
          (Frame-write_same P _ a _ refl refl (λ h. cc)))
        f1

  got_answer-Frame :
      (a : ℕ) (body : Text) (m : MasterParams P)
      → Has a m.m_slave_vec
      → Frame P m (got_answer P a body m)
  unfolding got_answer
  got_answer-Frame a body m h =
      let f = slave_system_init-Frame P a m h in
      Frame-if (m.slave_at a).alive m _ _
        (Frame-if (is_uninitialised P body) m _ _
          (Frame-trans P m _ _ f (reset_slave_obj-Frame a _)) (Frame-refl P m))
        f

  pub update_slave_status-Frame :
      (a : ℕ) (ack : Option Text) (m : MasterParams P)
      → Has a m.m_slave_vec
      → Frame P m (update_slave_status P a ack m)
  unfolding update_slave_status
  update_slave_status-Frame a none m h = missed_answer-Frame a m
  update_slave_status-Frame a (some body) m h =
      let f = got_answer-Frame a body m h in
      Frame-trans P m _ _ f (Frame-write_registered P _ a _ (subst (Has a) (sym f.vec) h) refl refl)

  poll_slave-Frame :
      (a : ℕ) (m : MasterParams P) → Has a m.m_slave_vec → Frame P m (poll_slave P a m)
  unfolding poll_slave
  poll_slave-Frame a m h =
      Frame-if (is_skipped P (m.slave_at a)) m _ _ (Frame-refl P m)
        (Frame-trans P m _ _ (Frame-send P m _) (update_slave_status-Frame a _ _ h))

  poll_slaves-Frame :
      (xs : List ℕ) (m : MasterParams P)
      → All (λ a. Has a m.m_slave_vec) xs
      → Frame P m (poll_slaves P xs m)
  unfolding poll_slaves
  poll_slaves-Frame [] m h = Frame-refl P m
  poll_slaves-Frame (a ∷ xs) m h =
      let f = poll_slave-Frame a m h.0 in
      Frame-trans P m _ _ f
        (poll_slaves-Frame xs _ (All-map _ _ xs (λ b k. subst (Has b) (sym f.vec) k) h.1))

  pub slave_thread_round-Frame : (m : MasterParams P) → Frame P m (slave_thread_round P m)
  unfolding slave_thread_round
  slave_thread_round-Frame m = poll_slaves-Frame m.m_slave_vec m (All-self m.m_slave_vec)

  start_tasks-Frame :
      (tasks : List Text) (obj : MObjParam) (m : MasterParams P)
      → let (obj1, m1) = start_tasks P tasks obj m in (obj1.id ≡ obj.id) × Frame P m m1
  unfolding start_tasks
  start_tasks-Frame [] obj m = (refl, Frame-refl P m)
  start_tasks-Frame (task ∷ tasks) obj m =
      let r = http_start P obj (start_body P obj.id task) (text "/api/task/start") m in
      let (same, f) =
        http_start-Frame P obj (start_body P obj.id task) (text "/api/task/start") m in
      let (same', g) = start_tasks-Frame tasks r.0 r.1 in (same' ∙ same, Frame-trans P m r.1 _ f g)

  update_obj_task-Frame :
      (obj : MObjParam) (m : MasterParams P)
      → let (obj1, m1) = update_obj_task P obj m in (obj1.id ≡ obj.id) × Frame P m m1
  unfolding update_obj_task
  update_obj_task-Frame obj m = elim (Bool-cases (is_on_live_slave P m obj)) [
    | inl l ↦
        by_tasks obj.m_task_vec refl
          (λ task rest e. rw (e, l, update_obj_task) (refl, Frame-refl P m))
    | inr l ↦
        let r = assign_obj_to_slave P obj m in
        let (same, f) = assign_obj_to_slave-Frame P obj m in
        by_tasks obj.m_task_vec refl λ task rest e. elim (Bool-cases r.2) [
          | inl b ↦
              let (same', g) = start_tasks-Frame (task ∷ rest) r.0 r.1 in
              rw (e, l, b, update_obj_task) (same' ∙ same, Frame-trans P m r.1 _ f g)
          | inr b ↦ rw (e, l, b, update_obj_task) (same, f)
        ]
  ]
    where
      by_tasks :
          (tasks : List Text)
          → obj.m_task_vec ≡ tasks
          → ((task : Text) (rest : List Text)
              → obj.m_task_vec ≡ task ∷ rest
              → ((update_obj_task P obj m).0.id ≡ obj.id) × Frame P m (update_obj_task P obj m).1)
          → ((update_obj_task P obj m).0.id ≡ obj.id) × Frame P m (update_obj_task P obj m).1
      by_tasks [] e k = rw (e, update_obj_task) (refl, Frame-refl P m)
      by_tasks (task ∷ rest) e k = k task rest e

  update_objs-Frame :
      (objs : List MObjParam) (m : MasterParams P)
      → let (objs1, m1) = update_objs P objs m in (obj_ids objs1 ≡ obj_ids objs) × Frame P m m1
  unfolding update_objs
  update_objs-Frame [] m = (refl, Frame-refl P m)
  update_objs-Frame (obj ∷ objs) m =
      let r = update_obj_task P obj m in
      let (same, f) = update_obj_task-Frame obj m in
      let (rest, g) = update_objs-Frame objs r.1 in (ap₂ ◌∷◌ same rest, Frame-trans P m r.1 _ f g)

  pub obj_thread_round-Frame : (m : MasterParams P) → Frame P m (obj_thread_round P m)
  unfolding obj_thread_round
  obj_thread_round-Frame m =
      let (same, f) = update_objs-Frame m.m_obj_vec m in
      record {
        vec = f.vec;
        next = f.next;
        ip = f.ip;
        rest_port = f.rest_port;
        alive = f.alive;
        ids = same;
      }
