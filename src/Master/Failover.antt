-- ===== src/Master/Failover.antt =====
-- UpdateObjTask of src/master.cpp: the move of an object that has lost its slave.
use aistream.Base.{
  ℕ, true, false, ◌≡◌, refl, sym, ◌∙◌, none, some, List, [], ◌∷◌, ◌++◌, Text, text, inl, inr,
  Bool-cases, map, ap, ==_self,
}
use mathlib.Core.List.{append-nil, append_assoc}
use aistream.Platform.{Platform, Request}
use aistream.Share.{get_str_val_from_json, get_double_val_from_json}
use aistream.Master.State.{MObjParam, SlaveParam, MasterParams, send, post_to}
use aistream.Master.Http.{
  get_lowest_slave, set_load, assign_ack, assign_obj_to_slave, start_on_slave, http_start,
}
use aistream.Master.Objects.{start_body, start_tasks, is_on_live_slave, update_obj_task}

module _ (P : Platform) where
  -- The request that gives an object of this type to a slave, and the one that starts a task on it.
  abbrev pub add_request : SlaveParam P → Text → MObjParam → Request
  add_request s type obj = post_to P s (text "/api/obj/add/" ++ type) obj.params 3

  abbrev pub start_request : SlaveParam P → MObjParam → Text → Request
  start_request s obj task = post_to P s (text "/api/task/start") (start_body P obj.id task) 3

  abbrev sending : MasterParams P → List Request → MasterParams P
  sending m rs = record m { sent = m.sent ++ rs }

  -- The object once it runs on slave a.
  abbrev pub running_on : ℕ → MObjParam → MObjParam
  running_on a obj = record obj { slave = some a; status = 1 }

  http_start_live :
      (obj : MObjParam) (a : ℕ) (buf path : Text) (m : MasterParams P)
      → (m.slave_at a).alive ≡ true
      → http_start P (record obj { slave = some a }) buf path m
        ≡ (running_on a obj, (send P (post_to P (m.slave_at a) path buf 3) m).1)
  unfolding http_start start_on_slave
  http_start_live obj a buf path m l = rw l

  start_tasks_live :
      (tasks : List Text) (obj : MObjParam) (a : ℕ) (m : MasterParams P)
      → (m.slave_at a).alive ≡ true
      → start_tasks P tasks (running_on a obj) m
        ≡ (running_on a obj, sending m (map (start_request (m.slave_at a) obj) tasks))
  unfolding start_tasks
  start_tasks_live [] obj a m l =
      let with_sent : List Request → MObjParam × MasterParams P =
        λ rs. (running_on a obj, record m { sent = rs }) in
      sym (ap with_sent (append-nil m.sent))
  start_tasks_live (task ∷ tasks) obj a m l =
      let r = start_request (m.slave_at a) obj task in
      let with_sent : List Request → MObjParam × MasterParams P =
        λ rs. (running_on a obj, record m { sent = rs }) in
      rw
        (http_start_live (running_on a obj) a (start_body P obj.id task) (text "/api/task/start") m
          l)
        (start_tasks_live tasks obj a (sending m (r ∷ [])) l
          ∙ ap with_sent
              (append_assoc m.sent (r ∷ []) (map (start_request (m.slave_at a) obj) tasks)))

  -- The same for an object that has the slave and does not run yet.
  start_tasks_assigned :
      (task : Text) (tasks : List Text) (obj : MObjParam) (a : ℕ) (m : MasterParams P)
      → (m.slave_at a).alive ≡ true
      → start_tasks P (task ∷ tasks) (record obj { slave = some a }) m
        ≡ (running_on a obj, sending m (map (start_request (m.slave_at a) obj) (task ∷ tasks)))
  unfolding start_tasks
  start_tasks_assigned task tasks obj a m l =
      let r = start_request (m.slave_at a) obj task in
      let with_sent : List Request → MObjParam × MasterParams P =
        λ rs. (running_on a obj, record m { sent = rs }) in
      rw (http_start_live obj a (start_body P obj.id task) (text "/api/task/start") m l) (
        start_tasks_live tasks obj a (sending m (r ∷ [])) l
        ∙ ap with_sent
            (append_assoc m.sent (r ∷ []) (map (start_request (m.slave_at a) obj) tasks)))

  -- The load in an answer changes no alive flag, and no request to the slave.
  set_load_same :
      (a : ℕ) (body : Text) (obj : MObjParam) (m : MasterParams P)
      → let m' = set_load P a body m in
        ((m'.slave_at a).alive ≡ (m.slave_at a).alive)
        × (start_request (m'.slave_at a) obj ≡ start_request (m.slave_at a) obj)
        × (m'.sent ≡ m.sent)
  unfolding set_load
  set_load_same a body obj m =
      elim (Bool-cases (
        P.double_ge_zero
          (get_double_val_from_json P body (some (text "data")) (some (text "load")) none))) [
            | inl e ↦ rw (e, ==_self a) (refl, refl, refl)
            | inr e ↦ rw e (refl, refl, refl)
          ]

  assign_obj_to_slave_free :
      (obj : MObjParam) (m : MasterParams P) (a : ℕ) (type body : Text)
      → get_lowest_slave P m ≡ some a
      → get_str_val_from_json P obj.params (some (text "type")) none none ≡ some type
      → P.respond m.sent (add_request (m.slave_at a) type obj) ≡ some body
      → assign_obj_to_slave P obj m ≡ (
        record obj { slave = some a },
        set_load P a body (sending m (add_request (m.slave_at a) type obj ∷ [])),
        true,
      )
  unfolding assign_obj_to_slave assign_ack
  assign_obj_to_slave_free obj m a type body low ty ack = rw (low, ty, ack, assign_obj_to_slave)

  update_obj_task_assigned :
      (obj obj1 : MObjParam) (m m1 : MasterParams P) (task : Text) (tasks : List Text)
      → obj.m_task_vec ≡ task ∷ tasks
      → is_on_live_slave P m obj ≡ false
      → assign_obj_to_slave P obj m ≡ (obj1, m1, true)
      → update_obj_task P obj m ≡ start_tasks P (task ∷ tasks) obj1 m1
  unfolding update_obj_task
  update_obj_task_assigned obj obj1 m m1 task tasks has dead assigned =
      simp (has, dead, assigned, update_obj_task)

  -- An object with tasks that is not on a live slave, while a slave is free, its type is known and
  -- that slave answers: the object moves to the slave and runs there, and the slave is sent the
  -- object and then a start of each of its tasks, in their order.
  pub update_obj_task_moves :
      (obj : MObjParam) (m : MasterParams P) (a : ℕ) (task : Text) (tasks : List Text)
      (type body : Text)
      → obj.m_task_vec ≡ task ∷ tasks
      → is_on_live_slave P m obj ≡ false
      → get_lowest_slave P m ≡ some a
      → (m.slave_at a).alive ≡ true
      → get_str_val_from_json P obj.params (some (text "type")) none none ≡ some type
      → P.respond m.sent (add_request (m.slave_at a) type obj) ≡ some body
      → let (obj', m') = update_obj_task P obj m in
        (obj' ≡ running_on a obj)
        × (m'.sent
            ≡ m.sent
              ++ add_request (m.slave_at a) type obj
                ∷ map (start_request (m.slave_at a) obj) (task ∷ tasks))
  update_obj_task_moves obj m a task tasks type body has dead low live ty ack =
      let m1 = sending m (add_request (m.slave_at a) type obj ∷ []) in
      let m2 = set_load P a body m1 in
      let (alive, requests, sent) = set_load_same a body obj m1 in
      let assigned = assign_obj_to_slave_free obj m a type body low ty ack in
      let updated =
        update_obj_task_assigned obj (record obj { slave = some a }) m m2 task tasks has dead
          assigned in
      let started = start_tasks_assigned task tasks obj a m2 (alive ∙ live) in
      rw (updated ∙ started) (
        refl,
        rw sent (
            ap (λ (f : Text → Request). m1.sent ++ map f (task ∷ tasks)) requests
            ∙ append_assoc m.sent (add_request (m.slave_at a) type obj ∷ [])
                (map (start_request (m.slave_at a) obj) (task ∷ tasks))),
      )
