-- ===== src/Master/Steps.antt =====
-- The frame of each part of src/master.cpp that works on registered slaves.
use aistream.Base.{
  option, ℕ, ◌≡◌, refl, ◌∙◌, inl, inr, Option, none, some, List, [], ◌∷◌, ◌++◌, Text, text, Has,
  Bool-cases, Option-cases, ◌==◌, if◌then◌else◌,
}
use aistream.Platform.{Platform, Request}
use aistream.Share.{get_str_val_from_json, get_double_val_from_json, get_array_buf_from_json}
use aistream.Master.State.{MObjParam, SlaveParam, MasterParams, send, post_to}
use aistream.Master.Http.{
  set_load, assign_ack, init_ack, get_lowest_slave, assign_obj_to_slave, start_on_slave, http_start,
  http_stop, http_to_slaves, http_to_slave, set_httpfile_task, slave_system_init,
}
use aistream.Master.Frame.{
  Frame, Frame-refl, Frame-trans, Frame-send, Frame-write_same, Frame-write_registered,
}

module _ (P : Platform) where
  pub set_load-Frame : (a : ℕ) (body : Text) (m : MasterParams P) → Frame P m (set_load P a body m)
  unfolding set_load
  set_load-Frame a body m =
      elim (Bool-cases (
        P.double_ge_zero
          (get_double_val_from_json P body (some (text "data")) (some (text "load")) none))) [
            | inl e ↦ rw e (Frame-write_same P m a _ refl refl (λ h. h))
            | inr e ↦ rw e (Frame-refl P m)
          ]

  assign_ack-Frame :
      (obj : MObjParam) (a : ℕ) (ack : Option Text) (m : MasterParams P)
      → let (obj1, m1, assigned) = assign_ack P obj a ack m in (obj1.id ≡ obj.id) × Frame P m m1
  unfolding assign_ack
  assign_ack-Frame obj a none m = (refl, Frame-write_same P m a _ refl refl (λ h. cc))
  assign_ack-Frame obj a (some body) m = (refl, set_load-Frame a body m)

  -- The id of the object that comes out, and the frame of what was done for it.
  pub assign_obj_to_slave-Frame :
      (obj : MObjParam) (m : MasterParams P)
      → let (obj1, m1, assigned) = assign_obj_to_slave P obj m in (obj1.id ≡ obj.id) × Frame P m m1
  unfolding assign_obj_to_slave
  assign_obj_to_slave-Frame obj m = elim (Option-cases (get_lowest_slave P m)) [
    | inl e ↦ rw (e, assign_obj_to_slave) (refl, Frame-refl P m)
    | inr (a, e) ↦
        elim (Option-cases (get_str_val_from_json P obj.params (some (text "type")) none none)) [
          | inl g ↦ rw (e, g, assign_obj_to_slave) (refl, Frame-refl P m)
          | inr (type, g) ↦
              let request = post_to P (m.slave_at a) (text "/api/obj/add/" ++ type) obj.params 3 in
              let m1 = (send P request m).1 in
              let (same, f) = assign_ack-Frame obj a (P.respond m.sent request) m1 in
              rw (e, g, assign_obj_to_slave) (same, Frame-trans P m m1 _ (Frame-send P m request) f)
        ]
  ]

  start_on_slave-Frame :
      (obj : MObjParam) (buf path : Text) (m : MasterParams P)
      → let (obj1, m1) = start_on_slave P obj buf path m in (obj1.id ≡ obj.id) × Frame P m m1
  unfolding start_on_slave
  start_on_slave-Frame obj buf path m = elim (Option-cases obj.slave) [
    | inl e ↦ rw (e, start_on_slave) (refl, Frame-refl P m)
    | inr (a, e) ↦ elim (Bool-cases (m.slave_at a).alive) [
      | inl l ↦ rw (e, l, start_on_slave) (refl, Frame-send P m _)
      | inr l ↦ rw (e, l, start_on_slave) (refl, Frame-refl P m)
    ]
  ]

  pub http_start-Frame :
      (obj : MObjParam) (buf path : Text) (m : MasterParams P)
      → let (obj1, m1) = http_start P obj buf path m in (obj1.id ≡ obj.id) × Frame P m m1
  unfolding http_start
  http_start-Frame obj buf path m = elim (Option-cases obj.slave) [
    | inr (a, e) ↦ rw (e, http_start) (start_on_slave-Frame obj buf path m)
    | inl e ↦
        let r = assign_obj_to_slave P obj m in
        let (same, f) = assign_obj_to_slave-Frame obj m in
        elim (Bool-cases r.2) [
          | inl l ↦
              let (same', g) = start_on_slave-Frame r.0 buf path r.1 in
              rw (e, l, http_start) (same' ∙ same, Frame-trans P m r.1 _ f g)
          | inr l ↦ rw (e, l, http_start) (same, f)
        ]
  ]

  pub http_stop-Frame :
      (obj : MObjParam) (buf path : Text) (timeout_sec : ℕ) (m : MasterParams P)
      → Frame P m (http_stop P obj buf path timeout_sec m).1
  unfolding http_stop
  http_stop-Frame obj buf path timeout_sec m = elim (Option-cases obj.slave) [
    | inl e ↦ rw (e, http_stop) (Frame-refl P m)
    | inr (a, e) ↦ elim (Bool-cases (m.slave_at a).alive) [
      | inl l ↦ rw (e, l, http_stop) (Frame-send P m _)
      | inr l ↦ rw (e, l, http_stop) (Frame-refl P m)
    ]
  ]

  post_if_alive-Frame :
      (a : ℕ) (r : Request) (m : MasterParams P)
      → Frame P m (if (m.slave_at a).alive then (send P r m).1 else m)
  post_if_alive-Frame a r m = elim (Bool-cases (m.slave_at a).alive) [
    | inl l ↦ rw l (Frame-send P m r)
    | inr l ↦ rw l (Frame-refl P m)
  ]

  http_to_slaves-Frame :
      (xs : List ℕ) (buf path : Text) (m : MasterParams P)
      → Frame P m (http_to_slaves P xs buf path m)
  unfolding http_to_slaves
  http_to_slaves-Frame [] buf path m = Frame-refl P m
  http_to_slaves-Frame (a ∷ xs) buf path m =
      Frame-trans P m _ _ (post_if_alive-Frame a (post_to P (m.slave_at a) path buf 3) m)
        (http_to_slaves-Frame xs buf path _)

  pub http_to_slave-Frame :
      (buf path : Text) (m : MasterParams P) → Frame P m (http_to_slave P buf path m)
  unfolding http_to_slave
  http_to_slave-Frame buf path m = http_to_slaves-Frame m.m_slave_vec buf path m

  set_httpfile_task_endpoint :
      (body : Text) (s : SlaveParam P)
      → ((set_httpfile_task P body s).ip ≡ s.ip)
        × ((set_httpfile_task P body s).rest_port ≡ s.rest_port)
  unfolding set_httpfile_task
  set_httpfile_task_endpoint body s =
      elim (Option-cases
        (get_array_buf_from_json P body (some (text "data")) (some (text "httpfile")) none)) [
          | inl e ↦ rw (e, set_httpfile_task) (refl, refl)
          | inr ((array, size), e) ↦ elim (Bool-cases (size == 0)) [
            | inl z ↦ rw (e, z, set_httpfile_task) (refl, refl)
            | inr z ↦ rw (e, z, set_httpfile_task) (refl, refl)
          ]
        ]

  option-send-Frame :
      (output : Option Text) (r : Text → Request) (m : MasterParams P)
      → Frame P m (option m (λ o. (send P (r o) m).1) output)
  option-send-Frame none r m = Frame-refl P m
  option-send-Frame (some o) r m = Frame-send P m (r o)

  init_ack-Frame :
      (a timeout_sec : ℕ) (ack : Option Text) (m : MasterParams P)
      → Has a m.m_slave_vec
      → Frame P m (init_ack P a timeout_sec ack m)
  unfolding init_ack
  init_ack-Frame a timeout_sec none m h = Frame-write_same P m a _ refl refl (λ l. cc)
  init_ack-Frame a timeout_sec (some body) m h =
      let (ip, port) = set_httpfile_task_endpoint body (m.slave_at a) in
      Frame-trans P m _ _ (Frame-write_registered P m a _ h ip port)
        (option-send-Frame m.output _ _)

  pub slave_system_init-Frame :
      (a : ℕ) (m : MasterParams P) → Has a m.m_slave_vec → Frame P m (slave_system_init P a m)
  unfolding slave_system_init
  slave_system_init-Frame a m h = Frame-trans P m _ _ (Frame-send P m _) (init_ack-Frame a _ _ _ h)
