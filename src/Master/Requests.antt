-- ===== src/Master/Requests.antt =====
-- The request handlers of src/master.cpp against the invariant of its tables.
use aistream.Base.{
  inl, inr, is_negative, is_not_positive, ℕ, ◌≡◌, refl, Option, none, some, Text, text, ℤ, int_eq,
  Distinct, Distinct-snoc, Bool-cases, Option-cases,
}
use aistream.Platform.{Platform}
use aistream.Share.{
  get_str_val_from_json, get_int_val_from_json, get_obj_buf_from_json, add_str_json,
}
use aistream.Master.State.{MObjParam, MasterParams}
use aistream.Master.Http.{http_start, http_stop, http_to_slave, slave_system_init}
use aistream.Master.Slaves.{m_add_slave, m_del_slave}
use aistream.Master.Objects.{
  write_obj, get_m_obj, new_obj, push_obj, m_add_obj, m_del_obj, add_task, del_task,
}
use aistream.Master.Rest.{
  request_set_output, request_add_slave, request_del_slave, request_add_stream, update_load,
  request_del_obj, request_start_task, request_stop_task,
}
use aistream.Master.Frame.{Frame, Frame-refl, obj_ids}
use aistream.Master.Steps.{
  http_start-Frame, http_stop-Frame, http_to_slave-Frame, slave_system_init-Frame, set_load-Frame,
}
use aistream.Master.Valid.{IsValid, Frame-IsValid, m_add_slave-IsValid, m_del_slave-IsValid}
use aistream.Master.ObjIds.{find_obj-none, erase_obj-Distinct, write_obj-ids, obj_ids-snoc}

module _ (P : Platform) where
  -- A new table of objects with distinct ids, and records of what was done.
  pub with_objs :
      (m m' : MasterParams P)
      → m'.m_slave_vec ≡ m.m_slave_vec
      → m'.next_slave ≡ m.next_slave
      → m'.slave_at ≡ m.slave_at
      → Distinct int_eq (obj_ids m'.m_obj_vec)
      → IsValid P m
      → IsValid P m'
  with_objs m m' e n s d v = record {
    below = rw (e, n) v.below;
    endpoints = rw (e, s) v.endpoints;
    registered = rw (e, s) v.registered;
    ids = d;
  }

  m_add_obj-IsValid :
      (buf : Text) (m : MasterParams P)
      → get_m_obj P (new_obj P buf).id m ≡ none
      → IsValid P m
      → IsValid P (m_add_obj P buf m)
  unfolding m_add_obj push_obj get_m_obj
  m_add_obj-IsValid buf m free v =
      with_objs m (m_add_obj P buf m) refl refl refl
        (rw obj_ids-snoc (
          Distinct-snoc int_eq (obj_ids m.m_obj_vec) (new_obj P buf).id v.ids
            (find_obj-none (new_obj P buf).id m.m_obj_vec free)))
        v

  m_del_obj-IsValid : (id : ℤ) (m : MasterParams P) → IsValid P m → IsValid P (m_del_obj P id m)
  unfolding m_del_obj
  m_del_obj-IsValid id m v =
      with_objs m (m_del_obj P id m) refl refl refl (erase_obj-Distinct id m.m_obj_vec v.ids) v

  pub request_add_stream-IsValid :
      (type buf : Text) (m : MasterParams P)
      → IsValid P m
      → IsValid P (request_add_stream P type buf m).0
  unfolding request_add_stream new_obj
  request_add_stream-IsValid type buf m v =
      elim (Option-cases (add_str_json P buf type (some (text "type")) none none)) [
        | inl e ↦ rw (e, request_add_stream) v
        | inr (buf1, e) ↦
            let id = get_int_val_from_json P buf1 (some (text "id")) none none in
            elim (Bool-cases (is_not_positive id)) [
              | inl b ↦ rw (e, b, request_add_stream) v
              | inr b ↦ elim (Option-cases (get_m_obj P id m)) [
                | inl g ↦
                    let v' = m_add_obj-IsValid buf1 m g v in
                    rw (e, b, g, request_add_stream)
                      (with_objs (m_add_obj P buf1 m) _ refl refl refl v'.ids v')
                | inr (obj, g) ↦ rw (e, b, g, request_add_stream) v
              ]
            ]
      ]

  pub set_output-IsValid :
      (buf : Text) (m : MasterParams P) → IsValid P m → IsValid P (request_set_output P buf m).0
  unfolding request_set_output
  set_output-IsValid buf m v =
      let m0 = record m { output = some buf } in
      let v0 : IsValid P m0 = with_objs m m0 refl refl refl v.ids v in
      let m1 = http_to_slave P buf (text "/api/system/set/output") m0 in
      let v1 : IsValid P m1 =
        Frame-IsValid P m0 m1 (http_to_slave-Frame P buf (text "/api/system/set/output") m0) v0 in
      with_objs m1 (request_set_output P buf m).0 refl refl refl v1.ids v1

  pub request_add_slave-IsValid :
      (buf : Text) (m : MasterParams P) → IsValid P m → IsValid P (request_add_slave P buf m).0
  unfolding request_add_slave
  request_add_slave-IsValid buf m v =
      let r = m_add_slave P buf m in
      let (v1, reg) = m_add_slave-IsValid P buf m v in
      let rest_port = get_int_val_from_json P buf (some (text "rest_port")) none none in
      elim (Option-cases r.0) [
        | inl e ↦ rw (e, request_add_slave) v1
        | inr (a, e) ↦
            elim (Option-cases (get_str_val_from_json P buf (some (text "ip")) none none)) [
              | inl g ↦ rw (e, g, request_add_slave) v1
              | inr (ip, g) ↦ elim (Bool-cases (is_negative rest_port)) [
                | inl b ↦ rw (e, g, b, request_add_slave) v1
                | inr b ↦
                    let v2 = Frame-IsValid P r.1 _ (slave_system_init-Frame P a r.1 (reg a e)) v1 in
                    rw (e, g, b, request_add_slave)
                      (with_objs (slave_system_init P a r.1) _ refl refl refl v2.ids v2)
              ]
            ]
      ]

  pub request_del_slave-IsValid :
      (buf : Text) (m : MasterParams P) → IsValid P m → IsValid P (request_del_slave P buf m).0
  unfolding request_del_slave
  request_del_slave-IsValid buf m v =
      let rest_port = get_int_val_from_json P buf (some (text "rest_port")) none none in
      elim (Option-cases (get_str_val_from_json P buf (some (text "ip")) none none)) [
        | inl g ↦ rw (g, request_del_slave) v
        | inr (ip, g) ↦ elim (Bool-cases (is_negative rest_port)) [
          | inl b ↦ rw (g, b, request_del_slave) v
          | inr b ↦
              let v1 = m_del_slave-IsValid P ip rest_port m v in
              rw (g, b, request_del_slave)
                (with_objs (m_del_slave P ip rest_port m) _ refl refl refl v1.ids v1)
        ]
      ]

  update_load-Frame :
      (slave : Option ℕ) (ack : Option Text) (m : MasterParams P)
      → Frame P m (update_load P slave ack m)
  unfolding update_load
  update_load-Frame none ack m = Frame-refl P m
  update_load-Frame (some a) none m = Frame-refl P m
  update_load-Frame (some a) (some body) m = set_load-Frame P a body m

  pub request_del_obj-IsValid :
      (buf : Text) (m : MasterParams P) → IsValid P m → IsValid P (request_del_obj P buf m).0
  unfolding request_del_obj
  request_del_obj-IsValid buf m v =
      let id = get_int_val_from_json P buf (some (text "id")) none none in
      elim (Bool-cases (is_negative id)) [
        | inl b ↦ rw (b, request_del_obj) v
        | inr b ↦ elim (Option-cases (get_m_obj P id m)) [
          | inl g ↦ rw (b, g, request_del_obj) v
          | inr (obj, g) ↦
              let r = http_stop P obj buf (text "/api/obj/del") 30 m in
              let v1 =
                Frame-IsValid P m r.1 (http_stop-Frame P obj buf (text "/api/obj/del") 30 m) v in
              let v2 = Frame-IsValid P r.1 _ (update_load-Frame obj.slave r.0 r.1) v1 in
              let v3 = m_del_obj-IsValid id (update_load P obj.slave r.0 r.1) v2 in
              rw (b, g, request_del_obj)
                (with_objs (m_del_obj P id (update_load P obj.slave r.0 r.1)) _ refl refl refl
                  v3.ids v3)
        ]
      ]

  written-IsValid :
      (obj : MObjParam) (m m' : MasterParams P)
      → m'.m_slave_vec ≡ m.m_slave_vec
      → m'.next_slave ≡ m.next_slave
      → m'.slave_at ≡ m.slave_at
      → m'.m_obj_vec ≡ write_obj obj m.m_obj_vec
      → IsValid P m
      → IsValid P m'
  written-IsValid obj m m' e n s o v =
      with_objs m m' e n s (rw (o, write_obj-ids obj m.m_obj_vec) v.ids) v

  pub request_start_task-IsValid :
      (buf : Text) (m : MasterParams P) → IsValid P m → IsValid P (request_start_task P buf m).0
  unfolding request_start_task
  request_start_task-IsValid buf m v =
      let id = get_int_val_from_json P buf (some (text "id")) none none in
      elim (Option-cases (get_obj_buf_from_json P buf (some (text "data")) none none)) [
        | inl e ↦ rw (e, request_start_task) v
        | inr (params, e) ↦ elim (Bool-cases (is_negative id)) [
          | inl b ↦ rw (e, b, request_start_task) v
          | inr b ↦ elim (Option-cases (get_m_obj P id m)) [
            | inl g ↦ rw (e, b, g, request_start_task) v
            | inr (obj, g) ↦
                let obj0 = add_task P params obj in
                let r = http_start P obj0 buf (text "/api/task/start") m in
                let (same, f) = http_start-Frame P obj0 buf (text "/api/task/start") m in
                rw (e, b, g, request_start_task)
                  (written-IsValid r.0 r.1 _ refl refl refl refl (Frame-IsValid P m r.1 f v))
          ]
        ]
      ]

  pub request_stop_task-IsValid :
      (buf : Text) (m : MasterParams P) → IsValid P m → IsValid P (request_stop_task P buf m).0
  unfolding request_stop_task
  request_stop_task-IsValid buf m v =
      let id = get_int_val_from_json P buf (some (text "id")) none none in
      elim (Option-cases
        (get_str_val_from_json P buf (some (text "data")) (some (text "task")) none)) [
          | inl e ↦ rw (e, request_stop_task) v
          | inr (task, e) ↦
              elim (Option-cases (get_obj_buf_from_json P buf (some (text "data")) none none)) [
                | inl d ↦ rw (e, d, request_stop_task) v
                | inr (params, d) ↦ elim (Bool-cases (is_negative id)) [
                  | inl b ↦ rw (e, d, b, request_stop_task) v
                  | inr b ↦ elim (Option-cases (get_m_obj P id m)) [
                    | inl g ↦ rw (e, d, b, g, request_stop_task) v
                    | inr (obj, g) ↦ elim (Option-cases (del_task P task obj)) [
                      | inl t ↦ rw (e, d, b, g, t, request_stop_task) v
                      | inr (obj1, t) ↦
                          let r = http_stop P obj1 buf (text "/api/task/stop") 30 m in
                          let f = http_stop-Frame P obj1 buf (text "/api/task/stop") 30 m in
                          rw (e, d, b, g, t, request_stop_task)
                            (written-IsValid (record obj1 { status = 0 }) r.1 _ refl refl refl refl
                              (Frame-IsValid P m r.1 f v))
                    ]
                  ]
                ]
              ]
        ]
