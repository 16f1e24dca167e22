-- ===== src/Master/Rest.antt =====
-- src/master.cpp: the request handlers of the master that change its state, and its event loop.
-- A handler gives the new state and the body of the reply; `none` stands for the default body.
use aistream.Base.{
  ℕ, ◌&&◌, if◌then◌else◌, Option, none, some, List, [], ◌∷◌, ◌++◌, Text, text, copy, text_eq, ℤ,
  pos, is_negative, is_not_positive, print_int,
}
use aistream.Platform.{Platform}
use aistream.Share.{
  get_int_val_from_json, get_str_val_from_json, get_obj_buf_from_json, add_str_json,
}
use aistream.Master.State.{
  MasterParams, record_db, check_err_msg, db_update_int, db_update_pair, db_update_field,
  db_del_int, db_del_pair,
}
use aistream.Master.Http.{http_start, http_stop, http_to_slave, set_load, slave_system_init}
use aistream.Master.Slaves.{m_add_slave, m_del_slave, slave_thread_round, slave_cb}
use aistream.Master.Objects.{
  get_m_obj, m_add_obj, m_del_obj, write_obj, add_task, del_task, obj_thread_round, obj_cb,
  system_init_cb,
}

module _ (P : Platform) where
  abbrev Reply : Type 0
  Reply = MasterParams P × Option Text

  abbrev str_of : Text → Text → Option Text
  str_of buf name = get_str_val_from_json P buf (some name) none none

  abbrev int_of : Text → Text → ℤ
  int_of buf name = get_int_val_from_json P buf (some name) none none

  abbrev fails : Text → MasterParams P → Reply
  fails msg m = (m, check_err_msg (copy 127 msg))

  unfoldable pub request_login : Text → MasterParams P → Reply
  request_login buf m =
      let refused : Reply = (m, check_err_msg (text "username/password is error")) in
      elim (str_of buf (text "username")) [
        | none ↦ refused
        | some username ↦ elim (str_of buf (text "password")) [
          | none ↦ refused
          | some password ↦
              if text_eq username (text "admin") && text_eq password (text "123456")
              then (m, none)
              else refused
        ]
      ]

  unfoldable pub request_system_init : Text → MasterParams P → Reply
  request_system_init buf m = (
    record_db P
        (db_update_int (text "system") (text "{\"init\":{\"flag\":1,\"data\":{}}}")
          (text "init.flag") (pos 1))
        m,
    none,
  )

  unfoldable pub request_set_output : Text → MasterParams P → Reply
  request_set_output buf m =
      let m1 =
        http_to_slave P buf (text "/api/system/set/output") (record m { output = some buf }) in
      let tmp = copy 511 (text "{\"output\":{\"flag\":1,\"data\":" ++ (buf ++ text "}}")) in
      (record_db P (db_update_int (text "system") tmp (text "output.flag") (pos 1)) m1, none)

  unfoldable pub request_add_slave : Text → MasterParams P → Reply
  request_add_slave buf m =
      let rest_port = int_of buf (text "rest_port") in
      let (slave, m1) = m_add_slave P buf m in
      elim slave [
        | none ↦ fails (text "add slave failed") m1
        | some a ↦ elim (str_of buf (text "ip")) [
          | none ↦ fails (text "add slave failed") m1
          | some ip ↦ if is_negative rest_port then fails (text "add slave failed") m1 else (
            record_db P
                (db_update_pair (text "slave") buf (text "ip") ip (text "rest_port") rest_port)
                (slave_system_init P a m1),
            none,
          )
        ]
      ]

  unfoldable pub request_del_slave : Text → MasterParams P → Reply
  request_del_slave buf m =
      let rest_port = int_of buf (text "rest_port") in
      elim (str_of buf (text "ip")) [
        | none ↦ fails (text "get ip/port failed") m
        | some ip ↦ if is_negative rest_port then fails (text "get ip/port failed") m else (
          record_db P (db_del_pair (text "slave") (text "ip") ip (text "rest_port") rest_port)
              (m_del_slave P ip rest_port m),
          none,
        )
      ]

  -- The body that request_add_rtsp and request_add_rtmp share, word for word.
  unfoldable pub request_add_stream : Text → Text → MasterParams P → Reply
  request_add_stream type buf m = elim (add_str_json P buf type (some (text "type")) none none) [
    | none ↦ fails (text "parse json failed") m
    | some buf1 ↦
        let id = int_of buf1 (text "id") in
        if is_not_positive id then fails (text "get id failed") m else (elim (get_m_obj P id m) [
          | some obj ↦ fails (text "obj " ++ (print_int id ++ text " exist")) m
          | none ↦ (
            record_db P (db_update_int (text "obj") buf1 (text "id") id) (m_add_obj P buf1 m),
            none,
          )
        ])
  ]

  unfoldable pub request_add_rtsp : Text → MasterParams P → Reply
  unfolding request_add_stream
  request_add_rtsp = request_add_stream (text "rtsp")

  unfoldable pub request_add_rtmp : Text → MasterParams P → Reply
  unfolding request_add_stream
  request_add_rtmp = request_add_stream (text "rtmp")

  -- The load of the object's slave after /api/obj/del, if the slave answered with one.
  unfoldable pub update_load : Option ℕ → Option Text → MasterParams P → MasterParams P
  update_load none ack m = m
  update_load (some a) none m = m
  update_load (some a) (some body) m = set_load P a body m

  unfoldable pub request_del_obj : Text → MasterParams P → Reply
  unfolding update_load
  request_del_obj buf m =
      let id = int_of buf (text "id") in
      if is_negative id then fails (text "get id failed") m else (elim (get_m_obj P id m) [
        | none ↦ (m, none)
        | some obj ↦
            let (ack, m1) = http_stop P obj buf (text "/api/obj/del") 30 m in
            (
              record_db P (db_del_int (text "obj") (text "id") id)
                  (m_del_obj P id (update_load obj.slave ack m1)),
              none,
            )
      ])

  unfoldable pub request_start_task : Text → MasterParams P → Reply
  request_start_task buf m =
      let id = int_of buf (text "id") in
      elim (get_obj_buf_from_json P buf (some (text "data")) none none) [
        | none ↦ fails (text "get id or task params failed") m
        | some params ↦
            if is_negative id
            then fails (text "get id or task params failed") m
            else (elim (get_m_obj P id m) [
              | none ↦ (m, none)
              | some obj ↦
                  let (obj1, m1) =
                    http_start P (add_task P params obj) buf (text "/api/task/start") m in
                  (
                    record_db P
                        (db_update_field (text "obj") (text "id") id (text "data.task") params
                          (text "$push"))
                        (record m1 { m_obj_vec = write_obj obj1 m1.m_obj_vec }),
                    none,
                  )
            ])
      ]

  unfoldable pub request_stop_task : Text → MasterParams P → Reply
  request_stop_task buf m =
      let id = int_of buf (text "id") in
      let refused : Reply = fails (text "get id/task failed") m in
      elim (get_str_val_from_json P buf (some (text "data")) (some (text "task")) none) [
        | none ↦ refused
        | some task ↦ elim (get_obj_buf_from_json P buf (some (text "data")) none none) [
          | none ↦ refused
          | some params ↦ if is_negative id then refused else (elim (get_m_obj P id m) [
            | none ↦ fails (text "get obj " ++ (print_int id ++ text " failed")) m
            | some obj ↦ elim (del_task P task obj) [
              | none ↦
                  fails (text "del task failed, id:" ++ (print_int id ++ (text ", task:" ++ task)))
                    m
              | some obj1 ↦
                  let m1 = (http_stop P obj1 buf (text "/api/task/stop") 30 m).1 in
                  (
                    record_db P
                        (db_update_field (text "obj") (text "id") id (text "data.task") params
                          (text "$pull"))
                        (record m1 {
                          m_obj_vec = write_obj (record obj1 { status = 0 }) m1.m_obj_vec;
                        }),
                    none,
                  )
            ]
          ])
        ]
      ]

-- What happens to the master after its start: the entries of the table rest_url_map that change
-- state, and the rounds of its two threads.
pub data Event : Type 0 where
  login system_init set_output add_slave del_slave : Text → Event
  add_rtsp add_rtmp del_obj start_task stop_task : Text → Event
  slave_round obj_round : Event

module _ (P : Platform) where
  unfoldable pub step : MasterParams P → Event → MasterParams P
  step m (login buf) = (request_login P buf m).0
  step m (system_init buf) = (request_system_init P buf m).0
  step m (set_output buf) = (request_set_output P buf m).0
  step m (add_slave buf) = (request_add_slave P buf m).0
  step m (del_slave buf) = (request_del_slave P buf m).0
  step m (add_rtsp buf) = (request_add_rtsp P buf m).0
  step m (add_rtmp buf) = (request_add_rtmp P buf m).0
  step m (del_obj buf) = (request_del_obj P buf m).0
  step m (start_task buf) = (request_start_task P buf m).0
  step m (stop_task buf) = (request_stop_task P buf m).0
  step m slave_round = slave_thread_round P m
  step m obj_round = obj_thread_round P m

  unfoldable pub run : MasterParams P → List Event → MasterParams P
  run m [] = m
  run m (e ∷ es) = run (step m e) es

  each : (Text → MasterParams P → MasterParams P) → List Text → MasterParams P → MasterParams P
  each cb [] m = m
  each cb (doc ∷ docs) m = each cb docs (cb doc m)

  -- MasterParams::Start: the documents of the three tables of the database.
  unfoldable pub start : List Text → List Text → List Text → MasterParams P → MasterParams P
  unfolding each
  start systems slaves objs m =
      each (obj_cb P) objs (each (slave_cb P) slaves (each (system_init_cb P) systems m))
