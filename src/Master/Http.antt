-- ===== src/Master/Http.antt =====
-- src/master.cpp: the choice of a slave, and the requests that the master sends to slaves.
use aistream.Base.{
  option, ℕ, ◌+◌, zero, suc, Bool, true, false, ◌&&◌, if◌then◌else◌, Option, none, some, List, [],
  ◌∷◌, ◌++◌, Text, text, copy, is_negative, ◌==◌,
}
use aistream.Platform.{Platform}
use aistream.Share.{
  get_int_val_from_json, get_str_val_from_json, get_double_val_from_json, get_array_buf_from_json,
  get_buf_from_array,
}
use aistream.Master.State.{TaskCfg, MObjParam, SlaveParam, MasterParams, write, send, post_to}

module _ (P : Platform) where
  open P use {float_lt, slave_load_max}

  -- One round of GetLowestSlave: `slave` is the best one so far.
  unfoldable pub lower_slave : MasterParams P → Option ℕ → ℕ → Option ℕ
  lower_slave m slave a =
      if (m.slave_at a).alive && float_lt (m.slave_at a).total_load slave_load_max
      then (elim slave [
        | none ↦ some a
        | some b ↦
            if float_lt (m.slave_at a).total_load (m.slave_at b).total_load then some a else some b
      ])
      else slave

  unfoldable pub lowest_slave_loop : MasterParams P → Option ℕ → List ℕ → Option ℕ
  unfolding lower_slave
  lowest_slave_loop m slave [] = slave
  lowest_slave_loop m slave (a ∷ rest) = lowest_slave_loop m (lower_slave m slave a) rest

  unfoldable pub get_lowest_slave : MasterParams P → Option ℕ
  unfolding lowest_slave_loop
  get_lowest_slave m = lowest_slave_loop m none m.m_slave_vec

  -- The load in an answer, if it is one, becomes the slave's.
  unfoldable pub set_load : ℕ → Text → MasterParams P → MasterParams P
  set_load a body m =
      let load = get_double_val_from_json P body (some (text "data")) (some (text "load")) none in
      if P.double_ge_zero load
      then write P m a (record (m.slave_at a) { total_load = P.to_float load })
      else m

  -- The end of AssignObjToSlave, with the answer of the slave to the object.
  unfoldable pub assign_ack :
      MObjParam → ℕ → Option Text → MasterParams P → MObjParam × MasterParams P × Bool
  unfolding set_load
  assign_ack obj a none m = (obj, write P m a (record (m.slave_at a) { alive = false }), false)
  assign_ack obj a (some body) m = (record obj { slave = some a }, set_load a body m, true)

  -- The object, the master, and whether the object has been given to a slave.
  unfoldable pub assign_obj_to_slave :
      MObjParam → MasterParams P → MObjParam × MasterParams P × Bool
  unfolding assign_ack
  assign_obj_to_slave obj m = elim (get_lowest_slave m) [
    | none ↦ (obj, m, false)
    | some a ↦ elim (get_str_val_from_json P obj.params (some (text "type")) none none) [
      | none ↦ (obj, m, false)
      | some type ↦
          let (ack, m1) =
            send P (post_to P (m.slave_at a) (text "/api/obj/add/" ++ type) obj.params 3) m in
          assign_ack obj a ack m1
    ]
  ]

  -- The part of HttpStart after the object has a slave.
  unfoldable pub start_on_slave :
      MObjParam → Text → Text → MasterParams P → MObjParam × MasterParams P
  start_on_slave obj buf path m = elim obj.slave [
    | none ↦ (record obj { status = 0 }, m)
    | some a ↦
        if (m.slave_at a).alive
        then (record obj { status = 1 }, (send P (post_to P (m.slave_at a) path buf 3) m).1)
        else (record obj { status = 0 }, m)
  ]

  unfoldable pub http_start : MObjParam → Text → Text → MasterParams P → MObjParam × MasterParams P
  unfolding start_on_slave
  http_start obj buf path m = elim obj.slave [
    | none ↦
        let (obj1, m1, assigned) = assign_obj_to_slave obj m in
        if assigned then start_on_slave obj1 buf path m1 else (record obj1 { status = 0 }, m1)
    | some a ↦ start_on_slave obj buf path m
  ]

  -- The answer, if the request was sent at all.
  unfoldable pub http_stop :
      MObjParam → Text → Text → ℕ → MasterParams P → Option Text × MasterParams P
  http_stop obj buf path timeout_sec m = elim obj.slave [
    | none ↦ (none, m)
    | some a ↦
        if (m.slave_at a).alive
        then send P (post_to P (m.slave_at a) path buf timeout_sec) m
        else (none, m)
  ]

  unfoldable pub http_to_slaves : List ℕ → Text → Text → MasterParams P → MasterParams P
  http_to_slaves [] buf path m = m
  http_to_slaves (a ∷ rest) buf path m =
      http_to_slaves rest buf path
        (if (m.slave_at a).alive then (send P (post_to P (m.slave_at a) path buf 3) m).1 else m)

  unfoldable pub http_to_slave : Text → Text → MasterParams P → MasterParams P
  unfolding http_to_slaves
  http_to_slave buf path m = http_to_slaves m.m_slave_vec buf path m

  -- The rounds of SetHttpfileTask from index `i` on.
  unfoldable pub httpfile_tasks : Text → ℕ → ℕ → List TaskCfg
  httpfile_tasks array i zero = []
  httpfile_tasks array i (suc left) =
      let rest = httpfile_tasks array (i + 1) left in
      elim (get_buf_from_array P array i) [
        | none ↦ rest
        | some arrbuf ↦ elim (get_str_val_from_json P arrbuf (some (text "name")) none none) [
          | none ↦ rest
          | some name ↦
              let port = get_int_val_from_json P arrbuf (some (text "port")) none none in
              if is_negative port
              then rest
              else record { name = copy 64 name; input = []; port = port } ∷ rest
        ]
      ]

  unfoldable pub set_httpfile_task : Text → SlaveParam P → SlaveParam P
  unfolding httpfile_tasks
  set_httpfile_task buf slave =
      elim (get_array_buf_from_json P buf (some (text "data")) (some (text "httpfile")) none) [
        | none ↦ slave
        | some (array, size) ↦
            if size == 0 then slave else record slave { httpf_task = httpfile_tasks array 0 size }
      ]

  -- The end of SlaveSystemInit, with the answer to /api/system/init.
  unfoldable pub init_ack : ℕ → ℕ → Option Text → MasterParams P → MasterParams P
  unfolding set_httpfile_task
  init_ack a timeout_sec none m = write P m a (record (m.slave_at a) { alive = false })
  init_ack a timeout_sec (some body) m =
      let m1 = write P m a (record (set_httpfile_task body (m.slave_at a)) { alive = true }) in
      option m1
        (λ output.
          (send P (post_to P (m1.slave_at a) (text "/api/system/set/output") output timeout_sec)
            m1).1)
        m1.output

  unfoldable pub slave_system_init : ℕ → MasterParams P → MasterParams P
  unfolding init_ack
  slave_system_init a m =
      let slave = m.slave_at a in
      let timeout_sec = if slave.alive then 3 else 1 in
      let buf = copy 383 (
        text "{\"ip\":\""
        ++ (slave.ip ++ (text "\",\"internet_ip\":\"" ++ (slave.internet_ip ++ text "\"}")))) in
      let (ack, m1) = send P (post_to P slave (text "/api/system/init") buf timeout_sec) m in
      init_ack a timeout_sec ack m1
