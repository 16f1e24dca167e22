-- ===== src/Master/Slaves.antt =====
-- src/master.cpp: the registered slaves, and the thread that watches whether they are online.
use aistream.Base.{
  ℕ, ◌+◌, ◌%◌, zero, suc, Bool, true, false, ◌&&◌, ◌||◌, is_none, not, if◌then◌else◌, Option, none,
  some, List, [], ◌∷◌, ◌++◌, Text, text, copy, text_eq, ℤ, pos, int_eq, is_negative, ◌==◌, ltb, leb,
  map, option,
}
use aistream.Platform.{Platform, Request}
use aistream.Share.{
  get_int_val_from_json, get_str_val_from_json, get_array_buf_from_json, get_buf_from_array,
}
use aistream.Master.State.{MObjParam, SlaveParam, MasterParams, write, send, get_from}
use aistream.Master.Http.{slave_system_init}

module _ (P : Platform) where
  -- rest_port == slave->rest_port && !strncmp(slave->ip, ip, sizeof(slave->ip))
  abbrev pub is_endpoint : Text → ℤ → SlaveParam P → Bool
  is_endpoint ip rest_port s = int_eq rest_port s.rest_port && text_eq (copy 128 s.ip) (copy 128 ip)

  unfoldable pub find_slave : MasterParams P → Text → ℤ → List ℕ → Option ℕ
  find_slave m ip rest_port [] = none
  find_slave m ip rest_port (a ∷ rest) =
      if is_endpoint ip rest_port (m.slave_at a) then some a else find_slave m ip rest_port rest

  unfoldable pub get_slave : Text → ℤ → MasterParams P → Option ℕ
  unfolding find_slave
  get_slave ip rest_port m = find_slave m ip rest_port m.m_slave_vec

  -- A new slave, as its constructor and MAddSlave fill it.
  unfoldable pub new_slave : Text → Text → Option Text → ℤ → SlaveParam P
  new_slave buf ip internet_ip rest_port = record {
    ip = copy 128 ip;
    internet_ip = option [] (copy 128) internet_ip;
    rest_port = rest_port;
    total_load = P.float_zero;
    alive = false;
    offline_cnt = 0;
    obj_id_vec = [];
    params = buf;
    httpf_task = [];
  }

  -- make_shared and push_back: the slave gets a new address.
  unfoldable pub push_slave : SlaveParam P → MasterParams P → MasterParams P
  push_slave s m = record m {
    slave_at = λ b. if m.next_slave == b then s else m.slave_at b;
    next_slave = suc m.next_slave;
    m_slave_vec = m.m_slave_vec ++ m.next_slave ∷ [];
  }

  unfoldable pub m_add_slave : Text → MasterParams P → Option ℕ × MasterParams P
  unfolding get_slave new_slave push_slave
  m_add_slave buf m =
      let internet_ip = get_str_val_from_json P buf (some (text "internet_ip")) none none in
      let rest_port = get_int_val_from_json P buf (some (text "rest_port")) none none in
      elim (get_str_val_from_json P buf (some (text "ip")) none none) [
        | none ↦ (none, m)
        | some ip ↦
            if is_negative rest_port || not (is_none (get_slave ip rest_port m))
            then (none, m)
            else (some m.next_slave, push_slave (new_slave buf ip internet_ip rest_port) m)
      ]

  -- The loop of MDelSlave: the first match is erased and marked as gone.
  unfoldable pub erase_slave : Text → ℤ → List ℕ → MasterParams P → List ℕ × MasterParams P
  erase_slave ip rest_port [] m = ([], m)
  erase_slave ip rest_port (a ∷ rest) m =
      let (rest', m') = erase_slave ip rest_port rest m in
      if is_endpoint ip rest_port (m.slave_at a)
      then (rest, write P m a (record (m.slave_at a) { alive = false }))
      else (a ∷ rest', m')

  unfoldable pub m_del_slave : Text → ℤ → MasterParams P → MasterParams P
  unfolding erase_slave
  m_del_slave ip rest_port m =
      let (rest, m') = erase_slave ip rest_port m.m_slave_vec m in record m' { m_slave_vec = rest }

  -- The object ids in the answer of a slave, from index `i` on.
  unfoldable pub status_ids : Text → ℕ → ℕ → List ℤ
  status_ids array i zero = []
  status_ids array i (suc left) =
      let rest = status_ids array (i + 1) left in
      elim (get_buf_from_array P array i) [
        | none ↦ rest
        | some arrbuf ↦
            let id = get_int_val_from_json P arrbuf (some (text "id")) none none in
            if is_negative id then rest else id ∷ rest
      ]

  -- The ids in an answer to /api/obj/status.
  unfoldable pub acked_ids : Option Text → List ℤ
  unfolding status_ids
  acked_ids none = []
  acked_ids (some body) =
      option [] (λ (array : Text × ℕ). status_ids array.0 0 array.1)
        (get_array_buf_from_json P body (some (text "data")) (some (text "obj")) none)

  unfoldable pub get_slave_obj : ℕ → MasterParams P → MasterParams P
  unfolding acked_ids
  get_slave_obj a m =
      let (ack, m1) = send P (get_from P (m.slave_at a) (text "/api/obj/status") 3) m in
      let s = m1.slave_at a in
      write P m1 a (record s { obj_id_vec = s.obj_id_vec ++ acked_ids ack })

  -- system_init in an answer to /api/system/status is 0: the slave has not been initialised.
  abbrev pub is_uninitialised : Text → Bool
  is_uninitialised body =
      int_eq (get_int_val_from_json P body (some (text "data")) (some (text "system_init")) none)
        (pos 0)

  -- The end of SlaveCB, with the answer to /api/system/status.
  unfoldable pub status_ack : ℕ → Option Text → MasterParams P → MasterParams P
  unfolding get_slave_obj
  status_ack a none m = m
  status_ack a (some body) m =
      let m1 = write P m a (record (m.slave_at a) { alive = true }) in
      get_slave_obj a (if is_uninitialised body then slave_system_init P a m1 else m1)

  -- A slave document of the database, when the master starts.
  unfoldable pub slave_cb : Text → MasterParams P → MasterParams P
  unfolding m_add_slave status_ack
  slave_cb buf m =
      let (slave, m1) = m_add_slave buf m in
      option m1
        (λ a.
          let (ack, m2) = send P (get_from P (m1.slave_at a) (text "/api/system/status") 3) m1 in
          status_ack a ack m2)
        slave

  has_id : ℤ → List ℤ → Bool
  has_id id [] = false
  has_id id (x ∷ xs) = if int_eq id x then true else has_id id xs

  unfoldable pub find_slave_by_id : MasterParams P → ℤ → List ℕ → Option ℕ
  unfolding has_id
  find_slave_by_id m id [] = none
  find_slave_by_id m id (a ∷ rest) =
      if has_id id (m.slave_at a).obj_id_vec then some a else find_slave_by_id m id rest

  unfoldable pub get_slave_by_id : ℤ → MasterParams P → Option ℕ
  unfolding find_slave_by_id
  get_slave_by_id id m = find_slave_by_id m id m.m_slave_vec

  abbrev pub points_to : ℕ → Option ℕ → Bool
  points_to a none = false
  points_to a (some b) = a == b

  -- The objects without their pointers to slave a.
  abbrev pub detach : ℕ → List MObjParam → List MObjParam
  detach a = map (λ obj. if points_to a obj.slave then record obj { slave = none } else obj)

  unfoldable pub reset_slave_obj : ℕ → MasterParams P → MasterParams P
  reset_slave_obj a m = record m { m_obj_vec = detach a m.m_obj_vec }

  -- No answer to a status request.
  unfoldable pub missed_answer : ℕ → MasterParams P → MasterParams P
  unfolding reset_slave_obj
  missed_answer a m =
      let s = m.slave_at a in
      let m1 = write P m a (record s { offline_cnt = s.offline_cnt + 1 }) in
      let m2 = if s.alive then reset_slave_obj a m1 else m1 in
      if leb 3 (s.offline_cnt + 1)
      then write P m2 a (record (m2.slave_at a) { alive = false })
      else m1

  -- Online and restart detection, on an answer.
  unfoldable pub got_answer : ℕ → Text → MasterParams P → MasterParams P
  unfolding reset_slave_obj
  got_answer a body m =
      if (m.slave_at a).alive
      then (if is_uninitialised body then reset_slave_obj a (slave_system_init P a m) else m)
      else slave_system_init P a m

  unfoldable pub update_slave_status : ℕ → Option Text → MasterParams P → MasterParams P
  unfolding missed_answer got_answer
  update_slave_status a none m = missed_answer a m
  update_slave_status a (some body) m =
      let m1 = got_answer a body m in
      write P m1 a (record (m1.slave_at a) { alive = true; offline_cnt = 0 })

  -- A slave that is skipped in this round of SlaveThread.
  abbrev pub is_skipped : SlaveParam P → Bool
  is_skipped s = ltb 30 s.offline_cnt && not (s.offline_cnt % 6 == 0)

  abbrev pub status_request : SlaveParam P → Request
  status_request s = get_from P s (text "/api/system/status") (if s.alive then 3 else 1)

  unfoldable pub poll_slave : ℕ → MasterParams P → MasterParams P
  unfolding update_slave_status
  poll_slave a m =
      let (ack, m1) = send P (status_request (m.slave_at a)) m in
      if is_skipped (m.slave_at a) then m else update_slave_status a ack m1

  unfoldable pub poll_slaves : List ℕ → MasterParams P → MasterParams P
  unfolding poll_slave
  poll_slaves [] m = m
  poll_slaves (a ∷ rest) m = poll_slaves rest (poll_slave a m)

  -- One round of the loop of SlaveThread, between two sleeps.
  unfoldable pub slave_thread_round : MasterParams P → MasterParams P
  unfolding poll_slaves
  slave_thread_round m = poll_slaves m.m_slave_vec m
