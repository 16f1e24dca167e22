-- ===== src/Slave/Rest.antt =====
-- src/rest_slave.cpp: the request handlers of a slave.
use aistream.Base.{
  ℕ, suc, ◌+◌, zero, Bool, true, ◌||◌, if◌then◌else◌, Option, none, some, List, [], ◌∷◌, ◌++◌, map,
  Text, text, copy, text_eq, option, ◌>>=◌, ℤ, is_negative, is_not_positive, length,
}
use aistream.Platform.{Platform}
use aistream.Share.{
  get_int_val_from_json, get_str_val_from_json, get_obj_buf_from_json, get_array_buf_from_file,
  get_buf_from_array, get_http_file_port,
}
use aistream.Slave.{
  Object, ObjKind, SlaveNode, rtsp, rtmp, gat1400, new_task, put2_task_que, get_task,
  del_from_task_que, get_obj, put2_obj_que, del_from_obj_que, write_obj, obj_manager_round,
}

-- The body of a reply: the default one, which reports success; the load of the slave, from the
-- number of its objects; and what the other three bodies list.
pub data Reply : Type 0 where
  default_body : Reply
  load_body : ℕ → Reply
  system_status_body : Bool → Reply
  obj_status_body : List ℤ → Reply
  httpfile_body : List (Text × ℤ) → Reply

module _ (P : Platform) where
  abbrev str_of : Text → Text → Option Text
  str_of buf name = get_str_val_from_json P buf (some name) none none

  abbrev pub id_of : Text → ℤ
  id_of buf = get_int_val_from_json P buf (some (text "id")) none none

  -- The rounds of GetHttpFileTask from index `i` on.
  unfoldable pub http_file_tasks : Text → Text → ℕ → ℕ → List (Text × ℤ)
  http_file_tasks config_file array i zero = []
  http_file_tasks config_file array i (suc left) =
      let rest = http_file_tasks config_file array (i + 1) left in
      option []
        (λ (task : Text × Text).
          let port = get_http_file_port P task.0 config_file in
          if text_eq task.1 (text "img") || text_eq task.1 (text "text")
          then (if is_not_positive port then rest else (task.0, port) ∷ rest)
          else rest)
        (do
          arrbuf ← get_buf_from_array P array i
          name ← str_of arrbuf (text "name")
          input ← str_of arrbuf (text "input")
          config ← str_of arrbuf (text "config")
          some (name, input))

  unfoldable pub get_http_file_task : Text → List (Text × ℤ)
  unfolding http_file_tasks
  get_http_file_task config_file =
      option [] (λ (array : Text × ℕ). http_file_tasks config_file array.0 0 array.1)
        (get_array_buf_from_file P (text "cfg/task.json") (some (text "tasks")) none none)

  unfoldable pub request_system_init : Text → Text → SlaveNode → SlaveNode × Reply
  unfolding get_http_file_task
  request_system_init config_file buf node = elim (str_of buf (text "ip")) [
    | none ↦ (node, default_body)
    | some ip ↦ elim (str_of buf (text "internet_ip")) [
      | none ↦ (node, default_body)
      | some internet_ip ↦ (
        record node { ip = copy 128 ip; internet_ip = copy 128 internet_ip; system_init = true },
        httpfile_body (get_http_file_task config_file),
      )
    ]
  ]

  unfoldable pub request_set_output : Text → SlaveNode → SlaveNode × Reply
  request_set_output buf node = elim (get_obj_buf_from_json P buf (some (text "data")) none none) [
    | none ↦ (node, default_body)
    | some params ↦ (record node { output = some params }, default_body)
  ]

  -- What the handlers that add an object share, after their own checks of the request.
  unfoldable pub add_obj : ObjKind → Text → SlaveNode → Option SlaveNode
  add_obj kind buf node =
      if is_negative (id_of buf) then none else (elim (get_obj (id_of buf) node) [
        | some obj ↦ none
        | none ↦ some (
            put2_obj_que (record { kind = kind; id = id_of buf; params = buf; task_vec = [] }) node)
      ])

  -- request_add_rtsp and request_add_rtmp, whose text differs in the class only.
  unfoldable pub request_add_stream : ObjKind → Text → SlaveNode → SlaveNode × Reply
  unfolding add_obj
  request_add_stream kind buf node =
      elim (get_str_val_from_json P buf (some (text "data")) (some (text "url")) none) [
        | none ↦ (node, default_body)
        | some url ↦
            option (node, default_body) (λ node1. (node1, load_body (length node1.obj_vec)))
              (add_obj kind buf node)
      ]

  unfoldable pub request_add_rtsp : Text → SlaveNode → SlaveNode × Reply
  unfolding request_add_stream
  request_add_rtsp = request_add_stream rtsp

  unfoldable pub request_add_rtmp : Text → SlaveNode → SlaveNode × Reply
  unfolding request_add_stream
  request_add_rtmp = request_add_stream rtmp

  unfoldable pub request_add_gat1400 : Text → SlaveNode → SlaveNode × Reply
  unfolding add_obj
  request_add_gat1400 buf node =
      option (node, default_body) (λ node1. (node1, default_body)) (add_obj gat1400 buf node)

  unfoldable pub request_del_obj : Text → SlaveNode → SlaveNode × Reply
  request_del_obj buf node =
      if is_negative (id_of buf)
      then (node, default_body)
      else (del_from_obj_que (id_of buf) node, default_body)

  -- The object and the task's name of a request to start or to stop a task.
  unfoldable pub target : Text → SlaveNode → Option (Object × Text)
  target buf node = do
    task_name ← get_str_val_from_json P buf (some (text "data")) (some (text "task")) none
    obj ← get_obj (id_of buf) node
    if is_negative (id_of buf) then none else some (obj, task_name)

  abbrev change : Object → SlaveNode → SlaveNode × Reply
  change obj node = (record node { obj_vec = write_obj obj node.obj_vec }, default_body)

  unfoldable pub request_start_task : Text → SlaveNode → SlaveNode × Reply
  unfolding target
  request_start_task buf node = elim (target buf node) [
    | none ↦ (node, default_body)
    | some (obj, task_name) ↦ elim (get_task task_name obj) [
      | some task ↦ (node, default_body)
      | none ↦
          let params =
            get_obj_buf_from_json P buf (some (text "data")) (some (text "params")) none in
          change (put2_task_que (new_task task_name params) obj) node
    ]
  ]

  unfoldable pub request_stop_task : Text → SlaveNode → SlaveNode × Reply
  unfolding target
  request_stop_task buf node = elim (target buf node) [
    | none ↦ (node, default_body)
    | some (obj, task_name) ↦
        let (obj', stopped) = del_from_task_que task_name obj in
        change obj' (record node { orphans = node.orphans ++ stopped })
  ]

  unfoldable pub request_system_status : SlaveNode → SlaveNode × Reply
  request_system_status node = (node, system_status_body node.system_init)

  unfoldable pub request_obj_status : SlaveNode → SlaveNode × Reply
  request_obj_status node = (node, obj_status_body (map (λ (obj : Object). obj.id) node.obj_vec))

-- What happens to a slave: the requests of its table rest_url_map, and the rounds of ObjManager
-- with the fuel, the timeout and the clock.
pub data Event : Type 0 where
  system_init : (config_file buf : Text) → Event
  set_output add_rtsp add_rtmp add_gat1400 del_obj start_task stop_task : Text → Event
  system_status obj_status : Event
  manager_round : (fuel timeout now : ℕ) → Event

module _ (P : Platform) where
  -- The reply is dropped; a round that does not end leaves no state.
  unfoldable pub step : SlaveNode → Event → Option SlaveNode
  step n (system_init config_file buf) = some (request_system_init P config_file buf n).0
  step n (set_output buf) = some (request_set_output P buf n).0
  step n (add_rtsp buf) = some (request_add_rtsp P buf n).0
  step n (add_rtmp buf) = some (request_add_rtmp P buf n).0
  step n (add_gat1400 buf) = some (request_add_gat1400 P buf n).0
  step n (del_obj buf) = some (request_del_obj P buf n).0
  step n (start_task buf) = some (request_start_task P buf n).0
  step n (stop_task buf) = some (request_stop_task P buf n).0
  step n system_status = some (request_system_status P n).0
  step n obj_status = some (request_obj_status P n).0
  step n (manager_round fuel timeout now) = obj_manager_round fuel timeout now n

  unfoldable pub run : SlaveNode → List Event → Option SlaveNode
  run n [] = some n
  run n (e ∷ es) = option none (λ n1. run n1 es) (step n e)
