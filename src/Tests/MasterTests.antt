-- ===== src/Tests/MasterTests.antt =====
-- src/master.cpp at concrete inputs: requests, failover, the choice of a slave.
use aistream.Base.{
  ℕ, suc, true, false, if◌then◌else◌, ◌==◌, ◌⊎◌, ◌≡◌, refl, Option, none, some, List, [], ◌∷◌, Text,
  text, arith, pos, text_eq, int_eq,
}
use aistream.Platform.{Platform}
use aistream.Sample.{
  toy, doc, print_doc, parse_doc, decode, read_text, split_text, item, find_field,
}
use aistream.Share.{
  get_str_val_from_json, get_int_val_from_json, get_obj_buf_from_json, find_item, sub_item,
}
use aistream.Master.State.{MObjParam, SlaveParam, MasterParams}
use aistream.Master.Http.{get_lowest_slave, lowest_slave_loop, lower_slave}
use aistream.Master.Objects.{get_m_obj, find_obj, update_obj_task}
use aistream.Master.Rest.{
  Event, add_slave, slave_round, obj_round, add_rtsp, del_slave, run, request_stop_task,
}
use aistream.Master.Choice.{FloatLaws, Chosen, get_lowest_slave-Chosen}
use aistream.Master.Valid.{IsValid}
use aistream.Master.Invariant.{run-IsValid}
use aistream.Master.Failover.{update_obj_task_moves, add_request, start_request, running_on}
use aistream.Master.Tasks.{request_stop_task_one, tasks_named}

-- Every request is answered with a load of 5; there are no files.
abbrev ack : Text
ack = doc ((text "data", doc ((text "load", 5 ∷ []) ∷ [])) ∷ [])

abbrev answering : Platform
answering = toy (λ sent r. some ack) (λ name. none)

abbrev slave : Text → ℕ → SlaveParam answering
slave ip load = record {
  ip = ip;
  internet_ip = [];
  rest_port = pos 80;
  total_load = load;
  alive = true;
  offline_cnt = 0;
  obj_id_vec = [];
  params = [];
  httpf_task = [];
}

abbrev camera_params : Text
camera_params = doc ((text "id", 7 ∷ []) ∷ (text "type", text "rtsp") ∷ [])

-- The parameters of a task, and the object that has them.
abbrev task_params : Text
task_params = doc ((text "task", text "yolov3") ∷ [])

abbrev camera : Option ℕ → List Text → MObjParam
camera on tasks = record {
  id = pos 7;
  status = 0;
  name = text "gate";
  m_task_vec = tasks;
  params = camera_params;
  slave = on;
}

-- Two registered slaves.
abbrev two_slaves : List MObjParam → MasterParams answering
two_slaves objs = record {
  slave_at = λ a. if a == 0 then slave (text "a") 40 else slave (text "b") 10;
  next_slave = 2;
  m_slave_vec = 0 ∷ 1 ∷ [];
  m_obj_vec = objs;
  id_name = λ id. none;
  output = none;
  cfg_task_vec = [];
  sent = [];
  db = [];
}

abbrev empty : MasterParams answering
empty = record (two_slaves []) {
  slave_at = λ a. record (slave [] 0) { alive = false };
  next_slave = 0;
  m_slave_vec = [];
}

empty-IsValid : IsValid answering empty
empty-IsValid = record { below = tt; endpoints = tt; registered = λ a e. cc; ids = tt }

abbrev node_params : Text
node_params = doc ((text "ip", text "a") ∷ (text "rest_port", 80 ∷ []) ∷ [])

abbrev events : List Event
events =
    add_slave node_params
    ∷ add_slave node_params
    ∷ add_rtsp camera_params
    ∷ slave_round
    ∷ obj_round
    ∷ del_slave node_params
    ∷ []

run-IsValid_example : IsValid answering (run answering empty events)
run-IsValid_example = run-IsValid answering empty events empty-IsValid

toy-FloatLaws : FloatLaws answering
toy-FloatLaws = record { lt_irrefl = λ x. ground arith; lt_trans = λ x y z. ground arith }

get_lowest_slave-Chosen_example :
    Chosen answering (two_slaves []) (0 ∷ 1 ∷ []) (get_lowest_slave answering (two_slaves []))
get_lowest_slave-Chosen_example = get_lowest_slave-Chosen answering toy-FloatLaws (two_slaves [])

update_obj_task_moves_example :
    let m = two_slaves [] in
    let obj = camera none (task_params ∷ task_params ∷ []) in
    ((update_obj_task answering obj m).0 ≡ running_on answering 1 obj)
    × ((update_obj_task answering obj m).1.sent
        ≡ add_request answering (slave (text "b") 10) (text "rtsp") obj
          ∷ start_request answering (slave (text "b") 10) obj task_params
          ∷ start_request answering (slave (text "b") 10) obj task_params
          ∷ [])
unfolding get_lowest_slave lowest_slave_loop lower_slave get_str_val_from_json find_item sub_item
    parse_doc decode read_text split_text item find_field text_eq
update_obj_task_moves_example =
    update_obj_task_moves answering (camera none (task_params ∷ task_params ∷ [])) (two_slaves []) 1
      task_params (task_params ∷ []) (text "rtsp") ack refl refl refl refl refl refl

-- A request to stop the task, on an object that has it twice.
abbrev stop_params : Text
stop_params =
    doc ((text "id", 7 ∷ []) ∷ (text "data", doc ((text "task", text "yolov3") ∷ [])) ∷ [])

request_stop_task_one_example :
    let obj = camera (some 1) (task_params ∷ task_params ∷ []) in
    let m = two_slaves (obj ∷ []) in
    let m' = (request_stop_task answering stop_params m).0 in
    ((tasks_named answering (text "yolov3") obj.m_task_vec ≡ 0) × (m' ≡ m))
    ⊎ ((obj' : MObjParam) × (get_m_obj answering (pos 7) m' ≡ some obj')
        × (tasks_named answering (text "yolov3") obj.m_task_vec
            ≡ suc (tasks_named answering (text "yolov3") obj'.m_task_vec)))
unfolding get_str_val_from_json get_int_val_from_json get_obj_buf_from_json find_item sub_item
    parse_doc decode read_text split_text item find_field text_eq get_m_obj find_obj int_eq
request_stop_task_one_example =
    request_stop_task_one answering stop_params
      (two_slaves (camera (some 1) (task_params ∷ task_params ∷ []) ∷ []))
      (camera (some 1) (task_params ∷ task_params ∷ [])) (text "yolov3")
      (print_doc (item task_params)) refl refl refl refl refl
