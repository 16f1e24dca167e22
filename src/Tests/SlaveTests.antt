-- ===== src/Tests/SlaveTests.antt =====
-- src/obj.cpp, src/task.cpp and src/rest_slave.cpp at concrete inputs.
use aistream.Base.{
  true, false, ◌≡◌, ◌≢◌, refl, none, some, List, [], ◌∷◌, Text, text, arith, pos, text_eq, int_eq,
}
use aistream.Platform.{Platform}
use aistream.Sample.{toy, doc, parse_doc, decode, read_text, split_text, item, find_field}
use aistream.Share.{get_str_val_from_json, get_int_val_from_json, find_item, sub_item}
use aistream.Slave.{
  Object, SlaveNode, TaskParams, rtsp, new_task, get_obj, find_obj, get_task, del_from_obj_que,
  del_from_task_que, tend_task, keep_alive, start_task, stop_task,
}
use aistream.Slave.Rest.{manager_round, Event, add_rtsp, target, request_stop_task}
use aistream.Slave.Tasks.{request_stop_task_removes, del_from_obj_que_orphans, tend_task_once}
use aistream.Pipeline.{get_alg_task}

abbrev silent : Platform
silent = toy (λ sent r. none) (λ name. none)

abbrev running_task : Text → TaskParams
running_task name = record (new_task name none) { running = true; task_beat = 100 }

abbrev two_tasks : List TaskParams
two_tasks = running_task (text "yolov3") ∷ running_task (text "face") ∷ []

abbrev camera : Object
camera = record { kind = rtsp; id = pos 7; params = []; task_vec = two_tasks }

abbrev node : SlaveNode
node = record {
  obj_vec = camera ∷ [];
  orphans = [];
  alg_vec = [];
  output = none;
  system_init = true;
  ip = [];
  internet_ip = [];
}

del_from_obj_que_orphans_example :
    (get_obj (pos 7) (del_from_obj_que (pos 7) node) ≡ none)
    × ((del_from_obj_que (pos 7) node).orphans
        ≡ stop_task false (running_task (text "yolov3")) ∷ running_task (text "face") ∷ [])
unfolding get_obj find_obj int_eq
del_from_obj_que_orphans_example =
    del_from_obj_que_orphans (pos 7) node camera (running_task (text "yolov3"))
      (running_task (text "face") ∷ []) (tt, tt) refl refl

abbrev stop_face : Text
stop_face = doc ((text "id", 7 ∷ []) ∷ (text "data", doc ((text "task", text "face") ∷ [])) ∷ [])

request_stop_task_removes_example :
    let node' = (request_stop_task silent stop_face node).0 in
    let obj' = (del_from_task_que (text "face") camera).0 in
    (get_obj (pos 7) node' ≡ some obj')
    × (get_task (text "face") obj' ≡ none)
    × ((other : Text) → text "face" ≢ other → get_task other obj' ≡ get_task other camera)
unfolding target get_str_val_from_json get_int_val_from_json find_item sub_item parse_doc decode
    read_text split_text item find_field text_eq get_obj find_obj int_eq
request_stop_task_removes_example =
    request_stop_task_removes silent stop_face node camera (text "face") refl refl refl
      ((refl, tt), (tt, tt))

abbrev add_params : Text
add_params = doc ((text "id", 8 ∷ []) ∷ (text "data", doc ((text "url", text "rtsp") ∷ [])) ∷ [])

-- The object is added once, a second request with its id is refused, and there is a round.
abbrev events : List Event
events = add_rtsp add_params ∷ add_rtsp add_params ∷ manager_round 1 180 500 ∷ []

-- A task whose algorithm is not there is tried again only after the timeout.
tend_task_once_example :
    tend_task 5 [] 180 600
      (record (running_task (text "face")) { running = false; task_beat = 500 })
    ≡ some (record (running_task (text "face")) { running = false; task_beat = 500 })
unfolding tend_task keep_alive start_task stop_task get_alg_task
tend_task_once_example =
    tend_task_once 5 180 500 600 [] (running_task (text "face"))
      (record (running_task (text "face")) { running = false; task_beat = 500 }) (omega arith)
      (omega arith) (omega arith) refl refl
