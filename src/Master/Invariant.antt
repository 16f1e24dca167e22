-- ===== src/Master/Invariant.antt =====
-- The events of src/master.cpp against the invariant of its tables.
use aistream.Base.{◌≡◌, refl, List, [], ◌∷◌, Text, text, arith}
use aistream.Platform.{Platform}
use aistream.Master.State.{MasterParams}
use aistream.Master.Rest.{
  Event, login, system_init, set_output, add_slave, del_slave, add_rtsp, add_rtmp, del_obj,
  start_task, stop_task, slave_round, obj_round, step, run, request_login, request_system_init,
  request_add_rtsp, request_add_rtmp,
}
use aistream.Master.Rounds.{slave_thread_round-Frame, obj_thread_round-Frame}
use aistream.Master.Valid.{IsValid, Frame-IsValid}
use aistream.Master.Requests.{
  with_objs, request_add_stream-IsValid, set_output-IsValid, request_add_slave-IsValid,
  request_del_slave-IsValid, request_del_obj-IsValid, request_start_task-IsValid,
  request_stop_task-IsValid,
}

module _ (P : Platform) where
  request_login_state : (buf : Text) (m : MasterParams P) → (request_login P buf m).0 ≡ m
  unfolding request_login
  request_login_state buf m = ground arith

  -- Every request and every round of the two threads keeps the invariant, whatever the slaves answer.
  pub step-IsValid : (m : MasterParams P) (e : Event) → IsValid P m → IsValid P (step P m e)
  unfolding step request_system_init request_add_rtsp request_add_rtmp
  step-IsValid m (login buf) v = rw (request_login_state buf m) v
  step-IsValid m (system_init buf) v = with_objs P m _ refl refl refl v.ids v
  step-IsValid m (set_output buf) v = set_output-IsValid P buf m v
  step-IsValid m (add_slave buf) v = request_add_slave-IsValid P buf m v
  step-IsValid m (del_slave buf) v = request_del_slave-IsValid P buf m v
  step-IsValid m (add_rtsp buf) v = request_add_stream-IsValid P (text "rtsp") buf m v
  step-IsValid m (add_rtmp buf) v = request_add_stream-IsValid P (text "rtmp") buf m v
  step-IsValid m (del_obj buf) v = request_del_obj-IsValid P buf m v
  step-IsValid m (start_task buf) v = request_start_task-IsValid P buf m v
  step-IsValid m (stop_task buf) v = request_stop_task-IsValid P buf m v
  step-IsValid m slave_round v = Frame-IsValid P m _ (slave_thread_round-Frame P m) v
  step-IsValid m obj_round v = Frame-IsValid P m _ (obj_thread_round-Frame P m) v

  -- After any sequence of requests and thread rounds, no two registered slaves have one address and
  -- port, no two objects have one id, and every slave that counts as alive is registered, if all of
  -- this held before.
  pub run-IsValid : (m : MasterParams P) (es : List Event) → IsValid P m → IsValid P (run P m es)
  unfolding run
  run-IsValid m [] v = v
  run-IsValid m (e ∷ es) v = run-IsValid (step P m e) es (step-IsValid m e v)
