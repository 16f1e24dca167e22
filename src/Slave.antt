-- ===== src/Slave.antt =====
-- src/obj.cpp and src/task.cpp: the objects of a slave, their tasks, and the thread that restarts
-- tasks which have stopped to beat. src/rest_slave.cpp is in Slave/Rest.antt.
pub mod Rest
pub mod ObjIds
pub mod Valid
pub mod Tasks
pub mod Ends
use aistream.Base.{
  ℕ, ◌+◌, Bool, true, false, ◌||◌, if◌then◌else◌, Option, none, some, List, [], ◌∷◌, ◌++◌, Text,
  text, copy, text_eq, ◌>>=◌, ltb, ◌==◌, ℤ, int_eq,
}
use aistream.Pipeline.{Element, AlgTask, get_alg_task}
use aistream.Pipeline.Threads.{assign_to_threads}

pub record TaskParams : Type 0 where
  pub name : Text
  pub params : Option Text
  pub running : Bool
  pub task_beat : ℕ
  pub thread_vec : List (List Element)

-- The classes derived from Object that a request can create.
pub data ObjKind : Type 0 where
  rtsp rtmp gat1400 : ObjKind

pub record Object : Type 0 where
  pub kind : ObjKind
  pub id : ℤ
  pub params : Text
  pub task_vec : List TaskParams

-- `orphans` are the tasks in no table, which their threads still hold: those that were stopped and
-- those whose object is gone.
pub record SlaveNode : Type 0 where
  pub obj_vec : List Object
  pub orphans : List TaskParams
  pub alg_vec : List AlgTask
  pub output : Option Text
  pub system_init : Bool
  pub ip : Text
  pub internet_ip : Text

-- The constructor of TaskParams, SetTaskName and SetParams.
abbrev pub new_task : Text → Option Text → TaskParams
new_task name params = record {
  name = copy 256 name;
  params = params;
  running = false;
  task_beat = 0;
  thread_vec = [];
}

unfoldable pub put2_task_que : TaskParams → Object → Object
put2_task_que task obj = record obj { task_vec = obj.task_vec ++ task ∷ [] }

unfoldable pub find_task : Text → List TaskParams → Option TaskParams
find_task name [] = none
find_task name (task ∷ rest) = if text_eq task.name name then some task else find_task name rest

unfoldable pub get_task : Text → Object → Option TaskParams
unfolding find_task
get_task name obj = find_task name obj.task_vec

-- TaskParams::Stop: with `sync` the threads are joined and dropped. The join, which waits until the
-- threads end, is taken to return.
unfoldable pub stop_task : Bool → TaskParams → TaskParams
stop_task sync task = record task {
  running = false;
  thread_vec = if sync then [] else task.thread_vec;
}

-- The loop of DelFromTaskQue: the first task of the name, or the first one of all, is stopped and
-- dropped. The tasks that stay, and the one that was stopped.
unfoldable pub erase_task : Text → List TaskParams → List TaskParams × List TaskParams
unfolding stop_task
erase_task name [] = ([], [])
erase_task name (task ∷ rest) =
    let (rest', stopped) = erase_task name rest in
    if text_eq name (text "all") || text_eq task.name name
    then (rest, stop_task false task ∷ [])
    else (task ∷ rest', stopped)

unfoldable pub del_from_task_que : Text → Object → Object × List TaskParams
unfolding erase_task
del_from_task_que name obj =
    let (tasks, stopped) = erase_task name obj.task_vec in
    (record obj { task_vec = tasks }, stopped)

unfoldable pub find_obj : ℤ → List Object → Option Object
find_obj id [] = none
find_obj id (obj ∷ rest) = if int_eq obj.id id then some obj else find_obj id rest

unfoldable pub get_obj : ℤ → SlaveNode → Option Object
unfolding find_obj
get_obj id node = find_obj id node.obj_vec

unfoldable pub put2_obj_que : Object → SlaveNode → SlaveNode
put2_obj_que obj node = record node { obj_vec = node.obj_vec ++ obj ∷ [] }

-- The loop of DelFromObjQue: the objects that stay, and the tasks of the one that goes, the one that
-- DelFromTaskQue stopped first.
unfoldable pub erase_obj : ℤ → List Object → List Object × List TaskParams
unfolding del_from_task_que
erase_obj id [] = ([], [])
erase_obj id (obj ∷ rest) =
    let (rest', tasks) = erase_obj id rest in
    let (obj', stopped) = del_from_task_que (text "all") obj in
    if int_eq obj.id id then (rest, stopped ++ obj'.task_vec) else (obj ∷ rest', tasks)

unfoldable pub del_from_obj_que : ℤ → SlaveNode → SlaveNode
unfolding erase_obj
del_from_obj_que id node =
    let (objs, tasks) = erase_obj id node.obj_vec in
    record node { obj_vec = objs; orphans = node.orphans ++ tasks }

-- A change of the first object with the id, through the pointer that GetObj gave.
unfoldable pub write_obj : Object → List Object → List Object
write_obj new [] = []
write_obj new (obj ∷ rest) =
    let rest' = write_obj new rest in if int_eq obj.id new.id then new ∷ rest else obj ∷ rest'

-- TaskParams::Start; `none` if the fuel of AttachToThread runs out.
unfoldable pub start_task : ℕ → List AlgTask → TaskParams → Option TaskParams
start_task fuel algs task = elim (get_alg_task task.name algs) [
  | none ↦ some task
  | some alg ↦ elim (assign_to_threads fuel alg task.thread_vec) [
    | none ↦ none
    | some (assigned, threads) ↦
        some (if assigned then record task { running = true; thread_vec = threads } else task)
  ]
]

-- TaskParams::KeepAlive: its value, and the task; `now` is the clock in seconds.
unfoldable pub keep_alive : ℕ → ℕ → TaskParams → Bool × TaskParams
keep_alive timeout now task =
    if task.task_beat == 0 || ltb (task.task_beat + timeout) now
    then (false, record task { task_beat = now })
    else (true, task)

unfoldable pub beat_alive : ℕ → TaskParams → TaskParams
beat_alive now task = record task { task_beat = now }

-- A task in TraverseTaskQue.
unfoldable pub tend_task : ℕ → List AlgTask → ℕ → ℕ → TaskParams → Option TaskParams
unfolding keep_alive start_task stop_task
tend_task fuel algs timeout now task =
    let (alive, task1) = keep_alive timeout now task in
    if alive then some task1 else start_task fuel algs (stop_task true task1)

unfoldable pub traverse_task_que :
    ℕ → List AlgTask → ℕ → ℕ → List TaskParams → Option (List TaskParams)
unfolding tend_task
traverse_task_que fuel algs timeout now [] = some []
traverse_task_que fuel algs timeout now (task ∷ rest) =
    let rest' = traverse_task_que fuel algs timeout now rest in
    do task1 ← tend_task fuel algs timeout now task; tasks ← rest'; some (task1 ∷ tasks)

unfoldable pub traverse_objs : ℕ → List AlgTask → ℕ → ℕ → List Object → Option (List Object)
unfolding traverse_task_que
traverse_objs fuel algs timeout now [] = some []
traverse_objs fuel algs timeout now (obj ∷ rest) =
    let rest' = traverse_objs fuel algs timeout now rest in
    do
      tasks ← traverse_task_que fuel algs timeout now obj.task_vec
      objs ← rest'
      some (record obj { task_vec = tasks } ∷ objs)

-- One round of the loop of ObjManager, between two sleeps.
unfoldable pub obj_manager_round : ℕ → ℕ → ℕ → SlaveNode → Option SlaveNode
unfolding traverse_objs
obj_manager_round fuel timeout now node = do
  objs ← traverse_objs fuel node.alg_vec timeout now node.obj_vec
  some (record node { obj_vec = objs })
