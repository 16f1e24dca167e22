-- ===== src/Master/Objects.antt =====
-- src/master.cpp: the objects, their tasks, and the thread that keeps them on live slaves.
use aistream.Base.{
  ℕ, ◌+◌, zero, suc, Bool, false, if◌then◌else◌, Option, none, some, List, [], ◌∷◌, ◌++◌, Text,
  text, copy, text_eq, ℤ, int_eq, option, print_int,
}
use aistream.Platform.{Platform}
use aistream.Share.{
  get_int_val_from_json, get_str_val_from_json, get_array_buf_from_json, get_buf_from_array,
  get_obj_buf_from_json,
}
use aistream.Master.State.{MObjParam, MasterParams}
use aistream.Master.Http.{assign_obj_to_slave, http_start}
use aistream.Master.Slaves.{get_slave_by_id}

unfoldable pub find_obj : ℤ → List MObjParam → Option MObjParam
find_obj id [] = none
find_obj id (obj ∷ rest) = if int_eq obj.id id then some obj else find_obj id rest

-- The loop of MDelObj.
unfoldable pub erase_obj : ℤ → List MObjParam → List MObjParam
erase_obj id [] = []
erase_obj id (obj ∷ rest) = if int_eq obj.id id then rest else obj ∷ erase_obj id rest

-- A write through the pointer that GetMObj gave: to the first object with the id.
unfoldable pub write_obj : MObjParam → List MObjParam → List MObjParam
write_obj new [] = []
write_obj new (obj ∷ rest) = if int_eq obj.id new.id then new ∷ rest else obj ∷ write_obj new rest

module _ (P : Platform) where
  unfoldable pub get_m_obj : ℤ → MasterParams P → Option MObjParam
  unfolding find_obj
  get_m_obj id m = find_obj id m.m_obj_vec

  -- A new object, as its constructor and MAddObj fill it.
  unfoldable pub new_obj : Text → MObjParam
  new_obj buf = record {
    id = get_int_val_from_json P buf (some (text "id")) none none;
    status = 0;
    name = option [] (copy 256) (get_str_val_from_json P buf (some (text "name")) none none);
    m_task_vec = [];
    params = buf;
    slave = none;
  }

  -- The object that is pushed back carries the slave and the tasks that the caller writes into it
  -- right after.
  unfoldable pub push_obj : MObjParam → MasterParams P → MasterParams P
  push_obj obj m = record m {
    m_obj_vec = m.m_obj_vec ++ obj ∷ [];
    id_name = λ id. if int_eq id obj.id then some obj.name else m.id_name id;
  }

  unfoldable pub m_add_obj : Text → MasterParams P → MasterParams P
  unfolding new_obj push_obj
  m_add_obj buf m = push_obj (new_obj buf) m

  unfoldable pub m_del_obj : ℤ → MasterParams P → MasterParams P
  unfolding erase_obj
  m_del_obj id m = record m { m_obj_vec = erase_obj id m.m_obj_vec }

  unfoldable pub add_task : Text → MObjParam → MObjParam
  add_task params obj = record obj { m_task_vec = obj.m_task_vec ++ params ∷ [] }

  -- Whether a stored task is the one of this name.
  abbrev pub is_task : Text → Text → Bool
  is_task name params =
      option false (text_eq name) (get_str_val_from_json P params (some (text "task")) none none)

  -- The loop of DelTask: `none` if no task has the name.
  unfoldable pub erase_task : Text → List Text → Option (List Text)
  erase_task name [] = none
  erase_task name (params ∷ rest) =
      let rest' = erase_task name rest in
      if is_task name params then some rest else option none (λ r. some (params ∷ r)) rest'

  unfoldable pub del_task : Text → MObjParam → Option MObjParam
  unfolding erase_task
  del_task name obj =
      option none (λ tasks. some (record obj { m_task_vec = tasks }))
        (erase_task name obj.m_task_vec)

  unfoldable pub get_task : MObjParam → Option Text
  get_task obj = elim obj.m_task_vec [ [] ↦ none | params ∷ rest ↦ some params ]

  unfoldable pub system_init_cb : Text → MasterParams P → MasterParams P
  system_init_cb buf m =
      elim (get_obj_buf_from_json P buf (some (text "output")) (some (text "data")) none) [
        | none ↦ m
        | some output ↦ record m { output = some output }
      ]

  -- The tasks in an object document, from index `i` on.
  unfoldable pub stored_tasks : Text → ℕ → ℕ → List Text
  stored_tasks array i zero = []
  stored_tasks array i (suc left) =
      let rest = stored_tasks array (i + 1) left in
      option rest (λ params. params ∷ rest) (get_buf_from_array P array i)

  -- An object document of the database, when the master starts.
  unfoldable pub obj_cb : Text → MasterParams P → MasterParams P
  unfolding new_obj push_obj stored_tasks
  obj_cb buf m =
      let obj = new_obj buf in
      let tasks =
        option [] (λ (array : Text × ℕ). stored_tasks array.0 0 array.1)
          (get_array_buf_from_json P buf (some (text "data")) (some (text "task")) none) in
      push_obj (record obj { slave = get_slave_by_id P obj.id m; m_task_vec = tasks }) m

  -- snprintf(buf, POST_BUF_MAX, "{\"id\":%d,\"data\":%s}", obj->id, task)
  abbrev pub start_body : ℤ → Text → Text
  start_body id task =
      copy 10239 (text "{\"id\":" ++ (print_int id ++ (text ",\"data\":" ++ (task ++ text "}"))))

  unfoldable pub start_tasks : List Text → MObjParam → MasterParams P → MObjParam × MasterParams P
  start_tasks [] obj m = (obj, m)
  start_tasks (task ∷ rest) obj m =
      let (obj1, m1) = http_start P obj (start_body obj.id task) (text "/api/task/start") m in
      start_tasks rest obj1 m1

  abbrev pub is_on_live_slave : MasterParams P → MObjParam → Bool
  is_on_live_slave m obj = option false (λ a. (m.slave_at a).alive) obj.slave

  unfoldable pub update_obj_task : MObjParam → MasterParams P → MObjParam × MasterParams P
  unfolding start_tasks
  update_obj_task obj m = elim obj.m_task_vec [
    | [] ↦ (obj, m)
    | task ∷ rest ↦
        if is_on_live_slave m obj
        then (obj, m)
        else (let (obj1, m1, assigned) = assign_obj_to_slave P obj m in
            if assigned
            then start_tasks (task ∷ rest) obj1 m1
            else (record obj1 { status = 0 }, m1))
  ]

  unfoldable pub update_objs : List MObjParam → MasterParams P → List MObjParam × MasterParams P
  unfolding update_obj_task
  update_objs [] m = ([], m)
  update_objs (obj ∷ rest) m =
      let (obj1, m1) = update_obj_task obj m in
      let (rest1, m2) = update_objs rest m1 in (obj1 ∷ rest1, m2)

  -- One round of the loop of ObjThread, between two sleeps.
  unfoldable pub obj_thread_round : MasterParams P → MasterParams P
  unfolding update_objs
  obj_thread_round m = let (objs, m1) = update_objs m.m_obj_vec m in record m1 { m_obj_vec = objs }
