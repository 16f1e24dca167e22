-- ===== src/Pipeline.antt =====
-- src/pipeline.cpp and include/pipeline.h: the algorithms that a slave supports, as read from
-- their configuration, and the threads that a task's elements are spread over.
pub mod Again
pub mod Threads
pub mod Cover
pub mod Fuel
pub mod Places
pub mod Assign
pub mod Registry
use aistream.Base.{
  ℕ, zero, suc, ◌+◌, Bool, true, false, not, is_none, if◌then◌else◌, Option, none, some, List, [],
  ◌∷◌, ◌++◌, Text, text, copy, text_eq, option, ◌>>=◌, ltb, ◌==◌, ℤ, int_eq,
}
use aistream.Platform.{Platform}
use aistream.Share.{
  get_str_val_from_json, get_obj_buf_from_json, get_array_buf_from_json, get_array_buf_from_file,
  get_buf_from_array,
}

pub record KeyValue : Type 0 where
  pub key : Text
  pub val : Text

-- The flag attach_to_thread stands in Threads.antt: it is reset with each use.
pub record Element : Type 0 where
  pub name : Text
  pub path : Text
  pub framework : Text
  pub async : Bool
  pub params : Option Text
  pub input_map : List KeyValue
  pub output_map : List KeyValue

pub record AlgTask : Type 0 where
  pub name : Text
  pub config : Text
  pub ele_vec : List Element

-- The order of std::string.
unfoldable pub text_lt : Text → Text → Bool
text_lt [] [] = false
text_lt [] (y ∷ ys) = true
text_lt (x ∷ xs) [] = false
text_lt (x ∷ xs) (y ∷ ys) = let rest = text_lt xs ys in if x == y then rest else ltb x y

-- std::map::insert: a key that is there keeps its value.
unfoldable pub map_insert : Text → Text → List (Text × Text) → List (Text × Text)
unfolding text_lt
map_insert name config [] = (name, config) ∷ []
map_insert name config ((n, c) ∷ rest) =
    let rest' = map_insert name config rest in
    if text_eq name n
    then (n, c) ∷ rest
    else if text_lt name n
    then (name, config) ∷ (n, c) ∷ rest
    else (n, c) ∷ rest'

unfoldable pub map_has : Text → List (Text × Text) → Bool
map_has name [] = false
map_has name ((n, c) ∷ rest) = if text_eq n name then true else map_has name rest

unfoldable pub get_alg_task : Text → List AlgTask → Option AlgTask
get_alg_task name [] = none
get_alg_task name (alg ∷ rest) = if text_eq alg.name name then some alg else get_alg_task name rest

-- The algorithms that stay, in their order.
unfoldable pub check_if_del_alg : List (Text × Text) → List AlgTask → List AlgTask
check_if_del_alg config_map [] = []
check_if_del_alg config_map (alg ∷ rest) =
    let rest' = check_if_del_alg config_map rest in
    if map_has alg.name config_map then alg ∷ rest' else rest'

module _ (P : Platform) where
  abbrev str_of : Text → Text → Option Text
  str_of buf name = get_str_val_from_json P buf (some name) none none

  -- The rounds of ParseMap from index `i` on; `none` where it returns false.
  unfoldable pub parse_map_loop : Text → ℕ → ℕ → Option (List KeyValue)
  parse_map_loop array i zero = some []
  parse_map_loop array i (suc left) =
      let rest = parse_map_loop array (i + 1) left in
      do
        arrbuf ← get_buf_from_array P array i
        key ← str_of arrbuf (text "key")
        val ← str_of arrbuf (text "val")
        entries ← rest
        some (record { key = copy 256 key; val = copy 256 val } ∷ entries)

  unfoldable pub parse_map : Text → Text → Option (List KeyValue)
  unfolding parse_map_loop
  parse_map name ele_buf = do
    (array, size) ← get_array_buf_from_json P ele_buf (some name) none none
    parse_map_loop array 0 size

  -- async is true but for the string "false".
  abbrev pub async_of : Option Text → Bool
  async_of = option true (λ async. not (text_eq async (text "false")))

  unfoldable pub parse_one : Text → Option Element
  unfolding parse_map
  parse_one arrbuf = do
    name ← str_of arrbuf (text "name")
    path ← str_of arrbuf (text "path")
    present ← (if P.access path then some path else none)
    input_map ← parse_map (text "input_map") arrbuf
    output_map ← parse_map (text "output_map") arrbuf
    some (record {
      name = copy 256 name;
      path = copy 256 path;
      framework = option [] (copy 256) (str_of arrbuf (text "framework"));
      async = async_of (str_of arrbuf (text "async"));
      params = get_obj_buf_from_json P arrbuf (some (text "params")) none none;
      input_map = input_map;
      output_map = output_map;
    })

  -- The rounds of ParseElement from index `i` on; `none` where it returns false.
  unfoldable pub parse_element_loop : Text → ℕ → ℕ → Option (List Element)
  unfolding parse_one
  parse_element_loop array i zero = some []
  parse_element_loop array i (suc left) =
      let rest = parse_element_loop array (i + 1) left in
      do
        arrbuf ← get_buf_from_array P array i
        ele ← parse_one arrbuf
        eles ← rest
        some (ele ∷ eles)

  unfoldable pub parse_element : Text → Option (List Element)
  unfolding parse_element_loop
  parse_element ptr = do
    (array, size) ← get_array_buf_from_json P ptr (some (text "pipeline")) none none
    parse_element_loop array 0 size

  -- What UpdateTaskByConfig does for one entry whose configuration was read.
  unfoldable pub add_alg : Text → Text → Text → List AlgTask → List AlgTask
  unfolding get_alg_task parse_element
  add_alg name config ptr algs =
      if is_none (get_alg_task name algs)
      then option algs
          (λ eles.
            algs ++ record { name = copy 128 name; config = copy 256 config; ele_vec = eles } ∷ [])
          (parse_element ptr)
      else algs

  -- The entries still to do, of the whole map; a file that cannot be read ends it all.
  unfoldable pub update_loop : List (Text × Text) → List (Text × Text) → List AlgTask → List AlgTask
  unfolding add_alg check_if_del_alg
  update_loop config_map [] algs = check_if_del_alg config_map algs
  update_loop config_map ((name, config) ∷ rest) algs = elim (P.read_file2_buf config) [
    | none ↦ algs
    | some ptr ↦ update_loop config_map rest (add_alg name config ptr algs)
  ]

  unfoldable pub update_task_by_config : List (Text × Text) → List AlgTask → List AlgTask
  unfolding update_loop
  update_task_by_config config_map algs = update_loop config_map config_map algs

  -- The rounds of UpdateTask from index `i` on.
  unfoldable pub config_loop : Text → ℕ → ℕ → List (Text × Text) → List (Text × Text)
  unfolding map_insert
  config_loop array i zero config_map = config_map
  config_loop array i (suc left) config_map = elim (get_buf_from_array P array i) [
    | none ↦ config_map
    | some arrbuf ↦ elim (str_of arrbuf (text "name")) [
      | none ↦ config_map
      | some name ↦ elim (str_of arrbuf (text "config")) [
        | none ↦ config_map
        | some config ↦ config_loop array (i + 1) left (map_insert name config config_map)
      ]
    ]
  ]

  unfoldable pub update_task : Text → List AlgTask → List AlgTask
  unfolding update_task_by_config config_loop
  update_task filename algs =
      elim (get_array_buf_from_file P filename (some (text "tasks")) none none) [
        | none ↦ algs
        | some (array, size) ↦ update_task_by_config (config_loop array 0 size []) algs
      ]

  -- One round of AlgThread: the file's size now, the size last seen, and the algorithms.
  unfoldable pub alg_thread_round : ℤ → ℤ × List AlgTask → ℤ × List AlgTask
  unfolding update_task
  alg_thread_round size (last_size, algs) =
      if int_eq size last_size
      then (last_size, algs)
      else (size, update_task (text "cfg/task.json") algs)
