-- ===== src/Slave/Tasks.antt =====
-- The tasks of the objects of src/obj.cpp: what stopping a task, deleting an object and the watch
-- of ObjManager do to them.
use aistream.Base.{
  ℕ, ◌+◌, ◌≤◌, ◌<◌, ◌≡◌, ◌≢◌, refl, sym, ◌∙◌, ap, inl, inr, Bool, true, false, ◌||◌, none, some,
  List, [], ◌∷◌, ◌++◌, arith, ℤ, Text, text, text_eq, text_eq→eq, int_eq, int_eq→eq, int_eq_refl,
  All, Distinct, Bool-cases, Option-cases, option, ◌==◌, ltb,
}
use mathlib.Core.Bool.{true≢false}
use aistream.Platform.{Platform}
use aistream.Slave.{
  Object, SlaveNode, TaskParams, find_obj, get_obj, erase_obj, del_from_obj_que, del_from_task_que,
  write_obj, find_task, get_task, erase_task, keep_alive, start_task, stop_task, tend_task,
}
use aistream.Pipeline.{AlgTask, get_alg_task}
use aistream.Pipeline.Threads.{assign_to_threads}
use aistream.Slave.Rest.{target, request_stop_task}
use aistream.Slave.ObjIds.{obj_ids}
use aistream.Slave.Valid.{IsValid}

abbrev pub same_name : TaskParams → TaskParams → Bool
same_name a b = text_eq a.name b.name

-- No two tasks of the object have one name.
abbrev pub DistinctNames : Object → Type 0
DistinctNames obj = Distinct same_name obj.task_vec

-- A name that no task of the list has, by another task of that name.
find_task-other :
    (name : Text) (task : TaskParams) (tasks : List TaskParams)
    → text_eq task.name name ≡ true
    → All (λ t. same_name task t ≡ false) tasks
    → find_task name tasks ≡ none
unfolding find_task
find_task-other name task [] e d = refl
find_task-other name task (t ∷ tasks) e d =
    let miss : text_eq t.name name ≡ false = elim (Bool-cases (text_eq t.name name)) [
      | inl hit ↦
          let same : text_eq task.name t.name ≡ true = rw (text_eq→eq t.name name hit) e in
          absurd cc
      | inr m ↦ m
    ] in
    rw miss (find_task-other name task tasks e d.1)

find_task-erase_same :
    (name : Text) (tasks : List TaskParams)
    → text_eq name (text "all") ≡ false
    → Distinct same_name tasks
    → find_task name (erase_task name tasks).0 ≡ none
unfolding find_task erase_task
find_task-erase_same name [] a d = refl
find_task-erase_same name (t ∷ tasks) a d = elim (Bool-cases (text_eq t.name name)) [
  | inl hit ↦ rw (a, hit, erase_task) (find_task-other name t tasks hit d.0)
  | inr miss ↦ rw (a, miss, erase_task) (rw miss (find_task-erase_same name tasks a d.1))
]

find_task-erase_other :
    (name other : Text) (tasks : List TaskParams)
    → text_eq name (text "all") ≡ false
    → name ≢ other
    → find_task other (erase_task name tasks).0 ≡ find_task other tasks
unfolding find_task erase_task
find_task-erase_other name other [] a d = refl
find_task-erase_other name other (t ∷ tasks) a d = elim (Bool-cases (text_eq t.name name)) [
  | inl hit ↦ elim (Bool-cases (text_eq t.name other)) [
    | inl hit' ↦ absurd (d (sym (text_eq→eq t.name name hit) ∙ text_eq→eq t.name other hit'))
    | inr miss ↦ rw (a, hit, miss, erase_task, find_task) refl
  ]
  | inr miss ↦
      let ih = find_task-erase_other name other tasks a d in
      elim (Bool-cases (text_eq t.name other)) [
        | inl hit' ↦ rw (a, miss, hit', erase_task, find_task) refl
        | inr miss' ↦ rw (a, miss, miss', erase_task, find_task) ih
      ]
]

find_obj-write :
    (new : Object) (objs : List Object) (obj : Object)
    → find_obj new.id objs ≡ some obj
    → find_obj new.id (write_obj new objs) ≡ some new
unfolding find_obj write_obj
find_obj-write new [] obj e = cc
find_obj-write new (o ∷ objs) obj e = elim (Bool-cases (int_eq o.id new.id)) [
  | inl hit ↦ rw (hit, write_obj) (rw (int_eq_refl new.id, find_obj) refl)
  | inr miss ↦ rw (miss, write_obj) (rw miss (find_obj-write new objs obj (ground (arith, miss))))
]

find_obj-unlike :
    (x id : ℤ) (objs : List Object)
    → int_eq x id ≡ true
    → All (λ y. int_eq x y ≡ false) (obj_ids objs)
    → find_obj id objs ≡ none
unfolding find_obj
find_obj-unlike x id [] e d = refl
find_obj-unlike x id (o ∷ objs) e d =
    let miss : int_eq o.id id ≡ false = elim (Bool-cases (int_eq o.id id)) [
      | inl hit ↦ let same : int_eq x o.id ≡ true = rw (int_eq→eq o.id id hit) e in absurd cc
      | inr m ↦ m
    ] in
    rw miss (find_obj-unlike x id objs e d.1)

find_obj-erase :
    (id : ℤ) (objs : List Object)
    → Distinct int_eq (obj_ids objs)
    → find_obj id (erase_obj id objs).0 ≡ none
unfolding find_obj erase_obj
find_obj-erase id [] d = refl
find_obj-erase id (o ∷ objs) d = elim (Bool-cases (int_eq o.id id)) [
  | inl hit ↦ rw (hit, erase_obj) (find_obj-unlike o.id id objs hit d.0)
  | inr miss ↦ rw (miss, erase_obj) (rw miss (find_obj-erase id objs d.1))
]

module _ (P : Platform) where
  -- A request to stop a task that names an object of the slave and a task other than "all", where no
  -- two tasks of the object share a name: afterwards the object is there without a task of that
  -- name, and every other name leads to the same task as before.
  pub request_stop_task_removes :
      (buf : Text) (node : SlaveNode) (obj : Object) (name : Text)
      → target P buf node ≡ some (obj, name)
      → get_obj obj.id node ≡ some obj
      → text_eq name (text "all") ≡ false
      → DistinctNames obj
      → let node' = (request_stop_task P buf node).0 in
        let obj' = (del_from_task_que name obj).0 in
        (get_obj obj.id node' ≡ some obj')
        × (get_task name obj' ≡ none)
        × ((other : Text) → name ≢ other → get_task other obj' ≡ get_task other obj)
  unfolding request_stop_task del_from_task_que get_task get_obj
  request_stop_task_removes buf node obj name t e a d = (
    rw (t, request_stop_task) (find_obj-write (del_from_task_que name obj).0 node.obj_vec obj e),
    find_task-erase_same name obj.task_vec a d,
    λ other n. find_task-erase_other name other obj.task_vec a n,
  )

erase_obj-tasks :
    (id : ℤ) (objs : List Object) (obj : Object) (task : TaskParams) (tasks : List TaskParams)
    → find_obj id objs ≡ some obj
    → obj.task_vec ≡ task ∷ tasks
    → (erase_obj id objs).1 ≡ stop_task false task ∷ tasks
unfolding find_obj erase_obj del_from_task_que erase_task stop_task text_eq
erase_obj-tasks id [] obj task tasks e v = cc
erase_obj-tasks id (o ∷ objs) obj task tasks e v = elim (Bool-cases (int_eq o.id id)) [
  | inl hit ↦
      let same : o.task_vec ≡ task ∷ tasks = ground (arith, hit) in
      rw (hit, erase_obj) (simp (same, erase_task))
  | inr miss ↦
      rw (miss, erase_obj) (erase_obj-tasks id objs obj task tasks (ground (arith, miss)) v)
]

-- Deleting an object that has tasks takes it out of the table, if no two objects share an id, and
-- stops the first of its tasks, but no other: all others stay as they were, running ones running,
-- and belong to no object any more.
pub del_from_obj_que_orphans :
    (id : ℤ) (node : SlaveNode) (obj : Object) (task : TaskParams) (tasks : List TaskParams)
    → IsValid node
    → get_obj id node ≡ some obj
    → obj.task_vec ≡ task ∷ tasks
    → let node' = del_from_obj_que id node in
      (get_obj id node' ≡ none) × (node'.orphans ≡ node.orphans ++ stop_task false task ∷ tasks)
unfolding del_from_obj_que get_obj
del_from_obj_que_orphans id node obj task tasks valid e v = (
  find_obj-erase id node.obj_vec valid,
  ap (◌++◌ node.orphans) (erase_obj-tasks id node.obj_vec obj task tasks e v),
)

start_task-task_beat :
    (fuel : ℕ) (algs : List AlgTask) (task : TaskParams)
    → option task.task_beat (λ (t : TaskParams). t.task_beat) (start_task fuel algs task)
      ≡ task.task_beat
unfolding start_task
start_task-task_beat fuel algs task = elim (Option-cases (get_alg_task task.name algs)) [
  | inl n ↦ rw (n, start_task) refl
  | inr (alg, e) ↦ elim (Option-cases (assign_to_threads fuel alg task.thread_vec)) [
    | inl n ↦ rw (e, n, start_task) refl
    | inr ((true, threads), f) ↦ rw (e, f, start_task) refl
    | inr ((false, threads), f) ↦ rw (e, f, start_task) refl
  ]
]

-- The watch stops and starts a task at most once in a timeout: if it does so at a time after 0, then
-- at any later time up to the timeout the watch leaves the task as it is.
pub tend_task_once :
    (fuel timeout now later : ℕ) (algs : List AlgTask) (task task1 : TaskParams)
    → 0 < now
    → now ≤ later
    → later ≤ now + timeout
    → (keep_alive timeout now task).0 ≡ false
    → tend_task fuel algs timeout now task ≡ some task1
    → tend_task fuel algs timeout later task1 ≡ some task1
unfolding tend_task keep_alive stop_task
tend_task_once fuel timeout now later algs task task1 pos le bound stale e =
    let stopped = stop_task true (record task { task_beat = now }) in
    let started : start_task fuel algs stopped ≡ some task1 =
      elim (Bool-cases (task.task_beat == 0 || ltb (task.task_beat + timeout) now)) [
        | inl t ↦ rw (t, tend_task) at e
        | inr f ↦ absurd (true≢false (rw (f, keep_alive) at stale))
      ] in
    let beat : task1.task_beat ≡ now = rw started at (start_task-task_beat fuel algs stopped) in
    let fresh : (task1.task_beat == 0 || ltb (task1.task_beat + timeout) later) ≡ false =
      ground (arith, beat) in
    rw (fresh, tend_task) refl
