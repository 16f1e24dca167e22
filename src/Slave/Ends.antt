-- ===== src/Slave/Ends.antt =====
-- ObjManager of src/obj.cpp: when a round ends.
use aistream.Base.{
  ℕ, ◌<◌, ◌≡◌, refl, inl, inr, true, false, Option, some, List, [], ◌∷◌, Text, text_eq, arith, All,
  Bool-cases, Option-cases, if◌then◌else◌, subst,
}
use aistream.Pipeline.{Element, AlgTask, get_alg_task}
use aistream.Pipeline.Threads.{numbered, search_entry, assign_to_threads}
use aistream.Pipeline.Fuel.{Acyclic}
use aistream.Pipeline.Assign.{assign_to_threads_covers}
use aistream.Slave.{
  Object, SlaveNode, TaskParams, start_task, stop_task, keep_alive, tend_task, traverse_task_que,
  traverse_objs, obj_manager_round,
}

-- The connections of the algorithm do not lead around in a ring, and no way along them takes more
-- steps than the fuel.
abbrev pub Tame : ℕ → AlgTask → Type 0
Tame fuel alg = (rank : ℕ → ℕ) × Acyclic (numbered 0 alg.ele_vec) rank × ((i : ℕ) → rank i < fuel)

abbrev Ends : {A : Type 0} → Option A → Type 0
Ends {A} o = (a : A) × (o ≡ some a)

assign_to_threads-Ends :
    (fuel : ℕ) (alg : AlgTask) (threads : List (List Element))
    → Tame fuel alg
    → Ends (assign_to_threads fuel alg threads)
unfolding assign_to_threads
assign_to_threads-Ends fuel alg threads (rank, acyclic, enough) =
    elim (Option-cases (search_entry (numbered 0 alg.ele_vec))) [
      | inl n ↦ ((false, threads), rw (n, assign_to_threads) refl)
      | inr (entry, e) ↦
          let (threads', k, cover) =
            assign_to_threads_covers alg threads rank fuel entry acyclic e (enough entry.0) in
          ((true, threads'), k)
    ]

get_alg_task-All :
    (Q : AlgTask → Type 0) (name : Text) (algs : List AlgTask) (alg : AlgTask)
    → All Q algs
    → get_alg_task name algs ≡ some alg
    → Q alg
unfolding get_alg_task
get_alg_task-All Q name [] alg h e = cc
get_alg_task-All Q name (x ∷ algs) alg h e = elim (Bool-cases (text_eq x.name name)) [
  | inl t ↦ subst Q (ground (arith, t)) h.0
  | inr f ↦ get_alg_task-All Q name algs alg h.1 (ground (arith, f))
]

module _ (fuel : ℕ) (algs : List AlgTask) (tame : All (Tame fuel) algs) where
  start_task-Ends : (task : TaskParams) → Ends (start_task fuel algs task)
  unfolding start_task
  start_task-Ends task = elim (Option-cases (get_alg_task task.name algs)) [
    | inl n ↦ (task, rw (n, start_task) refl)
    | inr (alg, e) ↦
        let (r, k) =
          assign_to_threads-Ends fuel alg task.thread_vec
            (get_alg_task-All (Tame fuel) task.name algs alg tame e) in
        (
          if r.0 then record task { running = true; thread_vec = r.1 } else task,
          rw (e, k, start_task) refl,
        )
  ]

  tend_task-Ends :
      (timeout now : ℕ) (task : TaskParams) → Ends (tend_task fuel algs timeout now task)
  unfolding tend_task
  tend_task-Ends timeout now task = elim (Bool-cases (keep_alive timeout now task).0) [
    | inl t ↦ ((keep_alive timeout now task).1, rw (t, tend_task) refl)
    | inr f ↦ rw (f, tend_task) (start_task-Ends (stop_task true (keep_alive timeout now task).1))
  ]

  traverse_task_que-Ends :
      (timeout now : ℕ) (tasks : List TaskParams)
      → Ends (traverse_task_que fuel algs timeout now tasks)
  unfolding traverse_task_que
  traverse_task_que-Ends timeout now [] = ([], refl)
  traverse_task_que-Ends timeout now (task ∷ tasks) =
      let (t, k) = tend_task-Ends timeout now task in
      let (ts, k') = traverse_task_que-Ends timeout now tasks in
      (t ∷ ts, rw (k, k', traverse_task_que) refl)

  traverse_objs-Ends :
      (timeout now : ℕ) (objs : List Object) → Ends (traverse_objs fuel algs timeout now objs)
  unfolding traverse_objs
  traverse_objs-Ends timeout now [] = ([], refl)
  traverse_objs-Ends timeout now (obj ∷ objs) =
      let (tasks, k) = traverse_task_que-Ends timeout now obj.task_vec in
      let (os, k') = traverse_objs-Ends timeout now objs in
      (record obj { task_vec = tasks } ∷ os, rw (k, k', traverse_objs) refl)

-- A round of ObjManager ends, with fuel for the longest way through any algorithm's elements, where
-- the connections of no algorithm lead around in a ring; it leaves all but the objects as it is.
pub obj_manager_round_ends :
    (fuel timeout now : ℕ) (node : SlaveNode)
    → All (Tame fuel) node.alg_vec
    → (objs : List Object) × (obj_manager_round fuel timeout now node
        ≡ some (record node { obj_vec = objs }))
unfolding obj_manager_round
obj_manager_round_ends fuel timeout now node tame =
    let (objs, k) = traverse_objs-Ends fuel node.alg_vec tame timeout now node.obj_vec in
    (objs, rw (k, obj_manager_round) refl)
