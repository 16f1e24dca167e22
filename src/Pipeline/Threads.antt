-- ===== src/Pipeline/Threads.antt =====
-- src/pipeline.cpp: AlgTask::AssignToThreads. An element of `ele_vec` is named by its position
-- there, which stands for its address.
use aistream.Base.{
  ℕ, zero, suc, ◌+◌, Bool, true, false, if◌then◌else◌, Option, none, some, List, [], ◌∷◌, ◌++◌,
  Text, text, text_eq, option, ◌==◌,
}
use aistream.Pipeline.{KeyValue, Element, AlgTask}

abbrev pub Pointer : Type 0
Pointer = ℕ × Element

-- The flags attach_to_thread, and the threads of the task with copies of the elements.
pub record Attach : Type 0 where
  pub attach_to_thread : ℕ → Bool
  pub thread_vec : List (List Element)

-- GetInputMap with a test on the value.
unfoldable pub has_input : Text → List KeyValue → Bool
has_input val [] = false
has_input val (kv ∷ rest) = if text_eq kv.val val then true else has_input val rest

unfoldable pub get_output_map : Element → Option KeyValue
get_output_map ele = elim ele.output_map [ [] ↦ none | kv ∷ rest ↦ some kv ]

unfoldable pub numbered : ℕ → List Element → List Pointer
numbered i [] = []
numbered i (ele ∷ rest) = (i, ele) ∷ numbered (i + 1) rest

unfoldable pub search_entry : List Pointer → Option Pointer
unfolding has_input
search_entry [] = none
search_entry (p ∷ rest) =
    if has_input (text "entry") p.1.input_map then some p else search_entry rest

unfoldable pub readers : Text → List Pointer → List Pointer
unfolding has_input
readers val [] = []
readers val (p ∷ rest) =
    let rest' = readers val rest in if has_input val p.1.input_map then p ∷ rest' else rest'

unfoldable pub get_next_ele : List Pointer → Pointer → List Pointer
unfolding get_output_map readers
get_next_ele eles p = option [] (λ output. readers output.val eles) (get_output_map p.1)

abbrev pub flag : Pointer → (ℕ → Bool) → ℕ → Bool
flag p flags i = if p.0 == i then true else flags i

-- A new thread with the element.
abbrev pub open_thread : Pointer → Attach → Attach
open_thread p s = record {
  attach_to_thread = flag p s.attach_to_thread;
  thread_vec = s.thread_vec ++ (p.1 ∷ []) ∷ [];
}

-- The element at the end of the last thread, which is the one that `tt` points to.
unfoldable pub push_last : Element → List (List Element) → List (List Element)
push_last ele [] = (ele ∷ []) ∷ []
push_last ele (tt ∷ []) = (tt ++ ele ∷ []) ∷ []
push_last ele (tt ∷ u ∷ rest) = tt ∷ push_last ele (u ∷ rest)

-- The only successor of an element: on a thread of its own if it is asynchronous.
unfoldable pub attach_next : Pointer → Attach → Attach
unfolding push_last
attach_next p s = if p.1.async then open_thread p s else record {
  attach_to_thread = flag p s.attach_to_thread;
  thread_vec = push_last p.1 s.thread_vec;
}

unfoldable pub attach_each :
    (Pointer → Attach → Option Attach) → List Pointer → Attach → Option Attach
attach_each attach [] s = some s
attach_each attach (p ∷ rest) s = option none (attach_each attach rest) (attach p s)

-- A branch of a fork: AttachToThread with the walk that follows its guard.
abbrev pub attach_branch : (Pointer → Attach → Option Attach) → Pointer → Attach → Option Attach
attach_branch walk p s = if s.attach_to_thread p.0 then some s else walk p (open_thread p s)

-- A round of the loop of AttachToThread, by the successors of the element it is at.
unfoldable pub walk_next :
    (Pointer → Attach → Option Attach) → List Pointer → Attach → Option Attach
unfolding attach_next attach_each
walk_next walk [] s = some s
walk_next walk (e ∷ []) s = walk e (attach_next e s)
walk_next walk (e ∷ e2 ∷ es) s = attach_each (attach_branch walk) (e ∷ e2 ∷ es) s

-- The loop of AttachToThread from an attached element on. Each step that follows a connection takes
-- one unit of fuel; the C++ loop has no bound.
unfoldable pub walk : ℕ → List Pointer → Pointer → Attach → Option Attach
unfolding get_next_ele walk_next
walk zero eles p s = none
walk (suc fuel) eles p s = walk_next (walk fuel eles) (get_next_ele eles p) s

unfoldable pub attach_to_thread : ℕ → List Pointer → Pointer → Attach → Option Attach
unfolding walk
attach_to_thread fuel eles = attach_branch (walk fuel eles)

-- The value of AssignToThreads and the threads of the task; `none` if the fuel runs out.
unfoldable pub assign_to_threads :
    ℕ → AlgTask → List (List Element) → Option (Bool × List (List Element))
unfolding numbered search_entry attach_to_thread
assign_to_threads fuel alg threads =
    let eles = numbered 0 alg.ele_vec in
    elim (search_entry eles) [
      | none ↦ some (false, threads)
      | some entry ↦
          option none (λ s. some (true, s.thread_vec))
            (attach_to_thread fuel eles entry
              (record { attach_to_thread = λ i. false; thread_vec = [] }))
    ]
