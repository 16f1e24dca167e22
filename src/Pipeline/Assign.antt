-- ===== src/Pipeline/Assign.antt =====
-- AssignToThreads of src/pipeline.cpp, as a whole.
use mathlib.Core.Bool.{true≢false}
use aistream.Base.{
  ℕ, ◌+◌, ◌<◌, ◌≤◌, ◌≡◌, refl, sym, ◌∙◌, ap, inl, inr, true, false, some, List, [], ◌∷◌, All-Has,
  Has, ◌==◌, ==_iff, ==_self, Bool-cases, arith, text,
}
use aistream.Pipeline.{Element, AlgTask}
use aistream.Pipeline.Threads.{
  Pointer, Attach, numbered, search_entry, has_input, open_thread, walk, get_next_ele,
  attach_to_thread, assign_to_threads,
}
use aistream.Pipeline.Cover.{concat, Unique, Follows, walk-Closed, All-get_next_ele}
use aistream.Pipeline.Places.{Stands, walk-Stands, open_thread-Stands}
use aistream.Pipeline.Fuel.{Acyclic, walk-Ends}

-- The elements that an element leads to along the connections.
pub data Reach (eles : List Pointer) (p : Pointer) : Pointer → Type 0 where
  here : Reach eles p p
  onward : {q r : Pointer} → Reach eles p q → Has r (get_next_ele eles q) → Reach eles p r

numbered-above :
    (i j : ℕ) (xs : List Element) (p : Pointer) → i ≤ j → Has p (numbered j xs) → i ≤ p.0
unfolding numbered
numbered-above i j [] p le h = absurd h
numbered-above i j (x ∷ xs) p le (inl e) = rw (← e) le
numbered-above i j (x ∷ xs) p le (inr h) = numbered-above i (j + 1) xs p (omega (arith, le)) h

numbered-Unique : (i : ℕ) (xs : List Element) → Unique (numbered i xs)
unfolding numbered
numbered-Unique i [] p q hp hq e = absurd hp
numbered-Unique i (x ∷ xs) p q (inl ep) (inl eq) e = sym ep ∙ eq
numbered-Unique i (x ∷ xs) p q (inl ep) (inr hq) e =
    let above = numbered-above (i + 1) (i + 1) xs q (omega arith) hq in
    absurd (omega (arith, above, e, ap (λ (r : Pointer). r.0) ep))
numbered-Unique i (x ∷ xs) p q (inr hp) (inl eq) e =
    let above = numbered-above (i + 1) (i + 1) xs p (omega arith) hp in
    absurd (omega (arith, above, e, ap (λ (r : Pointer). r.0) eq))
numbered-Unique i (x ∷ xs) p q (inr hp) (inr hq) e = numbered-Unique (i + 1) xs p q hp hq e

search_entry-Has : (ps : List Pointer) (p : Pointer) → search_entry ps ≡ some p → Has p ps
unfolding search_entry
search_entry-Has [] p e = cc
search_entry-Has (x ∷ ps) p e = elim (Bool-cases (has_input (text "entry") x.1.input_map)) [
  | inl t ↦ inl (ground (arith, t))
  | inr f ↦ inr (search_entry-Has ps p (ground (arith, f)))
]

Reach-Has : (eles : List Pointer) (p q : Pointer) → Has p eles → Reach eles p q → Has q eles
Reach-Has eles p q h here = h
Reach-Has eles p r h (onward {q} k n) =
    All-Has (λ x. Has x eles) (get_next_ele eles q) r (All-get_next_ele eles q) n

Reach-flagged :
    (eles : List Pointer) (p q : Pointer) (s : Attach)
    → Has p eles
    → s.attach_to_thread p.0 ≡ true
    → ((r : Pointer) → Has r eles → s.attach_to_thread r.0 ≡ true → Follows eles s r)
    → Reach eles p q
    → s.attach_to_thread q.0 ≡ true
Reach-flagged eles p q s h t closed here = t
Reach-flagged eles p r s h t closed (onward {q} k n) =
    closed q (Reach-Has eles p q h k) (Reach-flagged eles p q s h t closed k) r n

-- The flags and threads that the loop of AttachToThread starts from.
abbrev opened_entry : Pointer → Attach
opened_entry entry = open_thread entry (record { attach_to_thread = λ i. false; thread_vec = [] })

assign_to_threads-walk :
    (fuel : ℕ) (alg : AlgTask) (threads : List (List Element)) (entry : Pointer) (s : Attach)
    → search_entry (numbered 0 alg.ele_vec) ≡ some entry
    → walk fuel (numbered 0 alg.ele_vec) entry (opened_entry entry) ≡ some s
    → assign_to_threads fuel alg threads ≡ some (true, s.thread_vec)
unfolding assign_to_threads attach_to_thread
assign_to_threads-walk fuel alg threads entry s e k = rw (e, assign_to_threads) (rw k refl)

-- Where the connections of an algorithm's elements do not lead around in a ring and some element
-- reads "entry", AssignToThreads ends and returns true, and every element that the entry leads to
-- stands on one of the task's threads.
pub assign_to_threads_covers :
    (alg : AlgTask) (threads : List (List Element)) (rank : ℕ → ℕ) (fuel : ℕ) (entry : Pointer)
    → Acyclic (numbered 0 alg.ele_vec) rank
    → search_entry (numbered 0 alg.ele_vec) ≡ some entry
    → rank entry.0 < fuel
    → (threads' : List (List Element)) × (assign_to_threads fuel alg threads
        ≡ some (true, threads'))
      × ((q : Pointer) → Reach (numbered 0 alg.ele_vec) entry q → Has q.1 (concat threads'))
assign_to_threads_covers alg threads rank fuel entry a e l =
    let eles = numbered 0 alg.ele_vec in
    let unique = numbered-Unique 0 alg.ele_vec in
    let h = search_entry-Has eles entry e in
    let start : Attach = record { attach_to_thread = λ i. false; thread_vec = [] } in
    let opened = opened_entry entry in
    let (s', k) = walk-Ends eles rank fuel entry opened a h l in
    let only : (q : Pointer) → Has q eles → opened.attach_to_thread q.0 ≡ true → q ≡ entry =
      λ q hq t. elim (Bool-cases (entry.0 == q.0)) [
        | inl eq ↦ sym (unique entry q h hq ((==_iff entry.0 q.0).0 eq))
        | inr ne ↦ absurd (true≢false (sym t ∙ rw ne))
      ] in
    let (t, closed) =
      walk-Closed eles fuel entry opened s' unique h only (rw (==_self entry.0)) k in
    let stands : Stands eles s' = rw k at (
      walk-Stands eles fuel unique entry opened h
        (open_thread-Stands eles entry start unique h (λ p hp f. absurd (true≢false (sym f))))) in
    (
      s'.thread_vec,
      assign_to_threads-walk fuel alg threads entry s' e k,
      λ q r. stands q (Reach-Has eles entry q h r) (Reach-flagged eles entry q s' h t closed r),
    )
