-- ===== src/Pipeline/Fuel.antt =====
-- AssignToThreads of src/pipeline.cpp: on which graphs of elements its loop ends.
use aistream.Base.{
  ℕ, zero, suc, ◌<◌, ◌≡◌, refl, inl, inr, Option, none, some, List, [], ◌∷◌, All, All-Has, All-map,
  All-self, Has, Bool-cases, arith,
}
use aistream.Pipeline.Cover.{All-get_next_ele}
use aistream.Pipeline.Threads.{
  Pointer, Attach, open_thread, attach_next, attach_each, attach_branch, walk_next, walk,
  get_next_ele,
}

module _ (eles : List Pointer) where
  abbrev pub Ends : Option Attach → Type 0
  Ends o = (s : Attach) × (o ≡ some s)

  -- A rank that goes down along each connection.
  abbrev pub Acyclic : (ℕ → ℕ) → Type 0
  Acyclic rank = (p q : Pointer) → Has p eles → Has q (get_next_ele eles p) → rank q.0 < rank p.0

  attach_each-Ends :
      (f : Pointer → Attach → Option Attach) (ns : List Pointer) (s : Attach)
      → All (λ q. (t : Attach) → Ends (f q t)) ns
      → Ends (attach_each (attach_branch f) ns s)
  unfolding attach_each
  attach_each-Ends f [] s h = (s, refl)
  attach_each-Ends f (e ∷ ns) s h =
      let (s1, k) : Ends (attach_branch f e s) = elim (Bool-cases (s.attach_to_thread e.0)) [
        | inl t ↦ rw t (s, refl)
        | inr n ↦ rw n (h.0 (open_thread e s))
      ] in
      rw (k, attach_each) (attach_each-Ends f ns s1 h.1)

  walk_next-Ends :
      (f : Pointer → Attach → Option Attach) (ns : List Pointer) (s : Attach)
      → All (λ q. (t : Attach) → Ends (f q t)) ns
      → Ends (walk_next f ns s)
  unfolding walk_next
  walk_next-Ends f [] s h = (s, refl)
  walk_next-Ends f (e ∷ []) s h = h.0 (attach_next e s)
  walk_next-Ends f (e ∷ e2 ∷ es) s h = attach_each-Ends f (e ∷ e2 ∷ es) s h

  pub walk-Ends :
      (rank : ℕ → ℕ) (fuel : ℕ) (p : Pointer) (s : Attach)
      → Acyclic rank
      → Has p eles
      → rank p.0 < fuel
      → Ends (walk fuel eles p s)
  unfolding walk
  walk-Ends rank zero p s a h l = absurd (omega (arith, l))
  walk-Ends rank (suc fuel) p s a h l = walk_next-Ends (walk fuel eles) (get_next_ele eles p) s (
      All-map (λ q. Has q (get_next_ele eles p)) (λ q. (t : Attach) → Ends (walk fuel eles q t))
        (get_next_ele eles p)
        (λ q n t.
          let down = a p q h n in
          let there =
            All-Has (λ x. Has x eles) (get_next_ele eles p) q (All-get_next_ele eles p) n in
          walk-Ends rank fuel q t a there (omega (arith, down, l)))
        (All-self (get_next_ele eles p)))

  -- On elements of which each has one successor, again one of them, no fuel is enough: the loop of
  -- AttachToThread, which asks for the flag of an only successor nowhere, does not end.
  pub walk_ring :
      (Ring : Pointer → Type 0) (succ : Pointer → Pointer)
      → ((p : Pointer) → Ring p → (get_next_ele eles p ≡ succ p ∷ []) × Ring (succ p))
      → (fuel : ℕ) (p : Pointer) (s : Attach) → Ring p
      → walk fuel eles p s ≡ none
  unfolding walk walk_next
  walk_ring Ring succ step zero p s r = refl
  walk_ring Ring succ step (suc fuel) p s r =
      let (next, r') = step p r in
      rw (next, walk_next) (walk_ring Ring succ step fuel (succ p) (attach_next (succ p) s) r')
