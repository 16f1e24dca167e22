-- ===== src/Pipeline/Places.antt =====
-- AssignToThreads of src/pipeline.cpp: where the flagged elements stand.
use mathlib.Core.List.{append-nil, append_assoc}
use aistream.Base.{
  ◌==◌, ==_iff, Has-snoc, Has-append_left, ℕ, zero, suc, ◌≡◌, refl, sym, ◌∙◌, ap, inl, inr, Bool,
  true, false, Option, List, [], ◌∷◌, ◌++◌, option, All, Has, Bool-cases, Option-cases,
  if◌then◌else◌,
}
use aistream.Pipeline.{Element}
use aistream.Pipeline.Threads.{
  Pointer, Attach, flag, open_thread, push_last, attach_next, attach_each, attach_branch, walk_next,
  walk, get_next_ele,
}
use aistream.Pipeline.Cover.{concat, Unique, All-get_next_ele, attach_next-flag}

concat_snoc :
    (threads : List (List Element)) (ele : Element)
    → concat (threads ++ (ele ∷ []) ∷ []) ≡ concat threads ++ ele ∷ []
concat_snoc [] ele = refl
concat_snoc (tt' ∷ threads) ele =
    ap (◌++◌ tt') (concat_snoc threads ele) ∙ sym (append_assoc tt' (concat threads) (ele ∷ []))

concat-push_last :
    (ele : Element) (threads : List (List Element))
    → concat (push_last ele threads) ≡ concat threads ++ ele ∷ []
unfolding push_last
concat-push_last ele [] = refl
concat-push_last ele (tt' ∷ []) =
    append-nil (tt' ++ ele ∷ []) ∙ ap (λ xs. xs ++ ele ∷ []) (sym (append-nil tt'))
concat-push_last ele (tt' ∷ u ∷ threads) =
    ap (◌++◌ tt') (concat-push_last ele (u ∷ threads))
    ∙ sym (append_assoc tt' (concat (u ∷ threads)) (ele ∷ []))

either_threads :
    (b : Bool) (s1 s2 : Attach) (xs : List Element)
    → concat s1.thread_vec ≡ xs
    → concat s2.thread_vec ≡ xs
    → concat (if b then s1 else s2).thread_vec ≡ xs
either_threads true s1 s2 xs e f = e
either_threads false s1 s2 xs e f = f

module _ (eles : List Pointer) where
  -- Every flagged element stands on a thread.
  abbrev pub Stands : Attach → Type 0
  Stands s =
      (p : Pointer) → Has p eles → s.attach_to_thread p.0 ≡ true → Has p.1 (concat s.thread_vec)

  -- One more flag, and the element at the end of the threads.
  pub Stands-flag :
      (e : Pointer) (s s' : Attach)
      → Unique eles
      → Has e eles
      → s'.attach_to_thread ≡ flag e s.attach_to_thread
      → concat s'.thread_vec ≡ concat s.thread_vec ++ e.1 ∷ []
      → Stands s
      → Stands s'
  Stands-flag e s s' u h same threads st p hp t = elim (Bool-cases (e.0 == p.0)) [
    | inl eq ↦
        rw (threads, ← u e p h hp ((==_iff e.0 p.0).0 eq)) (Has-snoc (concat s.thread_vec) e.1)
    | inr ne ↦
        let before : s.attach_to_thread p.0 ≡ true =
          sym (ap (λ (f : ℕ → Bool). f p.0) same ∙ rw ne) ∙ t in
        rw threads (Has-append_left (concat s.thread_vec) (e.1 ∷ []) p.1 (st p hp before))
  ]

  abbrev Keeps : (Pointer → Attach → Option Attach) → Type 0
  Keeps f = (e : Pointer) (s : Attach) → Has e eles → Stands s → option Unit (Stands) (f e s)

  pub open_thread-Stands :
      (e : Pointer) (s : Attach) → Unique eles → Has e eles → Stands s → Stands (open_thread e s)
  open_thread-Stands e s u h =
      Stands-flag e s (open_thread e s) u h refl (concat_snoc s.thread_vec e.1)

  pub attach_next-threads :
      (e : Pointer) (s : Attach)
      → concat (attach_next e s).thread_vec ≡ concat s.thread_vec ++ e.1 ∷ []
  unfolding attach_next
  attach_next-threads e s =
      either_threads e.1.async (open_thread e s)
        (record {
          attach_to_thread = flag e s.attach_to_thread;
          thread_vec = push_last e.1 s.thread_vec;
        })
        (concat s.thread_vec ++ e.1 ∷ []) (concat_snoc s.thread_vec e.1)
        (concat-push_last e.1 s.thread_vec)

  attach_next-Stands :
      (e : Pointer) (s : Attach) → Unique eles → Has e eles → Stands s → Stands (attach_next e s)
  attach_next-Stands e s u h =
      Stands-flag e s (attach_next e s) u h (attach_next-flag eles e s) (attach_next-threads e s)

  attach_each-Stands :
      (f : Pointer → Attach → Option Attach) (ns : List Pointer) (s : Attach)
      → Unique eles
      → Keeps f
      → All (λ q. Has q eles) ns
      → Stands s
      → option Unit (Stands) (attach_each (attach_branch f) ns s)
  unfolding attach_each
  attach_each-Stands f [] s u keeps h st = st
  attach_each-Stands f (e ∷ ns) s u keeps h st =
      let first : option Unit (Stands) (attach_branch f e s) =
        elim (Bool-cases (s.attach_to_thread e.0)) [
          | inl t ↦ rw t st
          | inr n ↦ rw n (keeps e (open_thread e s) h.0 (open_thread-Stands e s u h.0 st))
        ] in
      elim (Option-cases (attach_branch f e s)) [
        | inl n ↦ rw (n, attach_each) tt
        | inr (s1, k) ↦ rw (k, attach_each) (attach_each-Stands f ns s1 u keeps h.1 (rw k at first))
      ]

  walk_next-Stands :
      (f : Pointer → Attach → Option Attach) (ns : List Pointer) (s : Attach)
      → Unique eles
      → Keeps f
      → All (λ q. Has q eles) ns
      → Stands s
      → option Unit (Stands) (walk_next f ns s)
  unfolding walk_next
  walk_next-Stands f [] s u keeps h st = st
  walk_next-Stands f (e ∷ []) s u keeps h st =
      keeps e (attach_next e s) h.0 (attach_next-Stands e s u h.0 st)
  walk_next-Stands f (e ∷ e2 ∷ es) s u keeps h st =
      attach_each-Stands f (e ∷ e2 ∷ es) s u keeps h st

  pub walk-Stands : (fuel : ℕ) → Unique eles → Keeps (walk fuel eles)
  unfolding walk
  walk-Stands zero u e s h st = tt
  walk-Stands (suc fuel) u e s h st =
      walk_next-Stands (walk fuel eles) (get_next_ele eles e) s u (walk-Stands fuel u)
        (All-get_next_ele eles e) st
