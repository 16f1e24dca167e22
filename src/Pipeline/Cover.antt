-- ===== src/Pipeline/Cover.antt =====
-- AssignToThreads of src/pipeline.cpp: which elements get their flag.
use aistream.Base.{
  ℕ, zero, suc, ◌≡◌, refl, sym, ◌∙◌, ap, subst, ◌⊎◌, inl, inr, Bool, true, Option, some, List, [],
  ◌∷◌, ◌++◌, arith, option, All, All-self, All-Has, Text, Has, Bool-cases, Option-cases, ◌==◌,
  ==_iff, ==_self,
}
use aistream.Pipeline.{Element}
use aistream.Pipeline.Threads.{
  Pointer, Attach, flag, open_thread, attach_next, attach_each, attach_branch, walk_next, walk,
  get_next_ele, readers, has_input, get_output_map,
}

abbrev pub concat : List (List Element) → List Element
concat [] = []
concat (tt ∷ rest) = tt ++ concat rest

module _ (eles : List Pointer) where
  -- Elements at one position are one.
  abbrev pub Unique : Type 0
  Unique = (p q : Pointer) → Has p eles → Has q eles → p.0 ≡ q.0 → p ≡ q

  abbrev pub Follows : Attach → Pointer → Type 0
  Follows s p = (q : Pointer) → Has q (get_next_ele eles p) → s.attach_to_thread q.0 ≡ true

  -- From s to s': no flag is lost, and an element with a new flag has its successors flagged.
  record Grown (s s' : Attach) : Type 0 where
    mono : (i : ℕ) → s.attach_to_thread i ≡ true → s'.attach_to_thread i ≡ true
    closed :
        (p : Pointer)
        → Has p eles
        → s'.attach_to_thread p.0 ≡ true
        → (s.attach_to_thread p.0 ≡ true) ⊎ Follows s' p

  Grown-refl : (s : Attach) → Grown s s
  Grown-refl s = record { mono = λ i h. h; closed = λ p h e. inl e }

  Grown-trans : (s s1 s2 : Attach) → Grown s s1 → Grown s1 s2 → Grown s s2
  Grown-trans s s1 s2 f g = record {
    mono = λ i h. g.mono i (f.mono i h);
    closed = λ p h e. elim (g.closed p h e) [
      | inr k ↦ inr k
      | inl e1 ↦ elim (f.closed p h e1) [
        | inl e0 ↦ inl e0
        | inr k ↦ inr (λ q n. g.mono q.0 (k q n))
      ]
    ];
  }

  -- One more element is flagged, and then its successors are.
  Grown-flag :
      (e : Pointer) (s s1 s' : Attach)
      → Unique
      → Has e eles
      → s1.attach_to_thread ≡ flag e s.attach_to_thread
      → Grown s1 s'
      → Follows s' e
      → Grown s s' × (s'.attach_to_thread e.0 ≡ true)
  Grown-flag e s s1 s' u h same g k =
      let at_flag : (i : ℕ) → s1.attach_to_thread i ≡ flag e s.attach_to_thread i =
        λ i. ap (λ (f : ℕ → Bool). f i) same in
      (
        record {
          mono = λ i t. g.mono i (at_flag i ∙ ground (arith, t));
          closed = λ p hp t. elim (g.closed p hp t) [
            | inr k1 ↦ inr k1
            | inl t1 ↦ elim (Bool-cases (e.0 == p.0)) [
              | inl eq ↦ inr (subst (Follows s') (u e p h hp ((==_iff e.0 p.0).0 eq)) k)
              | inr ne ↦ inl (sym (at_flag p.0 ∙ rw ne) ∙ t1)
            ]
          ];
        },
        g.mono e.0 (at_flag e.0 ∙ rw (==_self e.0)),
      )

  -- What the loop of AttachToThread does from a flagged element on.
  abbrev Spec : (Pointer → Attach → Option Attach) → Type 0
  Spec f =
      (e : Pointer) (s : Attach)
      → Has e eles
      → option Unit (λ s'. Grown s s' × Follows s' e) (f e s)

  abbrev Flagged : List Pointer → Attach → Attach → Type 0
  Flagged ns s s' = Grown s s' × All (λ (q : Pointer). s'.attach_to_thread q.0 ≡ true) ns

  -- The loop from an element that has just got its flag.
  flagged_walk :
      (f : Pointer → Attach → Option Attach) (e : Pointer) (s s1 : Attach)
      → Unique
      → Spec f
      → Has e eles
      → s1.attach_to_thread ≡ flag e s.attach_to_thread
      → option Unit (λ s'. Grown s s' × (s'.attach_to_thread e.0 ≡ true)) (f e s1)
  flagged_walk f e s s1 u spec h same =
      let r = spec e s1 h in
      elim (Option-cases (f e s1)) [
        | inl n ↦ rw n tt
        | inr (s', k) ↦
            let (g, follows) = rw k at r in rw k (Grown-flag e s s1 s' u h same g follows)
      ]

  branch-Flagged :
      (f : Pointer → Attach → Option Attach) (e : Pointer) (s : Attach)
      → Unique
      → Spec f
      → Has e eles
      → option Unit (λ s'. Grown s s' × (s'.attach_to_thread e.0 ≡ true)) (attach_branch f e s)
  branch-Flagged f e s u spec h = elim (Bool-cases (s.attach_to_thread e.0)) [
    | inl t ↦ rw t (Grown-refl s, t)
    | inr n ↦ rw n (flagged_walk f e s (open_thread e s) u spec h refl)
  ]

  each-Flagged :
      (f : Pointer → Attach → Option Attach) (ns : List Pointer) (s : Attach)
      → Unique
      → Spec f
      → All (λ q. Has q eles) ns
      → option Unit (Flagged ns s) (attach_each (attach_branch f) ns s)
  unfolding attach_each
  each-Flagged f [] s u spec h = (Grown-refl s, tt)
  each-Flagged f (e ∷ ns) s u spec h =
      let first = branch-Flagged f e s u spec h.0 in
      elim (Option-cases (attach_branch f e s)) [
        | inl n ↦ rw (n, attach_each) tt
        | inr (s1, k) ↦
            let (g1, t1) = rw k at first in
            let rest = each-Flagged f ns s1 u spec h.1 in
            elim (Option-cases (attach_each (attach_branch f) ns s1)) [
              | inl n ↦ rw (k, n, attach_each) tt
              | inr (s2, k2) ↦
                  let (g2, t2) = rw k2 at rest in
                  rw (k, k2, attach_each) (Grown-trans s s1 s2 g1 g2, (g2.mono e.0 t1, t2))
            ]
      ]

  pub attach_next-flag :
      (e : Pointer) (s : Attach) → (attach_next e s).attach_to_thread ≡ flag e s.attach_to_thread
  unfolding attach_next
  attach_next-flag e s = elim (Bool-cases e.1.async) [
    | inl t ↦ rw (t, attach_next) refl
    | inr f ↦ rw (f, attach_next) refl
  ]

  walk_next-Flagged :
      (f : Pointer → Attach → Option Attach) (ns : List Pointer) (s : Attach)
      → Unique
      → Spec f
      → All (λ q. Has q eles) ns
      → option Unit (Flagged ns s) (walk_next f ns s)
  unfolding walk_next
  walk_next-Flagged f [] s u spec h = (Grown-refl s, tt)
  walk_next-Flagged f (e ∷ []) s u spec h =
      let r = flagged_walk f e s (attach_next e s) u spec h.0 (attach_next-flag e s) in
      elim (Option-cases (f e (attach_next e s))) [
        | inl n ↦ rw n tt
        | inr (s', k) ↦ let (g, t) = rw k at r in rw k (g, (t, tt))
      ]
  walk_next-Flagged f (e ∷ e2 ∷ es) s u spec h = each-Flagged f (e ∷ e2 ∷ es) s u spec h

  All-readers :
      (val : Text) (ps : List Pointer)
      → All (λ q. Has q eles) ps
      → All (λ q. Has q eles) (readers val ps)
  unfolding readers
  All-readers val [] h = tt
  All-readers val (p ∷ ps) h = elim (Bool-cases (has_input val p.1.input_map)) [
    | inl t ↦ rw (t, readers) (h.0, All-readers val ps h.1)
    | inr f ↦ rw (f, readers) (All-readers val ps h.1)
  ]

  pub All-get_next_ele : (p : Pointer) → All (λ q. Has q eles) (get_next_ele eles p)
  unfolding get_next_ele
  All-get_next_ele p = elim (Option-cases (get_output_map p.1)) [
    | inl n ↦ rw (n, get_next_ele) tt
    | inr (out, e) ↦ rw (e, get_next_ele) (All-readers out.val eles (All-self eles))
  ]

  walk-Spec : (fuel : ℕ) → Unique → Spec (walk fuel eles)
  unfolding walk
  walk-Spec zero u e s h = tt
  walk-Spec (suc fuel) u e s h =
      let r =
        walk_next-Flagged (walk fuel eles) (get_next_ele eles e) s u (walk-Spec fuel u)
          (All-get_next_ele e) in
      elim (Option-cases (walk_next (walk fuel eles) (get_next_ele eles e) s)) [
        | inl n ↦ rw n tt
        | inr (s', k) ↦
            let (g, t) = rw k at r in
            rw k (
              g,
              λ q n.
                  All-Has (λ (x : Pointer). s'.attach_to_thread x.0 ≡ true) (get_next_ele eles e) q
                    t n,
            )
      ]

  -- Where every flag that stands belongs to p, the loop from p leaves an element with its flag only
  -- if its successors have theirs.
  pub walk-Closed :
      (fuel : ℕ) (p : Pointer) (s s' : Attach)
      → Unique
      → Has p eles
      → ((q : Pointer) → Has q eles → s.attach_to_thread q.0 ≡ true → q ≡ p)
      → s.attach_to_thread p.0 ≡ true
      → walk fuel eles p s ≡ some s'
      → (s'.attach_to_thread p.0 ≡ true)
        × ((q : Pointer) → Has q eles → s'.attach_to_thread q.0 ≡ true → Follows s' q)
  walk-Closed fuel p s s' u h only t e =
      let (g, k) = rw e at (walk-Spec fuel u p s h) in
      (
        g.mono p.0 t,
        λ q hq tq. elim (g.closed q hq tq) [
          | inl before ↦ subst (Follows s') (sym (only q hq before)) k
          | inr follows ↦ follows
        ],
      )
