-- ===== src/Master/Choice.antt =====
-- GetLowestSlave of src/master.cpp: which slave gets an object.
use aistream.Base.{
  ℕ, Bool, true, false, ◌&&◌, ◌≡◌, refl, sym, ◌⊎◌, inl, inr, Option, none, some, List, [], ◌∷◌,
  arith, All, Has, Bool-cases,
}
use aistream.Platform.{Platform}
use aistream.Master.State.{MasterParams}
use aistream.Master.Http.{lower_slave, lowest_slave_loop, get_lowest_slave}

-- What C guarantees of `<` on floats, NaN included.
pub record FloatLaws (P : Platform) : Type 0 where
  pub lt_irrefl : (x : P.Float) → P.float_lt x x ≡ false
  pub lt_trans :
      (x y z : P.Float) → P.float_lt x y ≡ true → P.float_lt y z ≡ true → P.float_lt x z ≡ true

module _ (P : Platform) (m : MasterParams P) where
  -- a has less load than b.
  abbrev pub less : ℕ → ℕ → Bool
  less a b = P.float_lt (m.slave_at a).total_load (m.slave_at b).total_load

  -- A slave that may take an object.
  abbrev pub is_candidate : ℕ → Bool
  is_candidate a = (m.slave_at a).alive && P.float_lt (m.slave_at a).total_load P.slave_load_max

  -- No candidate of the list has less load than a.
  abbrev pub IsLowest : ℕ → List ℕ → Type 0
  IsLowest a = All (λ x. is_candidate x ≡ true → less x a ≡ false)

  abbrev pub Chosen : List ℕ → Option ℕ → Type 0
  Chosen xs none = All (λ x. is_candidate x ≡ false) xs
  Chosen xs (some a) = Has a xs × (is_candidate a ≡ true) × IsLowest a xs

  -- What the loop makes of the best slave so far.
  abbrev Improves : ℕ → List ℕ → ℕ → Type 0
  Improves b xs a =
      ((a ≡ b) ⊎ (Has a xs × (is_candidate a ≡ true) × (less a b ≡ true))) × IsLowest a xs

  lower_slave_better :
      (b x : ℕ) → is_candidate x ≡ true → less x b ≡ true → lower_slave P m (some b) x ≡ some x
  unfolding lower_slave
  lower_slave_better b x c l = ground arith

  lower_slave_worse :
      (b x : ℕ) → (is_candidate x && less x b) ≡ false → lower_slave P m (some b) x ≡ some b
  unfolding lower_slave
  lower_slave_worse b x w = ground arith

module _ (P : Platform) (laws : FloatLaws P) (m : MasterParams P) where
  -- A slave that beats another is not beaten by what does not beat the other.
  not_less-of_less : (a b x : ℕ) → less P m a b ≡ true → less P m x b ≡ false → less P m x a ≡ false
  not_less-of_less a b x l n = elim (Bool-cases (less P m x a)) [
    | inl y ↦ cc (laws.lt_trans _ _ _ y l)
    | inr y ↦ y
  ]

  less_asym : (a x : ℕ) → less P m a x ≡ true → less P m x a ≡ false
  less_asym a x l = not_less-of_less a x x l (laws.lt_irrefl _)

  better-Improves :
      (a b x : ℕ) (xs : List ℕ)
      → is_candidate P m x ≡ true
      → less P m x b ≡ true
      → Improves P m x xs a
      → Improves P m b (x ∷ xs) a
  better-Improves a b x xs c l (inl p, low) = (
    inr (inl (sym p), cc, cc),
    ((λ _. ground (arith, laws.lt_irrefl (m.slave_at x).total_load)), low),
  )
  better-Improves a b x xs c l (inr (h, ca, la), low) =
      (inr (inr h, ca, laws.lt_trans _ _ _ la l), ((λ _. less_asym a x la), low))

  worse-Improves :
      (a b x : ℕ) (xs : List ℕ)
      → (is_candidate P m x && less P m x b) ≡ false
      → Improves P m b xs a
      → Improves P m b (x ∷ xs) a
  worse-Improves a b x xs w (inl p, low) = (inl p, ((λ c. ground arith), low))
  worse-Improves a b x xs w (inr (h, ca, la), low) =
      (inr (inr h, ca, la), ((λ c. not_less-of_less a b x la (ground arith)), low))

  lowest_slave_loop-Improves :
      (b : ℕ) (xs : List ℕ)
      → (a : ℕ) × (lowest_slave_loop P m (some b) xs ≡ some a) × Improves P m b xs a
  unfolding lowest_slave_loop
  lowest_slave_loop-Improves b [] = (b, refl, (inl refl, tt))
  lowest_slave_loop-Improves b (x ∷ xs) = elim (Bool-cases (is_candidate P m x && less P m x b)) [
    | inl better ↦
        let c : is_candidate P m x ≡ true = ground arith in
        let l : less P m x b ≡ true = ground arith in
        let (a, e, i) = lowest_slave_loop-Improves x xs in
        (a, rw (lower_slave_better P m b x c l) e, better-Improves a b x xs c l i)
    | inr worse ↦
        let (a, e, i) = lowest_slave_loop-Improves b xs in
        (a, rw (lower_slave_worse P m b x worse) e, worse-Improves a b x xs worse i)
  ]

  Improves-Chosen :
      (a x : ℕ) (xs : List ℕ)
      → is_candidate P m x ≡ true
      → Improves P m x xs a
      → Chosen P m (x ∷ xs) (some a)
  Improves-Chosen a x xs c (inl p, low) =
      (inl (sym p), cc, ((λ _. ground (arith, laws.lt_irrefl (m.slave_at x).total_load)), low))
  Improves-Chosen a x xs c (inr (h, ca, la), low) = (inr h, ca, ((λ _. less_asym a x la), low))

  Chosen-skip :
      (x : ℕ) (xs : List ℕ) (r : Option ℕ)
      → is_candidate P m x ≡ false
      → Chosen P m xs r
      → Chosen P m (x ∷ xs) r
  Chosen-skip x xs none n h = (n, h)
  Chosen-skip x xs (some a) n (h, c, low) = (inr h, c, ((λ y. cc), low))

  lower_slave_first : (x : ℕ) → is_candidate P m x ≡ true → lower_slave P m none x ≡ some x
  unfolding lower_slave
  lower_slave_first x c = ground arith

  lower_slave_skip : (x : ℕ) → is_candidate P m x ≡ false → lower_slave P m none x ≡ none
  unfolding lower_slave
  lower_slave_skip x n = ground arith

  loop-Chosen : (xs : List ℕ) → Chosen P m xs (lowest_slave_loop P m none xs)
  unfolding lowest_slave_loop
  loop-Chosen [] = tt
  loop-Chosen (x ∷ xs) = elim (Bool-cases (is_candidate P m x)) [
    | inl c ↦
        let (a, e, i) = lowest_slave_loop-Improves x xs in
        rw (lower_slave_first x c) (rw e (Improves-Chosen a x xs c i))
    | inr n ↦
        rw (lower_slave_skip x n)
          (Chosen-skip x xs (lowest_slave_loop P m none xs) n (loop-Chosen xs))
  ]

  -- GetLowestSlave finds no slave only if no registered slave is alive with a load below the
  -- maximum; a slave that it finds is registered, alive and below the maximum, and no other such
  -- slave has a smaller load.
  pub get_lowest_slave-Chosen : Chosen P m m.m_slave_vec (get_lowest_slave P m)
  unfolding get_lowest_slave
  get_lowest_slave-Chosen = loop-Chosen m.m_slave_vec
