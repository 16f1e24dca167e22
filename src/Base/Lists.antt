-- ===== src/Base/Lists.antt =====
-- Lists measured and indexed by native numbers, predicates over lists, and updates in place.
use Prim.Native.Nat.{ℕ, zero, suc, ◌+◌, ◌≤◌, ◌<◌}
use mathlib.Core.Path.{◌≡◌, subst, refl, sym, ap, ◌∙◌}
use mathlib.Core.Bool.{Bool, false}
use mathlib.Core.Logic.{◌⊎◌, inl, inr}
use mathlib.Core.List.{List, [], ◌∷◌, ◌++◌}
use mathlib.Core.Option.{Option, none, some}
use native.Mathlib.Omega.{arith}

module _ {ℓ} {A : Type ℓ} where
  abbrev pub length : List A → ℕ
  length [] = 0
  length (x ∷ xs) = suc (length xs)

  abbrev pub get_elem? : List A → ℕ → Option A
  get_elem? [] i = none
  get_elem? (x ∷ xs) zero = some x
  get_elem? (x ∷ xs) (suc i) = get_elem? xs i

  abbrev pub take : ℕ → List A → List A
  take zero xs = []
  take (suc n) [] = []
  take (suc n) (x ∷ xs) = x ∷ take n xs

  pub length-append : (xs ys : List A) → length (xs ++ ys) ≡ length xs + length ys
  length-append [] ys = omega arith
  length-append (x ∷ xs) ys = omega (arith, length-append xs ys)

  abbrev pub All {κ} : (A → Type κ) → List A → Type κ
  All P [] = Unit
  All P (x ∷ xs) = P x × All P xs

module _ {A : Type 0} where
  pub All-append : (P : A → Type 0) (xs ys : List A) → All P xs → All P ys → All P (xs ++ ys)
  All-append P [] ys h k = k
  All-append P (x ∷ xs) ys h k = (h.0, All-append P xs ys h.1 k)

  -- What a loop gives that counts from i on for n rounds.
  abbrev pub rounds : ℕ → ℕ → (ℕ → List A) → List A
  rounds zero i body = []
  rounds (suc n) i body = body i ++ rounds n (i + 1) body

  pub All-rounds :
      (P : A → Type 0) (n i end : ℕ) (body : ℕ → List A)
      → i + n ≡ end
      → ((k : ℕ) → i ≤ k → k < end → All P (body k))
      → All P (rounds n i body)
  All-rounds P zero i end body e h = tt
  All-rounds P (suc n) i end body e h =
      All-append P (body i) (rounds n (i + 1) body) (h i (omega arith) (omega arith))
        (All-rounds P n (i + 1) end body (omega arith) (λ k a b. h k (omega arith) b))

  -- The value occurs in the list, with the place where it does.
  abbrev pub Has : A → List A → Type 0
  Has a [] = ⊥
  Has a (x ∷ xs) = (x ≡ a) ⊎ Has a xs

  pub All-Has : (P : A → Type 0) (xs : List A) (a : A) → All P xs → Has a xs → P a
  All-Has P [] a h m = absurd m
  All-Has P (x ∷ xs) a h (inl e) = subst P e h.0
  All-Has P (x ∷ xs) a h (inr m) = All-Has P xs a h.1 m

  pub All-snoc : (P : A → Type 0) (xs : List A) (a : A) → All P xs → P a → All P (xs ++ a ∷ [])
  All-snoc P [] a h p = (p, tt)
  All-snoc P (x ∷ xs) a h p = (h.0, All-snoc P xs a h.1 p)

  pub All-map : (P Q : A → Type 0) (xs : List A) → ((x : A) → P x → Q x) → All P xs → All Q xs
  All-map P Q [] f h = tt
  All-map P Q (x ∷ xs) f h = (f x h.0, All-map P Q xs f h.1)

  pub Has-append_left : (xs ys : List A) (a : A) → Has a xs → Has a (xs ++ ys)
  Has-append_left [] ys a h = absurd h
  Has-append_left (x ∷ xs) ys a (inl e) = inl e
  Has-append_left (x ∷ xs) ys a (inr h) = inr (Has-append_left xs ys a h)

  pub Has-snoc : (xs : List A) (a : A) → Has a (xs ++ a ∷ [])
  Has-snoc [] a = inl refl
  Has-snoc (x ∷ xs) a = inr (Has-snoc xs a)

  pub All-self : (xs : List A) → All (λ a. Has a xs) xs
  All-self [] = tt
  All-self (x ∷ xs) =
      (inl refl, All-map (λ a. Has a xs) (λ a. Has a (x ∷ xs)) xs (λ a h. inr h) (All-self xs))

  -- No two places of the list are the same in the sense of a test.
  abbrev pub Distinct : (A → A → Bool) → List A → Type 0
  Distinct same [] = Unit
  Distinct same (x ∷ xs) = All (λ y. same x y ≡ false) xs × Distinct same xs

  pub Distinct-snoc :
      (same : A → A → Bool) (xs : List A) (a : A)
      → Distinct same xs
      → All (λ x. same x a ≡ false) xs
      → Distinct same (xs ++ a ∷ [])
  Distinct-snoc same [] a d n = (tt, tt)
  Distinct-snoc same (x ∷ xs) a d n =
      (All-snoc (λ y. same x y ≡ false) xs a d.0 n.0, Distinct-snoc same xs a d.1 n.1)

  All-ext :
      (P : A → Type 0) (f g : A → Bool) (xs : List A)
      → ((y : A) → P y → f y ≡ g y)
      → All P xs
      → All (λ y. f y ≡ false) xs
      → All (λ y. g y ≡ false) xs
  All-ext P f g [] e p h = tt
  All-ext P f g (x ∷ xs) e p h = (sym (e x p.0) ∙ h.0, All-ext P f g xs e p.1 h.1)

  -- A test that says the same of all elements with a property that those of the list have.
  pub Distinct-ext :
      (P : A → Type 0) (same same' : A → A → Bool) (xs : List A)
      → ((x y : A) → P x → P y → same x y ≡ same' x y)
      → All P xs
      → Distinct same xs
      → Distinct same' xs
  Distinct-ext P same same' [] e p d = tt
  Distinct-ext P same same' (x ∷ xs) e p d = (
    All-ext P (same x) (same' x) xs (λ y. e x y p.0) p.1 d.0,
    Distinct-ext P same same' xs e p.1 d.1,
  )

  pub take-take : (n : ℕ) (xs : List A) → take n (take n xs) ≡ take n xs
  take-take zero xs = refl
  take-take (suc n) [] = refl
  take-take (suc n) (x ∷ xs) = ap (◌∷◌ x) (take-take n xs)

  pub All-zip :
      (P Q R : A → Type 0) (xs : List A)
      → ((x : A) → P x → Q x → R x)
      → All P xs
      → All Q xs
      → All R xs
  All-zip P Q R [] f p q = tt
  All-zip P Q R (x ∷ xs) f p q = (f x p.0 q.0, All-zip P Q R xs f p.1 q.1)
