-- ===== src/Color/Image/Cells.antt =====
-- plugins/common/common.cpp: the pixels of an array of RGB bytes, before and after a store.
use aistream.Base.{
  ℕ, ◌+◌, ◌*◌, ◌≤◌, ◌<◌, ◌≡◌, ◌==◌, ◌&&◌, if◌then◌else◌, arith, refl, ap, sym, ◌∙◌, Bool-cases, inl,
  inr, ==_self, ==_iff,
}
use mathlib.Core.Bool.{true≢false}
use aistream.Color.{Rgb}
use aistream.Color.Image.{store, put}

-- The pixel number q.
unfoldable pub rgb_at : (ℕ → ℕ) → ℕ → Rgb
rgb_at dst q = record { r = dst (3 * q); g = dst (3 * q + 1); b = dst (3 * q + 2) }

pub rgb_at-put :
    (q p : ℕ) (x : Rgb) (dst : ℕ → ℕ)
    → rgb_at (put (3 * p) x dst) q ≡ (if q == p then x else rgb_at dst q)
unfolding put store rgb_at
rgb_at-put q p x dst = ground arith

pub put-after : (c d : ℕ) (x : Rgb) (dst : ℕ → ℕ) → d + 3 ≤ c → put d x dst c ≡ dst c
unfolding put store rgb_at
put-after c d x dst h = ground arith

-- Two places of a grid with rows of length w have one number only if they are the same place.
row_le : (w y y' x x' : ℕ) → x < w → y * w + x ≡ y' * w + x' → y' ≤ y
row_le w y y' x x' h e = grind arith

place : (w y y' x x' : ℕ) → x < w → x' < w → y * w + x ≡ y' * w + x' → (y ≡ y') × (x ≡ x')
place w y y' x x' h h' e =
    let same : y ≡ y' = omega (arith, row_le w y y' x x' h e, row_le w y' y x' x h' (sym e)) in
    (same, omega (arith, e, ap (λ t. t * w) same))

pub place_eq :
    (w y y' x x' : ℕ) → x < w → x' < w → ((y * w + x) == (y' * w + x')) ≡ (y == y' && x == x')
place_eq w y y' x x' h h' = elim (Bool-cases ((y * w + x) == (y' * w + x'))) [
  | inl b ↦
      let (e, f) = place w y y' x x' h h' ((==_iff _ _).0 b) in
      rw (b, e, f, ==_self y', ==_self x') refl
  | inr b ↦ elim (Bool-cases (y == y' && x == x')) [
    | inl c ↦
        let e : y ≡ y' = ground arith in
        let f : x ≡ x' = ground arith in
        absurd (true≢false (sym (==_self (y' * w + x')) ∙ (rw (e, f) at b)))
    | inr c ↦ b ∙ sym c
  ]
]
