-- ===== src/Color/Image/Block.antt =====
-- plugins/common/common.cpp: the stores of one block of four pixels.
use aistream.Base.{
  ℕ, ◌+◌, ◌*◌, ◌<◌, ◌≤◌, ◌≡◌, refl, ◌==◌, ◌&&◌, ◌⊎◌, inl, inr, if◌then◌else◌, arith, Bool-cases,
  true,
}
use aistream.Color.{Rgb}
use aistream.Color.Image.{put}
use aistream.Color.Image.Cells.{rgb_at, rgb_at-put, put-after, place_eq}

-- The pixels of the lines above the line of blocks number j, and of its first i blocks.
abbrev pub IsDone : ℕ → ℕ → ℕ → ℕ → Type 0
IsDone j i y x = (y < 2 * j) ⊎ ((y < 2 * j + 2) × (x < 2 * i))

-- The block number i of the line of blocks number j, in lines of w pixels, coloured by `colour`.
unfoldable pub put_block : (ℕ → ℕ → Rgb) → ℕ → ℕ → ℕ → (ℕ → ℕ) → ℕ → ℕ
put_block colour w j i dst =
    put (3 * ((2 * j + 1) * w + (2 * i + 1))) (colour (2 * j + 1) (2 * i + 1)) (
      put (3 * (2 * j * w + (2 * i + 1))) (colour (2 * j) (2 * i + 1)) (
        put (3 * ((2 * j + 1) * w + 2 * i)) (colour (2 * j + 1) (2 * i))
          (put (3 * (2 * j * w + 2 * i)) (colour (2 * j) (2 * i)) dst)))

rgb_at-put_block :
    (colour : ℕ → ℕ → Rgb) (w j i y x : ℕ) (dst : ℕ → ℕ)
    → x < w
    → 2 * i + 1 < w
    → rgb_at (put_block colour w j i dst) (y * w + x) ≡ (
        if y == 2 * j + 1 && x == 2 * i + 1
        then colour (2 * j + 1) (2 * i + 1)
        else if y == 2 * j && x == 2 * i + 1
        then colour (2 * j) (2 * i + 1)
        else if y == 2 * j + 1 && x == 2 * i
        then colour (2 * j + 1) (2 * i)
        else if y == 2 * j && x == 2 * i
        then colour (2 * j) (2 * i)
        else rgb_at dst (y * w + x))
unfolding put_block
rgb_at-put_block colour w j i y x dst hx hi =
    rw
      (
        rgb_at-put (y * w + x) ((2 * j + 1) * w + (2 * i + 1)) _ _,
        rgb_at-put (y * w + x) (2 * j * w + (2 * i + 1)) _ _,
        rgb_at-put (y * w + x) ((2 * j + 1) * w + 2 * i) _ _,
        rgb_at-put (y * w + x) (2 * j * w + 2 * i) _ _,
        place_eq w y (2 * j + 1) x (2 * i + 1) hx hi,
        place_eq w y (2 * j) x (2 * i + 1) hx hi,
        place_eq w y (2 * j + 1) x (2 * i) hx (omega arith),
        place_eq w y (2 * j) x (2 * i) hx (omega arith),
      )
      refl

same :
    (colour : ℕ → ℕ → Rgb) (y x y' x' : ℕ) → (y == y' && x == x') ≡ true → colour y' x' ≡ colour y x
same colour y x y' x' b =
    let e : y ≡ y' = ground arith in let f : x ≡ x' = ground arith in rw (e, f) refl

-- Where the pixels that were done are right, the pixels that are done after the block are.
pub put_block_lem :
    (colour : ℕ → ℕ → Rgb) (w j i : ℕ) (dst : ℕ → ℕ)
    → 2 * i + 1 < w
    → ((y x : ℕ) → x < w → IsDone j i y x → rgb_at dst (y * w + x) ≡ colour y x)
    → (y x : ℕ) → x < w
    → IsDone j (i + 1) y x
    → rgb_at (put_block colour w j i dst) (y * w + x) ≡ colour y x
put_block_lem colour w j i dst hi right y x hx done =
    rw (rgb_at-put_block colour w j i y x dst hx hi)
      elim (Bool-cases (y == 2 * j + 1 && x == 2 * i + 1)) [
        | inl b ↦ rw b (same colour y x _ _ b)
        | inr b ↦ elim (Bool-cases (y == 2 * j && x == 2 * i + 1)) [
          | inl b2 ↦ rw (b, b2) (same colour y x _ _ b2)
          | inr b2 ↦ elim (Bool-cases (y == 2 * j + 1 && x == 2 * i)) [
            | inl b3 ↦ rw (b, b2, b3) (same colour y x _ _ b3)
            | inr b3 ↦ elim (Bool-cases (y == 2 * j && x == 2 * i)) [
              | inl b4 ↦ rw (b, b2, b3, b4) (same colour y x _ _ b4)
              | inr b4 ↦ rw (b, b2, b3, b4) (right y x hx (ground arith))
            ]
          ]
        ]
      ]

pub put_block-after :
    (colour : ℕ → ℕ → Rgb) (w j i q : ℕ) (dst : ℕ → ℕ)
    → 2 * i + 1 < w
    → 3 * ((2 * j + 2) * w) ≤ q
    → put_block colour w j i dst q ≡ dst q
unfolding put_block
put_block-after colour w j i q dst hi h =
    rw
      (
        put-after q (3 * ((2 * j + 1) * w + (2 * i + 1))) _ _ (omega (arith, wide)),
        put-after q (3 * (2 * j * w + (2 * i + 1))) _ _ (omega (arith, wide)),
        put-after q (3 * ((2 * j + 1) * w + 2 * i)) _ _ (omega (arith, wide)),
        put-after q (3 * (2 * j * w + 2 * i)) _ _ (omega (arith, wide)),
      )
      refl
  where
    wide : 2 * j * w + 2 * w ≤ (2 * j + 2) * w
    wide = omega arith
