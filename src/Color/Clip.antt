-- ===== src/Color/Clip.antt =====
-- plugins/common/common.cpp: the table `clp` cuts a colour to a byte.
use aistream.Base.{
  ℕ, zero, suc, ◌+◌, ◌-◌, ◌<◌, ◌≡◌, refl, sym, ap, ◌∙◌, ltb, if◌then◌else◌, some, List, [], ◌∷◌,
  ◌++◌, get_elem?, arith, Bool-cases, inl, inr,
}
use aistream.Base.{ℤ, pos, negsuc, ◌+ℤ◌, negate, shift16}
use aistream.Color.{
  fill, count, clp, clip, pixel, Rgb, crv_tab, cbu_tab, cgu_tab, cgv_tab, tab_76309,
}

-- The byte next to an integer.
unfoldable pub clamp : ℤ → ℕ
clamp (pos n) = if ltb 255 n then 255 else n
clamp (negsuc n) = 0

-- The colour of BT.601 video, in units of 1 / 65536, rounded down.
unfoldable pub reference : ℕ → ℕ → ℕ → Rgb
unfolding clamp
reference y u v = record {
  r = clamp (shift16 (tab_76309 y +ℤ crv_tab v));
  g = clamp (shift16 (tab_76309 y +ℤ negate (cgu_tab u) +ℤ negate (cgv_tab v)));
  b = clamp (shift16 (tab_76309 y +ℤ cbu_tab u));
}

get_elem?-fill : (n x i : ℕ) (rest : List ℕ) → i < n → get_elem? (fill n x ++ rest) i ≡ some x
unfolding fill
get_elem?-fill zero x i rest h = absurd (omega arith)
get_elem?-fill (suc n) x zero rest h = refl
get_elem?-fill (suc n) x (suc i) rest h = get_elem?-fill n x i rest (omega arith)

get_elem?-fill_after :
    (n x i j : ℕ) (rest : List ℕ) → n + i ≡ j → get_elem? (fill n x ++ rest) j ≡ get_elem? rest i
unfolding fill
get_elem?-fill_after zero x i j rest e = let e' : i ≡ j = omega arith in rw e' refl
get_elem?-fill_after (suc n) x i zero rest e = absurd (omega arith)
get_elem?-fill_after (suc n) x i (suc j) rest e = get_elem?-fill_after n x i j rest (omega arith)

get_elem?-count :
    (n k i : ℕ) (rest : List ℕ) → i < n → get_elem? (count n k ++ rest) i ≡ some (k + i)
unfolding count
get_elem?-count zero k i rest h = absurd (omega arith)
get_elem?-count (suc n) k zero rest h = ground arith
get_elem?-count (suc n) k (suc i) rest h = ground (arith, get_elem?-count n (k + 1) i rest)

get_elem?-count_after :
    (n k i j : ℕ) (rest : List ℕ) → n + i ≡ j → get_elem? (count n k ++ rest) j ≡ get_elem? rest i
unfolding count
get_elem?-count_after zero k i j rest e = let e' : i ≡ j = omega arith in rw e' refl
get_elem?-count_after (suc n) k i zero rest e = absurd (omega arith)
get_elem?-count_after (suc n) k i (suc j) rest e =
    get_elem?-count_after n (k + 1) i j rest (omega arith)

-- The three parts of the table.
clp_low : (i : ℕ) → i < 384 → get_elem? clp i ≡ some 0
unfolding clp
clp_low i h = get_elem?-fill 384 0 i (count 256 0 ++ fill 384 255) h

clp_middle : (i : ℕ) → i < 256 → get_elem? clp (384 + i) ≡ some i
unfolding clp
clp_middle i h =
    get_elem?-fill_after 384 0 i (384 + i) (count 256 0 ++ fill 384 255) refl
    ∙ get_elem?-count 256 0 i (fill 384 255) h
    ∙ ap some (omega arith)

append-nil : (xs : List ℕ) → xs ++ [] ≡ xs
append-nil [] = refl
append-nil (x ∷ xs) = ap (◌∷◌ x) (append-nil xs)

clp_high : (i : ℕ) → i < 384 → get_elem? clp (384 + (256 + i)) ≡ some 255
unfolding clp
clp_high i h =
    get_elem?-fill_after 384 0 (256 + i) (384 + (256 + i)) (count 256 0 ++ fill 384 255) refl
    ∙ get_elem?-count_after 256 0 i (256 + i) (fill 384 255) refl
    ∙ ap (λ t. get_elem? t i) (sym (append-nil (fill 384 255)))
    ∙ get_elem?-fill 384 255 i [] h

-- Inside the array the table is the cut to a byte.
clip_pos : (n : ℕ) → n < 640 → clip (pos n) ≡ some (clamp (pos n))
unfolding clip clamp
clip_pos n h = elim (Bool-cases (ltb 255 n)) [
  | inl b ↦
      let l : 255 < n = ground arith in
      let e : 384 + (256 + (n - 256)) ≡ 384 + n = omega arith in
      rw (b, ← e) (clp_high (n - 256) (omega arith))
  | inr b ↦ rw b (clp_middle n (ground arith))
]

clip_neg : (n : ℕ) → n < 384 → clip (negsuc n) ≡ some (clamp (negsuc n))
unfolding clip clamp
clip_neg n h = ground (arith, clp_low (384 - (n + 1)))

-- The integers that the table has an entry for.
abbrev Fits : ℤ → Type 0
Fits (pos n) = n < 640
Fits (negsuc n) = n < 384

clip-clamp : (z : ℤ) → Fits z → clip z ≡ some (clamp z)
clip-clamp (pos n) h = clip_pos n h
clip-clamp (negsuc n) h = clip_neg n h

red-Fits : (y v : ℕ) → y < 256 → v < 256 → Fits (shift16 (tab_76309 y +ℤ crv_tab v))
red-Fits y v hy hv = ground arith

green-Fits :
    (y u v : ℕ)
    → y < 256
    → u < 256
    → v < 256
    → Fits (shift16 (tab_76309 y +ℤ negate (cgu_tab u) +ℤ negate (cgv_tab v)))
green-Fits y u v hy hu hv = ground arith

blue-Fits : (y u : ℕ) → y < 256 → u < 256 → Fits (shift16 (tab_76309 y +ℤ cbu_tab u))
blue-Fits y u hy hu = ground arith

-- For bytes y, u and v no read of the table is outside its 1024 entries, and the pixel is the
-- colour that the conversion stands for, each part cut to a byte.
pub pixel_lem : (y u v : ℕ) → y < 256 → u < 256 → v < 256 → pixel y u v ≡ some (reference y u v)
unfolding pixel reference
pixel_lem y u v hy hu hv =
    rw
      (
        clip-clamp _ (red-Fits y v hy hv),
        clip-clamp _ (green-Fits y u v hy hu hv),
        clip-clamp _ (blue-Fits y u hy hu),
      )
      refl
