-- ===== src/Color.antt =====
-- plugins/common/common.cpp: the tables of the conversion from YUV to RGB, and the conversion of one
-- pixel. The tables' sums stay far from the ends of an `int`, so they are sums of integers.
pub mod Clip
pub mod Image
use aistream.Base.{
  ℕ, ◌+◌, ◌-◌, ltb, if◌then◌else◌, Option, none, some, ◌>>=◌, List, [], ◌∷◌, ◌++◌, get_elem?, zero,
  suc,
}
use aistream.Base.{ℤ, pos, negsuc, sub_nat, ◌+ℤ◌, negate, scale, shift16}

-- The entries of the tables that InitConvertTable fills.
abbrev pub crv_tab : ℕ → ℤ
crv_tab i = scale 104597 (sub_nat i 128)

abbrev pub cbu_tab : ℕ → ℤ
cbu_tab i = scale 132201 (sub_nat i 128)

abbrev pub cgu_tab : ℕ → ℤ
cgu_tab i = scale 25675 (sub_nat i 128)

abbrev pub cgv_tab : ℕ → ℤ
cgv_tab i = scale 53279 (sub_nat i 128)

abbrev pub tab_76309 : ℕ → ℤ
tab_76309 i = scale 76309 (sub_nat i 16)

-- n times the byte, and the n bytes that count up from i.
unfoldable pub fill : ℕ → ℕ → List ℕ
fill zero x = []
fill (suc n) x = x ∷ fill n x

unfoldable pub count : ℕ → ℕ → List ℕ
count zero i = []
count (suc n) i = i ∷ count n (i + 1)

-- The array of 1024 bytes, filled by three loops.
unfoldable pub clp : List ℕ
unfolding fill count
clp = fill 384 0 ++ count 256 0 ++ fill 384 255

-- clp[384 + z]; none is a read outside the array.
unfoldable pub clip : ℤ → Option ℕ
unfolding clp
clip (pos n) = get_elem? clp (384 + n)
clip (negsuc n) = if ltb n 384 then get_elem? clp (384 - (n + 1)) else none

pub record Rgb : Type 0 where
  pub r : ℕ
  pub g : ℕ
  pub b : ℕ

-- The three bytes that are written for one pixel, from c1 to c4 and the tables' entry of its y.
unfoldable pub pixel : ℕ → ℕ → ℕ → Option Rgb
unfolding clip
pixel y u v =
    let c1 = crv_tab v in
    let c2 = cgu_tab u in
    let c3 = cgv_tab v in
    let c4 = cbu_tab u in
    let y1 = tab_76309 y in
    clip (shift16 (y1 +ℤ c1)) >>= λ r. clip (shift16 (y1 +ℤ negate c2 +ℤ negate c3)) >>= λ g.
    clip (shift16 (y1 +ℤ c4)) >>= λ b. some (record { r = r; g = g; b = b })
