-- ===== src/Color/Image/Whole.antt =====
-- plugins/common/common.cpp: what ConvertYUV2RGB writes for an image of even width and height.
use aistream.Base.{
  ℕ, zero, suc, ◌+◌, ◌*◌, ◌/◌, ◌<◌, ◌≤◌, ◌≡◌, refl, inl, inr, Option, some, ◌>>=◌, arith,
}
use aistream.Color.Image.{Format, nv12, yuv420p, Cursor, row, rows, next_row, convert_yuv2rgb}
use aistream.Color.Image.Cells.{rgb_at}
use aistream.Color.Image.Lines.{
  Bytes, colour, Fetched, IsRight, Start, Start→Inv, row_lem, next_row-Start,
}

module _ (src0 src1 src2 : ℕ → ℕ) (b0 : Bytes src0) (b1 : Bytes src1) (b2 : Bytes src2) where
  rows_step :
      (n : ℕ) (format : Format) (a : ℕ) (c c1 : Cursor) (r : Option Cursor)
      → row src0 src1 src2 a format c ≡ some c1
      → rows src0 src1 src2 n (2 * a) format (next_row (2 * a) c1) ≡ r
      → rows src0 src1 src2 (suc n) (2 * a) format c ≡ r
  unfolding rows
  rows_step n format a c c1 r e1 e2 =
      let half : (2 * a + 1) / 2 ≡ a = omega arith in rw (half, e1) e2

  rows_lem :
      (n : ℕ) (format : Format) (a : ℕ) (before : ℕ → ℕ) (j k : ℕ) (c : Cursor)
      → j + n ≡ k
      → Start src0 src1 src2 format a before j c
      → (c' : Cursor) × (rows src0 src1 src2 n (2 * a) format c ≡ some c')
        × Start src0 src1 src2 format a before k c'
  unfolding rows
  rows_lem zero format a before j k c e start =
      let e' : j ≡ k = omega arith in (c, refl, rw (← e') start)
  rows_lem (suc n) format a before j k c e start =
      let (c1, r1, inv) =
        row_lem src0 src1 src2 b0 b1 b2 a format a before j 0 a c (omega arith) (omega arith)
          (Start→Inv src0 src1 src2 b0 b1 b2 format a before j c start) in
      let (c2, r2, start') =
        rows_lem n format a before (j + 1) k (next_row (2 * a) c1) (omega arith)
          (next_row-Start src0 src1 src2 b0 b1 b2 format a before j c1 inv) in
      (c2, rows_step n format a c c1 (some c2) r1 r2, start')

  abbrev origin : ℕ → (ℕ → ℕ) → Cursor
  origin a dst = record {
    src1 = 0;
    src2 = 0;
    py1 = 0;
    py2 = 2 * a;
    d1 = 0;
    d2 = 3 * (2 * a);
    dst = dst;
  }

  origin-Start :
      (format : Format) (a : ℕ) (dst : ℕ → ℕ) → Start src0 src1 src2 format a dst 0 (origin a dst)
  origin-Start format a dst =
      ((omega arith, omega arith, omega arith, omega arith), fetched format, right, λ q hq. refl)
    where
      fetched : (f : Format) → Fetched f (0 * a) (origin a dst)
      fetched nv12 = omega arith
      fetched yuv420p = omega arith

      right : IsRight src0 src1 src2 format a 0 0 dst
      right y x hx (inl h) = absurd (omega arith)
      right y x hx (inr h) = absurd (omega arith)

  convert_rows :
      (format : Format) (a b : ℕ) (dst : ℕ → ℕ) (r : Option Cursor)
      → rows src0 src1 src2 b (2 * a) format (origin a dst) ≡ r
      → convert_yuv2rgb src0 src1 src2 (some format) (2 * a) (2 * b) dst ≡ (r >>= λ c. some c.dst)
  unfolding convert_yuv2rgb
  convert_rows format a b dst r e =
      let half : (2 * b + 1) / 2 ≡ b = omega arith in rw (half, e) refl

  -- For arrays of bytes and an image of 2 * a by 2 * b pixels the conversion reads no table outside
  -- its entries, each pixel of the result is the colour of its y and of the u and v of its block of
  -- two by two pixels, and no byte after those of the image is changed.
  pub convert_yuv2rgb_lem :
      (format : Format) (a b : ℕ) (dst : ℕ → ℕ)
      → (out : ℕ → ℕ) × (convert_yuv2rgb src0 src1 src2 (some format) (2 * a) (2 * b) dst
          ≡ some out)
        × ((y x : ℕ)
            → y < 2 * b
            → x < 2 * a
            → rgb_at out (y * (2 * a) + x) ≡ colour src0 src1 src2 format a y x)
        × ((q : ℕ) → 3 * (2 * b * (2 * a)) ≤ q → out q ≡ dst q)
  convert_yuv2rgb_lem format a b dst =
      let (c, r, (at, fetched, right, keeps)) =
        rows_lem b format a dst 0 b (origin a dst) (omega arith) (origin-Start format a dst) in
      (c.dst, convert_rows format a b dst (some c) r, λ y x hy hx. right y x hx (inl hy), keeps)
