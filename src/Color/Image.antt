-- ===== src/Color/Image.antt =====
-- plugins/common/common.cpp: ConvertNv12ToRGB24 and ConvertYuv420pToRGB24, loops over blocks of two
-- by two pixels. A pointer is its offset from the start of its array, an array is a function.
pub mod Cells
mod Block
pub mod Lines
pub mod Whole
use aistream.Base.{ℕ, zero, suc, ◌+◌, ◌*◌, ◌/◌, if◌then◌else◌, ◌==◌, Option, none, some, ◌>>=◌}
use aistream.Color.{Rgb, pixel}

-- AV_PIX_FMT_NV12, and AV_PIX_FMT_YUV420P or AV_PIX_FMT_YUVJ420P. Another format is none below.
pub data Format : Type 0 where
  nv12 yuv420p : Format

pub record Cursor : Type 0 where
  pub src1 : ℕ
  pub src2 : ℕ
  pub py1 : ℕ
  pub py2 : ℕ
  pub d1 : ℕ
  pub d2 : ℕ
  pub dst : ℕ → ℕ

unfoldable pub store : ℕ → ℕ → (ℕ → ℕ) → ℕ → ℕ
store a x dst c = if c == a then x else dst c

-- The three stores of one pixel.
unfoldable pub put : ℕ → Rgb → (ℕ → ℕ) → ℕ → ℕ
unfolding store
put d p dst = store (d + 2) p.b (store (d + 1) p.g (store d p.r dst))

-- The skip of the row that the block's lower pixels were in.
abbrev pub next_row : ℕ → Cursor → Cursor
next_row width c = record c {
  d1 = c.d1 + 3 * width;
  d2 = c.d2 + 3 * width;
  py1 = c.py1 + width;
  py2 = c.py2 + width;
}

module _ (src0 src1 src2 : ℕ → ℕ) where
  -- u and v of the next block: both from src1, or one from each array.
  unfoldable pub fetch : Format → Cursor → ℕ × (ℕ × Cursor)
  fetch nv12 c = (src1 c.src1, (src1 (c.src1 + 1), record c { src1 = c.src1 + 2 }))
  fetch yuv420p c = (src1 c.src1, (src2 c.src2, record c { src1 = c.src1 + 1; src2 = c.src2 + 1 }))

  -- The body of the inner loop. none is a read outside the table `clp`.
  unfoldable pub block : ℕ → ℕ → Cursor → Option Cursor
  unfolding put
  block u v c = pixel (src0 c.py1) u v >>= λ up_left. pixel (src0 c.py2) u v >>= λ down_left.
      pixel (src0 (c.py1 + 1)) u v >>= λ up_right. pixel (src0 (c.py2 + 1)) u v >>= λ down_right.
      some (record c {
        py1 = c.py1 + 2;
        py2 = c.py2 + 2;
        d1 = c.d1 + 6;
        d2 = c.d2 + 6;
        dst =
            put (c.d2 + 3) down_right
              (put (c.d1 + 3) up_right (put c.d2 down_left (put c.d1 up_left c.dst)));
      })

  unfoldable pub row : ℕ → Format → Cursor → Option Cursor
  unfolding fetch block
  row zero format c = some c
  row (suc n) format c = let (u, (v, c')) = fetch format c in block u v c' >>= row n format

  unfoldable pub rows : ℕ → ℕ → Format → Cursor → Option Cursor
  unfolding row
  rows zero width format c = some c
  rows (suc n) width format c =
      row ((width + 1) / 2) format c >>= λ c'. rows n width format (next_row width c')

  -- The array after ConvertYUV2RGB.
  unfoldable pub convert_yuv2rgb : Option Format → ℕ → ℕ → (ℕ → ℕ) → Option (ℕ → ℕ)
  unfolding rows
  convert_yuv2rgb none width height dst = some dst
  convert_yuv2rgb (some format) width height dst =
      rows ((height + 1) / 2) width format
        (record { src1 = 0; src2 = 0; py1 = 0; py2 = width; d1 = 0; d2 = 3 * width; dst = dst })
      >>= λ c. some c.dst
