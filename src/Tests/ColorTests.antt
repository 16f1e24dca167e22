-- ===== src/Tests/ColorTests.antt =====
-- The conversion of plugins/common/common.cpp at concrete inputs.
use aistream.Base.{ℕ, ◌+◌, ◌*◌, ◌<◌, ◌≤◌, ◌≡◌, refl, some, arith, ltb, if◌then◌else◌}
use aistream.Color.{pixel}
use aistream.Color.Clip.{reference, pixel_lem}
use aistream.Color.Image.{yuv420p, convert_yuv2rgb}
use aistream.Color.Image.Cells.{rgb_at}
use aistream.Color.Image.Lines.{colour}
use aistream.Color.Image.Whole.{convert_yuv2rgb_lem}

-- A bright red, and black.
red : pixel 82 90 240 ≡ some (record { r = 255; g = 0; b = 0 })
unfolding pixel
red = refl

black : reference 16 128 128 ≡ record { r = 0; g = 0; b = 0 }
unfolding reference
black = refl

abbrev plane : ℕ → ℕ
plane i = if ltb i 200 then 16 + i else 128

abbrev zeros : ℕ → ℕ
zeros i = 0

plane-lt : (i : ℕ) → plane i < 256
plane-lt i = ground arith

pixel_lem_example : pixel 235 16 16 ≡ some (reference 235 16 16)
pixel_lem_example = pixel_lem 235 16 16 (omega arith) (omega arith) (omega arith)

convert_yuv2rgb_lem_example :
    (out : ℕ → ℕ) × (convert_yuv2rgb plane plane plane (some yuv420p) (2 * 2) (2 * 1) zeros
      ≡ some out)
    × ((y x : ℕ)
        → y < 2 * 1
        → x < 2 * 2
        → rgb_at out (y * (2 * 2) + x) ≡ colour plane plane plane yuv420p 2 y x)
    × ((q : ℕ) → 3 * (2 * 1 * (2 * 2)) ≤ q → out q ≡ zeros q)
convert_yuv2rgb_lem_example =
    convert_yuv2rgb_lem plane plane plane plane-lt plane-lt plane-lt yuv420p 2 1 zeros
