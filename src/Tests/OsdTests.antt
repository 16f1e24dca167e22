-- ===== src/Tests/OsdTests.antt =====
-- plugins/official/osd/osd.cpp at concrete inputs.
use aistream.Base.{◌*◌, ◌≡◌, refl, true, [], ◌∷◌, arith, All, text}
use aistream.Osd.{
  nv12, yuv420p, Yuv, FontBmp, DetectionResult, OsdConfig, set_rect_text, set_rect, y_plane,
  u_plane, v_plane, store,
}
use aistream.Osd.Rect.{InImage}
use aistream.Osd.Letters.{set_rect_text-InImage}

abbrev green : Yuv
green = record { y = 150; u = 44; v = 21 }

abbrev block : FontBmp
block = record { buf = λ k. 1; w = 3; h = 4; hori_bearing_y = 4 }

abbrev config : OsdConfig
config = record { rect_yuv = green; text_yuv = green; text_enable = true; bmp = λ j. block }

abbrev person : DetectionResult
person = record { left = 4; top = 13; width = 9; height = 6; name = text "ab c" }

-- The last stores of a rectangle of two lines.
corner :
    set_rect yuv420p green 6 2 0 2 2
    ≡ store y_plane 2 150
      ∷ store y_plane 3 150
      ∷ store y_plane 2 150
      ∷ store y_plane 3 150
      ∷ store y_plane 4 150
      ∷ store y_plane 5 150
      ∷ store y_plane 8 150
      ∷ store y_plane 9 150
      ∷ store y_plane 8 150
      ∷ store y_plane 9 150
      ∷ store y_plane 10 150
      ∷ store y_plane 11 150
      ∷ store u_plane 1 44
      ∷ store v_plane 1 21
      ∷ store u_plane 1 44
      ∷ store u_plane 2 44
      ∷ store v_plane 1 21
      ∷ store v_plane 2 21
      ∷ []
unfolding set_rect
corner = refl

set_rect_text-InImage_example :
    All (InImage nv12 (2 * 16) (2 * 12)) (set_rect_text nv12 config (2 * 16) (person ∷ []))
set_rect_text-InImage_example = set_rect_text-InImage nv12 config 16 12 (person ∷ []) (
  (
    omega arith,
    omega arith,
    λ e. (omega arith, omega arith, (omega arith, omega arith, (omega arith, omega arith, tt))),
  ),
  tt,
)
