-- ===== src/Tracker/Frame.antt =====
-- plugins/tracker/tracker.cpp: the rectangle of a picture lies in the frame.
use aistream.Base.{◌≡◌, true, false, arith}
use aistream.Base.{ℤ, is_negative, pos, ◌+ℤ◌, minus_one}
use aistream.Tracker.{Rect, rect_correct, int_lt, correct_start, correct_length}

-- A range with a start and a length that are not negative, which ends before the last of w pixels.
abbrev pub Inside : ℤ → ℤ → ℤ → Type 0
Inside x width w =
    (is_negative x ≡ false)
    × (is_negative width ≡ false)
    × (int_lt (w +ℤ minus_one) (x +ℤ width) ≡ false)

correct-Inside :
    (x width w : ℤ)
    → is_negative width ≡ false
    → int_lt (pos 0) w ≡ true
    → int_lt x w ≡ true
    → Inside (correct_start x) (correct_length (correct_start x) width w) w
correct-Inside x width w hl hw hx = ground arith

-- For a frame of at least one pixel and a track that starts left of the frame's right end and above
-- its lower end, with a width and a height that are not negative, the rectangle lies in the frame.
pub rect_correct-Inside :
    (r : Rect) (w h : ℤ)
    → int_lt (pos 0) w ≡ true
    → int_lt (pos 0) h ≡ true
    → int_lt r.x w ≡ true
    → int_lt r.y h ≡ true
    → is_negative r.width ≡ false
    → is_negative r.height ≡ false
    → Inside (rect_correct r w h).x (rect_correct r w h).width w
      × Inside (rect_correct r w h).y (rect_correct r w h).height h
unfolding rect_correct
rect_correct-Inside r w h hw hh hx hy hwidth hheight =
    (correct-Inside r.x r.width w hwidth hw hx, correct-Inside r.y r.height h hheight hh hy)
