-- ===== src/Tests/TrackerTests.antt =====
-- plugins/tracker/tracker.cpp at concrete inputs; positions are whole numbers.
use aistream.Base.{
  ℕ, ◌+◌, ◌≡◌, ◌≢◌, refl, sym, ap, ◌∙◌, true, false, none, some, List, [], ◌∷◌, ltb, leb,
}
use aistream.Base.{pos, negsuc, int_eq}
use mathlib.Core.Bool.{true≢false}
use aistream.Tracker.{
  Floats, ModuleObj, tracker_start, find, STrack, track_capture, Rect, rect_correct,
}
use aistream.Tracker.Frame.{Inside, rect_correct-Inside}
use aistream.Tracker.Once.{flag, is_captured}
use aistream.Tracker.Runs.{
  Frame, track_frames, track_frames-IsSpaced, track_frames_once, IsSpaced, pictures,
}

abbrev whole : Floats
whole = record { Float = ℕ; add = λ a b. a + b; lt = ltb; le = leb }

abbrev at : ℕ → STrack whole
at n = record { track_id = pos 7; top = n; height = 5 }

-- Down over the line at 10.
abbrev walk : List (Frame whole)
walk =
    record { number = 1; tracks = at 0 ∷ [] }
    ∷ record { number = 3; tracks = at 6 ∷ [] }
    ∷ record { number = 5; tracks = at 8 ∷ [] }
    ∷ []

walk_log :
    (track_frames whole 10 walk tracker_start []).1 ≡ record { frame_id = 3; track_id = pos 7 } ∷ []
unfolding track_frames track_capture int_eq
walk_log = refl

-- The state after the capture.
abbrev captured : ModuleObj
captured = record {
  last_capture_frameid = 3;
  tracking = λ id. some (record { capture = true; last_frameid = 3; dir = false });
}

track_frames-IsSpaced_example : IsSpaced (track_frames whole 10 walk tracker_start []).1
track_frames-IsSpaced_example = track_frames-IsSpaced whole 10 walk tracker_start [] refl tt

captured-flag : is_captured (pos 7) captured ≡ true
unfolding find
captured-flag = refl

later-flag : is_captured (pos 7) (track_capture whole 10 5 (at 8 ∷ []) captured).0 ≡ true
unfolding find track_capture int_eq
later-flag = refl

later-entry : find (pos 7) (track_capture whole 10 5 (at 8 ∷ []) captured).0.tracking ≢ none
later-entry e = true≢false (sym later-flag ∙ ap flag e)

track_frames_once_example :
    pictures whole
      (pos 7)
      (track_frames whole 10 (record { number = 5; tracks = at 8 ∷ [] } ∷ []) captured []).1
    ≡ 0
track_frames_once_example =
    track_frames_once whole (pos 7) 10 (record { number = 5; tracks = at 8 ∷ [] } ∷ []) captured []
      captured-flag (later-entry, tt)

-- A track that starts left of the frame and ends right of it.
abbrev wide : Rect
wide = record { x = negsuc 4; y = pos 5; width = pos 900; height = pos 40 }

rect_correct-Inside_example :
    Inside
      (rect_correct wide (pos 640) (pos 360)).x
      (rect_correct wide (pos 640) (pos 360)).width
      (pos 640)
    × Inside
        (rect_correct wide (pos 640) (pos 360)).y
        (rect_correct wide (pos 640) (pos 360)).height
        (pos 360)
rect_correct-Inside_example =
    rect_correct-Inside wide (pos 640) (pos 360) refl refl refl refl refl refl
