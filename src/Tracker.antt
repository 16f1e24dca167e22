-- ===== src/Tracker.antt =====
-- plugins/tracker/tracker.cpp: TrackCapture, which takes one picture of each tracked object when it
-- crosses a line, and RectCorrect. The tracks come from BYTETracker.
pub mod Once
pub mod Runs
pub mod Frame
use aistream.Base.{
  ℕ, ◌+◌, ◌%◌, ltb, leb, ◌==◌, if◌then◌else◌, Bool, true, false, not, ◌&&◌, ◌||◌, Option, none,
  some, ◌>>=◌, List, [], ◌∷◌,
}
use aistream.Base.{ℤ, int_eq, is_negative, pos, ◌+ℤ◌, negate, minus_one}

-- C floats, as far as the positions are compared.
pub record Floats : Type 1 where
  pub Float : Type 0
  pub add : Float → Float → Float
  pub lt : Float → Float → Bool
  pub le : Float → Float → Bool

pub record TParams : Type 0 where
  pub capture : Bool
  pub last_frameid : ℕ
  -- false: up->down, true: down->up
  pub dir : Bool

-- A std::map is the function that finds what it holds.
abbrev pub Tracking : Type 0
Tracking = ℤ → Option TParams

pub record ModuleObj : Type 0 where
  pub last_capture_frameid : ℕ
  pub tracking : Tracking

-- TrackerStart.
abbrev pub tracker_start : ModuleObj
tracker_start = record { last_capture_frameid = 0; tracking = λ id. none }

unfoldable pub find : ℤ → Tracking → Option TParams
find id tracking = tracking id

-- tracking[id] = t
unfoldable pub assign : ℤ → TParams → Tracking → Tracking
assign id t tracking j = if int_eq id j then some t else tracking j

-- The loop that drops the tracks which were not seen for 500 frames.
unfoldable pub erase_old : ℕ → Tracking → Tracking
erase_old frame_id tracking id =
    tracking id >>= λ t. if ltb (t.last_frameid + 500) frame_id then none else some t

module _ (F : Floats) where
  pub record STrack : Type 0 where
    pub track_id : ℤ
    pub top : F.Float
    pub height : F.Float

  abbrev pub new_track : F.Float → ℕ → STrack → TParams
  new_track line frame_id s = record {
    capture = false;
    last_frameid = frame_id;
    dir = not (F.lt (F.add s.top s.height) line);
  }

  -- y_bottom >= line on the way down, y_up <= line on the way up.
  abbrev pub crosses : F.Float → STrack → Bool → Bool
  crosses line s dir = (F.le line (F.add s.top s.height) && not dir) || (F.le s.top line && dir)

  -- The loop over the tracks of one frame, and the track whose picture was taken.
  unfoldable pub capture_loop : F.Float → ℕ → List STrack → ModuleObj → ModuleObj × Option STrack
  unfolding find assign
  capture_loop line frame_id [] obj = (obj, none)
  capture_loop line frame_id (s ∷ stracks) obj = elim (find s.track_id obj.tracking) [
    | none ↦
        capture_loop line frame_id stracks
          (record obj { tracking = assign s.track_id (new_track line frame_id s) obj.tracking })
    | some t ↦
        let seen = record t { last_frameid = frame_id } in
        elim (t.capture
          || leb frame_id (obj.last_capture_frameid + 1)
          || not (crosses line s t.dir)) [
            | true ↦
                capture_loop line frame_id stracks
                  (record obj { tracking = assign s.track_id seen obj.tracking })
            | false ↦ (
              record {
                last_capture_frameid = frame_id;
                tracking = assign s.track_id (record seen { capture = true }) obj.tracking;
              },
              some s,
            )
          ]
  ]

  unfoldable pub track_capture : F.Float → ℕ → List STrack → ModuleObj → ModuleObj × Option STrack
  unfolding capture_loop erase_old
  track_capture line frame_id stracks obj =
      let (obj', captured) = capture_loop line frame_id stracks obj in
      (
        if frame_id % 100 == 0
            then record obj' { tracking = erase_old frame_id obj'.tracking }
            else obj',
        captured,
      )

pub record Rect : Type 0 where
  pub x : ℤ
  pub y : ℤ
  pub width : ℤ
  pub height : ℤ

-- a < b
abbrev pub int_lt : ℤ → ℤ → Bool
int_lt a b = is_negative (a +ℤ negate b)

-- Both directions of RectCorrect: the start, and the length of what lies before the last pixel.
abbrev pub correct_start : ℤ → ℤ
correct_start x = if is_negative x then pos 0 else x

abbrev pub correct_length : ℤ → ℤ → ℤ → ℤ
correct_length x width w =
    if int_lt (w +ℤ minus_one) (x +ℤ width) then w +ℤ minus_one +ℤ negate x else width

-- RectCorrect, from the numbers of `tlwh` as integers.
unfoldable pub rect_correct : Rect → ℤ → ℤ → Rect
rect_correct r w h =
    let x = correct_start r.x in
    let y = correct_start r.y in
    record {
      x = x;
      y = y;
      width = correct_length x r.width w;
      height = correct_length y r.height h;
    }
