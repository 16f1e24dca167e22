-- ===== src/Tracker/Runs.antt =====
-- plugins/tracker/tracker.cpp: the frames of a stream, one TrackerProcess after the other.
use aistream.Base.{
  ℕ, ◌+◌, ◌<◌, ◌≡◌, ◌≢◌, inl, inr, refl, sym, ◌∙◌, true, false, Option, none, some, List, [], ◌∷◌,
  arith, if◌then◌else◌,
}
use aistream.Base.{ℤ, int_eq}
use aistream.Tracker.{Floats, ModuleObj, find, STrack, track_capture}
use aistream.Tracker.Once.{is_captured, is_of, track_capture_once}

-- A picture: the frame's number and the track's.
pub record Capture : Type 0 where
  pub frame_id : ℕ
  pub track_id : ℤ

abbrev pub newest : List Capture → ℕ
newest [] = 0
newest (c ∷ log) = c.frame_id

-- In a list with the newest picture first, between two pictures at least one frame has none, and
-- the first two frames have none.
abbrev pub IsSpaced : List Capture → Type 0
IsSpaced [] = Unit
IsSpaced (c ∷ log) = (newest log + 1 < c.frame_id) × IsSpaced log

module _ (F : Floats) where
  -- The number of a frame and its tracks.
  pub record Frame : Type 0 where
    pub number : ℕ
    pub tracks : List (STrack F)

  abbrev pub log_capture : ℕ → Option (STrack F) → List Capture → List Capture
  log_capture number none log = log
  log_capture number (some s) log = record { frame_id = number; track_id = s.track_id } ∷ log

  -- The state and the pictures, newest first, after the frames.
  unfoldable pub track_frames :
      F.Float → List Frame → ModuleObj → List Capture → ModuleObj × List Capture
  track_frames line [] obj log = (obj, log)
  track_frames line (frame ∷ frames) obj log =
      let (obj', captured) = track_capture F line frame.number frame.tracks obj in
      track_frames line frames obj' (log_capture frame.number captured log)

  log_capture-IsSpaced :
      (number : ℕ) (obj obj' : ModuleObj) (captured : Option (STrack F)) (log : List Capture)
      → (captured ≡ none → obj'.last_capture_frameid ≡ obj.last_capture_frameid)
      → ((s : STrack F)
          → captured ≡ some s
          → (obj.last_capture_frameid + 1 < number)
            × (is_captured s.track_id obj ≡ false)
            × (obj'.last_capture_frameid ≡ number))
      → newest log ≡ obj.last_capture_frameid
      → IsSpaced log
      → (newest (log_capture number captured log) ≡ obj'.last_capture_frameid)
        × IsSpaced (log_capture number captured log)
  log_capture-IsSpaced number obj obj' none log quiet taken e h = (e ∙ sym (quiet refl), h)
  log_capture-IsSpaced number obj obj' (some s) log quiet taken e h =
      let (early, free, late) = taken s refl in (sym late, (omega arith, h))

  -- Whatever the frames and their tracks are, at least one frame lies between two captures.
  pub track_frames-IsSpaced :
      (line : F.Float) (frames : List Frame) (obj : ModuleObj) (log : List Capture)
      → newest log ≡ obj.last_capture_frameid
      → IsSpaced log
      → IsSpaced (track_frames line frames obj log).1
  unfolding track_frames
  track_frames-IsSpaced line [] obj log e h = h
  track_frames-IsSpaced line (frame ∷ frames) obj log e h =
      let r = track_capture F line frame.number frame.tracks obj in
      let (once, (quiet, taken)) = track_capture_once F line frame.number frame.tracks obj in
      let (e', h') = log_capture-IsSpaced frame.number obj r.0 r.1 log quiet taken e h in
      track_frames-IsSpaced line frames r.0 (log_capture frame.number r.1 log) e' h'

  -- The track has an entry in the state after each of the frames.
  abbrev pub Stays : ℤ → F.Float → List Frame → ModuleObj → Type 0
  Stays id line [] obj = Unit
  Stays id line (frame ∷ frames) obj =
      let obj' = (track_capture F line frame.number frame.tracks obj).0 in
      (find id obj'.tracking ≢ none) × Stays id line frames obj'

  -- How many pictures of the track there are.
  abbrev pub pictures : ℤ → List Capture → ℕ
  pictures id [] = 0
  pictures id (c ∷ log) = if int_eq c.track_id id then pictures id log + 1 else pictures id log

  pictures-log_capture :
      (id : ℤ) (number : ℕ) (captured : Option (STrack F)) (log : List Capture)
      → is_of F id captured ≡ false
      → pictures id (log_capture number captured log) ≡ pictures id log
  pictures-log_capture id number none log h = refl
  pictures-log_capture id number (some s) log h = rw h refl

  -- A track that was captured is not captured again as long as it has an entry.
  pub track_frames_once :
      (id : ℤ) (line : F.Float) (frames : List Frame) (obj : ModuleObj) (log : List Capture)
      → is_captured id obj ≡ true
      → Stays id line frames obj
      → pictures id (track_frames line frames obj log).1 ≡ pictures id log
  unfolding track_frames
  track_frames_once id line [] obj log h stays = refl
  track_frames_once id line (frame ∷ frames) obj log h stays =
      let r = track_capture F line frame.number frame.tracks obj in
      let (other, kept) = (track_capture_once F line frame.number frame.tracks obj).0 id h in
      elim kept [
        | inl k ↦
            track_frames_once id line frames r.0 (log_capture frame.number r.1 log) k stays.1
            ∙ pictures-log_capture id frame.number r.1 log other
        | inr gone ↦ absurd (stays.0 gone)
      ]
