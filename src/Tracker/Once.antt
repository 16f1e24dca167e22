-- ===== src/Tracker/Once.antt =====
-- plugins/tracker/tracker.cpp: a track is captured once, and captures lie two frames apart.
use aistream.Base.{
  ℕ, ◌+◌, ◌%◌, ◌<◌, ◌≡◌, ◌⊎◌, inl, inr, refl, sym, ◌∙◌, ap, subst, ltb, leb, ◌==◌, if◌then◌else◌,
  Bool, true, false, not, ◌||◌, Option, none, some, ◌>>=◌, option, List, [], ◌∷◌, arith, Bool-cases,
  Option-cases,
}
use aistream.Base.{ℤ, int_eq, int_eq→eq}
use mathlib.Core.Bool.{true≢false}
use aistream.Tracker.{
  Floats, TParams, Tracking, ModuleObj, find, assign, erase_old, STrack, capture_loop,
  track_capture, crosses, new_track,
}

-- A picture of the track was taken.
abbrev pub flag : Option TParams → Bool
flag = option false (λ t. t.capture)

abbrev pub is_captured : ℤ → ModuleObj → Bool
is_captured id obj = flag (find id obj.tracking)

-- An entry with the flag that was there.
assign-flag :
    (id j : ℤ) (t : TParams) (tracking : Tracking)
    → t.capture ≡ flag (find j tracking)
    → flag (find id (assign j t tracking)) ≡ flag (find id tracking)
unfolding assign find
assign-flag id j t tracking h = elim (Bool-cases (int_eq j id)) [
  | inl e ↦ rw (e, ← int_eq→eq j id e) h
  | inr e ↦ rw e refl
]

module _ (F : Floats) where
  abbrev pub is_of : ℤ → Option (STrack F) → Bool
  is_of id = option false (λ s. int_eq s.track_id id)

  -- What one frame does to the flag of each track and to the number of the last captured frame.
  abbrev Outcome : ℕ → ModuleObj → ModuleObj × Option (STrack F) → Type 0
  Outcome frame_id obj (obj', captured) =
      ((id : ℤ) → is_captured id obj' ≡ (is_captured id obj || is_of id captured))
      × ((captured ≡ none → obj'.last_capture_frameid ≡ obj.last_capture_frameid)
          × ((s : STrack F)
              → captured ≡ some s
              → (obj.last_capture_frameid + 1 < frame_id)
                × (is_captured s.track_id obj ≡ false)
                × (obj'.last_capture_frameid ≡ frame_id)))

  Outcome-ext :
      (frame_id : ℕ) (obj obj1 : ModuleObj) (r : ModuleObj × Option (STrack F))
      → ((id : ℤ) → is_captured id obj1 ≡ is_captured id obj)
      → obj1.last_capture_frameid ≡ obj.last_capture_frameid
      → Outcome frame_id obj1 r
      → Outcome frame_id obj r
  Outcome-ext frame_id obj obj1 r e l (flags, (quiet, taken)) = (
    λ id. rw (← e id) (flags id),
    (λ c. quiet c ∙ l, λ s c. let (a, b, d) = taken s c in (rw (← l) a, sym (e s.track_id) ∙ b, d)),
  )

  abbrev seen : ℕ → TParams → TParams
  seen frame_id t = record t { last_frameid = frame_id }

  abbrev skips : F.Float → ℕ → STrack F → ModuleObj → TParams → Bool
  skips line frame_id s obj t =
      t.capture || leb frame_id (obj.last_capture_frameid + 1) || not (crosses F line s t.dir)

  abbrev with_track : ModuleObj → ℤ → TParams → ModuleObj
  with_track obj id t = record obj { tracking = assign id t obj.tracking }

  -- The three ways of one round of the loop.
  module _ (line : F.Float) (frame_id : ℕ) (s : STrack F) (rest : List (STrack F))
      (obj : ModuleObj) where
    round_new :
        find s.track_id obj.tracking ≡ none
        → capture_loop F line frame_id (s ∷ rest) obj
          ≡ capture_loop F line frame_id rest
              (with_track obj s.track_id (new_track F line frame_id s))
    unfolding capture_loop
    round_new n = rw (n, capture_loop) refl

    round_skips :
        (t : TParams)
        → find s.track_id obj.tracking ≡ some t
        → skips line frame_id s obj t ≡ true
        → capture_loop F line frame_id (s ∷ rest) obj
          ≡ capture_loop F line frame_id rest (with_track obj s.track_id (seen frame_id t))
    unfolding capture_loop
    round_skips t e b = rw (e, b, capture_loop) refl

    round_captures :
        (t : TParams)
        → find s.track_id obj.tracking ≡ some t
        → skips line frame_id s obj t ≡ false
        → capture_loop F line frame_id (s ∷ rest) obj ≡ (
          record {
            last_capture_frameid = frame_id;
            tracking = assign s.track_id (record (seen frame_id t) { capture = true }) obj.tracking;
          },
          some s,
        )
    unfolding capture_loop
    round_captures t e b = rw (e, b, capture_loop) refl

    captures_Outcome :
        (t : TParams)
        → find s.track_id obj.tracking ≡ some t
        → skips line frame_id s obj t ≡ false
        → Outcome frame_id obj (
          record {
            last_capture_frameid = frame_id;
            tracking = assign s.track_id (record (seen frame_id t) { capture = true }) obj.tracking;
          },
          some s,
        )
    unfolding assign find
    captures_Outcome t e b = (
      λ id. flags id (Bool-cases (int_eq s.track_id id)),
      (
        λ c. cc,
        λ s' c. let same = ap (option s (λ x. x)) c in rw (← same) (early, rw e free, refl),
      ),
    )
      where
        free : t.capture ≡ false
        free = ground arith

        early : obj.last_capture_frameid + 1 < frame_id
        early = ground arith

        flags :
            (id : ℤ)
            → (int_eq s.track_id id ≡ true) ⊎ (int_eq s.track_id id ≡ false)
            → flag (
                if int_eq s.track_id id
                then some (record t { capture = true; last_frameid = frame_id })
                else find id obj.tracking)
              ≡ (is_captured id obj || int_eq s.track_id id)
        flags id (inl f) = rw f (ground arith)
        flags id (inr f) = rw f (ground arith)

  loop_Outcome :
      (line : F.Float) (frame_id : ℕ) (stracks : List (STrack F)) (obj : ModuleObj)
      → Outcome frame_id obj (capture_loop F line frame_id stracks obj)
  unfolding capture_loop
  loop_Outcome line frame_id [] obj = (λ id. ground arith, (λ c. refl, λ s c. cc))
  loop_Outcome line frame_id (s ∷ rest) obj = elim (Option-cases (find s.track_id obj.tracking)) [
    | inl n ↦ subst (Outcome frame_id obj) (sym (round_new line frame_id s rest obj n)) (
        Outcome-ext frame_id obj (with_track obj s.track_id (new_track F line frame_id s))
          (capture_loop F line frame_id rest
            (with_track obj s.track_id (new_track F line frame_id s)))
          (λ id. assign-flag id s.track_id (new_track F line frame_id s) obj.tracking (rw n refl))
          refl (loop_Outcome line frame_id rest _))
    | inr (t, e) ↦ elim (Bool-cases (skips line frame_id s obj t)) [
      | inl b ↦ subst (Outcome frame_id obj) (sym (round_skips line frame_id s rest obj t e b)) (
          Outcome-ext frame_id obj (with_track obj s.track_id (seen frame_id t))
            (capture_loop F line frame_id rest (with_track obj s.track_id (seen frame_id t)))
            (λ id. assign-flag id s.track_id (seen frame_id t) obj.tracking (rw e refl)) refl
            (loop_Outcome line frame_id rest _))
      | inr b ↦
          subst (Outcome frame_id obj) (sym (round_captures line frame_id s rest obj t e b))
            (captures_Outcome line frame_id s rest obj t e b)
    ]
  ]

  Outcome-once :
      (frame_id : ℕ) (obj : ModuleObj) (r : ModuleObj × Option (STrack F)) (id : ℤ)
      → Outcome frame_id obj r
      → is_captured id obj ≡ true
      → (is_of id r.1 ≡ false) × (is_captured id r.0 ≡ true)
  Outcome-once frame_id obj (obj', none) id (flags, (quiet, taken)) h =
      (refl, rw (flags id, h) refl)
  Outcome-once frame_id obj (obj', some s) id (flags, (quiet, taken)) h =
      let (early, free, late) = taken s refl in
      elim (Bool-cases (int_eq s.track_id id)) [
        | inl e ↦ absurd (true≢false (sym h ∙ (rw (int_eq→eq s.track_id id e) at free)))
        | inr e ↦ (e, rw (flags id, h) refl)
      ]

  -- Where the frame's number is a multiple of 100 the old tracks are dropped.
  sweep : ℕ → ModuleObj → ModuleObj
  sweep frame_id obj =
      if frame_id % 100 == 0 then record obj { tracking = erase_old frame_id obj.tracking } else obj

  sweep-last :
      (frame_id : ℕ) (obj : ModuleObj)
      → (sweep frame_id obj).last_capture_frameid ≡ obj.last_capture_frameid
  unfolding sweep
  sweep-last frame_id obj = ground arith

  erased-flag :
      (frame_id : ℕ) (o : Option TParams)
      → flag o ≡ true
      → let o' = o >>= λ t. if ltb (t.last_frameid + 500) frame_id then none else some t in
        (flag o' ≡ true) ⊎ (o' ≡ none)
  erased-flag frame_id none h = inr refl
  erased-flag frame_id (some t) h = elim (Bool-cases (ltb (t.last_frameid + 500) frame_id)) [
    | inl b ↦ inr (rw b refl)
    | inr b ↦ inl (rw b h)
  ]

  sweep-flag :
      (frame_id : ℕ) (obj : ModuleObj) (id : ℤ)
      → is_captured id obj ≡ true
      → (is_captured id (sweep frame_id obj) ≡ true)
        ⊎ (find id (sweep frame_id obj).tracking ≡ none)
  unfolding sweep erase_old find
  sweep-flag frame_id obj id h = elim (Bool-cases (frame_id % 100 == 0)) [
    | inl b ↦ rw b (erased-flag frame_id (obj.tracking id) h)
    | inr b ↦ rw b (inl h)
  ]

  -- A track that was captured is not captured again, and keeps its flag unless its entry is dropped
  -- because it was not seen for 500 frames. A capture is of a track with an entry that has no flag,
  -- which then has it, and comes at least two frames after the last one.
  pub track_capture_once :
      (line : F.Float) (frame_id : ℕ) (stracks : List (STrack F)) (obj : ModuleObj)
      → let (obj', captured) = track_capture F line frame_id stracks obj in
        ((id : ℤ)
          → is_captured id obj ≡ true
          → (is_of id captured ≡ false)
            × ((is_captured id obj' ≡ true) ⊎ (find id obj'.tracking ≡ none)))
        × ((captured ≡ none → obj'.last_capture_frameid ≡ obj.last_capture_frameid)
            × ((s : STrack F)
                → captured ≡ some s
                → (obj.last_capture_frameid + 1 < frame_id)
                  × (is_captured s.track_id obj ≡ false)
                  × (obj'.last_capture_frameid ≡ frame_id)))
  unfolding track_capture sweep
  track_capture_once line frame_id stracks obj =
      let r = capture_loop F line frame_id stracks obj in
      let all = loop_Outcome line frame_id stracks obj in
      (
        λ id h.
            let (other, kept) = Outcome-once frame_id obj r id all h in
            (other, sweep-flag frame_id r.0 id kept),
        (
          λ c. sweep-last frame_id r.0 ∙ all.1.0 c,
          λ s c.
              let (early, free, late) = all.1.1 s c in
              (early, free, sweep-last frame_id r.0 ∙ late),
        ),
      )
