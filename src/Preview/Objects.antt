-- ===== src/Preview/Objects.antt =====
-- plugins/official/preview/preview.cpp: PreviewStart, PreviewStop and the rounds of
-- PreviewDaemonThread on the table of the streams. A pointer is a number; what stands behind it is
-- none once it was deleted.
use aistream.Base.{
  ℕ, ◌+◌, ◌≡◌, refl, sym, ◌∙◌, ◌==◌, ==_self, ==_iff, is_none, if◌then◌else◌, Bool, true, false,
  not, ◌&&◌, ◌||◌, Option, none, some, option, ◌>>=◌, List, [], ◌∷◌, ◌++◌, Text, text, text_eq,
  copy, Has, inl, inr, Bool-cases, Option-cases, ap, bind-some,
}
use aistream.Base.{ℤ, int_eq}
use mathlib.Core.Bool.{true≢false}

pub record PreviewParams : Type 0 where
  pub id : ℤ
  pub kind : Text
  pub running : Bool
  -- _running, which the thread of the stream sets to 0 where it ends.
  pub thread_running : Bool

pub record PreviewConfig : Type 0 where
  pub obj_vec : List ℕ
  pub preview_at : ℕ → Option PreviewParams
  pub next : ℕ

abbrev pub write : ℕ → Option PreviewParams → (ℕ → Option PreviewParams) → ℕ → Option PreviewParams
write p o memory q = if q == p then o else memory q

abbrev is_supported : Text → Bool
is_supported kind = text_eq kind (text "hls") || text_eq kind (text "http-flv")

-- PreviewStart, with the string "preview" of its parameters, if there are any: the handle too.
unfoldable pub preview_start : ℤ → Option Text → PreviewConfig → PreviewConfig × ℕ
preview_start channel kind config =
    let p = config.next in
    let name = option [] (copy 64) kind in
    let on = is_supported name in
    let preview : PreviewParams = record {
      id = channel;
      kind = name;
      running = on;
      thread_running = on;
    } in
    (
      record {
        obj_vec = if on then config.obj_vec ++ p ∷ [] else config.obj_vec;
        preview_at = write p (some preview) config.preview_at;
        next = p + 1;
      },
      p,
    )

-- The loop that erases the stream's pointer from a vector; none is a read of what was deleted.
unfoldable pub erase_id : ℤ → (ℕ → Option PreviewParams) → List ℕ → Option (List ℕ)
erase_id id memory [] = some []
erase_id id memory (p ∷ objs) =
    let rest = erase_id id memory objs in
    memory p >>= λ preview.
    if int_eq preview.id id then some objs else option none (λ r. some (p ∷ r)) rest

-- PreviewStop. The vector that the loop erases from is a copy, which is dropped.
unfoldable pub preview_stop : ℕ → PreviewConfig → Option PreviewConfig
unfolding erase_id
preview_stop p config = config.preview_at p >>= λ preview.
    let stopped = record preview { running = false; thread_running = false } in
    let memory = write p (some stopped) config.preview_at in
    erase_id preview.id memory config.obj_vec >>= λ obj_vec.
    some (record config { preview_at = write p none memory })

-- PreviewDaemon: a thread that ended although its stream is on is started again.
unfoldable pub preview_daemon : PreviewParams → PreviewParams
preview_daemon preview =
    if preview.running && not preview.thread_running
    then record preview { thread_running = true }
    else preview

-- One round of PreviewDaemonThread; none is a read of what was deleted.
unfoldable pub daemon_round :
    List ℕ → (ℕ → Option PreviewParams) → Option (ℕ → Option PreviewParams)
unfolding preview_daemon
daemon_round [] memory = some memory
daemon_round (p ∷ objs) memory =
    memory p >>= λ preview. daemon_round objs (write p (some (preview_daemon preview)) memory)

-- A freed stream stays freed during a round up to the place where it is read.
daemon_round-freed :
    (objs : List ℕ) (p : ℕ) (memory : ℕ → Option PreviewParams)
    → Has p objs
    → memory p ≡ none
    → daemon_round objs memory ≡ none
unfolding daemon_round
daemon_round-freed [] p memory h e = absurd h
daemon_round-freed (q ∷ objs) p memory (inl f) e = rw (f, e) refl
daemon_round-freed (q ∷ objs) p memory (inr h) e = elim (Option-cases (memory q)) [
  | inl n ↦ rw n refl
  | inr (preview, s) ↦ elim (Bool-cases (p == q)) [
    | inl b ↦ absurd (true≢false (ap is_none (sym (rw ((==_iff p q).0 b) at e) ∙ s)))
    | inr b ↦ rw s (daemon_round-freed objs p _ h (rw b e))
  ]
]

-- The configuration after a PreviewStop that reads nothing deleted.
abbrev stopped : ℕ → PreviewConfig → PreviewParams → PreviewConfig
stopped p config preview = record config {
  preview_at = write p none (
      write p (some (record preview { running = false; thread_running = false }))
        config.preview_at);
}

preview_stop-frees :
    (p : ℕ) (config config' : PreviewConfig)
    → preview_stop p config ≡ some config'
    → (config'.obj_vec ≡ config.obj_vec) × (config'.preview_at p ≡ none)
unfolding preview_stop
preview_stop-frees p config config' e =
    let (preview, found, f) = bind-some (config.preview_at p) _ config' e in
    let (objs, erased, g) = bind-some (erase_id preview.id _ config.obj_vec) _ config' f in
    let same : stopped p config preview ≡ config' = ap (option config (λ c. c)) g in
    (sym (ap (λ c. c.obj_vec) same), sym (ap (λ c. c.preview_at p) same) ∙ freed preview)
  where
    freed : (preview : PreviewParams) → (stopped p config preview).preview_at p ≡ none
    freed preview = rw (==_self p) refl

-- After PreviewStop on a stream of the table, the next round of PreviewDaemonThread reads what was
-- deleted: the pointer is only erased from a copy of the table.
pub preview_stop_dangles :
    (p : ℕ) (config config' : PreviewConfig)
    → preview_stop p config ≡ some config'
    → Has p config.obj_vec
    → daemon_round config'.obj_vec config'.preview_at ≡ none
preview_stop_dangles p config config' e h =
    let (same, freed) = preview_stop-frees p config config' e in
    daemon_round-freed config'.obj_vec p config'.preview_at (rw same h) freed
