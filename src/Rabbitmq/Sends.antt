-- ===== src/Rabbitmq/Sends.antt =====
-- plugins/official/output/rabbitmq.cpp: what the result of MqSend and of MqInit says.
use aistream.Base.{
  ◌+◌, ◌<◌, ◌≡◌, refl, sym, subst, ◌∙◌, if◌then◌else◌, Bool, true, false, List, [], ◌∷◌, Text,
  arith, Bool-cases, inl, inr, ltb, Option, none, some, ap, All,
}
use aistream.Platform.{Platform}
use aistream.Rabbitmq.{
  Call, Trace, Rabbitmq, call, mq_open_connect, mq_close_connect, mq_send_msg, send_or_retry,
  mq_send, mq_process, mq_init,
}
use aistream.Rabbitmq.Leaks.{
  taken, new_err_lem, open_taken, send_connected, send_opened, send_unopened, IsBalanced,
  mq_send-IsBalanced,
}

module _ (succeeds : Trace → Call → Bool) where
  -- The messages that the library took after a send: this one too where the send returned 0.
  abbrev Sent : Text → Rabbitmq → Rabbitmq × Bool → Type 0
  Sent buf mq (mq', ok) = taken mq'.trace ≡ (if ok then buf ∷ taken mq.trace else taken mq.trace)

  send_msg_taken : (buf : Text) (mq : Rabbitmq) → Sent buf mq (mq_send_msg succeeds buf mq)
  unfolding mq_send_msg call taken
  send_msg_taken buf mq = refl

  close_taken : (mq : Rabbitmq) → taken (mq_close_connect succeeds mq).trace ≡ taken mq.trace
  unfolding mq_close_connect
  close_taken mq = (new_err_lem succeeds true true mq.trace).3

  connect_taken : (mq : Rabbitmq) → taken (mq_open_connect succeeds mq).0.trace ≡ taken mq.trace
  unfolding mq_open_connect
  connect_taken mq = open_taken succeeds mq.trace

  retry_taken : (buf : Text) (mq : Rabbitmq) → Sent buf mq (send_or_retry succeeds buf mq)
  unfolding send_or_retry
  retry_taken buf mq =
      let sent = mq_send_msg succeeds buf mq in
      let e1 = send_msg_taken buf mq in
      let closed = record (mq_close_connect succeeds sent.0) { conn = false } in
      let opened = mq_open_connect succeeds closed in
      elim (Bool-cases sent.1) [
        | inl p ↦ rw p (e1 ∙ rw p refl)
        | inr p ↦
            let e4 : taken opened.0.trace ≡ taken mq.trace =
              connect_taken closed ∙ close_taken sent.0 ∙ e1 ∙ rw p refl in
            elim (Bool-cases opened.0.conn) [
              | inl o ↦ rw (p, o) (send_msg_taken buf opened.0 ∙ rw e4 refl)
              | inr o ↦ rw (p, o) e4
            ]
      ]

  -- MqSend returns 0 exactly where the library took a message, which is the one that was to be
  -- sent, and took it once; otherwise it took none.
  pub taken-mq_send :
      (buf : Text) (mq : Rabbitmq)
      → taken (mq_send succeeds buf mq).0.trace
        ≡ (if (mq_send succeeds buf mq).1 then buf ∷ taken mq.trace else taken mq.trace)
  taken-mq_send buf mq = elim (Bool-cases mq.conn) [
    | inl c ↦ rw (send_connected succeeds buf mq c) (retry_taken buf mq)
    | inr c ↦
        let opened = mq_open_connect succeeds mq in
        let e = connect_taken mq in
        elim (Bool-cases opened.1) [
          | inl o ↦ rw (send_opened succeeds buf mq c o) (retry_taken buf opened.0 ∙ rw e refl)
          | inr o ↦ rw (send_unopened succeeds buf mq c o) e
        ]
  ]

  -- All but the connection.
  abbrev offline : Rabbitmq → Rabbitmq
  offline mq = record mq { conn = false; trace = [] }

  offline-send_or_retry :
      (buf : Text) (mq : Rabbitmq) → offline (send_or_retry succeeds buf mq).0 ≡ offline mq
  unfolding send_or_retry mq_send_msg mq_open_connect mq_close_connect
  offline-send_or_retry buf mq =
      let sent = mq_send_msg succeeds buf mq in
      let opened =
        mq_open_connect succeeds (record (mq_close_connect succeeds sent.0) { conn = false }) in
      elim (Bool-cases sent.1) [
        | inl p ↦ rw p refl
        | inr p ↦ elim (Bool-cases opened.0.conn) [
          | inl o ↦ rw (p, o) refl
          | inr o ↦ rw (p, o) refl
        ]
      ]

  offline-mq_process :
      (json : Text) (mq : Rabbitmq) → offline (mq_process succeeds json mq) ≡ offline mq
  unfolding mq_process mq_send mq_open_connect
  offline-mq_process json mq =
      let opened = mq_open_connect succeeds mq in
      elim (Bool-cases (ltb 0 mq.init)) [
        | inr i ↦ rw i refl
        | inl i ↦ elim (Bool-cases mq.conn) [
          | inl c ↦ rw (i, send_connected succeeds json mq c) (offline-send_or_retry json mq)
          | inr c ↦ elim (Bool-cases opened.1) [
            | inl o ↦ rw (i, send_opened succeeds json mq c o) (offline-send_or_retry json opened.0)
            | inr o ↦ rw (i, send_unopened succeeds json mq c o) refl
          ]
        ]
      ]

  -- The messages of all elements in the order in which they get the mutex.
  unfoldable pub process_all : List Text → Rabbitmq → Rabbitmq
  process_all [] mq = mq
  process_all (json ∷ jsons) mq = process_all jsons (mq_process succeeds json mq)

  process-IsBalanced :
      (json : Text) (mq : Rabbitmq)
      → IsBalanced succeeds mq
      → IsBalanced succeeds (mq_process succeeds json mq)
  unfolding mq_process
  process-IsBalanced json mq b = elim (Bool-cases (ltb 0 mq.init)) [
    | inl i ↦ rw i (mq_send-IsBalanced succeeds json mq b)
    | inr i ↦ rw i b
  ]

  -- Whatever calls fail, after any messages the connections that were made and not destroyed are the
  -- one in mq.conn, if it is not null, and those for which the library made no socket, if all of
  -- this held before.
  pub process_all-IsBalanced :
      (jsons : List Text) (mq : Rabbitmq)
      → IsBalanced succeeds mq
      → IsBalanced succeeds (process_all jsons mq)
  unfolding process_all
  process_all-IsBalanced [] mq b = b
  process_all-IsBalanced (json ∷ jsons) mq b =
      process_all-IsBalanced jsons (mq_process succeeds json mq) (process-IsBalanced json mq b)

module _ (P : Platform) where
  mq_init_again :
      (params : Option Text) (mq : Rabbitmq)
      → 0 < mq.init
      → mq_init P params mq ≡ (record mq { init = mq.init + 1 }, true)
  unfolding mq_init
  mq_init_again params mq h = let b : ltb 1 (mq.init + 1) ≡ true = ground arith in simp (b, mq_init)

  mq_init_fails :
      (params : Option Text) (mq : Rabbitmq)
      → (mq_init P params mq).1 ≡ false
      → (mq_init P params mq).0 ≡ record mq { init = mq.init + 1 }
  unfolding mq_init
  mq_init_fails none mq f = ground arith
  mq_init_fails (some params) mq f = ground arith

  -- What happens to the plugin: an element calls MqInit, or MqProcess with a message.
  pub data Event : Type 0 where
    init : Option Text → Event
    message : Text → Event

  module _ (succeeds : Trace → Call → Bool) where
    unfoldable pub step : Event → Rabbitmq → Rabbitmq
    step (init params) mq = (mq_init P params mq).0
    step (message json) mq = mq_process succeeds json mq

    unfoldable pub run : List Event → Rabbitmq → Rabbitmq
    unfolding step
    run [] mq = mq
    run (e ∷ events) mq = run events (step e mq)

    -- Whether each MqInit among the events returns 0.
    unfoldable pub results : List Event → Rabbitmq → List Bool
    unfolding step
    results [] mq = []
    results (init params ∷ events) mq =
        (mq_init P params mq).1 ∷ results events (step (init params) mq)
    results (message json ∷ events) mq = results events (step (message json) mq)

    -- What MqInit reads from its parameters.
    abbrev pub settings : Rabbitmq → Rabbitmq
    settings mq = record mq { init = 0; conn = false; trace = [] }

    abbrev Stuck : List Event → Rabbitmq → Type 0
    Stuck events mq =
        (settings (run events mq) ≡ settings mq)
        × All (λ (ok : Bool). ok ≡ true) (results events mq)

    run-Stuck : (events : List Event) (mq : Rabbitmq) → 0 < mq.init → Stuck events mq
    unfolding run results step
    run-Stuck [] mq h = (refl, tt)
    run-Stuck (init params ∷ events) mq h =
        let again = mq_init_again params mq h in
        let (kept, good) = run-Stuck events (record mq { init = mq.init + 1 }) (omega arith) in
        subst
          (λ (p : Rabbitmq × Bool).
            (settings (run events p.0) ≡ settings mq)
            × ((p.1 ≡ true) × All (λ (ok : Bool). ok ≡ true) (results events p.0)))
          (sym again) (kept, (refl, good))
    run-Stuck (message json ∷ events) mq h =
        let same = offline-mq_process succeeds json mq in
        let started : 0 < (mq_process succeeds json mq).init =
          let e = ap (λ (r : Rabbitmq). r.init) same in omega (arith, e, h) in
        let (kept, good) = run-Stuck events (mq_process succeeds json mq) started in
        (kept ∙ ap (λ (r : Rabbitmq). record r { init = 0 }) same, good)

    -- After an MqInit that failed, whatever follows, each later MqInit returns 0 and none changes a
    -- setting: after any calls of MqInit and any messages the host, the port, the names and the
    -- password are those from before the failed call.
    pub mq_init_stuck :
        (params : Option Text) (events : List Event) (mq : Rabbitmq)
        → (mq_init P params mq).1 ≡ false
        → (settings (run events (mq_init P params mq).0) ≡ settings mq)
          × All (λ (ok : Bool). ok ≡ true) (results events (mq_init P params mq).0)
    mq_init_stuck params events mq f =
        rw (mq_init_fails params mq f)
          (run-Stuck events (record mq { init = mq.init + 1 }) (omega arith))
