-- ===== src/Rabbitmq/Leaks.antt =====
-- plugins/official/output/rabbitmq.cpp: the connections that are made and destroyed.
use aistream.Base.{
  ℕ, ◌+◌, ◌≡◌, refl, sym, ◌∙◌, if◌then◌else◌, Bool, true, false, not, List, [], ◌∷◌, Text, arith,
  Bool-cases, inl, inr,
}
use aistream.Rabbitmq.{
  Call, new_connection, tcp_socket_new, destroy_connection, basic_publish, Trace, Rabbitmq, call,
  new_err, open_connect, mq_open_connect, mq_close_connect, mq_send_msg, send_or_retry, mq_send,
}

abbrev pub unit_of : Bool → ℕ
unit_of b = if b then 1 else 0

unfoldable pub made : Trace → ℕ
made [] = 0
made ((new_connection, ok) ∷ trace) = unit_of ok + made trace
made (_ ∷ trace) = made trace

unfoldable pub destroyed : Trace → ℕ
destroyed [] = 0
destroyed ((destroy_connection, ok) ∷ trace) = 1 + destroyed trace
destroyed (_ ∷ trace) = destroyed trace

-- The connections for which the library made no socket.
unfoldable pub socketless : Trace → ℕ
socketless [] = 0
socketless ((tcp_socket_new, ok) ∷ trace) = unit_of (not ok) + socketless trace
socketless (_ ∷ trace) = socketless trace

-- The messages that the library took, newest first.
unfoldable pub taken : Trace → List Text
taken [] = []
taken ((basic_publish buf, ok) ∷ trace) = if ok then buf ∷ taken trace else taken trace
taken (_ ∷ trace) = taken trace

module _ (succeeds : Trace → Call → Bool) where
  pub new_err_lem :
      (chn_opened conn_opened : Bool) (trace : Trace)
      → (made (new_err succeeds chn_opened conn_opened trace) ≡ made trace)
        × (destroyed (new_err succeeds chn_opened conn_opened trace) ≡ destroyed trace + 1)
        × (socketless (new_err succeeds chn_opened conn_opened trace) ≡ socketless trace)
        × (taken (new_err succeeds chn_opened conn_opened trace) ≡ taken trace)
  unfolding new_err call made destroyed socketless taken
  new_err_lem true true trace = ground arith
  new_err_lem true false trace = ground arith
  new_err_lem false true trace = ground arith
  new_err_lem false false trace = ground arith

  open_connect_lem :
      (trace : Trace)
      → (made (open_connect succeeds trace).0 + (destroyed trace + socketless trace)
          ≡ made trace
            + (destroyed (open_connect succeeds trace).0
                + socketless (open_connect succeeds trace).0)
            + unit_of (open_connect succeeds trace).1)
        × (taken (open_connect succeeds trace).0 ≡ taken trace)
  unfolding open_connect call made destroyed socketless taken
  open_connect_lem trace = grind (arith, new_err_lem)

  pub open_taken : (trace : Trace) → taken (open_connect succeeds trace).0 ≡ taken trace
  unfolding open_connect call taken
  open_taken trace = grind (arith, new_err_lem)

  -- The connections that were not destroyed are those without a socket and the one in mq.conn.
  abbrev pub IsBalanced : Rabbitmq → Type 0
  IsBalanced mq = made mq.trace ≡ destroyed mq.trace + socketless mq.trace + unit_of mq.conn

  mq_open_connect-IsBalanced :
      (mq : Rabbitmq)
      → mq.conn ≡ false
      → IsBalanced mq
      → IsBalanced (mq_open_connect succeeds mq).0
        × ((mq_open_connect succeeds mq).1 ≡ (mq_open_connect succeeds mq).0.conn)
  unfolding mq_open_connect
  mq_open_connect-IsBalanced mq none b = grind (arith, open_connect_lem)

  close-IsBalanced :
      (mq : Rabbitmq)
      → mq.conn ≡ true
      → IsBalanced mq
      → IsBalanced (record (mq_close_connect succeeds mq) { conn = false })
  unfolding mq_close_connect
  close-IsBalanced mq some b = ground (arith, new_err_lem true true mq.trace)

  mq_send_msg-IsBalanced :
      (buf : Text) (mq : Rabbitmq)
      → IsBalanced mq
      → IsBalanced (mq_send_msg succeeds buf mq).0
        × ((mq_send_msg succeeds buf mq).0.conn ≡ mq.conn)
  unfolding mq_send_msg call made destroyed socketless
  mq_send_msg-IsBalanced buf mq b = (b, refl)

  send_or_retry-IsBalanced :
      (buf : Text) (mq : Rabbitmq)
      → mq.conn ≡ true
      → IsBalanced mq
      → IsBalanced (send_or_retry succeeds buf mq).0
  unfolding send_or_retry
  send_or_retry-IsBalanced buf mq some b =
      let sent = mq_send_msg succeeds buf mq in
      let (b1, same) = mq_send_msg-IsBalanced buf mq b in
      let closed = record (mq_close_connect succeeds sent.0) { conn = false } in
      let b2 = close-IsBalanced sent.0 (same ∙ some) b1 in
      let opened = mq_open_connect succeeds closed in
      let (b3, agrees) = mq_open_connect-IsBalanced closed refl b2 in
      elim (Bool-cases sent.1) [
        | inl p ↦ rw p b1
        | inr p ↦ elim (Bool-cases opened.0.conn) [
          | inl o ↦ rw (p, o) (mq_send_msg-IsBalanced buf opened.0 b3).0
          | inr o ↦ rw (p, o) b3
        ]
      ]

  -- The three ways of mq_send.
  pub send_connected :
      (buf : Text) (mq : Rabbitmq)
      → mq.conn ≡ true
      → mq_send succeeds buf mq ≡ send_or_retry succeeds buf mq
  unfolding mq_send
  send_connected buf mq c = simp (c, mq_send)

  pub send_opened :
      (buf : Text) (mq : Rabbitmq)
      → mq.conn ≡ false
      → (mq_open_connect succeeds mq).1 ≡ true
      → mq_send succeeds buf mq ≡ send_or_retry succeeds buf (mq_open_connect succeeds mq).0
  unfolding mq_send
  send_opened buf mq c o = simp (c, o, mq_send)

  pub send_unopened :
      (buf : Text) (mq : Rabbitmq)
      → mq.conn ≡ false
      → (mq_open_connect succeeds mq).1 ≡ false
      → mq_send succeeds buf mq ≡ ((mq_open_connect succeeds mq).0, false)
  unfolding mq_send
  send_unopened buf mq c o = simp (c, o, mq_send)

  pub mq_send-IsBalanced :
      (buf : Text) (mq : Rabbitmq) → IsBalanced mq → IsBalanced (mq_send succeeds buf mq).0
  mq_send-IsBalanced buf mq b = elim (Bool-cases mq.conn) [
    | inl c ↦ rw (send_connected buf mq c) (send_or_retry-IsBalanced buf mq c b)
    | inr c ↦
        let opened = mq_open_connect succeeds mq in
        let (b1, agrees) = mq_open_connect-IsBalanced mq c b in
        elim (Bool-cases opened.1) [
          | inl o ↦
              rw (send_opened buf mq c o)
                (send_or_retry-IsBalanced buf opened.0 (sym agrees ∙ o) b1)
          | inr o ↦ rw (send_unopened buf mq c o) b1
        ]
  ]
