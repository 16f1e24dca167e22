-- ===== src/Rabbitmq.antt =====
-- plugins/official/output/rabbitmq.cpp: the connection to a RabbitMQ server, and the sending of
-- messages over it. A call of the client library is kept in a trace with its success, newest first.
pub mod Sends
pub mod Leaks
use aistream.Base.{
  ℕ, ◌+◌, ltb, if◌then◌else◌, Bool, true, false, ◌||◌, Option, none, some, option, List, [], ◌∷◌,
  Text, text, copy, is_none,
}
use aistream.Base.{ℤ, pos, is_not_positive}
use aistream.Platform.{Platform}
use aistream.Share.{get_int_val_from_json, get_str_val_from_json}

pub data Call : Type 0 where
  new_connection tcp_socket_new socket_open login channel_open get_rpc_reply : Call
  channel_close connection_close destroy_connection : Call
  basic_publish : Text → Call

abbrev pub Trace : Type 0
Trace = List (Call × Bool)

pub record Rabbitmq : Type 0 where
  pub init : ℕ
  pub host : Text
  pub port : ℤ
  pub username : Text
  pub password : Text
  pub exchange : Text
  pub routingkey : Text
  -- mq.conn is not null.
  pub conn : Bool
  pub trace : Trace

abbrev pub start : Rabbitmq
start = record {
  init = 0;
  host = [];
  port = pos 0;
  username = [];
  password = [];
  exchange = [];
  routingkey = [];
  conn = false;
  trace = [];
}

module _ (P : Platform) where
  abbrev string_of : Text → Text → Option Text
  string_of params name = get_str_val_from_json P params (some name) none none

  -- MqInit: the state, and whether it returns 0.
  unfoldable pub mq_init : Option Text → Rabbitmq → Rabbitmq × Bool
  mq_init params mq =
      let mq = record mq { init = mq.init + 1 } in
      elim (ltb 1 mq.init) [
        | true ↦ (mq, true)
        | false ↦ elim params [
          | none ↦ (mq, false)
          | some params ↦
              let host = string_of params (text "host") in
              let port = get_int_val_from_json P params (some (text "port")) none none in
              let username = string_of params (text "username") in
              let password = string_of params (text "password") in
              let exchange = string_of params (text "exchange") in
              let routingkey = string_of params (text "routingkey") in
              elim (is_none host
                || is_not_positive port
                || is_none username
                || is_none password
                || is_none exchange
                || is_none routingkey) [
                  | true ↦ (mq, false)
                  | false ↦ (
                    record mq {
                      port = port;
                      host = copy 128 (option [] (λ t. t) host);
                      username = copy 64 (option [] (λ t. t) username);
                      password = copy 64 (option [] (λ t. t) password);
                      exchange = copy 256 (option [] (λ t. t) exchange);
                      routingkey = copy 256 (option [] (λ t. t) routingkey);
                    },
                    true,
                  )
                ]
        ]
      ]

-- Whether a call succeeds may depend on all calls before it.
module _ (succeeds : Trace → Call → Bool) where
  unfoldable pub call : Call → Trace → Bool × Trace
  call c trace = (succeeds trace c, (c, succeeds trace c) ∷ trace)

  -- MqOpenConnect from the label new_err on.
  unfoldable pub new_err : Bool → Bool → Trace → Trace
  unfolding call
  new_err chn_opened conn_opened trace =
      let trace = if chn_opened then (call channel_close trace).1 else trace in
      let trace = if conn_opened then (call connection_close trace).1 else trace in
      (call destroy_connection trace).1

  -- The trace after MqOpenConnect, and whether it returns 0.
  unfoldable pub open_connect : Trace → Trace × Bool
  unfolding call new_err
  open_connect trace =
      let (made, trace) = call new_connection trace in
      elim made [
        | false ↦ (trace, false)
        | true ↦
            let (socket, trace) = call tcp_socket_new trace in
            elim socket [
              | false ↦ (trace, false)
              | true ↦
                  let (conn_opened, trace) = call socket_open trace in
                  let (logged_in, trace) = call login trace in
                  elim logged_in [
                    | false ↦ (new_err false conn_opened trace, false)
                    | true ↦
                        let (chn_opened, trace) = call channel_open trace in
                        let (replied, trace) = call get_rpc_reply trace in
                        elim replied [
                          | false ↦ (new_err chn_opened conn_opened trace, false)
                          | true ↦ (trace, true)
                        ]
                  ]
            ]
      ]

  unfoldable pub mq_open_connect : Rabbitmq → Rabbitmq × Bool
  unfolding open_connect
  mq_open_connect mq =
      let (trace, opened) = open_connect mq.trace in
      (record mq { trace = trace; conn = if opened then true else mq.conn }, opened)

  unfoldable pub mq_close_connect : Rabbitmq → Rabbitmq
  unfolding new_err
  mq_close_connect mq = record mq { trace = new_err true true mq.trace }

  unfoldable pub mq_send_msg : Text → Rabbitmq → Rabbitmq × Bool
  unfolding call
  mq_send_msg buf mq =
      let (published, trace) = call (basic_publish buf) mq.trace in
      (record mq { trace = trace }, published)

  -- The part of MqSend that has a connection: one more try on a new one.
  unfoldable pub send_or_retry : Text → Rabbitmq → Rabbitmq × Bool
  unfolding mq_open_connect mq_close_connect mq_send_msg
  send_or_retry buf mq =
      let (mq, published) = mq_send_msg buf mq in
      elim published [
        | true ↦ (mq, true)
        | false ↦
            let mq = record (mq_close_connect mq) { conn = false } in
            let (mq, opened) = mq_open_connect mq in
            elim mq.conn [ true ↦ mq_send_msg buf mq | false ↦ (mq, false) ]
      ]

  unfoldable pub mq_send : Text → Rabbitmq → Rabbitmq × Bool
  unfolding mq_open_connect send_or_retry
  mq_send buf mq = elim mq.conn [
    | true ↦ send_or_retry buf mq
    | false ↦
        let (mq, opened) = mq_open_connect mq in
        elim opened [ true ↦ send_or_retry buf mq | false ↦ (mq, false) ]
  ]

  unfoldable pub mq_process : Text → Rabbitmq → Rabbitmq
  unfolding mq_send
  mq_process json mq = if ltb 0 mq.init then (mq_send json mq).0 else mq
