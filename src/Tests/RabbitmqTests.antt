-- ===== src/Tests/RabbitmqTests.antt =====
-- plugins/official/output/rabbitmq.cpp at concrete inputs.
use aistream.Base.{
  ◌≡◌, refl, Bool, true, false, none, some, [], ◌∷◌, List, if◌then◌else◌, All, text, length, ltb,
}
use aistream.Platform.{Platform}
use aistream.Sample.{toy}
use aistream.Rabbitmq.{
  Call, basic_publish, login, Trace, Rabbitmq, start, mq_init, mq_send, mq_process,
}
use aistream.Rabbitmq.Leaks.{made, destroyed, socketless, IsBalanced, taken}
use aistream.Rabbitmq.Sends.{
  process_all, process_all-IsBalanced, taken-mq_send, mq_init_stuck, Event, init, message, run,
  results, settings,
}

-- The first login and the first message fail.
abbrev flaky : Trace → Call → Bool
flaky trace login = ltb 3 (length trace)
flaky trace (basic_publish buf) = ltb 12 (length trace)
flaky trace c = true

abbrev platform : Platform
platform = toy (λ sent r. none) (λ path. none)

abbrev ready : Rabbitmq
ready = record start { init = 1 }

two_sent : (process_all flaky (text "a" ∷ text "b" ∷ text "c" ∷ []) ready).conn ≡ true
unfolding process_all mq_process
two_sent = refl

ready-IsBalanced : IsBalanced flaky ready
unfolding made destroyed socketless
ready-IsBalanced = refl

process_all-IsBalanced_example :
    IsBalanced flaky (process_all flaky (text "a" ∷ text "b" ∷ text "c" ∷ []) ready)
process_all-IsBalanced_example =
    process_all-IsBalanced flaky (text "a" ∷ text "b" ∷ text "c" ∷ []) ready ready-IsBalanced

taken-mq_send_example : taken (mq_send flaky (text "a") ready).0.trace ≡ (
    if (mq_send flaky (text "a") ready).1 then text "a" ∷ taken ready.trace else taken ready.trace)
taken-mq_send_example = taken-mq_send flaky (text "a") ready

-- The first try fails, and the message is taken in the second one.
sent_again : taken (process_all flaky (text "a" ∷ text "b" ∷ []) ready).trace ≡ text "b" ∷ []
unfolding process_all mq_process taken
sent_again = refl

first_init : (mq_init platform none start).1 ≡ false
unfolding mq_init
first_init = refl

abbrev later : List (Event platform)
later = init (some (text "{}")) ∷ message (text "a") ∷ init none ∷ []

mq_init_stuck_example :
    (settings platform flaky (run platform flaky later (mq_init platform none start).0)
      ≡ settings platform flaky start)
    × All (λ (ok : Bool). ok ≡ true) (results platform flaky later (mq_init platform none start).0)
mq_init_stuck_example = mq_init_stuck platform flaky none later start first_init
