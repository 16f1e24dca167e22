-- ===== src/Packets/Threads/Ends.antt =====
-- src/task.cpp: a stopped task's threads come to their end.
use aistream.Base.{
  ℕ, suc, ◌+◌, ◌≤◌, ◌≡◌, refl, sym, subst, ◌==◌, Bool, false, if◌then◌else◌, ◌&&◌, Option, none,
  some, inl, inr, List, [], ◌∷◌, arith, length, map, Bool-cases, ==_self,
}
use aistream.Packets.{Packet, Input, match_queues, get_input, got, stopped, unmatched}
use aistream.Packets.Threads.{
  TaskElement, TaskThread, put_back, push_each, after_process, after_input, clear_outputs, At,
  before, waits, ended, Task, move, go_on, Event, turn, stop, shutdown, process_turn, element_turn,
  turn_at, step, run,
}

-- The turns that a thread has left in a task that is stopped.
abbrev left : At → ℕ
left (before rest) = suc (length rest)
left (waits ele rest) = suc (suc (length rest))
left ended = 0

-- The turns of a thread among the events.
abbrev turns : ℕ → List Event → ℕ
turns i [] = 0
turns i (turn now j ∷ es) = if j == i then suc (turns i es) else turns i es
turns i (stop ∷ es) = turns i es
turns i (shutdown ∷ es) = turns i es

left-ended : (at : At) → left at ≤ 0 → at ≡ ended
left-ended (before rest) le = absurd (omega arith)
left-ended (waits ele rest) le = absurd (omega arith)
left-ended ended le = refl

-- The task is stopped still, the thread has at most n turns left and the others are where they were.
record Came (i n : ℕ) (threads : ℕ → TaskThread) (s : Task) : Type 0 where
  halted : s.running ≡ false
  nearer : left (s.thread_at i).at ≤ n
  others : (j : ℕ) → (i == j) ≡ false → (s.thread_at j).at ≡ (threads j).at

move-Came :
    (i n : ℕ) (at : At) (s : Task)
    → s.running ≡ false
    → left at ≤ n
    → Came i n s.thread_at (move i at s)
unfolding move
move-Came i n at s off le = record {
  halted = off;
  nearer = rw (==_self i) le;
  others = λ j e. rw e refl;
}

go_on-Came :
    (now i n : ℕ) (rest : List TaskElement) (s : Task)
    → s.running ≡ false
    → suc (length rest) ≤ n
    → Came i n s.thread_at (go_on now i rest s)
unfolding go_on
go_on-Came now i n [] s off le = move-Came i n (before []) (record s { task_beat = now }) off le
go_on-Came now i n (ele ∷ rest) s off le = move-Came i n (before (ele ∷ rest)) s off le

-- GetInput does not wait in a task that is stopped.
get_input_stopped-elim :
    (M : Input → Type 0) (running : Bool) (queues : List (List Packet))
    → running ≡ false
    → ((pkts : List Packet) (queues' : List (List Packet)) → M (got pkts queues'))
    → M stopped
    → ((queues' : List (List Packet)) → M (unmatched queues'))
    → M (get_input running queues)
unfolding get_input
get_input_stopped-elim M running [] off g s u = g [] []
get_input_stopped-elim M running ([] ∷ queues) off g s u = rw off s
get_input_stopped-elim M running ((pkt ∷ queue) ∷ queues) off g s u =
    let (found, queues') = match_queues pkt.frame_id queues in
    elim found
      as (λ f. M (elim f as (λ x. Input) [
        | none ↦ unmatched (queue ∷ queues')
        | some pkts ↦ got (pkt ∷ pkts) (queue ∷ queues')
      ])) [ none ↦ u (queue ∷ queues') | some pkts ↦ g (pkt ∷ pkts) (queue ∷ queues') ]

after_process-Came :
    (now i : ℕ) (ele : TaskElement) (rest : List TaskElement) (s : Task)
    (out : Option (Option Packet))
    → s.running ≡ false
    → Came i (suc (length rest)) s.thread_at (after_process now i ele rest s out)
unfolding after_process
after_process-Came now i ele rest s none off =
    go_on-Came now i (suc (length rest)) [] s off (omega arith)
after_process-Came now i ele rest s (some none) off =
    go_on-Came now i (suc (length rest)) rest s off (omega arith)
after_process-Came now i ele rest s (some (some pkt)) off =
    go_on-Came now i (suc (length rest)) rest
      (record s { queue_at = push_each ele.queue_len pkt ele.output s.queue_at }) off (omega arith)

if_off-Came :
    (b : Bool) (i n : ℕ) (p : ℕ → TaskThread) (s t : Task)
    → b ≡ false
    → Came i n p t
    → Came i n p (if b then s else t)
if_off-Came b i n p s t e c = rw e c

module _ (process : ℕ → TaskElement → List Packet → Option (Option Packet)) where
  process_turn-Came :
      (now i : ℕ) (ele : TaskElement) (rest : List TaskElement) (pkts : List Packet) (s : Task)
      → s.running ≡ false
      → Came i (suc (length rest)) s.thread_at (process_turn process now i ele rest pkts s)
  unfolding process_turn
  process_turn-Came now i ele rest pkts s off =
      after_process-Came now i ele rest (record s { calls = s.calls + 1 })
        (process s.calls ele pkts) off

  element_turn-Came :
      (now i : ℕ) (ele : TaskElement) (rest : List TaskElement) (s : Task)
      → s.running ≡ false
      → Came i (suc (length rest)) s.thread_at (element_turn process now i ele rest s)
  unfolding element_turn after_input
  element_turn-Came now i ele rest s off =
      let taken : List (List Packet) → Task =
        λ queues. record s { queue_at = put_back ele.input queues s.queue_at } in
      get_input_stopped-elim
        (λ o. Came i (suc (length rest)) s.thread_at (after_input process now i ele rest s o))
        s.running (map s.queue_at ele.input) off
        (λ pkts queues. process_turn-Came now i ele rest pkts (taken queues) off)
        (go_on-Came now i (suc (length rest)) [] s off (omega arith))
        (λ queues. go_on-Came now i (suc (length rest)) rest (taken queues) off (omega arith))

  Came-weaken : (i m n : ℕ) (p : ℕ → TaskThread) (s : Task) → m ≤ n → Came i m p s → Came i n p s
  Came-weaken i m n p s le c = record {
    halted = c.halted;
    nearer = omega (arith, le, c.nearer);
    others = c.others;
  }

  turn_at-Came :
      (now i n : ℕ) (at : At) (s : Task)
      → s.running ≡ false
      → (s.thread_at i).at ≡ at
      → left at ≤ suc n
      → Came i n s.thread_at (turn_at process now i at s)
  unfolding turn_at
  turn_at-Came now i n ended s off e le = record {
    halted = off;
    nearer = rw e (omega arith);
    others = λ j ne. refl;
  }
  turn_at-Came now i n (before []) s off e le =
      let queues = clear_outputs (s.thread_at i).t_ele_vec s.queue_at in
      if_off-Came (s.running && s.media_running) i n s.thread_at _ _ (rw off refl)
        (move-Came i n ended (record s { queue_at = queues }) off (omega arith))
  turn_at-Came now i n (before (ele ∷ rest)) s off e le =
      Came-weaken i (suc (length rest)) n s.thread_at _ (omega (arith, le))
        (element_turn-Came now i ele rest s off)
  turn_at-Came now i n (waits ele rest) s off e le =
      if_off-Came s.running i n s.thread_at _ _ off
        (go_on-Came now i n [] s off (omega (arith, le)))

  stays :
      (es : List Event) (i : ℕ) (s : Task)
      → s.running ≡ false
      → left (s.thread_at i).at ≤ turns i es
      → ((run process es s).thread_at i).at ≡ ended
  unfolding run step
  stays [] i s off le = left-ended (s.thread_at i).at (omega (arith, le))
  stays (turn now j ∷ es) i s off le =
      let at = (s.thread_at j).at in
      let s' = turn_at process now j at s in
      elim (Bool-cases (j == i)) [
        | inl same ↦
            let e : j ≡ i = ground (arith, same) in
            let some_left : left (s.thread_at i).at ≤ suc (turns i es) = ground (arith, same, le) in
            let here = subst (λ k. left (s.thread_at k).at ≤ suc (turns i es)) (sym e) some_left in
            let c = turn_at-Came now j (turns i es) at s off refl here in
            stays es i s' c.halted (subst (λ k. left (s'.thread_at k).at ≤ turns i es) e c.nearer)
        | inr other ↦
            let c = turn_at-Came now j (left at) at s off refl (omega arith) in
            let some_left : left (s.thread_at i).at ≤ turns i es = ground (arith, other, le) in
            stays es i s' c.halted
              (subst (λ a. left a ≤ turns i es) (sym (c.others i other)) some_left)
      ]
  stays (stop ∷ es) i s off le = stays es i (record s { running = false }) refl le
  stays (shutdown ∷ es) i s off le = stays es i (record s { media_running = false }) off le

  -- Once a task is stopped, its threads end: a thread has ended after any turns of the task's
  -- threads in any order among which it has one for each element that it has still to visit in its
  -- round, one for the head of the loop, and one more if it was in a wait.
  pub run-ended :
      (es : List Event) (i : ℕ) (s : Task)
      → left (s.thread_at i).at ≤ turns i es
      → ((run process (stop ∷ es) s).thread_at i).at ≡ ended
  unfolding run
  run-ended es i s le = stays es i (record s { running = false }) refl le
