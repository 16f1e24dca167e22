-- ===== src/Packets/Threads/Room.antt =====
-- src/task.cpp: the room that the queues of a task take.
use aistream.Base.{
  ℕ, suc, ◌+◌, ◌≤◌, ◌==◌, Bool, true, false, if◌then◌else◌, ◌&&◌, Option, none, some, inl, inr,
  List, [], ◌∷◌, arith, leb, length, length-append, map, All, Bool-cases,
}
use aistream.Packets.{
  Packet, pop, push_output, match_queue, match_queues, Input, get_input, got, stopped, waiting,
  unmatched,
}
use aistream.Packets.Threads.{
  TaskElement, At, before, waits, ended, Task, update, put_back, push_each, clear_each,
  clear_outputs, move, go_on, Event, turn, stop, shutdown, after_process, process_turn, after_input,
  element_turn, turn_at, step, run,
}

length-pop : (queue : List Packet) → length (pop queue) ≤ length queue
unfolding pop
length-pop [] = omega arith
length-pop (pkt ∷ queue) = omega arith

module _ (bound : ℕ) (some_room : 1 ≤ bound) where
  abbrev Short : List Packet → Type 0
  Short queue = length queue ≤ bound

  abbrev Fits : (ℕ → List Packet) → Type 0
  Fits f = (a : ℕ) → Short (f a)

  abbrev Bounded : TaskElement → Type 0
  Bounded ele = ele.queue_len ≤ bound

  abbrev BoundedAt : At → Type 0
  BoundedAt (before rest) = All Bounded rest
  BoundedAt (waits ele rest) = All Bounded (ele ∷ rest)
  BoundedAt ended = Unit

  update-Fits :
      (a : ℕ) (queue : List Packet) (f : ℕ → List Packet)
      → Short queue
      → Fits f
      → Fits (update a queue f)
  update-Fits a queue f h k b = elim (Bool-cases (a == b)) [ inl e ↦ rw e h | inr e ↦ rw e (k b) ]

  put_back-Fits :
      (inputs : List ℕ) (queues : List (List Packet)) (f : ℕ → List Packet)
      → All Short queues
      → Fits f
      → Fits (put_back inputs queues f)
  unfolding put_back
  put_back-Fits [] queues f h k = k
  put_back-Fits (a ∷ inputs) [] f h k = k
  put_back-Fits (a ∷ inputs) (queue ∷ queues) f h k =
      put_back-Fits inputs queues (update a queue f) h.1 (update-Fits a queue f h.0 k)

  push_output-Short :
      (queue_len : ℕ) (pkt : Packet) (queue : List Packet)
      → queue_len ≤ bound
      → Short queue
      → Short (push_output queue_len pkt queue)
  unfolding push_output pop
  push_output-Short queue_len pkt [] le h = elim (Bool-cases (leb queue_len 0)) [
    | inl e ↦ rw e some_room
    | inr e ↦ rw e some_room
  ]
  push_output-Short queue_len pkt (q ∷ queue) le h =
      let shorter = length-append {0} queue (pkt ∷ []) in
      elim (Bool-cases (leb queue_len (suc (length queue)))) [
        | inl e ↦ rw e (omega (arith, shorter, h))
        | inr e ↦
            let few : suc (suc (length queue)) ≤ queue_len = ground (arith, e) in
            rw e (omega (arith, shorter, few, le))
      ]

  push_each-Fits :
      (queue_len : ℕ) (pkt : Packet) (outputs : List ℕ) (f : ℕ → List Packet)
      → queue_len ≤ bound
      → Fits f
      → Fits (push_each queue_len pkt outputs f)
  unfolding push_each
  push_each-Fits queue_len pkt [] f le k = k
  push_each-Fits queue_len pkt (a ∷ outputs) f le k =
      push_each-Fits queue_len pkt outputs (update a (push_output queue_len pkt (f a)) f) le (
        update-Fits a (push_output queue_len pkt (f a)) f
          (push_output-Short queue_len pkt (f a) le (k a)) k)

  clear_each-Fits : (outputs : List ℕ) (f : ℕ → List Packet) → Fits f → Fits (clear_each outputs f)
  unfolding clear_each
  clear_each-Fits [] f k = k
  clear_each-Fits (a ∷ outputs) f k =
      clear_each-Fits outputs (update a [] f) (update-Fits a [] f (omega arith) k)

  clear_outputs-Fits :
      (eles : List TaskElement) (f : ℕ → List Packet) → Fits f → Fits (clear_outputs eles f)
  unfolding clear_outputs
  clear_outputs-Fits [] f k = k
  clear_outputs-Fits (ele ∷ eles) f k =
      clear_outputs-Fits eles (clear_each ele.output f) (clear_each-Fits ele.output f k)

  match_queue-Short :
      (frame_id : ℕ) (queue : List Packet) → Short queue → Short (match_queue frame_id queue).1
  unfolding match_queue
  match_queue-Short frame_id [] h = h
  match_queue-Short frame_id (pkt ∷ queue) h = elim (Bool-cases (leb frame_id pkt.frame_id)) [
    | inl e ↦ rw e (omega (arith, h))
    | inr e ↦ rw e (match_queue-Short frame_id queue (omega (arith, h)))
  ]

  match_queues-Short :
      (frame_id : ℕ) (queues : List (List Packet))
      → All Short queues
      → All Short (match_queues frame_id queues).1
  unfolding match_queues
  match_queues-Short frame_id [] h = tt
  match_queues-Short frame_id (queue ∷ queues) h =
      let short = match_queue-Short frame_id queue h.0 in
      let shorts = match_queues-Short frame_id queues h.1 in
      let queue' = (match_queue frame_id queue).1 in
      let (others, queues') = match_queues frame_id queues in
      let After : Type 0 = Option (List Packet) × List (List Packet) in
      elim (match_queue frame_id queue).0
        as (λ f.
          All Short
            (elim f as (λ x. After) [
              | none ↦ (none, queue' ∷ queues)
              | some pkt ↦ elim others as (λ x. After) [
                | none ↦ (none, queue' ∷ queues')
                | some pkts ↦ (some (pkt ∷ pkts), queue' ∷ queues')
              ]
            ]).1) [
              | none ↦ (short, h.1)
              | some pkt ↦
                  elim others
                    as (λ o.
                      All Short
                        (elim o as (λ x. After) [
                          | none ↦ (none, queue' ∷ queues')
                          | some pkts ↦ (some (pkt ∷ pkts), queue' ∷ queues')
                        ]).1) [ none ↦ (short, shorts) | some pkts ↦ (short, shorts) ]
            ]

  -- The queues that GetInput leaves.
  abbrev InputShort : Input → Type 0
  InputShort (got pkts queues) = All Short queues
  InputShort stopped = Unit
  InputShort waiting = Unit
  InputShort (unmatched queues) = All Short queues

  get_input-Short :
      (running : Bool) (queues : List (List Packet))
      → All Short queues
      → InputShort (get_input running queues)
  unfolding get_input
  get_input-Short running [] h = tt
  get_input-Short true ([] ∷ queues) h = tt
  get_input-Short false ([] ∷ queues) h = tt
  get_input-Short running ((pkt ∷ queue) ∷ queues) h =
      let shorts = match_queues-Short pkt.frame_id queues h.1 in
      let (found, queues') = match_queues pkt.frame_id queues in
      elim found
        as (λ f. InputShort (elim f as (λ x. Input) [
          | none ↦ unmatched (queue ∷ queues')
          | some pkts ↦ got (pkt ∷ pkts) (queue ∷ queues')
        ])) [ none ↦ (omega (arith, h.0), shorts) | some pkts ↦ (omega (arith, h.0), shorts) ]

  map-Short : (inputs : List ℕ) (f : ℕ → List Packet) → Fits f → All Short (map f inputs)
  map-Short [] f k = tt
  map-Short (a ∷ inputs) f k = (k a, map-Short inputs f k)

  pub record IsRoomy (s : Task) : Type 0 where
    pub fits : Fits s.queue_at
    pub bounded : (i : ℕ) → All Bounded (s.thread_at i).t_ele_vec
    pub bounded_at : (i : ℕ) → BoundedAt (s.thread_at i).at

  if-IsRoomy : (b : Bool) (s t : Task) → IsRoomy s → IsRoomy t → IsRoomy (if b then s else t)
  if-IsRoomy true s t r q = r
  if-IsRoomy false s t r q = q

  move-IsRoomy : (i : ℕ) (at : At) (s : Task) → BoundedAt at → IsRoomy s → IsRoomy (move i at s)
  unfolding move
  move-IsRoomy i at s b r = record {
    fits = r.fits;
    bounded =
        λ j. elim (Bool-cases (i == j)) [ inl e ↦ rw e (r.bounded i) | inr e ↦ rw e (r.bounded j) ];
    bounded_at = λ j. elim (Bool-cases (i == j)) [ inl e ↦ rw e b | inr e ↦ rw e (r.bounded_at j) ];
  }

  refill-IsRoomy :
      (f : ℕ → List Packet) (n now : ℕ) (s : Task)
      → Fits f
      → IsRoomy s
      → IsRoomy (record s { queue_at = f; calls = n; task_beat = now })
  refill-IsRoomy f n now s k r = record { fits = k; bounded = r.bounded; bounded_at = r.bounded_at }

  go_on-IsRoomy :
      (now i : ℕ) (rest : List TaskElement) (s : Task)
      → All Bounded rest
      → IsRoomy s
      → IsRoomy (go_on now i rest s)
  unfolding go_on
  go_on-IsRoomy now i [] s b r =
      move-IsRoomy i (before []) (record s { task_beat = now }) tt
        (refill-IsRoomy s.queue_at s.calls now s r.fits r)
  go_on-IsRoomy now i (ele ∷ rest) s b r = move-IsRoomy i (before (ele ∷ rest)) s b r

  after_process-IsRoomy :
      (now i : ℕ) (ele : TaskElement) (rest : List TaskElement) (s : Task)
      (out : Option (Option Packet))
      → All Bounded (ele ∷ rest)
      → IsRoomy s
      → IsRoomy (after_process now i ele rest s out)
  unfolding after_process
  after_process-IsRoomy now i ele rest s none b r = go_on-IsRoomy now i [] s tt r
  after_process-IsRoomy now i ele rest s (some none) b r = go_on-IsRoomy now i rest s b.1 r
  after_process-IsRoomy now i ele rest s (some (some pkt)) b r =
      let queues = push_each ele.queue_len pkt ele.output s.queue_at in
      go_on-IsRoomy now i rest (record s { queue_at = queues }) b.1
        (refill-IsRoomy queues s.calls s.task_beat s
          (push_each-Fits ele.queue_len pkt ele.output s.queue_at b.0 r.fits) r)

  module _ (process : ℕ → TaskElement → List Packet → Option (Option Packet)) where
    after_input-IsRoomy :
        (now i : ℕ) (ele : TaskElement) (rest : List TaskElement) (s : Task) (input : Input)
        → All Bounded (ele ∷ rest)
        → InputShort input
        → IsRoomy s
        → IsRoomy (after_input process now i ele rest s input)
    unfolding after_input process_turn
    after_input-IsRoomy now i ele rest s (got pkts queues) b h r =
        let queues' = put_back ele.input queues s.queue_at in
        after_process-IsRoomy now i ele rest (record s { queue_at = queues'; calls = s.calls + 1 })
          (process s.calls ele pkts) b
          (refill-IsRoomy queues' (s.calls + 1) s.task_beat s
            (put_back-Fits ele.input queues s.queue_at h r.fits) r)
    after_input-IsRoomy now i ele rest s stopped b h r = go_on-IsRoomy now i [] s tt r
    after_input-IsRoomy now i ele rest s waiting b h r = move-IsRoomy i (waits ele rest) s b r
    after_input-IsRoomy now i ele rest s (unmatched queues) b h r =
        let queues' = put_back ele.input queues s.queue_at in
        go_on-IsRoomy now i rest (record s { queue_at = queues' }) b.1
          (refill-IsRoomy queues' s.calls s.task_beat s
            (put_back-Fits ele.input queues s.queue_at h r.fits) r)

    element_turn-IsRoomy :
        (now i : ℕ) (ele : TaskElement) (rest : List TaskElement) (s : Task)
        → All Bounded (ele ∷ rest)
        → IsRoomy s
        → IsRoomy (element_turn process now i ele rest s)
    unfolding element_turn
    element_turn-IsRoomy now i ele rest s b r =
        let queues = map s.queue_at ele.input in
        after_input-IsRoomy now i ele rest s (get_input s.running queues) b
          (get_input-Short s.running queues (map-Short ele.input s.queue_at r.fits)) r

    turn_at-IsRoomy :
        (now i : ℕ) (at : At) (s : Task)
        → BoundedAt at
        → IsRoomy s
        → IsRoomy (turn_at process now i at s)
    unfolding turn_at
    turn_at-IsRoomy now i ended s b r = r
    turn_at-IsRoomy now i (before []) s b r =
        let eles = (s.thread_at i).t_ele_vec in
        let queues = clear_outputs eles s.queue_at in
        if-IsRoomy (s.running && s.media_running) _ _
          (move-IsRoomy i (before eles) s (r.bounded i) r)
          (move-IsRoomy i ended (record s { queue_at = queues }) tt
            (refill-IsRoomy queues s.calls s.task_beat s (clear_outputs-Fits eles s.queue_at r.fits)
              r))
    turn_at-IsRoomy now i (before (ele ∷ rest)) s b r = element_turn-IsRoomy now i ele rest s b r
    turn_at-IsRoomy now i (waits ele rest) s b r =
        if-IsRoomy s.running _ _ (element_turn-IsRoomy now i ele rest s b r)
          (go_on-IsRoomy now i [] s tt r)

    step-IsRoomy : (e : Event) (s : Task) → IsRoomy s → IsRoomy (step process e s)
    unfolding step
    step-IsRoomy (turn now i) s r = turn_at-IsRoomy now i (s.thread_at i).at s (r.bounded_at i) r
    step-IsRoomy stop s r = record { fits = r.fits; bounded = r.bounded; bounded_at = r.bounded_at }
    step-IsRoomy shutdown s r = record {
      fits = r.fits;
      bounded = r.bounded;
      bounded_at = r.bounded_at;
    }

    -- Where no queue_len is above a bound of at least 1, and no queue holds more packets than the
    -- bound, all queues keep to it over any turns of the task's threads in any order, whether or
    -- not the task is stopped on the way.
    pub run-IsRoomy : (es : List Event) (s : Task) → IsRoomy s → IsRoomy (run process es s)
    unfolding run
    run-IsRoomy [] s r = r
    run-IsRoomy (e ∷ es) s r = run-IsRoomy es (step process e s) (step-IsRoomy e s r)
