-- ===== src/Packets.antt =====
-- src/task.cpp: the queues of packets between the elements of a task, as ThreadFunc reads and fills
-- them. A queue is a list with its front first.
pub mod Bound
pub mod Match
pub mod Threads
use aistream.Base.{ℕ, Bool, if◌then◌else◌, Option, none, some, List, [], ◌∷◌, ◌++◌, leb, length}

-- The frame number counts up from 0.
pub record Packet : Type 0 where
  pub frame_id : ℕ
  pub body : ℕ

-- pop is undefined on an empty queue, which ThreadFunc reaches only with a queue_len of 0; here it
-- leaves the queue empty then.
unfoldable pub pop : List Packet → List Packet
pop [] = []
pop (pkt ∷ queue) = queue

-- What ThreadFunc does to an output queue with the packet that the element gave: the oldest packet
-- goes if the queue is full.
unfoldable pub push_output : ℕ → Packet → List Packet → List Packet
unfolding pop
push_output queue_len pkt queue =
    (if leb queue_len (length queue) then pop queue else queue) ++ pkt ∷ []

-- The search in one of the other inputs: the packet, if there is one, and the queue after it.
unfoldable pub match_queue : ℕ → List Packet → Option Packet × List Packet
match_queue frame_id [] = (none, [])
match_queue frame_id (pkt ∷ queue) =
    let rest = match_queue frame_id queue in
    if leb frame_id pkt.frame_id then (some pkt, queue) else rest

-- The search in all other inputs: the packets, or none where the search failed in one of them, and
-- the queues. Those after the failure are left alone.
unfoldable pub match_queues : ℕ → List (List Packet) → Option (List Packet) × List (List Packet)
unfolding match_queue
match_queues frame_id [] = (some [], [])
match_queues frame_id (queue ∷ queues) =
    let (found, queue') = match_queue frame_id queue in
    let (others, queues') = match_queues frame_id queues in
    elim found [
      | none ↦ (none, queue' ∷ queues)
      | some pkt ↦ elim others [
        | none ↦ (none, queue' ∷ queues')
        | some pkts ↦ (some (pkt ∷ pkts), queue' ∷ queues')
      ]
    ]

-- The value of GetInput with the packets in `tensor._in` and the queues: 0 is `got`, -1 `stopped`, 1
-- `unmatched`; `waiting` is the wait for a packet in the first input.
pub data Input : Type 0 where
  got : List Packet → List (List Packet) → Input
  stopped waiting : Input
  unmatched : List (List Packet) → Input

unfoldable pub get_input : Bool → List (List Packet) → Input
unfolding match_queues
get_input running [] = got [] []
get_input running ([] ∷ queues) = if running then waiting else stopped
get_input running ((pkt ∷ queue) ∷ queues) =
    let (found, queues') = match_queues pkt.frame_id queues in
    elim found [
      | none ↦ unmatched (queue ∷ queues')
      | some pkts ↦ got (pkt ∷ pkts) (queue ∷ queues')
    ]
