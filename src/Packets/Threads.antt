-- ===== src/Packets/Threads.antt =====
-- src/task.cpp: the loop of ThreadFunc on the threads of a task, once all elements are started and
-- connected. A thread takes a turn at the head of the loop and at each element. A queue is given by
-- a number; the input queues of an element differ, and no output is a null pointer.
pub mod Ends
pub mod Room
use aistream.Base.{
  ℕ, ◌+◌, ◌==◌, Bool, false, ◌&&◌, if◌then◌else◌, Option, none, some, List, [], ◌∷◌, Text, map,
}
use aistream.Packets.{Packet, push_output, Input, get_input, got, stopped, waiting, unmatched}

pub record TaskElement : Type 0 where
  pub name : Text
  pub input : List ℕ
  pub output : List ℕ
  pub queue_len : ℕ

-- Where a thread is: before the rest of the elements of a round, in the wait of GetInput for an
-- element, or at its end.
pub data At : Type 0 where
  before : List TaskElement → At
  waits : TaskElement → List TaskElement → At
  ended : At

pub record TaskThread : Type 0 where
  pub t_ele_vec : List TaskElement
  pub at : At

-- `calls` counts the calls of plugins.
pub record Task : Type 0 where
  pub running : Bool
  pub media_running : Bool
  pub task_beat : ℕ
  pub calls : ℕ
  pub queue_at : ℕ → List Packet
  pub thread_at : ℕ → TaskThread

abbrev pub update : {A : Type 0} → ℕ → A → (ℕ → A) → ℕ → A
update a x f b = if a == b then x else f b

abbrev Queues : Type 0
Queues = ℕ → List Packet

-- The inputs after GetInput.
unfoldable pub put_back : List ℕ → List (List Packet) → Queues → Queues
put_back [] queues f = f
put_back (a ∷ inputs) [] f = f
put_back (a ∷ inputs) (queue ∷ queues) f = put_back inputs queues (update a queue f)

unfoldable pub push_each : ℕ → Packet → List ℕ → Queues → Queues
push_each queue_len pkt [] f = f
push_each queue_len pkt (a ∷ outputs) f =
    push_each queue_len pkt outputs (update a (push_output queue_len pkt (f a)) f)

unfoldable pub clear_each : List ℕ → Queues → Queues
clear_each [] f = f
clear_each (a ∷ outputs) f = clear_each outputs (update a [] f)

unfoldable pub clear_outputs : List TaskElement → Queues → Queues
unfolding clear_each
clear_outputs [] f = f
clear_outputs (ele ∷ rest) f = clear_outputs rest (clear_each ele.output f)

-- A thread goes to another place.
unfoldable pub move : ℕ → At → Task → Task
move i at s = record s { thread_at = update i (record (s.thread_at i) { at = at }) s.thread_at }

-- A thread goes on to the rest of its round, or beats at the end of it.
unfoldable pub go_on : ℕ → ℕ → List TaskElement → Task → Task
unfolding move
go_on now i [] s = move i (before []) (record s { task_beat = now })
go_on now i (ele ∷ rest) s = move i (before (ele ∷ rest)) s

pub data Event : Type 0 where
  -- A turn of a thread at a time.
  turn : ℕ → ℕ → Event
  stop shutdown : Event

-- What a thread does with the value of Process: none if it is not 0, and the packet that it put out,
-- if any.
unfoldable pub after_process :
    ℕ → ℕ → TaskElement → List TaskElement → Task → Option (Option Packet) → Task
unfolding go_on push_each
after_process now i ele rest s none = go_on now i [] s
after_process now i ele rest s (some none) = go_on now i rest s
after_process now i ele rest s (some (some pkt)) =
    go_on now i rest (record s { queue_at = push_each ele.queue_len pkt ele.output s.queue_at })

-- Process may depend on the number of calls before it; it leaves output_num as it is.
module _ (process : ℕ → TaskElement → List Packet → Option (Option Packet)) where
  unfoldable pub process_turn : ℕ → ℕ → TaskElement → List TaskElement → List Packet → Task → Task
  unfolding after_process
  process_turn now i ele rest pkts s =
      after_process now i ele rest (record s { calls = s.calls + 1 }) (process s.calls ele pkts)

  -- What a thread does with the value of GetInput.
  unfoldable pub after_input : ℕ → ℕ → TaskElement → List TaskElement → Task → Input → Task
  unfolding process_turn put_back
  after_input now i ele rest s (got pkts queues) =
      process_turn now i ele rest pkts
        (record s { queue_at = put_back ele.input queues s.queue_at })
  after_input now i ele rest s stopped = go_on now i [] s
  after_input now i ele rest s waiting = move i (waits ele rest) s
  after_input now i ele rest s (unmatched queues) =
      go_on now i rest (record s { queue_at = put_back ele.input queues s.queue_at })

  unfoldable pub element_turn : ℕ → ℕ → TaskElement → List TaskElement → Task → Task
  unfolding after_input
  element_turn now i ele rest s =
      after_input now i ele rest s (get_input s.running (map s.queue_at ele.input))

  -- A thread that is woken up by the end of the task leaves GetInput whatever its queue holds.
  unfoldable pub turn_at : ℕ → ℕ → At → Task → Task
  unfolding element_turn clear_outputs
  turn_at now i ended s = s
  turn_at now i (before []) s =
      if s.running && s.media_running
      then move i (before (s.thread_at i).t_ele_vec) s
      else move i ended (record s { queue_at = clear_outputs (s.thread_at i).t_ele_vec s.queue_at })
  turn_at now i (before (ele ∷ rest)) s = element_turn now i ele rest s
  turn_at now i (waits ele rest) s =
      if s.running then element_turn now i ele rest s else go_on now i [] s

  -- A turn, TaskParams::Stop or the end of an element that did not start, and the end of the program.
  unfoldable pub step : Event → Task → Task
  unfolding turn_at
  step (turn now i) s = turn_at now i (s.thread_at i).at s
  step stop s = record s { running = false }
  step shutdown s = record s { media_running = false }

  unfoldable pub run : List Event → Task → Task
  unfolding step
  run [] s = s
  run (e ∷ es) s = run es (step e s)
