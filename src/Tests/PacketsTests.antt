-- ===== src/Tests/PacketsTests.antt =====
-- The packet queues of src/task.cpp at concrete inputs.
use aistream.Base.{
  ℕ, ◌≤◌, ◌==◌, if◌then◌else◌, true, ◌≡◌, refl, List, [], ◌∷◌, arith, All, inl, inr, Option, some,
  none, Bool-cases,
}
use aistream.Packets.{Packet, get_input, push_output, pop, match_queues}
use aistream.Packets.Bound.{push_all, push_all-newest}
use aistream.Packets.Threads.{
  TaskElement, TaskThread, Task, before, ended, Event, turn, stop, run, step, turn_at, element_turn,
  after_input, process_turn, after_process, go_on, move, push_each, put_back,
}
use aistream.Packets.Threads.Ends.{run-ended}
use aistream.Packets.Threads.Room.{IsRoomy, run-IsRoomy}

abbrev frame : ℕ → Packet
frame n = record { frame_id = n; body = n }

abbrev frames : List Packet
frames = frame 3 ∷ frame 4 ∷ frame 5 ∷ []

push_all-newest_example :
    push_all 3 (frame 6 ∷ frame 7 ∷ []) frames ≡ frame 5 ∷ frame 6 ∷ frame 7 ∷ []
push_all-newest_example = push_all-newest 3 (frame 6 ∷ frame 7 ∷ []) frames (omega arith)

-- An element without inputs that puts out a packet in each turn, and one that reads its queue.
abbrev source : TaskElement
source = record { name = []; input = []; output = 0 ∷ []; queue_len = 2 }

abbrev sink : TaskElement
sink = record { name = []; input = 0 ∷ []; output = []; queue_len = 2 }

abbrev process : ℕ → TaskElement → List Packet → Option (Option Packet)
process calls ele [] = some (some (frame calls))
process calls ele (pkt ∷ pkts) = some none

-- A thread for each of them, at the head of its loop.
abbrev thread_at : ℕ → TaskThread
thread_at i = record { t_ele_vec = (if i == 0 then source else sink) ∷ []; at = before [] }

abbrev task : Task
task = record {
  running = true;
  media_running = true;
  task_beat = 0;
  calls = 0;
  queue_at = λ a. [];
  thread_at = thread_at;
}

-- Three rounds of the source, and one of the sink.
abbrev rounds : List Event
rounds = turn 1 0 ∷ turn 2 0 ∷ turn 3 0 ∷ turn 4 0 ∷ turn 5 0 ∷ turn 6 0 ∷ turn 7 1 ∷ turn 8 1 ∷ []

rounds_queue : (run process rounds task).queue_at 0 ≡ frame 2 ∷ []
unfolding run step turn_at element_turn after_input process_turn after_process go_on move push_each
    put_back push_output pop get_input match_queues
rounds_queue = refl

run-ended_example : ((run process (stop ∷ turn 1 1 ∷ turn 2 0 ∷ []) task).thread_at 1).at ≡ ended
run-ended_example = run-ended process (turn 1 1 ∷ turn 2 0 ∷ []) 1 task (omega arith)

small : (i : ℕ) → All (λ (ele : TaskElement). ele.queue_len ≤ 2) (thread_at i).t_ele_vec
small i = elim (Bool-cases (i == 0)) [
  | inl e ↦ rw e (omega arith, tt)
  | inr e ↦ rw e (omega arith, tt)
]

task-IsRoomy : IsRoomy 2 (omega arith) task
task-IsRoomy = record { fits = λ a. omega arith; bounded = small; bounded_at = λ i. tt }

run-IsRoomy_example : IsRoomy 2 (omega arith) (run process rounds task)
run-IsRoomy_example = run-IsRoomy 2 (omega arith) process rounds task task-IsRoomy
