-- ===== src/Packets/Match.antt =====
-- GetInput of src/task.cpp: when the packets that it takes from its inputs belong together.
use aistream.Base.{ℕ, ◌≤◌, ◌≡◌, ◌⊎◌, List, [], ◌∷◌, All}
use aistream.Packets.{Packet}

-- The frame numbers of a queue do not go down.
abbrev pub Ascending : List Packet → Type 0
Ascending [] = Unit
Ascending (pkt ∷ queue) = All (λ r. pkt.frame_id ≤ r.frame_id) queue × Ascending queue

-- A packet of the frame is in the queue.
abbrev pub Offers : ℕ → List Packet → Type 0
Offers frame_id [] = ⊥
Offers frame_id (pkt ∷ queue) = (pkt.frame_id ≡ frame_id) ⊎ Offers frame_id queue
