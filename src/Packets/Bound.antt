-- ===== src/Packets/Bound.antt =====
-- The bound of an output queue in ThreadFunc of src/task.cpp.
use mathlib.Core.List.{append-nil, append_assoc}
use aistream.Base.{
  ℕ, zero, suc, ◌-◌, ◌≤◌, ◌<◌, ◌≡◌, refl, sym, ◌∙◌, ap, inl, inr, List, [], ◌∷◌, ◌++◌, arith, leb,
  length, length-append, Bool-cases,
}
use aistream.Packets.{Packet, pop, push_output}

abbrev pub drop : ℕ → List Packet → List Packet
drop zero xs = xs
drop (suc n) [] = []
drop (suc n) (x ∷ xs) = drop n xs

-- The newest packets of a queue, as many as there is room for.
abbrev pub newest : ℕ → List Packet → List Packet
newest queue_len xs = drop (length xs - queue_len) xs

-- The packets of a list, pushed one after the other.
abbrev pub push_all : ℕ → List Packet → List Packet → List Packet
push_all queue_len [] queue = queue
push_all queue_len (pkt ∷ pkts) queue = push_all queue_len pkts (push_output queue_len pkt queue)

length-drop : (n : ℕ) (xs : List Packet) → length (drop n xs) ≡ length xs - n
length-drop zero xs = ground arith
length-drop (suc n) [] = ground arith
length-drop (suc n) (x ∷ xs) = ground (arith, length-drop n xs)

drop-append : (n : ℕ) (xs ys : List Packet) → n ≤ length xs → drop n (xs ++ ys) ≡ drop n xs ++ ys
drop-append zero xs ys le = refl
drop-append (suc n) [] ys le = absurd (omega (arith, le))
drop-append (suc n) (x ∷ xs) ys le = drop-append n xs ys (omega (arith, le))

pop-drop : (n : ℕ) (xs : List Packet) → pop (drop n xs) ≡ drop (suc n) xs
unfolding pop
pop-drop zero [] = refl
pop-drop zero (x ∷ xs) = refl
pop-drop (suc n) [] = refl
pop-drop (suc n) (x ∷ xs) = pop-drop n xs

push_output-newest :
    (queue_len : ℕ) (pkt : Packet) (xs : List Packet)
    → 0 < queue_len
    → push_output queue_len pkt (newest queue_len xs) ≡ newest queue_len (xs ++ pkt ∷ [])
unfolding push_output
push_output-newest queue_len pkt xs room =
    let size = length-drop (length xs - queue_len) xs in
    let total = length-append {0} xs (pkt ∷ []) in
    elim (Bool-cases (leb queue_len (length (newest queue_len xs)))) [
      | inl full ↦
          let much : queue_len ≤ length xs = ground (arith, size) in
          let more : length (xs ++ pkt ∷ []) - queue_len ≡ suc (length xs - queue_len) =
            omega (arith, total, much) in
          rw (full, more, pop-drop (length xs - queue_len) xs)
            (sym
              (drop-append (suc (length xs - queue_len)) xs (pkt ∷ []) (omega (arith, much, room))))
      | inr free ↦
          let few : length xs < queue_len = ground (arith, size) in
          let none_here : length xs - queue_len ≡ 0 = omega (arith, few) in
          let none_there : length (xs ++ pkt ∷ []) - queue_len ≡ 0 = omega (arith, total, few) in
          rw (free, none_here, none_there) refl
    ]

-- Whatever packets are pushed to an output queue, it holds the newest of all that it ever got, in
-- their order and as many as its bound allows, where the bound is not 0 and the queue held no more.
pub push_all-newest :
    (queue_len : ℕ) (pkts xs : List Packet)
    → 0 < queue_len
    → push_all queue_len pkts (newest queue_len xs) ≡ newest queue_len (xs ++ pkts)
push_all-newest queue_len [] xs room = ap (newest queue_len) (sym (append-nil xs))
push_all-newest queue_len (pkt ∷ pkts) xs room =
    ap (push_all queue_len pkts) (push_output-newest queue_len pkt xs room)
    ∙ push_all-newest queue_len pkts (xs ++ pkt ∷ []) room
    ∙ ap (newest queue_len) (append_assoc xs (pkt ∷ []) pkts)
