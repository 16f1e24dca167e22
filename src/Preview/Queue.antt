-- ===== src/Preview/Queue.antt =====
-- plugins/official/preview/preview.cpp: the packets between PreviewProcess and ReadVideoPacket.
use aistream.Base.{
  ℕ, zero, suc, ◌≤◌, ◌<◌, ◌≡◌, refl, ltb, ◌==◌, if◌then◌else◌, Bool, true, false, ◌||◌, some, List,
  [], ◌∷◌, Has, inl, inr, arith, Bool-cases, length, length-append, take, ap, option, sym, ◌∙◌,
}
use aistream.Preview.{Packet, Reader, is_idr, read_loop, preview_process}

-- The queue never holds more packets than the configured length.
preview_process-bound :
    (queue_len : ℕ) (pkt : Packet) (reader : Reader)
    → length reader.queue ≤ queue_len
    → length (preview_process queue_len pkt reader).queue ≤ queue_len
unfolding preview_process
preview_process-bound queue_len pkt reader h =
    elim (Bool-cases (ltb (length reader.queue) queue_len)) [
      | inl b ↦
          let room : length reader.queue < queue_len = ground arith in
          rw b (omega (arith, length-append reader.queue (pkt ∷ []), room))
      | inr b ↦ rw b h
    ]

length-take : {A : Type 0} (n : ℕ) (xs : List A) → length (take n xs) ≤ n
length-take zero xs = omega arith
length-take (suc n) [] = omega arith
length-take (suc n) (x ∷ xs) = omega (arith, length-take n xs)

abbrev IsRead : ℕ → List Packet → List ℕ → Type 0
IsRead size queue bytes =
    (length bytes ≤ size)
    × (0 < length bytes)
    × ((pkt : Packet) × Has pkt queue × (bytes ≡ take size pkt.payload))

-- The three ways of one round.
module _ (size : ℕ) (found : Bool) (frame_id : ℕ) (pkt : Packet) (queue : List Packet) where
  abbrev is_empty : Bool
  is_empty = length pkt.payload == 0 || size == 0

  round_drops :
      (found || is_idr pkt) ≡ false
      → read_loop size found frame_id (pkt ∷ queue) ≡ read_loop size false frame_id queue
  unfolding read_loop
  round_drops e = rw (e, read_loop) refl

  round_empty :
      (found || is_idr pkt) ≡ true
      → is_empty ≡ true
      → read_loop size found frame_id (pkt ∷ queue) ≡ read_loop size true pkt.frame_id queue
  unfolding read_loop
  round_empty e f = rw (e, f, read_loop) refl

  round_reads :
      (found || is_idr pkt) ≡ true
      → is_empty ≡ false
      → read_loop size found frame_id (pkt ∷ queue) ≡ (
        record { find_idr = true; frame_id = pkt.frame_id; queue = queue },
        some (if ltb (length pkt.payload) size then pkt.payload else take size pkt.payload),
      )
  unfolding read_loop
  round_reads e f = rw (e, f, read_loop) refl

take-all : {A : Type 0} (n : ℕ) (xs : List A) → length xs ≤ n → take n xs ≡ xs
take-all zero [] h = refl
take-all zero (x ∷ xs) h = absurd (omega arith)
take-all (suc n) [] h = refl
take-all (suc n) (x ∷ xs) h = ap (◌∷◌ x) (take-all n xs (omega arith))

length-take_min :
    {A : Type 0} (n : ℕ) (xs : List A) → 0 < n → 0 < length xs → 0 < length (take n xs)
length-take_min zero xs h k = absurd (omega arith)
length-take_min (suc n) [] h k = absurd (omega arith)
length-take_min (suc n) (x ∷ xs) h k = omega arith

copied :
    (size : ℕ) (pkt : Packet)
    → (if ltb (length pkt.payload) size then pkt.payload else take size pkt.payload)
      ≡ take size pkt.payload
copied size pkt = elim (Bool-cases (ltb (length pkt.payload) size)) [
  | inl b ↦ rw b (sym (take-all size pkt.payload (ground arith)))
  | inr b ↦ rw b refl
]

-- Where ReadVideoPacket gives bytes, they are at least one and at most `size`, and the start of a
-- packet of the queue.
read_loop-IsRead :
    (size : ℕ) (found : Bool) (frame_id : ℕ) (queue : List Packet) (bytes : List ℕ)
    → (read_loop size found frame_id queue).1 ≡ some bytes
    → IsRead size queue bytes
unfolding read_loop
read_loop-IsRead size found frame_id [] bytes e = cc
read_loop-IsRead size found frame_id (pkt ∷ queue) bytes e =
    elim (Bool-cases (found || is_idr pkt)) [
      | inl b ↦ elim (Bool-cases (is_empty size found frame_id pkt queue)) [
        | inl c ↦ later (
            read_loop-IsRead size true pkt.frame_id queue bytes
              (rw (round_empty size found frame_id pkt queue b c) at e))
        | inr c ↦
            let same : some (take size pkt.payload) ≡ some bytes =
              ap some (sym (copied size pkt))
              ∙ (rw (round_reads size found frame_id pkt queue b c) at e) in
            let eq = ap (option [] (λ t. t)) same in
            rw (← eq) (
              length-take size pkt.payload,
              length-take_min size pkt.payload (ground arith) (ground arith),
              (pkt, inl refl, refl),
            )
      ]
      | inr b ↦ later (
          read_loop-IsRead size false frame_id queue bytes
            (rw (round_drops size found frame_id pkt queue b) at e))
    ]
  where
    later : IsRead size queue bytes → IsRead size (pkt ∷ queue) bytes
    later (a, b, (p, h, f)) = (a, b, (p, inr h, f))
