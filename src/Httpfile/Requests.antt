-- ===== src/Httpfile/Requests.antt =====
-- plugins/official/httpfile/httpfile.cpp: the buffer and the queue over any requests.
use aistream.Base.{
  ℕ, ◌≤◌, ◌<◌, ◌≡◌, true, ℤ, Option, some, option, ◌>>=◌, List, [], ◌∷◌, Text, length,
}
use aistream.Platform.{Platform}
use aistream.Httpfile.{
  Packet, HttpServer, Request, Outcome, fine, wrong, Event, request, process, answer, is_form,
  check, scan_boundary,
}
use aistream.Httpfile.Buffer.{Log, HttpParams}
use aistream.Httpfile.Room.{has_failed, Fits, MallocLaws, IsInt, extent}

-- The numbers of the packets go up along the queue, from above `low` to `last` at most.
abbrev pub Ascends : ℕ → List Packet → ℕ → Type 0
Ascends low [] last = low ≤ last
Ascends low (pkt ∷ queue) last = (low < pkt.frame_id) × Ascends pkt.frame_id queue last

-- The queue is not too long, and its packets are in the order in which they came.
abbrev pub IsServing : HttpServer → Type 0
IsServing http =
    (length http.queue ≤ http.queue_len_max) × ((low : ℕ) × Ascends low http.queue http.frame_id)

-- evhttp hands over no more bytes than the header says, where atoi gives an int.
abbrev pub IsMeasured : Request → Type 0
IsMeasured req = (n : ℤ) → req.content_length ≡ some n → IsInt n × (length req.body ≤ extent n)

-- The buffer and the server are in order, or a call of malloc has failed before it went wrong.
abbrev pub IsSafe : Outcome (HttpParams × HttpServer) → Type 0
IsSafe (fine (params, http)) = Fits params × IsServing http
IsSafe (wrong log) = has_failed log ≡ true

module _ (P : Platform) (save_name : HttpServer → Text) (malloc : Log → ℕ → Option (List ℕ))
    (laws : MallocLaws malloc) where
  abbrev IsGood : Outcome (HttpParams × Option HttpServer) → Type 0
  IsGood (fine (params, answer)) = Fits params × option Unit IsServing answer
  IsGood (wrong log) = has_failed log ≡ true

  -- The last two steps of the checks.
  length_step : (req : Request) (boundary : Text) → Option (Text × ℤ)
  length_step req boundary = req.content_length >>= λ n. some (boundary, n)

  form_step : (req : Request) (content_type : Text) → Option (Text × ℤ)
  form_step req content_type =
      check (is_form content_type) >>= λ is_good. scan_boundary content_type >>= length_step req

  abbrev pub IsMeasuredEvent : Event P save_name malloc → Type 0
  IsMeasuredEvent (request req) = IsMeasured req
  IsMeasuredEvent process = Unit
