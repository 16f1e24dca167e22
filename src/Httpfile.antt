-- ===== src/Httpfile.antt =====
-- plugins/official/httpfile/httpfile.cpp: a request that carries a file in a form, the reading of its
-- parts, and the queue of the files. The name under which a file is saved, malloc, evbuffer and
-- evhttp come from outside. A pointer into the body is the list of the bytes from there on; a search
-- that meets no zero ends at the end of the buffer, where the program reads on behind it.
pub mod Lines
pub mod Buffer
pub mod Room
pub mod Requests
use aistream.Base.{
  ℕ, zero, suc, ◌+◌, ◌-◌, ltb, leb, ◌==◌, if◌then◌else◌, Bool, true, false, not, ◌&&◌, ◌||◌, Option,
  none, some, option, is_none, ◌>>=◌, List, [], ◌∷◌, ◌++◌, Text, text, text_eq, length, take,
}
use aistream.Base.{ℤ, pos, negsuc, is_negative, is_not_positive}
use aistream.Platform.{Platform}
use aistream.Httpfile.Buffer.{Log, HttpParams, fit_buffer, fill_buffer}
use aistream.Share.{get_int_val_from_json, get_obj_buf_from_json}

abbrev pub is_end : ℕ → Bool
is_end c = c == b'\r' || c == b'\n'

-- GetNextLine with room for n characters; the flag says that an end of a line was seen.
unfoldable pub next_line : ℕ → Bool → List ℕ → Text
next_line zero flag input = []
next_line (suc n) flag [] = []
next_line (suc n) flag (c ∷ input) =
    let more = next_line n (flag || is_end c) input in
    if c == 0 || (flag && not (is_end c)) then [] else c ∷ more

abbrev pub get_next_line : List ℕ → Text
get_next_line input = next_line 255 false input

unfoldable pub drop : ℕ → List ℕ → List ℕ
drop zero bytes = bytes
drop (suc n) [] = []
drop (suc n) (c ∷ bytes) = drop n bytes

-- strstr: the bytes from the first place on where the word stands, before a zero.
unfoldable pub strstr : List ℕ → Text → Option (List ℕ)
strstr [] word = if text_eq word [] then some [] else none
strstr (c ∷ bytes) word =
    let later = strstr bytes word in
    if text_eq (take (length word) (c ∷ bytes)) word
    then some (c ∷ bytes)
    else if c == 0
    then none
    else later

abbrev pub contains : Text → Text → Bool
contains line word = not (is_none (strstr line word))

-- GetStrLine with n rounds: where the line starts that has the word in it.
unfoldable pub str_line : ℕ → List ℕ → Text → Option (List ℕ)
unfolding next_line strstr drop
str_line zero input boundary = none
str_line (suc n) input boundary =
    let line = get_next_line input in
    let later = str_line n (drop (length line) input) boundary in
    if length line == 0 then none else if contains line boundary then some input else later

-- do ... while (cnt --) with cnt = 100
abbrev pub get_str_line : List ℕ → Text → Option (List ℕ)
get_str_line = str_line 101

-- The search that GetFileHead and GetFile share: past the boundary's line and the line with the
-- part's name. `left` is the rounds that are left; the flag says whether the name is the wanted one.
unfoldable pub find_part : ℕ → Text → List ℕ → Text → Option (List ℕ)
unfolding next_line strstr drop
find_part zero name body boundary = none
find_part (suc left) name body boundary = strstr body boundary >>= λ p.
    let line1 = get_next_line p in
    let p1 = drop (length line1) p in
    let line2 = get_next_line p1 in
    let p2 = drop (length line2) p1 in
    let later = find_part left name p2 boundary in
    if length line1 == 0 || length line2 == 0
    then none
    else if contains line2 (text "Content-Disposition")
        && contains line2 (text "form-data")
        && contains line2 name
    then some p2
    else later

abbrev pub file_name : Text
file_name = text "name=\"file\""

abbrev pub head_name : Text
head_name = text "name=\"head\""

-- The bytes from p up to p1, where they fit.
unfoldable pub copy_head : List ℕ → List ℕ → Option (List ℕ)
copy_head p p1 = let len = length p - length p1 in if leb 512 len then none else some (take len p)

-- The bytes that GetFileHead copies to an array of 512: those up to the line of the next boundary.
unfoldable pub file_head : List ℕ → Text → Option (List ℕ)
unfolding find_part str_line copy_head
file_head body boundary =
    find_part 2 head_name body boundary >>= λ p. get_str_line p boundary >>= copy_head p

-- The bytes before the first zero.
unfoldable pub c_string : List ℕ → Text
c_string [] = []
c_string (c ∷ bytes) = let more = c_string bytes in if c == 0 then [] else c ∷ more

-- GetFile: where the file starts.
unfoldable pub get_file : List ℕ → Text → Option (List ℕ)
unfolding find_part strstr drop
get_file body boundary = find_part 2 file_name body boundary >>= λ p.
    strstr p (text "\r\n\r\n") >>= λ flag. some (drop 4 flag)

pub record HttpFilee : Type 0 where
  pub buf : Option (List ℕ)
  pub size : ℤ
  pub user_data : Option Text

pub record Packet : Type 0 where
  pub frame_id : ℕ
  pub payload : List ℕ
  -- params.ptr: the user data and the URL.
  pub ptr : Option (Text × Text)

pub record HttpServer : Type 0 where
  pub frame_id : ℕ
  pub queue : List Packet
  pub queue_len_max : ℕ

pub record Request : Type 0 where
  pub is_post : Bool
  pub content_type : Option Text
  -- The value of atoi.
  pub content_length : Option ℤ
  pub body : List ℕ

-- Copy2Queue.
unfoldable pub copy2_queue : HttpFilee → Text → HttpServer → HttpServer
copy2_queue file url http =
    let pkt : Packet = record {
      frame_id = http.frame_id + 1;
      payload = elim file.size [ pos n ↦ option [] (take n) file.buf | negsuc n ↦ [] ];
      ptr = option none (λ user_data. some (user_data, url)) file.user_data;
    } in
    record http {
      frame_id = http.frame_id + 1;
      queue =
          if ltb (length http.queue) http.queue_len_max then http.queue ++ pkt ∷ [] else http.queue;
    }

unfoldable pub pop_packet : List Packet → HttpServer → Option Packet × HttpServer
pop_packet [] http = (none, record http { queue = [] })
pop_packet (pkt ∷ queue) http = (some pkt, record http { queue = queue })

-- HttpProcess after its wait: the oldest packet, if there is one.
abbrev pub http_process : HttpServer → Option Packet × HttpServer
http_process http = pop_packet http.queue http

abbrev is_blank : ℕ → Bool
is_blank c = c == b' ' || c == b'\t'

unfoldable pub skip_while : (ℕ → Bool) → Text → Text
skip_while test [] = []
skip_while test (c ∷ t) = let more = skip_while test t in if test c then more else c ∷ t

unfoldable pub take_while : (ℕ → Bool) → Text → Text
take_while test [] = []
take_while test (c ∷ t) = let more = take_while test t in if test c then c ∷ more else []

-- sscanf with "%*s%*[^=]=%s": a word, what does not hold '=' and is not empty, '=', and a word.
unfoldable pub scan_boundary : Text → Option Text
unfolding skip_while take_while
scan_boundary content_type =
    let after_word = skip_while (λ c. not (is_blank c)) (skip_while is_blank content_type) in
    let skipped = skip_while (λ c. not (c == b'=')) after_word in
    if length (skip_while is_blank content_type) == length after_word
      || length after_word == length skipped
    then none
    else elim skipped [
      | [] ↦ none
      | (c ∷ rest) ↦ elim (take_while (λ c. not (is_blank c)) (skip_while is_blank rest)) [
        | [] ↦ none
        | (b ∷ word) ↦ some (b ∷ word)
      ]
    ]

abbrev pub check : Bool → Option {0} Unit
check b = if b then some tt else none

abbrev is_form : Text → Bool
is_form content_type =
    ltb (length content_type) 256 && contains content_type (text "multipart/form-data")

-- The checks of HttpRequest: the boundary and the length of a request that passes them.
unfoldable pub accepts : Request → Option (Text × ℤ)
unfolding scan_boundary strstr
accepts req = do
  is_post ← check req.is_post
  content_type ← req.content_type
  is_good ← check (is_form content_type)
  boundary ← scan_boundary content_type
  content_length ← req.content_length
  some (boundary, content_length)

-- What a request leads to, or the calls of malloc before it crashed or hung.
pub data Outcome (A : Type 0) : Type 0 where
  fine : A → Outcome A
  wrong : Log → Outcome A

module _ (P : Platform) (save_name : HttpServer → Text) (malloc : Log → ℕ → Option (List ℕ)) where
  -- GetFileHead.
  unfoldable pub get_file_head : List ℕ → Text → Option HttpFilee
  unfolding file_head c_string
  get_file_head body boundary = file_head body boundary >>= λ bytes.
      let head = c_string bytes in
      let size = get_int_val_from_json P head (some (text "filesize")) none none in
      if length head == 0 || is_negative size
      then none
      else some (record {
        buf = none;
        size = size;
        user_data = get_obj_buf_from_json P head (some (text "userdata")) none none;
      })

  -- GetHttpFile.
  unfoldable pub get_http_file : List ℕ → Text → Option HttpFilee
  unfolding get_file_head get_file
  get_http_file body boundary = get_file_head body boundary >>= λ file.
      if is_not_positive file.size
      then some file
      else option none (λ buf. some (record file { buf = some buf })) (get_file body boundary)

  abbrev pub queue_file : HttpServer → HttpFilee → Option HttpServer
  queue_file http file =
      let url = if is_not_positive file.size then [] else save_name http in
      some (copy2_queue file url http)

  -- HttpRequest once it has filled the buffer.
  unfoldable pub answer : Text → HttpParams → HttpServer → HttpParams × Option HttpServer
  unfolding get_http_file copy2_queue
  answer boundary params http =
      let body = option [] (λ block. block) params.body in
      (params, option none (queue_file http) (get_http_file body boundary))

  -- HttpRequest from the boundary on: the buffer and, where the file was taken, the server. It goes
  -- wrong where the buffer is not filled, with the calls of malloc up to then.
  unfoldable pub receive :
      Request → Text → ℤ → HttpParams → HttpServer → Outcome (HttpParams × Option HttpServer)
  unfolding fit_buffer fill_buffer answer
  receive req boundary content_length params http =
      let (params, goes_on) = fit_buffer malloc content_length params in
      elim (not goes_on || length req.body == 0) [
        | true ↦ fine (params, none)
        | false ↦ elim (fill_buffer req.body params) [
          | none ↦ wrong params.mallocs
          | some params' ↦ fine (answer boundary params' http)
        ]
      ]

  -- HttpRequest: none is the answer HTTP_INTERNAL, and some is HTTP_OK.
  unfoldable pub http_request :
      Request → HttpParams → HttpServer → Outcome (HttpParams × Option HttpServer)
  unfolding receive accepts
  http_request req params http =
      option (fine (params, none)) (λ (a : Text × ℤ). receive req a.0 a.1 params http) (accepts req)

  -- What happens to a server thread's buffer and to the server: a request, or a round of the task.
  pub data Event : Type 0 where
    request : Request → Event
    process : Event

  -- The server after a request.
  unfoldable pub served :
      HttpServer → Outcome (HttpParams × Option HttpServer) → Outcome (HttpParams × HttpServer)
  served http (fine (params, answer)) = fine (params, option http (λ h. h) answer)
  served http (wrong log) = wrong log

  unfoldable pub step : Event → HttpParams × HttpServer → Outcome (HttpParams × HttpServer)
  unfolding http_request pop_packet served
  step (request req) (params, http) = served http (http_request req params http)
  step process (params, http) = fine (params, (http_process http).1)

  unfoldable pub run : List Event → HttpParams × HttpServer → Outcome (HttpParams × HttpServer)
  unfolding step
  run [] s = fine s
  run (e ∷ events) s =
      let next = run events in elim (step e s) [ fine s' ↦ next s' | wrong log ↦ wrong log ]
