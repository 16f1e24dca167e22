-- ===== src/Tests/HttpfileTests.antt =====
-- plugins/official/httpfile/httpfile.cpp at a concrete form.
use aistream.Base.{
  ℕ, zero, suc, ◌≡◌, refl, true, false, none, some, Option, List, [], ◌∷◌, ◌++◌, Text, text,
  text_eq, length, ltb, if◌then◌else◌, pos,
}
use aistream.Platform.{Platform}
use aistream.Share.{get_int_val_from_json, get_obj_buf_from_json}
use aistream.Sample.{toy, print_doc, item, find_field, parse_doc}
use aistream.Httpfile.{
  HttpServer, Packet, Request, Outcome, fine, wrong, Event, request, process, run, file_head,
  get_file, scan_boundary,
}
use aistream.Httpfile.Buffer.{Log, HttpParams}

abbrev platform : Platform
platform = toy (λ sent r. none) (λ path. none)

abbrev save_name : HttpServer → Text
save_name http = text "http://host/1.jpg"

abbrev head : Text
head = print_doc (record { raw = text "{"; fields = (text "filesize", 3 ∷ []) ∷ [] }) ++ text "\r\n"

abbrev form : List ℕ
form =
    text "--B\r\nContent-Disposition: form-data; name=\"head\"\r\n\r\n"
    ++ head
    ++ text
        "--B\r\nContent-Disposition: form-data; name=\"file\"\r\nContent-Type: image/jpeg\r\n\r\nabc\r\n--B--"

boundary_read : scan_boundary (text "multipart/form-data; boundary=B") ≡ some (text "B")
unfolding scan_boundary
boundary_read = refl

head_read : file_head form (text "B") ≡ some head
unfolding file_head text_eq
head_read = refl

file_read : get_file form (text "B") ≡ some (text "abc\r\n--B--")
unfolding get_file text_eq
file_read = refl

-- Without a line after the part's name the empty line is taken for the end of that line.
file_missed :
    get_file
      (text "--B\r\nContent-Disposition: form-data; name=\"file\"\r\n\r\nabc\r\n--B--")
      (text "B")
    ≡ none
unfolding get_file text_eq
file_missed = refl

abbrev req : Request
req = record {
  is_post = true;
  content_type = some (text "multipart/form-data; boundary=B");
  content_length = some (pos (length form));
  body = form;
}

abbrev buffer : HttpParams
buffer = record { size = pos 0; body = none; mallocs = [] }

abbrev idle : HttpServer
idle = record { frame_id = 0; queue = []; queue_len_max = 2 }

-- A heap with blocks of zeros for what is below a megabyte.
abbrev zeros : ℕ → List ℕ
zeros zero = []
zeros (suc n) = 0 ∷ zeros n

abbrev heap : Log → ℕ → Option (List ℕ)
heap log n = if ltb n 1048576 then some (zeros n) else none

-- A heap that is full at the first call.
abbrev full_heap : Log → ℕ → Option (List ℕ)
full_heap log n = none

abbrev queue_of : Outcome (HttpParams × HttpServer) → List Packet
queue_of (fine (params, http)) = http.queue
queue_of (wrong log) = []

file_queued :
    queue_of (run platform save_name heap (request req ∷ []) (buffer, idle))
    ≡ record { frame_id = 1; payload = text "abc"; ptr = none } ∷ []
unfolding run text_eq find_field item get_int_val_from_json get_obj_buf_from_json parse_doc
file_queued = refl

-- After a call of malloc that failed the next request is written through the null pointer.
null_written :
    run platform save_name full_heap (request req ∷ request req ∷ []) (buffer, idle)
    ≡ wrong ((1024, false) ∷ [])
unfolding run text_eq
null_written = refl

abbrev events : List (Event platform save_name heap)
events = request req ∷ process ∷ request req ∷ []
