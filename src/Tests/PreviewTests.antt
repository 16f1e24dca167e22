-- ===== src/Tests/PreviewTests.antt =====
-- plugins/official/preview/preview.cpp at concrete inputs.
use aistream.Base.{
  ℕ, ◌+◌, ◌≤◌, ◌≡◌, refl, true, false, none, some, List, [], ◌∷◌, arith, Text, text, text_eq, leb,
  if◌then◌else◌, inl, ◌&&◌,
}
use aistream.Base.{pos, int_eq}
use aistream.Preview.{
  Directory, hls_list_num, ts_size_max, latest_num, del_old_ts_file, Packet, read_loop,
}
use aistream.Preview.Files.{IsCleared, del_old_ts_file_clears}
use aistream.Preview.Objects.{
  PreviewConfig, write, preview_start, preview_stop, daemon_round, preview_stop_dangles,
}

abbrev playlist : Text
playlist =
    text
      "#EXTM3U\n#EXT-X-TARGETDURATION:2\n#EXT-X-MEDIA-SEQUENCE:8\n#EXTINF:2.0,\nplay8.ts\n#EXTINF:2.0,\nplay9.ts\n"

playlist-latest : latest_num playlist ≡ some 9
unfolding latest_num text_eq
playlist-latest = refl

-- The files 2 to 9.
abbrev dir : Directory
dir = record { m3u8 = some playlist; ts = λ k. if leb 2 k && leb k 9 then some 400000 else none }

dir-IsCleared : IsCleared 4 dir
dir-IsCleared k h = ground arith

del_old_ts_file_clears_example :
    IsCleared 9 (del_old_ts_file (record { last_ts_num = 6; last_ts_same_cnt = 3 }) dir).1
    × ((k size : ℕ)
        → 9 ≤ k + hls_list_num
        → dir.ts k ≡ some size
        → size ≤ ts_size_max
        → (del_old_ts_file (record { last_ts_num = 6; last_ts_same_cnt = 3 }) dir).1.ts k
          ≡ some size)
del_old_ts_file_clears_example =
    del_old_ts_file_clears (record { last_ts_num = 6; last_ts_same_cnt = 3 }) dir 4 9
      (playlist, refl, refl, playlist-latest) dir-IsCleared (omega arith) (omega arith)

abbrev frame : ℕ → ℕ → Packet
frame n nal = record { frame_id = n; payload = 0 ∷ 0 ∷ 0 ∷ 1 ∷ nal ∷ n ∷ [] }

-- The first packet is no key frame.
abbrev waiting : List Packet
waiting = frame 1 65 ∷ frame 2 103 ∷ frame 3 65 ∷ []

first_read : (read_loop 4 false 0 waiting).1 ≡ some (0 ∷ 0 ∷ 0 ∷ 1 ∷ [])
unfolding read_loop
first_read = refl

abbrev empty : PreviewConfig
empty = record { obj_vec = []; preview_at = λ p. none; next = 0 }

abbrev one : PreviewConfig
one = record {
  obj_vec = 0 ∷ [];
  preview_at =
      λ p. some (record { id = pos 7; kind = text "hls"; running = true; thread_running = true });
  next = 1;
}

started : (preview_start (pos 7) (some (text "hls")) empty).0.obj_vec ≡ 0 ∷ []
unfolding preview_start text_eq
started = refl

abbrev after : PreviewConfig
after = record one {
  preview_at = write 0 none (
      write 0
        (some (record { id = pos 7; kind = text "hls"; running = false; thread_running = false }))
        one.preview_at);
}

stop-after : preview_stop 0 one ≡ some after
unfolding preview_stop int_eq
stop-after = refl

preview_stop_dangles_example : daemon_round after.obj_vec after.preview_at ≡ none
preview_stop_dangles_example = preview_stop_dangles 0 one after stop-after (inl refl)
