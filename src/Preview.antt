-- ===== src/Preview.antt =====
-- plugins/official/preview/preview.cpp: the queue of packets of a stream, the clearing of its video
-- files, and the table of the streams. The demuxer and the muxer are ffmpeg's.
pub mod Queue
pub mod Files
pub mod Objects
use aistream.Base.{
  ℕ, zero, suc, ◌+◌, ◌-◌, ◌*◌, ◌%◌, ltb, ◌==◌, if◌then◌else◌, Bool, true, false, not, ◌||◌, Option,
  none, some, option, List, [], ◌∷◌, ◌++◌, Text, text, text_eq, length, get_elem?, take,
}

-- The number 3 of HLS files that are looked at, HLS_LIST_NUM, and the size of a file that is wrong.
abbrev pub hls_list_num : ℕ
hls_list_num = 2

abbrev pub ts_size_max : ℕ
ts_size_max = 30_000_000

-- The directory of a stream: the first 256 bytes of play.m3u8, and the size of play<n>.ts, where
-- these files exist.
pub record Directory : Type 0 where
  pub m3u8 : Option Text
  pub ts : ℕ → Option ℕ

unfoldable pub remove_ts : ℕ → Directory → Directory
remove_ts n dir = record dir { ts = λ k. if k == n then none else dir.ts k }

-- The way back from p1 to the end of the line before the last: the index, with the tries that are
-- left. `at i` is buf[i].
unfoldable pub seek_line : ℕ → ℕ → (ℕ → ℕ) → Option ℕ
seek_line zero p1 at = none
seek_line (suc try_cnt) p1 at = elim (at p1 == b'\r' || at p1 == b'\n') [
  | true ↦ some p1
  | false ↦ seek_line try_cnt (p1 - 1) at
]

-- The bytes from an index on, and strstr for ".ts": what stands before it.
unfoldable pub drop : ℕ → Text → Text
drop zero buf = buf
drop (suc n) [] = []
drop (suc n) (c ∷ buf) = drop n buf

unfoldable pub before_ts : Text → Option Text
before_ts [] = none
before_ts (c ∷ rest) =
    let later = before_ts rest in
    if text_eq (take 3 (c ∷ rest)) (text ".ts")
    then some []
    else option none (λ t. some (c ∷ t)) later

-- atoi of a text that starts with a digit, or 0.
unfoldable pub atoi_from : ℕ → Text → ℕ
atoi_from n [] = n
atoi_from n (c ∷ rest) =
    let more = atoi_from (n * 10 + (c - b'0')) rest in if ltb c b'0' || ltb b'9' c then n else more

abbrev byte_at : Text → ℕ → ℕ
byte_at buf i = option 0 (λ c. c) (get_elem? buf i)

-- The number of the last file that play.m3u8 names.
unfoldable pub latest_num : Text → Option ℕ
unfolding seek_line drop before_ts atoi_from
latest_num buf =
    option none
      (λ p1. option none (λ digits. some (atoi_from 0 digits)) (before_ts (drop (p1 + 1 + 4) buf)))
      (seek_line 48 (length buf - 2) (byte_at buf))

-- The loop over j = 1 to 5.
unfoldable pub remove_old : ℕ → ℕ → Directory → Directory
unfolding remove_ts
remove_old zero latest dir = dir
remove_old (suc j) latest dir =
    let dir' = remove_old j latest dir in
    if ltb latest (hls_list_num + suc j)
    then dir'
    else remove_ts (latest - hls_list_num - suc j) dir'

-- The loop over k = 0 to 2.
unfoldable pub remove_large : ℕ → ℕ → Directory → Directory
unfolding remove_ts
remove_large zero from dir = dir
remove_large (suc k) from dir =
    let dir' = remove_large k from dir in
    if ltb ts_size_max (option 0 (λ s. s) (dir'.ts (from + k)))
    then remove_ts (from + k) dir'
    else dir'

pub record Watch : Type 0 where
  pub last_ts_num : ℕ
  pub last_ts_same_cnt : ℕ

-- The test for a playlist that no longer changes: the counters, and whether it is removed.
unfoldable pub watch_playlist : ℕ → Watch → Watch × Bool
watch_playlist latest watch = elim (latest == watch.last_ts_num) [
  | false ↦ (record { last_ts_num = latest; last_ts_same_cnt = 0 }, false)
  | true ↦
      if ltb 360 (watch.last_ts_same_cnt + 1)
      then (record watch { last_ts_same_cnt = 0 }, true)
      else (record watch { last_ts_same_cnt = watch.last_ts_same_cnt + 1 }, false)
]

unfoldable pub remove_playlist : Bool → Directory → Directory
remove_playlist true dir = record dir { m3u8 = none }
remove_playlist false dir = dir

-- DelOldTsFile from the number of the last file on.
unfoldable pub clear_files : ℕ → Watch → Directory → Watch × Directory
unfolding remove_old remove_large watch_playlist remove_playlist
clear_files latest watch dir =
    let old = if ltb 5 latest then remove_old 5 latest dir else dir in
    let (watch', stale) = watch_playlist latest watch in
    (watch', remove_large 3 latest (remove_playlist stale old))

-- DelOldTsFile on a playlist that exists.
unfoldable pub clear_by : Watch → Directory → Text → Watch × Directory
unfolding latest_num clear_files
clear_by watch dir buf = elim (ltb 64 (length buf)) [
  | false ↦ (watch, dir)
  | true ↦ option (watch, dir) (λ latest. clear_files latest watch dir) (latest_num buf)
]

-- DelOldTsFile.
unfoldable pub del_old_ts_file : Watch → Directory → Watch × Directory
unfolding clear_by remove_large
del_old_ts_file watch dir = option (watch, remove_large 3 0 dir) (clear_by watch dir) dir.m3u8

pub record Packet : Type 0 where
  pub frame_id : ℕ
  pub payload : List ℕ

-- The reader's part of PreviewParams.
pub record Reader : Type 0 where
  pub find_idr : Bool
  pub frame_id : ℕ
  pub queue : List Packet

-- The low five bits of the fifth byte are not 1.
abbrev pub is_idr : Packet → Bool
is_idr pkt = not (option 0 (λ c. c) (get_elem? pkt.payload 4) % 32 == 1)

-- ReadVideoPacket on the packets that are in the queue: the bytes that it copies, or none where it
-- has taken them all and waits. Before the first key frame packets are dropped.
unfoldable pub read_loop : ℕ → Bool → ℕ → List Packet → Reader × Option (List ℕ)
read_loop size found frame_id [] =
    (record { find_idr = found; frame_id = frame_id; queue = [] }, none)
read_loop size found frame_id (pkt ∷ queue) =
    let found = found || is_idr pkt in
    elim found [
      | false ↦ read_loop size false frame_id queue
      | true ↦ elim (length pkt.payload == 0 || size == 0) [
        | true ↦ read_loop size true pkt.frame_id queue
        | false ↦ (
          record { find_idr = true; frame_id = pkt.frame_id; queue = queue },
          some (if ltb (length pkt.payload) size then pkt.payload else take size pkt.payload),
        )
      ]
    ]

abbrev pub read_video_packet : ℕ → Reader → Reader × Option (List ℕ)
read_video_packet size reader = read_loop size reader.find_idr reader.frame_id reader.queue

-- PreviewProcess of a running preview.
unfoldable pub preview_process : ℕ → Packet → Reader → Reader
preview_process queue_len pkt reader =
    if ltb (length reader.queue) queue_len
    then record reader { queue = reader.queue ++ pkt ∷ [] }
    else reader
