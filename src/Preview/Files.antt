-- ===== src/Preview/Files.antt =====
-- plugins/official/preview/preview.cpp: which video files DelOldTsFile leaves.
use aistream.Base.{
  ℕ, zero, suc, ◌+◌, ◌-◌, ◌≤◌, ◌<◌, ◌≡◌, ◌≢◌, refl, ltb, if◌then◌else◌, Bool, true, false, none,
  some, option, Text, inl, inr, ◌⊎◌, arith, Bool-cases, length, ap, sym, ◌∙◌,
}
use mathlib.Core.Bool.{true≢false}
use aistream.Preview.{
  Directory, hls_list_num, ts_size_max, remove_ts, latest_num, remove_old, remove_large, Watch,
  watch_playlist, clear_files, remove_playlist, clear_by, del_old_ts_file,
}

remove_ts-other : (n k : ℕ) (dir : Directory) → k ≢ n → (remove_ts n dir).ts k ≡ dir.ts k
unfolding remove_ts
remove_ts-other n k dir h = ground arith

remove_ts-gone :
    (n k : ℕ) (dir : Directory) → (k ≡ n) ⊎ (dir.ts k ≡ none) → (remove_ts n dir).ts k ≡ none
unfolding remove_ts
remove_ts-gone n k dir (inl e) = ground arith
remove_ts-gone n k dir (inr e) = ground arith

remove_old-other :
    (j latest k : ℕ) (dir : Directory)
    → latest ≤ k + hls_list_num
    → (remove_old j latest dir).ts k ≡ dir.ts k
unfolding remove_old
remove_old-other zero latest k dir h = refl
remove_old-other (suc j) latest k dir h = elim (Bool-cases (ltb latest (hls_list_num + suc j))) [
  | inl b ↦ rw b (remove_old-other j latest k dir h)
  | inr b ↦ rw b (
      remove_ts-other (latest - hls_list_num - suc j) k (remove_old j latest dir)
        (λ e. ground arith)
      ∙ remove_old-other j latest k dir h)
]

-- What was gone stays gone, and the files of the j segments before the last two go.
remove_old-gone :
    (j latest k : ℕ) (dir : Directory)
    → (dir.ts k ≡ none) ⊎ ((k + hls_list_num < latest) × (latest ≤ k + hls_list_num + j))
    → (remove_old j latest dir).ts k ≡ none
unfolding remove_old
remove_old-gone zero latest k dir (inl e) = e
remove_old-gone zero latest k dir (inr h) = absurd (omega arith)
remove_old-gone (suc j) latest k dir (inl e) =
    elim (Bool-cases (ltb latest (hls_list_num + suc j))) [
      | inl b ↦ rw b (remove_old-gone j latest k dir (inl e))
      | inr b ↦ rw b (
          remove_ts-gone (latest - hls_list_num - suc j) k (remove_old j latest dir)
            (inr (remove_old-gone j latest k dir (inl e))))
    ]
remove_old-gone (suc j) latest k dir (inr (lo, hi)) =
    elim (Bool-cases (ltb latest (hls_list_num + suc j))) [
      | inl b ↦ rw b (remove_old-gone j latest k dir (inr (lo, ground arith)))
      | inr b ↦ rw b (
          remove_ts-gone (latest - hls_list_num - suc j) k (remove_old j latest dir)
            (elim (Bool-cases (ltb (k + hls_list_num + j) latest)) [
              | inl c ↦ inl (ground arith)
              | inr c ↦ inr (remove_old-gone j latest k dir (inr (lo, ground arith)))
            ]))
    ]

remove_large-kept :
    (n from k size : ℕ) (dir : Directory)
    → dir.ts k ≡ some size
    → size ≤ ts_size_max
    → (remove_large n from dir).ts k ≡ some size
unfolding remove_large
remove_large-kept zero from k size dir e h = e
remove_large-kept (suc n) from k size dir e h =
    let ih = remove_large-kept n from k size dir e h in
    let dir' = remove_large n from dir in
    elim (Bool-cases (ltb ts_size_max (option 0 (λ s. s) (dir'.ts (from + n))))) [
      | inl b ↦ rw b (
          remove_ts-other (from + n) k dir'
            (λ f. absurd (true≢false (sym b ∙ rw (← f, ih) (ground arith))))
          ∙ ih)
      | inr b ↦ rw b ih
    ]

remove_large-gone :
    (n from k : ℕ) (dir : Directory) → dir.ts k ≡ none → (remove_large n from dir).ts k ≡ none
unfolding remove_large
remove_large-gone zero from k dir e = e
remove_large-gone (suc n) from k dir e =
    let ih = remove_large-gone n from k dir e in
    let dir' = remove_large n from dir in
    elim (Bool-cases (ltb ts_size_max (option 0 (λ s. s) (dir'.ts (from + n))))) [
      | inl b ↦ rw b (remove_ts-gone (from + n) k dir' (inr ih))
      | inr b ↦ rw b ih
    ]

remove_playlist-ts :
    (stale : Bool) (dir : Directory) (k : ℕ) → (remove_playlist stale dir).ts k ≡ dir.ts k
unfolding remove_playlist
remove_playlist-ts true dir k = refl
remove_playlist-ts false dir k = refl

-- The directory after the first of the two loops.
abbrev after_old : ℕ → Directory → Directory
after_old latest dir = if ltb 5 latest then remove_old 5 latest dir else dir

clear_files-kept :
    (latest : ℕ) (watch : Watch) (dir : Directory) (k size : ℕ)
    → latest ≤ k + hls_list_num
    → dir.ts k ≡ some size
    → size ≤ ts_size_max
    → (clear_files latest watch dir).1.ts k ≡ some size
unfolding clear_files
clear_files-kept latest watch dir k size h e small =
    remove_large-kept 3 latest k size
      (remove_playlist (watch_playlist latest watch).1 (after_old latest dir))
      (remove_playlist-ts (watch_playlist latest watch).1 (after_old latest dir) k ∙ old) small
  where
    old : (after_old latest dir).ts k ≡ some size
    old = elim (Bool-cases (ltb 5 latest)) [
      | inl b ↦ rw b (remove_old-other 5 latest k dir h ∙ e)
      | inr b ↦ rw b e
    ]

clear_files-gone :
    (latest : ℕ) (watch : Watch) (dir : Directory) (k : ℕ)
    → 5 < latest
    → (dir.ts k ≡ none) ⊎ ((k + hls_list_num < latest) × (latest ≤ k + hls_list_num + 5))
    → (clear_files latest watch dir).1.ts k ≡ none
unfolding clear_files
clear_files-gone latest watch dir k h g =
    let b : ltb 5 latest ≡ true = ground arith in
    remove_large-gone 3 latest k
      (remove_playlist (watch_playlist latest watch).1 (after_old latest dir))
      (remove_playlist-ts (watch_playlist latest watch).1 (after_old latest dir) k
        ∙ rw b (remove_old-gone 5 latest k dir g))

-- The playlist of the directory is long enough and names the file number `latest` last.
abbrev pub Names : Directory → ℕ → Type 0
Names dir latest =
    (buf : Text) × (dir.m3u8 ≡ some buf)
    × (ltb 64 (length buf) ≡ true)
    × (latest_num buf ≡ some latest)

clear_by-latest :
    (watch : Watch) (dir : Directory) (latest : ℕ) (buf : Text)
    → ltb 64 (length buf) ≡ true
    → latest_num buf ≡ some latest
    → clear_by watch dir buf ≡ clear_files latest watch dir
unfolding clear_by
clear_by-latest watch dir latest buf long n = rw (long, n, clear_by) refl

del_old_clears :
    (watch : Watch) (dir : Directory) (latest : ℕ)
    → Names dir latest
    → del_old_ts_file watch dir ≡ clear_files latest watch dir
unfolding del_old_ts_file
del_old_clears watch dir latest (buf, e, long, n) =
    ap (option (watch, remove_large 3 0 dir) (clear_by watch dir)) e
    ∙ clear_by-latest watch dir latest buf long n

-- No file stands there that is older than the two before the file `latest`.
abbrev pub IsCleared : ℕ → Directory → Type 0
IsCleared latest dir = (k : ℕ) → k + hls_list_num < latest → dir.ts k ≡ none

-- If the directory was clear at the file number `before`, and the playlist has gone on by five files
-- at most to one above the number 5, it is clear at the playlist's last file after the call; and of
-- the last two files and those after them none is removed but one of more than 30000000 bytes.
pub del_old_ts_file_clears :
    (watch : Watch) (dir : Directory) (before latest : ℕ)
    → Names dir latest
    → IsCleared before dir
    → latest ≤ before + 5
    → 5 < latest
    → IsCleared latest (del_old_ts_file watch dir).1
      × ((k size : ℕ)
          → latest ≤ k + hls_list_num
          → dir.ts k ≡ some size
          → size ≤ ts_size_max
          → (del_old_ts_file watch dir).1.ts k ≡ some size)
del_old_ts_file_clears watch dir before latest names clear near large =
    rw (del_old_clears watch dir latest names) (
      λ k h.
          clear_files-gone latest watch dir k large
            (old k h (Bool-cases (ltb (k + hls_list_num) before))),
      λ k size h e small. clear_files-kept latest watch dir k size h e small,
    )
  where
    old :
        (k : ℕ)
        → k + hls_list_num < latest
        → (ltb (k + hls_list_num) before ≡ true) ⊎ (ltb (k + hls_list_num) before ≡ false)
        → (dir.ts k ≡ none) ⊎ ((k + hls_list_num < latest) × (latest ≤ k + hls_list_num + 5))
    old k h (inl b) = inl (clear k (ground arith))
    old k h (inr b) = inr (h, ground arith)
