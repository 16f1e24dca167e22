-- ===== src/Clean.antt =====
-- src/share.cpp: IsDateStr, CheckTime and DelOldFile, which removes old images day by day. mktime is
-- a parameter, of the three numbers of a name; the clock is in seconds.
pub mod Age
pub mod Keep
use aistream.Base.{
  ℕ, zero, suc, ◌+◌, ◌-◌, ◌*◌, ◌%◌, ◌^◌, Bool, true, false, ◌&&◌, ◌||◌, not, if◌then◌else◌, [], ◌∷◌,
  Text, ltb, leb, ◌==◌, Option, none, some, ◌>>=◌, length, ℤ, pos, negsuc, negate,
}

-- A directory's entries but for "." and "..": files, and directories with their own entries.
pub data Entries : Type 0 where
  done : Entries
  file : (name : Text) → Entries → Entries
  folder : (name : Text) → (inside : Entries) → Entries → Entries

abbrev is_digit : ℕ → Bool
is_digit c = leb 48 c && leb c 57

unfoldable pub count_digits : Text → ℕ
count_digits [] = 0
count_digits (c ∷ cs) = let n = count_digits cs in if is_digit c then suc n else 0

-- The name of an entry has no '/', so the search for the last one starts at the name itself.
unfoldable pub is_date_str : Text → Bool
unfolding count_digits
is_date_str name = count_digits name == 8

abbrev is_space : ℕ → Bool
is_space c = c == 32 || (leb 9 c && leb c 13)

unfoldable pub skip_space : Text → Text
skip_space [] = []
skip_space (c ∷ cs) = let rest = skip_space cs in if is_space c then rest else c ∷ cs

-- The number that at most k digits at the start of a text give after those of n, and the rest.
unfoldable pub read_number : ℕ → Text → ℕ → ℕ × Text
read_number zero cs n = (n, cs)
read_number (suc k) [] n = (n, [])
read_number (suc k) (c ∷ cs) n =
    let more = read_number k cs (n * 10 + (c - 48)) in if is_digit c then more else (n, c ∷ cs)

-- At least one digit.
unfoldable pub scan_digits : ℕ → Text → Option (ℕ × Text)
unfolding read_number
scan_digits width cs =
    let (n, rest) = read_number width cs 0 in
    if length rest == length cs then none else some (n, rest)

-- "%d" with a width, which the sign counts for.
unfoldable pub scan_int : ℕ → Text → Option (ℤ × Text)
unfolding skip_space scan_digits
scan_int width text = elim (skip_space text) [
  | [] ↦ none
  | (c ∷ cs) ↦
      if c == b'-'
      then (do (n, rest) ← scan_digits (width - 1) cs; some (negate (pos n), rest))
      else if c == b'+'
      then (do (n, rest) ← scan_digits (width - 1) cs; some (pos n, rest))
      else do (n, rest) ← scan_digits width (c ∷ cs); some (pos n, rest)
]

-- sscanf with "%4d%2d%2d", where it finds three numbers.
unfoldable pub read_date : Text → Option (ℤ × ℤ × ℤ)
unfolding scan_int
read_date name = do
  (year, name1) ← scan_int 4 name
  (mon, name2) ← scan_int 2 name1
  (mday, name3) ← scan_int 2 name2
  some (year, mon, mday)

-- uint32_t l = now - t
unfoldable pub age : ℕ → ℤ → ℕ
age now (pos t) = if leb t now then (now - t) % 2 ^ 32 else (2 ^ 32 - (t - now) % 2 ^ 32) % 2 ^ 32
age now (negsuc t) = (now + (t + 1)) % 2 ^ 32

abbrev after_1900 : ℤ → Bool
after_1900 (pos year) = leb 1901 year
after_1900 (negsuc year) = false

-- CheckTime gives 0. Years up to 1900 are not dates.
unfoldable pub check_time : (ℤ → ℤ → ℤ → ℤ) → ℕ → ℕ → Text → Bool
unfolding read_date age
check_time mktime max_sec now name = elim (read_date name) [
  | none ↦ false
  | some (year, mon, mday) ↦ after_1900 year && ltb max_sec (age now (mktime year mon mday))
]

-- The test at the start of DelOldFile on a directory of the first layer.
unfoldable pub is_old : (ℤ → ℤ → ℤ → ℤ) → ℕ → ℕ → Text → Bool
unfolding is_date_str check_time
is_old mktime max_sec now name = is_date_str name && check_time mktime max_sec now name

unfoldable pub has_prefix : Text → Text → Bool
has_prefix [] cs = true
has_prefix (s ∷ ss) [] = false
has_prefix (s ∷ ss) (c ∷ cs) = (s == c) && has_prefix ss cs

-- strstr finds the suffix, anywhere in the name.
unfoldable pub strstr : Text → Text → Bool
unfolding has_prefix
strstr suffix [] = has_prefix suffix []
strstr suffix (c ∷ cs) =
    let rest = strstr suffix cs in if has_prefix suffix (c ∷ cs) then true else rest

-- The loop of DelOldFile in a directory of the layer, where `old` is the test on directories of the
-- first layer: the entries that are left, and what `count` is at the end, less "." and "..". A
-- directory that goes stays counted in its parent.
unfoldable pub del_loop : (Text → Bool) → Text → ℕ → Entries → Entries × ℕ
unfolding strstr
del_loop old suffix layer done = (done, 0)
del_loop old suffix layer (file name rest) =
    let (rest', count) = del_loop old suffix layer rest in
    if ltb 1 layer && strstr suffix name then (rest', count) else (file name rest', count + 1)
del_loop old suffix layer (folder name inside rest) =
    let (rest', count) = del_loop old suffix layer rest in
    let (inside', inner) = del_loop old suffix (layer + 1) inside in
    if (layer == 1) && not (old name)
    then (folder name inside rest', count + 1)
    else if inner == 0
    then (rest', count + 1)
    else (folder name inside' rest', count + 1)

-- DelOldFile on the image directory itself, which is layer 0 and stays.
unfoldable pub del_old_file : (ℤ → ℤ → ℤ → ℤ) → ℕ → ℕ → Text → Entries → Entries
unfolding is_old del_loop
del_old_file mktime max_sec now suffix root = (del_loop (is_old mktime max_sec now) suffix 1 root).0
