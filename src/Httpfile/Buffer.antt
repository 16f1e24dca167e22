-- ===== src/Httpfile/Buffer.antt =====
-- plugins/official/httpfile/httpfile.cpp: the buffer of a server thread, which HttpRequest makes anew
-- where a request needs more, and which it fills. malloc is a parameter.
use aistream.Base.{
  ℕ, zero, suc, ◌+◌, ◌-◌, ◌*◌, ◌/◌, ◌^◌, ltb, if◌then◌else◌, not, Bool, true, false, Option, none,
  some, ◌>>=◌, is_none, List, [], ◌∷◌, length, ℤ, pos, negsuc, negate,
}

-- The calls of malloc: the size, and whether there was room; newest first.
abbrev pub Log : Type 0
Log = List (ℕ × Bool)

-- `body` is the block that malloc gave, with what is in it, or none for a null pointer.
pub record HttpParams : Type 0 where
  pub size : ℤ
  pub body : Option (List ℕ)
  pub mallocs : Log

unfoldable pub int_less : ℤ → ℤ → Bool
int_less (pos m) (pos n) = ltb m n
int_less (pos m) (negsuc n) = false
int_less (negsuc m) (pos n) = true
int_less (negsuc m) (negsuc n) = ltb n m

-- An int as a size_t.
unfoldable pub size_t : ℤ → ℕ
size_t (pos n) = n
size_t (negsuc n) = 2 ^ 64 - (n + 1)

-- A number below 2 ^ 32 as an int.
unfoldable pub wrap : ℕ → ℤ
wrap n = if ltb n (2 ^ 31) then pos n else negsuc (2 ^ 32 - n - 1)

-- (content_length>>10<<10) + 1024
unfoldable pub new_size : ℤ → ℤ
unfolding wrap
new_size (pos n) = wrap (n / 1024 * 1024 + 1024)
new_size (negsuc n) = negate (pos (n / 1024 * 1024))

-- evbuffer_remove with room for n bytes: the block then and the bytes that are left; none is a write
-- behind the block.
unfoldable pub overwrite : ℕ → List ℕ → List ℕ → Option (List ℕ × List ℕ)
overwrite zero bytes block = some (block, bytes)
overwrite (suc n) [] block = some (block, [])
overwrite (suc n) (c ∷ bytes) [] = none
overwrite (suc n) (c ∷ bytes) (x ∷ block) = do
  (block', rest) ← overwrite n bytes block
  some (c ∷ block', rest)

-- The loop over the request's bytes in at most k rounds; each round that takes a byte makes the rest
-- shorter, so a loop of more rounds than bytes does not end.
unfoldable pub fill : ℕ → ℕ → List ℕ → List ℕ → Option (List ℕ)
unfolding overwrite
fill k n [] block = some block
fill zero n (c ∷ bytes) block = none
fill (suc k) n (c ∷ bytes) block = do
  (block', rest) ← overwrite n (c ∷ bytes) block
  fill k n rest block'

-- The loop on the buffer: none where it does not end, or writes through a null pointer or behind
-- the block.
unfoldable pub fill_buffer : List ℕ → HttpParams → Option HttpParams
unfolding fill size_t
fill_buffer bytes params = do
  block ← params.body
  block' ← fill (length bytes) (size_t params.size) bytes block
  some (record params { body = some block' })

-- The buffer with the size and the block that malloc gave for it, and whether HttpRequest goes on:
-- it does not where malloc failed.
unfoldable pub renew : ℤ → HttpParams → Option (List ℕ) → HttpParams × Bool
unfolding size_t
renew size params block = (
  record {
    size = size;
    body = block;
    mallocs = (size_t size, not (is_none block)) ∷ params.mallocs;
  },
  not (is_none block),
)

module _ (malloc : Log → ℕ → Option (List ℕ)) where
  unfoldable pub fit_buffer : ℤ → HttpParams → HttpParams × Bool
  unfolding int_less new_size renew
  fit_buffer content_length params =
      let size = new_size content_length in
      if int_less params.size content_length
      then renew size params (malloc params.mallocs (size_t size))
      else (params, true)
