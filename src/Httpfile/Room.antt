-- ===== src/Httpfile/Room.antt =====
-- plugins/official/httpfile/httpfile.cpp: a request's bytes have room in the buffer.
use aistream.Base.{
  ℕ, zero, suc, ◌+◌, ◌*◌, ◌/◌, ◌^◌, ◌≤◌, ◌<◌, ◌≡◌, refl, sym, ap, ltb, if◌then◌else◌, ◌⊎◌, Bool,
  true, false, ◌||◌, not, Option, none, some, List, [], ◌∷◌, length, inl, inr, arith, Bool-cases, ℤ,
  pos, negsuc, negate,
}
use aistream.Httpfile.Buffer.{
  Log, HttpParams, int_less, size_t, wrap, new_size, overwrite, fill, fill_buffer, fit_buffer,
  renew,
}

-- A call of malloc found no room.
abbrev pub has_failed : Log → Bool
has_failed [] = false
has_failed ((n, granted) ∷ log) = not granted || has_failed log

-- The block has the size that is noted. There is none before the first malloc and after one that
-- failed only.
abbrev pub Fits : HttpParams → Type 0
Fits params = elim params.body [
  | none ↦ (params.size ≡ pos 0) ⊎ (has_failed params.mallocs ≡ true)
  | some block ↦ params.size ≡ pos (length block)
]

-- malloc gives a block of the size, and none where it is 2^63 or more.
pub record MallocLaws (malloc : Log → ℕ → Option (List ℕ)) : Type 0 where
  pub sized : (log : Log) (n : ℕ) (block : List ℕ) → malloc log n ≡ some block → length block ≡ n
  pub limited : (log : Log) (n : ℕ) (block : List ℕ) → malloc log n ≡ some block → n < 2 ^ 63

overwrite_lem :
    (n : ℕ) (bytes block : List ℕ)
    → length bytes ≤ n
    → length bytes ≤ length block
    → (block' : List ℕ) × (overwrite n bytes block ≡ some (block', []))
      × (length block' ≡ length block)
unfolding overwrite
overwrite_lem zero [] block h l = (block, refl, refl)
overwrite_lem zero (c ∷ bytes) block h l = absurd (omega arith)
overwrite_lem (suc n) [] block h l = (block, refl, refl)
overwrite_lem (suc n) (c ∷ bytes) [] h l = absurd (omega arith)
overwrite_lem (suc n) (c ∷ bytes) (x ∷ block) h l =
    let (block', e, same) = overwrite_lem n bytes block (omega arith) (omega arith) in
    (c ∷ block', rw e refl, ap suc same)

fill_lem :
    (n : ℕ) (bytes block : List ℕ)
    → length bytes ≤ n
    → length bytes ≤ length block
    → (block' : List ℕ) × (fill (length bytes) n bytes block ≡ some block')
      × (length block' ≡ length block)
unfolding fill
fill_lem n [] block h l = (block, refl, refl)
fill_lem n (c ∷ bytes) block h l =
    let (block', e, same) = overwrite_lem n (c ∷ bytes) block h l in (block', rw e refl, same)

-- The bytes of a request go into a buffer with room for them.
pub fill_buffer_lem :
    (bytes block : List ℕ) (params : HttpParams)
    → params.body ≡ some block
    → params.size ≡ pos (length block)
    → length bytes ≤ length block
    → (block' : List ℕ) × (fill_buffer bytes params ≡ some (record params { body = some block' }))
      × (length block' ≡ length block)
unfolding fill_buffer size_t
fill_buffer_lem bytes block params b s l =
    let (block', e, same) = fill_lem (length block) bytes block l l in
    (block', rw (b, s, fill_buffer) (rw e refl), same)

-- The sizes that an int can have.
abbrev pub IsInt : ℤ → Type 0
IsInt (pos n) = Unit
IsInt (negsuc n) = n < 2 ^ 31

-- The bytes that a length stands for.
abbrev pub extent : ℤ → ℕ
extent (pos n) = n
extent (negsuc n) = 0

wrap-IsInt : (n : ℕ) → IsInt (wrap n)
unfolding wrap
wrap-IsInt n = elim (Bool-cases (ltb n (2 ^ 31))) [ inl e ↦ rw e tt | inr e ↦ rw e (ground arith) ]

negate-IsInt : (n : ℕ) → n ≤ 2 ^ 31 → IsInt (negate (pos n))
negate-IsInt zero h = tt
negate-IsInt (suc n) h = let e : ltb 0 (suc n) ≡ true = ground arith in rw e (omega (arith, h))

new_size-IsInt : (n : ℤ) → IsInt n → IsInt (new_size n)
unfolding new_size
new_size-IsInt (pos n) h = wrap-IsInt (n / 1024 * 1024 + 1024)
new_size-IsInt (negsuc n) h = negate-IsInt (n / 1024 * 1024) (omega arith)

-- A size for which malloc gives a block is not negative.
granted_size : (size : ℤ) (n : ℕ) → IsInt size → n ≡ size_t size → n < 2 ^ 63 → size ≡ pos n
unfolding size_t
granted_size (pos k) n i e l = ap pos (sym e)
granted_size (negsuc k) n i e l = absurd (omega arith)

wrap-extent : (n k : ℕ) → wrap n ≡ pos k → n ≡ k
unfolding wrap
wrap-extent n k e = ground (arith, e)

new_size-extent : (n : ℤ) (k : ℕ) → new_size n ≡ pos k → extent n ≤ k
unfolding new_size
new_size-extent (pos n) k e =
    let same = wrap-extent (n / 1024 * 1024 + 1024) k e in omega (arith, same)
new_size-extent (negsuc n) k e = omega arith

less-extent : (n : ℤ) (k : ℕ) → int_less (pos k) n ≡ false → extent n ≤ k
unfolding int_less
less-extent (pos n) k e = ground arith
less-extent (negsuc n) k e = omega arith

-- A buffer with room for a request of the length.
abbrev pub HasRoom : ℤ → HttpParams → Type 0
HasRoom n params = Fits params × (elim params.body [
  | none ↦ (extent n ≡ 0) ⊎ (has_failed params.mallocs ≡ true)
  | some block ↦ extent n ≤ length block
])

kept-HasRoom :
    (n size : ℤ) (body : Option (List ℕ)) (log : Log)
    → int_less size n ≡ false
    → Fits (record { size = size; body = body; mallocs = log })
    → HasRoom n (record { size = size; body = body; mallocs = log })
kept-HasRoom n size none log kept (inr failed) = (inr failed, inr failed)
kept-HasRoom n size none log kept (inl e) =
    let small = less-extent n 0 (rw e at kept) in (inl e, inl (omega (arith, small)))
kept-HasRoom n size (some block) log kept e = (e, less-extent n (length block) (rw e at kept))

if-HasRoom :
    (b : Bool) (n : ℤ) (s t : HttpParams × Bool)
    → HasRoom n s.0
    → (b ≡ false → HasRoom n t.0)
    → HasRoom n (if b then s else t).0
if-HasRoom true n s t h k = h
if-HasRoom false n s t h k = k refl

module _ (malloc : Log → ℕ → Option (List ℕ)) (laws : MallocLaws malloc) where
  renew-HasRoom :
      (n : ℤ) (params : HttpParams) (block : Option (List ℕ))
      → IsInt n
      → malloc params.mallocs (size_t (new_size n)) ≡ block
      → HasRoom n (renew (new_size n) params block).0
  unfolding renew
  renew-HasRoom n params none i e = (inr refl, inr refl)
  renew-HasRoom n params (some block) i e =
      let sized = laws.sized params.mallocs (size_t (new_size n)) block e in
      let limited = laws.limited params.mallocs (size_t (new_size n)) block e in
      let size =
        granted_size (new_size n) (length block) (new_size-IsInt n i) sized
          (omega (arith, sized, limited)) in
      (size, new_size-extent n (length block) size)

  pub fit_buffer_lem :
      (n : ℤ) (params : HttpParams)
      → IsInt n
      → Fits params
      → HasRoom n (fit_buffer malloc n params).0
  unfolding fit_buffer
  fit_buffer_lem n params i f =
      if-HasRoom (int_less params.size n) n _ _ (renew-HasRoom n params _ i refl)
        (λ kept. kept-HasRoom n params.size params.body params.mallocs kept f)
