-- ===== src/Clean/Keep.antt =====
-- DelOldFile of src/share.cpp: what it leaves and what it removes.
use aistream.Base.{
  ℤ, ℕ, ◌+◌, ◌<◌, ◌≡◌, refl, ap, Bool, true, false, if◌then◌else◌, Text, ltb, ◌==◌, arith, inl, inr,
  Bool-cases,
}
use aistream.Clean.{Entries, done, file, folder, strstr, is_old, del_loop, del_old_file}

-- No file below has the suffix in its name.
abbrev pub Clear : Text → Entries → Type 0
Clear suffix done = Unit
Clear suffix (file name rest) = (strstr suffix name ≡ false) × Clear suffix rest
Clear suffix (folder name inside rest) = Clear suffix inside × Clear suffix rest

-- Of the first layer, everything but the old directories.
abbrev pub kept : (Text → Bool) → Entries → Entries
kept old done = done
kept old (file name rest) = file name (kept old rest)
kept old (folder name inside rest) =
    let rest' = kept old rest in if old name then rest' else folder name inside rest'

-- The old directories of the first layer have no file of the suffix.
abbrev pub OldClear : (Text → Bool) → Text → Entries → Type 0
OldClear old suffix done = Unit
OldClear old suffix (file name rest) = OldClear old suffix rest
OldClear old suffix (folder name inside rest) =
    (old name ≡ true → Clear suffix inside) × OldClear old suffix rest

del_loop-Clear :
    (old : Text → Bool) (suffix : Text) (layer : ℕ) (es : Entries)
    → 1 < layer
    → Clear suffix (del_loop old suffix layer es).0
unfolding del_loop
del_loop-Clear old suffix layer done l = tt
del_loop-Clear old suffix layer (file name rest) l =
    let deep : ltb 1 layer ≡ true = ground (arith, l) in
    let ih = del_loop-Clear old suffix layer rest l in
    elim (Bool-cases (strstr suffix name)) [
      | inl t ↦ rw (deep, t, del_loop) ih
      | inr f ↦ rw (deep, f, del_loop) (f, ih)
    ]
del_loop-Clear old suffix layer (folder name inside rest) l =
    let first : (layer == 1) ≡ false = ground (arith, l) in
    let ih = del_loop-Clear old suffix layer rest l in
    let ih' = del_loop-Clear old suffix (layer + 1) inside (omega (arith, l)) in
    elim (Bool-cases ((del_loop old suffix (layer + 1) inside).1 == 0)) [
      | inl t ↦ rw (first, t, del_loop) ih
      | inr f ↦ rw (first, f, del_loop) (ih', ih)
    ]

del_loop-kept :
    (old : Text → Bool) (suffix : Text) (es : Entries)
    → (kept old (del_loop old suffix 1 es).0 ≡ kept old es)
      × OldClear old suffix (del_loop old suffix 1 es).0
unfolding del_loop
del_loop-kept old suffix done = (refl, tt)
del_loop-kept old suffix (file name rest) =
    let (same, clear) = del_loop-kept old suffix rest in (ap (file name) same, clear)
del_loop-kept old suffix (folder name inside rest) =
    let (same, clear) = del_loop-kept old suffix rest in
    elim (Bool-cases (old name)) [
      | inr f ↦ rw (f, del_loop) (rw f (ap (folder name inside) same), ((λ e. cc), clear))
      | inl t ↦ elim (Bool-cases ((del_loop old suffix 2 inside).1 == 0)) [
        | inl z ↦ rw (t, z, del_loop) (same, clear)
        | inr z ↦
            rw (t, z, del_loop)
              (rw t same, ((λ _. del_loop-Clear old suffix 2 inside (omega arith)), clear))
      ]
    ]

-- DelOldFile leaves everything of the first layer but the directories whose name is an old day just
-- as it was, and no file with the suffix in its name stays below such a directory.
pub del_old_file_keeps :
    (mktime : ℤ → ℤ → ℤ → ℤ) (max_sec now : ℕ) (suffix : Text) (root : Entries)
    → let old = is_old mktime max_sec now in
      let root' = del_old_file mktime max_sec now suffix root in
      (kept old root' ≡ kept old root) × OldClear old suffix root'
unfolding del_old_file
del_old_file_keeps mktime max_sec now suffix root =
    del_loop-kept (is_old mktime max_sec now) suffix root
