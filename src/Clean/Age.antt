-- ===== src/Clean/Age.antt =====
-- CheckTime of src/share.cpp: the age of a day, in 32 bits.
use aistream.Base.{
  ℕ, ℤ, pos, negsuc, some, ◌+◌, ◌-◌, ◌%◌, ◌^◌, ◌≤◌, ◌<◌, ◌≡◌, true, ◌||◌, ltb, leb, arith, inl, inr,
  Bool-cases, Text,
}
use aistream.Clean.{age, read_date, check_time}

age-past : (now t : ℕ) → t ≤ now → now - t < 2 ^ 32 → age now (pos t) ≡ now - t
unfolding age
age-past now t le small = elim (Bool-cases (leb t now)) [
  | inl p ↦ rw p (omega (arith, small))
  | inr f ↦ absurd (ground (arith, le, f))
]

age-future : (now t : ℕ) → now < t → t - now < 2 ^ 32 → age now (pos t) ≡ 2 ^ 32 - (t - now)
unfolding age
age-future now t later small = elim (Bool-cases (leb t now)) [
  | inl p ↦ absurd (ground (arith, later, p))
  | inr f ↦ rw f (omega (arith, small, later))
]

-- How far a day is back from the clock, and how far ahead of it.
abbrev pub back : ℕ → ℤ → ℕ
back now (pos t) = now - t
back now (negsuc t) = now + (t + 1)

abbrev pub ahead : ℕ → ℤ → ℕ
ahead now (pos t) = t - now
ahead now (negsuc t) = 0

too_old :
    (max_sec now : ℕ) (t : ℤ)
    → back now t + ahead now t + max_sec < 2 ^ 32
    → ltb max_sec (age now t) ≡ (ltb max_sec (back now t) || ltb 0 (ahead now t))
unfolding age
too_old max_sec now (negsuc t) near =
    let same : (now + (t + 1)) % 2 ^ 32 ≡ now + (t + 1) = omega (arith, near) in
    rw same (ground arith)
too_old max_sec now (pos t) near = elim (Bool-cases (leb t now)) [
  | inl past ↦
      rw (age-past now t (ground (arith, past)) (omega (arith, near))) (ground (arith, past))
  | inr later ↦
      rw (age-future now t (ground (arith, later)) (omega (arith, near)))
        (ground (arith, near, later))
]

modern : (year : ℕ) → 1900 < year → leb 1901 year ≡ true
modern year valid = ground arith

-- A name that gives a date after 1900, whose time is, together with the bound, less than 2^32
-- seconds from the clock, is too old for CheckTime exactly if its time is further back than the
-- bound, or in the future.
pub check_time_wraps :
    (mktime : ℤ → ℤ → ℤ → ℤ) (max_sec now year : ℕ) (mon mday : ℤ) (name : Text)
    → read_date name ≡ some (pos year, mon, mday)
    → 1900 < year
    → back now (mktime (pos year) mon mday) + ahead now (mktime (pos year) mon mday) + max_sec
      < 2 ^ 32
    → check_time mktime max_sec now name ≡ (
        ltb max_sec (back now (mktime (pos year) mon mday))
        || ltb 0 (ahead now (mktime (pos year) mon mday)))
unfolding check_time
check_time_wraps mktime max_sec now year mon mday name date valid near =
    rw (date, check_time)
      (rw (modern year valid) (too_old max_sec now (mktime (pos year) mon mday) near))
