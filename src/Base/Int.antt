-- ===== src/Base/Int.antt =====
-- The values of a C `int`, as far as the program uses them: equality, sign, printing, sums,
-- multiples and the shift to the right.
use Prim.Native.Nat.{ℕ, zero, suc, ◌+◌, ◌-◌, ◌*◌, ◌/◌}
use mathlib.Core.Path.{◌≡◌}
use mathlib.Core.Bool.{Bool, true, false}
use mathlib.Core.List.{◌∷◌}
use native.Mathlib.Omega.{arith}
use aistream.Base.Tests.{◌==◌, ltb, if◌then◌else◌, ==_self}
use aistream.Base.Texts.{Text, decimal}

-- `negsuc n` is -(n + 1).
pub data ℤ : Type 0 where
  pos : ℕ → ℤ
  negsuc : ℕ → ℤ

unfoldable pub int_eq : ℤ → ℤ → Bool
int_eq (pos m) (pos n) = m == n
int_eq (pos m) (negsuc n) = false
int_eq (negsuc m) (pos n) = false
int_eq (negsuc m) (negsuc n) = m == n

pub int_eq→eq : (a b : ℤ) → int_eq a b ≡ true → a ≡ b
unfolding int_eq
int_eq→eq (pos m) (pos n) h = ground arith
int_eq→eq (pos m) (negsuc n) h = cc
int_eq→eq (negsuc m) (pos n) h = cc
int_eq→eq (negsuc m) (negsuc n) h = ground arith

pub int_eq_refl : (a : ℤ) → int_eq a a ≡ true
unfolding int_eq
int_eq_refl (pos m) = ==_self m
int_eq_refl (negsuc m) = ==_self m

abbrev pub minus_one : ℤ
minus_one = negsuc 0

-- n < 0
abbrev pub is_negative : ℤ → Bool
is_negative (pos n) = false
is_negative (negsuc n) = true

-- n <= 0
abbrev pub is_not_positive : ℤ → Bool
is_not_positive (pos zero) = true
is_not_positive (pos (suc n)) = false
is_not_positive (negsuc n) = true

-- printf's %d.
unfoldable pub print_int : ℤ → Text
unfolding decimal
print_int (pos n) = decimal n
print_int (negsuc n) = b'-' ∷ decimal (suc n)

-- m - n
abbrev pub sub_nat : ℕ → ℕ → ℤ
sub_nat m n = if ltb m n then negsuc (n - m - 1) else pos (m - n)

infixl 60 ◌+ℤ◌
abbrev pub ◌+ℤ◌ : ℤ → ℤ → ℤ
pos m +ℤ pos n = pos (m + n)
pos m +ℤ negsuc n = sub_nat m (n + 1)
negsuc m +ℤ pos n = sub_nat n (m + 1)
negsuc m +ℤ negsuc n = negsuc (m + n + 1)

abbrev pub negate : ℤ → ℤ
negate (pos n) = sub_nat 0 n
negate (negsuc n) = pos (n + 1)

-- The product with a constant.
abbrev pub scale : ℕ → ℤ → ℤ
scale c (pos n) = pos (n * c)
scale c (negsuc n) = sub_nat 0 ((n + 1) * c)

-- z >> 16, which rounds down also where z is negative.
abbrev pub shift16 : ℤ → ℤ
shift16 (pos n) = pos (n / 65536)
shift16 (negsuc n) = negsuc (n / 65536)
