-- ===== src/Int.antt =====
-- The integers of C over the native numbers: int, long, loff_t and size_t on a 64-bit kernel that
-- is built with wrapping arithmetic. A value of a signed type is a ℤ in its range; each conversion
-- wraps as the machine does.
use ldd3_kernel.Prelude.{
  ℕ, zero, suc, ◌+◌, ◌-◌, ◌*◌, ◌/◌, ◌%◌, ◌^◌, ◌<◌, ◌≡◌, Bool, true, false, Option, none, some,
  arith, ltb, leb, if◌then◌else◌,
}

-- `negsuc n` is -(n + 1).
pub data ℤ : Type 0 where
  pos : ℕ → ℤ
  negsuc : ℕ → ℤ

abbrev pub neg : ℕ → ℤ
neg zero = pos zero
neg (suc n) = negsuc n

-- a - b, as an integer.
abbrev pub sub_ℕ : ℕ → ℕ → ℤ
sub_ℕ a b = if leb b a then pos (a - b) else negsuc (b - a - 1)

infixl 65 ◌+ℤ◌ ◌-ℤ◌
infixl 70 ◌*ℤ◌
abbrev pub ◌+ℤ◌ : ℤ → ℤ → ℤ
pos a +ℤ pos b = pos (a + b)
pos a +ℤ negsuc b = sub_ℕ a (suc b)
negsuc a +ℤ pos b = sub_ℕ b (suc a)
negsuc a +ℤ negsuc b = negsuc (suc (a + b))

abbrev pub ◌-ℤ◌ : ℤ → ℤ → ℤ
pos a -ℤ pos b = sub_ℕ a b
pos a -ℤ negsuc b = pos (a + suc b)
negsuc a -ℤ pos b = negsuc (a + b)
negsuc a -ℤ negsuc b = sub_ℕ b a

abbrev pub ◌*ℤ◌ : ℤ → ℤ → ℤ
pos a *ℤ pos b = pos (a * b)
pos a *ℤ negsuc b = neg (a * suc b)
negsuc a *ℤ pos b = neg (suc a * b)
negsuc a *ℤ negsuc b = pos (suc a * suc b)

abbrev pub is_neg : ℤ → Bool
is_neg (pos n) = false
is_neg (negsuc n) = true

abbrev pub is_zero : ℤ → Bool
is_zero (pos zero) = true
is_zero (pos (suc n)) = false
is_zero (negsuc n) = false

-- The operators / and % of C, which round towards zero, for a divisor that is not zero.
abbrev pub quot : ℤ → ℤ → ℤ
quot (pos a) (pos b) = pos (a / b)
quot (pos a) (negsuc b) = neg (a / suc b)
quot (negsuc a) (pos b) = neg (suc a / b)
quot (negsuc a) (negsuc b) = pos (suc a / suc b)

abbrev pub rem : ℤ → ℤ → ℤ
rem (pos a) (pos b) = pos (a % b)
rem (pos a) (negsuc b) = pos (a % suc b)
rem (negsuc a) (pos b) = neg (suc a % b)
rem (negsuc a) (negsuc b) = neg (suc a % suc b)

-- The bit pattern of an integer, as a number below `m`.
abbrev pub residue : ℕ → ℤ → ℕ
residue m (pos n) = n % m
residue m (negsuc n) = m - 1 - n % m

-- The integer that a bit pattern stands for, where `half` is the weight of the sign bit.
abbrev pub signed : ℕ → ℕ → ℤ
signed half x = if ltb x half then pos x else negsuc (half + half - 1 - x)

abbrev pub int_min_abs : ℕ
int_min_abs = 2 ^ 31

abbrev pub long_min_abs : ℕ
long_min_abs = 2 ^ 63

abbrev pub size_mod : ℕ
size_mod = 2 ^ 64

-- Conversions to int, unsigned int, long (and loff_t) and size_t (and unsigned long).
unfoldable pub to_int : ℤ → ℤ
to_int z = signed int_min_abs (residue (2 ^ 32) z)

unfoldable pub to_uint : ℤ → ℕ
to_uint z = residue (2 ^ 32) z

unfoldable pub to_long : ℤ → ℤ
to_long z = signed long_min_abs (residue size_mod z)

unfoldable pub to_size : ℤ → ℕ
to_size z = residue size_mod z

-- Where the value fits, a conversion leaves it alone.
pub to_int-pos : (n : ℕ) → n < int_min_abs → to_int (pos n) ≡ pos n
unfolding to_int
to_int-pos n h = ground arith

pub to_uint-pos : (n : ℕ) → n < 2 ^ 32 → to_uint (pos n) ≡ n
unfolding to_uint
to_uint-pos n h = omega arith

pub to_long-pos : (n : ℕ) → n < long_min_abs → to_long (pos n) ≡ pos n
unfolding to_long
to_long-pos n h = ground arith

pub to_size-pos : (n : ℕ) → n < size_mod → to_size (pos n) ≡ n
unfolding to_size
to_size-pos n h = omega arith

-- A division faults where the divisor is zero.
unfoldable pub div_checked : ℤ → ℤ → Option (ℤ × ℤ)
div_checked a b = if is_zero b then none else some (quot a b, rem a b)

pub div_checked-pos :
    (a b : ℕ) → 0 < b → div_checked (pos a) (pos b) ≡ some (pos (a / b), pos (a % b))
unfolding div_checked
div_checked-pos a zero h = elim h [ ]
div_checked-pos a (suc b) h = ground arith
