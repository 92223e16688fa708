-- ===== src/Coursework/Ints.antt =====
-- The C type `int`: 32 bits, with an overflow undefined.
use osh.Prelude.{
  ℕ, zero, suc, ◌+◌, ◌-◌, ◌*◌, ◌%◌, ◌^◌, ◌<◌, ◌≡◌, refl, arith, Option, none, some, ltb, leb,
  lt→ltb, if◌then◌else◌, Bool, false, ◌==◌,
}

pub data ℤ : Type 0 where
  pos : ℕ → ℤ
  negsuc : ℕ → ℤ

abbrev neg : ℕ → ℤ
neg zero = pos zero
neg (suc n) = negsuc n

-- the difference of two natural numbers
abbrev minus : ℕ → ℕ → ℤ
minus a b = if leb b a then pos (a - b) else neg (b - a)

abbrev plus : ℤ → ℤ → ℤ
plus (pos a) (pos b) = pos (a + b)
plus (pos a) (negsuc b) = minus a (b + 1)
plus (negsuc a) (pos b) = minus b (a + 1)
plus (negsuc a) (negsuc b) = negsuc (a + b + 1)

abbrev times : ℤ → ℤ → ℤ
times (pos a) (pos b) = pos (a * b)
times (pos a) (negsuc b) = neg (a * (b + 1))
times (negsuc a) (pos b) = neg ((a + 1) * b)
times (negsuc a) (negsuc b) = pos ((a + 1) * (b + 1))

abbrev opposite : ℤ → ℤ
opposite (pos a) = neg a
opposite (negsuc a) = pos (a + 1)

-- a result that fits
abbrev int : ℤ → Option ℤ
int (pos a) = if ltb a (2 ^ 31) then some (pos a) else none
int (negsuc a) = if ltb a (2 ^ 31) then some (negsuc a) else none

abbrev pub add_int : ℤ → ℤ → Option ℤ
add_int a b = int (plus a b)

abbrev pub sub_int : ℤ → ℤ → Option ℤ
sub_int a b = int (plus a (opposite b))

abbrev pub mul_int : ℤ → ℤ → Option ℤ
mul_int a b = int (times a b)

-- The conversion of an unsigned 64-bit value, which keeps the low 32 bits.
abbrev pub to_int : ℕ → ℤ
to_int x = let low = x % 2 ^ 32 in if ltb low (2 ^ 31) then pos low else negsuc (2 ^ 32 - 1 - low)

abbrev pub equals_zero : ℤ → Bool
equals_zero (pos a) = a == 0
equals_zero (negsuc a) = false

pub mul_int-pos : (a b : ℕ) → a * b < 2 ^ 31 → mul_int (pos a) (pos b) ≡ some (pos (a * b))
mul_int-pos a b h = rw (lt→ltb _ _ h)

pub add_int-pos : (a b : ℕ) → a + b < 2 ^ 31 → add_int (pos a) (pos b) ≡ some (pos (a + b))
add_int-pos a b h = rw (lt→ltb _ _ h)

pub to_int-pos : (x : ℕ) → x < 2 ^ 31 → to_int x ≡ pos x
to_int-pos x h = let e : x % 2 ^ 32 ≡ x = omega arith in rw e (rw (lt→ltb _ _ h))

-- The difference of two values that are not negative is zero only if they are equal.
pub sub_int_self : (a : ℕ) → sub_int (pos a) (pos a) ≡ some (pos 0)
sub_int_self zero = refl
sub_int_self (suc a) = ground arith
