-- ===== src/Prelude/Words/Masks.antt =====
-- `x & 0xFF` and `x & 0xF` as remainders.
use Prim.Native.Nat.{ℕ, zero, suc, ◌+◌, ◌*◌, ◌/◌, ◌%◌, ◌≤◌, min, digits, bit_and, bit_and-bitwise}
use mathlib.Core.Path.{◌≡◌, ◌∙◌}
use native.Mathlib.Omega.{arith}

-- the digits of `a` under the mask `m`, with `n` digits still to read
abbrev masked : ℕ → ℕ → ℕ → ℕ
masked n a m = digits (λ _. 0) min n a m

-- The mask `m` keeps the remainder by `c`.
abbrev Keeps : ℕ → ℕ → Type 0
Keeps m c = (n a : ℕ) → a ≤ n → masked n a m ≡ a % c

-- A mask with one more digit.
masked-next :
    (m c : ℕ) → Keeps m c → (n a : ℕ) → a ≤ n → masked n a (m * 2 + 1) ≡ a / 2 % c * 2 + a % 2
masked-next m c h zero zero le = omega arith
masked-next m c h zero (suc a) le = absurd (omega arith)
masked-next m c h (suc n) zero le = omega arith
masked-next m c h (suc n) (suc a) le = omega (arith, low, h n (suc a / 2) (omega arith))
  where
    low : masked (suc n) (suc a) (m * 2 + 1) ≡ masked n (suc a / 2) m * 2 + suc a % 2
    low = let e : (m * 2 + 1) / 2 ≡ m = omega arith in rw e (omega arith)

one_digit : Keeps 1 2
one_digit n a le = omega (arith, masked-next 0 1 nothing n a le)
  where
    nothing : Keeps 0 1
    nothing zero a le = omega arith
    nothing (suc n) zero le = omega arith
    nothing (suc n) (suc a) le = omega (arith, nothing n (suc a / 2) (omega arith))

two_digits : Keeps 3 4
two_digits n a le = omega (arith, masked-next 1 2 one_digit n a le)

three_digits : Keeps 7 8
three_digits n a le = omega (arith, masked-next 3 4 two_digits n a le)

four_digits : Keeps 15 16
four_digits n a le = omega (arith, masked-next 7 8 three_digits n a le)

eight_digits : Keeps 255 256
eight_digits n a le = omega (arith, masked-next 127 128 seven n a le)
  where
    five : Keeps 31 32
    five n a le = omega (arith, masked-next 15 16 four_digits n a le)

    six : Keeps 63 64
    six n a le = omega (arith, masked-next 31 32 five n a le)

    seven : Keeps 127 128
    seven n a le = omega (arith, masked-next 63 64 six n a le)

pub bit_and_byte : (a : ℕ) → bit_and a 255 ≡ a % 256
bit_and_byte a = bit_and-bitwise a 255 ∙ eight_digits a a (omega arith)

pub bit_and_nibble : (a : ℕ) → bit_and a 15 ≡ a % 16
bit_and_nibble a = bit_and-bitwise a 15 ∙ four_digits a a (omega arith)
