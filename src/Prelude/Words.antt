-- ===== src/Prelude/Words.antt =====
-- `uint64_t` arithmetic: values below 2 ^ 64, with the wrap written out.
mod Masks
pub use Masks.*
use Prim.Native.Nat.{ℕ, ◌+◌, ◌-◌, ◌*◌, ◌/◌, ◌%◌, ◌^◌}

abbrev pub word : ℕ
word = 2 ^ 64

abbrev pub add64 : ℕ → ℕ → ℕ
add64 a b = (a + b) % word

abbrev pub sub64 : ℕ → ℕ → ℕ
sub64 a b = (a + word - b) % word

abbrev pub mul64 : ℕ → ℕ → ℕ
mul64 a b = a * b % word

abbrev pub shl64 : ℕ → ℕ → ℕ
shl64 a k = a * 2 ^ k % word

abbrev pub shr64 : ℕ → ℕ → ℕ
shr64 a k = a / 2 ^ k
