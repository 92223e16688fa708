-- ===== src/Machine/Alu.antt =====
-- The array of nine functions `alu` of abstract_system_alu.h, over `uint64_t`.
-- `none` is an undefined operation: an index past the array, a division by zero, a shift by 64 or
-- more.
use osh.Prelude.{
  ℕ, zero, suc, ◌+◌, List, [], ◌∷◌, ◌>>=◌, ◌/◌, Bool, ◌&&◌, ◌||◌, not, Option, none, some, ltb,
  ◌==◌, if◌then◌else◌, add64, sub64, mul64, shl64, shr64,
}
use osh.Machine.Opcode

-- a `bool` as a `uint64_t`
abbrev pub bit : Bool → ℕ
bit t = if t then 1 else 0

-- `!x`
abbrev pub is_zero : ℕ → Bool
is_zero x = x == 0

-- `t != u` on `bool`
abbrev pub differ : Bool → Bool → Bool
differ t u = if t then not u else u

unfoldable pub alu : ℕ → ℕ → ℕ → Option ℕ
alu i x y =
    if i == Opcode.add
    then some (add64 x y)
    else if i == Opcode.sub
    then some (sub64 x y)
    else if i == Opcode.mul
    then some (mul64 x y)
    else if i == Opcode.div
    then (if y == 0 then none else some (x / y))
    else if i == Opcode.and
    then some (bit (not (is_zero x) && not (is_zero y)))
    else if i == Opcode.or
    then some (bit (not (is_zero x) || not (is_zero y)))
    else if i == Opcode.eor
    then some (bit (differ (is_zero x) (is_zero y)))
    else if i == Opcode.ars
    then (if ltb y 64 then some (shr64 x y) else none)
    else if i == Opcode.als
    then (if ltb y 64 then some (shl64 x y) else none)
    else none

-- What the loop of `main` in abstract_system_alu.cc prints from index `i` on.
unfoldable pub alu_outputs : ℕ → ℕ → Option (List ℕ)
unfolding alu
alu_outputs zero i = some []
alu_outputs (suc n) i = do w ← alu i 6 7; rest ← alu_outputs n (i + 1); some (w ∷ rest)
