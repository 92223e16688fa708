-- ===== src/Machine/Code.antt =====
-- abstract_system_code.cc: the Fibonacci program and its place in the memory.
pub mod Placed
pub mod Rounds
pub mod Fibonacci
use osh.Prelude.{ℕ, ◌+◌, List, [], ◌∷◌, Option, some, Ram, store, ◌>>=◌}
use osh.Machine.Opcode
use osh.Machine.Register
use osh.Machine.Constants.{code}
use osh.Machine.Encode.{Instr, encode_program}

abbrev pub fib_max : ℕ
fib_max = 16

-- the label of the loop
abbrev loop : ℕ
loop = 1

-- `fib_prog`, with `n` for FIB_MAX
abbrev pub fib_prog : ℕ → List Instr
fib_prog n =
    (0 ∷ Opcode.set ∷ Register.r1 ∷ 1 ∷ 0 ∷ [])
    ∷ (0 ∷ Opcode.set ∷ Register.r2 ∷ 1 ∷ 0 ∷ [])
    ∷ (0 ∷ Opcode.set ∷ Register.r3 ∷ 0 ∷ 0 ∷ [])
    ∷ (0 ∷ Opcode.set ∷ Register.r4 ∷ n ∷ 0 ∷ [])
    ∷ (0 ∷ Opcode.set ∷ Register.r5 ∷ 1 ∷ 0 ∷ [])
    ∷ (loop ∷ Opcode.add ∷ Register.r3 ∷ Register.r1 ∷ Register.r2 ∷ [])
    ∷ (0 ∷ Opcode.mov ∷ Register.r1 ∷ Register.r2 ∷ 0 ∷ [])
    ∷ (0 ∷ Opcode.mov ∷ Register.r2 ∷ Register.r3 ∷ 0 ∷ [])
    ∷ (0 ∷ Opcode.sub ∷ Register.r4 ∷ Register.r4 ∷ Register.r5 ∷ [])
    ∷ (0 ∷ Opcode.str ∷ Register.r3 ∷ Register.r4 ∷ 0 ∷ [])
    ∷ (0 ∷ Opcode.cbnz ∷ Register.r4 ∷ loop ∷ 0 ∷ [])
    ∷ (0 ∷ Opcode.wfi ∷ 0 ∷ 0 ∷ 0 ∷ [])
    ∷ []

-- the second loop of `load_code`: the words into the memory from `CODE+pc` on
unfoldable pub write_code : List ℕ → ℕ → Ram → Option Ram
write_code [] pc ram_state = some ram_state
write_code (iw ∷ fib_iws) pc ram_state = do
  ram_state' ← store ram_state (code + pc) iw
  write_code fib_iws (pc + 1) ram_state'

unfoldable pub load_code : Ram → Option Ram
unfolding write_code encode_program
load_code ram_state = do fib_iws ← encode_program (fib_prog fib_max); write_code fib_iws 0 ram_state
