-- ===== src/Machine/Model/Source.antt =====
-- Programs by their lines: an interpreter, and the machine on the program that is assembled and
-- loaded (abstract_system_encoder.cc to abstract_system_model.cc).
pub mod Phases
pub mod Performed
use osh.Prelude.{
  ℕ, zero, suc, ◌+◌, ◌-◌, List, [], ◌∷◌, Bool, false, ◌&&◌, Option, none, some, get_elem?, get_or,
  write?, length, Ram, ◌>>=◌, ltb, leb, if◌then◌else◌, add64,
}
use osh.Machine.Constants.{code, pc, sp}
use osh.Machine.Decode.{Args}
use osh.Machine.Encode.Layout.{Op, opcode, layout}
use osh.Machine.Encode.Program.{Line, meaning, defined_at}
use osh.Machine.Execute.{execute_instruction}

-- The operations and operands of the lines, with the labels replaced by their addresses.
abbrev pub resolved : List Line → ℕ → (ℕ → ℕ) → List (Op × Args)
resolved [] first f = []
resolved ((label, op, args) ∷ rest) first f =
    let f' = defined_at label first f in
    (op, meaning (layout op) args f') ∷ resolved rest (first + 1) f'

-- an address in a program of `count` lines
abbrev pub within : ℕ → ℕ → Bool
within count a = leb code a && ltb a (code + count)

-- Whether an instruction stores a word over the program.
abbrev pub overwrites : ℕ → Op → Args → List ℕ → Bool
overwrites count Op.str (a1, a2, a3) registers = within count (get_or registers a2 0)
overwrites count Op.push args registers = within count (get_or registers sp 0)
overwrites count _ args registers = false

-- The line with an address.
abbrev pub line_at : List (Op × Args) → ℕ → Option (Op × Args)
line_at program at = if ltb at code then none else get_elem? program (at - code)

-- One step on a program that is not in the memory: nothing where the counter is not at a line, or
-- the line stores over the program.
unfoldable pub interpret : List (Op × Args) → List ℕ → Ram → Option (List ℕ × Ram)
interpret program registers m = do
  at ← get_elem? registers pc
  line ← line_at program at
  registers' ← write? registers pc (add64 at 1)
  if overwrites (length program) line.0 line.1 registers'
      then none
      else execute_instruction (opcode line.0) line.1 registers' m

unfoldable pub interpret_steps : List (Op × Args) → ℕ → List ℕ → Ram → Option (List ℕ × Ram)
unfolding interpret
interpret_steps program zero registers m = some (registers, m)
interpret_steps program (suc n) registers m =
    interpret program registers m >>= λ s. interpret_steps program n s.0 s.1
