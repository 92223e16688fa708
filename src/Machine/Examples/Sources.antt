-- ===== src/Machine/Examples/Sources.antt =====
-- A source program of three lines, interpreted and on the machine.
use osh.Prelude.{ℕ, ◌+◌, ◌≡◌, refl, List, [], ◌∷◌, false, some, arith, Ram, update}
use mathlib.Core.List.{map}
use osh.Machine.Constants.{code}
use osh.Machine.Encode.{encode_instruction, encode_program}
use osh.Machine.Encode.Layout.{Op}
use osh.Machine.Encode.Program.{Line, instr_of, AreLines}
use osh.Machine.Execute.{execute_instruction}
use osh.Machine.Code.{write_code}
use osh.Machine.Model.{System, run_cycles, zeros}
use osh.Machine.Model.Source.{resolved, interpret_steps}
use osh.Machine.Model.Source.Performed.{performed, run_cycles-performed}
use osh.Machine.Execute.Description.{view}

-- R4 counts down, and R5 is stored at each address that it comes to.
abbrev lines : List Line
lines = (1, Op.sub, (4, 4, 5)) ∷ (0, Op.str, (5, 4, 0)) ∷ (0, Op.cbnz, (4, 1, 0)) ∷ []

lines-AreLines : AreLines 3 lines 0 (λ _. 0)
lines-AreLines = (
  (λ e. cc, omega arith, tt, (omega arith, omega arith, omega arith)),
  (
    (λ e. cc, omega arith, tt, (omega arith, omega arith)),
    ((λ e. cc, omega arith, (omega arith, omega arith), (omega arith, omega arith)), tt),
  ),
)

abbrev words : List ℕ
words = 84149249 ∷ 263441 ∷ 824634770458 ∷ []

encode_program-lines : encode_program (map instr_of lines) ≡ some words
unfolding encode_program encode_instruction
encode_program-lines = refl

abbrev placed : Ram
placed = record {
  size = code + 3;
  cells = update (update (update (λ _. 0) code 84149249) (code + 1) 263441) (code + 2) 824634770458;
}

write_code-words : write_code words 0 (zeros (code + 3)) ≡ some placed
unfolding write_code
write_code-words = refl

-- the registers with `count` in R4 and the counter at `at`
abbrev registers : ℕ → ℕ → List ℕ
registers count at = 0 ∷ 0 ∷ 0 ∷ 0 ∷ count ∷ 1 ∷ 0 ∷ 0 ∷ 0 ∷ 0 ∷ 0 ∷ 0 ∷ 0 ∷ 0 ∷ 0 ∷ at ∷ []

abbrev counting : System
counting = record {
  system_state = placed;
  registers = registers 2 code;
  irqs = [];
  timer_state = zeros 16;
  kbd_state = zeros 0;
  nic_state = zeros 0;
  ssd_state = zeros 0;
  gpu_state = zeros 0;
}

-- the memory after both rounds
abbrev marked : Ram
marked = record placed { cells = update (update placed.cells 1 1) 0 1 }

interpret_steps-lines :
    interpret_steps (resolved lines 0 (λ _. 0)) 6 (registers 2 code) placed
    ≡ some (registers 0 (code + 3), marked)
unfolding interpret_steps execute_instruction
interpret_steps-lines = refl

run_cycles-performed_example :
    (run_cycles false 6 counting
      ≡ some (record counting { registers = registers 0 (code + 3); system_state = marked }))
    × (view (registers 0 (code + 3)) marked
        ≡ performed (resolved lines 0 (λ _. 0)) 6 (view (registers 2 code) placed))
run_cycles-performed_example =
    run_cycles-performed lines 6 counting (zeros (code + 3)) marked (registers 0 (code + 3)) words
      lines-AreLines encode_program-lines write_code-words (omega arith) refl interpret_steps-lines
