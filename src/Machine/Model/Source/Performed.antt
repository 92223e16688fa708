-- ===== src/Machine/Model/Source/Performed.antt =====
-- The source's lines by the description of their instructions, without the executor.
use osh.Prelude.{
  ℕ, zero, suc, ◌+◌, ◌≤◌, ◌%◌, ◌^◌, ◌≡◌, sym, ap, ◌∙◌, List, [], Option, none, some, false, length,
  get_elem?, get_or, write?, update, Ram, >>=-eq-some, some_inj, add64,
}
use mathlib.Core.Path.{fun_ext}
use mathlib.Core.List.{map}
use osh.Machine.Constants.{code, pc}
use osh.Machine.Decode.{Args}
use osh.Machine.Encode.{encode_program}
use osh.Machine.Encode.Layout.{Op}
use osh.Machine.Encode.Program.{Line, instr_of, AreLines}
use osh.Machine.Execute.Defined.Branches.{get_elem?-lt}
use osh.Machine.Execute.Description.{View, view, perform}
use osh.Machine.Execute.Meaning.{get_or-write?, execute_instruction-Gives}
use osh.Machine.Code.{write_code}
use osh.Machine.Model.{System, run_cycles}
use osh.Machine.Model.Source.{resolved, line_at, interpret, interpret_steps}
use osh.Machine.Model.Source.Phases.{guarded, run_cycles-interpret_steps}

-- the instruction of a line, from a counter that has moved on; nothing where there is no line
abbrev pub perform_line : Option (Op × Args) → View → View
perform_line none v = v
perform_line (some (op, args)) (r, m) = perform op args (update r pc ((r pc + 1) % 2 ^ 64), m)

-- `n` lines from the one at the counter on, each by its description
unfoldable pub performed : List (Op × Args) → ℕ → View → View
performed program zero v = v
performed program (suc n) v = performed program n (perform_line (line_at program (v.0 pc)) v)

perform_line-found :
    (program : List (Op × Args)) (registers : List ℕ) (m : Ram) (at : ℕ) (line : Op × Args)
    → get_or registers pc 0 ≡ at
    → line_at program at ≡ some line
    → perform_line (line_at program (get_or registers pc 0)) (view registers m)
      ≡ perform line.0 line.1 (update (λ j. get_or registers j 0) pc (add64 at 1), m.cells)
perform_line-found program registers m at (op, args) same found =
    rw (same, found)
      (ap (λ (x : ℕ). perform op args (update (λ j. get_or registers j 0) pc (add64 x 1), m.cells))
        same)

interpret-perform :
    (program : List (Op × Args)) (registers registers' : List ℕ) (m m' : Ram)
    → interpret program registers m ≡ some (registers', m')
    → view registers' m' ≡ perform_line (line_at program (get_or registers pc 0)) (view registers m)
unfolding interpret
interpret-perform program registers registers' m m' h =
    let (at, counter, h₁) = >>=-eq-some (get_elem? registers pc) _ h in
    let (line, found, h₂) = >>=-eq-some (line_at program at) _ h₁ in
    let (moved, w, h₃) = >>=-eq-some (write? registers pc (add64 at 1)) _ h₂ in
    let (apart, e) = guarded _ _ h₃ in
    let (_, same) = get_elem?-lt registers pc counter in
    let (rs, ms) = execute_instruction-Gives line.0 line.1 moved m (registers', m') e in
    let before : view moved m ≡ (update (λ j. get_or registers j 0) pc (add64 at 1), m.cells) =
      λ i. (fun_ext (get_or-write? registers pc (add64 at 1) w) i, m.cells) in
    (λ i. (fun_ext rs i, fun_ext ms i))
    ∙ ap (perform line.0 line.1) before
    ∙ sym (perform_line-found program registers m at line same found)

interpret_steps-performed :
    (program : List (Op × Args)) (n : ℕ) (registers registers' : List ℕ) (m m' : Ram)
    → interpret_steps program n registers m ≡ some (registers', m')
    → view registers' m' ≡ performed program n (view registers m)
unfolding interpret_steps performed
interpret_steps-performed program zero registers registers' m m' h =
    ap (λ (p : List ℕ × Ram). view p.0 p.1) (sym (some_inj h))
interpret_steps-performed program (suc n) registers registers' m m' h =
    let (s, e, h₁) = >>=-eq-some (interpret program registers m) _ h in
    interpret_steps-performed program n s.0 registers' s.1 m' h₁
    ∙ ap (performed program n) (interpret-perform program registers s.0 m s.1 e)

-- A program without ADR whose labels are numbers below the number of its lines, and whose operands
-- fit their fields, is assembled and loaded into any memory with room for it, and the system runs
-- without interrupts from registers with which the first `n` lines that the counter comes to are
-- defined, stay in the program and do not store over it, by the interpreter. Then the machine does
-- just what the interpreter does, and its registers and the words of its memory after `n` cycles are,
-- one by one, those that the descriptions of these lines give, one after the other.
pub run_cycles-performed :
    (lines : List Line) (n : ℕ) (s : System) (m m' : Ram) (registers' iws : List ℕ)
    → AreLines (length lines) lines 0 (λ _. 0)
    → encode_program (map instr_of lines) ≡ some iws
    → write_code iws 0 m ≡ some s.system_state
    → code + length lines ≤ m.size
    → s.irqs ≡ []
    → interpret_steps (resolved lines 0 (λ _. 0)) n s.registers s.system_state
      ≡ some (registers', m')
    → (run_cycles false n s ≡ some (record s { registers = registers'; system_state = m' }))
      × (view registers' m'
          ≡ performed (resolved lines 0 (λ _. 0)) n (view s.registers s.system_state))
run_cycles-performed lines n s m m' registers' iws valid e w room q h = (
  run_cycles-interpret_steps lines n s m m' registers' iws valid e w room q h,
  interpret_steps-performed (resolved lines 0 (λ _. 0)) n s.registers registers' s.system_state m'
      h,
)
