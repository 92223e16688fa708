-- ===== src/Machine/Model/Source/Phases.antt =====
-- The interpreter's steps are the machine's phases on the assembled and loaded program.
use osh.Prelude.{
  ℕ, zero, suc, ◌+◌, ◌-◌, ◌≤◌, ◌<◌, ◌≡◌, refl, sym, ◌∙◌, ap, List, [], ◌∷◌, Bool, true, false,
  Option, none, some, arith, get_elem?, write?, length, Ram, >>=-eq-some, some_inj, Bool-cases, inl,
  inr, ltb, if◌then◌else◌, add64,
}
use mathlib.Core.List.{map}
use osh.Machine.Constants.{code, pc}
use osh.Machine.Decode.{Args, decode_instruction}
use osh.Machine.Encode.{encode_program}
use osh.Machine.Encode.Layout.{Op, opcode, layout}
use osh.Machine.Encode.Program.{
  Line, instr_of, meaning, defined_at, meanings, AreLines, encode_program-meanings,
}
use osh.Machine.Execute.{execute_instruction}
use osh.Machine.Execute.Frame.{stores, execute_instruction-frame}
use osh.Machine.Processor.{instruction_phase}
use osh.Machine.Code.{write_code}
use osh.Machine.Code.Placed.{Loaded, write_code-Loaded}
use osh.Machine.Code.Rounds.{instruction_phase-eq}
use osh.Machine.Code.Fibonacci.{steps}
use osh.Machine.Model.{System, run_cycles}
use osh.Machine.Model.Cycles.{between, joined, run_cycles-joined}
use osh.Machine.Model.Source.{resolved, overwrites, line_at, interpret, interpret_steps}

abbrev numbered : Op × Args → ℕ × Args
numbered line = (opcode line.0, line.1)

meanings-resolved :
    (lines : List Line) (first : ℕ) (f : ℕ → ℕ)
    → meanings lines first f ≡ map numbered (resolved lines first f)
meanings-resolved [] first f = refl
meanings-resolved ((label, op, args) ∷ rest) first f =
    ap (λ r. (opcode op, meaning (layout op) args (defined_at label first f)) ∷ r)
      (meanings-resolved rest (first + 1) (defined_at label first f))

length-resolved :
    (lines : List Line) (first : ℕ) (f : ℕ → ℕ) → length (resolved lines first f) ≡ length lines
length-resolved [] first f = refl
length-resolved ((label, op, args) ∷ rest) first f =
    ap suc (length-resolved rest (first + 1) (defined_at label first f))

cons_inj {ℓ} : {A : Type ℓ} {x y : A} {xs ys : List A} → x ∷ xs ≡ y ∷ ys → (x ≡ y) × (xs ≡ ys)
cons_inj {x} {y} {xs} {ys} e = (cc, cc)

-- the word of a line
word_at :
    (iws : List ℕ) (program : List (Op × Args)) (k : ℕ) {line : Op × Args}
    → map decode_instruction iws ≡ map numbered program
    → get_elem? program k ≡ some line
    → (w : ℕ) × (get_elem? iws k ≡ some w) × (decode_instruction w ≡ numbered line)
word_at [] [] k same e = cc
word_at [] (l ∷ program) k same e = cc
word_at (w ∷ iws) [] k same e = cc
word_at (w ∷ iws) (l ∷ program) zero same e =
    (w, refl, (cons_inj same).0 ∙ ap numbered (some_inj e))
word_at (w ∷ iws) (l ∷ program) (suc k) same e = word_at iws program k (cons_inj same).1 e

stores-overwrites :
    (count : ℕ) (op : Op) (args : Args) (registers : List ℕ) (k : ℕ)
    → overwrites count op args registers ≡ false
    → k < count
    → stores op args registers (code + k) ≡ false
stores-overwrites count Op.str (a1, a2, a3) registers k h lt = ground arith
stores-overwrites count Op.push args registers k h lt = ground arith
stores-overwrites count op args registers k h lt = refl

pub line_at-eq-some :
    (program : List (Op × Args)) (at : ℕ) {line : Op × Args}
    → line_at program at ≡ some line
    → (k : ℕ) × (at ≡ code + k) × (get_elem? program k ≡ some line)
line_at-eq-some program at {line} e = elim (Bool-cases (ltb at code)) [
  | inl t ↦ let bad : none ≡ some line = rw t at e in cc
  | inr t ↦ (at - code, ground arith, rw t at e)
]

pub guarded {ℓ} :
    {A : Type ℓ} (b : Bool) (o : Option A) {a : A}
    → (if b then none else o) ≡ some a
    → (b ≡ false) × (o ≡ some a)
guarded true o h = cc
guarded false o h = (refl, h)

get_elem?-count :
    {A : Type 0} (xs : List A) (k : ℕ) {a : A} → get_elem? xs k ≡ some a → k < length xs
get_elem?-count [] k h = cc
get_elem?-count (x ∷ xs) zero h = omega arith
get_elem?-count (x ∷ xs) (suc k) h = omega (arith, get_elem?-count xs k h)

-- as many words as lines
decoded-length :
    (iws : List ℕ) (program : List (Op × Args))
    → map decode_instruction iws ≡ map numbered program
    → length iws ≡ length program
decoded-length [] [] same = refl
decoded-length [] (l ∷ program) same = cc
decoded-length (w ∷ iws) [] same = cc
decoded-length (w ∷ iws) (l ∷ program) same = ap suc (decoded-length iws program (cons_inj same).1)

module _ (iws : List ℕ) (program : List (Op × Args)) (m m' : Ram) (l : Loaded iws m) where
  -- An instruction that stores nothing over the program leaves it in the memory.
  execute-Loaded :
      (op : Op) (args : Args) (registers registers' : List ℕ)
      → length iws ≡ length program
      → overwrites (length program) op args registers ≡ false
      → execute_instruction (opcode op) args registers m ≡ some (registers', m')
      → Loaded iws m'
  execute-Loaded op args registers registers' count apart e =
      let (_, cells, size) = execute_instruction-frame op args registers registers' m m' e in
      record {
        room = rw size l.room;
        at = λ k w found.
            cells (code + k) (
              stores-overwrites (length program) op args registers k apart
                (omega (arith, get_elem?-count iws k found, count)))
            ∙ l.at k w found;
      }

  -- A step of the interpreter is a phase of the machine, and leaves the program in the memory.
  interpret-phase :
      (registers registers' : List ℕ)
      → map decode_instruction iws ≡ map numbered program
      → length iws ≡ length program
      → interpret program registers m ≡ some (registers', m')
      → (instruction_phase registers m ≡ some (registers', m')) × Loaded iws m'
  unfolding interpret
  interpret-phase registers registers' same count h =
      let (at, counter, h₁) = >>=-eq-some (get_elem? registers pc) _ h in
      let (line, found, h₂) = >>=-eq-some (line_at program at) _ h₁ in
      let (moved, w, h₃) = >>=-eq-some (write? registers pc (add64 at 1)) _ h₂ in
      let (apart, e) = guarded _ _ h₃ in
      let (k, place, at_k) = line_at-eq-some program at found in
      let (word, at_word, decoded) = word_at iws program k same at_k in
      let inside : at < m.size = omega (arith, place, l.room, get_elem?-count iws k at_word) in
      let read : m.cells at ≡ word = ap m.cells place ∙ l.at k word at_word in
      (
        instruction_phase-eq registers m at word moved counter inside read w
            ∙ ap (λ (d : ℕ × Args). execute_instruction d.0 d.1 moved m) decoded
            ∙ e,
        execute-Loaded line.0 line.1 moved registers' count apart e,
      )

interpret_steps-steps :
    (iws : List ℕ) (program : List (Op × Args)) (n : ℕ) (registers registers' : List ℕ) (m m' : Ram)
    → map decode_instruction iws ≡ map numbered program
    → length iws ≡ length program
    → Loaded iws m
    → interpret_steps program n registers m ≡ some (registers', m')
    → steps n registers m ≡ some (registers', m')
unfolding interpret_steps
interpret_steps-steps iws program zero registers registers' m m' same count l h = h
interpret_steps-steps iws program (suc n) registers registers' m m' same count l h =
    let (s, e, h₁) = >>=-eq-some (interpret program registers m) _ h in
    let (phase, l₁) = interpret-phase iws program m s.1 l registers s.0 same count e in
    rw phase (interpret_steps-steps iws program n s.0 registers' s.1 m' same count l₁ h₁)

-- A program without ADR whose labels are numbers below the number of its lines, and whose operands
-- fit their fields, is assembled and loaded into any memory with room for it, and the system runs
-- without interrupts. For as many cycles as an interpreter that takes the source's lines one by one,
-- never stores over the program and never leaves it, the machine does just the same: its registers
-- and its memory are the interpreter's.
pub run_cycles-interpret_steps :
    (lines : List Line) (n : ℕ) (s : System) (m m' : Ram) (registers' iws : List ℕ)
    → AreLines (length lines) lines 0 (λ _. 0)
    → encode_program (map instr_of lines) ≡ some iws
    → write_code iws 0 m ≡ some s.system_state
    → code + length lines ≤ m.size
    → s.irqs ≡ []
    → interpret_steps (resolved lines 0 (λ _. 0)) n s.registers s.system_state
      ≡ some (registers', m')
    → run_cycles false n s ≡ some (record s { registers = registers'; system_state = m' })
run_cycles-interpret_steps lines n s m m' registers' iws valid e w room q h =
    ap (run_cycles false n) start
    ∙ run_cycles-joined n s s.registers s.system_state
    ∙ ap (joined s) (
        interpret_steps-steps iws program n s.registers registers' s.system_state m' same count
          loaded h)
    ∙ ap (λ irqs. some (record s { irqs = irqs; registers = registers'; system_state = m' }))
        (sym q)
  where
    program : List (Op × Args)
    program = resolved lines 0 (λ _. 0)

    start : s ≡ between s s.registers s.system_state
    start = λ i. record s { irqs = q i }

    same : map decode_instruction iws ≡ map numbered program
    same =
        let (iws', e', d) = encode_program-meanings lines valid in
        ap (map decode_instruction) (some_inj (sym e ∙ e')) ∙ d ∙ meanings-resolved lines 0 (λ _. 0)

    count : length iws ≡ length program
    count = decoded-length iws program same

    loaded : Loaded iws s.system_state
    loaded =
        write_code-Loaded iws m (omega (arith, room, count, length-resolved lines 0 (λ _. 0))) w
