-- ===== src/Machine/Encode/Program.antt =====
-- What a whole program is assembled to, by an independent description of the assembler's one pass.
use osh.Prelude.{
  ℕ, zero, suc, ◌+◌, ◌<◌, ◌≡◌, ◌≢◌, refl, ap, ◌∙◌, List, [], ◌∷◌, some, ◌==◌, if◌then◌else◌, length,
  replicate, write?_total, >>=-eq-some, some_inj, length-replicate,
}
use mathlib.Core.List.{map}
use osh.Machine.Constants.{code}
use osh.Machine.Decode.{Args, decode_instruction}
use osh.Machine.Encode.{Instr, define_label, encode_instruction, encode_from, encode_program}
use osh.Machine.Encode.Layout.{Op, opcode, Layout, layout, operands, Fits}
use osh.Machine.Encode.RoundTrip.{decode-encode_instruction}
use osh.Machine.Encode.Labels.{
  Reads, define_label-suc, define_label-length, define_label-Reads, Reads-replicate,
}

-- A line of a program: its label or 0, its operation, and its arguments.
abbrev pub Line : Type 0
Line = ℕ × Op × Args

abbrev pub instr_of : Line → Instr
instr_of (label, op, (a1, a2, a3)) = label ∷ opcode op ∷ a1 ∷ a2 ∷ a3 ∷ []

-- the operands of an instruction, where `f` gives the line of each label
abbrev pub meaning : Layout → Args → (ℕ → ℕ) → Args
meaning Layout.registers (a1, a2, a3) f = (a1, a2, a3)
meaning Layout.immediate (a1, a2, a3) f = (a1, a2, 0)
meaning Layout.conditional (a1, a2, a3) f = (a1, f a2 + code, 0)
meaning Layout.jump (a1, a2, a3) f = (f a1 + code, 0, 0)
meaning Layout.long (a1, a2, a3) f = (a1, 0, 0)
meaning Layout.bare (a1, a2, a3) f = (0, 0, 0)

-- the lines of the labels once line `pc` has defined `label`
abbrev pub defined_at : ℕ → ℕ → (ℕ → ℕ) → ℕ → ℕ
defined_at label pc f l = if label == l then pc else f l

-- The numbers and operands of the instructions of a program whose first line is `pc`, where `f`
-- gives the lines of the labels that have been defined before.
abbrev pub meanings : List Line → ℕ → (ℕ → ℕ) → List (ℕ × Args)
meanings [] pc f = []
meanings ((label, op, args) ∷ rest) pc f =
    let f' = defined_at label pc f in
    (opcode op, meaning (layout op) args f') ∷ meanings rest (pc + 1) f'

-- A label that an instruction refers to is one of the labels 1 to n - 1.
abbrev pub RefersBelow : ℕ → Layout → Args → Type 0
RefersBelow n Layout.conditional (a1, a2, a3) = (a2 ≢ 0) × (a2 < n)
RefersBelow n Layout.jump (a1, a2, a3) = (a1 ≢ 0) × (a1 < n)
RefersBelow n _ args = Unit {0}

-- No line is an ADR, the labels are below `n`, and the operands fit their fields.
abbrev pub AreLines : ℕ → List Line → ℕ → (ℕ → ℕ) → Type 0
AreLines n [] pc f = Unit {0}
AreLines n ((label, op, args) ∷ rest) pc f =
    ((op ≢ Op.adr)
      × (label < n)
      × RefersBelow n (layout op) args
      × Fits (layout op) (meaning (layout op) args (defined_at label pc f)))
    × AreLines n rest (pc + 1) (defined_at label pc f)

operands-meaning :
    (l : Layout) (args : Args) (labels : List ℕ) (f : ℕ → ℕ)
    → Reads labels f
    → RefersBelow (length labels) l args
    → operands l args labels ≡ some (meaning l args f)
operands-meaning Layout.registers (a1, a2, a3) labels f reads h = refl
operands-meaning Layout.immediate (a1, a2, a3) labels f reads h = refl
operands-meaning Layout.conditional (a1, a2, a3) labels f reads (ne, lt) = rw (reads a2 ne lt)
operands-meaning Layout.jump (a1, a2, a3) labels f reads (ne, lt) = rw (reads a1 ne lt)
operands-meaning Layout.long (a1, a2, a3) labels f reads h = refl
operands-meaning Layout.bare (a1, a2, a3) labels f reads h = refl

define_label_total :
    (label : ℕ) (instr : Instr) (pc : ℕ) (labels : List ℕ)
    → label < length labels
    → (labels' : List ℕ) × (define_label (label ∷ instr) pc labels ≡ some labels')
unfolding define_label
define_label_total zero instr pc labels lt = (labels, refl)
define_label_total (suc label) instr pc labels lt =
    let (labels', w) = write?_total labels (suc label) pc lt in
    (labels', define_label-suc label instr pc labels ∙ w)

-- One line and the word that it is assembled to.
encode_instruction-meaning :
    (op : Op) (label : ℕ) (args : Args) (labels : List ℕ) (f : ℕ → ℕ)
    → Reads labels f
    → op ≢ Op.adr
    → RefersBelow (length labels) (layout op) args
    → Fits (layout op) (meaning (layout op) args f)
    → (iw : ℕ) × (encode_instruction (instr_of (label, op, args)) labels ≡ some iw)
      × (decode_instruction iw ≡ (opcode op, meaning (layout op) args f))
encode_instruction-meaning op label (a1, a2, a3) labels f reads ne refers fits =
    let (iw, e, d) =
      >>=-eq-some (encode_instruction (label ∷ opcode op ∷ a1 ∷ a2 ∷ a3 ∷ []) labels) _ (
        decode-encode_instruction op label a1 a2 a3 labels _ ne
          (operands-meaning (layout op) (a1, a2, a3) labels f reads refers) fits) in
    (iw, e, some_inj d)

encode_from-meanings :
    (lines : List Line) (pc : ℕ) (labels : List ℕ) (f : ℕ → ℕ)
    → Reads labels f
    → AreLines (length labels) lines pc f
    → (iws : List ℕ) × (encode_from (map instr_of lines) pc labels ≡ some iws)
      × (map decode_instruction iws ≡ meanings lines pc f)
unfolding encode_from
encode_from-meanings [] pc labels f reads valid = ([], refl, refl)
encode_from-meanings ((label, op, (a1, a2, a3)) ∷ rest) pc labels f reads
      ((ne, lt, refers, fits), valid) =
    let fields : Instr = opcode op ∷ a1 ∷ a2 ∷ a3 ∷ [] in
    let (labels', d) = define_label_total label fields pc labels lt in
    let same : length labels' ≡ length labels = define_label-length (label ∷ fields) pc labels d in
    let reads' : Reads labels' (defined_at label pc f) =
      define_label-Reads (label ∷ fields) pc labels f reads d in
    let (iw, e, m) =
      encode_instruction-meaning op label (a1, a2, a3) labels' (defined_at label pc f) reads' ne
        (rw same refers) fits in
    let (iws, es, ms) =
      encode_from-meanings rest (pc + 1) labels' (defined_at label pc f) reads' (rw same valid) in
    (iw ∷ iws, rw d (rw e (rw es)), λ i. m i ∷ ms i)

pub length-instrs : (lines : List Line) → length (map instr_of lines) ≡ length lines
length-instrs [] = refl
length-instrs (line ∷ lines) = ap suc (length-instrs lines)

-- A program without ADR whose labels are numbers below the number of its lines, and whose operands
-- fit their fields, is assembled; and its words decode, line by line, to the opcodes and operands of
-- the source, where a label stands for CODE plus the last line up to and including the current one
-- that defines it, or plus 0 if none of them does.
pub encode_program-meanings :
    (lines : List Line)
    → AreLines (length lines) lines 0 (λ _. 0)
    → (iws : List ℕ) × (encode_program (map instr_of lines) ≡ some iws)
      × (map decode_instruction iws ≡ meanings lines 0 (λ _. 0))
unfolding encode_program
encode_program-meanings lines valid =
    let n = length (map instr_of lines) in
    let table : List ℕ = replicate n 0 in
    let count : length table ≡ length lines = length-replicate n 0 ∙ length-instrs lines in
    encode_from-meanings lines 0 table (λ _. 0) (Reads-replicate n) (rw count valid)
