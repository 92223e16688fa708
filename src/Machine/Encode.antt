-- ===== src/Machine/Encode.antt =====
-- abstract_system_encoder.cc: the assembler.
pub mod Layout
pub mod RoundTrip
pub mod Words
pub mod Labels
pub mod Program
use osh.Prelude.{
  ℕ, ◌+◌, List, [], ◌∷◌, Bool, ◌&&◌, ◌||◌, not, Option, some, ◌==◌, if◌then◌else◌, get_elem?,
  write?, replicate, length, ◌>>=◌, add64, shl64,
}
use osh.Machine.Opcode
use osh.Machine.Constants.{code}
use osh.Machine.Decode.{Args}

-- An instruction is the source's vector: label, opcode, and up to three arguments.
abbrev pub Instr : Type 0
Instr = List ℕ

-- the tests of the nested `if`s that read the arguments
abbrev pub has_args : ℕ → Bool
has_args opcode = not (opcode == Opcode.nop) && not (opcode == Opcode.wfi)

abbrev pub has_two_args : ℕ → Bool
has_two_args opcode =
    not (opcode == Opcode.bl) && not (opcode == Opcode.b) && not (opcode == Opcode.bx)

abbrev pub has_three_args : ℕ → Bool
has_three_args opcode =
    not (opcode == Opcode.ldr)
    && not (opcode == Opcode.str)
    && not (opcode == Opcode.cbz)
    && not (opcode == Opcode.cbnz)
    && not (opcode == Opcode.mov)
    && not (opcode == Opcode.set)

abbrev third_arg : ℕ → Instr → Option ℕ
third_arg opcode instr = if has_three_args opcode then get_elem? instr 4 else some 0

-- the second and third argument
abbrev later_args : ℕ → Instr → Option (ℕ × ℕ)
later_args opcode instr = do
  arg2 ← get_elem? instr 3
  arg3 ← third_arg opcode instr
  some (arg2, arg3)

abbrev some_args : ℕ → Instr → Option Args
some_args opcode instr = do
  arg1 ← get_elem? instr 2
  (arg2, arg3) ← if has_two_args opcode then later_args opcode instr else some (0, 0)
  some (arg1, arg2, arg3)

unfoldable pub read_args : ℕ → Instr → Option Args
read_args opcode instr = if has_args opcode then some_args opcode instr else some (0, 0, 0)

-- The words: sums of shifted fields, modulo 2 ^ 64.
abbrev jump_word : ℕ → ℕ → List ℕ → Option ℕ
jump_word opcode arg1 labels = do
  line ← get_elem? labels arg1
  some (add64 opcode (shl64 (add64 line code) 8))

abbrev conditional_word : ℕ → ℕ → ℕ → List ℕ → Option ℕ
conditional_word opcode arg1 arg2 labels = do
  line ← get_elem? labels arg2
  some (add64 (add64 opcode (shl64 arg1 8)) (shl64 (add64 line code) 16))

unfoldable pub encode_word : ℕ → Args → List ℕ → Option ℕ
encode_word opcode (arg1, arg2, arg3) labels =
    if opcode == Opcode.bl || opcode == Opcode.b
    then jump_word opcode arg1 labels
    else if opcode == Opcode.cbz || opcode == Opcode.adr || opcode == Opcode.cbnz
    then conditional_word opcode arg1 arg2 labels
    else if opcode == Opcode.mov
        || opcode == Opcode.set
        || opcode == Opcode.ldr
        || opcode == Opcode.str
    then some (add64 (add64 opcode (shl64 arg1 8)) (shl64 arg2 16))
    else if opcode == Opcode.nop || opcode == Opcode.wfi
    then some opcode
    else some (add64 (add64 (add64 opcode (shl64 arg1 8)) (shl64 arg2 16)) (shl64 arg3 24))

unfoldable pub encode_instruction : Instr → List ℕ → Option ℕ
unfolding read_args encode_word
encode_instruction instr labels = do
  opcode ← get_elem? instr 1
  args ← read_args opcode instr
  encode_word opcode args labels

-- `labels[instr[0]]=pc`, for an instruction with a label
unfoldable pub define_label : Instr → ℕ → List ℕ → Option (List ℕ)
define_label instr pc labels = do
  label ← get_elem? instr 0
  if label == 0 then some labels else write? labels label pc

-- The loop over the instructions from line `pc` on. `labels` is the storage that the vector was
-- allocated with, one word for each instruction: `labels.clear()` sets the size to 0 and leaves the
-- storage and its zeros, which `operator[]` goes on reading and writing.
unfoldable pub encode_from : List Instr → ℕ → List ℕ → Option (List ℕ)
unfolding define_label encode_instruction
encode_from [] pc labels = some []
encode_from (instr ∷ rest) pc labels = do
  labels' ← define_label instr pc labels
  encoded_instr ← encode_instruction instr labels'
  encoded_instrs ← encode_from rest (pc + 1) labels'
  some (encoded_instr ∷ encoded_instrs)

unfoldable pub encode_program : List Instr → Option (List ℕ)
unfolding encode_from
encode_program instrs = encode_from instrs 0 (replicate (length instrs) 0)
