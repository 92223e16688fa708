-- ===== src/Python.antt =====
-- Code/Ch1-memory-centric-system-model/bare-bones-model: the assembler and the decoder in Python
-- (abstract_system_encoder.py and abstract_system_cpu_decode.py), of which those in C++ are made.
-- The integers have no bound; `none` is an exception, and within the arguments Python's None. The
-- opcodes and CODE are those of the C++ model, and so are the tests for the arguments.
pub mod Arguments
pub mod Words
pub mod Port
mod Examples
use osh.Prelude.{
  Bool, ℕ, ◌+◌, ◌*◌, ◌/◌, ◌^◌, List, [], ◌∷◌, ◌||◌, Option, none, some, ◌==◌, if◌then◌else◌,
  get_elem?, ◌>>=◌, bit_and,
}
use osh.Machine.Opcode
use osh.Machine.Constants.{code}
use osh.Machine.Encode.{has_args, has_two_args, has_three_args}

-- An element of a program: the label, if it is a tuple, and the list of opcode and arguments.
abbrev pub Line : Type 0
Line = Option ℕ × List ℕ

-- the dictionary; a label that is not in it is a KeyError
abbrev pub Labels : Type 0
Labels = ℕ → Option ℕ

abbrev pub Args : Type 0
Args = Option ℕ × Option ℕ × Option ℕ

-- `arg<<k`, a TypeError for None
abbrev pub shifted : Option ℕ → ℕ → Option ℕ
shifted arg k = arg >>= λ a. some (a * 2 ^ k)

-- The arguments that are read, by the three tests of the nested `if`s.
abbrev pub third_arg : Bool → List ℕ → Option (Option ℕ)
third_arg three instr =
    if three then (get_elem? instr 3 >>= λ arg3. some (some arg3)) else some none

abbrev pub later_args : Bool → List ℕ → Option (Option ℕ × Option ℕ)
later_args three instr = do
  arg2 ← get_elem? instr 2
  arg3 ← third_arg three instr
  some (some arg2, arg3)

abbrev pub some_args : Bool → Bool → List ℕ → Option Args
some_args two three instr = do
  arg1 ← get_elem? instr 1
  (arg2, arg3) ← if two then later_args three instr else some (none, none)
  some (some arg1, arg2, arg3)

abbrev pub tested_args : Bool → Bool → Bool → List ℕ → Option Args
tested_args any two three instr = if any then some_args two three instr else some (none, none, none)

unfoldable pub read_args : ℕ → List ℕ → Option Args
read_args opcode instr =
    tested_args (has_args opcode) (has_two_args opcode) (has_three_args opcode) instr

-- `labels[arg] + CODE`
abbrev pub target : Option ℕ → Labels → Option ℕ
target arg labels = arg >>= labels >>= λ line. some (line + code)

unfoldable pub encode_word : ℕ → Args → Labels → Option ℕ
encode_word opcode (arg1, arg2, arg3) labels =
    if opcode == Opcode.bl || opcode == Opcode.b
    then (target arg1 labels >>= λ arg1_. some (opcode + arg1_ * 2 ^ 8))
    else if opcode == Opcode.cbz || opcode == Opcode.adr || opcode == Opcode.cbnz
    then (target arg2 labels >>= λ arg2_.
        shifted arg1 8 >>= λ a. some (opcode + a + arg2_ * 2 ^ 16))
    else if opcode == Opcode.mov
        || opcode == Opcode.set
        || opcode == Opcode.ldr
        || opcode == Opcode.str
    then (shifted arg1 8 >>= λ a. shifted arg2 16 >>= λ b. some (opcode + a + b))
    else if opcode == Opcode.nop || opcode == Opcode.wfi
    then some opcode
    else (shifted arg1 8 >>= λ a.
        shifted arg2 16 >>= λ b. shifted arg3 24 >>= λ c. some (opcode + a + b + c))

unfoldable pub encode_instruction : List ℕ → Labels → Option ℕ
unfolding read_args encode_word
encode_instruction instr labels = do
  opcode ← get_elem? instr 0
  args ← read_args opcode instr
  encode_word opcode args labels

-- `labels[instr[0]]=pc`
abbrev pub define_label : Option ℕ → ℕ → Labels → Labels
define_label none pc labels l = labels l
define_label (some label) pc labels l = if label == l then some pc else labels l

unfoldable pub encode_from : List Line → ℕ → Labels → Option (List ℕ)
unfolding encode_instruction
encode_from [] pc labels = some []
encode_from ((label, instr) ∷ rest) pc labels = do
  let labels' = define_label label pc labels
  encoded_instr ← encode_instruction instr labels'
  encoded_instrs ← encode_from rest (pc + 1) labels'
  some (encoded_instr ∷ encoded_instrs)

unfoldable pub encode_program : List Line → Option (List ℕ)
unfolding encode_from
encode_program instrs = encode_from instrs 0 (λ _. none)

unfoldable pub decode_instr : ℕ → ℕ
decode_instr ir = bit_and ir 0xff

unfoldable pub decode_addr_arg : ℕ → Args
decode_addr_arg ir = (some (ir / 2 ^ 8), none, none)

unfoldable pub decode_reg_addr_args : ℕ → Args
decode_reg_addr_args ir = (some (bit_and (ir / 2 ^ 8) 0xff), some (ir / 2 ^ 16), none)

unfoldable pub decode_3reg_args : ℕ → Args
decode_3reg_args ir = (
  some (bit_and (ir / 2 ^ 8) 0xff),
  some (bit_and (ir / 2 ^ 16) 0xff),
  some (bit_and (ir / 2 ^ 24) 0xff),
)

unfoldable pub decode_args : ℕ → ℕ → Args
unfolding decode_addr_arg decode_reg_addr_args decode_3reg_args
decode_args instr ir =
    if instr == Opcode.ldr
      || instr == Opcode.str
      || instr == Opcode.mov
      || instr == Opcode.set
      || instr == Opcode.cbz
      || instr == Opcode.cbnz
    then decode_reg_addr_args ir
    else if instr == Opcode.b || instr == Opcode.bl || instr == Opcode.bx
    then decode_addr_arg ir
    else if instr == Opcode.nop || instr == Opcode.wfi
    then (none, none, none)
    else decode_3reg_args ir

unfoldable pub decode_instruction : ℕ → ℕ × Args
unfolding decode_instr decode_args
decode_instruction ir = (decode_instr ir, decode_args (decode_instr ir) ir)
