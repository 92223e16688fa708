-- ===== src/Machine/Encode/RoundTrip.antt =====
-- Decoding what the assembler encodes.
use osh.Prelude.{
  ℕ, ◌/◌, ◌%◌, ◌^◌, ◌<◌, ◌≡◌, ◌≢◌, refl, List, [], ◌∷◌, some, arith, bit_and, bit_and_byte, ap, ◌∙◌,
  add64, shl64, ◌>>=◌,
}
use osh.Machine.Decode.{
  Args, decode_instr, decode_addr_arg, decode_reg_addr_args, decode_3reg_args, decode_args,
  decode_instruction,
}
use osh.Machine.Encode.{encode_instruction}
use osh.Machine.Encode.Layout.{Op, opcode, Layout, layout, operands, Fits}

-- the decoder's fields as quotients and remainders
abbrev pub fields : Layout → ℕ → Args
fields Layout.registers iw = (iw / 2 ^ 8 % 256, iw / 2 ^ 16 % 256, iw / 2 ^ 24 % 256)
fields Layout.immediate iw = (iw / 2 ^ 8 % 256, iw / 2 ^ 16, 0)
fields Layout.conditional iw = (iw / 2 ^ 8 % 256, iw / 2 ^ 16, 0)
fields Layout.jump iw = (iw / 2 ^ 8, 0, 0)
fields Layout.long iw = (iw / 2 ^ 8, 0, 0)
fields Layout.bare iw = (0, 0, 0)

registers_fields : (iw : ℕ) → decode_3reg_args iw ≡ fields Layout.registers iw
unfolding decode_3reg_args
registers_fields iw = simp bit_and_byte

immediate_fields : (iw : ℕ) → decode_reg_addr_args iw ≡ fields Layout.immediate iw
unfolding decode_reg_addr_args
immediate_fields iw = simp bit_and_byte

pub decode_args-fields :
    (op : Op) (iw : ℕ) → op ≢ Op.adr → decode_args (opcode op) iw ≡ fields (layout op) iw
unfolding decode_args decode_addr_arg
decode_args-fields Op.ldr iw h = immediate_fields iw
decode_args-fields Op.str iw h = immediate_fields iw
decode_args-fields Op.mov iw h = immediate_fields iw
decode_args-fields Op.set iw h = immediate_fields iw
decode_args-fields Op.cbz iw h = immediate_fields iw
decode_args-fields Op.cbnz iw h = immediate_fields iw
decode_args-fields Op.bl iw h = refl
decode_args-fields Op.b iw h = refl
decode_args-fields Op.bx iw h = refl
decode_args-fields Op.nop iw h = refl
decode_args-fields Op.wfi iw h = refl
decode_args-fields Op.adr iw h = absurd (h refl)
decode_args-fields _ iw h = registers_fields iw

-- the assembler's word, over any opcode number of the layout
abbrev pub word_of : Layout → ℕ → Args → ℕ
word_of Layout.registers op (x, y, z) =
    add64 (add64 (add64 op (shl64 x 8)) (shl64 y 16)) (shl64 z 24)
word_of Layout.immediate op (x, y, z) = add64 (add64 op (shl64 x 8)) (shl64 y 16)
word_of Layout.conditional op (x, y, z) = add64 (add64 op (shl64 x 8)) (shl64 y 16)
word_of Layout.jump op (x, y, z) = add64 op (shl64 x 8)
word_of Layout.long op (x, y, z) = add64 (add64 (add64 op (shl64 x 8)) (shl64 0 16)) (shl64 0 24)
word_of Layout.bare op (x, y, z) = op

-- the fields that a layout does not have are 0
abbrev pub Unused : Layout → Args → Type 0
Unused Layout.registers (x, y, z) = Unit {0}
Unused Layout.immediate (x, y, z) = z ≡ 0
Unused Layout.conditional (x, y, z) = z ≡ 0
Unused Layout.jump (x, y, z) = (y ≡ 0) × (z ≡ 0)
Unused Layout.long (x, y, z) = (y ≡ 0) × (z ≡ 0)
Unused Layout.bare (x, y, z) = (x ≡ 0) × (y ≡ 0) × (z ≡ 0)

pub operands-Unused :
    (l : Layout) (args source : Args) (labels : List ℕ)
    → operands l source labels ≡ some args
    → Unused l args
operands-Unused Layout.registers args source labels e = tt
operands-Unused Layout.immediate (x, y, z) (a1, a2, a3) labels e = ground arith
operands-Unused Layout.conditional (x, y, z) (a1, a2, a3) labels e = ground arith
operands-Unused Layout.jump (x, y, z) (a1, a2, a3) labels e = ground arith
operands-Unused Layout.long (x, y, z) (a1, a2, a3) labels e = ground arith
operands-Unused Layout.bare (x, y, z) source labels e = ground arith

triple : {x y z a b c : ℕ} → x ≡ a → y ≡ b → z ≡ c → ◌≡◌ {A = Args} (x, y, z) (a, b, c)
triple p q r = λ i. (p i, q i, r i)

-- The fields of a word are the operands that it was made of.
pub word_of-fields :
    (l : Layout) (op : ℕ) (args : Args)
    → op < 256
    → Unused l args
    → Fits l args
    → (word_of l op args % 256 ≡ op) × (fields l (word_of l op args) ≡ args)
word_of-fields Layout.registers op (x, y, z) h u f =
    (omega arith, triple (omega arith) (omega arith) (omega arith))
word_of-fields Layout.immediate op (x, y, z) h u f =
    (omega arith, triple (omega arith) (omega arith) (omega arith))
word_of-fields Layout.conditional op (x, y, z) h u f =
    (omega arith, triple (omega arith) (omega arith) (omega arith))
word_of-fields Layout.jump op (x, y, z) h u f =
    (omega arith, triple (omega arith) (omega arith) (omega arith))
word_of-fields Layout.long op (x, y, z) h u f =
    (omega arith, triple (omega arith) (omega arith) (omega arith))
word_of-fields Layout.bare op (x, y, z) h u f =
    (omega arith, triple (omega arith) (omega arith) (omega arith))

pub opcode-lt : (op : Op) → opcode op < 256
opcode-lt Op.add = omega arith
opcode-lt _ = omega arith

-- The assembler on one line: the layout's word of the operands.
pub encode_instruction-word_of :
    (op : Op) (label a1 a2 a3 : ℕ) (labels : List ℕ) (args : Args)
    → operands (layout op) (a1, a2, a3) labels ≡ some args
    → Fits (layout op) args
    → encode_instruction (label ∷ opcode op ∷ a1 ∷ a2 ∷ a3 ∷ []) labels
      ≡ some (word_of (layout op) (opcode op) args)
unfolding encode_instruction
encode_instruction-word_of Op.add label a1 a2 a3 labels (x, y, z) e f = ground arith
encode_instruction-word_of _ label a1 a2 a3 labels (x, y, z) e f = ground arith

-- Assembling a line and decoding the word gives back the opcode and its operands, with labels
-- replaced by addresses, for every opcode but ADR and all operands that fit their fields.
pub decode-encode_instruction :
    (op : Op) (label a1 a2 a3 : ℕ) (labels : List ℕ) (args : Args)
    → op ≢ Op.adr
    → operands (layout op) (a1, a2, a3) labels ≡ some args
    → Fits (layout op) args
    → (encode_instruction (label ∷ opcode op ∷ a1 ∷ a2 ∷ a3 ∷ []) labels >>= λ iw.
        some (decode_instruction iw))
      ≡ some (opcode op, args)
unfolding decode_instruction decode_instr
decode-encode_instruction op label a1 a2 a3 labels args h e f =
    rw (encode_instruction-word_of op label a1 a2 a3 labels args e f)
      (ap some (λ i. (number i, (ap (λ n. decode_args n iw) number ∙ arguments) i)))
  where
    iw : ℕ
    iw = word_of (layout op) (opcode op) args

    made : (iw % 256 ≡ opcode op) × (fields (layout op) iw ≡ args)
    made =
        word_of-fields (layout op) (opcode op) args (opcode-lt op)
          (operands-Unused (layout op) args (a1, a2, a3) labels e) f

    number : bit_and iw 255 ≡ opcode op
    number = bit_and_byte iw ∙ made.0

    arguments : decode_args (opcode op) iw ≡ args
    arguments = decode_args-fields op iw h ∙ made.1
