-- ===== src/Machine/Encode/Words.antt =====
-- The words of an opcode and their operands: nothing is lost in either direction.
use osh.Prelude.{
  ℕ, ◌%◌, ◌^◌, ◌<◌, ◌≡◌, ◌≢◌, refl, sym, ap, ◌∙◌, List, [], ◌∷◌, some, arith, bit_and_byte,
}
use mathlib.Core.Equiv.{◌≃◌, iso_to_equiv}
use mathlib.Core.HLevel.{Σ_prop_path}
use native.Mathlib.Bridge.{le_prop}
use native.Mathlib.Decide.{ℕ_discrete}
use osh.Machine.Decode.{Args, decode_instr, decode_args, decode_instruction}
use osh.Machine.Encode.{encode_instruction}
use osh.Machine.Encode.Layout.{Op, opcode, Layout, layout, operands, Fits}
use osh.Machine.Encode.RoundTrip.{
  fields, word_of, Unused, decode_args-fields, word_of-fields, opcode-lt,
  encode_instruction-word_of,
}

-- the bits of an instruction word that a layout uses
abbrev pub width : Layout → ℕ
width Layout.registers = 32
width Layout.bare = 8
width _ = 64

-- The words that the decoder takes for an opcode, with nothing in the bits that its layout does not
-- use; and the operands that fit, with 0 for those that the layout does not have.
abbrev pub Word : Op → Type 0
Word op = (iw : ℕ) × ((decode_instr iw ≡ opcode op) × (iw < 2 ^ width (layout op)))

abbrev pub Operands : Op → Type 0
Operands op = (args : Args) × (Unused (layout op) args × Fits (layout op) args)

-- The fields of any word of a layout fit, and make up the word.
fields-Fits :
    (l : Layout) (op iw : ℕ)
    → iw % 256 ≡ op
    → iw < 2 ^ width l
    → Unused l (fields l iw) × Fits l (fields l iw) × (word_of l op (fields l iw) ≡ iw)
fields-Fits Layout.registers op iw e lt = (tt, (omega arith, omega arith, omega arith), omega arith)
fields-Fits Layout.immediate op iw e lt = (refl, (omega arith, omega arith), omega arith)
fields-Fits Layout.conditional op iw e lt = (refl, (omega arith, omega arith), omega arith)
fields-Fits Layout.jump op iw e lt = ((refl, refl), omega arith, omega arith)
fields-Fits Layout.long op iw e lt = ((refl, refl), omega arith, omega arith)
fields-Fits Layout.bare op iw e lt = ((refl, refl, refl), tt, omega arith)

word_of-width :
    (l : Layout) (op : ℕ) (args : Args)
    → op < 256
    → Unused l args
    → Fits l args
    → word_of l op args < 2 ^ width l
word_of-width Layout.registers op (x, y, z) h u f = omega arith
word_of-width Layout.immediate op (x, y, z) h u f = omega arith
word_of-width Layout.conditional op (x, y, z) h u f = omega arith
word_of-width Layout.jump op (x, y, z) h u f = omega arith
word_of-width Layout.long op (x, y, z) h u f = omega arith
word_of-width Layout.bare op (x, y, z) h u f = omega arith

Word-prop :
    (op : Op) (iw : ℕ) → IsProp ((decode_instr iw ≡ opcode op) × (iw < 2 ^ width (layout op)))
Word-prop op iw = hlevel (le_prop, ℕ_discrete)

Unused-prop : (l : Layout) (args : Args) → IsProp (Unused l args × Fits l args)
Unused-prop Layout.registers args = hlevel le_prop
Unused-prop Layout.immediate args = hlevel (le_prop, ℕ_discrete)
Unused-prop Layout.conditional args = hlevel (le_prop, ℕ_discrete)
Unused-prop Layout.jump args = hlevel (le_prop, ℕ_discrete)
Unused-prop Layout.long args = hlevel (le_prop, ℕ_discrete)
Unused-prop Layout.bare args = hlevel (le_prop, ℕ_discrete)

module _ (op : Op) (covered : op ≢ Op.adr) where
  number : (iw : ℕ) → decode_instr iw ≡ opcode op → iw % 256 ≡ opcode op
  unfolding decode_instr
  number iw e = sym (bit_and_byte iw) ∙ e

  to_operands : Word op → Operands op
  to_operands (iw, (e, lt)) =
      let (u, f, _) = fields-Fits (layout op) (opcode op) iw (number iw e) lt in
      (fields (layout op) iw, (u, f))

  to_word : Operands op → Word op
  unfolding decode_instr
  to_word (args, (u, f)) =
      let iw = word_of (layout op) (opcode op) args in
      let (e, _) = word_of-fields (layout op) (opcode op) args (opcode-lt op) u f in
      (iw, (bit_and_byte iw ∙ e, word_of-width (layout op) (opcode op) args (opcode-lt op) u f))

  there : (o : Operands op) → to_operands (to_word o) ≡ o
  unfolding to_operands to_word
  there (args, (u, f)) =
      let (_, e) = word_of-fields (layout op) (opcode op) args (opcode-lt op) u f in
      Σ_prop_path (Unused-prop (layout op)) e

  back : (w : Word op) → to_word (to_operands w) ≡ w
  unfolding to_operands to_word
  back (iw, (e, lt)) =
      let (_, _, whole) = fields-Fits (layout op) (opcode op) iw (number iw e) lt in
      Σ_prop_path (Word-prop op) whole

  -- The assembler makes the word again from any line whose operands, with the labels replaced, are
  -- those that the decoder finds in it.
  pub encode-decode_instruction :
      (w : Word op) (label a1 a2 a3 : ℕ) (labels : List ℕ)
      → operands (layout op) (a1, a2, a3) labels ≡ some (decode_instruction w.0).1
      → encode_instruction (label ∷ opcode op ∷ a1 ∷ a2 ∷ a3 ∷ []) labels ≡ some w.0
  unfolding decode_instruction
  encode-decode_instruction (iw, (e, lt)) label a1 a2 a3 labels h =
      let (_, f, whole) = fields-Fits (layout op) (opcode op) iw (number iw e) lt in
      let found : decode_args (decode_instr iw) iw ≡ fields (layout op) iw =
        ap (λ n. decode_args n iw) e ∙ decode_args-fields op iw covered in
      encode_instruction-word_of op label a1 a2 a3 labels (fields (layout op) iw)
        (h ∙ ap some found) f
      ∙ ap some whole

  -- For every opcode but ADR, decoding is an equivalence between the words of the opcode, with
  -- nothing in the bits that its layout does not use, and the operands that fit its fields.
  pub words_equiv :
      (e : Word op ≃ Operands op) × ((w : Word op)
        → decode_instruction w.0 ≡ (opcode op, (e.0 w).0))
  unfolding to_operands decode_instruction
  words_equiv = (
    iso_to_equiv (record { fun = to_operands; inv = to_word; rinv = there; linv = back }),
    λ (iw, (e, lt)).
        λ i. (e i, (ap (λ n. decode_args n iw) e ∙ decode_args-fields op iw covered) i),
  )
