-- ===== src/Machine/Examples/Assembly.antt =====
-- The theorems on the assembler at concrete programs.
use osh.Prelude.{ℕ, ◌+◌, ◌≡◌, refl, List, [], ◌∷◌, some, arith, ◌>>=◌}
use osh.Machine.Constants.{code}
use osh.Machine.Opcode
use osh.Machine.Decode.{decode_instruction}
use osh.Machine.Encode.{Instr, encode_instruction, encode_program}
use osh.Machine.Encode.Layout.{Op}
use osh.Machine.Encode.RoundTrip.{decode-encode_instruction}
use osh.Machine.Encode.Program.{encode_program-meanings}
use mathlib.Core.List.{map}
use mathlib.Core.Equiv.{◌≃◌}
use osh.Machine.Encode.Words.{Word, Operands, words_equiv}

-- CBNZ R4, of a label on line 5
decode-encode_instruction_example :
    (encode_instruction (0 ∷ 26 ∷ 4 ∷ 1 ∷ 0 ∷ []) (0 ∷ 5 ∷ []) >>= λ iw.
    some (decode_instruction iw))
    ≡ some (26, (4, code + 5, 0))
decode-encode_instruction_example =
    decode-encode_instruction Op.cbnz 0 4 1 0 (0 ∷ 5 ∷ []) (4, code + 5, 0) (λ e. cc) refl
      (omega arith, omega arith)

-- a loop of two lines
abbrev first_line : Instr
first_line = 1 ∷ Opcode.sub ∷ 4 ∷ 4 ∷ 5 ∷ []

abbrev second_line : Instr
second_line = 0 ∷ Opcode.cbnz ∷ 4 ∷ 1 ∷ 0 ∷ []

encode_program_test :
    encode_program (first_line ∷ second_line ∷ []) ≡ some (84149249 ∷ 824634770458 ∷ [])
unfolding encode_program encode_instruction
encode_program_test = refl

-- The same loop, where the label 1 stands for line 0.
encode_program-meanings_example :
    (iws : List ℕ) × (encode_program (first_line ∷ second_line ∷ []) ≡ some iws)
    × (map decode_instruction iws ≡ (1, (4, 4, 5)) ∷ (26, (4, 0 + code, 0)) ∷ [])
encode_program-meanings_example =
    encode_program-meanings ((1, Op.sub, (4, 4, 5)) ∷ (0, Op.cbnz, (4, 1, 0)) ∷ []) (
      (λ e. cc, omega arith, tt, (omega arith, omega arith, omega arith)),
      ((λ e. cc, omega arith, (omega arith, omega arith), (omega arith, omega arith)), tt),
    )

words_equiv_example :
    (e : Word Op.cbnz ≃ Operands Op.cbnz) × ((w : Word Op.cbnz)
      → decode_instruction w.0 ≡ (26, (e.0 w).0))
words_equiv_example = words_equiv Op.cbnz (λ e. cc)
