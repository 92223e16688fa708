-- ===== src/Python/Examples.antt =====
-- A program for both assemblers, and one that only that in C++ takes.
use osh.Prelude.{ℕ, ◌+◌, ◌*◌, ◌≡◌, refl, List, [], ◌∷◌, none, some, arith}
use mathlib.Core.List.{map}
use osh.Machine.Opcode
use osh.Machine.Constants.{code}
use osh.Machine.Encode
use osh.Machine.Decode
use osh.Python.{Line, encode_instruction, encode_program}
use osh.Python.Arguments.{ported}
use osh.Python.Port.{blanked, encode_program-ported}

-- A loop that counts R4 down: label 1 is its first line.
abbrev counting : List Line
counting =
    (none, Opcode.set ∷ 4 ∷ 9 ∷ [])
    ∷ (some 1, Opcode.sub ∷ 4 ∷ 4 ∷ 5 ∷ [])
    ∷ (none, Opcode.cbnz ∷ 4 ∷ 1 ∷ [])
    ∷ (none, Opcode.wfi ∷ [])
    ∷ []

abbrev words : List ℕ
words =
    (23 + 4 * 256 + 9 * 65536)
    ∷ (1 + 4 * 256 + 4 * 65536 + 5 * 16777216)
    ∷ (26 + 4 * 256 + (1 + code) * 65536)
    ∷ 29
    ∷ []

counting-words : encode_program counting ≡ some words
unfolding encode_program
counting-words = refl

encode_program-ported_example :
    (Encode.encode_program (map ported counting) ≡ some words)
    × (map Decode.decode_instruction words ≡ map blanked words)
encode_program-ported_example =
    encode_program-ported counting words counting-words (omega arith) (omega arith)

-- BX leaves the second argument None, and the word is computed from it.
bx_fails : encode_instruction (Opcode.bx ∷ 14 ∷ []) (λ _. none) ≡ none
unfolding encode_instruction
bx_fails = refl

bx_passes : Encode.encode_instruction (ported (none, Opcode.bx ∷ 14 ∷ [])) [] ≡ some (19 + 14 * 256)
unfolding Encode.encode_instruction
bx_passes = refl
