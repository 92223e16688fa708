-- ===== src/Machine/Processor/BranchLink.antt =====
-- A call: BL as the assembler writes it and the processor runs it.
use osh.Prelude.{
  ℕ, ◌+◌, ◌^◌, ◌<◌, ◌≡◌, ◌≢◌, ◌∙◌, List, [], ◌∷◌, some, arith, get_elem?, length, Ram, ◌>>=◌,
  >>=-eq-some, some_inj, get_elem?-write?, write?_total, length-write?,
}
use osh.Machine.Opcode
use osh.Machine.Constants.{lr, pc, nregs, code}
use osh.Machine.Decode.{decode_instruction}
use osh.Machine.Encode.{encode_instruction}
use osh.Machine.Encode.Layout.{Op}
use osh.Machine.Encode.RoundTrip.{decode-encode_instruction}
use osh.Machine.Execute.{execute_instruction}

-- BL of a label on line `line`, assembled, decoded and executed at counter `at`: the counter goes
-- to address 0 whatever the line is, with `at` in the link register and nothing else changed.
pub branch_link-zero :
    (registers labels : List ℕ) (m : Ram) (label line at : ℕ)
    → get_elem? labels label ≡ some line
    → line + code < 2 ^ 56
    → length registers ≡ nregs
    → get_elem? registers pc ≡ some at
    → (registers' : List ℕ) × ((encode_instruction (0 ∷ Opcode.bl ∷ label ∷ 0 ∷ 0 ∷ []) labels
          >>= λ iw.
              execute_instruction (decode_instruction iw).0 (decode_instruction iw).1 registers m)
        ≡ some (registers', m))
      × (get_elem? registers' pc ≡ some 0)
      × (get_elem? registers' lr ≡ some at)
      × ((j : ℕ) → j ≢ lr → j ≢ pc → get_elem? registers' j ≡ get_elem? registers j)
unfolding execute_instruction
branch_link-zero registers labels m label line at target fits len counter =
    let (r₁, w₁) = write?_total registers lr at (omega (arith, len)) in
    let (r₂, w₂) = write?_total r₁ pc 0 (omega (arith, len, length-write? registers lr at w₁)) in
    let (iw, p, q) =
      >>=-eq-some (encode_instruction (0 ∷ Opcode.bl ∷ label ∷ 0 ∷ 0 ∷ []) labels) _ (
        decode-encode_instruction Op.bl 0 label 0 0 labels (line + code, 0, 0) (λ e. cc) (rw target)
          fits) in
    (
      r₂,
      rw (p, some_inj q) (rw (counter, w₁, w₂)),
      get_elem?-write? r₁ pc 0 w₂ pc,
      get_elem?-write? r₁ pc 0 w₂ lr ∙ get_elem?-write? registers lr at w₁ lr,
      λ j hl hp.
          ground (arith, get_elem?-write? r₁ pc 0 w₂ j, get_elem?-write? registers lr at w₁ j),
    )
