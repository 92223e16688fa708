-- ===== src/Machine/Execute/Undefined.antt =====
-- The opcodes that no branch of `executeInstruction` and no entry of `alu` covers.
use osh.Prelude.{ℕ, ◌≤◌, ◌<◌, ◌≡◌, ◌⊎◌, List, none, arith, Ram, Option-cases, inl, inr, get_elem?}
use osh.Machine.Opcode
use osh.Machine.Alu.{alu}
use osh.Machine.Execute.{compute, execute_instruction}

-- B and ADR, and every number that is no opcode.
abbrev pub IsUncovered : ℕ → Type 0
IsUncovered instr =
    ((9 ≤ instr) × (instr < 16)) ⊎ (instr ≡ Opcode.b) ⊎ (instr ≡ Opcode.adr) ⊎ (30 ≤ instr)

alu-none : (i x y : ℕ) → 9 ≤ i → alu i x y ≡ none
unfolding alu
alu-none i x y h = ground arith

compute-none :
    (registers : List ℕ) (m : Ram) (instr r3 r1 r2 : ℕ)
    → 9 ≤ instr
    → compute registers m instr r3 r1 r2 ≡ none
compute-none registers m instr r3 r1 r2 h = elim (Option-cases (get_elem? registers r1)) [
  | inl e ↦ rw e
  | inr (x, e) ↦ rw e (elim (Option-cases (get_elem? registers r2)) [
    | inl e₁ ↦ rw e₁
    | inr (y, e₁) ↦ rw (e₁, alu-none instr x y h)
  ])
]

-- Whatever the arguments, the registers and the memory, an instruction with such an opcode indexes
-- the array `alu` out of range, or has read a register out of range before.
pub execute_instruction-uncovered :
    (instr a1 a2 a3 : ℕ) (registers : List ℕ) (m : Ram)
    → IsUncovered instr
    → execute_instruction instr (a1, a2, a3) registers m ≡ none
unfolding execute_instruction
execute_instruction-uncovered instr a1 a2 a3 registers m h =
    ground (arith, compute-none registers m instr a1 a2 a3)
