-- ===== src/Machine/Execute/Defined.antt =====
-- When an instruction is defined.
pub mod Branches
use osh.Prelude.{
  ℕ, shl64, shr64, ◌/◌, ◌<◌, ◌≡◌, ◌≢◌, refl, List, [], true, false, arith, lt→ltb, get_or, length,
  Ram, inl, inr, ◌↔◌, ne→==,
}
use osh.Machine.Constants.{sp, nregs}
use osh.Machine.Alu.{alu}
use osh.Machine.Decode.{Args}
use osh.Machine.Encode.Layout.{Op, opcode}
use osh.Machine.Execute.Undefined.{execute_instruction-uncovered}
use osh.Machine.Execute.{execute_instruction}
use osh.Machine.Execute.Defined.Branches.{
  IsDefined, load_register-Needs, store_register-Needs, push_register-Needs, pop_register-Needs,
  branch_on_zero-Needs, branch_link-Needs, branch_register-Needs, move_register-Needs,
  set_register-Needs, compute-Needs,
}

-- the second operand of an operation of the ALU
abbrev Operand : Op → ℕ → Type 0
Operand Op.div y = y ≢ 0
Operand Op.ars y = y < 64
Operand Op.als y = y < 64
Operand _ y = Unit {0}

-- What an instruction needs: registers that exist, addresses in the memory, and an operand that its
-- operation is defined for. B and ADR are never executed.
abbrev pub Needs : Op → Args → List ℕ → Ram → Type 0
Needs Op.ldr (r1, addr, _) registers m = (r1 < nregs) × (addr < m.size)
Needs Op.str (r1, r2, _) registers m =
    (r1 < nregs) × (r2 < nregs) × (get_or registers r2 0 < m.size)
Needs Op.push (r1, _, _) registers m = (r1 < nregs) × (get_or registers sp 0 < m.size)
Needs Op.pop (r1, _, _) registers m = (r1 < nregs) × (get_or registers sp 0 < m.size)
Needs Op.cbz (r1, _, _) registers m = r1 < nregs
Needs Op.cbnz (r1, _, _) registers m = r1 < nregs
Needs Op.bl _ registers m = Unit
Needs Op.bx (r1, _, _) registers m = r1 < nregs
Needs Op.mov (r1, r2, _) registers m = (r1 < nregs) × (r2 < nregs)
Needs Op.set (r1, _, _) registers m = r1 < nregs
Needs Op.nop _ registers m = Unit
Needs Op.wfi _ registers m = Unit
Needs Op.b _ registers m = ⊥
Needs Op.adr _ registers m = ⊥
Needs op (r3, r1, r2) registers m =
    (r3 < nregs) × (r1 < nregs) × (r2 < nregs) × Operand op (get_or registers r2 0)

alu-div : (x y : ℕ) → (y ≢ 0) ↔ IsDefined (alu 3 x y)
unfolding alu
alu-div x y = (λ h. (x / y, rw (ne→== y 0 h)), λ d e. let f = rw e at d.1 in cc)

alu-ars : (x y : ℕ) → (y < 64) ↔ IsDefined (alu 7 x y)
unfolding alu
alu-ars x y = (λ h. (shr64 x y, rw (lt→ltb _ _ h)), λ d. let e = d.1 in ground arith)

alu-als : (x y : ℕ) → (y < 64) ↔ IsDefined (alu 8 x y)
unfolding alu
alu-als x y = (λ h. (shl64 x y, rw (lt→ltb _ _ h)), λ d. let e = d.1 in ground arith)

-- On sixteen registers, an instruction has a result exactly if what it needs is there: without a
-- register, an address or an operand of its own, and for B and ADR in every case, its execution is
-- undefined.
pub execute_instruction-Needs :
    (op : Op) (args : Args) (registers : List ℕ) (m : Ram)
    → length registers ≡ nregs
    → Needs op args registers m ↔ IsDefined (execute_instruction (opcode op) args registers m)
unfolding execute_instruction
execute_instruction-Needs Op.ldr (a1, a2, a3) registers m len =
    load_register-Needs registers m len a1 a2
execute_instruction-Needs Op.str (a1, a2, a3) registers m len =
    store_register-Needs registers m len a1 a2
execute_instruction-Needs Op.push (a1, a2, a3) registers m len =
    push_register-Needs registers m len a1
execute_instruction-Needs Op.pop (a1, a2, a3) registers m len =
    pop_register-Needs registers m len a1
execute_instruction-Needs Op.cbz (a1, a2, a3) registers m len =
    branch_on_zero-Needs registers m len true a1 a2
execute_instruction-Needs Op.cbnz (a1, a2, a3) registers m len =
    branch_on_zero-Needs registers m len false a1 a2
execute_instruction-Needs Op.bl (a1, a2, a3) registers m len = branch_link-Needs registers m len a2
execute_instruction-Needs Op.bx (a1, a2, a3) registers m len =
    branch_register-Needs registers m len a1
execute_instruction-Needs Op.mov (a1, a2, a3) registers m len =
    move_register-Needs registers m len a1 a2
execute_instruction-Needs Op.set (a1, a2, a3) registers m len =
    set_register-Needs registers m len a1 a2
execute_instruction-Needs Op.nop args registers m len = (λ _. ((registers, m), refl), λ _. tt)
execute_instruction-Needs Op.wfi args registers m len = (λ _. ((registers, m), refl), λ _. tt)
execute_instruction-Needs Op.b (a1, a2, a3) registers m len = (
  λ h. elim h [ ],
  λ d.
      let e = execute_instruction-uncovered 27 a1 a2 a3 registers m (inr (inl refl)) in cc (d.1, e),
)
execute_instruction-Needs Op.adr (a1, a2, a3) registers m len = (
  λ h. elim h [ ],
  λ d.
      let e = execute_instruction-uncovered 28 a1 a2 a3 registers m (inr (inr (inl refl))) in
      cc (d.1, e),
)
execute_instruction-Needs Op.div (a1, a2, a3) registers m len =
    compute-Needs registers m len (Operand Op.div) 3 a1 a2 a3 alu-div
execute_instruction-Needs Op.ars (a1, a2, a3) registers m len =
    compute-Needs registers m len (Operand Op.ars) 7 a1 a2 a3 alu-ars
execute_instruction-Needs Op.als (a1, a2, a3) registers m len =
    compute-Needs registers m len (Operand Op.als) 8 a1 a2 a3 alu-als
execute_instruction-Needs Op.add (a1, a2, a3) registers m len =
    compute-Needs registers m len (Operand Op.add) 0 a1 a2 a3 (λ x y. (λ _. (_, refl), λ _. tt))
execute_instruction-Needs Op.sub (a1, a2, a3) registers m len =
    compute-Needs registers m len (Operand Op.sub) 1 a1 a2 a3 (λ x y. (λ _. (_, refl), λ _. tt))
execute_instruction-Needs Op.mul (a1, a2, a3) registers m len =
    compute-Needs registers m len (Operand Op.mul) 2 a1 a2 a3 (λ x y. (λ _. (_, refl), λ _. tt))
execute_instruction-Needs Op.and (a1, a2, a3) registers m len =
    compute-Needs registers m len (Operand Op.and) 4 a1 a2 a3 (λ x y. (λ _. (_, refl), λ _. tt))
execute_instruction-Needs Op.or (a1, a2, a3) registers m len =
    compute-Needs registers m len (Operand Op.or) 5 a1 a2 a3 (λ x y. (λ _. (_, refl), λ _. tt))
execute_instruction-Needs Op.eor (a1, a2, a3) registers m len =
    compute-Needs registers m len (Operand Op.eor) 6 a1 a2 a3 (λ x y. (λ _. (_, refl), λ _. tt))
