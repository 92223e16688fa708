-- ===== src/Machine/Examples/Instructions.antt =====
-- The theorems on the execution of instructions at concrete registers and memories.
use osh.Prelude.{
  false, update, ℕ, ◌-◌, ◌^◌, ◌≡◌, ◌≢◌, ◌↔◌, refl, List, [], ◌∷◌, some, arith, get_elem?, get_or,
  Ram, ◌>>=◌,
}
use osh.Machine.Constants.{lr, pc, sp}
use osh.Machine.Opcode
use osh.Machine.Decode.{decode_instruction}
use osh.Machine.Encode.{encode_instruction}
use osh.Machine.Encode.Layout.{Op, opcode}
use osh.Machine.Execute.{execute_instruction}
use osh.Machine.Alu.{alu_outputs}
use osh.Machine.Execute.Stack.{push-pop}
use osh.Machine.Execute.Frame.{changes, stores, execute_instruction-frame}
use osh.Machine.Execute.Meaning.{execute_instruction-perform}
use osh.Machine.Execute.Description.{view, perform}
use osh.Machine.Execute.Defined.{Needs, execute_instruction-Needs}
use osh.Machine.Execute.Defined.Branches.{IsDefined}
use osh.Machine.Processor.BranchLink.{branch_link-zero}
use osh.Machine.Examples.{registers, memory, nops}

push-pop_example :
    (registers' : List ℕ) × (m' : Ram) × ((execute_instruction Opcode.push
          (2, 0, 0)
          registers
          memory
        >>= λ s. execute_instruction Opcode.pop (3, 0, 0) s.0 s.1)
      ≡ some (registers', m'))
    × (m'.cells 20 ≡ 7)
    × (get_elem? registers' 3 ≡ some 22)
    × (get_elem? registers' sp ≡ some 20)
push-pop_example =
    push-pop registers memory 2 3 7 20 refl (omega arith) (omega arith) refl refl (omega arith)
      (omega arith)

branch_link-zero_example :
    (registers' : List ℕ) × ((encode_instruction (0 ∷ Opcode.bl ∷ 1 ∷ 0 ∷ 0 ∷ []) (0 ∷ 6 ∷ [])
        >>= λ iw.
            execute_instruction
              (decode_instruction iw).0
              (decode_instruction iw).1
              registers
              memory)
      ≡ some (registers', memory))
    × (get_elem? registers' pc ≡ some 0)
    × (get_elem? registers' lr ≡ some 100)
    × ((j : ℕ) → j ≢ lr → j ≢ pc → get_elem? registers' j ≡ get_elem? registers j)
branch_link-zero_example =
    branch_link-zero registers (0 ∷ 6 ∷ []) memory 1 6 100 refl (omega arith) refl refl

-- PUSH R2 with the stack pointer at 20
execute_instruction-Needs_example :
    Needs Op.push (2, 0, 0) registers nops
    ↔ IsDefined (execute_instruction (opcode Op.push) (2, 0, 0) registers nops)
execute_instruction-Needs_example = execute_instruction-Needs Op.push (2, 0, 0) registers nops refl

-- the nine operations at 6 and 7; 6 - 7 wraps round
alu_outputs_test : alu_outputs 9 0 ≡ some (13 ∷ (2 ^ 64 - 1) ∷ 42 ∷ 0 ∷ 1 ∷ 1 ∷ 0 ∷ 0 ∷ 768 ∷ [])
unfolding alu_outputs
alu_outputs_test = refl

-- after PUSH R2 with the stack pointer at 20
abbrev pushed : List ℕ
pushed = 0 ∷ 1 ∷ 7 ∷ 3 ∷ 4 ∷ 5 ∷ 6 ∷ 7 ∷ 8 ∷ 9 ∷ 10 ∷ 11 ∷ 12 ∷ 21 ∷ 14 ∷ 100 ∷ []

abbrev pushed_memory : Ram
pushed_memory = record memory { cells = update memory.cells 20 7 }

push_test :
    execute_instruction (opcode Op.push) (2, 0, 0) registers memory ≡ some (pushed, pushed_memory)
unfolding execute_instruction
push_test = refl

execute_instruction-frame_example :
    ((j : ℕ) → changes Op.push (2, 0, 0) j ≡ false → get_elem? pushed j ≡ get_elem? registers j)
    × ((a : ℕ)
        → stores Op.push (2, 0, 0) registers a ≡ false
        → pushed_memory.cells a ≡ memory.cells a)
    × (pushed_memory.size ≡ memory.size)
execute_instruction-frame_example =
    execute_instruction-frame Op.push (2, 0, 0) registers pushed memory pushed_memory push_test

-- POP R2 with the stack pointer at 20
execute_instruction-perform_example :
    (registers' : List ℕ) × (m' : Ram) × (execute_instruction
        (opcode Op.pop)
        (2, 0, 0)
        registers
        memory
      ≡ some (registers', m'))
    × ((j : ℕ) → get_or registers' j 0 ≡ (perform Op.pop (2, 0, 0) (view registers memory)).0 j)
    × ((a : ℕ) → m'.cells a ≡ (perform Op.pop (2, 0, 0) (view registers memory)).1 a)
execute_instruction-perform_example =
    execute_instruction-perform Op.pop (2, 0, 0) registers memory refl (omega arith, omega arith)
