-- ===== src/Machine/Execute.antt =====
-- abstract_system_cpu_execute.cc: one decoded instruction on the registers and the memory.
-- `none` is an access out of range or an undefined operation of the ALU.
pub mod Invariant
pub mod Stack
pub mod Undefined
pub mod Defined
pub mod Frame
pub mod Description
pub mod Meaning
use osh.Prelude.{
  ℕ, List, Bool, ◌||◌, not, Option, some, ◌==◌, if◌then◌else◌, get_elem?, write?, Ram, load, store,
  ◌>>=◌, add64, sub64,
}
use osh.Machine.Opcode
use osh.Machine.Constants.{sp, lr, pc}
use osh.Machine.Alu.{alu}
use osh.Machine.Decode.{Args}

-- the branches of the `if` on the opcode, by what they do
module _ (registers : List ℕ) (system_state : Ram) where
  abbrev pub load_register : ℕ → ℕ → Option (List ℕ × Ram)
  load_register r1 addr = do
    v ← load system_state addr
    registers' ← write? registers r1 v
    some (registers', system_state)

  abbrev pub store_register : ℕ → ℕ → Option (List ℕ × Ram)
  store_register r1 r2 = do
    addr2 ← get_elem? registers r2
    v ← get_elem? registers r1
    system_state' ← store system_state addr2 v
    some (registers, system_state')

  abbrev pub push_register : ℕ → Option (List ℕ × Ram)
  push_register r1 = do
    sptr ← get_elem? registers sp
    v ← get_elem? registers r1
    system_state' ← store system_state sptr v
    registers' ← write? registers sp (add64 sptr 1)
    some (registers', system_state')

  abbrev pub pop_register : ℕ → Option (List ℕ × Ram)
  pop_register r1 = do
    sptr ← get_elem? registers sp
    v ← load system_state sptr
    registers₁ ← write? registers r1 v
    sptr₁ ← get_elem? registers₁ sp
    registers₂ ← write? registers₁ sp (sub64 sptr₁ 1)
    some (registers₂, system_state)

  -- CBZ and CBNZ: `when` tells on which value of the test `registers[r1]==0` they jump
  abbrev pub branch_on_zero : Bool → ℕ → ℕ → Option (List ℕ × Ram)
  branch_on_zero when r1 addr = do
    v ← get_elem? registers r1
    registers' ←
        if (if when then v == 0 else not (v == 0)) then write? registers pc addr else some registers
    some (registers', system_state)

  abbrev pub branch_link : ℕ → Option (List ℕ × Ram)
  branch_link sraddr = do
    pctr ← get_elem? registers pc
    registers₁ ← write? registers lr pctr
    registers₂ ← write? registers₁ pc sraddr
    some (registers₂, system_state)

  abbrev pub branch_register : ℕ → Option (List ℕ × Ram)
  branch_register r1 = do
    lreg ← get_elem? registers r1
    registers' ← write? registers pc lreg
    some (registers', system_state)

  abbrev pub move_register : ℕ → ℕ → Option (List ℕ × Ram)
  move_register r1 r2 = do
    v ← get_elem? registers r2
    registers' ← write? registers r1 v
    some (registers', system_state)

  abbrev pub set_register : ℕ → ℕ → Option (List ℕ × Ram)
  set_register r1 v2 = do registers' ← write? registers r1 v2; some (registers', system_state)

  abbrev pub compute : ℕ → ℕ → ℕ → ℕ → Option (List ℕ × Ram)
  compute instr r3 r1 r2 = do
    v1 ← get_elem? registers r1
    v2 ← get_elem? registers r2
    v3 ← alu instr v1 v2
    registers' ← write? registers r3 v3
    some (registers', system_state)

unfoldable pub execute_instruction : ℕ → Args → List ℕ → Ram → Option (List ℕ × Ram)
unfolding alu
execute_instruction instr (a1, a2, a3) registers system_state =
    if instr == Opcode.ldr
    then load_register registers system_state a1 a2
    else if instr == Opcode.str
    then store_register registers system_state a1 a2
    else if instr == Opcode.push
    then push_register registers system_state a1
    else if instr == Opcode.pop
    then pop_register registers system_state a1
    else if instr == Opcode.cbnz
    then branch_on_zero registers system_state Bool.false a1 a2
    else if instr == Opcode.cbz
    then branch_on_zero registers system_state Bool.true a1 a2
    else if instr == Opcode.bl
    then branch_link registers system_state a2
    else if instr == Opcode.bx
    then branch_register registers system_state a1
    else if instr == Opcode.mov
    then move_register registers system_state a1 a2
    else if instr == Opcode.set
    then set_register registers system_state a1 a2
    else if instr == Opcode.nop || instr == Opcode.wfi
    then some (registers, system_state)
    else compute registers system_state instr a1 a2 a3
