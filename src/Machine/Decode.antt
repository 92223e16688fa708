-- ===== src/Machine/Decode.antt =====
-- abstract_system_cpu_decode.cc: an instruction word into its opcode and three arguments.
use osh.Prelude.{ℕ, ◌||◌, bit_and, ◌==◌, if◌then◌else◌, shr64}
use osh.Machine.Opcode

-- The triple of arguments; the source's `None` is 0.
abbrev pub Args : Type 0
Args = ℕ × ℕ × ℕ

unfoldable pub decode_instr : ℕ → ℕ
decode_instr ir = bit_and ir 0xff

unfoldable pub decode_addr_arg : ℕ → Args
decode_addr_arg ir = (shr64 ir 8, 0, 0)

unfoldable pub decode_reg_addr_args : ℕ → Args
decode_reg_addr_args ir = (bit_and (shr64 ir 8) 0xff, shr64 ir 16, 0)

unfoldable pub decode_3reg_args : ℕ → Args
decode_3reg_args ir =
    (bit_and (shr64 ir 8) 0xff, bit_and (shr64 ir 16) 0xff, bit_and (shr64 ir 24) 0xff)

unfoldable pub decode_args : ℕ → ℕ → Args
decode_args instr ir =
    if instr == Opcode.ldr
      || instr == Opcode.str
      || instr == Opcode.mov
      || instr == Opcode.set
      || instr == Opcode.cbz
      || instr == Opcode.cbnz
    then decode_reg_addr_args ir
    else if instr == Opcode.b || instr == Opcode.bl || instr == Opcode.bx
    then decode_addr_arg ir
    else if instr == Opcode.nop || instr == Opcode.wfi
    then (0, 0, 0)
    else decode_3reg_args ir

unfoldable pub decode_instruction : ℕ → ℕ × Args
decode_instruction ir = let instr = decode_instr ir in (instr, decode_args instr ir)
