-- ===== src/Machine/Encode/Layout.antt =====
-- An independent description of the instruction set: which fields each opcode has.
use osh.Prelude.{ℕ, ◌+◌, ◌^◌, ◌<◌, List, Option, some, get_elem?, ◌>>=◌}
use osh.Machine.Constants.{code}
use osh.Machine.Decode.{Args}

pub data Op : Type 0 where
  add sub mul div and or eor ars als : Op
  ldr str bl bx push pop mov set nop cbz cbnz b adr wfi : Op

-- the number of an opcode in abstract_system_constants.h
abbrev pub opcode : Op → ℕ
opcode Op.add = 0
opcode Op.sub = 1
opcode Op.mul = 2
opcode Op.div = 3
opcode Op.and = 4
opcode Op.or = 5
opcode Op.eor = 6
opcode Op.ars = 7
opcode Op.als = 8
opcode Op.ldr = 16
opcode Op.str = 17
opcode Op.bl = 18
opcode Op.bx = 19
opcode Op.push = 20
opcode Op.pop = 21
opcode Op.mov = 22
opcode Op.set = 23
opcode Op.nop = 24
opcode Op.cbz = 25
opcode Op.cbnz = 26
opcode Op.b = 27
opcode Op.adr = 28
opcode Op.wfi = 29

-- Three registers; a register and a value; a register and a label; a label; one long field; nothing.
pub data Layout : Type 0 where
  registers immediate conditional jump long bare : Layout

abbrev pub layout : Op → Layout
layout Op.ldr = Layout.immediate
layout Op.str = Layout.immediate
layout Op.mov = Layout.immediate
layout Op.set = Layout.immediate
layout Op.cbz = Layout.conditional
layout Op.cbnz = Layout.conditional
layout Op.adr = Layout.conditional
layout Op.bl = Layout.jump
layout Op.b = Layout.jump
layout Op.bx = Layout.long
layout Op.nop = Layout.bare
layout Op.wfi = Layout.bare
layout _ = Layout.registers

-- What the arguments of an assembler line stand for, with `labels` giving the line of each label.
abbrev pub operands : Layout → Args → List ℕ → Option Args
operands Layout.registers (a1, a2, a3) labels = some (a1, a2, a3)
operands Layout.immediate (a1, a2, a3) labels = some (a1, a2, 0)
operands Layout.conditional (a1, a2, a3) labels =
    get_elem? labels a2 >>= λ line. some (a1, line + code, 0)
operands Layout.jump (a1, a2, a3) labels = get_elem? labels a1 >>= λ line. some (line + code, 0, 0)
operands Layout.long (a1, a2, a3) labels = some (a1, 0, 0)
operands Layout.bare (a1, a2, a3) labels = some (0, 0, 0)

-- The operands fit the fields of the instruction word.
abbrev pub Fits : Layout → Args → Type 0
Fits Layout.registers (x, y, z) = (x < 256) × (y < 256) × (z < 256)
Fits Layout.immediate (x, y, z) = (x < 256) × (y < 2 ^ 48)
Fits Layout.conditional (x, y, z) = (x < 256) × (y < 2 ^ 48)
Fits Layout.jump (x, y, z) = x < 2 ^ 56
Fits Layout.long (x, y, z) = x < 2 ^ 56
Fits Layout.bare (x, y, z) = Unit {0}
