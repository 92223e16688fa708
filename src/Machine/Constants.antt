-- ===== src/Machine/Constants.antt =====
-- The sizes, registers and memory map of abstract_system_constants.h, by the source's sums.
use osh.Prelude.{ℕ, ◌+◌}

abbrev pub timer_state_sz : ℕ
timer_state_sz = 0x10

abbrev pub kbd_state_sz : ℕ
kbd_state_sz = 0x100

abbrev pub nic_state_sz : ℕ
nic_state_sz = 0x1000

abbrev pub ssd_state_sz : ℕ
ssd_state_sz = 0x100000

abbrev pub gpu_state_sz : ℕ
gpu_state_sz = 0x80000

abbrev pub ram_state_sz : ℕ
ram_state_sz = 0xE00000

abbrev pub ivt_sz : ℕ
ivt_sz = 16

abbrev pub heap_sz : ℕ
heap_sz = 0x800000

abbrev pub stack_sz : ℕ
stack_sz = 0x400000

abbrev pub code_sz : ℕ
code_sz = 0x200000

abbrev pub nregs : ℕ
nregs = 16

abbrev pub sp : ℕ
sp = 13

abbrev pub lr : ℕ
lr = 14

abbrev pub pc : ℕ
pc = 15

abbrev pub ivt : ℕ
ivt = 0x0

abbrev pub heap : ℕ
heap = ivt + ivt_sz

abbrev pub stack : ℕ
stack = heap + heap_sz

abbrev pub code : ℕ
code = stack + stack_sz

abbrev pub memtop : ℕ
memtop = code + code_sz

abbrev pub timer : ℕ
timer = memtop

abbrev pub kbd : ℕ
kbd = timer + timer_state_sz

abbrev pub nic : ℕ
nic = kbd + kbd_state_sz

abbrev pub ssd : ℕ
ssd = nic + nic_state_sz

abbrev pub gpu : ℕ
gpu = ssd + ssd_state_sz

abbrev pub statetop : ℕ
statetop = gpu + gpu_state_sz
