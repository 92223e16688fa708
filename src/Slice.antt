-- ===== src/Slice.antt =====
-- Code/Ch1-memory-centric-system-model/basic-OS-concepts/time_slice.py: the switch between two
-- tasks. No module of the repository defines PID, TCB_OFFSET and TCB_SZ: they are parameters. MSP is
-- that of the models' abstract_system_constants.py.
pub mod Loops
pub mod Pops
pub mod Switch
pub mod Resume
mod Examples
use osh.Prelude.{
  ℕ, zero, suc, ◌+◌, ◌-◌, ◌*◌, Option, none, some, ltb, ◌==◌, if◌then◌else◌, ◌>>=◌, Ram, load,
  store,
}

abbrev pub nregs_context : ℕ
nregs_context = 16

abbrev pub msp : ℕ
msp = 21

-- `systemState` and `registers`
pub record Context : Type 0 where
  pub system_state : Ram
  pub registers : Ram

-- `systemState[registers[MSP]]=v` and `registers[MSP]+=1`
unfoldable pub push_word : ℕ → Context → Option Context
push_word v s = do
  top ← load s.registers msp
  system_state ← store s.system_state top v
  registers ← store s.registers msp (top + 1)
  some (record { system_state = system_state; registers = registers })

-- `systemState[registers[MSP]]`
unfoldable pub top_word : Context → Option ℕ
top_word s = load s.registers msp >>= load s.system_state

-- `registers[MSP]-=1`. A pointer below 0, which would count from the end, is left out.
unfoldable pub drop_word : Context → Option Context
drop_word s = do
  top ← load s.registers msp
  registers ← if top == 0 then none else store s.registers msp (top - 1)
  some (record s { registers = registers })

-- `for r in range(...)`, with the rounds that are left and the `r` of the next one
unfoldable pub for_range : ℕ → ℕ → (ℕ → Context → Option Context) → Context → Option Context
for_range zero r body s = some s
for_range (suc n) r body s = body r s >>= for_range n (r + 1) body

-- the body of the first loop
unfoldable pub push_register : ℕ → Context → Option Context
unfolding push_word
push_register r s = load s.registers r >>= λ v. push_word v s

-- of the second
unfoldable pub save_word : ℕ → ℕ → Context → Option Context
unfolding top_word drop_word
save_word tcb1 r s = do
  r0 ← top_word s
  system_state ← store s.system_state (tcb1 + r) r0
  drop_word (record s { system_state = system_state })

-- of the third
unfoldable pub push_saved : ℕ → ℕ → Context → Option Context
unfolding push_word
push_saved tcb2 r s = load s.system_state (tcb2 + r) >>= λ r0. push_word r0 s

-- of the fourth
unfoldable pub pop_register : ℕ → Context → Option Context
unfolding top_word drop_word
pop_register r s = do
  v ← top_word s
  registers ← store s.registers r v
  drop_word (record s { registers = registers })

-- the loops from the second on
unfoldable pub exchange : ℕ → ℕ → Context → Option Context
unfolding for_range save_word push_saved pop_register
exchange tcb1 tcb2 s = do
  saved ← for_range nregs_context 0 (save_word tcb1) s
  fetched ← for_range nregs_context 0 (push_saved tcb2) saved
  for_range nregs_context 0 pop_register fetched

-- `1-pid1`, of the numbers 0 and 1 that the comment names; others are left out.
abbrev pub other_task : ℕ → Option ℕ
other_task pid1 = if ltb 1 pid1 then none else some (1 - pid1)

unfoldable pub time_slice : ℕ → ℕ → ℕ → Context → Option Context
unfolding for_range push_register exchange
time_slice pid tcb_offset tcb_sz s = do
  pushed ← for_range nregs_context 0 push_register s
  pid1 ← load pushed.system_state pid
  pid2 ← other_task pid1
  system_state ← store pushed.system_state pid pid2
  exchange (tcb_offset + pid1 * tcb_sz) (tcb_offset + pid2 * tcb_sz)
      (record pushed { system_state = system_state })
