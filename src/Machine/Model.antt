-- ===== src/Machine/Model.antt =====
-- abstract_system_model.cc: the system's state, and `main`.
pub mod Cycles
pub mod Interrupts
pub mod Periods
pub mod Ticking
pub mod Source
pub mod Invariant
use osh.Prelude.{
  ℕ, zero, suc, ◌+◌, ◌-◌, List, [], ◌∷◌, Bool, Option, some, ltb, if◌then◌else◌, Ram, load, store,
  replicate, write?, ◌>>=◌,
}
use osh.Machine.Constants.{
  ram_state_sz, timer_state_sz, kbd_state_sz, nic_state_sz, ssd_state_sz, gpu_state_sz, nregs, pc,
  code, ivt, ivt_sz, heap,
}
use osh.Machine.Code.{fib_max, load_code}
use osh.Machine.Peripherals.{kbd_action, nic_action, ssd_action, gpu_action, timer_action}
use osh.Machine.Processor.{processor_action}

abbrev pub max_ncycles : ℕ
max_ncycles = 512

-- the local variables of `main` that live across the cycles
pub record System : Type 0 where
  pub system_state : Ram
  pub registers : List ℕ
  pub irqs : List ℕ
  pub timer_state : Ram
  pub kbd_state : Ram
  pub nic_state : Ram
  pub ssd_state : Ram
  pub gpu_state : Ram

-- `std::vector<uint64_t> v(size,0)`
abbrev pub zeros : ℕ → Ram
zeros size = record { size = size; cells = λ _. 0 }

-- `push_back` of every word of `n`
abbrev pub append : Ram → Ram → Ram
append m n = record {
  size = m.size + n.size;
  cells = λ i. if ltb i m.size then m.cells i else n.cells (i - m.size);
}

-- `n` words from index `idx` on set to `value`
unfoldable pub fill : ℕ → ℕ → ℕ → Ram → Option Ram
fill zero idx value m = some m
fill (suc n) idx value m = store m idx value >>= fill n (idx + 1) value

unfoldable pub initial_timer : Option Ram
initial_timer = do t ← store (zeros timer_state_sz) 0 (max_ncycles + 1); store t 1 (max_ncycles + 1)

-- The state before the first cycle.
unfoldable pub initial_system : Option System
unfolding initial_timer fill load_code
initial_system = do
  timer_state ← initial_timer
  registers ← write? (replicate nregs 0) pc code
  ram_state ← fill ivt_sz ivt code (zeros ram_state_sz)
  ram_state' ← load_code ram_state
  let kbd_state = zeros kbd_state_sz
  let nic_state = zeros nic_state_sz
  let ssd_state = zeros ssd_state_sz
  let gpu_state = zeros gpu_state_sz
  some (record {
    system_state =
        append
          (append (append (append (append ram_state' timer_state) kbd_state) nic_state) ssd_state)
          gpu_state;
    registers = registers;
    irqs = [];
    timer_state = timer_state;
    kbd_state = kbd_state;
    nic_state = nic_state;
    ssd_state = ssd_state;
    gpu_state = gpu_state;
  })

-- the devices' actions of a cycle, and the interrupt lines in the source's order
unfoldable pub peripheral_phase : System → Option System
unfolding kbd_action nic_action ssd_action gpu_action timer_action
peripheral_phase s = do
  let kbd = kbd_action s.kbd_state
  let nic = nic_action s.nic_state
  let ssd = ssd_action s.ssd_state
  let gpu = gpu_action s.gpu_state
  timer ← timer_action s.timer_state
  some (record s {
    kbd_state = kbd.0;
    nic_state = nic.0;
    ssd_state = ssd.0;
    gpu_state = gpu.0;
    timer_state = timer.0;
    irqs = kbd.1 ∷ nic.1 ∷ ssd.1 ∷ gpu.1 ∷ timer.1 ∷ [];
  })

-- The body of the loop over the cycles.
unfoldable pub cycle : Bool → System → Option System
unfolding peripheral_phase processor_action
cycle peripherals s = do
  s' ← if peripherals then peripheral_phase s else some (record s { irqs = [] })
  (system_state, irqs, registers) ←
      processor_action peripherals s'.system_state s'.irqs s'.registers
  some (record s' { system_state = system_state; irqs = irqs; registers = registers })

unfoldable pub run_cycles : Bool → ℕ → System → Option System
unfolding cycle
run_cycles peripherals zero s = some s
run_cycles peripherals (suc n) s = cycle peripherals s >>= run_cycles peripherals n

-- the addresses and words that the last loop prints
unfoldable pub report : ℕ → ℕ → Ram → Option (List (ℕ × ℕ))
report zero idx m = some []
report (suc n) idx m = do v ← load m idx; rest ← report n (idx + 1) m; some ((idx, v) ∷ rest)

-- What `main` prints.
unfoldable pub main : Bool → Option (List (ℕ × ℕ))
unfolding initial_system run_cycles report
main peripherals = do
  s ← initial_system
  s' ← run_cycles peripherals max_ncycles s
  report fib_max heap s'.system_state
