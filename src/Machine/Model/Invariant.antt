-- ===== src/Machine/Model/Invariant.antt =====
-- The machine's invariant in every state that `main` reaches.
use osh.Prelude.{
  ℕ, zero, suc, ◌+◌, ◌-◌, ◌<◌, ◌≡◌, refl, sym, ◌∙◌, subst, Bool, true, false, List, [], ◌∷◌, Option,
  some, arith, get_elem?, write?, length, replicate, Ram, store, store-eq-some, ◌>>=◌, >>=-eq-some,
  some_inj, word, All, length-replicate, length-write?,
}
use osh.Machine.Constants.{
  ram_state_sz, timer_state_sz, kbd_state_sz, nic_state_sz, ssd_state_sz, gpu_state_sz, nregs, pc,
  code, ivt, ivt_sz,
}
use osh.Machine.Code.{fib_max, fib_prog, write_code, load_code}
use osh.Machine.Code.Fibonacci.{fib_words, encode_program-fib_prog}
use osh.Machine.Encode.{encode_program}
use osh.Machine.Execute.Invariant.{IsMachine, write-fits}
use osh.Machine.Peripherals.{timer_action}
use osh.Machine.Processor.{processor_action}
use osh.Machine.Processor.Invariant.{processor_action-IsMachine}
use osh.Machine.Model.{
  System, zeros, append, fill, initial_timer, initial_system, peripheral_phase, cycle, run_cycles,
}

-- A memory of `size` words of 64 bits.
record IsMemory (size : ℕ) (m : Ram) : Type 0 where
  memory_size : m.size ≡ size
  memory_fits : (i : ℕ) → m.cells i < word

zeros-IsMemory : (size : ℕ) → IsMemory size (zeros size)
zeros-IsMemory size = record { memory_size = refl; memory_fits = λ i. omega arith }

append-IsMemory :
    (k l : ℕ) (m n : Ram) → IsMemory k m → IsMemory l n → IsMemory (k + l) (append m n)
append-IsMemory k l m n h g = record {
  memory_size = omega (arith, h.memory_size, g.memory_size);
  memory_fits = λ i. ground (arith, h.memory_fits i, g.memory_fits (i - m.size));
}

store-IsMemory :
    (size a v : ℕ) (m : Ram) {m' : Ram}
    → v < word
    → IsMemory size m
    → store m a v ≡ some m'
    → IsMemory size m'
store-IsMemory size a v m hv h e =
    let (_, changed) = store-eq-some m a v e in
    subst (IsMemory size) (sym changed)
      (record { memory_size = h.memory_size; memory_fits = λ i. ground (arith, h.memory_fits i) })

fill-IsMemory :
    (n idx value size : ℕ) (m : Ram) {m' : Ram}
    → value < word
    → IsMemory size m
    → fill n idx value m ≡ some m'
    → IsMemory size m'
unfolding fill
fill-IsMemory zero idx value size m hv h e = subst (IsMemory size) (some_inj e) h
fill-IsMemory (suc n) idx value size m hv h e =
    let (m₁, p, e₁) = >>=-eq-some (store m idx value) _ e in
    fill-IsMemory n (idx + 1) value size m₁ hv (store-IsMemory size idx value m hv h p) e₁

write_code-IsMemory :
    (iws : List ℕ) (at size : ℕ) (m : Ram) {m' : Ram}
    → All (λ w. w < word) iws
    → IsMemory size m
    → write_code iws at m ≡ some m'
    → IsMemory size m'
unfolding write_code
write_code-IsMemory [] at size m fits h e = subst (IsMemory size) (some_inj e) h
write_code-IsMemory (iw ∷ iws) at size m fits h e =
    let (m₁, p, e₁) = >>=-eq-some (store m (code + at) iw) _ e in
    write_code-IsMemory iws (at + 1) size m₁ fits.1
      (store-IsMemory size (code + at) iw m fits.0 h p) e₁

fib_words-fit : All (λ w. w < word) (fib_words fib_max)
fib_words-fit = ground arith

load_code-IsMemory :
    (size : ℕ) (m : Ram) {m' : Ram} → IsMemory size m → load_code m ≡ some m' → IsMemory size m'
unfolding load_code
load_code-IsMemory size m h e =
    let (iws, p, e₁) =
      >>=-eq-some (encode_program (fib_prog fib_max)) (λ iws. write_code iws 0 m) e in
    let words : fib_words fib_max ≡ iws = some_inj (sym (encode_program-fib_prog fib_max) ∙ p) in
    write_code-IsMemory iws 0 size m (subst (All (λ w. w < word)) words fib_words-fit) h e₁

initial_timer-IsMemory : {m : Ram} → initial_timer ≡ some m → IsMemory timer_state_sz m
unfolding initial_timer
initial_timer-IsMemory e =
    let (m₁, p, e₁) = >>=-eq-some (store (zeros timer_state_sz) 0 513) (λ t. store t 1 513) e in
    store-IsMemory timer_state_sz 1 513 m₁ (omega arith)
      (store-IsMemory timer_state_sz 0 513 _ (omega arith) (zeros-IsMemory timer_state_sz) p) e₁

-- the second half of a cycle
abbrev act : Bool → System → Option System
act peripherals s = processor_action peripherals s.system_state s.irqs s.registers >>= λ r.
    some (record s { system_state = r.0; irqs = r.1; registers = r.2 })

act-IsMachine :
    (peripherals : Bool) (size : ℕ) (s : System) {s' : System}
    → IsMachine size s.registers s.system_state
    → act peripherals s ≡ some s'
    → IsMachine size s'.registers s'.system_state
act-IsMachine peripherals size s h e =
    let (r, p, e₁) =
      >>=-eq-some (processor_action peripherals s.system_state s.irqs s.registers) _ e in
    subst (λ (u : System). IsMachine size u.registers u.system_state) (some_inj e₁)
      (processor_action-IsMachine peripherals size s.system_state s.irqs s.registers h p)

cycle-IsMachine :
    (peripherals : Bool) (size : ℕ) (s : System) {s' : System}
    → IsMachine size s.registers s.system_state
    → cycle peripherals s ≡ some s'
    → IsMachine size s'.registers s'.system_state
unfolding cycle peripheral_phase
cycle-IsMachine true size s h e =
    let (s₁, p, e₁) = >>=-eq-some (peripheral_phase s) (act true) e in
    let (_, _, e₂) = >>=-eq-some (timer_action s.timer_state) _ p in
    act-IsMachine true size s₁
      (subst (λ (u : System). IsMachine size u.registers u.system_state) (some_inj e₂) h) e₁
cycle-IsMachine false size s h e = act-IsMachine false size (record s { irqs = [] }) h e

run_cycles-IsMachine :
    (peripherals : Bool) (n size : ℕ) (s : System) {s' : System}
    → IsMachine size s.registers s.system_state
    → run_cycles peripherals n s ≡ some s'
    → IsMachine size s'.registers s'.system_state
unfolding run_cycles
run_cycles-IsMachine peripherals zero size s h e =
    subst (λ (u : System). IsMachine size u.registers u.system_state) (some_inj e) h
run_cycles-IsMachine peripherals (suc n) size s h e =
    let (s₁, p, e₁) = >>=-eq-some (cycle peripherals s) (run_cycles peripherals n) e in
    run_cycles-IsMachine peripherals n size s₁ (cycle-IsMachine peripherals size s h p) e₁

-- the size of the memory with the devices' states behind it
abbrev pub system_sz : ℕ
system_sz =
    ram_state_sz + timer_state_sz + kbd_state_sz + nic_state_sz + ssd_state_sz + gpu_state_sz

-- the memory as `main` puts it together
all_states :
    (ram timer : Ram)
    → IsMemory ram_state_sz ram
    → IsMemory timer_state_sz timer
    → IsMemory system_sz (
        append
          (append
            (append (append (append ram timer) (zeros kbd_state_sz)) (zeros nic_state_sz))
            (zeros ssd_state_sz))
          (zeros gpu_state_sz))
all_states ram timer h g =
    append-IsMemory _ gpu_state_sz _ (zeros gpu_state_sz)
      (append-IsMemory _ ssd_state_sz _ (zeros ssd_state_sz)
        (append-IsMemory _ nic_state_sz _ (zeros nic_state_sz)
          (append-IsMemory _ kbd_state_sz _ (zeros kbd_state_sz)
            (append-IsMemory ram_state_sz timer_state_sz ram timer h g)
            (zeros-IsMemory kbd_state_sz))
          (zeros-IsMemory nic_state_sz))
        (zeros-IsMemory ssd_state_sz))
      (zeros-IsMemory gpu_state_sz)

zeros-fit : (n i v : ℕ) → get_elem? (replicate n 0) i ≡ some v → v < word
zeros-fit zero i v e = cc
zeros-fit (suc n) zero v e = let same : 0 ≡ v = some_inj e in omega arith
zeros-fit (suc n) (suc i) v e = zeros-fit n i v e

-- The initial state, step by step.
abbrev put_together : Ram → List ℕ → Ram → System
put_together timer registers ram = record {
  system_state =
      append
        (append (append (append (append ram timer) (zeros kbd_state_sz)) (zeros nic_state_sz))
          (zeros ssd_state_sz))
        (zeros gpu_state_sz);
  registers = registers;
  irqs = [];
  timer_state = timer;
  kbd_state = zeros kbd_state_sz;
  nic_state = zeros nic_state_sz;
  ssd_state = zeros ssd_state_sz;
  gpu_state = zeros gpu_state_sz;
}

abbrev with_ram : Ram → List ℕ → Ram → Option System
with_ram timer registers ram = load_code ram >>= λ m. some (put_together timer registers m)

abbrev with_registers : Ram → List ℕ → Option System
with_registers timer registers =
    fill ivt_sz ivt code (zeros ram_state_sz) >>= with_ram timer registers

abbrev with_timer : Ram → Option System
with_timer timer = write? (replicate nregs 0) pc code >>= with_registers timer

machine :
    (ram timer : Ram) (registers : List ℕ)
    → IsMemory system_sz (put_together timer registers ram).system_state
    → length registers ≡ nregs
    → ((i v : ℕ) → get_elem? registers i ≡ some v → v < word)
    → IsMachine system_sz registers (put_together timer registers ram).system_state
machine ram timer registers h count fit = record {
  registers_count = count;
  memory_size = h.memory_size;
  registers_fit = fit;
  memory_fits = h.memory_fits;
}

initial_system-IsMachine :
    {s : System} → initial_system ≡ some s → IsMachine system_sz s.registers s.system_state
unfolding initial_system
initial_system-IsMachine e =
    let (timer, t, e₁) = >>=-eq-some initial_timer with_timer e in
    let (registers, w, e₂) =
      >>=-eq-some (write? (replicate nregs 0) pc code) (with_registers timer) e₁ in
    let (ram, f, e₃) =
      >>=-eq-some (fill ivt_sz ivt code (zeros ram_state_sz)) (with_ram timer registers) e₂ in
    let (ram', l, e₄) =
      >>=-eq-some (load_code ram) (λ m. some (put_together timer registers m)) e₃ in
    let memory =
      all_states ram' timer
        (load_code-IsMemory ram_state_sz ram
          (fill-IsMemory ivt_sz ivt code ram_state_sz (zeros ram_state_sz) (omega arith)
            (zeros-IsMemory ram_state_sz) f)
          l)
        (initial_timer-IsMemory t) in
    subst (λ (u : System). IsMachine system_sz u.registers u.system_state) (some_inj e₄)
      (machine ram' timer registers memory
        (length-write? (replicate nregs 0) pc code w ∙ length-replicate {A = ℕ} nregs 0)
        (write-fits (replicate nregs 0) pc code (zeros-fit nregs) (omega arith) w))

-- In every state that main() reaches from its initial one, with or without peripherals and after any
-- number of cycles, there are sixteen registers and a memory of the size of the RAM and the five
-- devices' states, all of 64-bit values.
pub main-IsMachine :
    (peripherals : Bool) (n : ℕ) {s s' : System}
    → initial_system ≡ some s
    → run_cycles peripherals n s ≡ some s'
    → IsMachine system_sz s'.registers s'.system_state
main-IsMachine peripherals n {s} e ran =
    run_cycles-IsMachine peripherals n system_sz s (initial_system-IsMachine e) ran
