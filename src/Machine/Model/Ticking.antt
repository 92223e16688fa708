-- ===== src/Machine/Model/Ticking.antt =====
-- The system with its peripherals as a machine with a countdown.
use osh.Prelude.{
  ℕ, zero, suc, ◌-◌, ◌≤◌, ◌≡◌, refl, ◌∙◌, List, Option, some, arith, get_elem?, write?, Ram, ◌>>=◌,
  >>=-eq-some, true, false, ne→==, ap, Option-cases, inl, inr, ◌==◌, if◌then◌else◌, length-write?,
}
use osh.Machine.Constants.{ivt_sz, pc, lr}
use osh.Machine.Execute.Invariant.{IsMachine, write-fits}
use osh.Machine.Peripherals.Timer.{IsTimer}
use osh.Machine.Processor.{instruction_phase}
use osh.Machine.Processor.Invariant.{instruction_phase-IsMachine}
use osh.Machine.Model.{System, run_cycles}
use osh.Machine.Model.Interrupts.{visible, taken, no_irqs, cycle-quiet, cycle-taken}

-- `n` cycles of a machine that takes an interrupt whenever `count` comes to 1, and then counts from
-- `period` on. It has neither a timer nor interrupt lines.
unfoldable pub ticking : ℕ → ℕ → ℕ → List ℕ → Ram → Option (List ℕ × Ram)
ticking zero count period registers m = some (registers, m)
ticking (suc n) count period registers m =
    if count == 1
    then (taken registers m >>= λ r. instruction_phase r m >>= λ s. ticking n period period s.0 s.1)
    else (instruction_phase registers m >>= λ s. ticking n (count - 1) period s.0 s.1)

ticking-start :
    (count period : ℕ) (registers : List ℕ) (m : Ram)
    → ticking 0 count period registers m ≡ some (registers, m)
unfolding ticking
ticking-start count period registers m = refl

ticking-due :
    (n period : ℕ) (registers : List ℕ) (m : Ram)
    → ticking (suc n) 1 period registers m
      ≡ (taken registers m >>= λ r. instruction_phase r m >>= λ s. ticking n period period s.0 s.1)
unfolding ticking
ticking-due n period registers m = refl

ticking-early :
    (n c period : ℕ) (registers : List ℕ) (m : Ram)
    → ticking (suc n) (suc (suc c)) period registers m
      ≡ (instruction_phase registers m >>= λ s. ticking n (suc c) period s.0 s.1)
unfolding ticking
ticking-early n c period registers m =
    let later : (suc (suc c) == 1) ≡ false = ne→== (suc (suc c)) 1 (omega arith) in
    let less : suc (suc c) - 1 ≡ suc c = omega arith in
    rw later
      (ap (λ (k : ℕ). instruction_phase registers m >>= λ s. ticking n k period s.0 s.1) less)

taken-IsMachine :
    (size : ℕ) (registers : List ℕ) (m : Ram) {registers' : List ℕ}
    → IsMachine size registers m
    → taken registers m ≡ some registers'
    → IsMachine size registers' m
taken-IsMachine size registers m {registers'} k h =
    let (at, counter, h₁) = >>=-eq-some (get_elem? registers pc) _ h in
    let (r, w₁, w₂) = >>=-eq-some (write? registers lr at) _ h₁ in
    record {
      registers_count =
          length-write? r pc (m.cells 4) w₂ ∙ length-write? registers lr at w₁ ∙ k.registers_count;
      memory_size = k.memory_size;
      registers_fit =
          write-fits r pc (m.cells 4)
            (write-fits registers lr at k.registers_fit (k.registers_fit pc at counter) w₁)
            (k.memory_fits 4) w₂;
      memory_fits = k.memory_fits;
    }

-- On a machine of 64-bit words with room for the vector table, whose timer counts from c + 1 and
-- then again and again from p + 1: any number of cycles with the peripherals does to the registers
-- and the memory what the machine with the countdown does, undefined behaviour included. So it
-- takes the timer's interrupt at cycle c + 1 and then at every cycle p + 1 later, and no other.
pub run_cycles-ticking :
    (n c p size : ℕ) (s : System)
    → IsTimer (suc c) (suc p) s.timer_state
    → ivt_sz ≤ size
    → IsMachine size s.registers s.system_state
    → visible (run_cycles true n s) ≡ ticking n (suc c) (suc p) s.registers s.system_state
unfolding run_cycles
run_cycles-ticking zero c p size s h room k = rw ticking-start
run_cycles-ticking (suc n) zero p size s h room k =
    let (t, r, h', jumped, e) =
      cycle-taken (suc p) s h (omega (arith, k.memory_size)) k.registers_count in
    let k' = taken-IsMachine size s.registers s.system_state k jumped in
    rw (e, ticking-due n (suc p) s.registers s.system_state, jumped)
      (elim (Option-cases (instruction_phase r s.system_state)) [
        | inl stuck ↦ rw stuck
        | inr (q, done) ↦ rw done (
            run_cycles-ticking n p p size
              (record s { timer_state = t; irqs = no_irqs; registers = q.0; system_state = q.1 }) h'
              room (instruction_phase-IsMachine size k' done))
      ])
run_cycles-ticking (suc n) (suc c) p size s h room k =
    let (t, h', e) = cycle-quiet c (suc p) s h (omega (arith, k.memory_size)) in
    rw (e, ticking-early n c (suc p) s.registers s.system_state)
      (elim (Option-cases (instruction_phase s.registers s.system_state)) [
        | inl stuck ↦ rw stuck
        | inr (q, done) ↦ rw done (
            run_cycles-ticking n c p size
              (record s { timer_state = t; irqs = no_irqs; registers = q.0; system_state = q.1 }) h'
              room (instruction_phase-IsMachine size k done))
      ])
