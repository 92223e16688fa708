-- ===== src/Machine/Model/Periods.antt =====
-- A period of the timer: quiet cycles, and the cycle in which the interrupt is served.
use osh.Prelude.{
  ℕ, zero, suc, ◌≤◌, ◌≡◌, ◌≢◌, refl, ◌∙◌, ap, List, [], Option, some, none, arith, get_elem?, Ram,
  ◌>>=◌, Bool, true, false, Option-cases, inl, inr, some_inj,
}
use osh.Machine.Constants.{ivt_sz, pc, lr}
use osh.Machine.Execute.Invariant.{IsMachine}
use osh.Machine.Peripherals.Timer.{IsTimer}
use osh.Machine.Processor.{instruction_phase}
use osh.Machine.Processor.Invariant.{instruction_phase-IsMachine}
use osh.Machine.Model.{System, cycle, run_cycles}
use osh.Machine.Model.Interrupts.{
  visible, after, no_irqs, cycle-bare, cycle-quiet, cycle-taken, taken-reads, same_start,
}

-- The last of the cycles.
run_cycles-suc :
    (peripherals : Bool) (n : ℕ) (s : System)
    → run_cycles peripherals (suc n) s ≡ (run_cycles peripherals n s >>= cycle peripherals)
unfolding run_cycles
run_cycles-suc peripherals zero s = elim (Option-cases (cycle peripherals s)) [
  | inl e ↦ rw e
  | inr (s', e) ↦ rw e
]
run_cycles-suc peripherals (suc n) s = elim (Option-cases (cycle peripherals s)) [
  | inl e ↦ rw e
  | inr (s', e) ↦ rw e (run_cycles-suc peripherals n s')
]

-- The system with its peripherals after `n` quiet cycles, where the timer is due.
run_cycles-due :
    (n p size : ℕ) (s t t' : System)
    → IsTimer (suc n) p s.timer_state
    → ivt_sz ≤ size
    → IsMachine size s.registers s.system_state
    → s.registers ≡ t.registers
    → s.system_state ≡ t.system_state
    → run_cycles false n t ≡ some t'
    → (q : System) × (run_cycles true n s ≡ some q)
      × IsTimer 1 p q.timer_state
      × IsMachine size q.registers q.system_state
      × (q.registers ≡ t'.registers)
      × (q.system_state ≡ t'.system_state)
unfolding run_cycles
run_cycles-due zero p size s t t' h room k e f done =
    let same : t ≡ t' = some_inj done in
    (
      s,
      refl,
      h,
      k,
      e ∙ ap (λ (u : System). u.registers) same,
      f ∙ ap (λ (u : System). u.system_state) same,
    )
run_cycles-due (suc n) p size s t t' h room k e f done =
    let (timer, h', q) = cycle-quiet n p s h (omega (arith, k.memory_size)) in
    elim (Option-cases (instruction_phase s.registers s.system_state)) [
      | inl stuck ↦
          let bad : none ≡ some t' = rw (cycle-bare t, same_start s t e f none stuck) at done in cc
      | inr (r, stepped) ↦
          let left = rw (cycle-bare t, same_start s t e f (some r) stepped) at done in
          let s₁ : System = record s {
            timer_state = timer;
            irqs = no_irqs;
            registers = r.0;
            system_state = r.1;
          } in
          let t₁ : System = record t { irqs = []; registers = r.0; system_state = r.1 } in
          let (u, ran, due, sound, same, same') =
            run_cycles-due n p size s₁ t₁ t' h' room (instruction_phase-IsMachine size k stepped)
              refl refl left in
          (u, rw q (rw stepped ran), due, sound, same, same')
    ]

visible-after :
    (s : System) (t : Ram) (irqs : List ℕ) (r : Option (List ℕ × Ram))
    → visible (after s t irqs r) ≡ r
visible-after s t irqs none = refl
visible-after s t irqs (some r) = refl

-- On a machine of 64-bit words with room for the vector table, with the timer at a count of c + 1,
-- where `c` cycles without peripherals lead to the state `t` with its counter at `at`: after c + 1
-- cycles with the peripherals the first instruction of the timer's handler has been executed, in
-- the registers and the memory of `t`, with `at` in the link register.
pub run_cycles-interrupt :
    (c p size at : ℕ) (s t : System)
    → IsTimer (suc c) p s.timer_state
    → ivt_sz ≤ size
    → IsMachine size s.registers s.system_state
    → run_cycles false c s ≡ some t
    → get_elem? t.registers pc ≡ some at
    → (registers' : List ℕ) × (get_elem? registers' lr ≡ some at)
      × (get_elem? registers' pc ≡ some (t.system_state.cells 4))
      × ((j : ℕ) → j ≢ lr → j ≢ pc → get_elem? registers' j ≡ get_elem? t.registers j)
      × (visible (run_cycles true (suc c) s) ≡ instruction_phase registers' t.system_state)
run_cycles-interrupt c p size at s t h room k ran counter =
    let (q, e, due, sound, same, same') = run_cycles-due c p size s s t h room k refl refl ran in
    let (timer, registers', _, jumped, served) =
      cycle-taken p q due (omega (arith, sound.memory_size)) sound.registers_count in
    let (link, jump, others) = taken-reads q.registers q.system_state (rw same counter) jumped in
    (
      registers',
      link,
      jump ∙ ap (λ (m : Ram). some (m.cells 4)) same',
      λ j hl hp. others j hl hp ∙ ap (λ rs. get_elem? rs j) same,
      ap visible (run_cycles-suc true c s ∙ ap (λ o. o >>= cycle true) e ∙ served)
          ∙ visible-after q timer no_irqs (instruction_phase registers' q.system_state)
          ∙ ap (instruction_phase registers') same',
    )
