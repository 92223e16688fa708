-- ===== src/Machine/Model/Interrupts.antt =====
-- The cycles of the system with its peripherals: before the timer's interrupt, and at it.
use osh.Prelude.{
  ℕ, zero, suc, ◌+◌, ◌≤◌, ◌<◌, ◌≡◌, ◌≢◌, refl, ◌∙◌, ap, List, [], ◌∷◌, Option, some, none, arith,
  get_elem?, Ram, lt→ltb, length, ◌>>=◌, true, false, Option-cases, inl, inr, write?_total,
  length-write?, get_elem?-write?, get_elem?_total, write?, >>=-eq-some,
}
use osh.Machine.Constants.{ivt, ivt_sz, pc, lr, nregs}
use osh.Machine.Execute.Invariant.{IsMachine}
use osh.Machine.Peripherals.{kbd_action, nic_action, ssd_action, gpu_action}
use osh.Machine.Peripherals.Timer.{IsTimer, tick-low, tick-high}
use osh.Machine.Processor.{copy_words, interrupt_phase, instruction_phase, processor_action}
use osh.Machine.Processor.Invariant.{instruction_phase-IsMachine}
use osh.Machine.Model.{System, peripheral_phase, cycle, run_cycles}

-- The words are copied out one by one.
copy_words-get :
    (m : Ram) (first n : ℕ)
    → first + n ≤ m.size
    → (ws : List ℕ) × (copy_words m first n ≡ some ws)
      × ((i : ℕ) → i < n → get_elem? ws i ≡ some (m.cells (first + i)))
unfolding copy_words
copy_words-get m first zero h = ([], refl, λ i lt. elim lt [ ])
copy_words-get m first (suc n) h =
    let (ws, e, reads) = copy_words-get m (first + 1) n (omega arith) in
    (m.cells first ∷ ws, rw (lt→ltb first m.size (omega arith), e), at ws reads)
  where
    at :
        (ws : List ℕ)
        → ((i : ℕ) → i < n → get_elem? ws i ≡ some (m.cells (first + 1 + i)))
        → (i : ℕ) → i < suc n
        → get_elem? (m.cells first ∷ ws) i ≡ some (m.cells (first + i))
    at ws reads zero lt =
        let e : first ≡ first + 0 = omega arith in ap (λ (a : ℕ). some (m.cells a)) e
    at ws reads (suc i) lt =
        let e : first + 1 + i ≡ first + suc i = omega arith in
        reads i (omega arith) ∙ ap (λ (a : ℕ). some (m.cells a)) e

-- the system after a cycle: the timer, the interrupt lines, and what the instruction has left
abbrev pub after : System → Ram → List ℕ → Option (List ℕ × Ram) → Option System
after s t irqs r =
    r >>= λ p. some (record s { timer_state = t; irqs = irqs; registers = p.0; system_state = p.1 })

abbrev pub no_irqs : List ℕ
no_irqs = 0 ∷ 0 ∷ 0 ∷ 0 ∷ 0 ∷ []

pub cycle-bare :
    (s : System)
    → cycle false s ≡ after s s.timer_state [] (instruction_phase s.registers s.system_state)
unfolding cycle processor_action interrupt_phase
cycle-bare s = elim (Option-cases (instruction_phase s.registers s.system_state)) [
  | inl e ↦ rw e
  | inr (p, e) ↦ rw e
]

-- A cycle in which the timer leaves its line down.
pub cycle-quiet :
    (c p : ℕ) (s : System)
    → IsTimer (suc (suc c)) p s.timer_state
    → ivt_sz ≤ s.system_state.size
    → (t : Ram) × IsTimer (suc c) p t
      × (cycle true s ≡ after s t no_irqs (instruction_phase s.registers s.system_state))
unfolding cycle processor_action interrupt_phase peripheral_phase kbd_action nic_action ssd_action
    gpu_action
cycle-quiet c p s h room =
    let (t, e, h') = tick-low c p s.timer_state h in
    let (ws, copied, _) = copy_words-get s.system_state ivt ivt_sz (omega arith) in
    (
      t,
      h',
      rw (e, copied)
          (elim (Option-cases (instruction_phase s.registers s.system_state)) [
            | inl none_left ↦ rw none_left
            | inr (r, done) ↦ rw done
          ]),
    )

pub same_start :
    (s t : System)
    → s.registers ≡ t.registers
    → s.system_state ≡ t.system_state
    → (r : Option (List ℕ × Ram)) → instruction_phase s.registers s.system_state ≡ r
    → instruction_phase t.registers t.system_state ≡ r
same_start s t e f r h = rw (← e, ← f) h

-- the part of the system that the processor sees
abbrev pub visible : Option System → Option (List ℕ × Ram)
visible o = o >>= λ s. some (s.registers, s.system_state)

run_cycles-visible :
    (n c p size : ℕ) (s t : System)
    → n ≤ c
    → IsTimer (suc c) p s.timer_state
    → ivt_sz ≤ size
    → IsMachine size s.registers s.system_state
    → s.registers ≡ t.registers
    → s.system_state ≡ t.system_state
    → visible (run_cycles true n s) ≡ visible (run_cycles false n t)
unfolding run_cycles
run_cycles-visible zero c p size s t le h room k e f = rw (e, f)
run_cycles-visible (suc n) zero p size s t le h room k e f =
    let bad : 1 ≤ 0 = omega arith in elim bad [ ]
run_cycles-visible (suc n) (suc c) p size s t le h room k e f =
    let (timer, h', q) = cycle-quiet c p s h (omega (arith, k.memory_size)) in
    elim (Option-cases (instruction_phase s.registers s.system_state)) [
      | inl stuck ↦ rw (q, cycle-bare t) (rw (stuck, same_start s t e f none stuck))
      | inr (r, done) ↦
          rw (q, cycle-bare t)
            (rw (done, same_start s t e f (some r) done)
              (run_cycles-visible n c p size _ _ (omega arith) h' room
                (instruction_phase-IsMachine size k done) refl refl))
    ]

-- On a machine of 64-bit words with room for the vector table, and a timer at a count of c + 1, the
-- first `n ≤ c` cycles do the same with the peripherals as without: the same registers and the same
-- memory, or undefined behaviour in both.
pub run_cycles-peripherals :
    (n c p size : ℕ) (s : System)
    → n ≤ c
    → IsTimer (suc c) p s.timer_state
    → ivt_sz ≤ size
    → IsMachine size s.registers s.system_state
    → visible (run_cycles true n s) ≡ visible (run_cycles false n s)
run_cycles-peripherals n c p size s le h room k =
    run_cycles-visible n c p size s s le h room k refl refl

-- The registers when the timer's interrupt is taken: the counter in the link register, and word 4 of
-- the vector table in the counter.
abbrev pub taken : List ℕ → Ram → Option (List ℕ)
taken registers m = do
  at ← get_elem? registers pc
  registers' ← write? registers lr at
  write? registers' pc (m.cells 4)

-- The cycle at which the timer's count is 1: the timer is loaded again, the interrupt is taken, and
-- the first instruction of its handler is executed.
pub cycle-taken :
    (p : ℕ) (s : System)
    → IsTimer 1 p s.timer_state
    → ivt_sz ≤ s.system_state.size
    → length s.registers ≡ nregs
    → (t : Ram) × (registers' : List ℕ) × IsTimer p p t
      × (taken s.registers s.system_state ≡ some registers')
      × (cycle true s ≡ after s t no_irqs (instruction_phase registers' s.system_state))
unfolding cycle processor_action interrupt_phase peripheral_phase kbd_action nic_action ssd_action
    gpu_action
cycle-taken p s h room len =
    let (t, e, h') = tick-high p s.timer_state h in
    let (ws, copied, reads) = copy_words-get s.system_state ivt ivt_sz (omega arith) in
    let (at, counter) = get_elem?_total s.registers pc (omega (arith, len)) in
    let (r₁, w₁) = write?_total s.registers lr at (omega (arith, len)) in
    let (r₂, w₂) =
      write?_total r₁ pc (s.system_state.cells 4)
        (omega (arith, len, length-write? s.registers lr at w₁)) in
    (
      t,
      r₂,
      h',
      rw counter (rw w₁ w₂),
      rw (e, copied)
          (rw (counter, w₁, reads 4 (omega arith), w₂)
            (elim (Option-cases (instruction_phase r₂ s.system_state)) [
              | inl none_left ↦ rw none_left
              | inr (r, done) ↦ rw done
            ])),
    )

-- What is in the registers when the interrupt is taken.
pub taken-reads :
    (registers : List ℕ) (m : Ram) {registers' : List ℕ} {at : ℕ}
    → get_elem? registers pc ≡ some at
    → taken registers m ≡ some registers'
    → (get_elem? registers' lr ≡ some at)
      × (get_elem? registers' pc ≡ some (m.cells 4))
      × ((j : ℕ) → j ≢ lr → j ≢ pc → get_elem? registers' j ≡ get_elem? registers j)
taken-reads registers m {at = at} counter h =
    let (r₁, w₁, w₂) = >>=-eq-some (write? registers lr at) _ (rw counter at h) in
    (
      get_elem?-write? r₁ pc _ w₂ lr ∙ get_elem?-write? registers lr at w₁ lr,
      get_elem?-write? r₁ pc _ w₂ pc,
      λ j hl hp.
          ground (arith, get_elem?-write? r₁ pc _ w₂ j, get_elem?-write? registers lr at w₁ j),
    )
