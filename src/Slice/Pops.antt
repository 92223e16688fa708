-- ===== src/Slice/Pops.antt =====
-- The two loops of time_slice() that pop.
use osh.Prelude.{
  ℕ, ◌+◌, ◌-◌, ◌≤◌, ◌<◌, ◌≡◌, ◌≢◌, ◌⊎◌, inl, inr, false, refl, ap, some, arith, lt→ltb, ◌==◌, Ram,
  update,
}
use osh.Slice.{nregs_context, msp, Context, for_range, save_word, pop_register}
use osh.Slice.Loops.{for_range_inv}

-- After `r` turns of the loop that stores in a task's block.
pub record Saved (tcb1 top : ℕ) (s₀ : Context) (r : ℕ) (s : Context) : Type 0 where
  pub sized : (s.system_state.size ≡ s₀.system_state.size) × (s.registers.size ≡ s₀.registers.size)
  pub pointer : s.registers.cells msp + r ≡ top + nregs_context
  pub registers_kept : (j : ℕ) → j ≢ msp → s.registers.cells j ≡ s₀.registers.cells j
  pub stored :
      (k : ℕ)
      → k < r
      → s.system_state.cells (tcb1 + k) ≡ s₀.system_state.cells (top + nregs_context - k)
  pub kept :
      (a : ℕ)
      → (a < tcb1) ⊎ (tcb1 + nregs_context ≤ a)
      → s.system_state.cells a ≡ s₀.system_state.cells a

save_turn :
    (tcb1 top : ℕ) (s₀ : Context) (r : ℕ) (s : Context)
    → msp < s₀.registers.size
    → top + nregs_context < s₀.system_state.size
    → tcb1 + nregs_context ≤ s₀.system_state.size
    → (tcb1 + nregs_context ≤ top) ⊎ (top + nregs_context < tcb1)
    → r < nregs_context
    → Saved tcb1 top s₀ r s
    → (s' : Context) × (save_word tcb1 r s ≡ some s') × Saved tcb1 top s₀ (r + 1) s'
unfolding save_word
save_turn tcb1 top s₀ r s has_msp room block apart lt h =
    let here : ℕ = top + nregs_context - r in
    let at : s.registers.cells msp ≡ here = omega (arith, h.pointer) in
    let word : s.system_state.cells here ≡ s₀.system_state.cells here =
      h.kept here (elim apart [ inl a ↦ inr (omega arith) | inr b ↦ inl (omega arith) ]) in
    let positive : (here == 0) ≡ false = ground arith in
    (
      record {
        system_state = record s.system_state {
          cells = update s.system_state.cells (tcb1 + r) (s.system_state.cells here);
        };
        registers = record s.registers { cells = update s.registers.cells msp (here - 1) };
      },
      rw (lt→ltb msp s.registers.size (omega (arith, h.sized.1))) (
          rw at (
            rw (lt→ltb here s.system_state.size (omega (arith, h.sized.0))) (
              rw (lt→ltb (tcb1 + r) s.system_state.size (omega (arith, h.sized.0)))
                (rw positive refl)))),
      record {
        sized = h.sized;
        pointer = omega arith;
        registers_kept = λ j ne. ground (arith, h.registers_kept j);
        stored = λ k le. ground (arith, h.stored k);
        kept = λ a out. ground (arith, h.kept a);
      },
    )

pub save_word-Saved :
    (tcb1 top : ℕ) (s₀ : Context)
    → msp < s₀.registers.size
    → s₀.registers.cells msp ≡ top + nregs_context
    → top + nregs_context < s₀.system_state.size
    → tcb1 + nregs_context ≤ s₀.system_state.size
    → (tcb1 + nregs_context ≤ top) ⊎ (top + nregs_context < tcb1)
    → (s : Context) × (for_range nregs_context 0 (save_word tcb1) s₀ ≡ some s)
      × Saved tcb1 top s₀ nregs_context s
save_word-Saved tcb1 top s₀ has_msp at room block apart =
    for_range_inv (Saved tcb1 top s₀) nregs_context (save_word tcb1)
      (λ r s lt h. save_turn tcb1 top s₀ r s has_msp room block apart lt h) nregs_context 0 s₀ refl
      (record {
        sized = (refl, refl);
        pointer = omega arith;
        registers_kept = λ j ne. refl;
        stored = λ k lt. absurd (omega arith);
        kept = λ a out. refl;
      })

-- After `r` turns of the loop that loads the registers.
pub record Popped (top : ℕ) (s₀ : Context) (r : ℕ) (s : Context) : Type 0 where
  pub sized : s.registers.size ≡ s₀.registers.size
  pub pointer : s.registers.cells msp + r ≡ top + nregs_context
  pub loaded :
      (k : ℕ) → k < r → s.registers.cells k ≡ s₀.system_state.cells (top + nregs_context - k)
  pub kept : (j : ℕ) → r ≤ j → j ≢ msp → s.registers.cells j ≡ s₀.registers.cells j
  pub memory : s.system_state ≡ s₀.system_state

pop_turn :
    (top : ℕ) (s₀ : Context) (r : ℕ) (s : Context)
    → msp < s₀.registers.size
    → top + nregs_context < s₀.system_state.size
    → r < nregs_context
    → Popped top s₀ r s
    → (s' : Context) × (pop_register r s ≡ some s') × Popped top s₀ (r + 1) s'
unfolding pop_register
pop_turn top s₀ r s has_msp room lt h =
    let here : ℕ = top + nregs_context - r in
    let at : s.registers.cells msp ≡ here = omega (arith, h.pointer) in
    let word : s.system_state.cells here ≡ s₀.system_state.cells here =
      ap (λ (m : Ram). m.cells here) h.memory in
    let size : s.system_state.size ≡ s₀.system_state.size = ap (λ (m : Ram). m.size) h.memory in
    let positive : (here == 0) ≡ false = ground arith in
    let elsewhere : (r == msp) ≡ false = ground arith in
    (
      record s {
        registers = record s.registers {
          cells = update (update s.registers.cells r (s.system_state.cells here)) msp (here - 1);
        };
      },
      rw (lt→ltb msp s.registers.size (omega (arith, h.sized))) (
          rw at (
            rw (lt→ltb here s.system_state.size (omega (arith, size))) (
              rw (lt→ltb r s.registers.size (omega (arith, h.sized))) (
                rw (lt→ltb msp s.registers.size (omega (arith, h.sized)))
                  (rw elsewhere (rw at (rw positive refl))))))),
      record {
        sized = h.sized;
        pointer = omega arith;
        loaded = λ k le. ground (arith, h.loaded k);
        kept = λ j le ne. ground (arith, h.kept j);
        memory = h.memory;
      },
    )

pub pop_register-Popped :
    (top : ℕ) (s₀ : Context)
    → msp < s₀.registers.size
    → s₀.registers.cells msp ≡ top + nregs_context
    → top + nregs_context < s₀.system_state.size
    → (s : Context) × (for_range nregs_context 0 pop_register s₀ ≡ some s)
      × Popped top s₀ nregs_context s
pop_register-Popped top s₀ has_msp at room =
    for_range_inv (Popped top s₀) nregs_context pop_register
      (λ r s lt h. pop_turn top s₀ r s has_msp room lt h) nregs_context 0 s₀ refl
      (record {
        sized = refl;
        pointer = omega arith;
        loaded = λ k lt. absurd (omega arith);
        kept = λ j le ne. refl;
        memory = refl;
      })
