-- ===== src/Slice/Loops.antt =====
-- The rule for the loops of time_slice(), and the two loops that push.
use osh.Prelude.{
  ℕ, zero, suc, ◌+◌, ◌≤◌, ◌<◌, ◌≡◌, ◌≢◌, ◌⊎◌, inl, inr, refl, Option, some, arith, lt→ltb, update,
}
use osh.Slice.{nregs_context, msp, Context, push_word, for_range, push_register, push_saved}

-- The rule for the loops: what each turn keeps.
pub for_range_inv {ℓ} :
    (P : ℕ → Context → Type ℓ) (last : ℕ) (body : ℕ → Context → Option Context)
    → ((r : ℕ) (s : Context)
        → r < last
        → P r s
        → (s' : Context) × (body r s ≡ some s') × P (r + 1) s')
    → (n r : ℕ) (s : Context) → r + n ≡ last
    → P r s
    → (s' : Context) × (for_range n r body s ≡ some s') × P last s'
unfolding for_range
for_range_inv P last body keep zero r s e h =
    let same : r ≡ last = omega arith in (s, refl, rw same at h)
for_range_inv P last body keep (suc n) r s e h =
    let (s₁, e₁, h₁) = keep r s (omega arith) h in
    let (s₂, e₂, h₂) = for_range_inv P last body keep n (r + 1) s₁ (omega arith) h₁ in
    (s₂, rw e₁ e₂, h₂)

-- After `r` turns of a loop that pushes the words `v` from `top` on, started in `s₀`.
pub record Pushed (v : ℕ → ℕ) (top : ℕ) (s₀ : Context) (r : ℕ) (s : Context) : Type 0 where
  pub sized : (s.system_state.size ≡ s₀.system_state.size) × (s.registers.size ≡ s₀.registers.size)
  pub pointer : s.registers.cells msp ≡ top + r
  pub registers_kept : (j : ℕ) → j ≢ msp → s.registers.cells j ≡ s₀.registers.cells j
  pub written : (k : ℕ) → k < r → s.system_state.cells (top + k) ≡ v k
  pub kept :
      (a : ℕ)
      → (a < top) ⊎ (top + nregs_context ≤ a)
      → s.system_state.cells a ≡ s₀.system_state.cells a

push_word-Pushed :
    (v : ℕ → ℕ) (top : ℕ) (s₀ : Context) (r : ℕ) (s : Context)
    → msp < s₀.registers.size
    → top + nregs_context ≤ s₀.system_state.size
    → r < nregs_context
    → Pushed v top s₀ r s
    → (s' : Context) × (push_word (v r) s ≡ some s') × Pushed v top s₀ (r + 1) s'
unfolding push_word
push_word-Pushed v top s₀ r s has_msp room lt h =
    let at : s.registers.cells msp ≡ top + r = h.pointer in
    (
      record {
        system_state = record s.system_state {
          cells = update s.system_state.cells (top + r) (v r);
        };
        registers = record s.registers { cells = update s.registers.cells msp (top + r + 1) };
      },
      rw (lt→ltb msp s.registers.size (omega (arith, h.sized.1)))
          (rw at (rw (lt→ltb (top + r) s.system_state.size (omega (arith, h.sized.0))) refl)),
      record {
        sized = h.sized;
        pointer = omega arith;
        registers_kept = λ j ne. ground (arith, h.registers_kept j);
        written = λ k le. ground (arith, h.written k);
        kept = λ a out. ground (arith, h.kept a);
      },
    )

Pushed-start :
    (v : ℕ → ℕ) (top : ℕ) (s₀ : Context) → s₀.registers.cells msp ≡ top → Pushed v top s₀ 0 s₀
Pushed-start v top s₀ at = record {
  sized = (refl, refl);
  pointer = omega arith;
  registers_kept = λ j ne. refl;
  written = λ k lt. absurd (omega arith);
  kept = λ a out. refl;
}

-- The loop over the registers.
pub push_register-Pushed :
    (top : ℕ) (s₀ : Context)
    → msp < s₀.registers.size
    → s₀.registers.cells msp ≡ top
    → top + nregs_context ≤ s₀.system_state.size
    → (s : Context) × (for_range nregs_context 0 push_register s₀ ≡ some s)
      × Pushed s₀.registers.cells top s₀ nregs_context s
unfolding push_register
push_register-Pushed top s₀ has_msp at room =
    for_range_inv (Pushed s₀.registers.cells top s₀) nregs_context push_register
      (λ r s lt h.
        let same : s.registers.cells r ≡ s₀.registers.cells r = h.registers_kept r (omega arith) in
        rw (lt→ltb r s.registers.size (omega (arith, h.sized.1)))
          (rw same (push_word-Pushed s₀.registers.cells top s₀ r s has_msp room lt h)))
      nregs_context 0 s₀ refl (Pushed-start s₀.registers.cells top s₀ at)

-- The loop over a task's block, which the stack does not reach.
pub push_saved-Pushed :
    (tcb2 top : ℕ) (s₀ : Context)
    → msp < s₀.registers.size
    → s₀.registers.cells msp ≡ top
    → top + nregs_context ≤ s₀.system_state.size
    → tcb2 + nregs_context ≤ s₀.system_state.size
    → (tcb2 + nregs_context ≤ top) ⊎ (top + nregs_context ≤ tcb2)
    → (s : Context) × (for_range nregs_context 0 (push_saved tcb2) s₀ ≡ some s)
      × Pushed (λ r. s₀.system_state.cells (tcb2 + r)) top s₀ nregs_context s
unfolding push_saved
push_saved-Pushed tcb2 top s₀ has_msp at room block apart =
    let v : ℕ → ℕ = λ r. s₀.system_state.cells (tcb2 + r) in
    for_range_inv (Pushed v top s₀) nregs_context (push_saved tcb2)
      (λ r s lt h.
        let same : s.system_state.cells (tcb2 + r) ≡ s₀.system_state.cells (tcb2 + r) =
          h.kept (tcb2 + r)
            (elim apart [ inl a ↦ inl (omega arith) | inr b ↦ inr (omega arith) ]) in
        rw (lt→ltb (tcb2 + r) s.system_state.size (omega (arith, h.sized.0)))
          (rw same (push_word-Pushed v top s₀ r s has_msp room lt h)))
      nregs_context 0 s₀ refl (Pushed-start v top s₀ at)
