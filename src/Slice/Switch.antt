-- ===== src/Slice/Switch.antt =====
-- What time_slice() does with the registers, the stack and the tasks' blocks.
use osh.Prelude.{
  ℕ, ◌+◌, ◌-◌, ◌≤◌, ◌<◌, ◌≡◌, ◌≢◌, ◌⊎◌, inl, inr, sym, ap, ◌∙◌, some, arith, Ram, update, update_ne,
  update_self,
}
use native.Mathlib.Decide.{ℕ_discrete}
use osh.Slice.{nregs_context, msp, Context, exchange}
use osh.Slice.Loops.{Pushed, push_saved-Pushed}
use osh.Slice.Pops.{Saved, Popped, save_word-Saved, pop_register-Popped}

-- No word of either range stands in the other.
abbrev pub Apart : ℕ → ℕ → ℕ → ℕ → Type 0
Apart a n b m = (a + n ≤ b) ⊎ (b + m ≤ a)

abbrev pub Outside : ℕ → ℕ → ℕ → Type 0
Outside a b m = (a < b) ⊎ (b + m ≤ a)

-- The loops from the second on, from a stack of sixteen words on: those words, backwards and one
-- place late, are in the block `tcb1`; the words of `tcb2`, likewise, in the registers.
pub record Exchanged (tcb1 tcb2 top : ℕ) (s s' : Context) : Type 0 where
  pub sized : (s'.system_state.size ≡ s.system_state.size) × (s'.registers.size ≡ s.registers.size)
  pub saved :
      (r : ℕ)
      → r < nregs_context
      → s'.system_state.cells (tcb1 + r) ≡ s.system_state.cells (top + nregs_context - r)
  pub loaded :
      (r : ℕ)
      → 1 ≤ r
      → r < nregs_context
      → s'.registers.cells r ≡ s.system_state.cells (tcb2 + (nregs_context - r))
  pub loaded_first : s'.registers.cells 0 ≡ s.system_state.cells (top + nregs_context)
  pub pointer : s'.registers.cells msp ≡ top
  pub others : (j : ℕ) → nregs_context ≤ j → j ≢ msp → s'.registers.cells j ≡ s.registers.cells j
  pub kept :
      (a : ℕ)
      → Outside a top nregs_context
      → Outside a tcb1 nregs_context
      → s'.system_state.cells a ≡ s.system_state.cells a

above : (top r : ℕ) → r < nregs_context → top + nregs_context - r ≡ top + (nregs_context - r)
above top r lt = omega arith

above_all : (top : ℕ) → top + nregs_context - 0 ≡ top + nregs_context
above_all top = omega arith

back : (top r : ℕ) → r < nregs_context → top + nregs_context - (nregs_context - r) ≡ top + r
back top r lt = omega arith

-- The three loops together.
loops-Exchanged :
    (tcb1 tcb2 top : ℕ) (s s₁ s₂ s₃ : Context)
    → Saved tcb1 top s nregs_context s₁
    → Pushed (λ r. s₁.system_state.cells (tcb2 + r)) top s₁ nregs_context s₂
    → Popped top s₂ nregs_context s₃
    → Apart tcb1 nregs_context top (nregs_context + 1)
    → Apart tcb1 nregs_context tcb2 nregs_context
    → Exchanged tcb1 tcb2 top s s₃
loops-Exchanged tcb1 tcb2 top s s₁ s₂ s₃ h₁ h₂ h₃ off₁ two = record {
  sized = (
    ap (λ (m : Ram). m.size) h₃.memory ∙ h₂.sized.0 ∙ h₁.sized.0,
    h₃.sized ∙ h₂.sized.1 ∙ h₁.sized.1,
  );
  saved = λ r lt.
      ap (λ (m : Ram). m.cells (tcb1 + r)) h₃.memory
      ∙ h₂.kept (tcb1 + r) (elim off₁ [ inl a ↦ inl (omega arith) | inr b ↦ inr (omega arith) ])
      ∙ h₁.stored r lt;
  loaded = λ r pos lt.
      h₃.loaded r lt
      ∙ ap s₂.system_state.cells (above top r lt)
      ∙ h₂.written (nregs_context - r) (omega arith)
      ∙ h₁.kept (tcb2 + (nregs_context - r))
          (elim two [ inl a ↦ inr (omega arith) | inr b ↦ inl (omega arith) ]);
  loaded_first =
      h₃.loaded 0 (omega arith)
      ∙ ap s₂.system_state.cells (above_all top)
      ∙ h₂.kept (top + nregs_context) (inr (omega arith))
      ∙ h₁.kept (top + nregs_context)
          (elim off₁ [ inl a ↦ inr (omega arith) | inr b ↦ inl (omega arith) ]);
  pointer = omega (arith, h₃.pointer);
  others = λ j le ne. h₃.kept j le ne ∙ h₂.registers_kept j ne ∙ h₁.registers_kept j ne;
  kept = λ a off_stack off_block.
      ap (λ (m : Ram). m.cells a) h₃.memory ∙ h₂.kept a off_stack ∙ h₁.kept a off_block;
}

pub exchange-Exchanged :
    (tcb1 tcb2 top : ℕ) (s : Context)
    → msp < s.registers.size
    → s.registers.cells msp ≡ top + nregs_context
    → top + nregs_context < s.system_state.size
    → tcb1 + nregs_context ≤ s.system_state.size
    → tcb2 + nregs_context ≤ s.system_state.size
    → Apart tcb1 nregs_context top (nregs_context + 1)
    → Apart tcb2 nregs_context top (nregs_context + 1)
    → Apart tcb1 nregs_context tcb2 nregs_context
    → (s' : Context) × (exchange tcb1 tcb2 s ≡ some s') × Exchanged tcb1 tcb2 top s s'
unfolding exchange
exchange-Exchanged tcb1 tcb2 top s has_msp at room in₁ in₂ off₁ off₂ two =
    let (s₁, e₁, h₁) =
      save_word-Saved tcb1 top s has_msp at room in₁
        (elim off₁ [ inl a ↦ inl a | inr b ↦ inr (omega arith) ]) in
    let at₁ : s₁.registers.cells msp ≡ top = omega (arith, h₁.pointer) in
    let (s₂, e₂, h₂) =
      push_saved-Pushed tcb2 top s₁ (omega (arith, h₁.sized.1)) at₁ (omega (arith, h₁.sized.0))
        (omega (arith, h₁.sized.0)) (elim off₂ [ inl a ↦ inl a | inr b ↦ inr (omega arith) ]) in
    let (s₃, e₃, h₃) =
      pop_register-Popped top s₂ (omega (arith, h₁.sized.1, h₂.sized.1)) h₂.pointer
        (omega (arith, h₁.sized.0, h₂.sized.0)) in
    (s₃, rw e₁ (rw e₂ e₃), loops-Exchanged tcb1 tcb2 top s s₁ s₂ s₃ h₁ h₂ h₃ off₁ two)

-- What time_slice() needs: registers up to MSP, room for the stack and the two blocks of at least
-- sixteen words, and all of these and `systemState[PID]` apart.
pub record Fits (pid tcb_offset tcb_sz top : ℕ) (s : Context) : Type 0 where
  pub has_msp : msp < s.registers.size
  pub pointer : s.registers.cells msp ≡ top
  pub room : top + nregs_context < s.system_state.size
  pub blocks : tcb_offset + tcb_sz + tcb_sz ≤ s.system_state.size
  pub block_size : nregs_context ≤ tcb_sz
  pub pid_room : pid < s.system_state.size
  pub blocks_off_stack : Apart tcb_offset (tcb_sz + tcb_sz) top (nregs_context + 1)
  pub pid_off_stack : Outside pid top (nregs_context + 1)
  pub pid_off_blocks : Outside pid tcb_offset (tcb_sz + tcb_sz)

-- A switch from the task with the block `tcb1` to that with the block `tcb2` and the number `pid2`.
pub record Switched (pid tcb1 tcb2 pid2 top : ℕ) (s s' : Context) : Type 0 where
  pub named : s'.system_state.cells pid ≡ pid2
  pub saved :
      (r : ℕ)
      → 1 ≤ r
      → r < nregs_context
      → s'.system_state.cells (tcb1 + (nregs_context - r)) ≡ s.registers.cells r
  pub loaded :
      (r : ℕ)
      → 1 ≤ r
      → r < nregs_context
      → s'.registers.cells r ≡ s.system_state.cells (tcb2 + (nregs_context - r))
  pub loaded_first : s'.registers.cells 0 ≡ s.system_state.cells (top + nregs_context)
  pub others : (j : ℕ) → nregs_context ≤ j → s'.registers.cells j ≡ s.registers.cells j
  pub kept :
      (a : ℕ)
      → a ≢ pid
      → Outside a top nregs_context
      → Outside a tcb1 nregs_context
      → s'.system_state.cells a ≡ s.system_state.cells a

-- The switch between the blocks, from the words on the stack and the new number on.
pub exchange-Switched :
    (pid tcb1 tcb2 pid2 top : ℕ) (s pushed s' : Context) (m : Ram)
    → s.registers.cells msp ≡ top
    → Pushed s.registers.cells top s nregs_context pushed
    → m ≡ record pushed.system_state { cells = update pushed.system_state.cells pid pid2 }
    → Exchanged tcb1 tcb2 top (record pushed { system_state = m }) s'
    → Apart tcb1 nregs_context top (nregs_context + 1)
    → Apart tcb2 nregs_context top (nregs_context + 1)
    → Outside pid top (nregs_context + 1)
    → Outside pid tcb1 nregs_context
    → Outside pid tcb2 nregs_context
    → Switched pid tcb1 tcb2 pid2 top s s'
exchange-Switched pid tcb1 tcb2 pid2 top s pushed s' m at h e x off₁ off₂ off out₁ out₂ =
    let cell : (a : ℕ) → a ≢ pid → m.cells a ≡ pushed.system_state.cells a = λ a ne.
      ap (λ (m : Ram). m.cells a) e
      ∙ update_ne pushed.system_state.cells pid a pid2 (λ q. ne (sym q)) in
    record {
      named =
          x.kept pid (elim off [ inl a ↦ inl a | inr b ↦ inr (omega arith) ]) out₁
          ∙ ap (λ (m : Ram). m.cells pid) e
          ∙ update_self pushed.system_state.cells pid pid2;
      saved = λ r pos lt.
          x.saved (nregs_context - r) (omega arith)
          ∙ ap m.cells (back top r lt)
          ∙ cell (top + r)
              (elim off [ inl a ↦ λ q. absurd (omega arith) | inr b ↦ λ q. absurd (omega arith) ])
          ∙ h.written r lt;
      loaded = λ r pos lt.
          x.loaded r pos lt
          ∙ cell (tcb2 + (nregs_context - r))
              (elim out₂ [ inl a ↦ λ q. absurd (omega arith) | inr b ↦ λ q. absurd (omega arith) ])
          ∙ h.kept (tcb2 + (nregs_context - r))
              (elim off₂ [ inl a ↦ inl (omega arith) | inr b ↦ inr (omega arith) ]);
      loaded_first =
          x.loaded_first
          ∙ cell (top + nregs_context)
              (elim off [ inl a ↦ λ q. absurd (omega arith) | inr b ↦ λ q. absurd (omega arith) ])
          ∙ h.kept (top + nregs_context) (inr (omega arith));
      others = λ j le. elim (ℕ_discrete j msp) [
        | yes p ↦ rw p (x.pointer ∙ sym at)
        | no ne ↦ x.others j le ne ∙ h.registers_kept j ne
      ];
      kept =
          λ a ne off_stack off_block. x.kept a off_stack off_block ∙ cell a ne ∙ h.kept a off_stack;
    }
