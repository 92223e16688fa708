-- ===== src/Slice/Resume.antt =====
-- A task that is switched away from and back to.
use osh.Prelude.{
  ℕ, zero, suc, ◌+◌, ◌-◌, ◌*◌, ◌≤◌, ◌<◌, ◌≡◌, inl, inr, refl, sym, ◌∙◌, some, some_inj, subst,
  arith, lt→ltb, Ram, update,
}
use osh.Slice.{nregs_context, Context, other_task, time_slice}
use osh.Slice.Loops.{push_register-Pushed}
use osh.Slice.Switch.{Apart, Outside, Fits, exchange-Exchanged, Switched, exchange-Switched}

-- The switch, where the two blocks are `tcb1` and `tcb2`.
switch_between :
    (pid tcb_offset tcb_sz top p p' tcb1 tcb2 : ℕ) (s : Context)
    → Fits pid tcb_offset tcb_sz top s
    → s.system_state.cells pid ≡ p
    → other_task p ≡ some p'
    → tcb1 ≡ tcb_offset + p * tcb_sz
    → tcb2 ≡ tcb_offset + p' * tcb_sz
    → tcb_offset ≤ tcb1
    → tcb_offset ≤ tcb2
    → tcb1 ≤ tcb_offset + tcb_sz
    → tcb2 ≤ tcb_offset + tcb_sz
    → Apart tcb1 nregs_context tcb2 nregs_context
    → (s' : Context) × (time_slice pid tcb_offset tcb_sz s ≡ some s')
      × Switched pid tcb1 tcb2 p' top s s'
unfolding time_slice
switch_between pid tcb_offset tcb_sz top p p' tcb1 tcb2 s f at other b₁ b₂ from₁ from₂ to₁ to₂ two =
    let (pushed, e, h) = push_register-Pushed top s f.has_msp f.pointer (omega (arith, f.room)) in
    let m : Ram = record pushed.system_state { cells = update pushed.system_state.cells pid p' } in
    let off₁ : Apart tcb1 nregs_context top (nregs_context + 1) = elim f.blocks_off_stack [
      | inl a ↦ inl (omega (arith, f.block_size))
      | inr b ↦ inr (omega arith)
    ] in
    let off₂ : Apart tcb2 nregs_context top (nregs_context + 1) = elim f.blocks_off_stack [
      | inl a ↦ inl (omega (arith, f.block_size))
      | inr b ↦ inr (omega arith)
    ] in
    let out₁ : Outside pid tcb1 nregs_context = elim f.pid_off_blocks [
      | inl a ↦ inl (omega arith)
      | inr b ↦ inr (omega (arith, f.block_size))
    ] in
    let out₂ : Outside pid tcb2 nregs_context = elim f.pid_off_blocks [
      | inl a ↦ inl (omega arith)
      | inr b ↦ inr (omega (arith, f.block_size))
    ] in
    let (s', e', x) =
      exchange-Exchanged tcb1 tcb2 top (record pushed { system_state = m })
        (omega (arith, f.has_msp, h.sized.1)) h.pointer (omega (arith, f.room, h.sized.0))
        (omega (arith, f.blocks, f.block_size, h.sized.0))
        (omega (arith, f.blocks, f.block_size, h.sized.0)) off₁ off₂ two in
    let same : pushed.system_state.cells pid ≡ p =
      h.kept pid (elim f.pid_off_stack [ inl a ↦ inl a | inr b ↦ inr (omega arith) ]) ∙ at in
    (
      s',
      rw e (
          rw (lt→ltb pid pushed.system_state.size (omega (arith, f.pid_room, h.sized.0)))
            (rw (same, other) (rw (← b₁, ← b₂) e'))),
      exchange-Switched pid tcb1 tcb2 p' top s pushed s' m f.pointer h refl x off₁ off₂
          f.pid_off_stack out₁ out₂,
    )

-- A switch from task `p` to task `p'`, which are 0 and 1, where everything has its place: what it
-- leaves in the registers, the blocks and the other words.
pub time_slice-Switched :
    (pid tcb_offset tcb_sz top p p' : ℕ) (s : Context)
    → Fits pid tcb_offset tcb_sz top s
    → s.system_state.cells pid ≡ p
    → p + p' ≡ 1
    → (s' : Context) × (time_slice pid tcb_offset tcb_sz s ≡ some s')
      × Switched pid (tcb_offset + p * tcb_sz) (tcb_offset + p' * tcb_sz) p' top s s'
time_slice-Switched pid tcb_offset tcb_sz top zero zero s f at e = absurd (omega arith)
time_slice-Switched pid tcb_offset tcb_sz top zero (suc zero) s f at e =
    switch_between pid tcb_offset tcb_sz top 0 1 (tcb_offset + 0 * tcb_sz) (tcb_offset + 1 * tcb_sz)
      s f at refl refl refl (omega arith) (omega arith) (omega arith) (omega arith)
      (inl (omega (arith, f.block_size)))
time_slice-Switched pid tcb_offset tcb_sz top zero (suc (suc p')) s f at e = absurd (omega arith)
time_slice-Switched pid tcb_offset tcb_sz top (suc zero) zero s f at e =
    switch_between pid tcb_offset tcb_sz top 1 0 (tcb_offset + 1 * tcb_sz) (tcb_offset + 0 * tcb_sz)
      s f at refl refl refl (omega arith) (omega arith) (omega arith) (omega arith)
      (inr (omega (arith, f.block_size)))
time_slice-Switched pid tcb_offset tcb_sz top (suc zero) (suc p') s f at e = absurd (omega arith)
time_slice-Switched pid tcb_offset tcb_sz top (suc (suc p)) p' s f at e = absurd (omega arith)

-- Task `p` is switched away from, the other task runs and leaves the first one's block alone, and is
-- switched away from in its turn, perhaps with another stack pointer: the second switch succeeds,
-- names task `p` again and gives it back its registers but R0, which gets the word above the stack,
-- whatever it was; the registers from 16 on keep what the other task left in them.
pub time_slice_resumes :
    (pid tcb_offset tcb_sz top top' p p' : ℕ) (s s₁ s₂ : Context)
    → Fits pid tcb_offset tcb_sz top s
    → s.system_state.cells pid ≡ p
    → p + p' ≡ 1
    → time_slice pid tcb_offset tcb_sz s ≡ some s₁
    → Fits pid tcb_offset tcb_sz top' s₂
    → s₂.system_state.cells pid ≡ s₁.system_state.cells pid
    → ((k : ℕ)
        → k < nregs_context
        → s₂.system_state.cells (tcb_offset + p * tcb_sz + k)
          ≡ s₁.system_state.cells (tcb_offset + p * tcb_sz + k))
    → (s₃ : Context) × (time_slice pid tcb_offset tcb_sz s₂ ≡ some s₃)
      × (s₃.system_state.cells pid ≡ p)
      × ((r : ℕ) → 1 ≤ r → r < nregs_context → s₃.registers.cells r ≡ s.registers.cells r)
      × (s₃.registers.cells 0 ≡ s₂.system_state.cells (top' + nregs_context))
      × ((j : ℕ) → nregs_context ≤ j → s₃.registers.cells j ≡ s₂.registers.cells j)
time_slice_resumes pid tcb_offset tcb_sz top top' p p' s s₁ s₂ f at e run f' same block =
    let (t, done, away) = time_slice-Switched pid tcb_offset tcb_sz top p p' s f at e in
    let is : t ≡ s₁ = some_inj (sym done ∙ run) in
    let here : Switched pid (tcb_offset + p * tcb_sz) (tcb_offset + p' * tcb_sz) p' top s s₁ =
      subst (Switched pid (tcb_offset + p * tcb_sz) (tcb_offset + p' * tcb_sz) p' top s) is away in
    let (s₃, done', back) =
      time_slice-Switched pid tcb_offset tcb_sz top' p' p s₂ f' (same ∙ here.named) (omega arith) in
    (
      s₃,
      done',
      back.named,
      λ r pos lt.
          back.loaded r pos lt ∙ block (nregs_context - r) (omega arith) ∙ here.saved r pos lt,
      back.loaded_first,
      back.others,
    )
