-- ===== src/Machine/Processor/Invariant.antt =====
-- The machine's invariant over the cycles of the processor.
use osh.Prelude.{
  ℕ, zero, suc, ◌+◌, ◌/◌, ◌^◌, ◌<◌, ◌≡◌, sym, ap, ◌∙◌, subst, Bool, true, false, List, [], ◌∷◌,
  some, arith, ◌==◌, get_elem?, write?, Ram, load, >>=-eq-some, some_inj, word, add64, bit_and_byte,
  Bool-cases, inl, inr,
}
use osh.Machine.Constants.{pc, lr, ivt, ivt_sz}
use osh.Machine.Fetch.{fetch_instruction}
use osh.Machine.Decode.{
  decode_instruction, decode_instr, decode_args, decode_addr_arg, decode_reg_addr_args,
  decode_3reg_args,
}
use osh.Machine.Execute.Invariant.{
  IsMachine, write-IsMachine, load-lt, execute_instruction-IsMachine,
}
use osh.Machine.Irqs.{serve, check_from, check_irqs}
use osh.Machine.Processor.{copy_words, interrupt_phase, instruction_phase, processor_action}

-- The fields of a word are 64-bit values.
decode_args-lt :
    (op ir : ℕ) → ir < word → ((decode_args op ir).0 < word) × ((decode_args op ir).1 < word)
unfolding decode_args decode_addr_arg decode_reg_addr_args decode_3reg_args
decode_args-lt op ir h =
    ground
      (arith, bit_and_byte (ir / 2 ^ 8), bit_and_byte (ir / 2 ^ 16), bit_and_byte (ir / 2 ^ 24))

module _ (size : ℕ) {registers : List ℕ} {m : Ram} (h : IsMachine size registers m) where
  fetch_instruction-IsMachine :
      {ir : ℕ} {registers' : List ℕ}
      → fetch_instruction registers m ≡ some (ir, registers')
      → (ir < word) × IsMachine size registers' m
  unfolding fetch_instruction
  fetch_instruction-IsMachine {ir} {registers'} e =
      let (at, p, e₁) = >>=-eq-some (get_elem? registers pc) _ e in
      let (w, q, e₂) = >>=-eq-some (load m at) _ e₁ in
      let (r₁, v, e₃) = >>=-eq-some (write? registers pc (add64 at 1)) _ e₂ in
      subst (λ (s : ℕ × List ℕ). (s.0 < word) × IsMachine size s.1 m) (some_inj e₃)
        (load-lt size h at q, write-IsMachine size h pc (add64 at 1) (omega arith) v)

  pub instruction_phase-IsMachine :
      {registers' : List ℕ} {m' : Ram}
      → instruction_phase registers m ≡ some (registers', m')
      → IsMachine size registers' m'
  unfolding instruction_phase decode_instruction
  instruction_phase-IsMachine {registers'} {m'} e =
      let (fetched, p, e₁) = >>=-eq-some (fetch_instruction registers m) _ e in
      let (fits, k) = fetch_instruction-IsMachine p in
      let (h1, h2) = decode_args-lt (decode_instr fetched.0) fetched.0 fits in
      execute_instruction-IsMachine size (decode_instr fetched.0) _ _ _ k h1 h2 registers' m' e₁

  serve-IsMachine :
      (idx : ℕ) (table irqs : List ℕ) {registers' irqs' : List ℕ}
      → ((i w : ℕ) → get_elem? table i ≡ some w → w < word)
      → serve idx registers table irqs ≡ some (registers', irqs')
      → IsMachine size registers' m
  serve-IsMachine idx table irqs {registers'} {irqs'} fits e =
      let (at, p, e₁) = >>=-eq-some (get_elem? registers pc) _ e in
      let (r₁, q, e₂) = >>=-eq-some (write? registers lr at) _ e₁ in
      let (isr, t, e₃) = >>=-eq-some (get_elem? table idx) _ e₂ in
      let (r₂, v, e₄) = >>=-eq-some (write? r₁ pc isr) _ e₃ in
      let (i₁, _, e₅) = >>=-eq-some (write? irqs idx 0) _ e₄ in
      let k = write-IsMachine size h lr at (h.registers_fit pc at p) q in
      subst (λ (s : List ℕ × List ℕ). IsMachine size s.0 m) (some_inj e₅)
        (write-IsMachine size k pc isr (fits idx isr t) v)

  check_from-IsMachine :
      (rest : List ℕ) (idx : ℕ) (table irqs : List ℕ) {registers' irqs' : List ℕ}
      → ((i w : ℕ) → get_elem? table i ≡ some w → w < word)
      → check_from rest idx registers table irqs ≡ some (registers', irqs')
      → IsMachine size registers' m
  unfolding check_from
  check_from-IsMachine [] idx table irqs fits e =
      subst (λ (s : List ℕ × List ℕ). IsMachine size s.0 m) (some_inj e) h
  check_from-IsMachine (irq ∷ rest) idx table irqs fits e = elim (Bool-cases (irq == 0)) [
    | inl quiet ↦ check_from-IsMachine rest (idx + 1) table irqs fits (rw quiet at e)
    | inr raised ↦ serve-IsMachine idx table irqs fits (rw raised at e)
  ]

copy_words-fit :
    (m : Ram) (n first : ℕ) {words : List ℕ}
    → ((i : ℕ) → m.cells i < word)
    → copy_words m first n ≡ some words
    → (i w : ℕ) → get_elem? words i ≡ some w
    → w < word
unfolding copy_words
copy_words-fit m zero first {words} h e i w q =
    let empty : words ≡ [] = some_inj (sym e) in cc (ap (λ l. get_elem? l i) empty)
copy_words-fit m (suc n) first {words} h e i w q =
    let (v, p, e₁) = >>=-eq-some (load m first) _ e in
    let (ws, r, e₂) = >>=-eq-some (copy_words m (first + 1) n) _ e₁ in
    let whole : words ≡ v ∷ ws = some_inj (sym e₂) in
    go i v ws (ground (arith, h first)) (copy_words-fit m n (first + 1) h r)
      (sym (ap (λ l. get_elem? l i) whole) ∙ q)
  where
    go :
        (i v : ℕ) (ws : List ℕ)
        → v < word
        → ((j u : ℕ) → get_elem? ws j ≡ some u → u < word)
        → get_elem? (v ∷ ws) i ≡ some w
        → w < word
    go zero v ws hv hws q' = subst (λ (u : ℕ). u < word) (some_inj q') hv
    go (suc i) v ws hv hws q' = hws i w q'

interrupt_phase-IsMachine :
    (peripherals : Bool) (size : ℕ) (m : Ram) (irqs registers : List ℕ) {registers' irqs' : List ℕ}
    → IsMachine size registers m
    → interrupt_phase peripherals m irqs registers ≡ some (registers', irqs')
    → IsMachine size registers' m
unfolding interrupt_phase check_irqs
interrupt_phase-IsMachine true size m irqs registers h e =
    let (table, p, e₁) = >>=-eq-some (copy_words m ivt ivt_sz) _ e in
    check_from-IsMachine size h irqs 0 table irqs (copy_words-fit m ivt_sz ivt h.memory_fits p) e₁
interrupt_phase-IsMachine false size m irqs registers h e =
    subst (λ (s : List ℕ × List ℕ). IsMachine size s.0 m) (some_inj e) h

-- A cycle of the processor, with or without interrupts, leaves a machine of the same size.
pub processor_action-IsMachine :
    (peripherals : Bool) (size : ℕ) (system_state : Ram) (irqs registers : List ℕ)
    {system_state' : Ram} {irqs' registers' : List ℕ}
    → IsMachine size registers system_state
    → processor_action peripherals system_state irqs registers
      ≡ some (system_state', irqs', registers')
    → IsMachine size registers' system_state'
unfolding processor_action
processor_action-IsMachine peripherals size m irqs registers h e =
    let (served, p, e₁) = >>=-eq-some (interrupt_phase peripherals m irqs registers) _ e in
    let (executed, q, e₂) = >>=-eq-some (instruction_phase served.0 m) _ e₁ in
    subst (λ (s : Ram × List ℕ × List ℕ). IsMachine size s.2 s.0) (some_inj e₂)
      (instruction_phase-IsMachine size
        (interrupt_phase-IsMachine peripherals size m irqs registers h p) q)
