-- ===== src/Machine/Model/Cycles.antt =====
-- The Fibonacci program in the model's loop over the cycles.
use osh.Prelude.{
  ℕ, zero, suc, ◌+◌, ◌-◌, ◌*◌, ◌%◌, ◌^◌, ◌≤◌, ◌<◌, ◌≡◌, refl, sym, ◌∙◌, ap, List, [], ◌∷◌, Option,
  some, arith, get_elem?, Ram, ◌>>=◌, false, some_inj, Option-cases, inl, inr,
}
use osh.Machine.Constants.{code, pc}
use osh.Machine.Encode.{encode_program}
use osh.Machine.Processor.{instruction_phase, interrupt_phase, processor_action}
use osh.Machine.Code.{fib_prog, write_code}
use osh.Machine.Code.Placed.{Loaded, write_code-Loaded}
use osh.Machine.Code.Fibonacci.{
  fib_words, encode_program-fib_prog, steps, rounds, regs, first, second, stored, program, fib,
  stored_above, stored-fib_ones,
}
use osh.Machine.Model.{System, cycle, run_cycles}

-- the system between cycles, without interrupts
abbrev pub between : System → List ℕ → Ram → System
between s registers m = record s { irqs = []; registers = registers; system_state = m }

abbrev pub joined : System → Option (List ℕ × Ram) → Option System
joined s r = r >>= λ p. some (between s p.0 p.1)

pub cycle-joined :
    (s : System) (registers : List ℕ) (m : Ram)
    → cycle false (between s registers m) ≡ joined s (instruction_phase registers m)
unfolding cycle processor_action interrupt_phase
cycle-joined s registers m = elim (Option-cases (instruction_phase registers m)) [
  | inl e ↦ rw e
  | inr (p, e) ↦ rw e
]

pub run_cycles-joined :
    (n : ℕ) (s : System) (registers : List ℕ) (m : Ram)
    → run_cycles false n (between s registers m) ≡ joined s (steps n registers m)
unfolding run_cycles
run_cycles-joined zero s registers m = refl
run_cycles-joined (suc n) s registers m = elim (Option-cases (instruction_phase registers m)) [
  | inl e ↦ rw (cycle-joined, e)
  | inr (p, e) ↦ rw (cycle-joined, e) (run_cycles-joined n s p.0 p.1)
]

rounds-eq : (n k : ℕ) → rounds n k ≡ 6 * n + k
rounds-eq zero k = omega arith
rounds-eq (suc n) k = omega (arith, rounds-eq n k)

-- the registers of a machine that starts the program: any values, the counter at CODE
abbrev pub at_start : ℕ → ℕ → ℕ → ℕ → ℕ → ℕ → ℕ → ℕ → ℕ → ℕ → ℕ → ℕ → ℕ → ℕ → ℕ → List ℕ
at_start r0 r1 r2 r3 r4 r5 r6 r7 r8 r9 r10 r11 r12 r13 r14 =
    r0 ∷ r1 ∷ r2 ∷ r3 ∷ r4 ∷ r5 ∷ r6 ∷ r7 ∷ r8 ∷ r9 ∷ r10 ∷ r11 ∷ r12 ∷ r13 ∷ r14 ∷ code ∷ []

-- The Fibonacci program with `n` for FIB_MAX, 0 < n ≤ CODE, assembled and loaded into any memory
-- with room for it, run without interrupts from any registers with the counter at CODE: after
-- 5 + 6 * n cycles the counter is at WFI, address n - 1 - k holds the Fibonacci number of index
-- k + 3 modulo 2 ^ 64 for every k < n, and no other word of the memory has changed.
pub run_cycles-fib_prog :
    (n : ℕ) (s : System) (m : Ram) (r0 r1 r2 r3 r4 r5 r6 r7 r8 r9 r10 r11 r12 r13 r14 : ℕ)
    {iws : List ℕ}
    → 0 < n
    → n ≤ code
    → encode_program (fib_prog n) ≡ some iws
    → write_code iws 0 m ≡ some s.system_state
    → code + 12 ≤ m.size
    → s.irqs ≡ []
    → s.registers ≡ at_start r0 r1 r2 r3 r4 r5 r6 r7 r8 r9 r10 r11 r12 r13 r14
    → (s' : System) × (run_cycles false (5 + 6 * n) s ≡ some s')
      × (get_elem? s'.registers pc ≡ some (code + 11))
      × ((k : ℕ) → k < n → s'.system_state.cells (n - suc k) ≡ fib (k + 3) % 2 ^ 64)
      × ((j : ℕ) → n ≤ j → s'.system_state.cells j ≡ s.system_state.cells j)
run_cycles-fib_prog n s m r0 r1 r2 r3 r4 r5 r6 r7 r8 r9 r10 r11 r12 r13 r14 {iws} pos le e w room q
      r =
    (
      between s after (record (s.system_state) { cells = stored n 1 1 s.system_state.cells }),
      ap (run_cycles false (5 + 6 * n)) start
          ∙ run_cycles-joined (5 + 6 * n) s before s.system_state
          ∙ ap (λ (k : ℕ). joined s (steps k before s.system_state)) count
          ∙ ap (joined s) (
              program r0 r6 r7 r8 r9 r10 r11 r12 r13 r14 n 0 r1 r2 r3 r4 r5 s.system_state pos le
                loaded),
      refl,
      λ k h. stored-fib_ones n s.system_state.cells k h,
      λ j h. stored_above n 1 1 s.system_state.cells j h,
    )
  where
    before : List ℕ
    before = at_start r0 r1 r2 r3 r4 r5 r6 r7 r8 r9 r10 r11 r12 r13 r14

    after : List ℕ
    after =
        regs r0 r6 r7 r8 r9 r10 r11 r12 r13 r14 n (first n 1 1) (second n 1 1) (second n 1 1) 0 1
          (code + 11)

    start : s ≡ between s before s.system_state
    start = λ i. record s { irqs = q i; registers = r i }

    count : 5 + 6 * n ≡ suc (suc (suc (suc (suc (rounds n 0)))))
    count = omega (arith, rounds-eq n 0)

    words : fib_words n ≡ iws
    words = some_inj (sym (encode_program-fib_prog n) ∙ e)

    loaded : Loaded (fib_words n) s.system_state
    loaded = write_code-Loaded (fib_words n) m room (rw words w)
