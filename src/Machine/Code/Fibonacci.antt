-- ===== src/Machine/Code/Fibonacci.antt =====
-- The Fibonacci program from its first instruction to WFI.
use osh.Prelude.{
  ℕ, zero, suc, ◌+◌, ◌-◌, ◌%◌, ◌^◌, ◌≤◌, ◌<◌, ◌≡◌, refl, ◌∙◌, ap, List, [], ◌∷◌, Option, some,
  arith, Ram, update, update_self, update_ne, ne→==, ◌==◌, if◌then◌else◌, ◌>>=◌, add64, sub64,
  shl64, word, some_inj,
}
use osh.Machine.Constants.{code}
use osh.Machine.Opcode
use osh.Machine.Decode.{decode_instruction}
use osh.Machine.Encode.{encode_instruction, encode_program}
use osh.Machine.Encode.Layout.{Op}
use osh.Machine.Encode.RoundTrip.{decode-encode_instruction}
use osh.Machine.Processor.{instruction_phase}
use osh.Machine.Code.{fib_prog}
use osh.Machine.Code.Placed.{Loaded, Loaded-update}
use osh.Machine.Code.Rounds.{
  round_set1, round_set2, round_set3, round_set4, round_set5, round_add, round_mov1, round_mov2,
  round_sub, round_str, round_cbnz,
}

-- the word of SET R4,n
abbrev pub set_rounds : ℕ → ℕ
set_rounds n = add64 (add64 Opcode.set (shl64 4 8)) (shl64 n 16)

abbrev pub fib_words : ℕ → List ℕ
fib_words n =
    65815
    ∷ 66071
    ∷ 791
    ∷ set_rounds n
    ∷ 66839
    ∷ 33620736
    ∷ 131350
    ∷ 197142
    ∷ 84149249
    ∷ 262929
    ∷ 824635098138
    ∷ 29
    ∷ []

pub encode_program-fib_prog : (n : ℕ) → encode_program (fib_prog n) ≡ some (fib_words n)
unfolding encode_program
encode_program-fib_prog n = refl

decode-set_rounds : (n : ℕ) → n < 2 ^ 48 → decode_instruction (set_rounds n) ≡ (23, (4, n, 0))
unfolding encode_instruction
decode-set_rounds n h =
    some_inj (decode-encode_instruction Op.set 0 4 n 0 [] (4, n, 0) (λ p. cc) refl (omega arith, h))

-- `n` instruction phases
abbrev pub steps : ℕ → List ℕ → Ram → Option (List ℕ × Ram)
steps zero registers m = some (registers, m)
steps (suc n) registers m = instruction_phase registers m >>= λ s. steps n s.0 s.1

steps-suc :
    (n : ℕ) (registers : List ℕ) (m : Ram) {registers' : List ℕ} {m' : Ram}
    → instruction_phase registers m ≡ some (registers', m')
    → steps (suc n) registers m ≡ steps n registers' m'
steps-suc n registers m e = rw e

-- the six phases of each of `n` rounds, and `k` more
abbrev pub rounds : ℕ → ℕ → ℕ
rounds zero k = k
rounds (suc n) k = suc (suc (suc (suc (suc (suc (rounds n k))))))

-- The memory after `n` rounds from the values `a` and `b`: the new values go to n - 1, …, 0.
abbrev pub stored : ℕ → ℕ → ℕ → (ℕ → ℕ) → ℕ → ℕ
stored zero a b f = f
stored (suc n) a b f = stored n b (add64 a b) (update f n (add64 a b))

-- R1 and R2 after `n` rounds
abbrev pub first : ℕ → ℕ → ℕ → ℕ
first zero a b = a
first (suc n) a b = first n b (add64 a b)

abbrev pub second : ℕ → ℕ → ℕ → ℕ
second zero a b = b
second (suc n) a b = second n b (add64 a b)

-- SUB R4,R4,R5 with 1 in R5
counted : (n : ℕ) → suc n < 2 ^ 64 → sub64 (suc n) 1 ≡ n
counted n h = omega arith

module _ (r0 r6 r7 r8 r9 r10 r11 r12 r13 r14 limit : ℕ) where
  abbrev pub regs : ℕ → ℕ → ℕ → ℕ → ℕ → ℕ → List ℕ
  regs r1 r2 r3 r4 r5 at =
      r0 ∷ r1 ∷ r2 ∷ r3 ∷ r4 ∷ r5 ∷ r6 ∷ r7 ∷ r8 ∷ r9 ∷ r10 ∷ r11 ∷ r12 ∷ r13 ∷ r14 ∷ at ∷ []

  -- one round of the loop
  one_round :
      (k a b c n : ℕ) (m : Ram)
      → suc n ≤ code
      → Loaded (fib_words limit) m
      → steps (rounds 1 k) (regs a b c (suc n) 1 (code + 5)) m
        ≡ steps k
            (regs b (add64 a b) (add64 a b) n 1 (if n == 0 then code + 11 else code + 5))
            (record m { cells = update m.cells n (add64 a b) })
  one_round k a b c n m h l =
      steps-suc (suc (suc (suc (suc (suc k))))) _ m (
        round_add r0 r6 r7 r8 r9 r10 r11 r12 r13 r14 m a b c (suc n) 1 (omega arith)
          (l.at 5 _ refl))
      ∙ steps-suc (suc (suc (suc (suc k)))) _ m (
          round_mov1 r0 r6 r7 r8 r9 r10 r11 r12 r13 r14 m a b (add64 a b) (suc n) 1 (omega arith)
            (l.at 6 _ refl))
      ∙ steps-suc (suc (suc (suc k))) _ m (
          round_mov2 r0 r6 r7 r8 r9 r10 r11 r12 r13 r14 m b b (add64 a b) (suc n) 1 (omega arith)
            (l.at 7 _ refl))
      ∙ steps-suc (suc (suc k)) _ m (
          round_sub r0 r6 r7 r8 r9 r10 r11 r12 r13 r14 m b (add64 a b) (add64 a b) (suc n) 1
            (omega arith) (l.at 8 _ refl))
      ∙ ap (λ (r4 : ℕ). steps (suc (suc k)) (regs b (add64 a b) (add64 a b) r4 1 (code + 9)) m)
          (counted n (omega arith))
      ∙ steps-suc (suc k) _ m (
          round_str r0 r6 r7 r8 r9 r10 r11 r12 r13 r14 m b (add64 a b) (add64 a b) n 1 (omega arith)
            (omega arith) (l.at 9 _ refl))
      ∙ steps-suc k _ _ (
          round_cbnz r0 r6 r7 r8 r9 r10 r11 r12 r13 r14
            (record m { cells = update m.cells n (add64 a b) }) b (add64 a b) (add64 a b) n 1
            (omega arith) ((Loaded-update m n (add64 a b) (omega arith) l).at 10 _ refl))

  -- The loop from a counter of `suc n`: it ends at WFI.
  loop :
      (n k a b c : ℕ) (m : Ram)
      → suc n ≤ code
      → Loaded (fib_words limit) m
      → steps (rounds (suc n) k) (regs a b c (suc n) 1 (code + 5)) m
        ≡ steps k
            (regs (first (suc n) a b) (second (suc n) a b) (second (suc n) a b) 0 1 (code + 11))
            (record m { cells = stored (suc n) a b m.cells })
  loop zero k a b c m h l = one_round k a b c 0 m h l
  loop (suc n) k a b c m h l =
      rw (ne→== (suc n) 0 (λ p. absurd (omega arith))) at
        (one_round (rounds (suc n) k) a b c (suc n) m h l)
      ∙ loop n k b (add64 a b) (add64 a b) (record m { cells = update m.cells (suc n) (add64 a b) })
          (omega arith) (Loaded-update m (suc n) (add64 a b) (omega arith) l)

  loop_pos :
      (n k a b c : ℕ) (m : Ram)
      → 0 < n
      → n ≤ code
      → Loaded (fib_words limit) m
      → steps (rounds n k) (regs a b c n 1 (code + 5)) m
        ≡ steps k
            (regs (first n a b) (second n a b) (second n a b) 0 1 (code + 11))
            (record m { cells = stored n a b m.cells })
  loop_pos zero k a b c m pos h l = elim pos [ ]
  loop_pos (suc n) k a b c m pos h l = loop n k a b c m h l

  -- The whole program, from any registers.
  pub program :
      (k a b c d e : ℕ) (m : Ram)
      → 0 < limit
      → limit ≤ code
      → Loaded (fib_words limit) m
      → steps (suc (suc (suc (suc (suc (rounds limit k)))))) (regs a b c d e code) m
        ≡ steps k
            (regs (first limit 1 1) (second limit 1 1) (second limit 1 1) 0 1 (code + 11))
            (record m { cells = stored limit 1 1 m.cells })
  program k a b c d e m pos h l =
      steps-suc (suc (suc (suc (suc (rounds limit k))))) _ m
        (round_set1 r0 r6 r7 r8 r9 r10 r11 r12 r13 r14 m a b c d e (omega arith) (l.at 0 _ refl))
      ∙ steps-suc (suc (suc (suc (rounds limit k)))) _ m
          (round_set2 r0 r6 r7 r8 r9 r10 r11 r12 r13 r14 m 1 b c d e (omega arith) (l.at 1 _ refl))
      ∙ steps-suc (suc (suc (rounds limit k))) _ m
          (round_set3 r0 r6 r7 r8 r9 r10 r11 r12 r13 r14 m 1 1 c d e (omega arith) (l.at 2 _ refl))
      ∙ steps-suc (suc (rounds limit k)) _ m (
          round_set4 r0 r6 r7 r8 r9 r10 r11 r12 r13 r14 m 1 1 0 d e limit (set_rounds limit)
            (omega arith) (l.at 3 _ refl) (decode-set_rounds limit (omega arith)))
      ∙ steps-suc (rounds limit k) _ m (
          round_set5 r0 r6 r7 r8 r9 r10 r11 r12 r13 r14 m 1 1 0 limit e (omega arith)
            (l.at 4 _ refl))
      ∙ loop_pos limit k 1 1 0 m pos h l

unfoldable pub fib : ℕ → ℕ
fib zero = 0
fib (suc zero) = 1
fib (suc (suc n)) = fib n + fib (suc n)

pub stored_above : (n a b : ℕ) (f : ℕ → ℕ) (j : ℕ) → n ≤ j → stored n a b f j ≡ f j
stored_above zero a b f j h = refl
stored_above (suc n) a b f j h =
    stored_above n b (add64 a b) (update f n (add64 a b)) j (omega arith)
    ∙ update_ne f n j (add64 a b) (omega arith)

-- The value that round `k` stores, from two successive Fibonacci numbers.
stored-fib :
    (n i a b : ℕ) (f : ℕ → ℕ) (k : ℕ)
    → a ≡ fib i % word
    → b ≡ fib (suc i) % word
    → k < n
    → stored n a b f (n - suc k) ≡ fib (suc (suc (k + i))) % word
unfolding fib
stored-fib zero i a b f k p q h = elim h [ ]
stored-fib (suc n) i a b f zero p q h =
    let v = add64 a b in
    let at : suc n - 1 ≡ n = omega arith in
    let low : zero + i ≡ i = omega arith in
    rw (at, low)
      (stored_above n b v (update f n v) n (omega arith) ∙ update_self f n v ∙ omega arith)
stored-fib (suc n) i a b f (suc k) p q h =
    let at : suc n - suc (suc k) ≡ n - suc k = omega arith in
    let low : suc k + i ≡ k + suc i = omega arith in
    rw (at, low)
      (stored-fib n (suc i) b (add64 a b) (update f n (add64 a b)) k q (omega arith) (omega arith))

pub stored-fib_ones :
    (n : ℕ) (f : ℕ → ℕ) (k : ℕ) → k < n → stored n 1 1 f (n - suc k) ≡ fib (k + 3) % word
unfolding fib
stored-fib_ones n f k h =
    stored-fib n 1 1 1 f k refl refl h
    ∙ ap (λ (j : ℕ). fib j % word) (let e : suc (suc (k + 1)) ≡ k + 3 = omega arith in e)
