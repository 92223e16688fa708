-- ===== src/Machine/Code/Rounds.antt =====
-- One round of the Fibonacci loop, instruction by instruction.
use osh.Prelude.{
  ℕ, ◌+◌, ◌<◌, ◌≡◌, refl, ◌∙◌, List, [], ◌∷◌, Option, some, arith, get_elem?, write?, Ram, update,
  lt→ltb, ◌==◌, if◌then◌else◌, add64, sub64,
}
use osh.Machine.Constants.{code, pc}
use osh.Machine.Fetch.{fetch_instruction}
use osh.Machine.Decode.{
  decode_instruction, decode_instr, decode_args, decode_3reg_args, decode_reg_addr_args, Args,
}
use osh.Machine.Execute.{execute_instruction}
use osh.Machine.Processor.{instruction_phase}

-- An instruction phase, from the word at the program counter.
pub instruction_phase-eq :
    (registers : List ℕ) (m : Ram) (at iw : ℕ) (registers' : List ℕ)
    → get_elem? registers pc ≡ some at
    → at < m.size
    → m.cells at ≡ iw
    → write? registers pc (add64 at 1) ≡ some registers'
    → instruction_phase registers m
      ≡ execute_instruction (decode_instruction iw).0 (decode_instruction iw).1 registers' m
unfolding instruction_phase fetch_instruction
instruction_phase-eq registers m at iw registers' p lt e q =
    rw p (rw (lt→ltb _ _ lt) (rw q (rw e refl)))

-- The definitions that a decode and an execution at a known word compute with.
execution : ℕ → Args → List ℕ → Ram → Option (List ℕ × Ram)
unfolding decode_instruction execute_instruction decode_instr decode_args decode_3reg_args
    decode_reg_addr_args
execution = execute_instruction

-- A register file by its sixteen registers; the program uses R1 to R5 and the counter.
module _ (r0 r6 r7 r8 r9 r10 r11 r12 r13 r14 : ℕ) (m : Ram) where
  abbrev pub file : ℕ → ℕ → ℕ → ℕ → ℕ → ℕ → List ℕ
  file r1 r2 r3 r4 r5 at =
      r0 ∷ r1 ∷ r2 ∷ r3 ∷ r4 ∷ r5 ∷ r6 ∷ r7 ∷ r8 ∷ r9 ∷ r10 ∷ r11 ∷ r12 ∷ r13 ∷ r14 ∷ at ∷ []

  -- SET R1 to R5, before the loop; `word` is the instruction word of SET R4
  pub round_set1 :
      (a b c n e : ℕ)
      → code < m.size
      → m.cells code ≡ 65815
      → instruction_phase (file a b c n e code) m ≡ some (file 1 b c n e (code + 1), m)
  unfolding execution
  round_set1 a b c n e lt w = instruction_phase-eq _ m code 65815 _ refl lt w refl

  pub round_set2 :
      (a b c n e : ℕ)
      → code + 1 < m.size
      → m.cells (code + 1) ≡ 66071
      → instruction_phase (file a b c n e (code + 1)) m ≡ some (file a 1 c n e (code + 2), m)
  unfolding execution
  round_set2 a b c n e lt w = instruction_phase-eq _ m (code + 1) 66071 _ refl lt w refl

  pub round_set3 :
      (a b c n e : ℕ)
      → code + 2 < m.size
      → m.cells (code + 2) ≡ 791
      → instruction_phase (file a b c n e (code + 2)) m ≡ some (file a b 0 n e (code + 3), m)
  unfolding execution
  round_set3 a b c n e lt w = instruction_phase-eq _ m (code + 2) 791 _ refl lt w refl

  pub round_set4 :
      (a b c n e rounds word : ℕ)
      → code + 3 < m.size
      → m.cells (code + 3) ≡ word
      → decode_instruction word ≡ (23, (4, rounds, 0))
      → instruction_phase (file a b c n e (code + 3)) m ≡ some (file a b c rounds e (code + 4), m)
  unfolding execute_instruction
  round_set4 a b c n e rounds word lt w d =
      instruction_phase-eq _ m (code + 3) word _ refl lt w refl ∙ rw d

  pub round_set5 :
      (a b c n e : ℕ)
      → code + 4 < m.size
      → m.cells (code + 4) ≡ 66839
      → instruction_phase (file a b c n e (code + 4)) m ≡ some (file a b c n 1 (code + 5), m)
  unfolding execution
  round_set5 a b c n e lt w = instruction_phase-eq _ m (code + 4) 66839 _ refl lt w refl

  -- ADD R3,R1,R2
  pub round_add :
      (a b c n e : ℕ)
      → code + 5 < m.size
      → m.cells (code + 5) ≡ 33620736
      → instruction_phase (file a b c n e (code + 5)) m
        ≡ some (file a b (add64 a b) n e (code + 6), m)
  unfolding execution
  round_add a b c n e lt w = instruction_phase-eq _ m (code + 5) 33620736 _ refl lt w refl

  -- MOV R1,R2
  pub round_mov1 :
      (a b c n e : ℕ)
      → code + 6 < m.size
      → m.cells (code + 6) ≡ 131350
      → instruction_phase (file a b c n e (code + 6)) m ≡ some (file b b c n e (code + 7), m)
  unfolding execution
  round_mov1 a b c n e lt w = instruction_phase-eq _ m (code + 6) 131350 _ refl lt w refl

  -- MOV R2,R3
  pub round_mov2 :
      (a b c n e : ℕ)
      → code + 7 < m.size
      → m.cells (code + 7) ≡ 197142
      → instruction_phase (file a b c n e (code + 7)) m ≡ some (file a c c n e (code + 8), m)
  unfolding execution
  round_mov2 a b c n e lt w = instruction_phase-eq _ m (code + 7) 197142 _ refl lt w refl

  -- SUB R4,R4,R5
  pub round_sub :
      (a b c n e : ℕ)
      → code + 8 < m.size
      → m.cells (code + 8) ≡ 84149249
      → instruction_phase (file a b c n e (code + 8)) m
        ≡ some (file a b c (sub64 n e) e (code + 9), m)
  unfolding execution
  round_sub a b c n e lt w = instruction_phase-eq _ m (code + 8) 84149249 _ refl lt w refl

  -- STR R3,R4
  pub round_str :
      (a b c n e : ℕ)
      → code + 9 < m.size
      → n < m.size
      → m.cells (code + 9) ≡ 262929
      → instruction_phase (file a b c n e (code + 9)) m
        ≡ some (file a b c n e (code + 10), record m { cells = update m.cells n c })
  unfolding execution
  round_str a b c n e lt in_range w =
      instruction_phase-eq _ m (code + 9) 262929 _ refl lt w refl ∙ rw (lt→ltb _ _ in_range)

  -- CBNZ R4,loop
  pub round_cbnz :
      (a b c n e : ℕ)
      → code + 10 < m.size
      → m.cells (code + 10) ≡ 824635098138
      → instruction_phase (file a b c n e (code + 10)) m
        ≡ some (file a b c n e (if n == 0 then code + 11 else code + 5), m)
  unfolding execution
  round_cbnz a b c n e lt w =
      instruction_phase-eq _ m (code + 10) 824635098138 _ refl lt w refl ∙ ground arith
