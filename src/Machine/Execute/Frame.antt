-- ===== src/Machine/Execute/Frame.antt =====
-- What an instruction leaves alone.
use osh.Prelude.{
  ℕ, ◌≡◌, refl, ap, ◌≢◌, subst, ==_refl, List, Bool, true, false, ◌||◌, not, Option, some, arith,
  ◌==◌, if◌then◌else◌, get_elem?, get_or, write?, Ram, load, store, ◌>>=◌, >>=-eq-some, some_inj,
  Bool-cases, inl, inr, store-eq-some, get_elem?-write?, add64, sub64,
}
use osh.Machine.Execute.Defined.Branches.{get_elem?-lt}
use osh.Machine.Constants.{sp, lr, pc}
use osh.Machine.Alu.{alu}
use osh.Machine.Decode.{Args}
use osh.Machine.Encode.Layout.{Op, opcode}
use osh.Machine.Execute.{
  load_register, store_register, push_register, pop_register, branch_on_zero, branch_link, compute,
  execute_instruction,
}

-- the registers that an instruction may change
abbrev pub changes : Op → Args → ℕ → Bool
changes Op.str args j = false
changes Op.nop args j = false
changes Op.wfi args j = false
changes Op.push args j = sp == j
changes Op.pop (a1, a2, a3) j = (a1 == j) || (sp == j)
changes Op.cbz args j = pc == j
changes Op.cbnz args j = pc == j
changes Op.bx args j = pc == j
changes Op.bl args j = (lr == j) || (pc == j)
changes _ (a1, a2, a3) j = a1 == j

-- the word of the memory that an instruction may change, by the contents of the registers
abbrev pub stores : Op → Args → List ℕ → ℕ → Bool
stores Op.str (a1, a2, a3) registers a = get_or registers a2 0 == a
stores Op.push args registers a = get_or registers sp 0 == a
stores _ args registers a = false

module _ (registers : List ℕ) (m : Ram) where
  -- Whatever the result is, it differs at most where `c` and `s` say.
  record Kept (c s : ℕ → Bool) (registers' : List ℕ) (m' : Ram) : Type 0 where
    registers_kept : (j : ℕ) → c j ≡ false → get_elem? registers' j ≡ get_elem? registers j
    memory_kept : (a : ℕ) → s a ≡ false → m'.cells a ≡ m.cells a
    size_kept : m'.size ≡ m.size

  abbrev KeptBy : (ℕ → Bool) → (ℕ → Bool) → Option (List ℕ × Ram) → Type 0
  KeptBy c s r = (p : List ℕ × Ram) → r ≡ some p → Kept c s p.0 p.1

  bind-KeptBy {ℓ} :
      {A : Type ℓ} (c s : ℕ → Bool) (o : Option A) (f : A → Option (List ℕ × Ram))
      → ((a : A) → o ≡ some a → KeptBy c s (f a))
      → KeptBy c s (o >>= f)
  bind-KeptBy c s o f k p h = let (a, e, h') = >>=-eq-some o f h in k a e p h'

  some-KeptBy :
      (c s : ℕ → Bool) (ys : List ℕ) (m' : Ram) → Kept c s ys m' → KeptBy c s (some (ys, m'))
  some-KeptBy c s ys m' k p h = subst (λ (q : List ℕ × Ram). Kept c s q.0 q.1) (some_inj h) k

  -- a register that is written last, the memory as it was
  written-KeptBy :
      (c s : ℕ → Bool) (i v : ℕ)
      → c i ≡ true
      → KeptBy c s (write? registers i v >>= λ ys. some (ys, m))
  written-KeptBy c s i v t = bind-KeptBy c s (write? registers i v) _ λ ys w.
      some-KeptBy c s ys m (record {
        registers_kept = λ j n. ground (arith, get_elem?-write? registers i v w j, apart j n);
        memory_kept = λ a n. refl;
        size_kept = refl;
      })
    where
      apart : (j : ℕ) → c j ≡ false → i ≢ j
      apart j n e = cc (ap c e)

  unchanged-KeptBy : (c s : ℕ → Bool) → KeptBy c s (some (registers, m))
  unchanged-KeptBy c s =
      some-KeptBy c s registers m
        (record { registers_kept = λ j n. refl; memory_kept = λ a n. refl; size_kept = refl })

  load_register-KeptBy :
      (c s : ℕ → Bool) (r1 addr : ℕ) → c r1 ≡ true → KeptBy c s (load_register registers m r1 addr)
  load_register-KeptBy c s r1 addr t =
      bind-KeptBy c s (load m addr) _ λ v _. written-KeptBy c s r1 v t

  -- a store at the address in register `r`
  store-cells :
      (r addr v : ℕ) {m' : Ram}
      → get_elem? registers r ≡ some addr
      → store m addr v ≡ some m'
      → (a : ℕ) → (get_or registers r 0 == a) ≡ false
      → m'.cells a ≡ m.cells a
  store-cells r addr v e w a n =
      let (_, changed) = store-eq-some m addr v w in
      let (_, same) = get_elem?-lt registers r e in rw changed (ground (arith, same))

  store-size : (addr v : ℕ) {m' : Ram} → store m addr v ≡ some m' → m'.size ≡ m.size
  store-size addr v w = let (_, changed) = store-eq-some m addr v w in rw changed

  store_register-KeptBy :
      (r1 r2 : ℕ)
      → KeptBy (λ _. false) (λ a. get_or registers r2 0 == a) (store_register registers m r1 r2)
  store_register-KeptBy r1 r2 = bind-KeptBy _ _ (get_elem? registers r2) _ λ addr e.
      bind-KeptBy _ _ (get_elem? registers r1) _ λ v _. bind-KeptBy _ _ (store m addr v) _ λ m' w.
        some-KeptBy _ _ registers m' (record {
          registers_kept = λ j n. refl;
          memory_kept = store-cells r2 addr v e w;
          size_kept = store-size addr v w;
        })

  push_register-KeptBy :
      (r1 : ℕ)
      → KeptBy (λ j. sp == j) (λ a. get_or registers sp 0 == a) (push_register registers m r1)
  push_register-KeptBy r1 = bind-KeptBy _ _ (get_elem? registers sp) _ λ addr e.
      bind-KeptBy _ _ (get_elem? registers r1) _ λ v _. bind-KeptBy _ _ (store m addr v) _ λ m' w.
        bind-KeptBy _ _ (write? registers sp (add64 addr 1)) _ λ ys t.
          some-KeptBy _ _ ys m' (record {
            registers_kept = λ j n. ground (arith, get_elem?-write? registers sp _ t j);
            memory_kept = store-cells sp addr v e w;
            size_kept = store-size addr v w;
          })

  pop_register-KeptBy :
      (r1 : ℕ) → KeptBy (λ j. (r1 == j) || (sp == j)) (λ _. false) (pop_register registers m r1)
  pop_register-KeptBy r1 = bind-KeptBy _ _ (get_elem? registers sp) _ λ addr _.
      bind-KeptBy _ _ (load m addr) _ λ v _. bind-KeptBy _ _ (write? registers r1 v) _ λ ys w.
        bind-KeptBy _ _ (get_elem? ys sp) _ λ addr' _.
          bind-KeptBy _ _ (write? ys sp (sub64 addr' 1)) _ λ zs w'. some-KeptBy _ _ zs m (record {
            registers_kept = λ j n.
                ground (arith, get_elem?-write? registers r1 v w j, get_elem?-write? ys sp _ w' j);
            memory_kept = λ a n. refl;
            size_kept = refl;
          })

  branch_link-KeptBy :
      (s : ℕ → Bool) (addr : ℕ)
      → KeptBy (λ j. (lr == j) || (pc == j)) s (branch_link registers m addr)
  branch_link-KeptBy s addr = bind-KeptBy _ s (get_elem? registers pc) _ λ at _.
      bind-KeptBy _ s (write? registers lr at) _ λ ys w.
        bind-KeptBy _ s (write? ys pc addr) _ λ zs w'. some-KeptBy _ s zs m (record {
          registers_kept = λ j n.
              ground
                (arith, get_elem?-write? registers lr at w j, get_elem?-write? ys pc addr w' j);
          memory_kept = λ a n. refl;
          size_kept = refl;
        })

  branch_on_zero-KeptBy :
      (s : ℕ → Bool) (when : Bool) (r1 addr : ℕ)
      → KeptBy (λ j. pc == j) s (branch_on_zero registers m when r1 addr)
  branch_on_zero-KeptBy s when r1 addr = bind-KeptBy _ s (get_elem? registers r1) _ λ v _.
      elim (Bool-cases (if when then v == 0 else not (v == 0))) [
        | inl t ↦ rw t (written-KeptBy _ s pc addr refl)
        | inr t ↦ rw t (unchanged-KeptBy _ s)
      ]

  compute-KeptBy :
      (s : ℕ → Bool) (instr r3 r1 r2 : ℕ)
      → KeptBy (λ j. r3 == j) s (compute registers m instr r3 r1 r2)
  compute-KeptBy s instr r3 r1 r2 = bind-KeptBy _ s (get_elem? registers r1) _ λ x _.
      bind-KeptBy _ s (get_elem? registers r2) _
        λ y _. bind-KeptBy _ s (alu instr x y) _ λ v _. written-KeptBy _ s r3 v (==_refl r3)

execute_instruction-KeptBy :
    (op : Op) (args : Args) (registers : List ℕ) (m : Ram)
    → KeptBy registers m
        (changes op args)
        (stores op args registers)
        (execute_instruction (opcode op) args registers m)
unfolding execute_instruction
execute_instruction-KeptBy Op.ldr (a1, a2, a3) registers m =
    load_register-KeptBy registers m _ _ a1 a2 (==_refl a1)
execute_instruction-KeptBy Op.str (a1, a2, a3) registers m = store_register-KeptBy registers m a1 a2
execute_instruction-KeptBy Op.push (a1, a2, a3) registers m = push_register-KeptBy registers m a1
execute_instruction-KeptBy Op.pop (a1, a2, a3) registers m = pop_register-KeptBy registers m a1
execute_instruction-KeptBy Op.cbz (a1, a2, a3) registers m =
    branch_on_zero-KeptBy registers m _ true a1 a2
execute_instruction-KeptBy Op.cbnz (a1, a2, a3) registers m =
    branch_on_zero-KeptBy registers m _ false a1 a2
execute_instruction-KeptBy Op.bl (a1, a2, a3) registers m = branch_link-KeptBy registers m _ a2
execute_instruction-KeptBy Op.bx (a1, a2, a3) registers m =
    bind-KeptBy registers m _ _ (get_elem? registers a1) _
      λ v _. written-KeptBy registers m _ _ pc v refl
execute_instruction-KeptBy Op.mov (a1, a2, a3) registers m =
    bind-KeptBy registers m _ _ (get_elem? registers a2) _
      λ v _. written-KeptBy registers m _ _ a1 v (==_refl a1)
execute_instruction-KeptBy Op.set (a1, a2, a3) registers m =
    written-KeptBy registers m _ _ a1 a2 (==_refl a1)
execute_instruction-KeptBy Op.nop args registers m = unchanged-KeptBy registers m _ _
execute_instruction-KeptBy Op.wfi args registers m = unchanged-KeptBy registers m _ _
execute_instruction-KeptBy op (a1, a2, a3) registers m =
    compute-KeptBy registers m _ (opcode op) a1 a2 a3

-- An instruction that is executed leaves the size of the memory; every register but the one that it
-- writes, the stack pointer for PUSH and POP, the counter for branches, and the link register for
-- BL; and every word but that at the address in its second register for STR, and that at the stack
-- pointer for PUSH.
pub execute_instruction-frame :
    (op : Op) (args : Args) (registers registers' : List ℕ) (m m' : Ram)
    → execute_instruction (opcode op) args registers m ≡ some (registers', m')
    → ((j : ℕ) → changes op args j ≡ false → get_elem? registers' j ≡ get_elem? registers j)
      × ((a : ℕ) → stores op args registers a ≡ false → m'.cells a ≡ m.cells a)
      × (m'.size ≡ m.size)
execute_instruction-frame op args registers registers' m m' h =
    let kept = execute_instruction-KeptBy op args registers m (registers', m') h in
    (kept.registers_kept, kept.memory_kept, kept.size_kept)
