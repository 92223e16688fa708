-- ===== src/Machine/Execute/Invariant.antt =====
-- What every instruction keeps: sixteen registers and the memory's size, and 64-bit values.
use osh.Prelude.{
  ℕ, ◌<◌, ◌≡◌, ◌∙◌, Bool, true, false, ◌||◌, not, List, Option, some, arith, ◌==◌, if◌then◌else◌,
  get_elem?, write?, length, Ram, load, store, ◌>>=◌, >>=-eq-some, some_inj, subst, store-eq-some,
  get_elem?-write?, length-write?, add64, sub64, word,
}
use osh.Machine.Opcode
use osh.Machine.Constants.{sp, lr, pc, nregs}
use osh.Machine.Alu.{alu}
use osh.Machine.Execute.{
  load_register, store_register, push_register, pop_register, branch_on_zero, branch_link,
  branch_register, move_register, set_register, compute, execute_instruction,
}

-- A register file and a memory of `size` words, all of 64 bits.
pub record IsMachine (size : ℕ) (registers : List ℕ) (m : Ram) : Type 0 where
  pub registers_count : length registers ≡ nregs
  pub memory_size : m.size ≡ size
  pub registers_fit : (i v : ℕ) → get_elem? registers i ≡ some v → v < word
  pub memory_fits : (i : ℕ) → m.cells i < word

-- Every outcome is a machine again.
abbrev pub Keeps : ℕ → Option (List ℕ × Ram) → Type 0
Keeps size r =
    (registers' : List ℕ) (m' : Ram) → r ≡ some (registers', m') → IsMachine size registers' m'

-- The result of the ALU is a 64-bit value.
pub alu-lt : (i x y : ℕ) {v : ℕ} → x < word → y < word → alu i x y ≡ some v → v < word
unfolding alu
alu-lt i x y hx hy e = ground arith

pub write-fits :
    (registers : List ℕ) (i v : ℕ) {registers' : List ℕ}
    → ((j w : ℕ) → get_elem? registers j ≡ some w → w < word)
    → v < word
    → write? registers i v ≡ some registers'
    → (j w : ℕ) → get_elem? registers' j ≡ some w
    → w < word
write-fits registers i v h hv e j w q = ground (arith, get_elem?-write? registers i v e j, h j w)

abbrev with_memory : Ram → Option (List ℕ) → Option (List ℕ × Ram)
with_memory m r = r >>= λ r₁. some (r₁, m)

module _ (size : ℕ) {registers : List ℕ} {m : Ram} (h : IsMachine size registers m) where
  pub write-IsMachine :
      (i v : ℕ) {registers' : List ℕ}
      → v < word
      → write? registers i v ≡ some registers'
      → IsMachine size registers' m
  write-IsMachine i v hv e = record {
    registers_count = length-write? registers i v e ∙ h.registers_count;
    memory_size = h.memory_size;
    registers_fit = write-fits registers i v h.registers_fit hv e;
    memory_fits = h.memory_fits;
  }

  pub load-lt : (a : ℕ) {v : ℕ} → load m a ≡ some v → v < word
  load-lt a e = ground (arith, h.memory_fits a)

  store-IsMachine :
      (a v : ℕ) {m' : Ram} → v < word → store m a v ≡ some m' → IsMachine size registers m'
  store-IsMachine a v {m'} hv e =
      let (_, p) = store-eq-some m a v e in
      rw p (record {
        registers_count = h.registers_count;
        memory_size = h.memory_size;
        registers_fit = h.registers_fit;
        memory_fits = λ i. ground (arith, h.memory_fits i);
      })

  outcome :
      {registers' r : List ℕ} {m' m₁ : Ram}
      → IsMachine size registers' m'
      → ◌≡◌ {A = Option (List ℕ × Ram)} (some (registers', m')) (some (r, m₁))
      → IsMachine size r m₁
  outcome k e = subst (λ (p : List ℕ × Ram). IsMachine size p.0 p.1) (some_inj e) k

  load_register-Keeps : (r1 addr : ℕ) → Keeps size (load_register registers m r1 addr)
  load_register-Keeps r1 addr r' m' e =
      let (v, p, e₁) = >>=-eq-some (load m addr) _ e in
      let (r₁, q, e₂) = >>=-eq-some (write? registers r1 v) _ e₁ in
      outcome (write-IsMachine r1 v (load-lt addr p) q) e₂

  store_register-Keeps : (r1 r2 : ℕ) → Keeps size (store_register registers m r1 r2)
  store_register-Keeps r1 r2 r' m' e =
      let (a, _, e₁) = >>=-eq-some (get_elem? registers r2) _ e in
      let (v, p, e₂) = >>=-eq-some (get_elem? registers r1) _ e₁ in
      let (m₁, q, e₃) = >>=-eq-some (store m a v) _ e₂ in
      outcome (store-IsMachine a v (h.registers_fit r1 v p) q) e₃

  write_pc-Keeps : (v : ℕ) → v < word → Keeps size (with_memory m (write? registers pc v))
  write_pc-Keeps v hv r' m' e =
      let (r₁, p, e₁) = >>=-eq-some (write? registers pc v) _ e in
      outcome (write-IsMachine pc v hv p) e₁

  branch_register-Keeps : (r1 : ℕ) → Keeps size (branch_register registers m r1)
  branch_register-Keeps r1 r' m' e =
      let (v, p, e₁) = >>=-eq-some (get_elem? registers r1) _ e in
      write_pc-Keeps v (h.registers_fit r1 v p) r' m' e₁

  move_register-Keeps : (r1 r2 : ℕ) → Keeps size (move_register registers m r1 r2)
  move_register-Keeps r1 r2 r' m' e =
      let (v, p, e₁) = >>=-eq-some (get_elem? registers r2) _ e in
      let (r₁, q, e₂) = >>=-eq-some (write? registers r1 v) _ e₁ in
      outcome (write-IsMachine r1 v (h.registers_fit r2 v p) q) e₂

  set_register-Keeps : (r1 v : ℕ) → v < word → Keeps size (set_register registers m r1 v)
  set_register-Keeps r1 v hv r' m' e =
      let (r₁, p, e₁) = >>=-eq-some (write? registers r1 v) _ e in
      outcome (write-IsMachine r1 v hv p) e₁

  compute-Keeps : (instr r3 r1 r2 : ℕ) → Keeps size (compute registers m instr r3 r1 r2)
  compute-Keeps instr r3 r1 r2 r' m' e =
      let (x, p, e₁) = >>=-eq-some (get_elem? registers r1) _ e in
      let (y, q, e₂) = >>=-eq-some (get_elem? registers r2) _ e₁ in
      let (v, a, e₃) = >>=-eq-some (alu instr x y) _ e₂ in
      let (r₁, w, e₄) = >>=-eq-some (write? registers r3 v) _ e₃ in
      outcome
        (write-IsMachine r3 v (alu-lt instr x y (h.registers_fit r1 x p) (h.registers_fit r2 y q) a)
          w)
        e₄

  branch_on_zero-Keeps :
      (when : Bool) (r1 addr : ℕ)
      → addr < word
      → Keeps size (branch_on_zero registers m when r1 addr)
  branch_on_zero-Keeps when r1 addr ha r' m' e =
      let (v, _, e₁) = >>=-eq-some (get_elem? registers r1) _ e in
      either (if when then v == 0 else not (v == 0)) e₁
    where
      either :
          (t : Bool)
          → with_memory m (if t then write? registers pc addr else some registers) ≡ some (r', m')
          → IsMachine size r' m'
      either true e₁ = write_pc-Keeps addr ha r' m' e₁
      either false e₁ = outcome h e₁

module _ (size : ℕ) {registers : List ℕ} {m : Ram} (h : IsMachine size registers m) where
  push_register-Keeps : (r1 : ℕ) → Keeps size (push_register registers m r1)
  push_register-Keeps r1 r' m' e =
      let (a, _, e₁) = >>=-eq-some (get_elem? registers sp) _ e in
      let (v, p, e₂) = >>=-eq-some (get_elem? registers r1) _ e₁ in
      let (m₁, q, e₃) = >>=-eq-some (store m a v) _ e₂ in
      let (r₁, w, e₄) = >>=-eq-some (write? registers sp (add64 a 1)) _ e₃ in
      let k = store-IsMachine size h a v (h.registers_fit r1 v p) q in
      outcome size k (write-IsMachine size k sp (add64 a 1) (omega arith) w) e₄

  pop_register-Keeps : (r1 : ℕ) → Keeps size (pop_register registers m r1)
  pop_register-Keeps r1 r' m' e =
      let (a, _, e₁) = >>=-eq-some (get_elem? registers sp) _ e in
      let (v, p, e₂) = >>=-eq-some (load m a) _ e₁ in
      let (r₁, q, e₃) = >>=-eq-some (write? registers r1 v) _ e₂ in
      let (b, _, e₄) = >>=-eq-some (get_elem? r₁ sp) _ e₃ in
      let (r₂, w, e₅) = >>=-eq-some (write? r₁ sp (sub64 b 1)) _ e₄ in
      let k = write-IsMachine size h r1 v (load-lt size h a p) q in
      outcome size k (write-IsMachine size k sp (sub64 b 1) (omega arith) w) e₅

  branch_link-Keeps : (sraddr : ℕ) → sraddr < word → Keeps size (branch_link registers m sraddr)
  branch_link-Keeps sraddr ha r' m' e =
      let (a, p, e₁) = >>=-eq-some (get_elem? registers pc) _ e in
      let (r₁, q, e₂) = >>=-eq-some (write? registers lr a) _ e₁ in
      write_pc-Keeps size (write-IsMachine size h lr a (h.registers_fit pc a p) q) sraddr ha r' m'
        e₂

if-Keeps :
    (size : ℕ) (t : Bool) {x y : Option (List ℕ × Ram)}
    → Keeps size x
    → Keeps size y
    → Keeps size (if t then x else y)
if-Keeps size true hx hy = hx
if-Keeps size false hx hy = hy

-- An instruction with 64-bit arguments that is executed leaves sixteen registers, a memory of the
-- same size, and 64-bit values in both.
pub execute_instruction-IsMachine :
    (size instr a1 a2 a3 : ℕ) {registers : List ℕ} {m : Ram}
    → IsMachine size registers m
    → a1 < word
    → a2 < word
    → Keeps size (execute_instruction instr (a1, a2, a3) registers m)
unfolding execute_instruction
execute_instruction-IsMachine size instr a1 a2 a3 h h1 h2 =
    if-Keeps size (instr == Opcode.ldr) (load_register-Keeps size h a1 a2) (
      if-Keeps size (instr == Opcode.str) (store_register-Keeps size h a1 a2) (
        if-Keeps size (instr == Opcode.push) (push_register-Keeps size h a1) (
          if-Keeps size (instr == Opcode.pop) (pop_register-Keeps size h a1) (
            if-Keeps size (instr == Opcode.cbnz) (branch_on_zero-Keeps size h false a1 a2 h2) (
              if-Keeps size (instr == Opcode.cbz) (branch_on_zero-Keeps size h true a1 a2 h2) (
                if-Keeps size (instr == Opcode.bl) (branch_link-Keeps size h a2 h2) (
                  if-Keeps size (instr == Opcode.bx) (branch_register-Keeps size h a1) (
                    if-Keeps size (instr == Opcode.mov) (move_register-Keeps size h a1 a2) (
                      if-Keeps size (instr == Opcode.set) (set_register-Keeps size h a1 a2 h2) (
                        if-Keeps size (instr == Opcode.nop || instr == Opcode.wfi)
                          (λ r' m' e. outcome size h h e)
                          (compute-Keeps size h instr a1 a2 a3)))))))))))
