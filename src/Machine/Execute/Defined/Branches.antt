-- ===== src/Machine/Execute/Defined/Branches.antt =====
-- What each branch of `executeInstruction` needs.
use osh.Prelude.{
  ℕ, zero, suc, ◌<◌, ◌≡◌, refl, List, [], ◌∷◌, Bool, not, Option, some, arith, ◌==◌, lt→ltb,
  if◌then◌else◌, get_elem?, get_or, write?, length, Ram, load, store, ◌>>=◌, >>=-eq-some, some_inj,
  Bool-cases, inl, inr, ◌↔◌, write?_total, length-write?, store-eq-some, update,
}
use osh.Machine.Constants.{sp, lr, pc, nregs}
use osh.Machine.Alu.{alu}
use osh.Machine.Execute.{
  load_register, store_register, push_register, pop_register, branch_on_zero, branch_link,
  branch_register, move_register, set_register, compute,
}

-- An operation that has a result.
abbrev pub IsDefined {ℓ} : {A : Type ℓ} → Option A → Type ℓ
IsDefined {A = A} o = (a : A) × (o ≡ some a)

get_elem?-get_or : (xs : List ℕ) (i : ℕ) → i < length xs → get_elem? xs i ≡ some (get_or xs i 0)
get_elem?-get_or [] i h = absurd (omega arith)
get_elem?-get_or (x ∷ xs) zero h = refl
get_elem?-get_or (x ∷ xs) (suc i) h = get_elem?-get_or xs i (omega arith)

pub get_elem?-lt :
    (xs : List ℕ) (i : ℕ) {a : ℕ} → get_elem? xs i ≡ some a → (i < length xs) × (get_or xs i 0 ≡ a)
get_elem?-lt [] i h = cc
get_elem?-lt (x ∷ xs) zero h = (omega arith, some_inj h)
get_elem?-lt (x ∷ xs) (suc i) h = let (lt, e) = get_elem?-lt xs i h in (omega arith, e)

write?-lt : (xs : List ℕ) (i v : ℕ) {ys : List ℕ} → write? xs i v ≡ some ys → i < length xs
write?-lt [] i v h = cc
write?-lt (x ∷ xs) zero v h = omega arith
write?-lt (x ∷ xs) (suc i) v h =
    let (zs, p, _) = >>=-eq-some (write? xs i v) _ h in omega (arith, write?-lt xs i v p)

load-lt : (m : Ram) (a : ℕ) {v : ℕ} → load m a ≡ some v → a < m.size
load-lt m a h = ground arith

load-defined : (m : Ram) (a : ℕ) → a < m.size → load m a ≡ some (m.cells a)
load-defined m a h = rw (lt→ltb _ _ h)

-- Binds that are defined step by step.
bind-IsDefined {ℓ κ} :
    {A : Type ℓ} {B : Type κ} (o : Option A) (f : A → Option B) {a : A}
    → o ≡ some a
    → IsDefined (f a)
    → IsDefined (o >>= f)
bind-IsDefined o f {a} e (b, p) = (b, rw e p)

write-IsDefined {ℓ} :
    {B : Type ℓ} (xs : List ℕ) (i v : ℕ) (f : List ℕ → Option B)
    → i < length xs
    → ((ys : List ℕ) → length ys ≡ length xs → IsDefined (f ys))
    → IsDefined (write? xs i v >>= f)
write-IsDefined xs i v f h k =
    let (ys, p) = write?_total xs i v h in
    bind-IsDefined (write? xs i v) f p (k ys (length-write? xs i v p))

store-IsDefined : (m : Ram) (a v : ℕ) → a < m.size → IsDefined (store m a v)
store-IsDefined m a v h = (record m { cells = update m.cells a v }, rw (lt→ltb _ _ h))

module _ (registers : List ℕ) (m : Ram) (len : length registers ≡ nregs) where
  -- a register that is read
  read : (i : ℕ) → i < nregs → get_elem? registers i ≡ some (get_or registers i 0)
  read i h = get_elem?-get_or registers i (omega (arith, len))

  read-lt :
      (i : ℕ) {a : ℕ} → get_elem? registers i ≡ some a → (i < nregs) × (get_or registers i 0 ≡ a)
  read-lt i e = let (lt, same) = get_elem?-lt registers i e in (omega (arith, len), same)

  -- a register that is written last
  written :
      (i v : ℕ) (m' : Ram)
      → i < nregs
      → IsDefined {A = List ℕ × Ram} (write? registers i v >>= λ r. some (r, m'))
  written i v m' h = write-IsDefined registers i v _ (omega (arith, len)) (λ ys _. ((ys, m'), refl))

  written-lt :
      (i v : ℕ) (m' : Ram)
      → IsDefined {A = List ℕ × Ram} (write? registers i v >>= λ r. some (r, m'))
      → i < nregs
  written-lt i v m' (r, e) =
      let (ys, q, _) = >>=-eq-some (write? registers i v) _ e in
      omega (arith, len, write?-lt registers i v q)

  pub load_register-Needs :
      (r1 addr : ℕ)
      → ((r1 < nregs) × (addr < m.size)) ↔ IsDefined (load_register registers m r1 addr)
  load_register-Needs r1 addr = (
    λ h. bind-IsDefined (load m addr) _ (load-defined m addr h.1) (written r1 (m.cells addr) m h.0),
    λ d.
        let (v, p, e₁) = >>=-eq-some (load m addr) _ d.1 in
        (written-lt r1 v m (d.0, e₁), load-lt m addr p),
  )

  pub store_register-Needs :
      (r1 r2 : ℕ)
      → ((r1 < nregs) × (r2 < nregs) × (get_or registers r2 0 < m.size))
        ↔ IsDefined (store_register registers m r1 r2)
  store_register-Needs r1 r2 = (
    λ h. bind-IsDefined (get_elem? registers r2) _ (read r2 h.1) (
        bind-IsDefined (get_elem? registers r1) _ (read r1 h.0) (
          let (m', e) = store-IsDefined m (get_or registers r2 0) (get_or registers r1 0) h.2 in
          bind-IsDefined (store m (get_or registers r2 0) (get_or registers r1 0)) _ e
            ((registers, m'), refl))),
    λ d.
        let (addr, p, e₁) = >>=-eq-some (get_elem? registers r2) _ d.1 in
        let (v, q, e₂) = >>=-eq-some (get_elem? registers r1) _ e₁ in
        let (m', t, _) = >>=-eq-some (store m addr v) _ e₂ in
        let (lt, same) = read-lt r2 p in
        ((read-lt r1 q).0, lt, rw same (store-eq-some m addr v t).0),
  )

  pub push_register-Needs :
      (r1 : ℕ)
      → ((r1 < nregs) × (get_or registers sp 0 < m.size)) ↔ IsDefined (push_register registers m r1)
  push_register-Needs r1 = (
    λ h. bind-IsDefined (get_elem? registers sp) _ (read sp (omega arith)) (
        bind-IsDefined (get_elem? registers r1) _ (read r1 h.0) (
          let (m', e) = store-IsDefined m (get_or registers sp 0) (get_or registers r1 0) h.1 in
          bind-IsDefined (store m (get_or registers sp 0) (get_or registers r1 0)) _ e
            (written sp _ m' (omega arith)))),
    λ d.
        let (addr, p, e₁) = >>=-eq-some (get_elem? registers sp) _ d.1 in
        let (v, q, e₂) = >>=-eq-some (get_elem? registers r1) _ e₁ in
        let (m', t, _) = >>=-eq-some (store m addr v) _ e₂ in
        let (lt, same) = read-lt sp p in ((read-lt r1 q).0, rw same (store-eq-some m addr v t).0),
  )

  pub pop_register-Needs :
      (r1 : ℕ)
      → ((r1 < nregs) × (get_or registers sp 0 < m.size)) ↔ IsDefined (pop_register registers m r1)
  pop_register-Needs r1 = (
    λ h. bind-IsDefined (get_elem? registers sp) _ (read sp (omega arith)) (
        bind-IsDefined (load m (get_or registers sp 0)) _
          (load-defined m (get_or registers sp 0) h.1)
          (write-IsDefined registers r1 _ _ (omega (arith, len, h.0)) (λ ys same.
            bind-IsDefined (get_elem? ys sp) _ (get_elem?-get_or ys sp (omega (arith, len, same)))
              (write-IsDefined ys sp _ _ (omega (arith, len, same)) (λ zs _. ((zs, m), refl)))))),
    λ d.
        let (addr, p, e₁) = >>=-eq-some (get_elem? registers sp) _ d.1 in
        let (v, q, e₂) = >>=-eq-some (load m addr) _ e₁ in
        let (ys, t, _) = >>=-eq-some (write? registers r1 v) _ e₂ in
        let (lt, same) = read-lt sp p in
        (omega (arith, len, write?-lt registers r1 v t), rw same (load-lt m addr q)),
  )

  pub branch_on_zero-Needs :
      (when : Bool) (r1 addr : ℕ)
      → (r1 < nregs) ↔ IsDefined (branch_on_zero registers m when r1 addr)
  branch_on_zero-Needs when r1 addr = (
    λ h.
        let v = get_or registers r1 0 in
        bind-IsDefined (get_elem? registers r1) _ (read r1 h)
          (elim (Bool-cases (if when then v == 0 else not (v == 0))) [
            | inl t ↦ rw t (written pc addr m (omega arith))
            | inr t ↦ rw t ((registers, m), refl)
          ]),
    λ d. let (v, p, _) = >>=-eq-some (get_elem? registers r1) _ d.1 in (read-lt r1 p).0,
  )

  pub branch_link-Needs : (addr : ℕ) → Unit {0} ↔ IsDefined (branch_link registers m addr)
  branch_link-Needs addr = (
    λ _. bind-IsDefined (get_elem? registers pc) _ (read pc (omega arith)) (
        write-IsDefined registers lr _ _ (omega (arith, len)) (λ ys same.
          write-IsDefined ys pc addr _ (omega (arith, len, same)) (λ zs _. ((zs, m), refl)))),
    λ _. tt,
  )

  pub branch_register-Needs : (r1 : ℕ) → (r1 < nregs) ↔ IsDefined (branch_register registers m r1)
  branch_register-Needs r1 = (
    λ h. bind-IsDefined (get_elem? registers r1) _ (read r1 h) (written pc _ m (omega arith)),
    λ d. let (v, p, _) = >>=-eq-some (get_elem? registers r1) _ d.1 in (read-lt r1 p).0,
  )

  pub move_register-Needs :
      (r1 r2 : ℕ) → ((r1 < nregs) × (r2 < nregs)) ↔ IsDefined (move_register registers m r1 r2)
  move_register-Needs r1 r2 = (
    λ h. bind-IsDefined (get_elem? registers r2) _ (read r2 h.1) (written r1 _ m h.0),
    λ d.
        let (v, p, e₁) = >>=-eq-some (get_elem? registers r2) _ d.1 in
        (written-lt r1 v m (d.0, e₁), (read-lt r2 p).0),
  )

  pub set_register-Needs : (r1 v : ℕ) → (r1 < nregs) ↔ IsDefined (set_register registers m r1 v)
  set_register-Needs r1 v = (written r1 v m, written-lt r1 v m)

  -- The operations of the ALU, where `Fits` says when the operation is defined.
  pub compute-Needs :
      (Fits : ℕ → Type 0) (instr r3 r1 r2 : ℕ)
      → ((x y : ℕ) → Fits y ↔ IsDefined (alu instr x y))
      → ((r3 < nregs) × (r1 < nregs) × (r2 < nregs) × Fits (get_or registers r2 0))
        ↔ IsDefined (compute registers m instr r3 r1 r2)
  compute-Needs Fits instr r3 r1 r2 fits = (
    λ h.
        let (v, e) = (fits (get_or registers r1 0) (get_or registers r2 0)).0 h.3 in
        bind-IsDefined (get_elem? registers r1) _ (read r1 h.1) (
          bind-IsDefined (get_elem? registers r2) _ (read r2 h.2) (
            bind-IsDefined (alu instr (get_or registers r1 0) (get_or registers r2 0)) _ e
              (written r3 v m h.0))),
    λ d.
        let (x, p, e₁) = >>=-eq-some (get_elem? registers r1) _ d.1 in
        let (y, q, e₂) = >>=-eq-some (get_elem? registers r2) _ e₁ in
        let (v, t, e₃) = >>=-eq-some (alu instr x y) _ e₂ in
        let (lt, same) = read-lt r2 q in
        (written-lt r3 v m (d.0, e₃), (read-lt r1 p).0, lt, rw same ((fits x y).1 (v, t))),
  )
