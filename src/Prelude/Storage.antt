-- ===== src/Prelude/Storage.antt =====
-- Storage of a fixed size. `write?` and `get_elem?` are the accesses of a C array or of
-- `std::vector::operator[]`: out of range they are undefined, `none`.
use Prim.Native.Nat.{ℕ, zero, suc, ◌<◌}
use mathlib.Core.Path.{◌≡◌, refl, sym, ap}
use mathlib.Core.Logic.{◌≢◌, inl, inr}
use mathlib.Core.List.{List, [], ◌∷◌}
use mathlib.Core.Option.{Option, none, some}
use native.Mathlib.Omega.{arith}
use osh.Prelude.Tests.{ltb, ◌==◌, if◌then◌else◌, ◌>>=◌, >>=-eq-some, some_inj, Bool-cases, ltb→lt}
use osh.Prelude.Lists.{length, get_elem?}

module _ {ℓ} {A : Type ℓ} where
  abbrev pub write? : List A → ℕ → A → Option (List A)
  write? [] i v = none
  write? (x ∷ xs) zero v = some (v ∷ xs)
  write? (x ∷ xs) (suc i) v = write? xs i v >>= λ r. some (x ∷ r)

module _ {ℓ} {A : Type ℓ} where
  -- a write that succeeds, taken apart at the head
  write?-cons :
      (x : A) (xs : List A) (i : ℕ) (v : A) {ys : List A}
      → write? (x ∷ xs) (suc i) v ≡ some ys
      → (zs : List A) × (write? xs i v ≡ some zs) × (ys ≡ x ∷ zs)
  write?-cons x xs i v h =
      let (zs, p, q) = >>=-eq-some (write? xs i v) (λ r. some (x ∷ r)) h in
      (zs, p, some_inj (sym q))

  pub length-write? :
      (xs : List A) (i : ℕ) (v : A) {ys : List A} → write? xs i v ≡ some ys → length ys ≡ length xs
  length-write? [] i v h = cc
  length-write? (x ∷ xs) zero v {ys} h = let e : ys ≡ v ∷ xs = some_inj (sym h) in rw e
  length-write? (x ∷ xs) (suc i) v h =
      let (zs, p, q) = write?-cons x xs i v h in rw q (ap suc (length-write? xs i v p))

  -- What is read after a write.
  pub get_elem?-write? :
      (xs : List A) (i : ℕ) (v : A) {ys : List A}
      → write? xs i v ≡ some ys
      → (j : ℕ) → get_elem? ys j ≡ (if i == j then some v else get_elem? xs j)
  get_elem?-write? [] i v h j = cc
  get_elem?-write? (x ∷ xs) zero v {ys} h zero = let e : ys ≡ v ∷ xs = some_inj (sym h) in rw e
  get_elem?-write? (x ∷ xs) zero v {ys} h (suc j) =
      let e : ys ≡ v ∷ xs = some_inj (sym h) in rw e (ground arith)
  get_elem?-write? (x ∷ xs) (suc i) v h zero =
      let (zs, p, q) = write?-cons x xs i v h in rw q (ground arith)
  get_elem?-write? (x ∷ xs) (suc i) v h (suc j) =
      let (zs, p, q) = write?-cons x xs i v h in rw q (ground (arith, get_elem?-write? xs i v p j))

  -- A write in range succeeds.
  pub write?_total :
      (xs : List A) (i : ℕ) (v : A) → i < length xs → (ys : List A) × (write? xs i v ≡ some ys)
  write?_total [] i v h = elim h [ ]
  write?_total (x ∷ xs) zero v h = (v ∷ xs, refl)
  write?_total (x ∷ xs) (suc i) v h =
      let (ys, p) = write?_total xs i v (omega arith) in (x ∷ ys, rw p)

  pub get_elem?_total : (xs : List A) (i : ℕ) → i < length xs → (a : A) × (get_elem? xs i ≡ some a)
  get_elem?_total [] i h = elim h [ ]
  get_elem?_total (x ∷ xs) zero h = (x, refl)
  get_elem?_total (x ∷ xs) (suc i) h = get_elem?_total xs i (omega arith)

-- A function with one value changed.
abbrev pub update {ℓ} : {A : Type ℓ} → (ℕ → A) → ℕ → A → ℕ → A
update f i v j = if i == j then v else f j

pub update_self {ℓ} : {A : Type ℓ} (f : ℕ → A) (i : ℕ) (v : A) → update f i v i ≡ v
update_self f i v = ground arith

pub update_ne {ℓ} : {A : Type ℓ} (f : ℕ → A) (i j : ℕ) (v : A) → i ≢ j → update f i v j ≡ f j
update_ne f i j v h = ground arith

-- A `std::vector<uint64_t>` of millions of words: its size, and the words by index.
pub record Ram : Type 0 where
  pub size : ℕ
  pub cells : ℕ → ℕ

abbrev pub load : Ram → ℕ → Option ℕ
load m a = if ltb a m.size then some (m.cells a) else none

abbrev pub store : Ram → ℕ → ℕ → Option Ram
store m a v = if ltb a m.size then some (record m { cells = update m.cells a v }) else none

-- A store that succeeds is in range and changes one word.
pub store-eq-some :
    (m : Ram) (a v : ℕ) {m' : Ram}
    → store m a v ≡ some m'
    → (a < m.size) × (m' ≡ record m { cells = update m.cells a v })
store-eq-some m a v {m'} h = elim (Bool-cases (ltb a m.size)) [
  | inl t ↦ (ltb→lt _ _ t, ground arith)
  | inr t ↦ ground arith
]
