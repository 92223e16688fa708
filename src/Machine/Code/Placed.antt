-- ===== src/Machine/Code/Placed.antt =====
-- `load_code`'s second loop: where the words go.
use osh.Prelude.{
  ℕ, zero, suc, ◌+◌, ◌≤◌, ◌<◌, ◌≡◌, refl, sym, ◌∙◌, List, [], ◌∷◌, some, arith, length, get_elem?,
  get_or, ap, Bool-cases, inl, inr, lt→ltb, false, tests, ◌-◌, Ram, store, update, update_ne, ltb,
  if◌then◌else◌, >>=-eq-some, some_inj, store-eq-some,
}
use osh.Machine.Constants.{code}
use osh.Machine.Code.{write_code}

-- The words lie in the memory from CODE on.
pub record Loaded (iws : List ℕ) (m : Ram) : Type 0 where
  pub room : code + length iws ≤ m.size
  pub at : (k w : ℕ) → get_elem? iws k ≡ some w → m.cells (code + k) ≡ w

-- A store below CODE leaves them there.
pub Loaded-update :
    {iws : List ℕ} (m : Ram) (a v : ℕ)
    → a < code
    → Loaded iws m
    → Loaded iws (record m { cells = update m.cells a v })
Loaded-update m a v h l = record {
  room = l.room;
  at = λ k w e. update_ne m.cells a (code + k) v (omega arith) ∙ l.at k w e;
}

get_or_of_get_elem? : (xs : List ℕ) (i d : ℕ) {a : ℕ} → get_elem? xs i ≡ some a → get_or xs i d ≡ a
get_or_of_get_elem? [] i d h = cc
get_or_of_get_elem? (x ∷ xs) zero d h = some_inj h
get_or_of_get_elem? (x ∷ xs) (suc i) d h = get_or_of_get_elem? xs i d h

-- `f` with the words `iws` laid over it from address `base` on
abbrev pub overlay : List ℕ → ℕ → (ℕ → ℕ) → ℕ → ℕ
overlay iws base f j = if ltb j base then f j else get_or iws (j - base) (f j)

overlay-nil : (base : ℕ) (f : ℕ → ℕ) (j : ℕ) → overlay [] base f j ≡ f j
overlay-nil base f j = ground arith

overlay-cons :
    (w : ℕ) (iws : List ℕ) (base : ℕ) (f : ℕ → ℕ) (j : ℕ)
    → overlay iws (base + 1) (update f base w) j ≡ overlay (w ∷ iws) base f j
overlay-cons w iws base f j = elim (Bool-cases (ltb base j)) [
  | inl past ↦ let e : j - base ≡ suc (j - (base + 1)) = omega (tests, past) in rw e (ground arith)
  | inr near ↦ let e : j - base ≡ 0 = ground arith in rw e (ground arith)
]

-- Loading lays the words over the memory from CODE on, and changes no other word.
pub write_code-overlay :
    (iws : List ℕ) (pc : ℕ) (m : Ram) {m' : Ram}
    → write_code iws pc m ≡ some m'
    → (m'.size ≡ m.size) × ((j : ℕ) → m'.cells j ≡ overlay iws (code + pc) m.cells j)
unfolding write_code
write_code-overlay [] pc m {m'} h =
    let e : m' ≡ m = some_inj (sym h) in
    (ap (λ r. r.size) e, λ j. ap (λ r. r.cells j) e ∙ sym (overlay-nil (code + pc) m.cells j))
write_code-overlay (iw ∷ iws) pc m h =
    let (m₁, p, h₁) = >>=-eq-some (store m (code + pc) iw) _ h in
    let (_, e) = store-eq-some m (code + pc) iw p in
    let (size, cells) = write_code-overlay iws (pc + 1) m₁ h₁ in
    (size ∙ ap (λ r. r.size) e, λ j. cells j ∙ step m₁ e j)
  where
    step :
        (m₁ : Ram)
        → m₁ ≡ record m { cells = update m.cells (code + pc) iw }
        → (j : ℕ)
        → overlay iws (code + (pc + 1)) m₁.cells j ≡ overlay (iw ∷ iws) (code + pc) m.cells j
    step m₁ e j =
        let base : code + (pc + 1) ≡ code + pc + 1 = omega arith in
        rw (e, base) (overlay-cons iw iws (code + pc) m.cells j)

-- With room for them, loading succeeds.
pub write_code_total :
    (iws : List ℕ) (pc : ℕ) (m : Ram)
    → code + pc + length iws ≤ m.size
    → (m' : Ram) × (write_code iws pc m ≡ some m')
unfolding write_code
write_code_total [] pc m h = (m, refl)
write_code_total (iw ∷ iws) pc m h =
    let (m', p) =
      write_code_total iws (pc + 1) (record m { cells = update m.cells (code + pc) iw })
        (omega arith) in
    (m', rw (lt→ltb (code + pc) m.size (omega arith)) p)

-- What `load_code` has written is loaded.
pub write_code-Loaded :
    (iws : List ℕ) (m : Ram) {m' : Ram}
    → code + length iws ≤ m.size
    → write_code iws 0 m ≡ some m'
    → Loaded iws m'
write_code-Loaded iws m {m'} room h = record {
  room = rw (write_code-overlay iws 0 m h).0 room;
  at = λ k w e. (write_code-overlay iws 0 m h).1 (code + k) ∙ found k w e;
}
  where
    found : (k w : ℕ) → get_elem? iws k ≡ some w → overlay iws (code + 0) m.cells (code + k) ≡ w
    found k w e =
        let place : code + k - (code + 0) ≡ k = omega arith in
        let here : ltb (code + k) (code + 0) ≡ false = ground arith in
        rw (here, place) (get_or_of_get_elem? iws k _ e)

-- In a memory with room for them, loading ends, with the words over the memory from CODE on and no
-- other word changed.
pub write_code-fits :
    (iws : List ℕ) (pc : ℕ) (m : Ram)
    → code + pc + length iws ≤ m.size
    → (m' : Ram) × (write_code iws pc m ≡ some m')
      × (m'.size ≡ m.size)
      × ((j : ℕ) → m'.cells j ≡ overlay iws (code + pc) m.cells j)
write_code-fits iws pc m h =
    let (m', p) = write_code_total iws pc m h in
    let (size, cells) = write_code-overlay iws pc m p in (m', p, size, cells)
