-- ===== src/Tasks/Ends.antt =====
-- The end of the tasks.
use osh.Prelude.{
  numbers, ℕ, zero, suc, ◌+◌, ◌<◌, ◌≡◌, List, true, some, ◌==◌, if◌then◌else◌, ltb, arith,
  get_elem?, length, ◌≤◌, ◌⊎◌, inl, inr, refl, none, Option-cases, Bool-cases, write?, [], ◌∷◌,
  ◌++◌, length-write?, get_elem?-write?, write?_total, ne→==, ◌&&◌, leb,
}
use mathlib.Core.List.{map}
use osh.Net.Line.{finished, faulted, running}
use osh.Tasks.{Output, number, done_line, last, inc, task}

-- the array with each index after `i` up to `last` at that index
abbrev pub Filled : ℕ → List ℕ → List ℕ → Type 0
Filled i m m' = (j : ℕ) → get_elem? m' j ≡ (if ltb i j && leb j last then some j else get_elem? m j)

-- what is printed from index `i` on, in `n` turns
abbrev pub printed : ℕ → ℕ → List Output
printed n i = map number (numbers n i) ++ done_line ∷ []

inc-ends :
    (n i : ℕ) (m : List ℕ)
    → i + suc n ≡ last
    → last < length m
    → (m' : List ℕ) × (inc (suc n) i m ≡ finished (printed (suc n) (i + 1), m')) × Filled i m m'
unfolding inc
inc-ends zero i m e room =
    let (m', w) = write?_total m (i + 1) (i + 1) (omega arith) in
    let done : ((i + 1) == last) ≡ true = ground arith in
    (m', rw w (rw done), λ j. ground (arith, get_elem?-write? m (i + 1) (i + 1) w j))
inc-ends (suc n) i m e room =
    let (m₁, w) = write?_total m (i + 1) (i + 1) (omega arith) in
    let (m', h, f) =
      inc-ends n (i + 1) m₁ (omega arith) (omega (arith, length-write? m (i + 1) (i + 1) w)) in
    (
      m',
      rw w (rw (ne→== (i + 1) last (omega arith)) (rw h)),
      λ j. ground (arith, f j, get_elem?-write? m (i + 1) (i + 1) w j),
    )

inc-runs : (n i : ℕ) (m : List ℕ) → i + n < last → last < length m → inc n i m ≡ running
unfolding inc
inc-runs zero i m e room = refl
inc-runs (suc n) i m e room =
    let (m₁, w) = write?_total m (i + 1) (i + 1) (omega arith) in
    let h =
      inc-runs n (i + 1) m₁ (omega arith) (omega (arith, length-write? m (i + 1) (i + 1) w)) in
    rw w (rw (ne→== (i + 1) last (omega arith)) (rw h))

write?-beyond : (m : List ℕ) (i v : ℕ) → length m ≤ i → write? m i v ≡ none
write?-beyond [] i v h = refl
write?-beyond (x ∷ m) zero v h = elim h [ ]
write?-beyond (x ∷ m) (suc i) v h = rw (write?-beyond m i v (omega arith))

inc-faults : (n i : ℕ) (m : List ℕ) → i + suc n ≡ last → length m ≤ last → inc (suc n) i m ≡ faulted
unfolding inc
inc-faults zero i m e short = rw (write?-beyond m (i + 1) (i + 1) (omega arith))
inc-faults (suc n) i m e short = elim (Option-cases (write? m (i + 1) (i + 1))) [
  | inl w ↦ rw w
  | inr (m₁, w) ↦
      let h =
        inc-faults n (i + 1) m₁ (omega arith) (omega (arith, length-write? m (i + 1) (i + 1) w)) in
      rw w (rw (ne→== (i + 1) last (omega arith)) (rw h))
]

-- On an array of more than five elements, with any contents, a task ends after five turns and no
-- fewer: it prints 1 to 5 and then Done, leaves these numbers at their indices and every other
-- element as it was. On an array of five elements or less it writes past the end.
pub task-ends :
    (m : List ℕ) (turns : ℕ)
    → turns < last
    → ((last < length m)
        × ((m' : List ℕ) × (task last m ≡ finished (printed last 1, m')) × Filled 0 m m')
        × (task turns m ≡ running))
      ⊎ ((length m ≤ last) × (task last m ≡ faulted))
unfolding task
task-ends m turns few = elim (Bool-cases (ltb last (length m))) [
  | inl room ↦
      let h : last < length m = ground arith in
      inl (h, inc-ends 4 0 m (omega arith) h, inc-runs turns 0 m (omega (arith, few)) h)
  | inr short ↦ let h : length m ≤ last = ground arith in inr (h, inc-faults 4 0 m (omega arith) h)
]
