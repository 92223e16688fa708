-- ===== src/Machine/Peripherals/Timer.antt =====
-- The timer's period.
use osh.Prelude.{
  ℕ, zero, suc, ◌+◌, ◌-◌, ◌*◌, ◌≤◌, ◌≡◌, List, [], ◌∷◌, ◌++◌, Option, some, arith, Ram, replicate,
  update, ◌>>=◌, append_assoc, Option-cases, inl, inr,
}
use Prim.Native.Nat.add
use osh.Machine.Peripherals.{timer_action}

-- `n` calls of `timerAction`, with the interrupt lines in order
abbrev pub ticks : ℕ → Ram → Option (Ram × List ℕ)
ticks zero t = some (t, [])
ticks (suc n) t = timer_action t >>= λ r. ticks n r.0 >>= λ rest. some (rest.0, r.1 ∷ rest.1)

-- A timer at `count` that will be loaded with `period`.
pub record IsTimer (count period : ℕ) (t : Ram) : Type 0 where
  pub room : 2 ≤ t.size
  pub word0 : t.cells 0 ≡ count
  pub word1 : t.cells 1 ≡ period

-- A call at a count above 1 lowers it and leaves the line down.
pub tick-low :
    (c p : ℕ) (t : Ram)
    → IsTimer (suc (suc c)) p t
    → (t' : Ram) × (timer_action t ≡ some (t', 0)) × IsTimer (suc c) p t'
unfolding timer_action
tick-low c p t h =
    (record t { cells = update t.cells 0 (t.cells 0 - 1) }, ground arith, ground arith)

-- A call at a count of 1 raises the line and loads the period.
pub tick-high :
    (p : ℕ) (t : Ram)
    → IsTimer 1 p t
    → (t' : Ram) × (timer_action t ≡ some (t', 1)) × IsTimer p p t'
unfolding timer_action
tick-high p t h = (
  record t { cells = update (update t.cells 0 (t.cells 0 - 1)) 0 (t.cells 1) },
  ground arith,
  ground arith,
)

-- From a count of `c + 1` the line is down for `c` calls and up at the next, which loads the period.
ticks-once :
    (c p : ℕ) (t : Ram)
    → IsTimer (suc c) p t
    → (t' : Ram) × (ticks (suc c) t ≡ some (t', replicate c 0 ++ 1 ∷ [])) × IsTimer p p t'
ticks-once zero p t h = let (t', e, h') = tick-high p t h in (t', rw e, h')
ticks-once (suc c) p t h =
    let (t₁, e₁, h₁) = tick-low c p t h in
    let (t₂, e₂, h₂) = ticks-once c p t₁ h₁ in (t₂, rw e₁ (rw e₂), h₂)

then_more : ℕ → Ram × List ℕ → Option (Ram × List ℕ)
then_more k r = ticks k r.0 >>= λ rest. some (rest.0, r.1 ++ rest.1)

ticks-add : (n k : ℕ) (t : Ram) → ticks (n + k) t ≡ (ticks n t >>= then_more k)
unfolding then_more
ticks-add zero k t =
    rw add.zero (elim (Option-cases (ticks k t)) [ inl e ↦ rw e | inr (r, e) ↦ rw e ])
ticks-add (suc n) k t = rw add.suc (elim (Option-cases (timer_action t)) [
  | inl e ↦ rw e
  | inr (r, e) ↦
      rw (e, ticks-add n k r.0)
        (elim (Option-cases (ticks n r.0)) [
          | inl e₁ ↦ rw e₁
          | inr (r₁, e₁) ↦
              rw e₁ (elim (Option-cases (ticks k r₁.0)) [ inl e₂ ↦ rw e₂ | inr (r₂, e₂) ↦ rw e₂ ])
        ])
])

-- the interrupt lines of `m` periods of `p + 1` calls
abbrev pub periods : ℕ → ℕ → List ℕ
periods zero p = []
periods (suc m) p = replicate p 0 ++ 1 ∷ periods m p

ticks-periods :
    (m p : ℕ) (t : Ram)
    → IsTimer (suc p) (suc p) t
    → (t' : Ram) × (ticks (m * suc p) t ≡ some (t', periods m p)) × IsTimer (suc p) (suc p) t'
unfolding then_more
ticks-periods zero p t h = let e : 0 * suc p ≡ 0 = omega arith in (t, rw e, h)
ticks-periods (suc m) p t h =
    let (t₁, e₁, h₁) = ticks-once p (suc p) t h in
    let (t₂, e₂, h₂) = ticks-periods m p t₁ h₁ in
    let count : suc m * suc p ≡ suc p + m * suc p = omega arith in
    (t₂, rw (count, ticks-add (suc p) (m * suc p) t, e₁, e₂) (rw append_assoc), h₂)

-- From a count of `c + 1` and a period of `p + 1` the line is up at call `c + 1` and then at every
-- call `p + 1` later, and at no other, for as many periods as there are.
pub ticks-periodic :
    (m c p : ℕ) (t : Ram)
    → IsTimer (suc c) (suc p) t
    → (t' : Ram) × (ticks (suc c + m * suc p) t ≡ some (t', replicate c 0 ++ 1 ∷ periods m p))
      × IsTimer (suc p) (suc p) t'
unfolding then_more
ticks-periodic m c p t h =
    let (t₁, e₁, h₁) = ticks-once c (suc p) t h in
    let (t₂, e₂, h₂) = ticks-periods m p t₁ h₁ in
    (t₂, rw (ticks-add (suc c) (m * suc p) t, e₁, e₂) (rw append_assoc), h₂)
