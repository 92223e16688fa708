-- ===== src/Coursework/Firmware/Order.antt =====
-- The result of the kernel does not depend on the order of the work-items.
use osh.Prelude.{
  ℕ, ◌<◌, ◌≡◌, refl, sym, ◌∙◌, List, [], ◌∷◌, some, arith, lt→ltb, ◌==◌, ne→==, if◌then◌else◌,
  get_elem?, write?_total, get_elem?-write?, length-write?, length, All, Bool-cases, inl, inr, ◌⊎◌,
  ==_refl,
}
use native.Mathlib.Decide.{ℕ_discrete}
use osh.Coursework.Ints.{ℤ, pos}
use osh.Coursework.Firmware.{Device, weighted, firmware, run_items}

-- The id is among those.
abbrev pub Among : ℕ → List ℕ → Type 0
Among i [] = ⊥
Among i (j ∷ js) = (i ≡ j) ⊎ Among i js

module _ (input1 input2 : List ℤ) (w1 w2 : ℤ) (count : ℕ) (value : ℕ → ℤ) where
  -- The kernel's values, with none of the arithmetic overflowing.
  abbrev pub Computes : Type 0
  Computes =
      (i : ℕ)
      → i < count
      → (x y : ℤ) × (get_elem? input1 i ≡ some x)
        × (get_elem? input2 i ≡ some y)
        × (weighted w1 w2 x y ≡ some (value i))

  -- One work-item in range.
  firmware-in_range :
      (i : ℕ) (d : Device)
      → Computes
      → i < count
      → length d.output ≡ count
      → (d' : Device) × (firmware input1 input2 w1 w2 count i d ≡ some d')
        × (length d'.output ≡ count)
        × ((j : ℕ)
            → get_elem? d'.output j ≡ (if i == j then some (value i) else get_elem? d.output j))
        × (d'.status ≡ (if i == 0 then pos 0 else d.status))
  unfolding firmware
  firmware-in_range i d computes lt len =
      let (x, y, ex, ey, ev) = computes i lt in
      let (output, w) = write?_total d.output i (value i) (omega (arith, len)) in
      (
        record { output = output; status = if i == 0 then pos 0 else d.status },
        rw (lt→ltb _ _ lt, ex, ey) (rw (ev, w)),
        length-write? d.output i (value i) w ∙ len,
        get_elem?-write? d.output i (value i) w,
        refl,
      )

  run_items-outcome :
      (is : List ℕ) (d : Device)
      → Computes
      → All (λ i. i < count) is
      → length d.output ≡ count
      → (d' : Device) × (run_items input1 input2 w1 w2 count is d ≡ some d')
        × (length d'.output ≡ count)
        × ((j : ℕ) → Among j is → get_elem? d'.output j ≡ some (value j))
        × ((j : ℕ) → get_elem? d.output j ≡ some (value j) → get_elem? d'.output j ≡ some (value j))
        × (Among 0 is → d'.status ≡ pos 0)
        × (d.status ≡ pos 0 → d'.status ≡ pos 0)
  unfolding run_items
  run_items-outcome [] d computes small len =
      (d, refl, len, λ j m. elim m [ ], λ j e. e, λ m. elim m [ ], λ e. e)
  run_items-outcome (i ∷ is) d computes small len =
      let (d₁, e₁, len₁, reads₁, status₁) = firmware-in_range i d computes small.0 len in
      let (d₂, e₂, len₂, done₂, kept₂, zero₂, stays₂) =
        run_items-outcome is d₁ computes small.1 len₁ in
      (
        d₂,
        rw e₁ e₂,
        len₂,
        λ j m. elim m [ inl e ↦ kept₂ j (stored j e) | inr m' ↦ done₂ j m' ],
        λ j e. kept₂ j (left j e),
        λ m. elim m [ inl e ↦ stays₂ (status₁ ∙ rw (← e)) | inr m' ↦ zero₂ m' ],
        λ e. stays₂ (status₁ ∙ reset e),
      )
    where
      stored :
          (j : ℕ)
          → j ≡ i
          → get_elem? (firmware-in_range i d computes small.0 len).0.output j ≡ some (value j)
      stored j e =
          let (d₁, e₁, len₁, reads₁, status₁) = firmware-in_range i d computes small.0 len in
          reads₁ j ∙ rw (e, ==_refl i)

      left :
          (j : ℕ)
          → get_elem? d.output j ≡ some (value j)
          → get_elem? (firmware-in_range i d computes small.0 len).0.output j ≡ some (value j)
      left j e =
          let (d₁, e₁, len₁, reads₁, status₁) = firmware-in_range i d computes small.0 len in
          elim (ℕ_discrete i j) [ yes p ↦ stored j (sym p) | no p ↦ reads₁ j ∙ rw (ne→== i j p) e ]

      reset : d.status ≡ pos 0 → (if i == 0 then pos 0 else d.status) ≡ pos 0
      reset e = elim (Bool-cases (i == 0)) [ inl t ↦ rw t | inr t ↦ rw t e ]

  pub run_items-order :
      (is : List ℕ) (d : Device)
      → Computes
      → All (λ i. i < count) is
      → ((j : ℕ) → j < count → Among j is)
      → 0 < count
      → length d.output ≡ count
      → (d' : Device) × (run_items input1 input2 w1 w2 count is d ≡ some d')
        × (length d'.output ≡ count)
        × ((j : ℕ) → j < count → get_elem? d'.output j ≡ some (value j))
        × (d'.status ≡ pos 0)
  run_items-order is d computes small every some_item len =
      let (d', e, len', done, kept, reset, stays) = run_items-outcome is d computes small len in
      (d', e, len', λ j lt. done j (every j lt), reset (every 0 some_item))
