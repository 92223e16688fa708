-- ===== src/Machine/Irqs/Service.antt =====
-- Which interrupt `checkIrqs` serves, and what it changes.
use osh.Prelude.{
  ℕ, suc, ◌+◌, ◌≡◌, ◌≢◌, refl, ◌∙◌, List, [], ◌∷◌, ◌++◌, some, arith, ne→==, get_elem?, length, All,
  get_elem?-write?, write?_total, length-write?, length-append,
}
use osh.Machine.Constants.{lr, pc, nregs}
use osh.Machine.Irqs.{serve, check_from, check_irqs}

abbrev pub IsQuiet : List ℕ → Type 0
IsQuiet = All (λ irq. irq ≡ 0)

check_from-quiet :
    (rest : List ℕ) (idx : ℕ) (registers ivt irqs : List ℕ)
    → IsQuiet rest
    → check_from rest idx registers ivt irqs ≡ some (registers, irqs)
unfolding check_from
check_from-quiet [] idx registers ivt irqs h = refl
check_from-quiet (irq ∷ rest) idx registers ivt irqs h =
    rw h.0 (check_from-quiet rest (idx + 1) registers ivt irqs h.1)

check_from-raised :
    (before : List ℕ) (irq : ℕ) (after : List ℕ) (idx : ℕ) (registers ivt irqs : List ℕ)
    → IsQuiet before
    → irq ≢ 0
    → check_from (before ++ irq ∷ after) idx registers ivt irqs
      ≡ serve (idx + length before) registers ivt irqs
unfolding check_from
check_from-raised [] irq after idx registers ivt irqs h ne =
    let e : idx + 0 ≡ idx = omega arith in rw (ne→== irq 0 ne, e)
check_from-raised (first ∷ before) irq after idx registers ivt irqs h ne =
    let e : idx + suc (length before) ≡ idx + 1 + length before = omega arith in
    rw (h.0, e) (check_from-raised before irq after (idx + 1) registers ivt irqs h.1 ne)

-- With no interrupt raised nothing changes.
pub check_irqs-quiet :
    (registers ivt irqs : List ℕ)
    → IsQuiet irqs
    → check_irqs registers ivt irqs ≡ some (registers, irqs)
unfolding check_irqs
check_irqs-quiet registers ivt irqs h = check_from-quiet irqs 0 registers ivt irqs h

-- The raised interrupt with the lowest index is served, and no other: the counter goes to the link
-- register, the entry of the vector table with that index to the counter, and that line falls;
-- every other register and every other line, raised or not, stays as it is.
pub check_irqs-raised :
    (registers ivt before after : List ℕ) (irq at isr : ℕ)
    → IsQuiet before
    → irq ≢ 0
    → length registers ≡ nregs
    → get_elem? registers pc ≡ some at
    → get_elem? ivt (length before) ≡ some isr
    → (registers' irqs' : List ℕ) × (check_irqs registers ivt (before ++ irq ∷ after)
        ≡ some (registers', irqs'))
      × (get_elem? registers' lr ≡ some at)
      × (get_elem? registers' pc ≡ some isr)
      × ((j : ℕ) → j ≢ lr → j ≢ pc → get_elem? registers' j ≡ get_elem? registers j)
      × (get_elem? irqs' (length before) ≡ some 0)
      × ((j : ℕ) → j ≢ length before → get_elem? irqs' j ≡ get_elem? (before ++ irq ∷ after) j)
unfolding check_irqs
check_irqs-raised registers ivt before after irq at isr quiet ne len counter entry =
    let irqs = before ++ irq ∷ after in
    let place : 0 + length before ≡ length before = omega arith in
    let (r₁, w₁) = write?_total registers lr at (omega (arith, len)) in
    let (r₂, w₂) = write?_total r₁ pc isr (omega (arith, len, length-write? registers lr at w₁)) in
    let (i₁, w₃) =
      write?_total irqs (length before) 0 (omega (arith, length-append {0} before (irq ∷ after))) in
    (
      r₂,
      i₁,
      check_from-raised before irq after 0 registers ivt irqs quiet ne
          ∙ rw (place, counter, w₁, entry, w₂, w₃),
      get_elem?-write? r₁ pc isr w₂ lr ∙ get_elem?-write? registers lr at w₁ lr,
      get_elem?-write? r₁ pc isr w₂ pc,
      λ j hl hp.
          ground (arith, get_elem?-write? r₁ pc isr w₂ j, get_elem?-write? registers lr at w₁ j),
      ground (arith, get_elem?-write? irqs (length before) 0 w₃ (length before)),
      λ j hj. ground (arith, get_elem?-write? irqs (length before) 0 w₃ j),
    )
