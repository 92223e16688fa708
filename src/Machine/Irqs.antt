-- ===== src/Machine/Irqs.antt =====
-- abstract_system_cpu_irqs.cc: the first interrupt that is raised is served.
pub mod Service
use osh.Prelude.{ℕ, ◌+◌, List, [], ◌∷◌, Option, some, ◌==◌, if◌then◌else◌, get_elem?, write?, ◌>>=◌}
use osh.Machine.Constants.{lr, pc}

-- the body of the `if (irq)`, at index `idx`
abbrev pub serve : ℕ → List ℕ → List ℕ → List ℕ → Option (List ℕ × List ℕ)
serve idx registers ivt irqs = do
  pctr ← get_elem? registers pc
  registers₁ ← write? registers lr pctr
  isr ← get_elem? ivt idx
  registers₂ ← write? registers₁ pc isr
  irqs' ← write? irqs idx 0
  some (registers₂, irqs')

-- the loop, over the interrupts from index `idx` on
unfoldable pub check_from : List ℕ → ℕ → List ℕ → List ℕ → List ℕ → Option (List ℕ × List ℕ)
check_from [] idx registers ivt irqs = some (registers, irqs)
check_from (irq ∷ rest) idx registers ivt irqs =
    if irq == 0 then check_from rest (idx + 1) registers ivt irqs else serve idx registers ivt irqs

unfoldable pub check_irqs : List ℕ → List ℕ → List ℕ → Option (List ℕ × List ℕ)
unfolding check_from
check_irqs registers ivt irqs = check_from irqs 0 registers ivt irqs
