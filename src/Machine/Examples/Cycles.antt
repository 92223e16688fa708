-- ===== src/Machine/Examples/Cycles.antt =====
-- The theorems on the interrupts, the timer and the processor at concrete states.
use osh.Prelude.{ℕ, ◌≡◌, ◌≢◌, refl, List, [], ◌∷◌, true, some, arith, get_elem?}
use osh.Machine.Constants.{lr, pc}
use osh.Machine.Decode.{decode_instruction}
use osh.Machine.Execute.{execute_instruction}
use osh.Machine.Processor.{processor_action}
use osh.Machine.Irqs.{check_irqs}
use osh.Machine.Irqs.Service.{check_irqs-raised}
use osh.Machine.Examples.{registers, nops}

-- the second of three lines and the third are up
check_irqs-raised_example :
    (registers' irqs' : List ℕ) × (check_irqs registers (7 ∷ 8 ∷ 9 ∷ []) (0 ∷ 1 ∷ 1 ∷ [])
      ≡ some (registers', irqs'))
    × (get_elem? registers' lr ≡ some 100)
    × (get_elem? registers' pc ≡ some 8)
    × ((j : ℕ) → j ≢ lr → j ≢ pc → get_elem? registers' j ≡ get_elem? registers j)
    × (get_elem? irqs' 1 ≡ some 0)
    × ((j : ℕ) → j ≢ 1 → get_elem? irqs' j ≡ get_elem? (0 ∷ 1 ∷ 1 ∷ []) j)
check_irqs-raised_example =
    check_irqs-raised registers (7 ∷ 8 ∷ 9 ∷ []) (0 ∷ []) (1 ∷ []) 1 100 8 (refl, tt) (omega arith)
      refl refl refl

-- the registers after an interrupt at counter 100 has been served and a NOP executed at 24
abbrev interrupted : List ℕ
interrupted = 0 ∷ 1 ∷ 7 ∷ 3 ∷ 4 ∷ 5 ∷ 6 ∷ 7 ∷ 8 ∷ 9 ∷ 10 ∷ 11 ∷ 12 ∷ 20 ∷ 100 ∷ 25 ∷ []

processor_action_test :
    processor_action true nops (0 ∷ 1 ∷ []) registers ≡ some (nops, 0 ∷ 0 ∷ [], interrupted)
unfolding processor_action decode_instruction execute_instruction check_irqs
processor_action_test = refl
