-- ===== src/Machine/Examples.antt =====
-- Data for the examples on the computer: registers and memories.
mod Assembly
mod Instructions
mod Cycles
mod Systems
mod Sources
use osh.Prelude.{
  ℕ, zero, suc, ◌+◌, ◌<◌, ◌≡◌, refl, List, [], ◌∷◌, some, some_inj, arith, get_elem?, Ram, All,
  word,
}
use osh.Machine.Execute.Invariant.{IsMachine}
use osh.Machine.Peripherals.Timer.{IsTimer}

-- sixteen registers, with R2 = 7, the stack pointer at 20 and the counter at 100
abbrev pub registers : List ℕ
registers = 0 ∷ 1 ∷ 7 ∷ 3 ∷ 4 ∷ 5 ∷ 6 ∷ 7 ∷ 8 ∷ 9 ∷ 10 ∷ 11 ∷ 12 ∷ 20 ∷ 14 ∷ 100 ∷ []

-- a memory of 64 words, with the word `i + 1` at address `i`
abbrev pub memory : Ram
memory = record { size = 64; cells = λ i. i + 1 }

abbrev pub timer_memory : Ram
timer_memory = record { size = 16; cells = λ i. 3 }

pub timer_memory-IsTimer : IsTimer 3 3 timer_memory
timer_memory-IsTimer = record { room = omega arith; word0 = refl; word1 = refl }

-- a memory of NOPs, which are interrupt vectors too
abbrev pub nops : Ram
nops = record { size = 64; cells = λ _. 24 }

pub registers_fit :
    (rs : List ℕ) → All (λ v. v < word) rs → (i v : ℕ) → get_elem? rs i ≡ some v → v < word
registers_fit [] h i v e = cc
registers_fit (r ∷ rs) h zero v e = let p : r ≡ v = some_inj e in omega (arith, h.0)
registers_fit (r ∷ rs) h (suc i) v e = registers_fit rs h.1 i v e

pub registers-All : All (λ v. v < word) registers
registers-All = ground arith

pub nops-IsMachine : IsMachine 64 registers nops
nops-IsMachine = record {
  registers_count = refl;
  memory_size = refl;
  registers_fit = registers_fit registers registers-All;
  memory_fits = λ _. omega arith;
}
