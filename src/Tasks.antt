-- ===== src/Tasks.antt =====
-- Code/Ch3-Hardware-Architecture/example_tasks.c: the loops of task1() and task2(), which are one
-- and the same on arrays of MEM_SZ and of 64 elements.
pub mod Ends
mod Examples
use osh.Prelude.{ℕ, zero, suc, ◌+◌, List, [], ◌∷◌, ◌==◌, if◌then◌else◌, write?}
use osh.Net.Line.{Run, finished, running, ◌then_run◌, checked}

-- the index at which the tasks end
abbrev pub last : ℕ
last = 5

pub data Output : Type 0 where
  number : ℕ → Output
  done_line : Output

-- From the label INC on: what is printed, END's line included, and the array at the end.
unfoldable pub inc : ℕ → ℕ → List ℕ → Run (List Output × List ℕ)
inc zero i m = running
inc (suc fuel) i m = checked (write? m (i + 1) (i + 1)) then_run λ m'.
    let rest = inc fuel (i + 1) m' then_run λ r. finished (number (i + 1) ∷ r.0, r.1) in
    if (i + 1) == last then finished (number (i + 1) ∷ done_line ∷ [], m') else rest

-- A task whose array has the elements `m` before the first turn.
unfoldable pub task : ℕ → List ℕ → Run (List Output × List ℕ)
unfolding inc
task fuel m = inc fuel 0 m
