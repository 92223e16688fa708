-- ===== src/Tasks/Examples.antt =====
-- The tasks on an array of 64 elements.
use osh.Prelude.{ℕ, ◌≤◌, ◌<◌, ◌≡◌, ◌⊎◌, List, arith, replicate, length}
use osh.Net.Line.{finished, faulted, running}
use osh.Tasks.{last, task}
use osh.Tasks.Ends.{Filled, printed, task-ends}

abbrev array : List ℕ
array = replicate 64 9

task-ends_example :
    ((last < length array)
      × ((m' : List ℕ) × (task last array ≡ finished (printed last 1, m')) × Filled 0 array m')
      × (task 4 array ≡ running))
    ⊎ ((length array ≤ last) × (task last array ≡ faulted))
task-ends_example = task-ends array 4 (omega arith)
