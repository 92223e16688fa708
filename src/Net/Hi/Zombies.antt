-- ===== src/Net/Hi/Zombies.antt =====
-- The children that the fork server does not wait for.
use osh.Prelude.{◌-◌, ℕ, ◌+◌, true, false, Option, some, ◌≤◌, if◌then◌else◌, none}
use osh.Net.Hi.{Children}

-- after an exit
abbrev exited : Children → Children
exited c = record { running_count = c.running_count - 1; zombies = c.zombies + 1; pending = true }

abbrev quiet : ℕ → ℕ → Children
quiet r z = record { running_count = r; zombies = z; pending = false }

-- the zombies that no pending signal will have waited for
abbrev forgotten : Children → ℕ
forgotten c = c.zombies - (if c.pending then 1 else 0)

abbrev Keeps : ℕ → Option Children → Type 0
Keeps n none = Unit
Keeps n (some c) = n ≤ forgotten c
