-- ===== src/Machine/Fetch.antt =====
-- abstract_system_cpu_fetch.cc
use osh.Prelude.{ℕ, List, Option, some, get_elem?, write?, Ram, load, ◌>>=◌, add64}
use osh.Machine.Constants.{pc}

-- The word at the program counter, and the registers with the counter moved on.
unfoldable pub fetch_instruction : List ℕ → Ram → Option (ℕ × List ℕ)
fetch_instruction registers system_state = do
  pcr ← get_elem? registers pc
  ir ← load system_state pcr
  registers' ← write? registers pc (add64 pcr 1)
  some (ir, registers')
