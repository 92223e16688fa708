-- ===== src/Machine/Examples/Systems.antt =====
-- The theorems on the whole system at concrete programs and states, and `main` as it stands.
use osh.Prelude.{
  All, word, ℕ, suc, ◌+◌, ◌-◌, ◌*◌, ◌%◌, ◌^◌, ◌≤◌, ◌<◌, ◌≡◌, refl, List, [], ◌∷◌, true, false, some,
  arith, get_elem?, Ram,
}
use osh.Machine.Constants.{code, memtop, pc}
use osh.Machine.Decode.{decode_instruction}
use osh.Machine.Encode.{encode_instruction}
use osh.Machine.Execute.{execute_instruction}
use osh.Machine.Processor.{processor_action}
use osh.Machine.Code.{write_code}
use osh.Machine.Code.Placed.{write_code_total}
use osh.Machine.Code.Fibonacci.{fib_words, encode_program-fib_prog, fib}
use osh.Machine.Alu.{alu}
use osh.Machine.Model.Invariant.{system_sz, main-IsMachine}
use osh.Machine.Model.{initial_system, main, System, run_cycles, zeros}
use osh.Machine.Model.Ticking.{ticking, run_cycles-ticking}
use osh.Machine.Examples.{registers_fit, nops, nops-IsMachine, timer_memory, timer_memory-IsTimer}
use osh.Machine.Execute.Invariant.{IsMachine}
use osh.Machine.Model.Interrupts.{visible}
use osh.Machine.Model.Cycles.{at_start, run_cycles-fib_prog}
use osh.Machine.Irqs.{check_irqs}

-- a memory with room for the program of three rounds
abbrev room : Ram
room = zeros (code + 12)

abbrev loaded : (m : Ram) × (write_code (fib_words 3) 0 room ≡ some m)
loaded = write_code_total (fib_words 3) 0 room (omega arith)

abbrev system : System
system = record {
  system_state = loaded.0;
  registers = at_start 0 0 0 0 0 0 0 0 0 0 0 0 0 0 0;
  irqs = [];
  timer_state = zeros 16;
  kbd_state = zeros 0;
  nic_state = zeros 0;
  ssd_state = zeros 0;
  gpu_state = zeros 0;
}

run_cycles-fib_prog_example :
    (s' : System) × (run_cycles false (5 + 6 * 3) system ≡ some s')
    × (get_elem? s'.registers pc ≡ some (code + 11))
    × ((k : ℕ) → k < 3 → s'.system_state.cells (3 - suc k) ≡ fib (k + 3) % 2 ^ 64)
    × ((j : ℕ) → 3 ≤ j → s'.system_state.cells j ≡ loaded.0.cells j)
run_cycles-fib_prog_example =
    run_cycles-fib_prog 3 system room 0 0 0 0 0 0 0 0 0 0 0 0 0 0 0 (omega arith) (omega arith)
      (encode_program-fib_prog 3) loaded.1 (omega arith) refl refl

-- the zeros that `main` prints
abbrev printed : List (ℕ × ℕ)
printed =
    (16, 0)
    ∷ (17, 0)
    ∷ (18, 0)
    ∷ (19, 0)
    ∷ (20, 0)
    ∷ (21, 0)
    ∷ (22, 0)
    ∷ (23, 0)
    ∷ (24, 0)
    ∷ (25, 0)
    ∷ (26, 0)
    ∷ (27, 0)
    ∷ (28, 0)
    ∷ (29, 0)
    ∷ (30, 0)
    ∷ (31, 0)
    ∷ []

-- The 512 cycles of `main`, with the program as it stands and the memory map's full size.
main_test : main false ≡ some printed
unfolding main decode_instruction execute_instruction encode_instruction processor_action alu
main_test = refl

main_test_with_peripherals : main true ≡ some printed
unfolding main decode_instruction execute_instruction encode_instruction processor_action alu
    check_irqs
main_test_with_peripherals = refl

-- the counter at 20
abbrev awake : List ℕ
awake = 0 ∷ 1 ∷ 7 ∷ 3 ∷ 4 ∷ 5 ∷ 6 ∷ 7 ∷ 8 ∷ 9 ∷ 10 ∷ 11 ∷ 12 ∷ 20 ∷ 14 ∷ 20 ∷ []

awake-All : All (λ v. v < word) awake
awake-All = ground arith

-- NOPs in a memory with room for the words that the peripherals copy
abbrev many_nops : Ram
many_nops = record nops { size = memtop }

awake-IsMachine : IsMachine memtop awake many_nops
awake-IsMachine = record {
  registers_count = refl;
  memory_size = refl;
  registers_fit = registers_fit awake awake-All;
  memory_fits = nops-IsMachine.memory_fits;
}

-- a system of NOPs whose timer is at a count of 3
abbrev timed : System
timed = record system { system_state = many_nops; registers = awake; timer_state = timer_memory }

run_cycles-ticking_example :
    visible (run_cycles true 8 timed) ≡ ticking 8 3 3 timed.registers timed.system_state
run_cycles-ticking_example =
    run_cycles-ticking 8 2 2 memtop timed timer_memory-IsTimer (omega arith) awake-IsMachine

-- The initial state of `main`, and the one after three cycles with peripherals.
abbrev started : (s : System) × (initial_system ≡ some s)
unfolding initial_system encode_instruction
started = (_, refl)

abbrev three_cycles : (s : System) × (run_cycles true 3 started.0 ≡ some s)
unfolding initial_system encode_instruction run_cycles processor_action decode_instruction
    execute_instruction check_irqs
three_cycles = (_, refl)

main-IsMachine_example : IsMachine system_sz three_cycles.0.registers three_cycles.0.system_state
main-IsMachine_example = main-IsMachine true 3 started.1 three_cycles.1
