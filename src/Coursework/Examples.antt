-- ===== src/Coursework/Examples.antt =====
-- The theorems on the coursework skeleton at concrete inputs.
use osh.Prelude.{
  numbers, ℕ, zero, suc, ◌<◌, ◌≡◌, refl, ap, List, [], ◌∷◌, true, false, Option, none, some, arith,
  inl, inr, length, All,
}
use osh.Net.Line.{finished}
use osh.Coursework.Ints.{ℤ, pos}
use osh.Coursework.Firmware.{Device, run_items}
use osh.Coursework.Firmware.Order.{Among}
use osh.Coursework.Firmware.Commute.{run_items-Perm}
use mathlib.Core.List.Perm
use osh.Coursework.Testbench.{RunDriver, Report, datum_a, datum_b, filled, references, thread_start}
use osh.Coursework.Testbench.Check.{thread_start_sound}
use osh.Coursework.Testbench.Success.{thread_start-success}
use osh.Coursework.Driver.{ClObject, InitOs, init_driver, create_objects, Handle, ShutdownOs}
use osh.Coursework.Program.{ProgramOs, Outcome, testbench, testbench-success}

-- two elements, and the device before the kernel
abbrev fresh : Device
fresh = record { output = pos 9 ∷ pos 9 ∷ []; status = pos 1 }

-- the work-items in the order 1, 0
abbrev order : List ℕ
order = 1 ∷ 0 ∷ []

-- 6 * x * x + 7 * y * y at (2, 3) and (4, 6)
abbrev results : ℕ → ℤ
results zero = pos 87
results (suc i) = pos 348

abbrev xs : List ℤ
xs = pos 2 ∷ pos 4 ∷ []

abbrev ys : List ℤ
ys = pos 3 ∷ pos 6 ∷ []

covers : (j : ℕ) → j < 2 → Among j order
covers zero h = inr (inl refl)
covers (suc zero) h = inl refl
covers (suc (suc j)) h = absurd (omega arith)

order-small : All (λ i. i < 2) order
order-small = (omega arith, (omega arith, tt))

run_items-Perm_example :
    run_items xs ys (pos 6) (pos 7) 2 order fresh
    ≡ run_items xs ys (pos 6) (pos 7) 2 (0 ∷ 1 ∷ []) fresh
run_items-Perm_example =
    run_items-Perm xs ys (pos 6) (pos 7) 2 order (0 ∷ 1 ∷ []) fresh (Perm.swap 0 1 [])

-- a driver that runs the kernel in that order
abbrev output_of : Option Device → List ℤ
output_of none = []
output_of (some d) = d.output

abbrev driver : RunDriver
driver mA mB w1 w2 = output_of (run_items mA mB w1 w2 2 order fresh)

abbrev set_a : List ℤ
set_a = filled 2 0 (datum_a 1)

abbrev set_b : List ℤ
set_b = filled 2 0 (datum_b 1)

driver_lem :
    (d' : Device)
    → run_items set_a set_b (pos 6) (pos 7) 2 order fresh ≡ some d'
    → driver set_a set_b (pos 6) (pos 7) ≡ d'.output
driver_lem d' e = ap output_of e

abbrev success : Report
success = record { correct = 2; m_size = 2; thread_num = 1; success = true }

thread_start-success_example : thread_start 2 (pos 6) (pos 7) driver 1 ≡ some success
thread_start-success_example =
    thread_start-success 2 1 (omega arith) 6 7 (omega arith) driver order fresh (omega arith)
      order-small covers refl driver_lem

driver-length : length (driver set_a set_b (pos 6) (pos 7)) ≡ 2
unfolding run_items
driver-length = refl

set-references : references (pos 6) (pos 7) set_a set_b ≡ some (pos 87 ∷ pos 348 ∷ [])
unfolding references
set-references = refl

thread_start_sound_example : driver set_a set_b (pos 6) (pos 7) ≡ pos 87 ∷ pos 348 ∷ []
thread_start_sound_example =
    thread_start_sound 2 (pos 6) (pos 7) driver 1 (pos 87 ∷ pos 348 ∷ []) set-references refl
      driver-length thread_start-success_example refl

abbrev os : InitOs
os = record {
  malloc_ocl = true;
  platform_count = some 1;
  malloc_platforms = true;
  platform_ids = true;
  device = some 10;
  context = some 11;
  command_queue = some 12;
  firmware_cl = some (1 ∷ []);
  malloc_buffer = true;
  create_program = λ _. some 13;
  build = true;
  create_kernel = some 14;
}

abbrev ocl : ClObject
ocl = record {
  device_id = 10;
  context = 11;
  command_queue = 12;
  program = 13;
  kernel = 14;
  thread_num = 0;
}

os-objects : create_objects os 0 ≡ finished (some ocl)
unfolding create_objects
os-objects = refl

abbrev elsewhere : InitOs
elsewhere = record os { firmware_cl = none }

-- the release of the queue fails
abbrev shutdown_os : ShutdownOs
shutdown_os = record {
  release_program = true;
  release_kernel = true;
  release_queue = false;
  release_context = true;
}

-- every call succeeds, and the section to be filled in leaves the object as it is
abbrev program_os : ProgramOs
program_os = record {
  init = os;
  calloc = true;
  created = λ _. true;
  joined = λ _. true;
  shutdown = record shutdown_os { release_queue = true };
}

abbrev handles : List Handle
handles = Handle.program 13 ∷ Handle.kernel 14 ∷ Handle.command_queue 12 ∷ Handle.context 11 ∷ []

abbrev exited : Outcome
exited = record { success = true; threads = 1 ∷ 2 ∷ 3 ∷ []; released = handles }

testbench-exited : testbench (λ ocl. finished (some ocl)) 3 0 program_os ≡ finished exited
unfolding testbench init_driver
testbench-exited = refl

testbench-success_example :
    (ocl : ClObject) × (init_driver (λ ocl. finished (some ocl)) os 0 ≡ finished (some ocl))
    × (1 ∷ 2 ∷ 3 ∷ [] ≡ numbers 3 1)
    × (handles
        ≡ Handle.program ocl.program
          ∷ Handle.kernel ocl.kernel
          ∷ Handle.command_queue ocl.command_queue
          ∷ Handle.context ocl.context
          ∷ [])
testbench-success_example =
    testbench-success (λ ocl. finished (some ocl)) 3 0 program_os exited testbench-exited refl
