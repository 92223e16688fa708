-- ===== src/Slice/Examples.antt =====
-- A switch between two tasks and back.
use osh.Prelude.{ℕ, ◌+◌, ◌≤◌, ◌<◌, ◌≡◌, inl, inr, refl, Option, none, some, arith, update}
use osh.Slice.{nregs_context, Context, time_slice}
use osh.Slice.Switch.{Fits}
use osh.Slice.Resume.{time_slice_resumes}

-- Task 0 with the stack from 5 on; PID is 30, and the blocks start at 40.
abbrev task_0 : Context
task_0 = record {
  system_state = record { size = 100; cells = update (λ a. a) 30 0 };
  registers = record { size = 24; cells = update (λ j. j + 100) 21 5 };
}

abbrev got : Option Context → Context
got none = task_0
got (some s) = s

abbrev left : Context
unfolding time_slice
left = got (time_slice 30 40 16 task_0)

left_lem : time_slice 30 40 16 task_0 ≡ some left
unfolding time_slice left
left_lem = refl

-- Task 1 sets all its registers to 7 and moves the stack to 8.
abbrev task_1 : Context
unfolding left
task_1 = record {
  system_state = left.system_state;
  registers = record { size = 24; cells = update (λ j. 7) 21 8 };
}

-- R1 of task 0 comes back, and R0 does not.
back_again : (got (time_slice 30 40 16 task_1)).registers.cells 1 ≡ 101
unfolding time_slice task_1 left
back_again = refl

r0_lost : (got (time_slice 30 40 16 task_1)).registers.cells 0 ≡ 24
unfolding time_slice task_1 left
r0_lost = refl

task_0-Fits : Fits 30 40 16 5 task_0
task_0-Fits = record {
  has_msp = omega arith;
  pointer = refl;
  room = omega arith;
  blocks = omega arith;
  block_size = omega arith;
  pid_room = omega arith;
  blocks_off_stack = inr (omega arith);
  pid_off_stack = inr (omega arith);
  pid_off_blocks = inl (omega arith);
}

task_1-Fits : Fits 30 40 16 8 task_1
unfolding time_slice task_1 left
task_1-Fits = record {
  has_msp = omega arith;
  pointer = refl;
  room = omega arith;
  blocks = omega arith;
  block_size = omega arith;
  pid_room = omega arith;
  blocks_off_stack = inr (omega arith);
  pid_off_stack = inr (omega arith);
  pid_off_blocks = inl (omega arith);
}

time_slice_resumes_example :
    (s₃ : Context) × (time_slice 30 40 16 task_1 ≡ some s₃)
    × (s₃.system_state.cells 30 ≡ 0)
    × ((r : ℕ) → 1 ≤ r → r < nregs_context → s₃.registers.cells r ≡ task_0.registers.cells r)
    × (s₃.registers.cells 0 ≡ task_1.system_state.cells (8 + nregs_context))
    × ((j : ℕ) → nregs_context ≤ j → s₃.registers.cells j ≡ task_1.registers.cells j)
unfolding task_1 left
time_slice_resumes_example =
    time_slice_resumes 30 40 16 5 8 0 1 task_0 left task_1 task_0-Fits refl (omega arith) left_lem
      task_1-Fits refl (λ k lt. refl)
