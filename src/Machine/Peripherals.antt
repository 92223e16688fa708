-- ===== src/Machine/Peripherals.antt =====
-- abstract_system_peripherals.cc: each action gives the device's state and its interrupt line.
pub mod Timer
use osh.Prelude.{ℕ, ◌-◌, Option, some, ◌==◌, ltb, if◌then◌else◌, Ram, load, store, ◌>>=◌}

unfoldable pub kbd_action : Ram → Ram × ℕ
kbd_action kbd_state = (kbd_state, 0)

unfoldable pub nic_action : Ram → Ram × ℕ
nic_action nic_state = (nic_state, 0)

unfoldable pub ssd_action : Ram → Ram × ℕ
ssd_action ssd_state = (ssd_state, 0)

unfoldable pub gpu_action : Ram → Ram × ℕ
gpu_action gpu_state = (gpu_state, 0)

-- `timerState[0]=timerState[1]`, with the line raised
abbrev reload : Ram → Option (Ram × ℕ)
reload timer_state = do
  period ← load timer_state 1
  timer_state' ← store timer_state 0 period
  some (timer_state', 1)

-- Counts word 0 down, stopping at 0; at 0 the line is raised and word 0 is loaded from word 1.
unfoldable pub timer_action : Ram → Option (Ram × ℕ)
timer_action timer_state = do
  count ← load timer_state 0
  timer_state' ← if ltb 0 count then store timer_state 0 (count - 1) else some timer_state
  count' ← load timer_state' 0
  if count' == 0 then reload timer_state' else some (timer_state', 0)
