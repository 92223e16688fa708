-- ===== src/Machine/Processor.antt =====
-- abstract_system_processor.cc: one cycle of the processor. The flag `peripherals` is the macro
-- PERIPHERALS: without it the interrupts are not looked at.
pub mod Invariant
pub mod BranchLink
use osh.Prelude.{
  ℕ, zero, suc, ◌+◌, List, [], ◌∷◌, Bool, Option, some, if◌then◌else◌, Ram, load, ◌>>=◌,
}
use osh.Machine.Constants.{ivt, ivt_sz}
use osh.Machine.Fetch.{fetch_instruction}
use osh.Machine.Decode.{
  decode_instruction, decode_instr, decode_args, decode_addr_arg, decode_reg_addr_args,
  decode_3reg_args,
}
use osh.Machine.Execute.{execute_instruction}
use osh.Machine.Irqs.{check_irqs}

-- the `n` words from address `first` on, copied out
unfoldable pub copy_words : Ram → ℕ → ℕ → Option (List ℕ)
copy_words m first zero = some []
copy_words m first (suc n) = do w ← load m first; ws ← copy_words m (first + 1) n; some (w ∷ ws)

-- the interrupts of a cycle
unfoldable pub interrupt_phase : Bool → Ram → List ℕ → List ℕ → Option (List ℕ × List ℕ)
unfolding copy_words check_irqs
interrupt_phase peripherals system_state irqs registers =
    if peripherals
    then (copy_words system_state ivt ivt_sz >>= λ table. check_irqs registers table irqs)
    else some (registers, irqs)

-- fetch, decode and execute
unfoldable pub instruction_phase : List ℕ → Ram → Option (List ℕ × Ram)
unfolding fetch_instruction decode_instruction decode_instr decode_args decode_addr_arg
    decode_reg_addr_args decode_3reg_args execute_instruction
instruction_phase registers system_state = do
  (ir, registers') ← fetch_instruction registers system_state
  let decoded = decode_instruction ir
  execute_instruction decoded.0 decoded.1 registers' system_state

unfoldable pub processor_action : Bool → Ram → List ℕ → List ℕ → Option (Ram × List ℕ × List ℕ)
unfolding interrupt_phase instruction_phase
processor_action peripherals system_state irqs registers = do
  (registers₁, irqs') ← interrupt_phase peripherals system_state irqs registers
  (registers₂, system_state') ← instruction_phase registers₁ system_state
  some (system_state', irqs', registers₂)
