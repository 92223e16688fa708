-- ===== src/Machine.antt =====
-- The processor-based system of Code/Ch1-memory-centric-system-model/cpp-code: a module for each
-- source file, with the proofs in the modules below it.
mod Examples
pub mod Opcode
pub mod Register
pub mod Constants
pub mod Alu
pub mod Decode
pub mod Fetch
pub mod Execute
pub mod Irqs
pub mod Peripherals
pub mod Encode
pub mod Processor
pub mod Code
pub mod Model
