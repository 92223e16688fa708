-- ===== src/Coursework.antt =====
-- Code/Coursework-code-skeleton: an OpenCL driver and its testbench. The gaps that the skeleton
-- leaves to be filled in are parameters.
pub mod Ints
pub mod Firmware
pub mod Testbench
pub mod Driver
pub mod Program
mod Examples
