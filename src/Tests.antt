-- ===== src/Tests.antt =====
-- Runs at concrete inputs: the theorems applied to small machines, memories and texts.
pub mod Machines
pub mod Codes
pub mod Arithmetic
pub mod Assembly
pub mod Passes
pub mod Constants
pub mod Programs
pub mod Accesses
pub mod Calls
