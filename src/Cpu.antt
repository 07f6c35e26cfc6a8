-- ===== src/Cpu.antt =====
-- emulator/include/cpu.hpp and emulator/src/cpu.cpp: the processor. The children define its parts
-- and prove their properties; the state that they share stands in `Cpu/State`.
pub mod State
pub mod Alu
pub mod Syscall
pub mod Exec
pub mod Names
