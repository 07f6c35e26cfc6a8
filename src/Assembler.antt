-- ===== src/Assembler.antt =====
-- assembler/include/assembler.hpp and assembler/src: the assembler. A C string is the list of its
-- bytes without the final NUL. In these modules `none` is `exit(1)` with a message.
pub mod Outcome
pub mod Chars
pub mod Text
pub mod State
pub mod Pseudo
pub mod FirstPass
pub mod SecondPass
pub mod Registers
pub mod Immediates
pub mod Escapes
pub mod Sections
pub mod Instructions
pub mod Main
