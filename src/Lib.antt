-- ===== src/Lib.antt =====
-- The RISC-V student pack: an assembler (assembler/) that turns RV32IM text into a flat binary, and
-- an emulator (emulator/) that runs such a binary. The two meet in the 32-bit instruction word,
-- which the assembler's `Encoder` builds and the emulator's `Instruction::decode` takes apart.
--
-- The parts and their files:
-- - Memory: emulator/src/memory.cpp. The state is the byte array `data`, as a function, and `size`;
--   `read8` to `write32` keep their names. The reads take the old value of `*value`.
-- - Instruction: emulator/src/instructions.cpp. `decode` returns the decoded record, or `none` where
--   the source returns false.
-- - Cpu: emulator/src/cpu.cpp. `Cpu` is the class's state, `Machine` the processor with the memory
--   of emulator/include/emulator.hpp and the calls made to the host. Cpu/Alu has `execute_alu` and
--   `execute_mul_div`, Cpu/Syscall `handle_syscall`, Cpu/Exec `fetch`, `execute` with a function for
--   each of its cases, and `step`.
-- - Encoder: assembler/src/encode.cpp, with the sums of fields that each word is.
-- - Emulator: emulator/src/emulator.cpp and emulator/src/main.cpp: `load_program`, the loop of `main`
--   as `run_loop`, and the options. Emulator/Running has the loop as steps of the processor,
--   Emulator/Loading what a loaded machine holds.
-- - Assembler: assembler/src/utils.cpp (Chars, Registers, Immediates, Escapes), the table of
--   sections with assembler/src/adjust_labels.cpp (Sections), the class's state with
--   assembler/src/constructor.cpp (State), assembler/src/first_pass.cpp (FirstPass),
--   assembler/src/expand_pseudoinstruction.cpp (Pseudo), and assembler/src/second_pass.cpp:
--   `encode_instruction` (Instructions), whose children run the assembled words on `CPU::step`, and
--   the pass itself (SecondPass) with its operands (Arguments), data directives (Data) and output
--   file (Output). assembler/src/main.cpp is Main: the two passes and `adjust_labels` over a text,
--   and the command on the files of a `Disk`.
-- - Scan: `strtol`, `atoi`, `strtoul` and `sscanf` with "%d", as both programs use them.
-- - Common: tests, lists, words, signed numbers and bit operations that all parts share.
-- - Program: both commands together. A straight-line program is a list of statements (the 18 R-type
--   instructions, the 9 on a register and a number, `li`, `mv`, `nop`, `ecall`) with its text and,
--   from the instruction set, its words and its effect on the registers, for which no division may
--   overflow. Its text goes through the passes of Assembler (Bytes, Lines, Immediates, Clean,
--   Mnemonics, Pseudo, Statements, Reading, Passes), the output file is the file that Emulator
--   loads (Files), Cpu runs it (Running, Results, Exits), Main has the emulator's command on it,
--   and Commands both commands one behind the other. Accesses has loads and stores from their lines
--   to their step, and Calls `call` and `ret`.
-- - Tests: runs at concrete inputs.
--
-- Conventions. A `uint32_t` is a number below 2 ^ 32 and an `int32_t` its two's complement pattern;
-- wrap-around is written out. `none` is undefined behaviour in the emulator and `exit(1)` in the
-- assembler, whose second pass has an `Outcome` with both: undefined are a copy that leaves its
-- buffer and the overflow of `imm + 0x800` in the expansion of `li` and `la`. A left shift of a
-- negative `int32_t` (`hi20 << 12`, and `<< 12` of an immediate in `encode_instruction`) drops the
-- high bits, as g++ documents it and C++20 defines it; in the C++17 of the Makefiles it is
-- undefined. The chains of `strcmp` tests in `reg_num` and `encode_instruction` are tables that are
-- searched in the source's order. A C string is the list of its bytes without the NUL, in ASCII.
-- `size_t` and `long` have 64 bits, as on the Linux systems that the code is for. Every loop is
-- structural recursion, that over the path of `openat` on its 255 rounds, that of `main` on its
-- 1,000,000 steps. Only the loop over the values of a data directive (`read_values`) needs fuel,
-- since in the source it may run for ever; it gets one round more than the text has bytes, and a
-- round that goes on shortens the text unless it stands still. What the uninitialised buffers
-- `exp_a1` to `exp_a3` hold is a parameter, `stale`.
--
-- The host's file calls are a parameter, `Kernel`: an answer for every call by the calls before.
-- What the code relies on is `IsKernel`: `read` delivers at most the bytes asked for, and what it
-- delivers are bytes.
--
-- A file that the emulator loads is a value, `File`: its size and the bytes that `fread` delivers.
-- `IsFile` says that these are bytes and no more than the size. The files of the assembler's
-- command are a `Disk`, where different names are different files.
--
-- Not modelled: messages and debug output but for `get_instruction_name` (Cpu/Names), the register
-- dump of emulator/src/main.cpp, what a pass that ends by `exit(1)` has written, a failing `ftell`
-- or `fseek`, and the tests.
pub mod Common
pub mod Memory
pub mod Instruction
pub mod Encoder
pub mod Cpu
pub mod Scan
pub mod Assembler
pub mod Emulator
pub mod Program
pub mod Tests
