-- ===== src/Tests/Machines.antt =====
-- Memories and machines at concrete inputs (emulator/src/memory.cpp and emulator/src/cpu.cpp).
use riscv_student_pack.Common.{
  ℕ, ◌/◌, ◌%◌, ◌^◌, ◌<◌, ◌≡◌, ◌↔◌, refl, true, false, [], none, some, ◌==◌, if◌then◌else◌, arith,
}
use riscv_student_pack.Memory.{Memory, IsMemory, mem_ok, read32, write32, store_byte}
use riscv_student_pack.Memory.Access.{read_result, read32-read_result, read32-undefined_iff}
use riscv_student_pack.Memory.RoundTrip.{put_bytes, IsWritten, read32-write32}
use riscv_student_pack.Cpu.State.{Machine, Kernel, IsMachine, Keeps}
use riscv_student_pack.Cpu.State.{memory_size, new_cpu, cpu_execution_error}
use riscv_student_pack.Instruction.{Instruction, instr_s_type}
use riscv_student_pack.Cpu.Exec.{execute_store}
use riscv_student_pack.Cpu.Exec.Stack.{execute_store-new_cpu}
use riscv_student_pack.Common.{inr, ◌-◌}
use riscv_student_pack.Cpu.Syscall.{handle_syscall}
use riscv_student_pack.Cpu.Syscall.Buffers.{IsKernel}
use riscv_student_pack.Cpu.Syscall.Safety.{handle_syscall-Keeps}
use riscv_student_pack.Cpu.Exec.{step}
use riscv_student_pack.Cpu.Exec.Invariant.{KeepsUnless, StepOverflows, step-KeepsUnless}

-- The bytes of a word from address 0 on.
abbrev word_at_zero : ℕ → ℕ → ℕ
word_at_zero w a =
    if a == 0
    then w % 2 ^ 8
    else if a == 1
    then w / 2 ^ 8 % 2 ^ 8
    else if a == 2
    then w / 2 ^ 16 % 2 ^ 8
    else if a == 3
    then w / 2 ^ 24 % 2 ^ 8
    else 0

abbrev pub program : ℕ → Memory
program w = record { data_at = word_at_zero w; size = 64 }

pub program-IsMemory : (w : ℕ) → IsMemory (program w)
program-IsMemory w = record { size_fits = omega arith; cells_fit = λ a. ground arith }

-- Every register holds its own number.
abbrev pub machine : ℕ → Machine
machine w = record {
  cpu = record { x = λ r. r % 32; pc = 0; running = true; debug_mode = false };
  mem = program w;
  calls = [];
}

pub machine-IsMachine : (w : ℕ) → IsMachine (machine w)
machine-IsMachine w = record {
  cpu_good = record { pc_fits = omega arith; x_fits = λ r. omega arith; zero_cell = refl };
  mem_good = program-IsMemory w;
  holds_word = omega arith;
}

-- A host that does nothing.
abbrev pub silent : Kernel
silent = record { reply = λ past call. record { result = 0; bytes = [] }; stat_size = 144 }

pub silent-IsKernel : IsKernel silent
silent-IsKernel = record { read_fits = λ past fd count. omega arith; bytes_fit = λ past call. tt }

-- `sub a0, a1, a2`
step-KeepsUnless_example :
    KeepsUnless (StepOverflows (machine 0x40c58533)) (step silent (machine 0x40c58533))
step-KeepsUnless_example = step-KeepsUnless silent-IsKernel (machine-IsMachine 0x40c58533)

handle_syscall-Keeps_example : Keeps (handle_syscall silent (machine 0x73))
handle_syscall-Keeps_example = handle_syscall-Keeps silent-IsKernel (machine-IsMachine 0x73)

read32-read_result_example :
    read32 (program 0x40c58533) 62 7 ≡ some (read_result 4 (program 0x40c58533) 62 7)
read32-read_result_example =
    read32-read_result (program-IsMemory 0x40c58533) 62 7 (omega arith) (omega arith)

-- A memory after a write of `n` bytes of `v` at address 8.
abbrev after_write : ℕ → ℕ → Memory
after_write n v = record { data_at = put_bytes n 8 v (program 0).data_at; size = 64 }

read32-write32_example :
    (read32 (after_write 4 0x12345678) 8 0 ≡ some (mem_ok, 0x12345678))
    × IsWritten 4 8 (program 0) (after_write 4 0x12345678)
unfolding write32 store_byte
read32-write32_example =
    read32-write32 (program-IsMemory 0) 8 0x12345678 0 (omega arith) (omega arith) (omega arith)
      refl

abbrev tiny : Memory
tiny = record { data_at = λ a. 0; size = 3 }

read32-undefined_iff_example : (read32 tiny 8 0 ≡ none) ↔ (8 % 4 ≡ 0) × (3 < 4)
read32-undefined_iff_example = read32-undefined_iff tiny 8 0 (omega arith) (omega arith)

abbrev full_memory : Memory
full_memory = record { data_at = λ a. 0; size = memory_size }

-- `sw a0, -4(sp)`
abbrev push_word : Instruction
push_word = record {
  format = instr_s_type;
  raw = 0xfea12e23;
  imm = 2 ^ 32 - 4;
  opcode = 0x23;
  rd = 28;
  rs1 = 2;
  rs2 = 10;
  funct3 = 2;
  funct7 = 127;
}

full_memory-IsMemory : IsMemory full_memory
full_memory-IsMemory = record { size_fits = omega arith; cells_fit = λ a. omega arith }

execute_store-new_cpu_example :
    execute_store full_memory new_cpu push_word ≡ some (cpu_execution_error, full_memory)
execute_store-new_cpu_example =
    execute_store-new_cpu full_memory push_word full_memory-IsMemory refl refl refl
      (inr (omega arith, omega arith))
