-- ===== src/Cpu/State.antt =====
-- cpu.hpp, and the constructor, accessors and register file of cpu.cpp.
-- `none` is undefined behaviour wherever a function of the processor returns an `Option`.
use riscv_student_pack.Common.{
  ℕ, ◌+◌, ◌*◌, ◌≤◌, ◌≡◌, Bool, true, false, List, Option, none, some, ◌==◌, leb, ltb, ◌&&◌,
  if◌then◌else◌, IsU32,
}
use riscv_student_pack.Memory.{Memory, IsMemory, update}

-- `cpu_status_t`
pub data CpuStatus : Type 0 where
  cpu_ok cpu_fetch_error cpu_fetch_misaligned cpu_fetch_out_of_bounds : CpuStatus
  cpu_decode_error cpu_execution_error cpu_illegal_instruction cpu_syscall_exit : CpuStatus

-- The value of `CPU_ILLEGAL_INSTRUCTION` in the enumeration.
abbrev pub illegal_code : ℕ
illegal_code = 6

-- `MEMORY_SIZE`, `STACK_BASE`, `STACK_SIZE`, `STACK_TOP`
abbrev pub memory_size : ℕ
memory_size = 16 * 1024 * 1024

abbrev pub stack_base : ℕ
stack_base = 0x80000000

abbrev pub stack_size : ℕ
stack_size = 1 * 1024 * 1024

abbrev pub stack_top : ℕ
stack_top = stack_base + stack_size

-- `x` is the register array, of which only the indices below 32 exist.
pub record Cpu : Type 0 where
  pub x : ℕ → ℕ
  pub pc : ℕ
  pub running : Bool
  pub debug_mode : Bool

-- `CPU::CPU`
unfoldable pub new_cpu : Cpu
new_cpu = record { x = update (λ _. 0) 2 stack_top; pc = 0; running = true; debug_mode = false }

unfoldable pub is_running : Cpu → Bool
is_running c = c.running

unfoldable pub set_debug_mode : Bool → Cpu → Cpu
set_debug_mode enable c = record c { debug_mode = enable }

unfoldable pub get_pc : Cpu → ℕ
get_pc c = c.pc

unfoldable pub set_pc : ℕ → Cpu → Cpu
set_pc value c = record c { pc = value }

unfoldable pub get_register : Cpu → ℕ → ℕ
get_register c reg = if leb 32 reg then 0 else if reg == 0 then 0 else c.x reg

unfoldable pub set_register : ℕ → ℕ → Cpu → Cpu
set_register reg value c =
    if ltb 0 reg && ltb reg 32 then record c { x = update c.x reg value } else c

unfoldable pub reg_read : Cpu → ℕ → ℕ
reg_read c reg = if reg == 0 then 0 else c.x reg

unfoldable pub reg_write : ℕ → ℕ → Cpu → Cpu
reg_write reg value c = if reg == 0 then c else record c { x = update c.x reg value }

-- The file-system calls that the emulator passes on to the host, with their arguments; `write`
-- carries the bytes that the host reads from the buffer.
pub data OsCall : Type 0 where
  os_write : ℕ → List ℕ → OsCall
  os_read : ℕ → ℕ → OsCall
  os_open : List ℕ → ℕ → ℕ → OsCall
  os_close : ℕ → OsCall
  os_fstat : ℕ → OsCall

-- The host's answer: the result as a bit pattern, and the bytes that it puts into the buffer.
pub record OsReply : Type 0 where
  pub result : ℕ
  pub bytes : List ℕ

-- The host may answer by all the calls before, the latest first. `stat_size` is its
-- `sizeof(struct stat)`.
pub record Kernel : Type 0 where
  pub reply : List OsCall → OsCall → OsReply
  pub stat_size : ℕ

-- The emulator owns the processor and the memory; `calls` is what the host has been asked.
pub record Machine : Type 0 where
  pub cpu : Cpu
  pub mem : Memory
  pub calls : List OsCall

-- Every register and the program counter hold 32 bits, and `x0`'s cell is never set.
pub record IsCpu (c : Cpu) : Type 0 where
  pub pc_fits : IsU32 c.pc
  pub x_fits : (r : ℕ) → IsU32 (c.x r)
  pub zero_cell : c.x 0 ≡ 0

-- A memory that holds at least a word, and a processor and memory in good order.
pub record IsMachine (m : Machine) : Type 0 where
  pub cpu_good : IsCpu m.cpu
  pub mem_good : IsMemory m.mem
  pub holds_word : 4 ≤ m.mem.size

-- The outcome is defined, and the machine that it leaves is in good order.
abbrev pub Keeps : Option (CpuStatus × Machine) → Type 0
Keeps none = ⊥
Keeps (some (status, m)) = IsMachine m
