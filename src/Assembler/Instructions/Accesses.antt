-- ===== src/Assembler/Instructions/Accesses.antt =====
-- The assembler's `encode_instruction` (assembler/src/second_pass.cpp) against `CPU::step`
-- (emulator/src/cpu.cpp), for loads and stores.
pub mod Loading
pub mod Storing
use riscv_student_pack.Common.{
  ℕ, ◌+◌, ◌-◌, ◌*◌, ◌/◌, ◌%◌, ◌^◌, ◌<◌, ◌≤◌, ◌≡◌, refl, sym, ap, ◌∙◌, Bool, true, false, not, ◌&&◌,
  List, Option, some, leb, ltb, ◌==◌, if◌then◌else◌, codes, add32, sext, IsU32, FitsSigned, bit_and,
  arith, inl, inr, Bool-cases,
}
use riscv_student_pack.Common.Bits.{bit_and_mask}
use riscv_student_pack.Memory.{Memory, IsMemory, MemoryStatus, mem_ok, read32, update, ◌>>=◌}
use riscv_student_pack.Memory.Access.{
  little_endian, read_result, read8-read_result, read16-read_result, read32-read_result,
}
use riscv_student_pack.Memory.RoundTrip.{
  put_bytes, write_result, write8-write_result, write16-write_result, write32-write_result,
}
use riscv_student_pack.Instruction.{Instruction, sign_extend}
use riscv_student_pack.Instruction.Fields.{sign_extend-sext}
use riscv_student_pack.Encoder.{encode_i, encode_s}
use riscv_student_pack.Encoder.RoundTrip.{decode-encode_i, decode-encode_s}
use riscv_student_pack.Cpu.State.{
  Cpu, Machine, Kernel, CpuStatus, cpu_ok, cpu_execution_error, reg_read, IsMachine,
}
use riscv_student_pack.Cpu.Exec.{
  run_decoded, execute, execute_i, execute_load, execute_store, load_back, loaded, stored,
  write_back, step,
}
use riscv_student_pack.Cpu.Exec.Invariant.{advanced, step-fetched}
use riscv_student_pack.Assembler.Registers.{reg_num}
use riscv_student_pack.Assembler.Immediates.{Label, parse_imm}
use riscv_student_pack.Assembler.Instructions.{
  encode_instruction, find_form, encode_form, forms, load_form, store_form,
}
use riscv_student_pack.Assembler.Instructions.Execution.{emitted}

pub data Load : Type 0 where
  lb lh lw lbu lhu : Load

abbrev pub load_name : Load → List ℕ
load_name lb = codes "lb"
load_name lh = codes "lh"
load_name lw = codes "lw"
load_name lbu = codes "lbu"
load_name lhu = codes "lhu"

-- The bytes that each reads, and what becomes of their number.
abbrev pub load_width : Load → ℕ
load_width lb = 1
load_width lh = 2
load_width lw = 4
load_width lbu = 1
load_width lhu = 2

abbrev pub extended : Load → ℕ → ℕ
extended lb n = sext 8 n
extended lh n = sext 16 n
extended _ n = n

abbrev pub load_code : Load → ℕ
load_code lb = 0
load_code lh = 1
load_code lw = 2
load_code lbu = 4
load_code lhu = 5

pub data Store : Type 0 where
  sb sh sw : Store

abbrev pub store_name : Store → List ℕ
store_name sb = codes "sb"
store_name sh = codes "sh"
store_name sw = codes "sw"

abbrev pub store_width : Store → ℕ
store_width sb = 1
store_width sh = 2
store_width sw = 4

abbrev pub store_code : Store → ℕ
store_code sb = 0
store_code sh = 1
store_code sw = 2

-- The address is a multiple of the width, and the bytes lie inside the memory.
abbrev pub accessible : ℕ → Memory → ℕ → Bool
accessible n m addr = addr % n == 0 && leb (addr + n) m.size

-- What a load and a store do to the machine, the program counter apart.
abbrev pub load_meaning : Load → (rd addr : ℕ) → Machine → CpuStatus × Machine
load_meaning op rd addr m =
    if accessible (load_width op) m.mem addr
    then write_back rd (extended op (little_endian m.mem.data_at (load_width op) addr)) m
    else (cpu_execution_error, m)

abbrev pub store_meaning : Store → (addr v : ℕ) → Machine → CpuStatus × Machine
store_meaning op addr v m =
    if accessible (store_width op) m.mem addr
    then (
      cpu_ok,
      record m {
        mem = record (m.mem) { data_at = put_bytes (store_width op) addr v m.mem.data_at };
      },
    )
    else (cpu_execution_error, m)

pub find_form-load : (op : Load) → find_form (load_name op) forms ≡ some (load_form (load_code op))
unfolding find_form
find_form-load lb = refl
find_form-load lh = refl
find_form-load lw = refl
find_form-load lbu = refl
find_form-load lhu = refl

pub find_form-store :
    (op : Store) → find_form (store_name op) forms ≡ some (store_form (store_code op))
unfolding find_form
find_form-store sb = refl
find_form-store sh = refl
find_form-store sw = refl

pub load_code-lt : (op : Load) → load_code op < 8
load_code-lt lb = omega arith
load_code-lt lh = omega arith
load_code-lt lw = omega arith
load_code-lt lbu = omega arith
load_code-lt lhu = omega arith

pub store_code-lt : (op : Store) → store_code op < 8
store_code-lt sb = omega arith
store_code-lt sh = omega arith
store_code-lt sw = omega arith
