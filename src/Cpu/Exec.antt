-- ===== src/Cpu/Exec.antt =====
-- cpu.cpp: `fetch`, the functions that execute one decoded instruction, and `step`. What they
-- print is left out. The uninitialised variables that a read fills are 0 before it.
pub mod Loads
pub mod Stores
pub mod Stack
pub mod Invariant
use riscv_student_pack.Common.{
  ℕ, ◌+◌, ◌^◌, Bool, true, false, not, ◌||◌, Option, none, some, bit_and, ltb, ◌==◌, if◌then◌else◌,
  add32, sub32, sra32,
}
use riscv_student_pack.Memory.{
  Memory, MemoryStatus, mem_ok, mem_read_error, mem_write_error, mem_misaligned_error, read8,
  read16, read32, write8, write16, write32, ◌>>=◌,
}
use riscv_student_pack.Instruction.{
  Instruction, InstrFormat, instr_r_type, instr_i_type, instr_s_type, instr_b_type, instr_u_type,
  instr_j_type, decode, sign_extend,
}
use riscv_student_pack.Cpu.State.{
  Cpu, Machine, Kernel, CpuStatus, cpu_ok, cpu_fetch_error, cpu_fetch_misaligned,
  cpu_fetch_out_of_bounds, cpu_decode_error, cpu_execution_error, cpu_illegal_instruction,
  cpu_syscall_exit, reg_read, reg_write,
}
use riscv_student_pack.Cpu.Alu.{execute_alu, execute_mul_div, slt32}
use riscv_student_pack.Cpu.Syscall.{handle_syscall}

-- The status of a fetch, the fetched word, and the processor after it.
abbrev pub fetched : Cpu → MemoryStatus × ℕ → CpuStatus × ℕ × Cpu
fetched c (mem_ok, word) = (cpu_ok, word, record c { pc = add32 c.pc 4 })
fetched c (mem_misaligned_error, word) = (cpu_fetch_misaligned, word, c)
fetched c (mem_read_error, word) = (cpu_fetch_out_of_bounds, word, c)
fetched c (mem_write_error, word) = (cpu_fetch_error, word, c)

unfoldable pub fetch : Cpu → Memory → Option (CpuStatus × ℕ × Cpu)
fetch c m = do r ← read32 m c.pc 0; some (fetched c r)

-- What a load makes of a read: the value is adjusted, any error is an execution error.
abbrev pub loaded : (ℕ → ℕ) → MemoryStatus × ℕ → CpuStatus × ℕ
loaded adjust (mem_ok, value) = (cpu_ok, adjust value)
loaded adjust (mem_read_error, value) = (cpu_execution_error, 0)
loaded adjust (mem_write_error, value) = (cpu_execution_error, 0)
loaded adjust (mem_misaligned_error, value) = (cpu_execution_error, 0)

-- The status and `*result`.
unfoldable pub execute_load : Memory → Cpu → Instruction → Option (CpuStatus × ℕ)
execute_load m c d =
    let addr = add32 (reg_read c d.rs1) d.imm in
    if d.funct3 == 0x0
    then (do r ← read8 m addr 0; some (loaded (λ v. sign_extend (bit_and v 0xff) 8) r))
    else if d.funct3 == 0x1
    then (do r ← read16 m addr 0; some (loaded (λ v. sign_extend (bit_and v 0xffff) 16) r))
    else if d.funct3 == 0x2
    then (do r ← read32 m addr 0; some (loaded (λ v. v) r))
    else if d.funct3 == 0x4
    then (do r ← read8 m addr 0; some (loaded (λ v. bit_and v 0xff) r))
    else if d.funct3 == 0x5
    then (do r ← read16 m addr 0; some (loaded (λ v. bit_and v 0xffff) r))
    else some (cpu_illegal_instruction, 0)

-- `(status == MEM_OK) ? CPU_OK : CPU_EXECUTION_ERROR`
abbrev pub stored : MemoryStatus × Memory → CpuStatus × Memory
stored (mem_ok, m) = (cpu_ok, m)
stored (mem_read_error, m) = (cpu_execution_error, m)
stored (mem_write_error, m) = (cpu_execution_error, m)
stored (mem_misaligned_error, m) = (cpu_execution_error, m)

unfoldable pub execute_store : Memory → Cpu → Instruction → Option (CpuStatus × Memory)
execute_store m c d =
    let addr = add32 (reg_read c d.rs1) d.imm in
    let value = reg_read c d.rs2 in
    if d.funct3 == 0x0
    then (do r ← write8 addr (bit_and value 0xff) m; some (stored r))
    else if d.funct3 == 0x1
    then (do r ← write16 addr (bit_and value 0xffff) m; some (stored r))
    else if d.funct3 == 0x2
    then (do r ← write32 addr value m; some (stored r))
    else some (cpu_illegal_instruction, m)

-- `take_branch`; `none` is the `default` branch.
unfoldable pub take_branch : (rs1_val rs2_val funct3 : ℕ) → Option Bool
take_branch a b funct3 =
    if funct3 == 0x0
    then some (a == b)
    else if funct3 == 0x1
    then some (not (a == b))
    else if funct3 == 0x4
    then some (slt32 a b)
    else if funct3 == 0x5
    then some (not (slt32 a b))
    else if funct3 == 0x6
    then some (ltb a b)
    else if funct3 == 0x7
    then some (not (ltb a b))
    else none

-- `pc += imm - 4`
abbrev pub jump_by : ℕ → Cpu → Cpu
jump_by imm c = record c { pc = add32 c.pc (sub32 imm 4) }

abbrev pub branched : ℕ → Cpu → Option Bool → CpuStatus × Cpu
branched imm c none = (cpu_illegal_instruction, c)
branched imm c (some true) = (cpu_ok, jump_by imm c)
branched imm c (some false) = (cpu_ok, c)

unfoldable pub execute_branch : Cpu → Instruction → CpuStatus × Cpu
execute_branch c d = branched d.imm c (take_branch (reg_read c d.rs1) (reg_read c d.rs2) d.funct3)

unfoldable pub execute_system : Kernel → Machine → Instruction → Option (CpuStatus × Machine)
execute_system k m d =
    if bit_and d.imm 0xfff == 0x000
    then handle_syscall k m
    else if bit_and d.imm 0xfff == 0x001
    then some (cpu_ok, m)
    else some (cpu_illegal_instruction, m)

-- `reg_write(rd, result)` on the machine, and `return CPU_OK`.
abbrev pub write_back : ℕ → ℕ → Machine → CpuStatus × Machine
write_back rd result m = (cpu_ok, record m { cpu = reg_write rd result m.cpu })

abbrev pub load_back : ℕ → Machine → CpuStatus × ℕ → CpuStatus × Machine
load_back rd m (cpu_ok, result) = write_back rd result m
load_back rd m (status, result) = (status, m)

-- `case INSTR_R_TYPE`
unfoldable pub execute_r : Machine → Instruction → Option (CpuStatus × Machine)
execute_r m d =
    let a = reg_read m.cpu d.rs1 in
    let b = reg_read m.cpu d.rs2 in
    if d.funct7 == 0x01
    then (do result ← execute_mul_div a b d.funct3; some (write_back d.rd result m))
    else some (write_back d.rd (execute_alu a b d.funct3 d.funct7 false) m)

-- `case INSTR_I_TYPE`
unfoldable pub execute_i : Kernel → Machine → Instruction → Option (CpuStatus × Machine)
execute_i k m d =
    let a = reg_read m.cpu d.rs1 in
    if d.opcode == 0x03
    then (do r ← execute_load m.mem m.cpu d; some (load_back d.rd m r))
    else if d.opcode == 0x13
    then (let funct7 =
          if d.funct3 == 0x1 || d.funct3 == 0x5 then bit_and (sra32 d.imm 5) 0x7f else 0 in
        some (write_back d.rd (execute_alu a d.imm d.funct3 funct7 true) m))
    else if d.opcode == 0x67
    then (let c = reg_write d.rd m.cpu.pc m.cpu in
        some (cpu_ok, record m { cpu = record c { pc = bit_and (add32 a d.imm) 0xfffffffe } }))
    else if d.opcode == 0x73
    then execute_system k m d
    else some (cpu_illegal_instruction, m)

-- `case INSTR_U_TYPE`
unfoldable pub execute_u : Machine → Instruction → CpuStatus × Machine
execute_u m d =
    if d.opcode == 0x37
    then write_back d.rd d.imm m
    else if d.opcode == 0x17
    then write_back d.rd (sub32 (add32 m.cpu.pc d.imm) 4) m
    else (cpu_illegal_instruction, m)

-- `switch (instr->get_format())`
abbrev pub execute_by : InstrFormat → Kernel → Machine → Instruction → Option (CpuStatus × Machine)
execute_by instr_r_type k m d = execute_r m d
execute_by instr_i_type k m d = execute_i k m d
execute_by instr_s_type k m d = do
  (status, mem') ← execute_store m.mem m.cpu d
  some (status, record m { mem = mem' })
execute_by instr_b_type k m d =
    let (status, c) = execute_branch m.cpu d in some (status, record m { cpu = c })
execute_by instr_u_type k m d = some (execute_u m d)
execute_by instr_j_type k m d =
    some (cpu_ok, record m { cpu = jump_by d.imm (reg_write d.rd m.cpu.pc m.cpu) })

unfoldable pub execute : Kernel → Machine → Instruction → Option (CpuStatus × Machine)
execute k m d = execute_by d.format k m d

-- The rest of `step` behind a successful fetch.
abbrev pub run_decoded : Kernel → Machine → Option Instruction → Option (CpuStatus × Machine)
run_decoded k m none = some (cpu_decode_error, m)
run_decoded k m (some d) = execute k m d

abbrev pub after_fetch : Kernel → Machine → CpuStatus × ℕ × Cpu → Option (CpuStatus × Machine)
after_fetch k m (cpu_ok, word, c) = run_decoded k (record m { cpu = c }) (decode word)
after_fetch k m (status, word, c) = some (status, record m { cpu = c })

unfoldable pub step : Kernel → Machine → Option (CpuStatus × Machine)
step k m =
    if not m.cpu.running
    then some (cpu_syscall_exit, m)
    else do r ← fetch m.cpu m.mem; after_fetch k m r
