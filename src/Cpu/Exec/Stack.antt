-- ===== src/Cpu/Exec/Stack.antt =====
-- cpu.cpp: the initial stack pointer against the emulator's memory.
use riscv_student_pack.Common.{
  ℕ, ◌+◌, ◌%◌, ◌<◌, ◌≡◌, refl, ap, ◌∙◌, some, add32, ◌==◌, FitsSigned, arith, lt→ltb, Bool-cases,
  inl, inr,
}
use riscv_student_pack.Memory.{Memory, IsMemory, write32, ◌>>=◌}
use riscv_student_pack.Memory.RoundTrip.{write_result, write32-write_result}
use riscv_student_pack.Instruction.{Instruction}
use riscv_student_pack.Cpu.State.{cpu_execution_error, memory_size, new_cpu, reg_read}
use riscv_student_pack.Cpu.Exec.{execute_store, stored}

outside :
    (m : Memory) (addr value : ℕ)
    → m.size < addr
    → stored (write_result 4 addr value m) ≡ (cpu_execution_error, m)
unfolding write_result
outside m addr value h = elim (Bool-cases (addr % 4 == 0)) [
  | inl e ↦ rw (e, lt→ltb m.size (addr + 4) (omega arith)) refl
  | inr e ↦ rw e refl
]

-- With the registers of a new processor and a memory of MEMORY_SIZE bytes, every `sw` relative to
-- the stack pointer is an execution error and leaves the memory as it is, whatever its immediate
-- of 12 bits.
pub execute_store-new_cpu :
    (m : Memory) (d : Instruction)
    → IsMemory m
    → m.size ≡ memory_size
    → d.rs1 ≡ 2
    → d.funct3 ≡ 2
    → FitsSigned 12 d.imm
    → execute_store m new_cpu d ≡ some (cpu_execution_error, m)
unfolding execute_store reg_read new_cpu
execute_store-new_cpu m d good size base word near =
    let addr = add32 0x80100000 d.imm in
    let value = reg_read new_cpu d.rs2 in
    let far : m.size < addr = omega arith in
    let e : write32 addr value m ≡ some (write_result 4 addr value m) =
      write32-write_result m addr value good.size_fits (omega arith) (omega arith) in
    rw (word, base) (ap (λ o. o >>= (λ r. some (stored r))) e ∙ ap some (outside m addr value far))
