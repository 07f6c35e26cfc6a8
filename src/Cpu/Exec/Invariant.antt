-- ===== src/Cpu/Exec/Invariant.antt =====
-- cpu.cpp: `execute` and `step` and the invariant of the machine.
use riscv_student_pack.Common.{
  ℕ, ◌≡◌, refl, Bool, true, false, Option, none, some, ◌==◌, bit_and, IsU32, add32, arith, inl, inr,
  ◌⊎◌, Option-cases, Bool-cases,
}
use mathlib.Core.Path.{subst}
use riscv_student_pack.Common.Bits.Bounds.{bit_and-le}
use riscv_student_pack.Memory.{
  Memory, MemoryStatus, ◌>>=◌, mem_ok, mem_read_error, mem_write_error, mem_misaligned_error,
  read32,
}
use riscv_student_pack.Memory.Access.{read_result, read32-read_result}
use riscv_student_pack.Instruction.{
  Instruction, InstrFormat, instr_r_type, instr_i_type, instr_s_type, instr_b_type, instr_u_type,
  instr_j_type, decode,
}
use riscv_student_pack.Instruction.Fields.{RegistersFit, decode-RegistersFit}
use riscv_student_pack.Cpu.State.{
  Cpu, Machine, Kernel, CpuStatus, reg_read, IsCpu, IsMachine, Keeps,
}
use riscv_student_pack.Cpu.Alu.{execute_mul_div}
use riscv_student_pack.Cpu.Alu.Bounds.{execute_alu-IsU32, execute_mul_div-IsU32}
use riscv_student_pack.Cpu.Alu.Division.{Overflows, execute_mul_div-undefined_iff}
use riscv_student_pack.Cpu.Syscall.Buffers.{IsKernel}
use riscv_student_pack.Cpu.Syscall.Safety.{with_memory, handle_syscall-Keeps, Keeps-if}
use riscv_student_pack.Cpu.Exec.{
  fetched, fetch, take_branch, jump_by, branched, execute_branch, execute_system, execute_load,
  execute_store, execute_r, execute_i, execute_u, execute_by, execute, after_fetch, step,
}
use riscv_student_pack.Cpu.Exec.Loads.{
  reg_read-IsU32, reg_write-IsCpu, with_pc, with_cpu, write_back-Keeps, load_back-Keeps,
  execute_load-LoadFits, read_result-IsU32,
}
use riscv_student_pack.Cpu.Exec.Stores.{StoreKeeps, execute_store-StoreKeeps}

-- The instruction is a `div` or `rem` of `INT32_MIN` by -1.
pub record OverflowingDivision (m : Machine) (d : Instruction) : Type 0 where
  pub r_format : d.format ≡ instr_r_type
  pub m_extension : d.funct7 ≡ 1
  pub overflows : Overflows (reg_read m.cpu d.rs1) (reg_read m.cpu d.rs2)
  pub signed_division : (d.funct3 ≡ 4) ⊎ (d.funct3 ≡ 6)

-- As `Keeps`, but the outcome may be undefined where `P` holds.
abbrev pub KeepsUnless : Type 0 → Option (CpuStatus × Machine) → Type 0
KeepsUnless P none = P
KeepsUnless P (some (status, m)) = IsMachine m

weaken : (P : Type 0) (o : Option (CpuStatus × Machine)) → Keeps o → KeepsUnless P o
weaken P none h = absurd h
weaken P (some r) h = h

rephrase :
    {P Q : Type 0} (o : Option (CpuStatus × Machine)) → (P → Q) → KeepsUnless P o → KeepsUnless Q o
rephrase none f h = f h
rephrase (some r) f h = h

module _ {k : Kernel} (host : IsKernel k) {m : Machine} (good : IsMachine m) {d : Instruction}
    (fits : RegistersFit d) where
  jump_by-IsCpu : {c : Cpu} (imm : ℕ) → IsCpu c → IsCpu (jump_by imm c)
  jump_by-IsCpu imm h = with_pc _ h (omega arith)

  execute_r-KeepsUnless :
      d.format ≡ instr_r_type → KeepsUnless (OverflowingDivision m d) (execute_r m d)
  unfolding execute_r
  execute_r-KeepsUnless format =
      let a = reg_read m.cpu d.rs1 in
      let b = reg_read m.cpu d.rs2 in
      let ha : IsU32 a = reg_read-IsU32 d.rs1 good.cpu_good in
      let hb : IsU32 b = reg_read-IsU32 d.rs2 good.cpu_good in
      elim (Bool-cases (d.funct7 == 0x01)) [
        | inr plain ↦
            rw plain
              (write_back-Keeps d.rd _ good (execute_alu-IsU32 a b d.funct3 d.funct7 false ha hb))
        | inl extension ↦ elim (Option-cases (execute_mul_div a b d.funct3)) [
          | inl e ↦
              let (o, f) = (execute_mul_div-undefined_iff a b d.funct3).0 e in
              rw (extension, e)
                (record {
                  r_format = format;
                  m_extension = ground arith;
                  overflows = o;
                  signed_division = f;
                })
          | inr (v, e) ↦
              rw (extension, e)
                (write_back-Keeps d.rd v good (execute_mul_div-IsU32 a b d.funct3 ha hb e))
        ]
      ]

  execute_i-Keeps : Keeps (execute_i k m d)
  unfolding execute_i execute_system
  execute_i-Keeps =
      let a = reg_read m.cpu d.rs1 in
      let ha : IsU32 a = reg_read-IsU32 d.rs1 good.cpu_good in
      Keeps-if (d.opcode == 0x03) _ _
        (load_back-Keeps d.rd (execute_load m.mem m.cpu d) good (execute_load-LoadFits good d))
        (Keeps-if (d.opcode == 0x13) _ _
          (write_back-Keeps d.rd _ good
            (execute_alu-IsU32 a d.imm d.funct3 _ true ha fits.imm_fits))
          (Keeps-if (d.opcode == 0x67) _ _
            (with_cpu good (
              with_pc _ (reg_write-IsCpu d.rd m.cpu.pc good.cpu_good good.cpu_good.pc_fits)
                (omega (arith, bit_and-le (add32 a d.imm) 0xfffffffe))))
            (Keeps-if (d.opcode == 0x73) _ _
              (Keeps-if (bit_and d.imm 0xfff == 0) _ _ (handle_syscall-Keeps host good)
                (Keeps-if (bit_and d.imm 0xfff == 1) _ _ good good))
              good)))

  stored-Keeps :
      (o : Option (CpuStatus × Memory))
      → StoreKeeps m.mem o
      → Keeps (o >>= λ r. some (r.0, record m { mem = r.1 }))
  stored-Keeps none h = h
  stored-Keeps (some (status, mem')) h = with_memory m.calls good h

  branched-IsCpu : (o : Option Bool) → IsCpu (branched d.imm m.cpu o).1
  branched-IsCpu none = good.cpu_good
  branched-IsCpu (some true) = jump_by-IsCpu d.imm good.cpu_good
  branched-IsCpu (some false) = good.cpu_good

  execute_u-Keeps : Keeps (some (execute_u m d))
  unfolding execute_u
  execute_u-Keeps = elim (Bool-cases (d.opcode == 0x37)) [
    | inl lui ↦ rw lui (write_back-Keeps d.rd d.imm good fits.imm_fits)
    | inr other ↦ elim (Bool-cases (d.opcode == 0x17)) [
      | inl auipc ↦ rw (other, auipc) (write_back-Keeps d.rd _ good (omega arith))
      | inr neither ↦ rw (other, neither) good
    ]
  ]

  by_format :
      (f : InstrFormat) → d.format ≡ f → KeepsUnless (OverflowingDivision m d) (execute_by f k m d)
  unfolding execute_branch
  by_format instr_r_type e = execute_r-KeepsUnless e
  by_format instr_i_type e = weaken (OverflowingDivision m d) (execute_i k m d) execute_i-Keeps
  by_format instr_s_type e =
      weaken (OverflowingDivision m d) (execute_by instr_s_type k m d)
        (stored-Keeps (execute_store m.mem m.cpu d) (execute_store-StoreKeeps good d))
  by_format instr_b_type e =
      with_cpu good
        (branched-IsCpu (take_branch (reg_read m.cpu d.rs1) (reg_read m.cpu d.rs2) d.funct3))
  by_format instr_u_type e = weaken (OverflowingDivision m d) (some (execute_u m d)) execute_u-Keeps
  by_format instr_j_type e =
      with_cpu good
        (jump_by-IsCpu d.imm (reg_write-IsCpu d.rd m.cpu.pc good.cpu_good good.cpu_good.pc_fits))

-- `CPU::execute` on any decoded instruction: the machine stays in good order.
pub execute-KeepsUnless :
    {k : Kernel} {m : Machine} {d : Instruction}
    → IsKernel k
    → IsMachine m
    → RegistersFit d
    → KeepsUnless (OverflowingDivision m d) (execute k m d)
unfolding execute
execute-KeepsUnless {d = d} host good fits = by_format host good fits d.format refl

-- The word at the program counter is such a division.
pub record StepOverflows (m : Machine) : Type 0 where
  pub word : ℕ
  pub division : Instruction
  pub runs_on : m.cpu.running ≡ true
  pub fetches : read32 m.mem m.cpu.pc 0 ≡ some (mem_ok, word)
  pub decodes : decode word ≡ some division
  pub overflow : OverflowingDivision m division

-- The machine after a successful fetch.
abbrev pub advanced : Machine → Machine
advanced m = record m { cpu = record (m.cpu) { pc = add32 m.cpu.pc 4 } }

advanced-IsMachine : {m : Machine} → IsMachine m → IsMachine (advanced m)
advanced-IsMachine k = with_cpu k (with_pc _ k.cpu_good (omega arith))

fetched-IsU32 :
    {m : Machine} {w : ℕ} → IsMachine m → read32 m.mem m.cpu.pc 0 ≡ some (mem_ok, w) → IsU32 w
fetched-IsU32 {m} {w} k e =
    let described = read32-read_result k.mem_good m.cpu.pc 0 k.cpu_good.pc_fits k.holds_word in
    let same : read_result 4 m.mem m.cpu.pc 0 ≡ (mem_ok, w) = cc in
    subst (λ (r : MemoryStatus × ℕ). IsU32 r.1) same (read_result-IsU32 m.cpu.pc k.mem_good)

still_overflows :
    {m : Machine} {d : Instruction} → OverflowingDivision (advanced m) d → OverflowingDivision m d
unfolding reg_read
still_overflows o = record {
  r_format = o.r_format;
  m_extension = o.m_extension;
  overflows = o.overflows;
  signed_division = o.signed_division;
}

after_fetch-KeepsUnless :
    {k : Kernel} {m : Machine} (r : MemoryStatus × ℕ)
    → IsKernel k
    → IsMachine m
    → m.cpu.running ≡ true
    → read32 m.mem m.cpu.pc 0 ≡ some r
    → KeepsUnless (StepOverflows m) (after_fetch k m (fetched m.cpu r))
after_fetch-KeepsUnless {k} {m} (mem_ok, w) host good runs e = elim (Option-cases (decode w)) [
  | inl bad ↦ rw bad (advanced-IsMachine good)
  | inr (d, ok) ↦ rw ok (
      rephrase (execute k (advanced m) d)
        (λ o. record {
          word = w;
          division = d;
          runs_on = runs;
          fetches = e;
          decodes = ok;
          overflow = still_overflows o;
        })
        (execute-KeepsUnless host (advanced-IsMachine good)
          (decode-RegistersFit w d (fetched-IsU32 good e) ok)))
]
after_fetch-KeepsUnless (mem_read_error, w) host good runs e = good
after_fetch-KeepsUnless (mem_write_error, w) host good runs e = good
after_fetch-KeepsUnless (mem_misaligned_error, w) host good runs e = good

-- A running processor goes on with what it fetched.
pub step-fetched :
    (k : Kernel) (m : Machine) {r : MemoryStatus × ℕ}
    → m.cpu.running ≡ true
    → read32 m.mem m.cpu.pc 0 ≡ some r
    → step k m ≡ after_fetch k m (fetched m.cpu r)
unfolding step fetch
step-fetched k m runs e = simp (runs, e)

-- From a machine in good order (32-bit registers and program counter, a memory of at least four
-- bytes), with a host that delivers bytes and no more than asked for, `CPU::step` is defined on
-- every path and leaves a machine in good order, or its outcome is undefined and the word at the
-- program counter is a signed division of `INT32_MIN` by -1.
pub step-KeepsUnless :
    {k : Kernel} {m : Machine} → IsKernel k → IsMachine m → KeepsUnless (StepOverflows m) (step k m)
step-KeepsUnless {k} {m} host good = elim (Bool-cases m.cpu.running) [
  | inr halted ↦ unfold step in simp halted good
  | inl runs ↦
      let described =
        read32-read_result good.mem_good m.cpu.pc 0 good.cpu_good.pc_fits good.holds_word in
      rw (step-fetched k m runs described) (after_fetch-KeepsUnless _ host good runs described)
]
