-- ===== src/Cpu/Exec/Loads.antt =====
-- cpu.cpp: register writes, `execute_load` and the invariant of the machine.
use riscv_student_pack.Common.{
  ℕ, ◌+◌, ◌%◌, ◌^◌, Bool, true, false, Option, none, some, ◌==◌, if◌then◌else◌, bit_and, IsU32,
  add32, arith, inl, inr, Bool-cases,
}
use riscv_student_pack.Common.Bits.{bit_and_mask}
use riscv_student_pack.Memory.{
  Memory, MemoryStatus, IsMemory, ◌>>=◌, mem_ok, mem_read_error, mem_write_error,
  mem_misaligned_error,
}
use riscv_student_pack.Memory.Access.{
  read_result, read8-read_result, read16-read_result, read32-read_result,
}
use riscv_student_pack.Instruction.{Instruction, sign_extend}
use riscv_student_pack.Instruction.Fields.{sign_extend-sext}
use riscv_student_pack.Cpu.State.{
  Cpu, Machine, CpuStatus, cpu_ok, reg_read, reg_write, IsCpu, IsMachine, Keeps,
}
use riscv_student_pack.Cpu.Syscall.Safety.{update-IsCpu}
use riscv_student_pack.Cpu.Exec.{loaded, execute_load, write_back, load_back}

pub reg_read-IsU32 : (r : ℕ) {c : Cpu} → IsCpu c → IsU32 (reg_read c r)
unfolding reg_read
reg_read-IsU32 r k = ground (arith, k.x_fits r)

pub reg_write-IsCpu : (r v : ℕ) {c : Cpu} → IsCpu c → IsU32 v → IsCpu (reg_write r v c)
unfolding reg_write
reg_write-IsCpu r v {c} k hv = elim (Bool-cases (r == 0)) [
  | inl e ↦ rw e k
  | inr e ↦ rw e (update-IsCpu r v k (ground arith) hv)
]

pub with_pc : {c : Cpu} (pc : ℕ) → IsCpu c → IsU32 pc → IsCpu (record c { pc = pc })
with_pc pc k h = record { pc_fits = h; x_fits = k.x_fits; zero_cell = k.zero_cell }

pub with_cpu : {m : Machine} {c : Cpu} → IsMachine m → IsCpu c → IsMachine (record m { cpu = c })
with_cpu k h = record { cpu_good = h; mem_good = k.mem_good; holds_word = k.holds_word }

pub write_back-Keeps :
    (rd v : ℕ) {m : Machine} → IsMachine m → IsU32 v → Keeps (some (write_back rd v m))
write_back-Keeps rd v k hv = with_cpu k (reg_write-IsCpu rd v k.cpu_good hv)

-- A load is defined, and a loaded value has 32 bits.
abbrev pub LoadFits : Option (CpuStatus × ℕ) → Type 0
LoadFits none = ⊥
LoadFits (some (status, v)) = IsU32 v

LoadFits-if :
    (b : Bool) (x y : Option (CpuStatus × ℕ))
    → LoadFits x
    → LoadFits y
    → LoadFits (if b then x else y)
LoadFits-if true x y hx hy = hx
LoadFits-if false x y hx hy = hy

LoadFits-loaded :
    (adjust : ℕ → ℕ) (r : MemoryStatus × ℕ) → IsU32 (adjust r.1) → LoadFits (some (loaded adjust r))
LoadFits-loaded adjust (mem_ok, v) h = h
LoadFits-loaded adjust (mem_read_error, v) h = omega arith
LoadFits-loaded adjust (mem_write_error, v) h = omega arith
LoadFits-loaded adjust (mem_misaligned_error, v) h = omega arith

signed_byte : (v : ℕ) → IsU32 (sign_extend (bit_and v 0xff) 8)
signed_byte v =
    rw (bit_and_mask 8 v, sign_extend-sext 7 (v % 2 ^ 8) (omega arith) (omega arith)) (ground arith)

signed_half : (v : ℕ) → IsU32 (sign_extend (bit_and v 0xffff) 16)
signed_half v =
    rw (bit_and_mask 16 v, sign_extend-sext 15 (v % 2 ^ 16) (omega arith) (omega arith))
      (ground arith)

pub read_result-IsU32 : (addr : ℕ) {m : Memory} → IsMemory m → IsU32 (read_result 4 m addr 0).1
unfolding read_result
read_result-IsU32 a {m} k = ground (
  arith,
  k.cells_fit a,
  k.cells_fit (a + 1),
  k.cells_fit (a + 1 + 1),
  k.cells_fit (a + 1 + 1 + 1),
)

module _ {m : Machine} (good : IsMachine m) (d : Instruction) where
  abbrev load_at : ℕ
  load_at = add32 (reg_read m.cpu d.rs1) d.imm

  pub execute_load-LoadFits : LoadFits (execute_load m.mem m.cpu d)
  unfolding execute_load
  execute_load-LoadFits =
      let k = good.mem_good in
      let r1 = read_result 1 m.mem load_at 0 in
      let r2 = read_result 2 m.mem load_at 0 in
      let r4 = read_result 4 m.mem load_at 0 in
      rw
        (
          read8-read_result k load_at 0 (omega arith),
          read16-read_result k load_at 0 (omega arith) (omega (arith, good.holds_word)),
          read32-read_result k load_at 0 (omega arith) good.holds_word,
        )
        (LoadFits-if (d.funct3 == 0) _ _
          (LoadFits-loaded (λ v. sign_extend (bit_and v 0xff) 8) r1 (signed_byte r1.1))
          (LoadFits-if (d.funct3 == 1) _ _
            (LoadFits-loaded (λ v. sign_extend (bit_and v 0xffff) 16) r2 (signed_half r2.1))
            (LoadFits-if (d.funct3 == 2) _ _
              (LoadFits-loaded (λ v. v) r4 (read_result-IsU32 load_at k))
              (LoadFits-if (d.funct3 == 4) _ _
                (LoadFits-loaded (λ v. bit_and v 0xff) r1 (omega (arith, bit_and_mask 8 r1.1)))
                (LoadFits-if (d.funct3 == 5) _ _
                  (LoadFits-loaded (λ v. bit_and v 0xffff) r2 (omega (arith, bit_and_mask 16 r2.1)))
                  (omega arith))))))

pub load_back-Keeps :
    (rd : ℕ) {m : Machine} (o : Option (CpuStatus × ℕ))
    → IsMachine m
    → LoadFits o
    → Keeps (o >>= λ r. some (load_back rd m r))
load_back-Keeps rd none k h = h
load_back-Keeps rd (some (cpu_ok, v)) k h = write_back-Keeps rd v k h
load_back-Keeps rd (some (status, v)) k h = k
