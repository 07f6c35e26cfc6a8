-- ===== src/Cpu/Exec/Stores.antt =====
-- cpu.cpp: `execute_store` and the invariant of the machine.
use riscv_student_pack.Common.{
  ℕ, ◌≡◌, refl, Bool, true, false, Option, none, some, ◌==◌, if◌then◌else◌, bit_and, add32, arith,
}
use riscv_student_pack.Common.Bits.{bit_and_mask}
use riscv_student_pack.Memory.{
  Memory, MemoryStatus, IsMemory, mem_ok, mem_read_error, mem_write_error, mem_misaligned_error,
}
use riscv_student_pack.Memory.RoundTrip.{
  write_result, write8-write_result, write16-write_result, write32-write_result,
  write_result-SameOutside, write_result-IsMemory,
}
use riscv_student_pack.Instruction.{Instruction}
use riscv_student_pack.Cpu.State.{Machine, CpuStatus, reg_read, IsMachine}
use riscv_student_pack.Cpu.Exec.{stored, execute_store}

-- The outcome is defined, and its memory is in good order and has the size of `m`.
abbrev pub StoreKeeps : Memory → Option (CpuStatus × Memory) → Type 0
StoreKeeps m none = ⊥
StoreKeeps m (some (status, m')) = IsMemory m' × (m'.size ≡ m.size)

StoreKeeps-if :
    (m : Memory) (b : Bool) (x y : Option (CpuStatus × Memory))
    → StoreKeeps m x
    → StoreKeeps m y
    → StoreKeeps m (if b then x else y)
StoreKeeps-if m true x y hx hy = hx
StoreKeeps-if m false x y hx hy = hy

StoreKeeps-stored :
    (m : Memory) (r : MemoryStatus × Memory)
    → IsMemory r.1 × (r.1.size ≡ m.size)
    → StoreKeeps m (some (stored r))
StoreKeeps-stored m (mem_ok, m') h = h
StoreKeeps-stored m (mem_read_error, m') h = h
StoreKeeps-stored m (mem_write_error, m') h = h
StoreKeeps-stored m (mem_misaligned_error, m') h = h

written-keeps :
    (n addr v : ℕ) {m : Memory}
    → IsMemory m
    → IsMemory (write_result n addr v m).1 × ((write_result n addr v m).1.size ≡ m.size)
written-keeps n addr v {m} k = (
  write_result-IsMemory n addr v {s = (write_result n addr v m).0} refl k,
  (write_result-SameOutside n addr v {s = (write_result n addr v m).0} refl).same_size,
)

module _ {m : Machine} (good : IsMachine m) (d : Instruction) where
  abbrev store_at : ℕ
  store_at = add32 (reg_read m.cpu d.rs1) d.imm

  abbrev value : ℕ
  value = reg_read m.cpu d.rs2

  pub execute_store-StoreKeeps : StoreKeeps m.mem (execute_store m.mem m.cpu d)
  unfolding execute_store
  execute_store-StoreKeeps =
      let k = good.mem_good in
      let b = bit_and value 0xff in
      let h = bit_and value 0xffff in
      rw
        (
          write8-write_result m.mem store_at b k.size_fits (omega arith)
              (omega (arith, bit_and_mask 8 value)),
          write16-write_result m.mem store_at h k.size_fits (omega arith)
              (omega (arith, good.holds_word)),
          write32-write_result m.mem store_at value k.size_fits (omega arith) good.holds_word,
        )
        (StoreKeeps-if m.mem (d.funct3 == 0) _ _
          (StoreKeeps-stored m.mem _ (written-keeps 1 store_at b k))
          (StoreKeeps-if m.mem (d.funct3 == 1) _ _
            (StoreKeeps-stored m.mem _ (written-keeps 2 store_at h k))
            (StoreKeeps-if m.mem (d.funct3 == 2) _ _
              (StoreKeeps-stored m.mem _ (written-keeps 4 store_at value k)) (k, refl))))
