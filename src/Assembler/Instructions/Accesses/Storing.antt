-- ===== src/Assembler/Instructions/Accesses/Storing.antt =====
-- `encode_instruction` (assembler/src/second_pass.cpp) and the stores of `CPU::step`
-- (emulator/src/cpu.cpp).
use riscv_student_pack.Common.{
  ℕ, ◌+◌, ◌/◌, ◌%◌, ◌^◌, ◌<◌, ◌≤◌, ◌≡◌, refl, ap, ◌∙◌, true, false, List, some, leb, ltb, ◌==◌,
  if◌then◌else◌, add32, FitsSigned, bit_and, arith, inl, inr, Bool-cases,
}
use riscv_student_pack.Common.Bits.{bit_and_mask}
use riscv_student_pack.Memory.{Memory, IsMemory, mem_ok, read32, update, ◌>>=◌}
use riscv_student_pack.Memory.RoundTrip.{
  put_bytes, write_result, write8-write_result, write16-write_result, write32-write_result,
}
use riscv_student_pack.Instruction.{Instruction}
use riscv_student_pack.Encoder.{encode_s}
use riscv_student_pack.Encoder.RoundTrip.{decode-encode_s}
use riscv_student_pack.Cpu.State.{
  Machine, Kernel, CpuStatus, cpu_ok, cpu_execution_error, reg_read, IsMachine,
}
use riscv_student_pack.Cpu.Exec.{run_decoded, execute, execute_store, stored, step}
use riscv_student_pack.Cpu.Exec.Invariant.{advanced, step-fetched}
use riscv_student_pack.Assembler.Registers.{reg_num}
use riscv_student_pack.Assembler.Immediates.{Label, parse_imm}
use riscv_student_pack.Assembler.Instructions.{encode_instruction, encode_form}
use riscv_student_pack.Assembler.Instructions.Execution.{emitted}
use riscv_student_pack.Assembler.Instructions.Accesses.{
  Store, sb, sh, sw, store_name, store_code, accessible, store_meaning, find_form-store,
  store_code-lt,
}

-- The end of `case INSTR_S_TYPE`.
abbrev passed_on : Machine → CpuStatus × Memory → CpuStatus × Machine
passed_on m r = (r.0, record m { mem = r.1 })

module _ (m : Machine) (d : Instruction) (good : IsMemory m.mem) (large : 4 ≤ m.mem.size) where
  abbrev addr : ℕ
  addr = add32 (reg_read m.cpu d.rs1) d.imm

  abbrev word_value : ℕ
  word_value = reg_read m.cpu d.rs2

  -- The outcome of a write as `execute` passes it on.
  write-accessible :
      (n v w : ℕ)
      → put_bytes n addr v m.mem.data_at ≡ put_bytes n addr w m.mem.data_at
      → passed_on m (stored (write_result n addr v m.mem)) ≡ (
          if accessible n m.mem addr
          then (
            cpu_ok,
            record m { mem = record (m.mem) { data_at = put_bytes n addr w m.mem.data_at } },
          )
          else (cpu_execution_error, m))
  unfolding write_result
  write-accessible n v w e = elim (Bool-cases (addr % n == 0)) [
    | inr odd ↦ rw odd refl
    | inl even ↦ elim (Bool-cases (leb (addr + n) m.mem.size)) [
      | inl inside ↦
          let below : ltb m.mem.size (addr + n) ≡ false = ground (arith, inside) in
          rw (even, inside, below, e) refl
      | inr outside ↦
          let above : ltb m.mem.size (addr + n) ≡ true = ground (arith, outside) in
          rw (even, outside, above) refl
    ]
  ]

  low_half :
      (v : ℕ) → put_bytes 2 addr (bit_and v 0xffff) m.mem.data_at ≡ put_bytes 2 addr v m.mem.data_at
  low_half v =
      let mask = bit_and_mask 16 v in
      let low : bit_and v 0xffff % 2 ^ 8 ≡ v % 2 ^ 8 = omega (arith, mask) in
      let high : bit_and v 0xffff / 2 ^ 8 % 2 ^ 8 ≡ v / 2 ^ 8 % 2 ^ 8 = omega (arith, mask) in
      λ i. update (update m.mem.data_at addr (low i)) (addr + 1) (high i)

  execute_store-meaning :
      (op : Store)
      → d.funct3 ≡ store_code op
      → (do (status, mem') ← execute_store m.mem m.cpu d; some (status, record m { mem = mem' }))
        ≡ some (store_meaning op addr word_value m)
  unfolding execute_store
  execute_store-meaning sb e =
      let v = reg_read m.cpu d.rs2 in
      rw
        (
          e,
          write8-write_result m.mem addr (bit_and v 0xff) good.size_fits (omega arith)
              (omega (arith, bit_and_mask 8 v)),
        )
        (ap some (
          write-accessible 1 (bit_and v 0xff) v
            (ap (λ c. update m.mem.data_at addr c) (omega (arith, bit_and_mask 8 v)))))
  execute_store-meaning sh e =
      let v = reg_read m.cpu d.rs2 in
      rw
        (
          e,
          write16-write_result m.mem addr (bit_and v 0xffff) good.size_fits (omega arith)
              (omega (arith, large)),
        )
        (ap some (write-accessible 2 (bit_and v 0xffff) v (low_half v)))
  execute_store-meaning sw e =
      let v = reg_read m.cpu d.rs2 in
      rw (e, write32-write_result m.mem addr v good.size_fits (omega arith) large)
        (ap some (write-accessible 4 v v refl))

pub encode_instruction-store :
    (op : Store) (labels : List Label) (pc v : ℕ) (a s b : List ℕ)
    → parse_imm labels s ≡ some v
    → encode_instruction labels pc (store_name op) a s b
      ≡ some (encode_s v (reg_num a) (reg_num b) (store_code op) 0x23)
unfolding encode_instruction encode_form
encode_instruction-store op labels pc v a s b reads = rw (find_form-store op, reads) refl

-- If the word at the program counter is what `encode_instruction` makes of a store of a named
-- register, with an offset that `parse_imm` reads and 12 bits hold and a named base register,
-- `CPU::step` goes on to the next word, and when the sum of base and offset is a multiple of the
-- width and its bytes lie inside the memory, it puts the low bytes of the register there, lowest
-- first, and changes nothing else; otherwise it reports an execution error and changes nothing.
pub step-encode_store :
    (k : Kernel) (m : Machine) (op : Store) (labels : List Label) (v : ℕ) (a s b : List ℕ)
    → IsMachine m
    → m.cpu.running ≡ true
    → reg_num a < 32
    → reg_num b < 32
    → parse_imm labels s ≡ some v
    → FitsSigned 12 v
    → read32 m.mem m.cpu.pc 0 ≡ emitted (encode_instruction labels m.cpu.pc (store_name op) a s b)
    → step k m
      ≡ some (
          store_meaning op
            (add32 (reg_read m.cpu (reg_num b)) v)
            (reg_read m.cpu (reg_num a))
            (advanced m))
unfolding execute reg_read
step-encode_store k m op labels v a s b good runs ha hb reads fits at =
    let word : emitted (encode_instruction labels m.cpu.pc (store_name op) a s b)
        ≡ some (mem_ok, encode_s v (reg_num a) (reg_num b) (store_code op) 0x23) =
      ap emitted (encode_instruction-store op labels m.cpu.pc v a s b reads) in
    step-fetched k m runs (at ∙ word)
    ∙ ap (run_decoded k (advanced m))
        (decode-encode_s v (reg_num a) (reg_num b) (store_code op) fits ha hb (store_code-lt op))
    ∙ execute_store-meaning (advanced m) _ good.mem_good good.holds_word op refl
