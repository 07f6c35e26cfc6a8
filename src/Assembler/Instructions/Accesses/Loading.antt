-- ===== src/Assembler/Instructions/Accesses/Loading.antt =====
-- `encode_instruction` (assembler/src/second_pass.cpp) and the loads of `CPU::step`
-- (emulator/src/cpu.cpp).
use riscv_student_pack.Common.{
  ℕ, ◌+◌, ◌%◌, ◌^◌, ◌<◌, ◌≤◌, ◌≡◌, refl, ap, ◌∙◌, true, false, List, some, leb, ltb, ◌==◌,
  if◌then◌else◌, add32, sext, FitsSigned, bit_and, arith, inl, inr, Bool-cases,
}
use riscv_student_pack.Common.Bits.{bit_and_mask}
use riscv_student_pack.Memory.{IsMemory, mem_ok, read32, ◌>>=◌}
use riscv_student_pack.Memory.Access.{
  little_endian, read_result, read8-read_result, read16-read_result, read32-read_result,
}
use riscv_student_pack.Instruction.{Instruction, sign_extend}
use riscv_student_pack.Instruction.Fields.{sign_extend-sext}
use riscv_student_pack.Encoder.{encode_i}
use riscv_student_pack.Encoder.RoundTrip.{decode-encode_i}
use riscv_student_pack.Cpu.State.{Machine, Kernel, cpu_execution_error, reg_read, IsMachine}
use riscv_student_pack.Cpu.Exec.{
  run_decoded, execute, execute_i, execute_load, load_back, loaded, write_back, step,
}
use riscv_student_pack.Cpu.Exec.Invariant.{advanced, step-fetched}
use riscv_student_pack.Assembler.Registers.{reg_num}
use riscv_student_pack.Assembler.Immediates.{Label, parse_imm}
use riscv_student_pack.Assembler.Instructions.{encode_instruction, encode_form}
use riscv_student_pack.Assembler.Instructions.Execution.{emitted}
use riscv_student_pack.Assembler.Instructions.Accesses.{
  Load, lb, lh, lw, lbu, lhu, load_name, load_code, accessible, load_meaning, find_form-load,
  load_code-lt,
}

-- The outcome of a read as `load_back` takes it.
read-accessible :
    (n : ℕ) (adjust extend : ℕ → ℕ) (rd addr : ℕ) (m : Machine)
    → adjust (little_endian m.mem.data_at n addr) ≡ extend (little_endian m.mem.data_at n addr)
    → load_back rd m (loaded adjust (read_result n m.mem addr 0)) ≡ (
        if accessible n m.mem addr
        then write_back rd (extend (little_endian m.mem.data_at n addr)) m
        else (cpu_execution_error, m))
unfolding read_result
read-accessible n adjust extend rd addr m e = elim (Bool-cases (addr % n == 0)) [
  | inr odd ↦ rw odd refl
  | inl even ↦ elim (Bool-cases (leb (addr + n) m.mem.size)) [
    | inl inside ↦
        let below : ltb m.mem.size (addr + n) ≡ false = ground (arith, inside) in
        rw (even, inside, below, e) refl
    | inr outside ↦
        let above : ltb m.mem.size (addr + n) ≡ true = ground (arith, outside) in
        rw (even, outside, above) refl
  ]
]

module _ (m : Machine) (d : Instruction) (good : IsMemory m.mem) (large : 4 ≤ m.mem.size) where
  abbrev addr : ℕ
  addr = add32 (reg_read m.cpu d.rs1) d.imm

  abbrev byte : ℕ
  byte = little_endian m.mem.data_at 1 addr

  abbrev half : ℕ
  half = little_endian m.mem.data_at 2 addr

  signed_byte : sign_extend (bit_and byte 0xff) 8 ≡ sext 8 byte
  signed_byte =
      let mask : bit_and byte 0xff ≡ byte =
        bit_and_mask 8 byte ∙ omega (arith, good.cells_fit addr) in
      rw mask (sign_extend-sext 7 byte (omega arith) (omega (arith, good.cells_fit addr)))

  signed_half : sign_extend (bit_and half 0xffff) 16 ≡ sext 16 half
  signed_half =
      let fits : half < 2 ^ 16 = omega (arith, good.cells_fit addr, good.cells_fit (addr + 1)) in
      let mask : bit_and half 0xffff ≡ half = bit_and_mask 16 half ∙ omega (arith, fits) in
      rw mask (sign_extend-sext 15 half (omega arith) fits)

  execute_load-meaning :
      (op : Load)
      → d.funct3 ≡ load_code op
      → (execute_load m.mem m.cpu d >>= (λ r. some (load_back d.rd m r)))
        ≡ some (load_meaning op d.rd addr m)
  unfolding execute_load
  execute_load-meaning lb e =
      rw (e, read8-read_result good addr 0 (omega arith))
        (ap some (
          read-accessible 1 (λ v. sign_extend (bit_and v 0xff) 8) (sext 8) d.rd addr m signed_byte))
  execute_load-meaning lh e =
      rw (e, read16-read_result good addr 0 (omega arith) (omega (arith, large)))
        (ap some (
          read-accessible 2 (λ v. sign_extend (bit_and v 0xffff) 16) (sext 16) d.rd addr m
            signed_half))
  execute_load-meaning lw e =
      rw (e, read32-read_result good addr 0 (omega arith) large)
        (ap some (read-accessible 4 (λ v. v) (λ v. v) d.rd addr m refl))
  execute_load-meaning lbu e =
      rw (e, read8-read_result good addr 0 (omega arith))
        (ap some (
          read-accessible 1 (λ v. bit_and v 0xff) (λ v. v) d.rd addr m
            (bit_and_mask 8 byte ∙ omega (arith, good.cells_fit addr))))
  execute_load-meaning lhu e =
      rw (e, read16-read_result good addr 0 (omega arith) (omega (arith, large)))
        (ap some (
          read-accessible 2 (λ v. bit_and v 0xffff) (λ v. v) d.rd addr m
            (bit_and_mask 16 half ∙ omega (arith, good.cells_fit addr, good.cells_fit (addr + 1)))))

pub encode_instruction-load :
    (op : Load) (labels : List Label) (pc v : ℕ) (a s b : List ℕ)
    → parse_imm labels s ≡ some v
    → encode_instruction labels pc (load_name op) a s b
      ≡ some (encode_i v (reg_num b) (load_code op) (reg_num a) 0x03)
unfolding encode_instruction encode_form
encode_instruction-load op labels pc v a s b reads = rw (find_form-load op, reads) refl

-- If the word at the program counter is what `encode_instruction` makes of a load into a named
-- register, with an offset that `parse_imm` reads and 12 bits hold and a named base register,
-- `CPU::step` goes on to the next word, and when the sum of base and offset is a multiple of the
-- width and its bytes lie inside the memory, it puts their little-endian number, extended as the
-- instruction set says, into the register, and changes nothing else; otherwise it reports an
-- execution error and changes nothing.
pub step-encode_load :
    (k : Kernel) (m : Machine) (op : Load) (labels : List Label) (v : ℕ) (a s b : List ℕ)
    → IsMachine m
    → m.cpu.running ≡ true
    → reg_num a < 32
    → reg_num b < 32
    → parse_imm labels s ≡ some v
    → FitsSigned 12 v
    → read32 m.mem m.cpu.pc 0 ≡ emitted (encode_instruction labels m.cpu.pc (load_name op) a s b)
    → step k m
      ≡ some (load_meaning op (reg_num a) (add32 (reg_read m.cpu (reg_num b)) v) (advanced m))
unfolding execute execute_i reg_read
step-encode_load k m op labels v a s b good runs ha hb reads fits at =
    let word : emitted (encode_instruction labels m.cpu.pc (load_name op) a s b)
        ≡ some (mem_ok, encode_i v (reg_num b) (load_code op) (reg_num a) 0x03) =
      ap emitted (encode_instruction-load op labels m.cpu.pc v a s b reads) in
    step-fetched k m runs (at ∙ word)
    ∙ ap (run_decoded k (advanced m)) (
        decode-encode_i v (reg_num b) (load_code op) (reg_num a) 0x03 fits hb (load_code-lt op) ha
          (inl refl))
    ∙ execute_load-meaning (advanced m) _ good.mem_good good.holds_word op refl
