-- ===== src/Assembler/Instructions/Execution.antt =====
-- The assembler's `encode_instruction` (assembler/src/second_pass.cpp) against `CPU::step`
-- (emulator/src/cpu.cpp), for the register instructions.
use riscv_student_pack.Common.{
  ℕ, ◌<◌, ◌≡◌, refl, ap, ◌∙◌, Bool, true, false, List, Option, some, ◌==◌, if◌then◌else◌, IsU32,
  arith,
}
use riscv_student_pack.Common.Bits.{bit_and_mask}
use riscv_student_pack.Memory.{MemoryStatus, mem_ok, read32, ◌>>=◌}
use riscv_student_pack.Instruction.{Instruction}
use riscv_student_pack.Encoder.{encode_r}
use riscv_student_pack.Encoder.RoundTrip.{decode-encode_r}
use riscv_student_pack.Cpu.State.{Machine, Kernel, reg_read, IsMachine}
use riscv_student_pack.Cpu.Alu.{execute_alu, execute_mul_div}
use riscv_student_pack.Cpu.Alu.Meaning.{mul_lem, mulh_lem, mulhsu_lem, mulhu_lem}
use riscv_student_pack.Cpu.Alu.Rounding.{div_lem, rem_lem}
use riscv_student_pack.Cpu.Exec.{run_decoded, execute, execute_r, write_back, step}
use riscv_student_pack.Cpu.Exec.Loads.{reg_read-IsU32}
use riscv_student_pack.Cpu.Exec.Invariant.{advanced, step-fetched}
use riscv_student_pack.Assembler.Registers.{reg_num}
use riscv_student_pack.Assembler.Immediates.{Label}
use riscv_student_pack.Assembler.Instructions.Mnemonics.{
  add, sub, sll, slt, sltu, xor, srl, sra, or, and, mul, mulh, mulhsu, mulhu, div, divu, rem, remu,
  Mnemonic, name, meaning, IsDefined, funct7_of, funct3_of,
}
use riscv_student_pack.Assembler.Instructions.{
  encode_instruction, find_form, encode_form, forms, reg_form,
}

find_form-name :
    (op : Mnemonic) → find_form (name op) forms ≡ some (reg_form (funct7_of op) (funct3_of op))
unfolding find_form
find_form-name add = refl
find_form-name sub = refl
find_form-name sll = refl
find_form-name slt = refl
find_form-name sltu = refl
find_form-name xor = refl
find_form-name srl = refl
find_form-name sra = refl
find_form-name or = refl
find_form-name and = refl
find_form-name mul = refl
find_form-name mulh = refl
find_form-name mulhsu = refl
find_form-name mulhu = refl
find_form-name div = refl
find_form-name divu = refl
find_form-name rem = refl
find_form-name remu = refl

-- What `case INSTR_R_TYPE` computes.
abbrev computed : (a b funct7 funct3 : ℕ) → Option ℕ
computed a b funct7 funct3 =
    if funct7 == 1 then execute_mul_div a b funct3 else some (execute_alu a b funct3 funct7 false)

computed-meaning :
    (op : Mnemonic) (a b : ℕ)
    → IsU32 a
    → IsU32 b
    → IsDefined op a b
    → computed a b (funct7_of op) (funct3_of op) ≡ some (meaning op a b)
unfolding execute_alu execute_mul_div
computed-meaning add a b ha hb h = refl
computed-meaning sub a b ha hb h = refl
computed-meaning sll a b ha hb h = rw (bit_and_mask 5 b) refl
computed-meaning slt a b ha hb h = refl
computed-meaning sltu a b ha hb h = refl
computed-meaning xor a b ha hb h = refl
computed-meaning srl a b ha hb h = rw (bit_and_mask 5 b) refl
computed-meaning sra a b ha hb h = rw (bit_and_mask 5 b) refl
computed-meaning or a b ha hb h = refl
computed-meaning and a b ha hb h = refl
computed-meaning mul a b ha hb h = mul_lem a b ha hb
computed-meaning mulh a b ha hb h = mulh_lem a b ha hb
computed-meaning mulhsu a b ha hb h = mulhsu_lem a b ha hb
computed-meaning mulhu a b ha hb h = mulhu_lem a b ha hb
computed-meaning div a b ha hb h = div_lem a b ha hb h
computed-meaning divu a b ha hb h = ground arith
computed-meaning rem a b ha hb h = rem_lem a b ha hb h
computed-meaning remu a b ha hb h = ground arith

-- The assembler never gives up on these mnemonics.
pub encode_instruction-name :
    (op : Mnemonic) (labels : List Label) (pc : ℕ) (a1 a2 a3 : List ℕ)
    → encode_instruction labels pc (name op) a1 a2 a3
      ≡ some (encode_r (funct7_of op) (reg_num a3) (reg_num a2) (funct3_of op) (reg_num a1) 0x33)
unfolding encode_instruction encode_form
encode_instruction-name op labels pc a1 a2 a3 = rw (find_form-name op)

pub funct_fits : (op : Mnemonic) → (funct7_of op < 128) × (funct3_of op < 8)
funct_fits add = (omega arith, omega arith)
funct_fits sub = (omega arith, omega arith)
funct_fits sll = (omega arith, omega arith)
funct_fits slt = (omega arith, omega arith)
funct_fits sltu = (omega arith, omega arith)
funct_fits xor = (omega arith, omega arith)
funct_fits srl = (omega arith, omega arith)
funct_fits sra = (omega arith, omega arith)
funct_fits or = (omega arith, omega arith)
funct_fits and = (omega arith, omega arith)
funct_fits mul = (omega arith, omega arith)
funct_fits mulh = (omega arith, omega arith)
funct_fits mulhsu = (omega arith, omega arith)
funct_fits mulhu = (omega arith, omega arith)
funct_fits div = (omega arith, omega arith)
funct_fits divu = (omega arith, omega arith)
funct_fits rem = (omega arith, omega arith)
funct_fits remu = (omega arith, omega arith)

-- A successful read of the instruction that the assembler emitted.
abbrev pub emitted : Option ℕ → Option (MemoryStatus × ℕ)
emitted o = do w ← o; some (mem_ok, w)

-- `execute_r` writes back the one or the other result.
write_either :
    (b : Bool) (o : Option ℕ) (n rd : ℕ) (m : Machine) {v : ℕ}
    → (if b then o else some n) ≡ some v
    → (if b then (do result ← o; some (write_back rd result m)) else some (write_back rd n m))
      ≡ some (write_back rd v m)
write_either true o n rd m e = ap (λ q. q >>= (λ result. some (write_back rd result m))) e
write_either false o n rd m e = ap (λ q. q >>= (λ result. some (write_back rd result m))) e

execute_r-computed :
    (m : Machine) (d : Instruction) {v : ℕ}
    → computed (reg_read m.cpu d.rs1) (reg_read m.cpu d.rs2) d.funct7 d.funct3 ≡ some v
    → execute_r m d ≡ some (write_back d.rd v m)
unfolding execute_r
execute_r-computed m d e = write_either (d.funct7 == 1) _ _ d.rd m e

-- Let the word at the program counter of a running machine in good order be what
-- `encode_instruction` makes of one of the 18 R-type mnemonics of RV32IM and three operands that
-- name registers. Unless a `div` or `rem` has the operands INT32_MIN and -1, `CPU::step` puts into
-- the destination register (x0 stays 0) what the instruction set says of the two sources, goes on
-- to the next word, and changes nothing else.
pub step-encode_instruction :
    (k : Kernel) {m : Machine} (op : Mnemonic) (labels : List Label) (a1 a2 a3 : List ℕ)
    → IsMachine m
    → m.cpu.running ≡ true
    → reg_num a1 < 32
    → reg_num a2 < 32
    → reg_num a3 < 32
    → IsDefined op (reg_read m.cpu (reg_num a2)) (reg_read m.cpu (reg_num a3))
    → read32 m.mem m.cpu.pc 0 ≡ emitted (encode_instruction labels m.cpu.pc (name op) a1 a2 a3)
    → step k m
      ≡ some (
          write_back
            (reg_num a1)
            (meaning op (reg_read m.cpu (reg_num a2)) (reg_read m.cpu (reg_num a3)))
            (advanced m))
unfolding execute reg_read
step-encode_instruction k {m} op labels a1 a2 a3 good runs h1 h2 h3 defined at =
    let (f7, f3) = funct_fits op in
    let word = encode_r (funct7_of op) (reg_num a3) (reg_num a2) (funct3_of op) (reg_num a1) 0x33 in
    let here : read32 m.mem m.cpu.pc 0 ≡ some (mem_ok, word) =
      at ∙ ap emitted (encode_instruction-name op labels m.cpu.pc a1 a2 a3) in
    step-fetched k m runs here
    ∙ ap (run_decoded k (advanced m)) (
        decode-encode_r (funct7_of op) (reg_num a3) (reg_num a2) (funct3_of op) (reg_num a1) f7 h3
          h2 f3 h1)
    ∙ execute_r-computed (advanced m) _ (
        computed-meaning op (reg_read m.cpu (reg_num a2)) (reg_read m.cpu (reg_num a3))
          (reg_read-IsU32 (reg_num a2) good.cpu_good) (reg_read-IsU32 (reg_num a3) good.cpu_good)
          defined)
