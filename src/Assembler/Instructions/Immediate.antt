-- ===== src/Assembler/Instructions/Immediate.antt =====
-- The assembler's `encode_instruction` (assembler/src/second_pass.cpp) against `CPU::step`
-- (emulator/src/cpu.cpp), for the instructions on a register and a number.
use riscv_student_pack.Common.{
  ℕ, ◌+◌, ◌*◌, ◌/◌, ◌%◌, ◌^◌, ◌<◌, ◌≡◌, refl, ap, ◌∙◌, true, List, some, ltb, ◌==◌, ◌||◌,
  if◌then◌else◌, codes, sra32, FitsSigned, bit_and, bit_or, bit_xor, arith, signed32, ltb_ℤ, inl,
  inr,
}
use riscv_student_pack.Common.Bits.{bit_and_mask}
use riscv_student_pack.Memory.{read32}
use riscv_student_pack.Encoder.{encode_r, encode_i}
use riscv_student_pack.Encoder.Sums.{encode_r-eq-sum, encode_i-eq-sum}
use riscv_student_pack.Encoder.RoundTrip.{decode-encode_i}
use riscv_student_pack.Cpu.State.{Machine, Kernel, reg_read}
use riscv_student_pack.Cpu.Alu.{execute_alu}
use riscv_student_pack.Cpu.Exec.{run_decoded, execute, execute_i, write_back, step}
use riscv_student_pack.Cpu.Exec.Invariant.{advanced, step-fetched}
use riscv_student_pack.Assembler.Registers.{reg_num}
use riscv_student_pack.Assembler.Immediates.{Label, parse_imm}
use riscv_student_pack.Assembler.Instructions.{
  Form, encode_instruction, find_form, encode_form, forms, imm_form, shift_form,
}
use riscv_student_pack.Assembler.Instructions.Execution.{emitted}

pub data ImmediateMnemonic : Type 0 where
  addi slti sltiu xori ori andi slli srli srai : ImmediateMnemonic

abbrev pub immediate_name : ImmediateMnemonic → List ℕ
immediate_name addi = codes "addi"
immediate_name slti = codes "slti"
immediate_name sltiu = codes "sltiu"
immediate_name xori = codes "xori"
immediate_name ori = codes "ori"
immediate_name andi = codes "andi"
immediate_name slli = codes "slli"
immediate_name srli = codes "srli"
immediate_name srai = codes "srai"

-- The instruction set's meaning of each, by the register's pattern and the number's.
abbrev pub immediate_meaning : ImmediateMnemonic → ℕ → ℕ → ℕ
immediate_meaning addi a v = (a + v) % 2 ^ 32
immediate_meaning slti a v = if ltb_ℤ (signed32 a) (signed32 v) then 1 else 0
immediate_meaning sltiu a v = if ltb a v then 1 else 0
immediate_meaning xori a v = bit_xor a v
immediate_meaning ori a v = bit_or a v
immediate_meaning andi a v = bit_and a v
immediate_meaning slli a v = a * 2 ^ v % 2 ^ 32
immediate_meaning srli a v = a / 2 ^ v
immediate_meaning srai a v = sra32 a v

-- The numbers that the instruction's field holds.
abbrev pub IsImmediate : ImmediateMnemonic → ℕ → Type 0
IsImmediate slli v = v < 32
IsImmediate srli v = v < 32
IsImmediate srai v = v < 32
IsImmediate _ v = FitsSigned 12 v

abbrev pub immediate_code : ImmediateMnemonic → ℕ
immediate_code addi = 0
immediate_code slti = 2
immediate_code sltiu = 3
immediate_code xori = 4
immediate_code ori = 6
immediate_code andi = 7
immediate_code slli = 1
immediate_code srli = 5
immediate_code srai = 5

-- The field: an arithmetic shift has its bit above the number.
abbrev pub immediate_field : ImmediateMnemonic → ℕ → ℕ
immediate_field srai v = 0x400 + v
immediate_field _ v = v

pub immediate_code-lt : (op : ImmediateMnemonic) → immediate_code op < 8
immediate_code-lt addi = omega arith
immediate_code-lt slti = omega arith
immediate_code-lt sltiu = omega arith
immediate_code-lt xori = omega arith
immediate_code-lt ori = omega arith
immediate_code-lt andi = omega arith
immediate_code-lt slli = omega arith
immediate_code-lt srli = omega arith
immediate_code-lt srai = omega arith

field-FitsSigned :
    (op : ImmediateMnemonic) (v : ℕ) → IsImmediate op v → FitsSigned 12 (immediate_field op v)
field-FitsSigned addi v h = h
field-FitsSigned slti v h = h
field-FitsSigned sltiu v h = h
field-FitsSigned xori v h = h
field-FitsSigned ori v h = h
field-FitsSigned andi v h = h
field-FitsSigned slli v h = inl (omega (arith, h))
field-FitsSigned srli v h = inl (omega (arith, h))
field-FitsSigned srai v h = inl (omega (arith, h))

-- Which branch of the chain encodes each.
abbrev form_of : ImmediateMnemonic → Form
form_of slli = shift_form 0 1
form_of srli = shift_form 0 5
form_of srai = shift_form 0x20 5
form_of op = imm_form (immediate_code op)

find_form-immediate :
    (op : ImmediateMnemonic) → find_form (immediate_name op) forms ≡ some (form_of op)
unfolding find_form
find_form-immediate addi = refl
find_form-immediate slti = refl
find_form-immediate sltiu = refl
find_form-immediate xori = refl
find_form-immediate ori = refl
find_form-immediate andi = refl
find_form-immediate slli = refl
find_form-immediate srli = refl
find_form-immediate srai = refl

-- A shift's word has the fields of a register instruction.
shift_word :
    (rs1 funct3 rd funct7 v field : ℕ)
    → rs1 < 32
    → funct3 < 8
    → rd < 32
    → funct7 < 64
    → v < 32
    → field ≡ funct7 * 32 + v
    → encode_r funct7 (bit_and v 0x1f) rs1 funct3 rd 0x13 ≡ encode_i field rs1 funct3 rd 0x13
shift_word rs1 funct3 rd funct7 v field h1 h3 hd h7 hv e = rw (bit_and_mask 5 v) (
    encode_r-eq-sum rs1 funct3 0x13 h1 h3 (omega arith) funct7 (v % 2 ^ 5) rd (omega arith)
      (omega arith) hd
    ∙ omega (arith, hv, e, encode_i-eq-sum rs1 funct3 0x13 h1 h3 (omega arith) field rd hd))

module _ (labels : List Label) (pc v : ℕ) (a b p : List ℕ) (ha : reg_num a < 32)
    (hb : reg_num b < 32) (reads : parse_imm labels p ≡ some v) where
  encode_form-immediate :
      (op : ImmediateMnemonic)
      → IsImmediate op v
      → encode_form labels pc (form_of op) a b p
        ≡ some (encode_i (immediate_field op v) (reg_num b) (immediate_code op) (reg_num a) 0x13)
  unfolding encode_form
  encode_form-immediate addi h = rw reads refl
  encode_form-immediate slti h = rw reads refl
  encode_form-immediate sltiu h = rw reads refl
  encode_form-immediate xori h = rw reads refl
  encode_form-immediate ori h = rw reads refl
  encode_form-immediate andi h = rw reads refl
  encode_form-immediate slli h = rw reads (
      ap some (
        shift_word (reg_num b) 1 (reg_num a) 0 v v hb (omega arith) ha (omega arith) h
          (omega arith)))
  encode_form-immediate srli h = rw reads (
      ap some (
        shift_word (reg_num b) 5 (reg_num a) 0 v v hb (omega arith) ha (omega arith) h
          (omega arith)))
  encode_form-immediate srai h = rw reads (
      ap some (
        shift_word (reg_num b) 5 (reg_num a) 0x20 v (0x400 + v) hb (omega arith) ha (omega arith) h
          (omega arith)))

  pub encode_instruction-immediate :
      (op : ImmediateMnemonic)
      → IsImmediate op v
      → encode_instruction labels pc (immediate_name op) a b p
        ≡ some (encode_i (immediate_field op v) (reg_num b) (immediate_code op) (reg_num a) 0x13)
  unfolding encode_instruction
  encode_instruction-immediate op h = rw (find_form-immediate op) (encode_form-immediate op h)

-- What `case INSTR_I_TYPE` computes under opcode 0x13.
abbrev computed : (a field funct3 : ℕ) → ℕ
computed a field funct3 =
    execute_alu a field funct3
      (if funct3 == 0x1 || funct3 == 0x5 then bit_and (sra32 field 5) 0x7f else 0) true

computed-meaning :
    (op : ImmediateMnemonic) (a v : ℕ)
    → IsImmediate op v
    → computed a (immediate_field op v) (immediate_code op) ≡ immediate_meaning op a v
unfolding execute_alu
computed-meaning addi a v h = refl
computed-meaning slti a v h = refl
computed-meaning sltiu a v h = refl
computed-meaning xori a v h = refl
computed-meaning ori a v h = refl
computed-meaning andi a v h = refl
computed-meaning slli a v h =
    let low : v % 2 ^ 5 ≡ v = omega (arith, h) in rw (bit_and_mask 5 v, low) refl
computed-meaning srli a v h =
    let low : v % 2 ^ 5 ≡ v = omega (arith, h) in
    let high : sra32 v 5 ≡ 0 = ground (arith, h) in rw (high, bit_and_mask 5 v, low) refl
computed-meaning srai a v h =
    let low : (1024 + v) % 2 ^ 5 ≡ v = omega (arith, h) in
    let high : sra32 (1024 + v) 5 ≡ 32 = ground (arith, h) in
    rw (high, bit_and_mask 5 (1024 + v), low) refl

-- If the word at the program counter is what `encode_instruction` makes of an immediate mnemonic,
-- two operands that name registers and one that `parse_imm` reads as a number that the field
-- holds, `CPU::step` puts into the destination register what the instruction set says of the
-- source and the number, goes on to the next word, and changes nothing else.
pub step-encode_immediate :
    (k : Kernel) (m : Machine) (op : ImmediateMnemonic) (labels : List Label) (v : ℕ)
    (a b p : List ℕ)
    → m.cpu.running ≡ true
    → reg_num a < 32
    → reg_num b < 32
    → parse_imm labels p ≡ some v
    → IsImmediate op v
    → read32 m.mem m.cpu.pc 0
      ≡ emitted (encode_instruction labels m.cpu.pc (immediate_name op) a b p)
    → step k m
      ≡ some (
          write_back (reg_num a) (immediate_meaning op (reg_read m.cpu (reg_num b)) v) (advanced m))
unfolding execute execute_i reg_read
step-encode_immediate k m op labels v a b p runs ha hb reads h at =
    step-fetched k m runs
      (at ∙ ap emitted (encode_instruction-immediate labels m.cpu.pc v a b p ha hb reads op h))
    ∙ ap (run_decoded k (advanced m)) (
        decode-encode_i (immediate_field op v) (reg_num b) (immediate_code op) (reg_num a) 0x13
          (field-FitsSigned op v h) hb (immediate_code-lt op) ha (inr (inl refl)))
    ∙ ap (λ n. some (write_back (reg_num a) n (advanced m)))
        (computed-meaning op (reg_read m.cpu (reg_num b)) v h)
