-- ===== src/Assembler/Instructions.antt =====
-- assembler/src/second_pass.cpp: `encode_instruction`.
pub mod Mnemonics
pub mod Execution
pub mod Branching
pub mod Immediate
pub mod Accesses
use riscv_student_pack.Common.{
  ℕ, Bool, true, false, List, [], ◌∷◌, Option, none, some, bit_and, shl32, sub32, if◌then◌else◌,
  codes,
}
use riscv_student_pack.Memory.{◌>>=◌}
use riscv_student_pack.Encoder.{encode_r, encode_i, encode_s, encode_b, encode_u, encode_j}
use riscv_student_pack.Assembler.Chars.{str_eq}
use riscv_student_pack.Assembler.Registers.{reg_num}
use riscv_student_pack.Assembler.Immediates.{Label, parse_imm}

-- What a branch of the chain encodes, with the constants that it passes.
pub data Form : Type 0 where
  reg_form shift_form : (funct7 funct3 : ℕ) → Form
  imm_form load_form store_form branch_form : (funct3 : ℕ) → Form
  jal_form jalr_form : Form
  upper_form : (opcode : ℕ) → Form
  system_form : (imm : ℕ) → Form

-- The chain of `strcmp` tests on the mnemonic.
abbrev pub forms : List (List ℕ × Form)
forms =
    (codes "add", reg_form 0x00 0x0)
    ∷ (codes "sub", reg_form 0x20 0x0)
    ∷ (codes "sll", reg_form 0x00 0x1)
    ∷ (codes "slt", reg_form 0x00 0x2)
    ∷ (codes "sltu", reg_form 0x00 0x3)
    ∷ (codes "xor", reg_form 0x00 0x4)
    ∷ (codes "srl", reg_form 0x00 0x5)
    ∷ (codes "sra", reg_form 0x20 0x5)
    ∷ (codes "or", reg_form 0x00 0x6)
    ∷ (codes "and", reg_form 0x00 0x7)
    ∷ (codes "mul", reg_form 0x01 0x0)
    ∷ (codes "mulh", reg_form 0x01 0x1)
    ∷ (codes "mulhsu", reg_form 0x01 0x2)
    ∷ (codes "mulhu", reg_form 0x01 0x3)
    ∷ (codes "div", reg_form 0x01 0x4)
    ∷ (codes "divu", reg_form 0x01 0x5)
    ∷ (codes "rem", reg_form 0x01 0x6)
    ∷ (codes "remu", reg_form 0x01 0x7)
    ∷ (codes "addi", imm_form 0x0)
    ∷ (codes "slti", imm_form 0x2)
    ∷ (codes "sltiu", imm_form 0x3)
    ∷ (codes "xori", imm_form 0x4)
    ∷ (codes "ori", imm_form 0x6)
    ∷ (codes "andi", imm_form 0x7)
    ∷ (codes "slli", shift_form 0x00 0x1)
    ∷ (codes "srli", shift_form 0x00 0x5)
    ∷ (codes "srai", shift_form 0x20 0x5)
    ∷ (codes "lb", load_form 0x0)
    ∷ (codes "lh", load_form 0x1)
    ∷ (codes "lw", load_form 0x2)
    ∷ (codes "lbu", load_form 0x4)
    ∷ (codes "lhu", load_form 0x5)
    ∷ (codes "sb", store_form 0x0)
    ∷ (codes "sh", store_form 0x1)
    ∷ (codes "sw", store_form 0x2)
    ∷ (codes "beq", branch_form 0x0)
    ∷ (codes "bne", branch_form 0x1)
    ∷ (codes "blt", branch_form 0x4)
    ∷ (codes "bge", branch_form 0x5)
    ∷ (codes "bltu", branch_form 0x6)
    ∷ (codes "bgeu", branch_form 0x7)
    ∷ (codes "jal", jal_form)
    ∷ (codes "jalr", jalr_form)
    ∷ (codes "lui", upper_form 0x37)
    ∷ (codes "auipc", upper_form 0x17)
    ∷ (codes "ecall", system_form 0x000)
    ∷ (codes "ebreak", system_form 0x001)
    ∷ []

unfoldable pub find_form : List ℕ → List (List ℕ × Form) → Option Form
unfolding str_eq
find_form op [] = none
find_form op ((name, form) ∷ rest) = if str_eq op name then some form else find_form op rest

-- The body of a branch of the chain.
unfoldable pub encode_form : List Label → (current_pc : ℕ) → Form → (a1 a2 a3 : List ℕ) → Option ℕ
encode_form labels pc (reg_form funct7 funct3) a1 a2 a3 =
    some (encode_r funct7 (reg_num a3) (reg_num a2) funct3 (reg_num a1) 0x33)
encode_form labels pc (shift_form funct7 funct3) a1 a2 a3 = do
  imm ← parse_imm labels a3
  some (encode_r funct7 (bit_and imm 0x1f) (reg_num a2) funct3 (reg_num a1) 0x13)
encode_form labels pc (imm_form funct3) a1 a2 a3 = do
  imm ← parse_imm labels a3
  some (encode_i imm (reg_num a2) funct3 (reg_num a1) 0x13)
encode_form labels pc (load_form funct3) a1 a2 a3 = do
  imm ← parse_imm labels a2
  some (encode_i imm (reg_num a3) funct3 (reg_num a1) 0x03)
encode_form labels pc (store_form funct3) a1 a2 a3 = do
  imm ← parse_imm labels a2
  some (encode_s imm (reg_num a1) (reg_num a3) funct3 0x23)
encode_form labels pc (branch_form funct3) a1 a2 a3 = do
  target ← parse_imm labels a3
  some (encode_b (sub32 target pc) (reg_num a2) (reg_num a1) funct3 0x63)
encode_form labels pc jal_form a1 a2 a3 = do
  target ← parse_imm labels a2
  some (encode_j (sub32 target pc) (reg_num a1) 0x6f)
encode_form labels pc jalr_form a1 a2 a3 = do
  imm ← parse_imm labels a3
  some (encode_i imm (reg_num a2) 0x0 (reg_num a1) 0x67)
encode_form labels pc (upper_form opcode) a1 a2 a3 = do
  imm ← parse_imm labels a2
  some (encode_u (shl32 imm 12) (reg_num a1) opcode)
encode_form labels pc (system_form imm) a1 a2 a3 = some (encode_i imm 0x00 0x0 0x00 0x73)

-- `Assembler::encode_instruction`
unfoldable pub encode_instruction :
    List Label → (current_pc : ℕ) → (op a1 a2 a3 : List ℕ) → Option ℕ
encode_instruction labels pc op a1 a2 a3 = do
  form ← find_form op forms
  encode_form labels pc form a1 a2 a3
