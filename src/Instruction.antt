-- ===== src/Instruction.antt =====
-- emulator/include/instructions.hpp and emulator/src/instructions.cpp: instruction decoding.
-- Casts to `uint8_t` of values that a mask keeps below 256 are left out.
pub mod Fields
use riscv_student_pack.Common.{
  ℕ, ◌-◌, ◌==◌, ◌||◌, Option, none, some, bit_and, bit_or, bit_xor, leb, if◌then◌else◌, sub32,
  shl32, shr,
}

-- `instr_format_t`
pub data InstrFormat : Type 0 where
  instr_r_type instr_i_type instr_s_type instr_b_type instr_u_type instr_j_type : InstrFormat

pub record Instruction : Type 0 where
  pub format : InstrFormat
  pub raw : ℕ
  pub imm : ℕ
  pub opcode : ℕ
  pub rd : ℕ
  pub rs1 : ℕ
  pub rs2 : ℕ
  pub funct3 : ℕ
  pub funct7 : ℕ

unfoldable pub sign_extend : ℕ → ℕ → ℕ
sign_extend value bits =
    if bits == 0 || leb 32 bits
    then value
    else let mask = shl32 1 (bits - 1) in sub32 (bit_xor value mask) mask

unfoldable pub extract_b_imm : ℕ → ℕ
extract_b_imm instruction =
    let imm =
      bit_or
        (bit_or
          (bit_or (shl32 (bit_and (shr instruction 31) 0x1) 12)
            (shl32 (bit_and (shr instruction 7) 0x1) 11))
          (shl32 (bit_and (shr instruction 25) 0x3f) 5))
        (shl32 (bit_and (shr instruction 8) 0xf) 1) in
    sign_extend imm 13

unfoldable pub extract_j_imm : ℕ → ℕ
extract_j_imm instruction =
    let imm =
      bit_or
        (bit_or
          (bit_or (shl32 (bit_and (shr instruction 31) 0x1) 20)
            (shl32 (bit_and (shr instruction 12) 0xff) 12))
          (shl32 (bit_and (shr instruction 20) 0x1) 11))
        (shl32 (bit_and (shr instruction 21) 0x3ff) 1) in
    sign_extend imm 21

unfoldable pub extract_s_imm : ℕ → ℕ
extract_s_imm instruction =
    sign_extend
      (bit_or (shl32 (bit_and (shr instruction 25) 0x7f) 5) (bit_and (shr instruction 7) 0x1f)) 12

-- The `switch (opcode)` of `Instruction::decode`; `none` is the `default` branch.
unfoldable pub decode_format : ℕ → ℕ → Option (InstrFormat × ℕ)
decode_format opcode instruction =
    if opcode == 0x33
    then some (instr_r_type, 0)
    else if opcode == 0x03 || (opcode == 0x13 || (opcode == 0x67 || opcode == 0x73))
    then some (instr_i_type, sign_extend (bit_and (shr instruction 20) 0xfff) 12)
    else if opcode == 0x23
    then some (instr_s_type, extract_s_imm instruction)
    else if opcode == 0x63
    then some (instr_b_type, extract_b_imm instruction)
    else if opcode == 0x37 || opcode == 0x17
    then some (instr_u_type, bit_and instruction 0xfffff000)
    else if opcode == 0x6f
    then some (instr_j_type, extract_j_imm instruction)
    else none

-- The object after the `switch`, from the fields read before it.
abbrev pub decoded :
    (raw opcode rd funct3 rs1 rs2 funct7 : ℕ) → Option (InstrFormat × ℕ) → Option Instruction
decoded raw opcode rd funct3 rs1 rs2 funct7 none = none
decoded raw opcode rd funct3 rs1 rs2 funct7 (some (format, imm)) = some (record {
  format = format;
  raw = raw;
  imm = imm;
  opcode = opcode;
  rd = rd;
  rs1 = rs1;
  rs2 = rs2;
  funct3 = funct3;
  funct7 = funct7;
})

-- `Instruction::decode`; `none` is the return value `false`.
unfoldable pub decode : ℕ → Option Instruction
decode instruction =
    decoded instruction (bit_and instruction 0x7f) (bit_and (shr instruction 7) 0x1f)
      (bit_and (shr instruction 12) 0x7) (bit_and (shr instruction 15) 0x1f)
      (bit_and (shr instruction 20) 0x1f) (bit_and (shr instruction 25) 0x7f)
      (decode_format (bit_and instruction 0x7f) instruction)
