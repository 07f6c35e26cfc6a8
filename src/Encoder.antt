-- ===== src/Encoder.antt =====
-- assembler/src/encode.cpp: the static class `Encoder`. Arguments and results are 32-bit
-- patterns, also those of type `int32_t`.
pub mod Sums
pub mod Jumps
pub mod RoundTrip
use riscv_student_pack.Common.{ℕ, bit_and, bit_or, shl32, shr, sra32}

-- `a ||| b` in the order in which the source chains it.
infixl 65 ◌|||◌
abbrev pub ◌|||◌ : ℕ → ℕ → ℕ
a ||| b = bit_or a b

unfoldable pub encode_r : (funct7 rs2 rs1 funct3 rd opcode : ℕ) → ℕ
encode_r funct7 rs2 rs1 funct3 rd opcode =
    shl32 funct7 25 ||| shl32 rs2 20 ||| shl32 rs1 15 ||| shl32 funct3 12 ||| shl32 rd 7 ||| opcode

unfoldable pub encode_i : (imm rs1 funct3 rd opcode : ℕ) → ℕ
encode_i imm rs1 funct3 rd opcode =
    shl32 (bit_and imm 0xfff) 20 ||| shl32 rs1 15 ||| shl32 funct3 12 ||| shl32 rd 7 ||| opcode

unfoldable pub encode_s : (imm rs2 rs1 funct3 opcode : ℕ) → ℕ
encode_s imm rs2 rs1 funct3 opcode =
    shl32 (bit_and imm 0xfe0) 20
    ||| shl32 rs2 20
    ||| shl32 rs1 15
    ||| shl32 funct3 12
    ||| shl32 (bit_and imm 0x1f) 7
    ||| opcode

unfoldable pub encode_b : (imm rs2 rs1 funct3 opcode : ℕ) → ℕ
encode_b imm rs2 rs1 funct3 opcode =
    let u = sra32 imm 1 in
    shl32 (bit_and (shr u 11) 0x1) 31
    ||| shl32 (bit_and (shr u 4) 0x3f) 25
    ||| shl32 rs2 20
    ||| shl32 rs1 15
    ||| shl32 funct3 12
    ||| shl32 (bit_and u 0xf) 8
    ||| shl32 (bit_and (shr u 10) 0x1) 7
    ||| opcode

unfoldable pub encode_u : (imm rd opcode : ℕ) → ℕ
encode_u imm rd opcode = bit_and imm 0xfffff000 ||| shl32 rd 7 ||| opcode

unfoldable pub encode_j : (imm rd opcode : ℕ) → ℕ
encode_j imm rd opcode =
    let u = sra32 imm 1 in
    shl32 (bit_and (shr u 19) 0x1) 31
    ||| shl32 (bit_and u 0x3ff) 21
    ||| shl32 (bit_and (shr u 10) 0x1) 20
    ||| shl32 (bit_and (shr u 11) 0xff) 12
    ||| shl32 rd 7
    ||| opcode
