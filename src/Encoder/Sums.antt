-- ===== src/Encoder/Sums.antt =====
-- encode.cpp: each encoded word as a sum of its fields, for operands that fit their fields.
use riscv_student_pack.Common.{ℕ, ◌+◌, ◌*◌, ◌/◌, ◌%◌, ◌^◌, ◌<◌, ◌≡◌, shl32, slice, arith}
use riscv_student_pack.Common.Bits.{bit_and_mask, bit_and_field, bit_or_add}
use riscv_student_pack.Encoder.{◌|||◌, encode_r, encode_i, encode_s, encode_u}

-- The operands `rs1`, `funct3`, `rd` and `opcode` below a multiple of `2 ^ 20`.
low_fields :
    (x rs1 funct3 rd opcode : ℕ)
    → x % 2 ^ 20 ≡ 0
    → rs1 < 32
    → funct3 < 8
    → rd < 32
    → opcode < 128
    → (x ||| shl32 rs1 15 ||| shl32 funct3 12 ||| shl32 rd 7 ||| opcode)
      ≡ x + rs1 * 2 ^ 15 + funct3 * 2 ^ 12 + rd * 2 ^ 7 + opcode
low_fields x rs1 funct3 rd opcode hx h1 h3 hd ho =
    rw
      (
        bit_or_add 20 x (shl32 rs1 15) hx (omega arith),
        bit_or_add 15 (x + shl32 rs1 15) (shl32 funct3 12) (omega arith) (omega arith),
        bit_or_add 12 (x + shl32 rs1 15 + shl32 funct3 12) (shl32 rd 7) (omega arith) (omega arith),
        bit_or_add 7 (x + shl32 rs1 15 + shl32 funct3 12 + shl32 rd 7) opcode (omega arith)
            (omega arith),
      )
      (omega arith)

module _ (rs1 funct3 opcode : ℕ) (h1 : rs1 < 32) (h3 : funct3 < 8) (ho : opcode < 128) where
  pub encode_r-eq-sum :
      (funct7 rs2 rd : ℕ)
      → funct7 < 128
      → rs2 < 32
      → rd < 32
      → encode_r funct7 rs2 rs1 funct3 rd opcode
        ≡ funct7 * 2 ^ 25 + rs2 * 2 ^ 20 + rs1 * 2 ^ 15 + funct3 * 2 ^ 12 + rd * 2 ^ 7 + opcode
  unfolding encode_r
  encode_r-eq-sum funct7 rs2 rd h7 h2 hd =
      rw
        (
          bit_or_add 25 (shl32 funct7 25) (shl32 rs2 20) (omega arith) (omega arith),
          low_fields (shl32 funct7 25 + shl32 rs2 20) rs1 funct3 rd opcode (omega arith) h1 h3 hd
              ho,
        )
        (omega arith)

  pub encode_i-eq-sum :
      (imm rd : ℕ)
      → rd < 32
      → encode_i imm rs1 funct3 rd opcode
        ≡ imm % 2 ^ 12 * 2 ^ 20 + rs1 * 2 ^ 15 + funct3 * 2 ^ 12 + rd * 2 ^ 7 + opcode
  unfolding encode_i
  encode_i-eq-sum imm rd hd =
      rw
        (
          bit_and_mask 12 imm,
          low_fields (shl32 (imm % 2 ^ 12) 20) rs1 funct3 rd opcode (omega arith) h1 h3 hd ho,
        )
        (omega arith)

  pub encode_s-eq-sum :
      (imm rs2 : ℕ)
      → rs2 < 32
      → encode_s imm rs2 rs1 funct3 opcode
        ≡ slice imm 5 7 * 2 ^ 25
          + rs2 * 2 ^ 20
          + rs1 * 2 ^ 15
          + funct3 * 2 ^ 12
          + imm % 2 ^ 5 * 2 ^ 7
          + opcode
  unfolding encode_s
  encode_s-eq-sum imm rs2 h2 =
      rw
        (
          bit_and_field 5 imm 0x7f,
          bit_and_mask 7 (imm / 2 ^ 5),
          bit_and_mask 5 imm,
          bit_or_add 25 (shl32 (slice imm 5 7 * 2 ^ 5) 20) (shl32 rs2 20) (omega arith)
              (omega arith),
          low_fields (shl32 (slice imm 5 7 * 2 ^ 5) 20 + shl32 rs2 20) rs1 funct3 (imm % 2 ^ 5)
              opcode (omega arith) h1 h3 (omega arith) ho,
        )
        (omega arith)

pub encode_u-eq-sum :
    (imm rd opcode : ℕ)
    → rd < 32
    → opcode < 128
    → encode_u imm rd opcode ≡ slice imm 12 20 * 2 ^ 12 + rd * 2 ^ 7 + opcode
unfolding encode_u
encode_u-eq-sum imm rd opcode hd ho =
    rw
      (
        bit_and_field 12 imm 0xfffff,
        bit_and_mask 20 (imm / 2 ^ 12),
        bit_or_add 12 (slice imm 12 20 * 2 ^ 12) (shl32 rd 7) (omega arith) (omega arith),
        bit_or_add 7 (slice imm 12 20 * 2 ^ 12 + shl32 rd 7) opcode (omega arith) (omega arith),
      )
      (omega arith)
