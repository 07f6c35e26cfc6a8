-- ===== src/Encoder/Jumps.antt =====
-- encode.cpp: the scattered immediates of branches and jumps as sums.
use riscv_student_pack.Common.{
  ℕ, ◌+◌, ◌*◌, ◌/◌, ◌%◌, ◌^◌, ◌<◌, ◌≡◌, shl32, shr, sra32, slice, IsU32, arith,
}
use riscv_student_pack.Common.Bits.{bit_and_mask, bit_or_add}
use riscv_student_pack.Encoder.{◌|||◌, encode_b, encode_j}

-- The fields of a branch below its top three.
branch_fields :
    (x rs1 funct3 hi lo opcode : ℕ)
    → x % 2 ^ 20 ≡ 0
    → rs1 < 32
    → funct3 < 8
    → hi < 16
    → lo < 2
    → opcode < 128
    → (x ||| shl32 rs1 15 ||| shl32 funct3 12 ||| shl32 hi 8 ||| shl32 lo 7 ||| opcode)
      ≡ x + rs1 * 2 ^ 15 + funct3 * 2 ^ 12 + hi * 2 ^ 8 + lo * 2 ^ 7 + opcode
branch_fields x rs1 funct3 hi lo opcode hx h1 h3 hh hl ho =
    let a = x + shl32 rs1 15 in
    let b = a + shl32 funct3 12 in
    let c = b + shl32 hi 8 in
    rw
      (
        bit_or_add 20 x (shl32 rs1 15) hx (omega arith),
        bit_or_add 15 a (shl32 funct3 12) (omega arith) (omega arith),
        bit_or_add 12 b (shl32 hi 8) (omega arith) (omega arith),
        bit_or_add 8 c (shl32 lo 7) (omega arith) (omega arith),
        bit_or_add 7 (c + shl32 lo 7) opcode (omega arith) (omega arith),
      )
      (omega arith)

-- Halving a signed pattern keeps the bits above the lowest one.
sra32_half : (imm : ℕ) → IsU32 imm → sra32 imm 1 % 2 ^ 31 ≡ imm / 2
sra32_half imm h = ground arith

-- The slices that the encoders take of `u`, from those of `imm`.
record HalfSlices (u imm : ℕ) : Type 0 where
  low_four : u % 2 ^ 4 ≡ slice imm 1 4
  low_ten : u % 2 ^ 10 ≡ slice imm 1 10
  six_at_4 : slice u 4 6 ≡ slice imm 5 6
  one_at_10 : slice u 10 1 ≡ slice imm 11 1
  one_at_11 : slice u 11 1 ≡ slice imm 12 1
  eight_at_11 : slice u 11 8 ≡ slice imm 12 8
  one_at_19 : slice u 19 1 ≡ slice imm 20 1

half_slices : (u imm : ℕ) → u % 2 ^ 31 ≡ imm / 2 → HalfSlices u imm
half_slices u imm e = omega arith

pub encode_b-eq-sum :
    (imm rs2 rs1 funct3 opcode : ℕ)
    → IsU32 imm
    → rs2 < 32
    → rs1 < 32
    → funct3 < 8
    → opcode < 128
    → encode_b imm rs2 rs1 funct3 opcode
      ≡ slice imm 12 1 * 2 ^ 31
        + slice imm 5 6 * 2 ^ 25
        + rs2 * 2 ^ 20
        + rs1 * 2 ^ 15
        + funct3 * 2 ^ 12
        + slice imm 1 4 * 2 ^ 8
        + slice imm 11 1 * 2 ^ 7
        + opcode
unfolding encode_b
encode_b-eq-sum imm rs2 rs1 funct3 opcode hi h2 h1 h3 ho =
    let u = sra32 imm 1 in
    let s = half_slices u imm (sra32_half imm hi) in
    let a = shl32 (slice u 11 1) 31 in
    let b = a + shl32 (slice u 4 6) 25 in
    rw
      (
        bit_and_mask 1 (shr u 11),
        bit_and_mask 6 (shr u 4),
        bit_and_mask 4 u,
        bit_and_mask 1 (shr u 10),
        bit_or_add 31 a (shl32 (slice u 4 6) 25) (omega arith) (omega arith),
        bit_or_add 25 b (shl32 rs2 20) (omega arith) (omega arith),
        branch_fields (b + shl32 rs2 20) rs1 funct3 (u % 2 ^ 4) (slice u 10 1) opcode (omega arith)
            h1 h3 (omega arith) (omega arith) ho,
      )
      (omega (arith, s.low_four, s.six_at_4, s.one_at_10, s.one_at_11))

pub encode_j-eq-sum :
    (imm rd opcode : ℕ)
    → IsU32 imm
    → rd < 32
    → opcode < 128
    → encode_j imm rd opcode
      ≡ slice imm 20 1 * 2 ^ 31
        + slice imm 1 10 * 2 ^ 21
        + slice imm 11 1 * 2 ^ 20
        + slice imm 12 8 * 2 ^ 12
        + rd * 2 ^ 7
        + opcode
unfolding encode_j
encode_j-eq-sum imm rd opcode hi hd ho =
    let u = sra32 imm 1 in
    let s = half_slices u imm (sra32_half imm hi) in
    let a = shl32 (slice u 19 1) 31 in
    let b = a + shl32 (u % 2 ^ 10) 21 in
    let c = b + shl32 (slice u 10 1) 20 in
    let d = c + shl32 (slice u 11 8) 12 in
    rw
      (
        bit_and_mask 1 (shr u 19),
        bit_and_mask 10 u,
        bit_and_mask 1 (shr u 10),
        bit_and_mask 8 (shr u 11),
        bit_or_add 31 a (shl32 (u % 2 ^ 10) 21) (omega arith) (omega arith),
        bit_or_add 21 b (shl32 (slice u 10 1) 20) (omega arith) (omega arith),
        bit_or_add 20 c (shl32 (slice u 11 8) 12) (omega arith) (omega arith),
        bit_or_add 12 d (shl32 rd 7) (omega arith) (omega arith),
        bit_or_add 7 (d + shl32 rd 7) opcode (omega arith) (omega arith),
      )
      (omega (arith, s.low_ten, s.one_at_10, s.eight_at_11, s.one_at_19))
