-- ===== src/Cpu/Alu.antt =====
-- cpu.cpp: `execute_alu` and `execute_mul_div`, pure functions of two 32-bit patterns.
pub mod Signs
pub mod Meaning
pub mod Division
pub mod Rounding
pub mod Bounds
use riscv_student_pack.Common.{
  ℕ, ◌+◌, ◌-◌, ◌*◌, ◌/◌, ◌%◌, ◌^◌, Bool, true, false, not, ◌&&◌, Option, none, some, bit_and,
  bit_or, bit_xor, ltb, ◌==◌, if◌then◌else◌, u32, add32, sub32, shl32, shr, sra32, signed32, ltb_ℤ,
}
use riscv_student_pack.Cpu.State.{illegal_code}

-- A comparison of two patterns as `int32_t`.
abbrev pub slt32 : ℕ → ℕ → Bool
slt32 a b = ltb_ℤ (signed32 a) (signed32 b)

unfoldable pub execute_alu : (rs1_val rs2_val_or_imm funct3 funct7 : ℕ) → Bool → ℕ
execute_alu a b funct3 funct7 is_imm =
    if funct3 == 0x0
    then (if not is_imm && not (bit_and funct7 0x20 == 0) then sub32 a b else add32 a b)
    else if funct3 == 0x1
    then shl32 a (bit_and b 0x1f)
    else if funct3 == 0x2
    then (if slt32 a b then 1 else 0)
    else if funct3 == 0x3
    then (if ltb a b then 1 else 0)
    else if funct3 == 0x4
    then bit_xor a b
    else if funct3 == 0x5
    then (if not (bit_and funct7 0x20 == 0)
        then sra32 a (bit_and b 0x1f)
        else shr a (bit_and b 0x1f))
    else if funct3 == 0x6
    then bit_or a b
    else if funct3 == 0x7
    then bit_and a b
    else illegal_code

-- `(int64_t)(int32_t)a` as a 64-bit pattern.
abbrev pub sext64 : ℕ → ℕ
sext64 a = if ltb a (2 ^ 31) then a else a + 2 ^ 64 - 2 ^ 32

-- `>>` of an `int64_t`, which rounds down.
abbrev pub sra64 : ℕ → ℕ → ℕ
sra64 x k = if ltb x (2 ^ 63) then x / 2 ^ k else 2 ^ 64 - 1 - (2 ^ 64 - 1 - x) / 2 ^ k

abbrev pub is_negative : ℕ → Bool
is_negative a = not (ltb a (2 ^ 31))

-- The absolute value of a pattern as `int32_t`, and its negation.
abbrev pub magnitude : ℕ → ℕ
magnitude a = if is_negative a then 2 ^ 32 - a else a

abbrev pub negate : ℕ → ℕ
negate a = sub32 0 a

abbrev pub same_sign : ℕ → ℕ → Bool
same_sign a b = if is_negative a then is_negative b else not (is_negative b)

-- `/` and `%` of `int32_t`, which round towards zero. `none` is the undefined overflow of
-- `INT32_MIN / -1`; the callers have excluded the divisor 0.
abbrev pub div_s32 : ℕ → ℕ → Option ℕ
div_s32 a b =
    if a == 2 ^ 31 && (b == 2 ^ 32 - 1)
    then none
    else let q = magnitude a / magnitude b in some (if same_sign a b then q else negate q)

abbrev pub rem_s32 : ℕ → ℕ → Option ℕ
rem_s32 a b =
    if a == 2 ^ 31 && (b == 2 ^ 32 - 1)
    then none
    else let r = magnitude a % magnitude b in some (if is_negative a then negate r else r)

unfoldable pub execute_mul_div : (rs1_val rs2_val funct3 : ℕ) → Option ℕ
execute_mul_div a b funct3 =
    if funct3 == 0x0
    then some (u32 (a * b))
    else if funct3 == 0x1
    then some (u32 (sra64 (sext64 a * sext64 b % 2 ^ 64) 32))
    else if funct3 == 0x2
    then some (u32 (sext64 a * b % 2 ^ 64 / 2 ^ 32))
    else if funct3 == 0x3
    then some (u32 (a * b % 2 ^ 64 / 2 ^ 32))
    else if funct3 == 0x4
    then (if b == 0 then some (2 ^ 32 - 1) else div_s32 a b)
    else if funct3 == 0x5
    then (if b == 0 then some (2 ^ 32 - 1) else some (a / b))
    else if funct3 == 0x6
    then (if b == 0 then some a else rem_s32 a b)
    else if funct3 == 0x7
    then (if b == 0 then some a else some (a % b))
    else some illegal_code
