-- ===== src/Cpu/Alu/Bounds.antt =====
-- cpu.cpp: the size of the results of `execute_alu` and `execute_mul_div`.
use riscv_student_pack.Common.{ℕ, ◌%◌, ◌^◌, ◌≤◌, ◌≡◌, Bool, some, bit_and, sra32, IsU32, arith}
use riscv_student_pack.Common.Bits.Bounds.{bit_or-lt, bit_xor-lt, bit_and-le}
use native.Mathlib.Nat.{div-add-mod}
use riscv_student_pack.Cpu.Alu.{execute_alu, execute_mul_div, magnitude}
use riscv_student_pack.Cpu.Alu.Division.{quot_le}

mod_le : (m n : ℕ) → m % n ≤ m
mod_le m n = omega (arith, div-add-mod m n)

sra32-lt : (a k : ℕ) → IsU32 a → IsU32 (sra32 a k)
sra32-lt a k h = ground (arith, quot_le a (2 ^ k))

pub execute_alu-IsU32 :
    (a b funct3 funct7 : ℕ) (is_imm : Bool)
    → IsU32 a
    → IsU32 b
    → IsU32 (execute_alu a b funct3 funct7 is_imm)
unfolding execute_alu
execute_alu-IsU32 a b funct3 funct7 is_imm ha hb = ground (
  arith,
  bit_or-lt 32 a b ha hb,
  bit_xor-lt 32 a b ha hb,
  bit_and-le a b,
  quot_le a (2 ^ bit_and b 0x1f),
  sra32-lt a (bit_and b 0x1f) ha,
)

pub execute_mul_div-IsU32 :
    (a b funct3 : ℕ) {r : ℕ} → IsU32 a → IsU32 b → execute_mul_div a b funct3 ≡ some r → IsU32 r
unfolding execute_mul_div
execute_mul_div-IsU32 a b funct3 ha hb e = ground (
  arith,
  quot_le a b,
  mod_le a b,
  quot_le (magnitude a) (magnitude b),
  mod_le (magnitude a) (magnitude b),
)
