-- ===== src/Tests/Arithmetic.antt =====
-- Multiplication and division at concrete operands (emulator/src/cpu.cpp).
use riscv_student_pack.Common.{ℕ, ◌-◌, ◌^◌, ◌≡◌, ◌↔◌, ◌⊎◌, some, none, arith}
use riscv_student_pack.Cpu.Alu.{execute_mul_div}
use riscv_student_pack.Cpu.Alu.Division.{
  Overflows, IsQuotRem, execute_mul_div-undefined_iff, div_rem_lem,
}

-- -7 and 2, as patterns.
abbrev minus_seven : ℕ
minus_seven = 2 ^ 32 - 7

div_rem_lem_example :
    (q : ℕ) × (r : ℕ) × (execute_mul_div minus_seven 2 4 ≡ some q)
    × (execute_mul_div minus_seven 2 6 ≡ some r)
    × IsQuotRem minus_seven 2 q r
div_rem_lem_example =
    div_rem_lem minus_seven 2 (λ e. omega arith) (λ o. omega arith) (omega arith) (omega arith)

execute_mul_div-undefined_iff_example :
    (execute_mul_div (2 ^ 31) (2 ^ 32 - 1) 4 ≡ none)
    ↔ Overflows (2 ^ 31) (2 ^ 32 - 1) × (◌≡◌ {A = ℕ} 4 4 ⊎ ◌≡◌ {A = ℕ} 4 6)
execute_mul_div-undefined_iff_example = execute_mul_div-undefined_iff (2 ^ 31) (2 ^ 32 - 1) 4
