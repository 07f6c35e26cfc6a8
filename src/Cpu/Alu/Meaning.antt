-- ===== src/Cpu/Alu/Meaning.antt =====
-- cpu.cpp: the arithmetic of `execute_alu` and `execute_mul_div` against the integers that the
-- patterns stand for.
use riscv_student_pack.Common.{
  ℕ, suc, ◌+◌, ◌*◌, ◌/◌, ◌%◌, ◌^◌, ◌≤◌, ◌<◌, ◌≡◌, inl, inr, some, u32, IsU32, arith, ap, pos, sub_ℕ,
  ◌*ℤ◌, signed32, to_u32, floor_shift,
}
use riscv_student_pack.Cpu.Alu.Signs.{
  SignView, sign_view, signed32_low, signed32_high, sext64_low, sext64_high,
}
use riscv_student_pack.Cpu.Alu.{execute_mul_div, sext64, sra64}

-- A 64-bit product `P` that stands for minus `p`, halved without and with regard to its sign.
upper_negative :
    (p P b : ℕ)
    → P + p ≡ 2 ^ 64 * b
    → p < 2 ^ 64
    → u32 (P % 2 ^ 64 / 2 ^ 32) ≡ to_u32 (floor_shift (sub_ℕ 0 p) 32)
upper_negative p P b e h = ground arith

upper_negative_sra :
    (p P b : ℕ)
    → P + p ≡ 2 ^ 64 * b
    → p < 2 ^ 63
    → u32 (sra64 (P % 2 ^ 64) 32) ≡ to_u32 (floor_shift (sub_ℕ 0 p) 32)
upper_negative_sra p P b e h = ground arith

upper_positive_sra :
    (p P b k : ℕ)
    → P + 2 ^ 64 * k ≡ 2 ^ 64 * b + p
    → p < 2 ^ 63
    → u32 (sra64 (P % 2 ^ 64) 32) ≡ to_u32 (floor_shift (pos p) 32)
upper_positive_sra p P b k e h = ground arith

lower_negative : (p P b : ℕ) → P + p ≡ 2 ^ 32 * b → u32 P ≡ to_u32 (sub_ℕ 0 p)
lower_negative p P b e = ground arith

mul_bound : (x y m n : ℕ) → x ≤ m → y ≤ n → x * y ≤ m * n
mul_bound x y m n h k = grind arith

-- What completes `a` to a power of two completes a multiple of `a` to a multiple of it.
complete_times : (a c m b : ℕ) → a + c ≡ m → a * b + c * b ≡ m * b
complete_times a c m b e = omega (arith, ap (λ (t : ℕ). t * b) e)

complete_both : (a c m b d : ℕ) → a + c ≡ m → b + d ≡ m → a * b + m * (c + d) ≡ m * m + c * d
complete_both a c m b d e f =
    omega (arith, ap (λ (t : ℕ). t * b) e, ap (λ (t : ℕ). c * t) f, ap (λ (t : ℕ). m * t) f)

module _ (a b : ℕ) (ha : IsU32 a) (hb : IsU32 b) where
  -- `mulhu`: the upper half of the unsigned product.
  pub mulhu_lem : execute_mul_div a b 3 ≡ some (to_u32 (floor_shift (pos a *ℤ pos b) 32))
  unfolding execute_mul_div
  mulhu_lem = ground arith

  -- For 32-bit operands `mulhsu` gives the upper 32 bits of the product of a signed and an
  -- unsigned number.
  pub mulhsu_lem : execute_mul_div a b 2 ≡ some (to_u32 (floor_shift (signed32 a *ℤ pos b) 32))
  unfolding execute_mul_div
  mulhsu_lem = elim (sign_view a ha) [
    | inl low ↦
        rw (signed32_low a low, sext64_low a low) (ground (arith, mul_bound a b (2 ^ 31) (2 ^ 32)))
    | inr (c, e, h) ↦ rw (signed32_high a c e h) (
        ap some (
          upper_negative (suc c * b) (sext64 a * b) b
            (complete_times (sext64 a) (suc c) (2 ^ 64) b (sext64_high a c e h))
            (omega (arith, mul_bound (suc c) b (2 ^ 31) (2 ^ 32) (omega arith) (omega arith)))))
  ]

  -- For 32-bit operands `mulh` gives the upper 32 bits of the product of the two signed numbers.
  pub mulh_lem : execute_mul_div a b 1 ≡ some (to_u32 (floor_shift (signed32 a *ℤ signed32 b) 32))
  unfolding execute_mul_div
  mulh_lem = ap some (upper (sign_view a ha) (sign_view b hb))
    where
      product : ℕ
      product = sext64 a * sext64 b

      upper :
          SignView a
          → SignView b
          → u32 (sra64 (product % 2 ^ 64) 32) ≡ to_u32 (floor_shift (signed32 a *ℤ signed32 b) 32)
      upper (inl la) (inl lb) =
          rw (signed32_low a la, signed32_low b lb)
            (upper_positive_sra (a * b) product 0 0
              (rw (sext64_low a la, sext64_low b lb) (omega arith))
              (omega (arith, mul_bound a b (2 ^ 31) (2 ^ 31) (omega arith) (omega arith))))
      upper (inr (c, ec, hc)) (inl lb) =
          rw (signed32_high a c ec hc, signed32_low b lb)
            (upper_negative_sra (suc c * b) product b
              (rw (sext64_low b lb)
                (complete_times (sext64 a) (suc c) (2 ^ 64) b (sext64_high a c ec hc)))
              (omega (arith, mul_bound (suc c) b (2 ^ 31) (2 ^ 31) (omega arith) (omega arith))))
      upper (inl la) (inr (d, ed, hd)) =
          rw (signed32_low a la, signed32_high b d ed hd)
            (upper_negative_sra (a * suc d) product a
              (rw (sext64_low a la) (
                omega
                  (arith, complete_times (sext64 b) (suc d) (2 ^ 64) a (sext64_high b d ed hd))))
              (omega (arith, mul_bound a (suc d) (2 ^ 31) (2 ^ 31) (omega arith) (omega arith))))
      upper (inr (c, ec, hc)) (inr (d, ed, hd)) =
          rw (signed32_high a c ec hc, signed32_high b d ed hd)
            (upper_positive_sra (suc c * suc d) product (2 ^ 64) (suc c + suc d)
              (complete_both (sext64 a) (suc c) (2 ^ 64) (sext64 b) (suc d) (sext64_high a c ec hc)
                (sext64_high b d ed hd))
              (omega
                (arith, mul_bound (suc c) (suc d) (2 ^ 31) (2 ^ 31) (omega arith) (omega arith))))

  -- For 32-bit operands `mul` gives the lower 32 bits of the product of the two signed numbers.
  pub mul_lem : execute_mul_div a b 0 ≡ some (to_u32 (signed32 a *ℤ signed32 b))
  unfolding execute_mul_div
  mul_lem = ap some (lower (sign_view a ha) (sign_view b hb))
    where
      lower : SignView a → SignView b → u32 (a * b) ≡ to_u32 (signed32 a *ℤ signed32 b)
      lower (inl la) (inl lb) = rw (signed32_low a la, signed32_low b lb)
      lower (inr (c, ec, hc)) (inl lb) =
          rw (signed32_high a c ec hc, signed32_low b lb)
            (lower_negative (suc c * b) (a * b) b (complete_times a (suc c) (2 ^ 32) b ec))
      lower (inl la) (inr (d, ed, hd)) =
          rw (signed32_low a la, signed32_high b d ed hd)
            (lower_negative (a * suc d) (a * b) a
              (omega (arith, complete_times b (suc d) (2 ^ 32) a ed)))
      lower (inr (c, ec, hc)) (inr (d, ed, hd)) =
          rw (signed32_high a c ec hc, signed32_high b d ed hd)
            (omega (arith, complete_both a (suc c) (2 ^ 32) b (suc d) ec ed))
