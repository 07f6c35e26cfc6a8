-- ===== src/Cpu/Alu/Rounding.antt =====
-- cpu.cpp: `div` and `rem` of `execute_mul_div` as the division of signed numbers that rounds
-- towards zero.
use riscv_student_pack.Common.{
  ℕ, suc, ◌-◌, ◌/◌, ◌%◌, ◌^◌, ◌<◌, ◌≡◌, refl, ap, ◌∙◌, false, some, ◌==◌, ◌&&◌, zero, ◌≤◌,
  if◌then◌else◌, IsU32, arith, ℤ, pos, negsuc, sub_ℕ, signed32, to_u32, Bool-cases, inl, inr,
}
use riscv_student_pack.Cpu.Alu.{execute_mul_div, magnitude, negate, same_sign, is_negative}
use riscv_student_pack.Cpu.Alu.Signs.{SignView, sign_view, signed32_low, signed32_high, low, high}
use riscv_student_pack.Cpu.Alu.Division.{Overflows, quot_le}

-- The quotient rounded towards zero, and the remainder with the sign of the dividend.
abbrev pub quotient : ℤ → ℤ → ℤ
quotient (pos a) (pos b) = pos (a / b)
quotient (pos a) (negsuc d) = sub_ℕ 0 (a / suc d)
quotient (negsuc c) (pos b) = sub_ℕ 0 (suc c / b)
quotient (negsuc c) (negsuc d) = pos (suc c / suc d)

abbrev pub remainder : ℤ → ℤ → ℤ
remainder (pos a) (pos b) = pos (a % b)
remainder (pos a) (negsuc d) = pos (a % suc d)
remainder (negsuc c) (pos b) = sub_ℕ 0 (suc c % b)
remainder (negsuc c) (negsuc d) = sub_ℕ 0 (suc c % suc d)

to_u32-minus : (q : ℕ) → q < 2 ^ 32 → negate q ≡ to_u32 (sub_ℕ 0 q)
to_u32-minus q h = ground arith

rem_le : (m n : ℕ) → m % n ≤ m
rem_le m zero = ground arith
rem_le m (suc d) = omega (arith)

module _ (a b : ℕ) where
  abbrev signed_q : ℕ
  signed_q = if same_sign a b then magnitude a / magnitude b else negate (magnitude a / magnitude b)

  abbrev signed_r : ℕ
  signed_r = if is_negative a then negate (magnitude a % magnitude b) else magnitude a % magnitude b

  signed_q-quotient :
      SignView a → SignView b → signed_q ≡ to_u32 (quotient (signed32 a) (signed32 b))
  signed_q-quotient (inl la) (inl lb) =
      let fa = low a la in
      let fb = low b lb in
      let q : signed_q ≡ a / b = ground arith in
      rw (signed32_low a la, signed32_low b lb) (q ∙ omega (arith, quot_le a b))
  signed_q-quotient (inl la) (inr (d, ed, hd)) =
      let fa = low a la in
      let fb = high b d ed hd in
      let q : signed_q ≡ negate (a / suc d) = ground arith in
      rw (signed32_low a la, signed32_high b d ed hd)
        (q ∙ to_u32-minus (a / suc d) (omega (arith, quot_le a (suc d))))
  signed_q-quotient (inr (c, ec, hc)) (inl lb) =
      let fa = high a c ec hc in
      let fb = low b lb in
      let q : signed_q ≡ negate (suc c / b) = ground arith in
      rw (signed32_high a c ec hc, signed32_low b lb)
        (q ∙ to_u32-minus (suc c / b) (omega (arith, quot_le (suc c) b)))
  signed_q-quotient (inr (c, ec, hc)) (inr (d, ed, hd)) =
      let fa = high a c ec hc in
      let fb = high b d ed hd in
      let q : signed_q ≡ suc c / suc d = ground arith in
      rw (signed32_high a c ec hc, signed32_high b d ed hd)
        (q ∙ omega (arith, quot_le (suc c) (suc d)))

  signed_r-remainder :
      SignView a → SignView b → signed_r ≡ to_u32 (remainder (signed32 a) (signed32 b))
  signed_r-remainder (inl la) (inl lb) =
      let fa = low a la in
      let fb = low b lb in
      let r : signed_r ≡ a % b = ground arith in
      rw (signed32_low a la, signed32_low b lb) (r ∙ omega (arith, rem_le a b))
  signed_r-remainder (inl la) (inr (d, ed, hd)) =
      let fa = low a la in
      let fb = high b d ed hd in
      let r : signed_r ≡ a % suc d = ground arith in
      rw (signed32_low a la, signed32_high b d ed hd) (r ∙ omega (arith, rem_le a (suc d)))
  signed_r-remainder (inr (c, ec, hc)) (inl lb) =
      let fa = high a c ec hc in
      let fb = low b lb in
      let r : signed_r ≡ negate (suc c % b) = ground arith in
      rw (signed32_high a c ec hc, signed32_low b lb)
        (r ∙ to_u32-minus (suc c % b) (omega (arith, rem_le (suc c) b)))
  signed_r-remainder (inr (c, ec, hc)) (inr (d, ed, hd)) =
      let fa = high a c ec hc in
      let fb = high b d ed hd in
      let r : signed_r ≡ negate (suc c % suc d) = ground arith in
      rw (signed32_high a c ec hc, signed32_high b d ed hd)
        (r ∙ to_u32-minus (suc c % suc d) (omega (arith, rem_le (suc c) (suc d))))

  module _ (ha : IsU32 a) (hb : IsU32 b) (ordinary : ¬ Overflows a b) where
    no_overflow : (a == 2 ^ 31 && b == 2 ^ 32 - 1) ≡ false
    no_overflow = ground (arith, ordinary)

    -- Of 32-bit operands other than INT32_MIN and -1, `div` gives the signed quotient rounded
    -- towards zero, and -1 for the divisor 0.
    pub div_lem :
        execute_mul_div a b 4
        ≡ some (if b == 0 then 2 ^ 32 - 1 else to_u32 (quotient (signed32 a) (signed32 b)))
    unfolding execute_mul_div
    div_lem = elim (Bool-cases (b == 0)) [
      | inl z ↦ rw z refl
      | inr z ↦ rw (z, no_overflow) (ap some (signed_q-quotient (sign_view a ha) (sign_view b hb)))
    ]

    -- `rem` gives the remainder, and the dividend for the divisor 0.
    pub rem_lem :
        execute_mul_div a b 6
        ≡ some (if b == 0 then a else to_u32 (remainder (signed32 a) (signed32 b)))
    unfolding execute_mul_div
    rem_lem = elim (Bool-cases (b == 0)) [
      | inl z ↦ rw z refl
      | inr z ↦ rw (z, no_overflow) (ap some (signed_r-remainder (sign_view a ha) (sign_view b hb)))
    ]
