-- ===== src/Cpu/Alu/Division.antt =====
-- cpu.cpp: `div`, `divu`, `rem`, `remu` of `execute_mul_div`.
use riscv_student_pack.Common.{
  ℕ, zero, suc, ◌+◌, ◌-◌, ◌*◌, ◌/◌, ◌%◌, ◌^◌, ◌≤◌, ◌<◌, ◌≡◌, ◌≢◌, ◌↔◌, ◌⊎◌, inl, inr, Bool, true,
  false, none, some, if◌then◌else◌, IsU32, arith, ◌∙◌, ap, sym, ℤ, pos, negsuc, sub_ℕ, ◌+ℤ◌, ◌*ℤ◌,
  signed32,
}
use native.Mathlib.Nat.{div-add-mod}
use riscv_student_pack.Cpu.Alu.{execute_mul_div, magnitude, negate, same_sign, is_negative}
use riscv_student_pack.Cpu.Alu.Signs.{
  SignView, sign_view, signed32_low, signed32_high, signed32-negate, minus_times_pos,
  minus_times_negsuc, minus_plus_minus, low, high,
}

-- `INT32_MIN` divided by -1.
abbrev pub Overflows : ℕ → ℕ → Type 0
Overflows a b = (a ≡ 2 ^ 31) × (b ≡ 2 ^ 32 - 1)

-- `execute_mul_div` is undefined if and only if the operation is `div` or `rem` and the operands
-- are `INT32_MIN` and -1.
pub execute_mul_div-undefined_iff :
    (a b funct3 : ℕ)
    → (execute_mul_div a b funct3 ≡ none) ↔ Overflows a b × ((funct3 ≡ 4) ⊎ (funct3 ≡ 6))
unfolding execute_mul_div
execute_mul_div-undefined_iff a b funct3 = (λ h. ground arith, λ h. ground arith)

-- `q` and `r` are quotient and remainder of the signed `a` by `b`, rounded towards zero.
pub record IsQuotRem (a b q r : ℕ) : Type 0 where
  pub divides : signed32 q *ℤ signed32 b +ℤ signed32 r ≡ signed32 a
  pub smaller : magnitude r < magnitude b
  pub sign : (r ≡ 0) ⊎ (is_negative r ≡ is_negative a)

abbrev signed_q : ℕ → ℕ → ℕ
signed_q a b =
    if same_sign a b then magnitude a / magnitude b else negate (magnitude a / magnitude b)

abbrev signed_r : ℕ → ℕ → ℕ
signed_r a b =
    if is_negative a then negate (magnitude a % magnitude b) else magnitude a % magnitude b

-- The division equation by the signs of dividend and divisor.
quot_pp : (q r a b : ℕ) → q * b + r ≡ a → pos q *ℤ pos b +ℤ pos r ≡ pos a
quot_pp q r a b e = ground arith

quot_pn : (q r a d : ℕ) → q * suc d + r ≡ a → sub_ℕ 0 q *ℤ negsuc d +ℤ pos r ≡ pos a
quot_pn q r a d e = rw (minus_times_negsuc q d) (ground arith)

quot_np : (q r c b : ℕ) → q * b + r ≡ suc c → sub_ℕ 0 q *ℤ pos b +ℤ sub_ℕ 0 r ≡ negsuc c
quot_np q r c b e = rw (minus_times_pos q b, minus_plus_minus (q * b) r) (ground arith)

quot_nn : (q r c d : ℕ) → q * suc d + r ≡ suc c → pos q *ℤ negsuc d +ℤ sub_ℕ 0 r ≡ negsuc c
quot_nn q r c d e = rw (minus_plus_minus (q * suc d) r) (ground arith)

-- The equation carries over to equal parts.
with_parts :
    (q b r a : ℕ) {q' b' r' a' : ℤ}
    → signed32 q ≡ q'
    → signed32 b ≡ b'
    → signed32 r ≡ r'
    → signed32 a ≡ a'
    → q' *ℤ b' +ℤ r' ≡ a'
    → signed32 q *ℤ signed32 b +ℤ signed32 r ≡ signed32 a
with_parts q b r a eq eb er ea e = (λ i. eq i *ℤ eb i +ℤ er i) ∙ e ∙ sym ea

euclid : (m n : ℕ) → m / n * n + m % n ≡ m
euclid m n = omega (arith, div-add-mod m n)

quot_lt : (m d : ℕ) → m ≤ 2 ^ 31 → ¬ ((m ≡ 2 ^ 31) × (d ≡ 0)) → m / suc d < 2 ^ 31
quot_lt m zero h ordinary = ground arith
quot_lt m (suc d) h ordinary = omega (arith, euclid m (suc (suc d)))

pub quot_le : (m n : ℕ) → m / n ≤ m
quot_le m zero = omega arith
quot_le m (suc d) = omega (arith, euclid m (suc d))

-- The signed remainder from its magnitude `m`, by the sign of the dividend.
remainder_size : (m : ℕ) (s : Bool) → m < 2 ^ 31 → magnitude (if s then negate m else m) ≡ m
remainder_size m true h = ground arith
remainder_size m false h = ground arith

remainder_sign :
    (m : ℕ) (s : Bool)
    → m < 2 ^ 31
    → ((if s then negate m else m) ≡ 0) ⊎ (is_negative (if s then negate m else m) ≡ s)
remainder_sign m true h = ground arith
remainder_sign m false h = ground arith

module _ (a b : ℕ) (nonzero : b ≢ 0) (ordinary : ¬ Overflows a b) where
  divides_lem :
      SignView a
      → SignView b
      → signed32 (signed_q a b) *ℤ signed32 b +ℤ signed32 (signed_r a b) ≡ signed32 a
  divides_lem (inl la) (inl lb) =
      let fa = low a la in
      let fb = low b lb in
      let q : signed_q a b ≡ a / b = ground arith in
      let r : signed_r a b ≡ a % b = ground arith in
      with_parts (signed_q a b) b (signed_r a b) a
        (ap signed32 q ∙ signed32_low (a / b) (omega (arith, quot_le a b))) (signed32_low b lb)
        (ap signed32 r ∙ signed32_low (a % b) (omega arith)) (signed32_low a la)
        (quot_pp (a / b) (a % b) a b (euclid a b))
  divides_lem (inl la) (inr (d, ed, hd)) =
      let fa = low a la in
      let fb = high b d ed hd in
      let q : signed_q a b ≡ negate (a / suc d) = ground arith in
      let r : signed_r a b ≡ a % suc d = ground arith in
      with_parts (signed_q a b) b (signed_r a b) a
        (ap signed32 q ∙ signed32-negate (a / suc d) (omega (arith, quot_le a (suc d))))
        (signed32_high b d ed hd) (ap signed32 r ∙ signed32_low (a % suc d) (omega arith))
        (signed32_low a la) (quot_pn (a / suc d) (a % suc d) a d (euclid a (suc d)))
  divides_lem (inr (c, ec, hc)) (inl lb) =
      let fa = high a c ec hc in
      let fb = low b lb in
      let q : signed_q a b ≡ negate (suc c / b) = ground arith in
      let r : signed_r a b ≡ negate (suc c % b) = ground arith in
      with_parts (signed_q a b) b (signed_r a b) a
        (ap signed32 q ∙ signed32-negate (suc c / b) (omega (arith, quot_le (suc c) b)))
        (signed32_low b lb) (ap signed32 r ∙ signed32-negate (suc c % b) (omega arith))
        (signed32_high a c ec hc) (quot_np (suc c / b) (suc c % b) c b (euclid (suc c) b))
  divides_lem (inr (c, ec, hc)) (inr (d, ed, hd)) =
      let fa = high a c ec hc in
      let fb = high b d ed hd in
      let q : signed_q a b ≡ suc c / suc d = ground arith in
      let r : signed_r a b ≡ negate (suc c % suc d) = ground arith in
      with_parts (signed_q a b) b (signed_r a b) a
        (ap signed32 q
          ∙ signed32_low (suc c / suc d)
              (quot_lt (suc c) d (omega arith) (λ o. ordinary (omega arith, omega arith))))
        (signed32_high b d ed hd) (ap signed32 r ∙ signed32-negate (suc c % suc d) (omega arith))
        (signed32_high a c ec hc)
        (quot_nn (suc c / suc d) (suc c % suc d) c d (euclid (suc c) (suc d)))

  module _ (ha : IsU32 a) (hb : IsU32 b) where
    divisor_size : (0 < magnitude b) × (magnitude b ≤ 2 ^ 31)
    divisor_size = (ground arith, ground arith)

    remainder_lt : magnitude a % magnitude b < magnitude b
    remainder_lt = omega (arith, divisor_size)

    -- For 32-bit operands, a divisor other than 0 and no overflow, `div` and `rem` are defined and
    -- are quotient and remainder of the signed numbers: they satisfy the division equation, the
    -- remainder is smaller than the divisor in magnitude, and has the dividend's sign.
    pub div_rem_lem :
        (q : ℕ) × (r : ℕ) × (execute_mul_div a b 4 ≡ some q)
        × (execute_mul_div a b 6 ≡ some r)
        × IsQuotRem a b q r
    unfolding execute_mul_div
    div_rem_lem =
        let small : magnitude a % magnitude b < 2 ^ 31 =
          omega (arith, remainder_lt, divisor_size) in
        (
          signed_q a b,
          signed_r a b,
          ground arith,
          ground arith,
          record {
            divides = divides_lem (sign_view a ha) (sign_view b hb);
            smaller =
                rw (remainder_size (magnitude a % magnitude b) (is_negative a) small) remainder_lt;
            sign = remainder_sign (magnitude a % magnitude b) (is_negative a) small;
          },
        )
