-- ===== src/Cpu/Alu/Signs.antt =====
-- The two's complement patterns by their sign.
use riscv_student_pack.Common.{
  ℕ, zero, suc, ◌+◌, ◌-◌, ◌*◌, ◌^◌, ◌≤◌, ◌<◌, ◌≡◌, ◌⊎◌, inl, inr, true, false, ltb, IsU32, arith,
  ap, pos, negsuc, sub_ℕ, ◌+ℤ◌, ◌*ℤ◌, signed32, Bool-cases, ltb→lt,
}
use riscv_student_pack.Cpu.Alu.{sext64, negate, is_negative, magnitude}

-- A 32-bit pattern is a natural number below `2 ^ 31`, or minus the number that completes it.
abbrev pub SignView : ℕ → Type 0
SignView a = (a < 2 ^ 31) ⊎ ((c : ℕ) × (a + suc c ≡ 2 ^ 32) × (c < 2 ^ 31))

pub sign_view : (a : ℕ) → IsU32 a → SignView a
sign_view a h = elim (Bool-cases (ltb a (2 ^ 31))) [
  | inl low ↦ inl (ltb→lt a (2 ^ 31) low)
  | inr high ↦ inr (2 ^ 32 - a - 1, ground arith, ground arith)
]

pub signed32_low : (a : ℕ) → a < 2 ^ 31 → signed32 a ≡ pos a
signed32_low a h = ground arith

pub signed32_high : (a c : ℕ) → a + suc c ≡ 2 ^ 32 → c < 2 ^ 31 → signed32 a ≡ negsuc c
signed32_high a c e h = ground arith

pub sext64_low : (a : ℕ) → a < 2 ^ 31 → sext64 a ≡ a
sext64_low a h = ground arith

pub sext64_high : (a c : ℕ) → a + suc c ≡ 2 ^ 32 → c < 2 ^ 31 → sext64 a + suc c ≡ 2 ^ 64
sext64_high a c e h = ground arith

pub signed32-negate : (q : ℕ) → q ≤ 2 ^ 31 → signed32 (negate q) ≡ sub_ℕ 0 q
signed32-negate q h = ground arith

sub_ℕ-suc : (q : ℕ) → sub_ℕ 0 (suc q) ≡ negsuc q
sub_ℕ-suc q = ground arith

pub minus_times_pos : (q b : ℕ) → sub_ℕ 0 q *ℤ pos b ≡ sub_ℕ 0 (q * b)
minus_times_pos zero b = ground arith
minus_times_pos (suc q) b = ap (λ z. z *ℤ pos b) (sub_ℕ-suc q)

pub minus_times_negsuc : (q d : ℕ) → sub_ℕ 0 q *ℤ negsuc d ≡ pos (q * suc d)
minus_times_negsuc zero d = ground arith
minus_times_negsuc (suc q) d = ap (λ z. z *ℤ negsuc d) (sub_ℕ-suc q)

pub minus_plus_minus : (x y : ℕ) → sub_ℕ 0 x +ℤ sub_ℕ 0 y ≡ sub_ℕ 0 (x + y)
minus_plus_minus x y = ground arith

pub record Low (a : ℕ) : Type 0 where
  pub nonnegative : is_negative a ≡ false
  pub magnitude_self : magnitude a ≡ a

pub low : (a : ℕ) → a < 2 ^ 31 → Low a
low a h = record { nonnegative = ground arith; magnitude_self = ground arith }

pub record High (a c : ℕ) : Type 0 where
  pub negative : is_negative a ≡ true
  pub magnitude_suc : magnitude a ≡ suc c

pub high : (a c : ℕ) → a + suc c ≡ 2 ^ 32 → c < 2 ^ 31 → High a c
high a c e h = record { negative = ground arith; magnitude_suc = ground arith }
