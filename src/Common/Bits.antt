-- ===== src/Common/Bits.antt =====
-- `|`, `&`, `^` on shifted fields and masks, as arithmetic, at every width.
mod Digits
pub mod Bounds
use Prim.Native.Nat.{
  ℕ, zero, suc, ◌+◌, ◌-◌, ◌*◌, ◌/◌, ◌%◌, ◌^◌, ◌≤◌, ◌<◌, bit_and, bit_or, bit_xor, differ, max,
}
use mathlib.Core.Path.{◌≡◌, refl, ◌∙◌, ap}
use native.Mathlib.Nat.{pow-suc, one-le-pow, mod-lt, div-add-mod}
use native.Mathlib.Omega.{arith}
use Digits.{bit_and_digit, bit_or_digit, bit_xor_digit}

bit_or-zero_below : (n a : ℕ) → a ≤ n → bit_or a 0 ≡ a
bit_or-zero_below n zero h = refl
bit_or-zero_below zero (suc a) h = absurd (omega arith)
bit_or-zero_below (suc n) (suc a) h =
    omega (arith, bit_or_digit (suc a) 0, bit_or-zero_below n (suc a / 2) (omega arith))

bit_and-zero_below : (n a : ℕ) → a ≤ n → bit_and a 0 ≡ 0
bit_and-zero_below n zero h = refl
bit_and-zero_below zero (suc a) h = absurd (omega arith)
bit_and-zero_below (suc n) (suc a) h =
    omega (arith, bit_and_digit (suc a) 0, bit_and-zero_below n (suc a / 2) (omega arith))

pub bit_and-zero : (a : ℕ) → bit_and a 0 ≡ 0
bit_and-zero a = bit_and-zero_below a a (omega arith)

-- A field `r` of `k` bits below a multiple of `2 ^ k` is added.
bit_or_block : (k q r : ℕ) → r < 2 ^ k → bit_or (q * 2 ^ k) r ≡ q * 2 ^ k + r
bit_or_block zero q zero h = rw (bit_or-zero_below (q * 1) (q * 1) (omega arith)) (omega arith)
bit_or_block zero q (suc r) h = absurd (omega arith)
bit_or_block (suc k) q r h = rw (pow-suc 2 k) (
    omega (
      arith,
      pow-suc 2 k,
      bit_or_digit (q * (2 ^ k * 2)) r,
      bit_or_block k q (r / 2) (omega (arith, pow-suc 2 k)),
      ap (λ (t : ℕ). bit_or t (r / 2)) half,
    ))
  where
    half : q * (2 ^ k * 2) / 2 ≡ q * 2 ^ k
    half = omega arith

pub bit_or_add : (k a r : ℕ) → a % 2 ^ k ≡ 0 → r < 2 ^ k → bit_or a r ≡ a + r
bit_or_add k a r e h = rw whole (bit_or_block k (a / 2 ^ k) r h)
  where
    whole : a ≡ a / 2 ^ k * 2 ^ k
    whole = omega (arith, div-add-mod a (2 ^ k))

bit_and_block : (k q r : ℕ) → r < 2 ^ k → bit_and (q * 2 ^ k + r) (2 ^ k - 1) ≡ r
bit_and_block zero q r h = rw (bit_and-zero (q * 1 + r)) (omega arith)
bit_and_block (suc k) q r h = rw (pow-suc 2 k) (
    omega (
      arith,
      pow-suc 2 k,
      one-le-pow k 2 (omega arith),
      bit_and_digit (q * (2 ^ k * 2) + r) (2 ^ k * 2 - 1),
      bit_and_block k q (r / 2) (omega (arith, pow-suc 2 k)),
      ap (λ (t : ℕ). bit_and t ((2 ^ k * 2 - 1) / 2)) half,
      ap (λ (t : ℕ). bit_and (q * 2 ^ k + r / 2) t) ones,
    ))
  where
    half : (q * (2 ^ k * 2) + r) / 2 ≡ q * 2 ^ k + r / 2
    half = omega arith

    ones : (2 ^ k * 2 - 1) / 2 ≡ 2 ^ k - 1
    ones = omega (arith, one-le-pow k 2 (omega arith))

-- A mask of `k` ones is the remainder by `2 ^ k`.
pub bit_and_mask : (k a : ℕ) → bit_and a (2 ^ k - 1) ≡ a % 2 ^ k
bit_and_mask k a =
    ap (λ t. bit_and t (2 ^ k - 1)) whole ∙ bit_and_block k (a / 2 ^ k) (a % 2 ^ k) small
  where
    small : a % 2 ^ k < 2 ^ k
    small = omega (arith, one-le-pow k 2 (omega arith))

    whole : a ≡ a / 2 ^ k * 2 ^ k + a % 2 ^ k
    whole = omega (arith, div-add-mod a (2 ^ k))

bit_and_upper :
    (k q r m : ℕ) → r < 2 ^ k → bit_and (q * 2 ^ k + r) (m * 2 ^ k) ≡ bit_and q m * 2 ^ k
bit_and_upper zero q zero m h =
    omega (arith, ap (λ (t : ℕ). bit_and t (m * 1)) left, ap (λ (t : ℕ). bit_and q t) right)
  where
    left : q * 1 + 0 ≡ q
    left = omega arith

    right : m * 1 ≡ m
    right = omega arith
bit_and_upper zero q (suc r) m h = absurd (omega arith)
bit_and_upper (suc k) q r m h = rw (pow-suc 2 k) (
    omega (
      arith,
      bit_and_digit (q * (2 ^ k * 2) + r) (m * (2 ^ k * 2)),
      bit_and_upper k q (r / 2) m (omega (arith, pow-suc 2 k)),
      ap (λ (t : ℕ). bit_and t (m * (2 ^ k * 2) / 2)) left,
      ap (λ (t : ℕ). bit_and (q * 2 ^ k + r / 2) t) right,
    ))
  where
    left : (q * (2 ^ k * 2) + r) / 2 ≡ q * 2 ^ k + r / 2
    left = omega (arith, pow-suc 2 k)

    right : m * (2 ^ k * 2) / 2 ≡ m * 2 ^ k
    right = omega arith

-- A mask over the bits from `k` on keeps what it keeps of the shifted number.
pub bit_and_field : (k a m : ℕ) → bit_and a (m * 2 ^ k) ≡ bit_and (a / 2 ^ k) m * 2 ^ k
bit_and_field k a m =
    ap (λ t. bit_and t (m * 2 ^ k)) whole ∙ bit_and_upper k (a / 2 ^ k) (a % 2 ^ k) m small
  where
    small : a % 2 ^ k < 2 ^ k
    small = omega (arith, one-le-pow k 2 (omega arith))

    whole : a ≡ a / 2 ^ k * 2 ^ k + a % 2 ^ k
    whole = omega (arith, div-add-mod a (2 ^ k))

differ-zero : (a : ℕ) → differ a 0 ≡ a
differ-zero zero = refl
differ-zero (suc a) = refl

-- An operand without the top bit gains it from `^`, and one with it loses it.
pub bit_xor_gain : (k x : ℕ) → x < 2 ^ k → bit_xor x (2 ^ k) ≡ x + 2 ^ k
bit_xor_gain zero zero h = refl
bit_xor_gain zero (suc x) h = absurd (omega arith)
bit_xor_gain (suc k) x h = rw (pow-suc 2 k) (
    omega (
      arith,
      bit_xor_digit x (2 ^ k * 2),
      bit_xor_gain k (x / 2) (omega (arith, pow-suc 2 k)),
      ap (λ (t : ℕ). bit_xor (x / 2) t) half,
      ap (λ (t : ℕ). differ (x % 2) t) even,
      differ-zero (x % 2),
    ))
  where
    half : 2 ^ k * 2 / 2 ≡ 2 ^ k
    half = omega arith

    even : 2 ^ k * 2 % 2 ≡ 0
    even = omega arith

pub bit_xor_lose : (k x : ℕ) → x < 2 ^ k → bit_xor (x + 2 ^ k) (2 ^ k) ≡ x
bit_xor_lose zero zero h = refl
bit_xor_lose zero (suc x) h = absurd (omega arith)
bit_xor_lose (suc k) x h = rw (pow-suc 2 k) (
    omega (
      arith,
      bit_xor_digit (x + 2 ^ k * 2) (2 ^ k * 2),
      bit_xor_lose k (x / 2) (omega (arith, pow-suc 2 k)),
      ap (λ (t : ℕ). bit_xor t (2 ^ k * 2 / 2)) left,
      ap (λ (t : ℕ). bit_xor (x / 2 + 2 ^ k) t) half,
      ap (λ (t : ℕ). differ t (2 ^ k * 2 % 2)) low,
      ap (λ (t : ℕ). differ (x % 2) t) even,
      differ-zero (x % 2),
    ))
  where
    left : (x + 2 ^ k * 2) / 2 ≡ x / 2 + 2 ^ k
    left = omega arith

    half : 2 ^ k * 2 / 2 ≡ 2 ^ k
    half = omega arith

    even : 2 ^ k * 2 % 2 ≡ 0
    even = omega arith

    low : (x + 2 ^ k * 2) % 2 ≡ x % 2
    low = omega arith

max_comm : (a b : ℕ) → max a b ≡ max b a
max_comm a b = omega arith

bit_or-comm_below : (n a b : ℕ) → a ≤ n → b ≤ n → bit_or a b ≡ bit_or b a
bit_or-comm_below n zero zero p q = refl
bit_or-comm_below zero (suc a) b p q = absurd (omega arith)
bit_or-comm_below zero zero (suc b) p q = absurd (omega arith)
bit_or-comm_below (suc n) a b p q = omega (
  arith,
  bit_or_digit a b,
  bit_or_digit b a,
  max_comm (a % 2) (b % 2),
  bit_or-comm_below n (a / 2) (b / 2) (omega arith) (omega arith),
)

pub bit_or_comm : (a b : ℕ) → bit_or a b ≡ bit_or b a
bit_or_comm a b = bit_or-comm_below (a + b) a b (omega arith) (omega arith)
