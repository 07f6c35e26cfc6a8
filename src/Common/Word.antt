-- ===== src/Common/Word.antt =====
-- Machine words as numbers below `2 ^ w`. An `int32_t` is its two's complement bit pattern.
use Prim.Native.Nat.{ℕ, ◌+◌, ◌-◌, ◌*◌, ◌/◌, ◌%◌, ◌^◌, ◌<◌, ◌≤◌}
use mathlib.Core.Logic.{◌⊎◌}
use riscv_student_pack.Common.Tests.{ltb, if◌then◌else◌}

abbrev pub u8 : ℕ → ℕ
u8 n = n % 2 ^ 8

abbrev pub u32 : ℕ → ℕ
u32 n = n % 2 ^ 32

-- Wrapping `+`, `-`, `*` and `<<` of `uint32_t`, and the logical `>>`.
abbrev pub add32 : ℕ → ℕ → ℕ
add32 a b = u32 (a + b)

abbrev pub sub32 : ℕ → ℕ → ℕ
sub32 a b = u32 (a + 2 ^ 32 - b)

abbrev pub shl32 : ℕ → ℕ → ℕ
shl32 x k = u32 (x * 2 ^ k)

abbrev pub shr : ℕ → ℕ → ℕ
shr x k = x / 2 ^ k

-- `>>` of an `int32_t`: arithmetic, so it rounds down.
abbrev pub sra32 : ℕ → ℕ → ℕ
sra32 x k = if ltb x (2 ^ 31) then x / 2 ^ k else 2 ^ 32 - 1 - (2 ^ 32 - 1 - x) / 2 ^ k

-- The bits of `w` from `lo` on, `n` of them.
abbrev pub slice : ℕ → ℕ → ℕ → ℕ
slice w lo n = w / 2 ^ lo % 2 ^ n

-- The pattern of the two's complement number that the low `bits` bits `v` stand for.
abbrev pub sext : ℕ → ℕ → ℕ
sext bits v = if ltb v (2 ^ bits / 2) then v else v + 2 ^ 32 - 2 ^ bits

abbrev pub IsU32 : ℕ → Type 0
IsU32 n = n < 2 ^ 32

abbrev pub IsByte : ℕ → Type 0
IsByte n = n < 256

-- The pattern `imm` is a two's complement number that fits `bits` bits.
abbrev pub FitsSigned : ℕ → ℕ → Type 0
FitsSigned bits imm = (imm < 2 ^ bits / 2) ⊎ ((imm < 2 ^ 32) × (2 ^ 32 ≤ imm + 2 ^ bits / 2))
