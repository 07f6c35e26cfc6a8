-- ===== src/Assembler/Registers.antt =====
-- assembler/src/utils.cpp: `Assembler::reg_num`. The result is the pattern of an `int`, -1 for a
-- text that names no register.
pub mod Range
use riscv_student_pack.Common.{
  ℕ, zero, suc, ◌+◌, ◌-◌, ◌*◌, ◌^◌, ◌≤◌, ◌<◌, ◌≡◌, ◌⊎◌, inl, inr, refl, Bool, true, false, not,
  ◌||◌, ◌&&◌, List, [], ◌∷◌, Option, none, some, ltb, leb, ◌==◌, if◌then◌else◌, take, codes, All,
  arith,
}
use riscv_student_pack.Assembler.Chars.{is_alnum, is_digit, is_empty, str_eq}

abbrev pub no_register : ℕ
no_register = 2 ^ 32 - 1

-- The loop that counts the alphanumeric bytes at the front, as the bytes themselves.
unfoldable pub alnum_prefix : List ℕ → List ℕ
alnum_prefix [] = []
alnum_prefix (c ∷ s) = let rest = alnum_prefix s in if is_alnum c then c ∷ rest else []

-- The chain of `strcmp` tests on the ABI names.
abbrev pub abi_names : List (List ℕ × ℕ)
abi_names =
    (codes "zero", 0)
    ∷ (codes "ra", 1)
    ∷ (codes "sp", 2)
    ∷ (codes "gp", 3)
    ∷ (codes "tp", 4)
    ∷ (codes "t0", 5)
    ∷ (codes "t1", 6)
    ∷ (codes "t2", 7)
    ∷ (codes "s0", 8)
    ∷ (codes "fp", 8)
    ∷ (codes "s1", 9)
    ∷ (codes "a0", 10)
    ∷ (codes "a1", 11)
    ∷ (codes "a2", 12)
    ∷ (codes "a3", 13)
    ∷ (codes "a4", 14)
    ∷ (codes "a5", 15)
    ∷ (codes "a6", 16)
    ∷ (codes "a7", 17)
    ∷ (codes "s2", 18)
    ∷ (codes "s3", 19)
    ∷ (codes "s4", 20)
    ∷ (codes "s5", 21)
    ∷ (codes "s6", 22)
    ∷ (codes "s7", 23)
    ∷ (codes "s8", 24)
    ∷ (codes "s9", 25)
    ∷ (codes "s10", 26)
    ∷ (codes "s11", 27)
    ∷ (codes "t3", 28)
    ∷ (codes "t4", 29)
    ∷ (codes "t5", 30)
    ∷ (codes "t6", 31)
    ∷ []

unfoldable pub lookup_name : List ℕ → List (List ℕ × ℕ) → Option ℕ
unfolding str_eq
lookup_name name [] = none
lookup_name name ((n, r) ∷ rest) = if str_eq name n then some r else lookup_name name rest

-- `strtol(s, &end, 10)` on a text with no sign and no space, and whether `*end` is the NUL.
-- At most fourteen digits come here, so that no `long` overflows.
unfoldable pub digits_from : ℕ → List ℕ → ℕ × Bool
digits_from acc [] = (acc, true)
digits_from acc (c ∷ s) =
    let rest = digits_from (acc * 10 + (c - b'0')) s in if is_digit c then rest else (acc, false)

-- What `reg_num` makes of a name that is not an ABI name.
unfoldable pub numbered : List ℕ → ℕ
unfolding digits_from
numbered [] = no_register
numbered (c ∷ digits) =
    if not (c == b'x')
    then no_register
    else let (n, ended) = digits_from 0 digits in if not ended || ltb 31 n then no_register else n

abbrev pub found_or_numbered : List ℕ → Option ℕ → ℕ
found_or_numbered name (some n) = n
found_or_numbered name none = numbered name

-- `Assembler::reg_num`
unfoldable pub reg_num : List ℕ → ℕ
unfolding alnum_prefix lookup_name
reg_num r =
    let name = take 15 (alnum_prefix r) in
    if is_empty (alnum_prefix r)
    then no_register
    else found_or_numbered name (lookup_name name abi_names)
