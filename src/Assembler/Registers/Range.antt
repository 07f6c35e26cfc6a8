-- ===== src/Assembler/Registers/Range.antt =====
-- utils.cpp: the results of `reg_num`.
use riscv_student_pack.Common.{
  ℕ, zero, suc, ◌+◌, ◌/◌, ◌%◌, ◌<◌, ◌≡◌, ◌⊎◌, inl, inr, refl, sym, ap, Bool, true, false, List, [],
  ◌∷◌, some, ltb, ◌==◌, if◌then◌else◌, take, All, arith, Option-cases, Bool-cases, ==_iff, ◌∙◌,
}
use riscv_student_pack.Assembler.Chars.{is_empty}
use riscv_student_pack.Assembler.Registers.{
  no_register, alnum_prefix, abi_names, lookup_name, numbered, reg_num,
}

abbrev IsResult : ℕ → Type 0
IsResult n = (n < 32) ⊎ (n ≡ no_register)

lookup_name-lt :
    (name : List ℕ) (table : List (List ℕ × ℕ)) (r : ℕ)
    → All (λ p. p.1 < 32) table
    → lookup_name name table ≡ some r
    → r < 32
unfolding lookup_name
lookup_name-lt name [] q h e = cc
lookup_name-lt name ((n, r) ∷ rest) q (small, smalls) e =
    ground (arith, lookup_name-lt name rest q smalls)

numbered-IsResult : (name : List ℕ) → IsResult (numbered name)
unfolding numbered
numbered-IsResult [] = inr refl
numbered-IsResult (c ∷ s) = ground arith

abi_names_fit : All (λ p. p.1 < 32) abi_names
abi_names_fit = omega arith

-- `reg_num` returns a register number below 32, or -1.
pub reg_num_range : (r : List ℕ) → (reg_num r < 32) ⊎ (reg_num r ≡ no_register)
reg_num_range r =
    let name = take 15 (alnum_prefix r) in
    unfold reg_num in
    elim (Bool-cases (is_empty (alnum_prefix r))) [
      | inl e ↦ rw e (inr refl)
      | inr e ↦ elim (Option-cases (lookup_name name abi_names)) [
        | inl f ↦ rw (e, f) (numbered-IsResult name)
        | inr (n, f) ↦ rw (e, f) (inl (lookup_name-lt name abi_names n abi_names_fit f))
      ]
    ]

-- One or two decimal digits.
abbrev pub decimal : ℕ → List ℕ
decimal n = if ltb n 10 then (b'0' + n) ∷ [] else (b'0' + n / 10) ∷ (b'0' + n % 10) ∷ []

-- Whether each of the names from `x0` on, `count` of them, is read as its number.
names_agree : (count : ℕ) → Bool
unfolding reg_num numbered
names_agree zero = true
names_agree (suc last) =
    let earlier = names_agree last in
    if reg_num (b'x' ∷ decimal last) == last then earlier else false

names_agree-reads :
    (count r : ℕ) → r < count → names_agree count ≡ true → reg_num (b'x' ∷ decimal r) ≡ r
unfolding names_agree
names_agree-reads zero r small agree = absurd (omega arith)
names_agree-reads (suc last) r small agree =
    elim (Bool-cases (reg_num (b'x' ∷ decimal last) == last)) [
      | inr differs ↦ cc (ap (λ (b : Bool). if b then names_agree last else false) differs)
      | inl same ↦ elim (Bool-cases (r == last)) [
        | inl at ↦
            let here : r ≡ last = (==_iff r last).0 at in
            ap (λ (n : ℕ). reg_num (b'x' ∷ decimal n)) here ∙ (==_iff _ last).0 same ∙ sym here
        | inr before ↦
            names_agree-reads last r (ground arith)
              (sym (ap (λ (b : Bool). if b then names_agree last else false) same) ∙ agree)
      ]
    ]

-- `reg_num` returns the number of each of the names `x0` to `x31`.
pub reg_num_x : (n : ℕ) → n < 32 → reg_num (b'x' ∷ decimal n) ≡ n
unfolding names_agree reg_num numbered
reg_num_x n h = names_agree-reads 32 n h refl
