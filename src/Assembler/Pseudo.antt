-- ===== src/Assembler/Pseudo.antt =====
-- Pseudoinstructions: assembler/src/expand_pseudoinstruction.cpp, and `pseudoinstruction_size` of
-- assembler/src/first_pass.cpp.
pub mod Decimals
pub mod Building
pub mod Sizes
use riscv_student_pack.Common.{
  ℕ, zero, suc, ◌+◌, ◌-◌, ◌/◌, ◌%◌, ◌^◌, Bool, true, false, ◌||◌, ◌&&◌, List, [], ◌∷◌, ◌++◌, Option,
  none, some, ltb, leb, ◌==◌, if◌then◌else◌, codes, add32, sub32, shl32, sra32,
}
use riscv_student_pack.Assembler.Chars.{str_eq, is_digit, head_or_nul}
use riscv_student_pack.Assembler.Immediates.{Label, find_label, parse_imm}
use riscv_student_pack.Assembler.Outcome.{Outcome, ok, undefined, or_exit, ◌>>=◌}

-- The digits of a number that has at most `more` of them, in front of `s`.
unfoldable pub digits_before : (more : ℕ) → ℕ → List ℕ → List ℕ
digits_before zero n s = s
digits_before (suc more) n s =
    let rest = digits_before more (n / 10) ((b'0' + n % 10) ∷ s) in
    if ltb n 10 then (b'0' + n) ∷ s else rest

-- `%d` of the `int32_t` with a pattern: ten digits are enough.
unfoldable pub print_int : ℕ → List ℕ
unfolding digits_before
print_int v =
    if ltb v (2 ^ 31) then digits_before 10 v [] else b'-' ∷ digits_before 10 (2 ^ 32 - v) []

-- `imm >= -2048 && imm <= 2047`
abbrev pub is_small : ℕ → Bool
is_small imm = ltb imm 2048 || leb (2 ^ 32 - 2048) imm

-- `(v + 0x800) >> 12`, where the sum of `int32_t` may overflow.
abbrev pub hi20 : ℕ → Outcome ℕ
hi20 v =
    if leb (2 ^ 31 - 2048) v && ltb v (2 ^ 31) then undefined else ok (sra32 (add32 v 0x800) 12)

-- `v - (hi20 << 12)`
abbrev pub lo12 : (v hi : ℕ) → ℕ
lo12 v hi = sub32 v (shl32 hi 12)

-- The two lines that build `v`, the upper part by `op`.
abbrev pub two_lines : (op a1 : List ℕ) → (v hi : ℕ) → List (List ℕ)
two_lines op a1 v hi =
    (op ++ (codes " " ++ (a1 ++ (codes ", " ++ print_int hi))))
    ∷ (codes "addi " ++ (a1 ++ (codes ", " ++ (a1 ++ (codes ", " ++ print_int (lo12 v hi))))))
    ∷ []

abbrev pub built : (op a1 : List ℕ) → ℕ → Outcome (List (List ℕ))
built op a1 v = do hi ← hi20 v; ok (two_lines op a1 v hi)

-- The `li` of `expand_pseudoinstruction` behind `parse_imm`.
abbrev pub expand_li : (a1 : List ℕ) → ℕ → Outcome (List (List ℕ))
expand_li a1 imm =
    if is_small imm
    then ok ((codes "addi " ++ (a1 ++ (codes ", x0, " ++ print_int imm))) ∷ [])
    else built (codes "lui") a1 imm

-- `Assembler::expand_pseudoinstruction`: the lines that it writes, whose number it returns.
unfoldable pub expand_pseudoinstruction :
    List Label → (op a1 a2 : List ℕ) → (current_pc : ℕ) → Outcome (List (List ℕ))
unfolding str_eq
expand_pseudoinstruction labels op a1 a2 pc =
    if str_eq op (codes "nop")
    then ok (codes "addi x0, x0, 0" ∷ [])
    else if str_eq op (codes "mv")
    then ok ((codes "addi " ++ (a1 ++ (codes ", " ++ (a2 ++ codes ", 0")))) ∷ [])
    else if str_eq op (codes "li")
    then or_exit (parse_imm labels a2) >>= expand_li a1
    else if str_eq op (codes "la")
    then or_exit (find_label labels a2) >>= (λ target. built (codes "auipc") a1 (sub32 target pc))
    else if str_eq op (codes "call")
    then ok ((codes "jal x1, " ++ a1) ∷ [])
    else if str_eq op (codes "ret")
    then ok (codes "jalr x0, x1, 0" ∷ [])
    else if str_eq op (codes "j")
    then ok ((codes "jal x0, " ++ a1) ∷ [])
    else ok []

abbrev pub small_size : Option ℕ → Option ℕ
small_size none = none
small_size (some imm) = some (if is_small imm then 1 else 2)

-- The `li` of `pseudoinstruction_size`: its operand is read only if it looks like a number.
abbrev pub li_size : List Label → (a2 : List ℕ) → Option ℕ
li_size labels a2 =
    if is_digit (head_or_nul a2) || head_or_nul a2 == b'-'
    then small_size (parse_imm labels a2)
    else some 2

-- `Assembler::pseudoinstruction_size`, in instructions; 0 for any other instruction.
unfoldable pub pseudoinstruction_size : List Label → (op a2 : List ℕ) → Option ℕ
unfolding str_eq
pseudoinstruction_size labels op a2 =
    if str_eq op (codes "nop") || str_eq op (codes "mv")
    then some 1
    else if str_eq op (codes "li")
    then li_size labels a2
    else if str_eq op (codes "la")
    then some 2
    else if str_eq op (codes "call")
    then some 1
    else if str_eq op (codes "ret")
    then some 1
    else if str_eq op (codes "j")
    then some 1
    else some 0

-- `is_pseudoinstruction`
unfoldable pub is_pseudoinstruction : (op : List ℕ) → Bool
unfolding str_eq
is_pseudoinstruction op =
    str_eq op (codes "li")
    || (str_eq op (codes "la")
        || (str_eq op (codes "mv")
            || (str_eq op (codes "nop")
                || (str_eq op (codes "call")
                    || (str_eq op (codes "ret") || str_eq op (codes "j"))))))
