-- ===== src/Assembler/Immediates.antt =====
-- assembler/src/utils.cpp: `find_label` and `parse_imm`. Numbers are the patterns of an `int32_t`.
use riscv_student_pack.Common.{
  ℕ, true, false, ◌||◌, ◌&&◌, List, [], ◌∷◌, Option, none, some, ◌==◌, if◌then◌else◌, get_or,
}
use riscv_student_pack.Scan.{number_from, long_to_int, drop_two, is_x}
use riscv_student_pack.Assembler.Chars.{is_digit, is_empty, str_eq}

-- `Label`
pub record Label : Type 0 where
  pub name : List ℕ
  pub addr : ℕ
  pub section_name : List ℕ

-- `Assembler::find_label`: the address of the first label of that name.
unfoldable pub find_label : List Label → List ℕ → Option ℕ
find_label [] name = none
find_label (l ∷ ls) name =
    let rest = find_label ls name in if str_eq l.name name then some l.addr else rest

abbrev pub hex_int : List ℕ → ℕ
hex_int [] = 0
hex_int (c ∷ s) =
    if c == b'-'
    then long_to_int true (number_from 16 0 (drop_two s))
    else long_to_int false (number_from 16 0 (drop_two (c ∷ s)))

abbrev pub decimal_int : List ℕ → ℕ
decimal_int [] = 0
decimal_int (c ∷ s) =
    if c == b'-'
    then long_to_int true (number_from 10 0 s)
    else long_to_int false (number_from 10 0 (c ∷ s))

-- `Assembler::parse_imm`
unfoldable pub parse_imm : List Label → List ℕ → Option ℕ
parse_imm labels s =
    if is_empty s
    then some 0
    else if get_or s 0 0 == b'0' && is_x (get_or s 1 0)
        || get_or s 0 0 == b'-' && (get_or s 1 0 == b'0' && is_x (get_or s 2 0))
    then some (hex_int s)
    else if is_digit (get_or s 0 0) || get_or s 0 0 == b'-' && is_digit (get_or s 1 0)
    then some (decimal_int s)
    else find_label labels s
