-- ===== src/Assembler/SecondPass/Data.antt =====
-- assembler/src/second_pass.cpp: `process_data_directive`, as the bytes that it writes.
use riscv_student_pack.Common.{
  ℕ, zero, suc, ◌^◌, Bool, ◌||◌, ◌&&◌, List, [], ◌∷◌, ◌++◌, Option, none, some, ltb, leb, ◌==◌,
  if◌then◌else◌, codes, length,
}
use riscv_student_pack.Scan.{strtol_auto, scan_decimal}
use riscv_student_pack.Assembler.Outcome.{Outcome, ok, unfinished, or_exit, ◌>>=◌}
use riscv_student_pack.Assembler.Chars.{is_space, is_digit, trim}
use riscv_student_pack.Assembler.Text.{drop}
use riscv_student_pack.Assembler.Immediates.{Label, parse_imm}
use riscv_student_pack.Assembler.Sections.{starts_with}
use riscv_student_pack.Assembler.FirstPass.{is_blank, string_of}
use riscv_student_pack.Assembler.SecondPass.Output.{low_bytes}

-- `while (*ptr == ',' || isspace(*ptr)) ptr++;`
unfoldable pub skip_separators : List ℕ → List ℕ
skip_separators [] = []
skip_separators (c ∷ s) =
    let rest = skip_separators s in if c == b',' || is_space c then rest else c ∷ s

-- `strspn(ptr, "0123456789abcdefABCDEFxX-+")`
abbrev pub in_number : ℕ → Bool
in_number c =
    is_digit c
    || (leb b'a' c && leb c b'f'
        || (leb b'A' c && leb c b'F' || (c == b'x' || (c == b'X' || (c == b'-' || c == b'+')))))

unfoldable pub after_number : List ℕ → List ℕ
after_number [] = []
after_number (c ∷ s) = let rest = after_number s in if in_number c then rest else c ∷ s

-- How a value of a list is read: the value and the text behind it.
abbrev pub Reader : Type 0
Reader = List ℕ → Outcome (ℕ × List ℕ)

-- `.byte`
abbrev pub read_byte : Reader
read_byte s = ok (strtol_auto s)

-- `.half` and `.word`
abbrev pub read_imm : List Label → Reader
read_imm labels s = do v ← or_exit (parse_imm labels s); ok (v, after_number s)

abbrev cons_value : ℕ → Outcome (List ℕ) → Outcome (List ℕ)
cons_value v o = do vs ← o; ok (v ∷ vs)

-- The loop over the values of a directive: the values that it writes.
unfoldable pub read_values : (fuel : ℕ) → Reader → List ℕ → Outcome (List ℕ)
unfolding skip_separators
read_values fuel read [] = ok []
read_values zero read (c ∷ s) = unfinished
read_values (suc fuel) read (c ∷ s) =
    let more = read_values fuel read (skip_separators (c ∷ s)) in
    let value = (do
      r ← read (c ∷ s)
      cons_value (r.0) (read_values fuel read (skip_separators (r.1)))) in
    if is_blank c then more else value

-- Each value as its low `n` bytes.
abbrev pub value_bytes : ℕ → List ℕ → List ℕ
value_bytes n [] = []
value_bytes n (v ∷ vs) = low_bytes n v ++ value_bytes n vs

-- More rounds than the text has bytes.
abbrev pub list_bytes : ℕ → Reader → List ℕ → Outcome (List ℕ)
list_bytes n read s = do vs ← read_values (suc (length s)) read s; ok (value_bytes n vs)

abbrev pub zeros : ℕ → List ℕ
zeros zero = []
zeros (suc n) = 0 ∷ zeros n

-- `for (int i = 0; i < size; i++)`: no rounds for a negative size.
abbrev pub space_bytes : Option ℕ → List ℕ
space_bytes none = []
space_bytes (some size) = if ltb size (2 ^ 31) then zeros size else []

-- `Assembler::process_data_directive`
unfoldable pub data_bytes : List Label → List ℕ → Outcome (List ℕ)
unfolding starts_with string_of read_values after_number
data_bytes labels line =
    let s = trim line in
    if starts_with (codes ".asciiz") s
    then (do bytes ← or_exit (string_of s); ok (bytes ++ (0 ∷ [])))
    else if starts_with (codes ".ascii") s
    then or_exit (string_of s)
    else if starts_with (codes ".byte") s
    then list_bytes 1 read_byte (drop 5 s)
    else if starts_with (codes ".half") s
    then list_bytes 2 (read_imm labels) (drop 5 s)
    else if starts_with (codes ".word") s
    then list_bytes 4 (read_imm labels) (drop 5 s)
    else if starts_with (codes ".space") s
    then ok (space_bytes (scan_decimal (drop 6 s)))
    else ok []
