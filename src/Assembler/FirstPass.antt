-- ===== src/Assembler/FirstPass.antt =====
-- assembler/src/first_pass.cpp: labels and sizes. `none` is `exit(1)`.
pub mod Tables
pub mod States
pub mod Invariant
pub mod Placement
use riscv_student_pack.Common.{
  ℕ, zero, suc, ◌+◌, ◌*◌, Bool, true, false, not, ◌||◌, List, [], ◌∷◌, ◌++◌, Option, none, some,
  ltb, ◌==◌, if◌then◌else◌, codes, take, length, add32,
}
use riscv_student_pack.Memory.{◌>>=◌}
use riscv_student_pack.Scan.{scan_decimal}
use riscv_student_pack.Assembler.Chars.{str_eq, is_empty, skip_spaces, trim, head_or_nul}
use riscv_student_pack.Assembler.Text.{
  drop, split_at, cut_at, word, after_word, trim_in_place, contains, until_delimiter,
}
use riscv_student_pack.Assembler.Escapes.{parse_escaped_string}
use riscv_student_pack.Assembler.Immediates.{Label}
use riscv_student_pack.Assembler.Sections.{
  SectionType, sec_text, sec_data, sec_rodata, sec_bss, sec_custom, SectionInfo, Sections,
  starts_with, switch_section,
}
use riscv_student_pack.Assembler.State.{Assembler, get_current_section, grow_current}
use riscv_student_pack.Assembler.Pseudo.{pseudoinstruction_size}

-- The operands of `parse_simple_args` behind the mnemonic: by the first comma, 30 bytes of each.
abbrev pub simple_operands : List ℕ → Option (List ℕ × List ℕ) → List ℕ × List ℕ
simple_operands s none = (trim_in_place (take 30 s), [])
simple_operands s (some (before, after)) =
    (trim_in_place (take 30 before), trim_in_place (take 30 (skip_spaces after)))

-- `Assembler::parse_simple_args`: the mnemonic and two operands.
unfoldable pub parse_simple_args : List ℕ → List ℕ × List ℕ × List ℕ
unfolding word after_word split_at trim_in_place
parse_simple_args s =
    let line = skip_spaces (take 511 s) in
    let operands = skip_spaces (after_word line) in
    let (a1, a2) = simple_operands operands (split_at b',' operands) in
    (take 15 (word line), a1, a2)

-- `get_current_section().offset += size`, and `pc_text` or `pc_data` with it.
unfoldable pub grow_text : ℕ → Assembler → Assembler
unfolding grow_current
grow_text size a =
    if str_eq a.current_section_name (codes ".text")
    then record (grow_current size a) { pc_text = add32 a.pc_text size }
    else grow_current size a

unfoldable pub grow_data : ℕ → Assembler → Assembler
unfolding grow_current
grow_data size a =
    if str_eq a.current_section_name (codes ".data")
    then record (grow_current size a) { pc_data = add32 a.pc_data size }
    else grow_current size a

-- The bytes that an instruction of so many pseudoinstruction words takes.
abbrev pub bytes_of : ℕ → ℕ
bytes_of words = if ltb 0 words then words * 4 else 4

-- `Assembler::process_instruction_first_pass`
unfoldable pub process_instruction_first_pass : List ℕ → Assembler → Option Assembler
unfolding parse_simple_args grow_text
process_instruction_first_pass s a = do
  let (op, a1, a2) = parse_simple_args s
  words ← pseudoinstruction_size a.labels op a2
  some (grow_text (bytes_of words) a)

unfoldable pub has_label : List Label → List ℕ → Bool
has_label [] name = false
has_label (l ∷ ls) name = if str_eq l.name name then true else has_label ls name

-- The label with a name that `process_label` has trimmed, or `exit(1)` for a duplicate.
unfoldable pub add_label : List ℕ → Assembler → Option Assembler
unfolding has_label get_current_section
add_label name a =
    let (s, sections') = get_current_section a in
    if has_label a.labels name
    then none
    else some (record a {
      labels =
          a.labels
          ++ record { name = name; addr = s.offset; section_name = a.current_section_name } ∷ [];
      sections = sections';
    })

-- `Assembler::process_label` with what stands before the first colon.
unfoldable pub process_label : List ℕ → Assembler → Option Assembler
unfolding add_label
process_label before a =
    let start = skip_spaces before in
    if is_empty start then some a else add_label (trim (take 63 start)) a

abbrev pub is_blank : ℕ → Bool
is_blank c = c == b' ' || (c == 9 || c == b',')

-- The loop that counts the values of a data directive, outside and inside of one.
unfoldable pub count_values : (inside : Bool) → List ℕ → ℕ
count_values inside [] = 0
count_values true (c ∷ s) = count_values (not (c == b',')) s
count_values false (c ∷ s) =
    let next = count_values false s in
    let value = count_values true s in if is_blank c then next else suc value

-- The text of a string directive: behind the first quote.
abbrev pub quoted : Option (List ℕ × List ℕ) → Option (List ℕ)
quoted none = none
quoted (some (before, after)) = parse_escaped_string after

unfoldable pub string_of : List ℕ → Option (List ℕ)
unfolding split_at
string_of s = quoted (split_at 34 s)

abbrev pub grow_space : Option ℕ → Assembler → Assembler
grow_space none a = a
grow_space (some size) a = grow_data size a

-- `Assembler::process_directive`
unfoldable pub process_directive : List ℕ → Assembler → Option Assembler
unfolding starts_with count_values string_of grow_data
process_directive line a =
    let s = trim line in
    if starts_with (codes ".asciiz") s
    then (do bytes ← string_of s; some (grow_data (length bytes + 1) a))
    else if starts_with (codes ".ascii") s
    then (do bytes ← string_of s; some (grow_data (length bytes) a))
    else if starts_with (codes ".byte") s
    then some (grow_data (count_values false (drop 5 s)) a)
    else if starts_with (codes ".half") s
    then some (grow_data (count_values false (drop 5 s) * 2) a)
    else if starts_with (codes ".word") s
    then some (grow_data (count_values false (drop 5 s) * 4) a)
    else if starts_with (codes ".space") s
    then some (grow_space (scan_decimal (drop 6 s)) a)
    else some a

abbrev pub is_text : SectionType → Bool
is_text sec_text = true
is_text _ = false

-- `switch_section` on the state.
unfoldable pub enter_section : List ℕ → Assembler → Assembler
enter_section name a =
    let (current, sections') = switch_section name a.sections in
    record a { current_section_name = current; sections = sections' }

-- `get_current_section().type`, which may enter the section into the table.
abbrev pub current_type : Assembler → SectionType
current_type a = (get_current_section a).0.type

abbrev pub touch_current : Assembler → Assembler
touch_current a = record a { sections = (get_current_section a).1 }

-- What stands behind a label on its line.
unfoldable pub process_rest : List ℕ → Assembler → Option Assembler
unfolding process_instruction_first_pass process_directive get_current_section
process_rest after a =
    let s = skip_spaces after in
    if is_empty s || head_or_nul s == b'#'
    then some a
    else if is_text (current_type a)
    then process_instruction_first_pass s (touch_current a)
    else if head_or_nul s == b'.'
    then process_directive s (touch_current a)
    else some (touch_current a)

-- A line with no label.
unfoldable pub process_unlabelled : List ℕ → Assembler → Option Assembler
unfolding process_instruction_first_pass process_directive get_current_section
process_unlabelled s a =
    if head_or_nul s == b'.'
    then process_directive s a
    else if is_text (current_type a)
    then process_instruction_first_pass s (touch_current a)
    else some (touch_current a)

unfoldable pub process_statement : List ℕ → Option (List ℕ × List ℕ) → Assembler → Option Assembler
unfolding process_label process_rest process_unlabelled
process_statement s none a = process_unlabelled s a
process_statement s (some (before, after)) a = do a' ← process_label before a; process_rest after a'

-- The name of a `.section` directive, at most 63 bytes.
abbrev pub section_argument : List ℕ → List ℕ
section_argument s = take 63 (until_delimiter (skip_spaces (drop 8 s)))

-- The body of the loop of `first_pass` on one line.
unfoldable pub first_pass_line : List ℕ → Assembler → Option Assembler
unfolding str_eq starts_with enter_section contains cut_at split_at until_delimiter
    process_statement
first_pass_line line a =
    let s = trim line in
    let statement = trim (cut_at b'#' s) in
    if is_empty s || head_or_nul s == b'#'
    then some a
    else if starts_with (codes ".section") s
    then some (if is_empty (section_argument s) then a else enter_section (section_argument s) a)
    else if str_eq s (codes ".text")
    then some (enter_section (codes ".text") a)
    else if str_eq s (codes ".data")
    then some (enter_section (codes ".data") a)
    else if str_eq s (codes ".rodata")
    then some (enter_section (codes ".rodata") a)
    else if str_eq s (codes ".bss")
    then some (enter_section (codes ".bss") a)
    else if contains (codes ".globl") s
    then some a
    else process_statement statement (split_at b':' statement) a

unfoldable pub first_pass_lines : List (List ℕ) → Assembler → Option Assembler
unfolding first_pass_line
first_pass_lines [] a = some a
first_pass_lines (l ∷ ls) a = do a' ← first_pass_line l a; first_pass_lines ls a'

abbrev pub in_data : SectionType → Bool
in_data sec_text = false
in_data sec_custom = false
in_data _ = true

-- The loop that adds up the sizes of the sections that a test picks.
unfoldable pub total_size : (SectionType → Bool) → Sections → ℕ
total_size picks [] = 0
total_size picks ((key, s) ∷ rest) =
    add32 (if picks s.type then s.offset else 0) (total_size picks rest)

abbrev pub with_sizes : Assembler → Assembler
with_sizes a = record a {
  text_size = total_size is_text a.sections;
  data_size = total_size in_data a.sections;
}

-- `Assembler::first_pass` on the lines of the file.
unfoldable pub first_pass : List (List ℕ) → Assembler → Option Assembler
unfolding first_pass_lines total_size
first_pass ls a = do
  a' ← first_pass_lines ls (record a { labels = []; pc_text = 0; pc_data = 0 })
  some (with_sizes a')
