-- ===== src/Assembler/SecondPass.antt =====
-- assembler/src/second_pass.cpp: `second_pass`, which writes the binary. Its parts stand in the
-- children.
pub mod Output
pub mod Arguments
pub mod Data
pub mod Tokens
pub mod Lines
pub mod Indirect
pub mod Expansion
pub mod Fetching
pub mod Constants
pub mod SameLine
pub mod Directives
pub mod Numerals
pub mod Finishing
pub mod Sizes
use riscv_student_pack.Common.{
  ℕ, zero, suc, ◌+◌, Bool, true, false, ◌||◌, List, [], ◌∷◌, ◌++◌, Option, none, some, ◌==◌,
  if◌then◌else◌, codes,
}
use riscv_student_pack.Assembler.Outcome.{Outcome, ok, or_exit, ◌>>=◌}
use riscv_student_pack.Assembler.Chars.{str_eq, is_empty, skip_spaces, trim, head_or_nul}
use riscv_student_pack.Assembler.Text.{split_at, cut_at, contains, until_delimiter}
use riscv_student_pack.Assembler.Immediates.{Label}
use riscv_student_pack.Assembler.Sections.{
  SectionType, sec_text, sec_data, SectionInfo, Sections, starts_with, find_section,
}
use riscv_student_pack.Assembler.Pseudo.{expand_pseudoinstruction, is_pseudoinstruction}
use riscv_student_pack.Assembler.Instructions.{encode_instruction}
use riscv_student_pack.Assembler.State.{Assembler}
use riscv_student_pack.Assembler.FirstPass.{is_text, section_argument}
use Output.{Writer, emit, emit_word, go_to, new_writer}
use Arguments.{
  Operands, no_operands, parse_instruction_args, trimmed, without_commas, without_parentheses,
}
use Data.{data_bytes}

-- The fields of the assembler that the pass reads, and what the uninitialised buffers `exp_a1` to
-- `exp_a3` hold.
pub record Tables : Type 0 where
  pub labels : List Label
  pub sections : Sections
  pub stale : Operands

-- One line of an expanded pseudoinstruction.
unfoldable pub assemble_expanded : Tables → List ℕ → Writer → Outcome Writer
unfolding parse_instruction_args cut_at split_at emit_word
assemble_expanded t line w = do
  args ← parse_instruction_args (cut_at b'#' line) t.stale
  let x = trimmed args
  word ← or_exit (encode_instruction t.labels w.pc x.op x.a1 x.a2 x.a3)
  ok (emit_word word w)

-- The loop over the expanded lines.
unfoldable pub assemble_lines : Tables → List (List ℕ) → Writer → Outcome Writer
unfolding assemble_expanded
assemble_lines t [] w = ok w
assemble_lines t (l ∷ ls) w = do w' ← assemble_expanded t l w; assemble_lines t ls w'

-- The test for a pseudoinstruction and its two branches.
unfoldable pub assemble_operands : Tables → Operands → Writer → Outcome Writer
unfolding is_pseudoinstruction assemble_lines expand_pseudoinstruction emit_word
assemble_operands t x w =
    if is_pseudoinstruction x.op
    then (do ls ← expand_pseudoinstruction t.labels x.op x.a1 x.a2 w.pc; assemble_lines t ls w)
    else (do
      word ← or_exit (encode_instruction t.labels w.pc x.op x.a1 x.a2 x.a3)
      ok (emit_word word w))

-- `Assembler::process_instruction_second_pass`
unfoldable pub process_instruction_second_pass : Tables → List ℕ → Writer → Outcome Writer
unfolding without_parentheses parse_instruction_args assemble_operands cut_at split_at
process_instruction_second_pass t s w = do
  line ← without_parentheses (trim (cut_at b'#' s))
  args ← parse_instruction_args line no_operands
  assemble_operands t (without_commas (trimmed args)) w

-- The type of the current section, which decides what a line may be.
abbrev pub type_or : SectionType → Option SectionInfo → SectionType
type_or default none = default
type_or default (some s) = s.type

-- A statement behind comment and label.
unfoldable pub write_statement : Tables → List ℕ → Writer → Outcome Writer
unfolding process_instruction_second_pass data_bytes find_section emit
write_statement t s w =
    if head_or_nul s == b'.'
    then (if is_text (type_or sec_data (find_section w.section t.sections))
        then ok w
        else (do bytes ← data_bytes t.labels s; ok (emit bytes w)))
    else if is_text (type_or sec_text (find_section w.section t.sections))
    then process_instruction_second_pass t s w
    else ok w

-- `section`, and the place in the file of a section that the table has.
abbrev pub moved_to : Writer → Option SectionInfo → Writer
moved_to w none = w
moved_to w (some s) = go_to s.base_addr w

unfoldable pub enter : Tables → List ℕ → Writer → Writer
unfolding find_section
enter t name w = moved_to (record w { section = name }) (find_section name t.sections)

-- A line with comment stripped, by the label in front of it.
unfoldable pub write_labelled : Tables → List ℕ → Option (List ℕ × List ℕ) → Writer → Outcome Writer
unfolding write_statement
write_labelled t s none w = write_statement t s w
write_labelled t s (some (before, after)) w =
    if is_empty (skip_spaces after) || head_or_nul (skip_spaces after) == b'#'
    then ok w
    else write_statement t (trim after) w

-- The body of the loop of `second_pass` on one line; `data_base` is `pc_text`.
unfoldable pub second_pass_line : Tables → (data_base : ℕ) → List ℕ → Writer → Outcome Writer
unfolding str_eq starts_with enter contains cut_at split_at until_delimiter write_labelled
second_pass_line t data_base line w =
    let s = trim line in
    let statement = trim (cut_at b'#' s) in
    if is_empty s || head_or_nul s == b'#'
    then ok w
    else if starts_with (codes ".section") s
    then ok (if is_empty (section_argument s) then w else enter t (section_argument s) w)
    else if str_eq s (codes ".text")
    then ok (go_to 0 (record w { section = codes ".text" }))
    else if str_eq s (codes ".data")
    then ok (go_to data_base (record w { section = codes ".data" }))
    else if str_eq s (codes ".rodata")
    then ok (enter t (codes ".rodata") w)
    else if str_eq s (codes ".bss")
    then ok (enter t (codes ".bss") w)
    else if contains (codes ".globl") s
    then ok w
    else write_labelled t statement (split_at b':' statement) w

unfoldable pub second_pass_lines :
    Tables → (data_base : ℕ) → List (List ℕ) → Writer → Outcome Writer
unfolding second_pass_line
second_pass_lines t data_base [] w = ok w
second_pass_lines t data_base (l ∷ ls) w = do
  w' ← second_pass_line t data_base l w
  second_pass_lines t data_base ls w'

-- `Assembler::second_pass` on the lines of the file.
unfoldable pub second_pass : Assembler → (stale : Operands) → List (List ℕ) → Outcome Writer
unfolding second_pass_lines
second_pass a stale ls =
    second_pass_lines (record { labels = a.labels; sections = a.sections; stale = stale }) a.pc_text
      ls new_writer
