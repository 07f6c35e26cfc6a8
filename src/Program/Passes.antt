-- ===== src/Program/Passes.antt =====
-- The text of a program in both passes (assembler/src/main.cpp, assembler/src/first_pass.cpp and
-- assembler/src/second_pass.cpp).
use riscv_student_pack.Common.{
  ℕ, ◌*◌, ◌≡◌, refl, sym, ap, ◌∙◌, true, List, [], ◌∷◌, ◌++◌, map, Option, some, codes, length,
  add32, All,
}
use riscv_student_pack.Memory
use riscv_student_pack.Assembler.Outcome.{Outcome, ok, ◌>>=◌}
use riscv_student_pack.Assembler.Chars.{str_eq}
use riscv_student_pack.Assembler.Sections.{
  sec_text, sec_data, sec_rodata, sec_bss, find_section, adjust_labels, place_sections,
  place_custom, set_base,
}
use riscv_student_pack.Assembler.State.{
  Assembler, new_assembler, empty_section, get_current_section, grow_current, add_offset,
}
use riscv_student_pack.Assembler.FirstPass.{
  grow_text, process_instruction_first_pass, is_text, process_unlabelled, process_statement,
  first_pass_line, first_pass_lines, with_sizes, first_pass,
}
use riscv_student_pack.Assembler.Main.{adjusted, assemble}
use riscv_student_pack.Assembler.SecondPass.{
  Tables, process_instruction_second_pass, type_or, write_statement, write_labelled,
  second_pass_line, second_pass_lines, second_pass,
}
use riscv_student_pack.Assembler.SecondPass.Arguments.{Operands}
use riscv_student_pack.Assembler.SecondPass.Output.{Writer, new_writer, emit_word}
use riscv_student_pack.Assembler.SecondPass.Tokens.{trim-plain, split_at-Lacks, cut_at-Lacks}
use riscv_student_pack.Program.{Statement, line, text, words_of, code, emit_words, IsGood}
use riscv_student_pack.Program.Clean.{line-IsLine}
use riscv_student_pack.Program.Lines.{IsLine, Lacks-hash, Lacks-colon, contains-no_dot}
use riscv_student_pack.Program.Statements.{statement-first, statement-second}
use riscv_student_pack.Program.Reading.{file_line, lines-text, trim-newline, IsLine-IsStatement}

-- The state of the first pass behind `n` bytes of such lines.
abbrev pub behind : ℕ → Assembler
behind n = record {
  labels = [];
  sections =
      (codes ".bss", empty_section (codes ".bss") sec_bss)
      ∷ (codes ".data", empty_section (codes ".data") sec_data)
      ∷ (codes ".rodata", empty_section (codes ".rodata") sec_rodata)
      ∷ (codes ".text", record { name = codes ".text"; type = sec_text; offset = n; base_addr = 0 })
      ∷ [];
  current_section_name = codes ".text";
  pc_text = n;
  pc_data = 0;
  text_size = 0;
  data_size = 0;
}

grow_text-behind : (n size : ℕ) → grow_text size (behind n) ≡ behind (add32 n size)
unfolding grow_text grow_current add_offset get_current_section find_section str_eq
grow_text-behind n size = refl

-- A line in each pass.
module _ (l : List ℕ) (h : IsLine l) where
  first_pass_line-statement :
      (n : ℕ)
      → first_pass_line (l ++ (10 ∷ [])) (behind n) ≡ process_instruction_first_pass l (behind n)
  unfolding first_pass_line process_statement process_unlabelled get_current_section find_section
      str_eq
  first_pass_line-statement n =
      let i = IsLine-IsStatement l h in
      rw
        (
          trim-newline l h.starts h.ends,
          i.filled,
          i.no_comment,
          i.no_section (codes "section"),
          i.not_named (codes "text"),
          i.not_named (codes "data"),
          i.not_named (codes "rodata"),
          i.not_named (codes "bss"),
          contains-no_dot (codes "globl") l h.bytes,
          cut_at-Lacks b'#' l (Lacks-hash l h.bytes),
          trim-plain l h.starts h.ends,
          split_at-Lacks b':' l (Lacks-colon l h.bytes),
          i.no_directive,
        )
        refl

  second_pass_line-statement :
      (t : Tables) (base : ℕ) (w : Writer)
      → is_text (type_or sec_text (find_section w.section t.sections)) ≡ true
      → second_pass_line t base (l ++ (10 ∷ [])) w ≡ process_instruction_second_pass t l w
  unfolding second_pass_line write_labelled write_statement process_instruction_second_pass
  second_pass_line-statement t base w e =
      let i = IsLine-IsStatement l h in
      rw
        (
          trim-newline l h.starts h.ends,
          i.filled,
          i.no_comment,
          i.no_section (codes "section"),
          i.not_named (codes "text"),
          i.not_named (codes "data"),
          i.not_named (codes "rodata"),
          i.not_named (codes "bss"),
          contains-no_dot (codes "globl") l h.bytes,
          cut_at-Lacks b'#' l (Lacks-hash l h.bytes),
          trim-plain l h.starts h.ends,
          split_at-Lacks b':' l (Lacks-colon l h.bytes),
          i.no_directive,
          e,
        )
        (rw (cut_at-Lacks b'#' l (Lacks-hash l h.bytes), trim-plain l h.starts h.ends) refl)

-- The bytes of the program.
abbrev pub size : List Statement → ℕ → ℕ
size [] n = n
size (s ∷ p) n = size p (add32 n (length (words_of s) * 4))

first_pass_lines-program :
    (p : List Statement) (n : ℕ)
    → All IsGood p
    → first_pass_lines (map file_line p) (behind n) ≡ some (behind (size p n))
unfolding first_pass_lines
first_pass_lines-program [] n h = refl
first_pass_lines-program (s ∷ p) n (good, h) =
    let one : first_pass_line (file_line s) (behind n)
        ≡ some (behind (add32 n (length (words_of s) * 4))) =
      first_pass_line-statement (line s) (line-IsLine s good) n
      ∙ statement-first s (behind n) good
      ∙ ap (λ (a : Assembler). some a) (grow_text-behind n (length (words_of s) * 4)) in
    ap (λ (o : Option Assembler). Memory.◌>>=◌ o (first_pass_lines (map file_line p))) one
    ∙ first_pass_lines-program p (add32 n (length (words_of s) * 4)) h

first_pass-program :
    (p : List Statement)
    → All IsGood p
    → first_pass (map file_line p) new_assembler ≡ some (with_sizes (behind (size p 0)))
unfolding first_pass new_assembler
first_pass-program p h =
    ap (λ (o : Option Assembler). Memory.◌>>=◌ o (λ a. some (with_sizes a)))
      (first_pass_lines-program p 0 h)

-- `.text` is a section of text in the tables of the second pass.
adjusted-text :
    (n : ℕ)
    → is_text (
        type_or sec_text (find_section (codes ".text") (adjusted (with_sizes (behind n))).sections))
      ≡ true
unfolding adjusted adjust_labels place_sections place_custom set_base find_section str_eq
adjusted-text n = refl

emit_words-section : (vs : List ℕ) (w : Writer) → (emit_words vs w).section ≡ w.section
unfolding emit_word
emit_words-section [] w = refl
emit_words-section (v ∷ vs) w = emit_words-section vs (emit_word v w)

emit_words-append :
    (us vs : List ℕ) (w : Writer) → emit_words (us ++ vs) w ≡ emit_words vs (emit_words us w)
emit_words-append [] vs w = refl
emit_words-append (u ∷ us) vs w = emit_words-append us vs (emit_word u w)

second_pass_lines-program :
    (p : List Statement) (t : Tables) (base : ℕ) (w : Writer)
    → All IsGood p
    → is_text (type_or sec_text (find_section w.section t.sections)) ≡ true
    → second_pass_lines t base (map file_line p) w ≡ ok (emit_words (code p) w)
unfolding second_pass_lines
second_pass_lines-program [] t base w h e = refl
second_pass_lines-program (s ∷ p) t base w (good, h) e =
    let one : second_pass_line t base (file_line s) w ≡ ok (emit_words (words_of s) w) =
      second_pass_line-statement (line s) (line-IsLine s good) t base w e
      ∙ statement-second s t w good in
    ap (λ (o : Outcome Writer). o >>= second_pass_lines t base (map file_line p)) one
    ∙ second_pass_lines-program p t base (emit_words (words_of s) w) h (
        ap (λ (n : List ℕ). is_text (type_or sec_text (find_section n t.sections)))
          (emit_words-section (words_of s) w)
        ∙ e)
    ∙ ap (λ (w' : Writer). ok w') (sym (emit_words-append (words_of s) (code p) w))

-- For every text of lines that are each one of the 18 R-type instructions of RV32IM, one of the 9
-- immediate instructions with a number that its field holds, an `li` of a number that the rounding
-- of its upper part does not carry past INT32_MAX, an `mv`, a `nop` or an `ecall`, in which every
-- register operand names a register by 1 to 31 bytes, none a space, comma, `#`, `(`, `:` or `.`,
-- and every number is written as `%d` prints it, operands with a comma and a blank between them,
-- the two passes of the assembler succeed, and the output file is exactly the instruction words of
-- the lines, one behind the other.
pub assemble-text :
    (p : List Statement) (stale : Operands)
    → All IsGood p
    → assemble stale (text p) ≡ ok (emit_words (code p) new_writer)
unfolding assemble second_pass
assemble-text p stale h =
    let a = adjusted (with_sizes (behind (size p 0))) in
    rw (lines-text p h, first_pass-program p h)
      (second_pass_lines-program p
        (record { labels = a.labels; sections = a.sections; stale = stale }) a.pc_text new_writer h
        (adjusted-text (size p 0)))
