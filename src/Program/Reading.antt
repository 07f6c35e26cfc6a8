-- ===== src/Program/Reading.antt =====
-- The lines of a program's text as both passes read them (assembler/src/first_pass.cpp and
-- assembler/src/second_pass.cpp).
use riscv_student_pack.Common.{
  ℕ, zero, suc, ◌≤◌, ◌≡◌, refl, ap, ◌∙◌, false, List, [], ◌∷◌, ◌++◌, map, ◌==◌, length, All, arith,
}
use riscv_student_pack.Assembler.Chars.{
  is_empty, str_eq, trim, skip_spaces, drop_trailing, head_or_nul,
}
use riscv_student_pack.Assembler.Text.{lines, lines_from}
use riscv_student_pack.Assembler.Sections.{starts_with}
use riscv_student_pack.Assembler.SecondPass.Tokens.{EndsPlain, StartsPlain, Lacks}
use riscv_student_pack.Program.{Statement, line, text, IsGood}
use riscv_student_pack.Program.Clean.{line-IsLine}
use riscv_student_pack.Program.Lines.{IsLine, Lacks-newline}

-- The line as `fgets` delivers it.
abbrev pub file_line : Statement → List ℕ
file_line s = line s ++ (10 ∷ [])

lines_from-newline :
    (more : ℕ) (l rest : List ℕ)
    → Lacks 10 l
    → length l ≤ more
    → lines_from more (l ++ (10 ∷ rest)) ≡ (l ++ (10 ∷ [])) ∷ lines_from 510 rest
unfolding lines_from
lines_from-newline zero [] rest h k = refl
lines_from-newline (suc more) [] rest h k = refl
lines_from-newline zero (c ∷ l) rest h k = absurd (omega arith)
lines_from-newline (suc more) (c ∷ l) rest (e, h) k =
    rw (e, lines_from-newline more l rest h (omega arith)) refl

pub lines-text : (p : List Statement) → All IsGood p → lines (text p) ≡ map file_line p
unfolding lines lines_from
lines-text [] h = refl
lines-text (s ∷ p) (good, h) =
    let l = line-IsLine s good in
    lines_from-newline 510 (line s) (text p) (Lacks-newline (line s) l.bytes)
      (omega (arith, l.short))
    ∙ ap (λ (ls : List (List ℕ)). file_line s ∷ ls) (lines-text p h)

-- Trimming takes the newline off.
drop_trailing-newline : (l : List ℕ) → EndsPlain l → drop_trailing (l ++ (10 ∷ [])) ≡ l
unfolding drop_trailing
drop_trailing-newline [] h = absurd h
drop_trailing-newline (c ∷ []) h = rw h refl
drop_trailing-newline (c ∷ d ∷ l) h = rw (drop_trailing-newline (d ∷ l) h) (ground arith)

pub trim-newline : (l : List ℕ) → StartsPlain l → EndsPlain l → trim (l ++ (10 ∷ [])) ≡ l
unfolding trim skip_spaces drop_trailing
trim-newline [] h k = absurd h
trim-newline (c ∷ []) h k = rw h refl
trim-newline (c ∷ d ∷ l) h k = rw h (ap (λ (r : List ℕ). c ∷ r) (drop_trailing-newline (d ∷ l) k))

-- What the tests at the start of both passes' loops say of such a line.
pub record IsStatement (l : List ℕ) : Type 0 where
  pub filled : is_empty l ≡ false
  pub no_comment : (head_or_nul l == b'#') ≡ false
  pub no_directive : (head_or_nul l == b'.') ≡ false
  pub no_section : (d : List ℕ) → starts_with (b'.' ∷ d) l ≡ false
  pub not_named : (d : List ℕ) → str_eq l (b'.' ∷ d) ≡ false

pub IsLine-IsStatement : (l : List ℕ) → IsLine l → IsStatement l
unfolding starts_with str_eq
IsLine-IsStatement [] h = absurd h.starts
IsLine-IsStatement (c ∷ l) h =
    let other : (b'.' == c) ≡ false = ground (arith, h.bytes.0.no_dot) in
    record {
      filled = refl;
      no_comment = h.bytes.0.no_hash;
      no_directive = h.bytes.0.no_dot;
      no_section = λ d. rw other refl;
      not_named = λ d. rw (h.bytes.0.no_dot) refl;
    }
