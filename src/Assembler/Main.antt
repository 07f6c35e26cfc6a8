-- ===== src/Assembler/Main.antt =====
-- assembler/src/main.cpp: the whole assembler. Messages and the debug mode's output are left out.
pub mod Files
use riscv_student_pack.Common.{
  ℕ, zero, suc, ◌+◌, Bool, true, false, List, [], ◌∷◌, Option, none, some, if◌then◌else◌, codes,
}
use riscv_student_pack.Assembler.Outcome.{Outcome, ok, or_exit, ◌>>=◌}
use riscv_student_pack.Assembler.Chars.{str_eq}
use riscv_student_pack.Assembler.Text.{lines}
use riscv_student_pack.Assembler.Sections.{adjust_labels}
use riscv_student_pack.Assembler.State.{Assembler, new_assembler}
use riscv_student_pack.Assembler.FirstPass.{first_pass}
use riscv_student_pack.Assembler.SecondPass.{second_pass}
use riscv_student_pack.Assembler.SecondPass.Output.{Writer}
use riscv_student_pack.Assembler.SecondPass.Arguments.{Operands}

-- `adjust_labels` on the state.
unfoldable pub adjusted : Assembler → Assembler
adjusted a =
    let (sections', labels') = adjust_labels a.sections a.labels in
    record a { sections = sections'; labels = labels' }

-- The passes of `main` over the text of the input file.
unfoldable pub assemble : (stale : Operands) → List ℕ → Outcome Writer
unfolding lines adjusted
assemble stale text = do
  a ← or_exit (first_pass (lines text) new_assembler)
  second_pass (adjusted a) stale (lines text)

-- The command line: `none` is the exit with a usage message.
pub record Options : Type 0 where
  pub debug_mode : Bool
  pub input_file : Option (List ℕ)
  pub output_file : Option (List ℕ)

abbrev pub plain_word : List ℕ → Options → Option (List ℕ) → Option (List ℕ) → Option Options
plain_word word o none out = some (record o { input_file = some word })
plain_word word o (some i) none = some (record o { output_file = some word })
plain_word word o (some i) (some out) = none

abbrev and_then : Option Options → (Options → Option Options) → Option Options
and_then none f = none
and_then (some o) f = f o

-- The loop over `argv`.
unfoldable pub parse_words : List (List ℕ) → Options → Option Options
unfolding str_eq
parse_words [] o = some o
parse_words (word ∷ words) o =
    and_then
      (if str_eq word (codes "--debug")
        then some (record o { debug_mode = true })
        else plain_word word o o.input_file o.output_file)
      (parse_words words)

abbrev files_of : Options → Option (List ℕ) → Option (List ℕ) → Option (List ℕ × List ℕ × Bool)
files_of o (some i) (some out) = some (i, out, o.debug_mode)
files_of o i out = none

abbrev and_then_files : Option Options → Option (List ℕ × List ℕ × Bool)
and_then_files none = none
and_then_files (some o) = files_of o o.input_file o.output_file

-- The input file, the output file and the debug mode.
unfoldable pub parse_command_line : List (List ℕ) → Option (List ℕ × List ℕ × Bool)
unfolding parse_words
parse_command_line words =
    and_then_files
      (parse_words words (record { debug_mode = false; input_file = none; output_file = none }))

-- The host's files: what `fopen(…, "r")` and reading give of each name, and the names that
-- `fopen(…, "wb")` can open. Different names are different files.
pub record Disk : Type 0 where
  pub contents : List ℕ → Option (List ℕ)
  pub writable : List ℕ → Bool

abbrev pub replaced : (name bytes : List ℕ) → Disk → Disk
replaced name bytes d = record d {
  contents = λ n. if str_eq n name then some bytes else d.contents n;
}

-- The bytes of the cells from `a` on.
abbrev pub bytes_from : (n a : ℕ) → (ℕ → ℕ) → List ℕ
bytes_from zero a f = []
bytes_from (suc n) a f = f a ∷ bytes_from n (a + 1) f

-- What the second pass has written, behind `fclose`.
abbrev pub closed : List ℕ → Disk → Writer → Outcome (ℕ × Disk)
closed output_file d w = ok (0, replaced output_file (bytes_from w.file_length 0 w.bytes) d)

-- `main` behind both `fopen`s: whether the input could be opened, and whether the output, which is
-- then empty. The passes read the input after that.
abbrev pub with_files :
    (stale : Operands) (input_file output_file : List ℕ)
    → Option (List ℕ)
    → Bool
    → Disk
    → Outcome (ℕ × Disk)
with_files stale i o none false d = ok (1, d)
with_files stale i o none true d = ok (1, replaced o [] d)
with_files stale i o (some text) false d = ok (1, d)
with_files stale i o (some text) true d =
    let opened = replaced o [] d in
    assemble stale (if str_eq i o then [] else text) >>= closed o opened

abbrev with_command_line :
    (stale : Operands) → Disk → Option (List ℕ × List ℕ × Bool) → Outcome (ℕ × Disk)
with_command_line stale d none = ok (1, d)
with_command_line stale d (some (i, o, debug_mode)) =
    with_files stale i o (d.contents i) (d.writable o) d

-- `main`, with the words behind the program's name: its exit code and the files that it leaves. An
-- `exited` is `exit(1)` in a pass, which leaves a part of the output file.
unfoldable pub main : (stale : Operands) → List (List ℕ) → Disk → Outcome (ℕ × Disk)
unfolding parse_command_line assemble
main stale words d = with_command_line stale d (parse_command_line words)
