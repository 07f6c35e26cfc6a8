-- ===== src/Assembler/Main/Files.antt =====
-- assembler/src/main.cpp: the files that the assembler leaves and what its exit code says.
use riscv_student_pack.Common.{
  ℕ, ◌≡◌, ◌⊎◌, refl, Bool, true, false, List, [], Option, none, some, inl, inr,
}
use riscv_student_pack.Assembler.Outcome.{Outcome, ok, exited, undefined, unfinished, ◌>>=◌}
use riscv_student_pack.Assembler.Chars.{str_eq, str_eq_refl}
use riscv_student_pack.Assembler.SecondPass.Arguments.{Operands}
use riscv_student_pack.Assembler.SecondPass.Output.{Writer}
use riscv_student_pack.Assembler.Main.{
  Disk, replaced, bytes_from, assemble, closed, with_files, parse_command_line, main,
}

abbrev SameOthers : List ℕ → Disk → Disk → Type 0
SameOthers output_file d d' =
    (name : List ℕ) → str_eq name output_file ≡ false → d'.contents name ≡ d.contents name

-- What the exit codes say, of different input and output files.
pub data IsLeft (stale : Operands) (d : Disk) (i o : List ℕ) : ℕ → Disk → Type 0 where
  assembled :
      {d' : Disk} (text : List ℕ) (w : Writer)
      → d.contents i ≡ some text
      → d.writable o ≡ true
      → assemble stale text ≡ ok w
      → d'.contents o ≡ some (bytes_from w.file_length 0 w.bytes)
      → SameOthers o d d'
      → IsLeft stale d i o 0 d'
  unopened :
      {d' : Disk}
      → (d.contents i ≡ none) ⊎ (d.writable o ≡ false)
      → SameOthers o d d'
      → IsLeft stale d i o 1 d'

-- That `main` does not return: its passes over the source text exit, are undefined or do not end.
pub data NoReturn (stale : Operands) (d : Disk) (i o : List ℕ) : Outcome Writer → Type 0 where
  in_pass :
      {r : Outcome Writer} (text : List ℕ)
      → d.contents i ≡ some text
      → d.writable o ≡ true
      → assemble stale text ≡ r
      → NoReturn stale d i o r

abbrev pub Leaves : (stale : Operands) → Disk → (i o : List ℕ) → Outcome (ℕ × Disk) → Type 0
Leaves stale d i o (ok (n, d')) = IsLeft stale d i o n d'
Leaves stale d i o exited = NoReturn stale d i o exited
Leaves stale d i o undefined = NoReturn stale d i o undefined
Leaves stale d i o unfinished = NoReturn stale d i o unfinished

module _ (stale : Operands) (d : Disk) (i o : List ℕ) where
  replaced-others : (bytes : List ℕ) → SameOthers o d (replaced o bytes d)
  replaced-others bytes name other = rw other refl

  opened :
      (text : List ℕ) (r : Outcome Writer)
      → d.contents i ≡ some text
      → d.writable o ≡ true
      → assemble stale text ≡ r
      → Leaves stale d i o (r >>= closed o (replaced o [] d))
  opened text (ok w) reads writes e =
      assembled text w reads writes e (rw (str_eq_refl o) refl) (λ name other. rw other refl)
  opened text exited reads writes e = in_pass text reads writes e
  opened text undefined reads writes e = in_pass text reads writes e
  opened text unfinished reads writes e = in_pass text reads writes e

  with_files-Leaves :
      (input : Option (List ℕ)) (writable : Bool)
      → str_eq i o ≡ false
      → d.contents i ≡ input
      → d.writable o ≡ writable
      → Leaves stale d i o (with_files stale i o input writable d)
  with_files-Leaves none false apart reads writes = unopened (inl reads) (λ name other. refl)
  with_files-Leaves none true apart reads writes = unopened (inl reads) (replaced-others [])
  with_files-Leaves (some text) false apart reads writes =
      unopened (inr writes) (λ name other. refl)
  with_files-Leaves (some text) true apart reads writes =
      rw apart (opened text (assemble stale text) reads writes refl)

  -- When the command line of the assembler names two different files, `main` returns, or the
  -- source can be read, the output can be written, and the passes over the source text do not
  -- return: they exit, are undefined or do not end. When `main` returns, its exit code is 0 or 1,
  -- and every file but the output has the contents that it had. After 0 the passes have succeeded
  -- on the source text and the output file holds the bytes that they have written; after 1 the
  -- source could not be read or the output not be written.
  pub main-Leaves :
      (words : List (List ℕ)) (debug_mode : Bool)
      → parse_command_line words ≡ some (i, o, debug_mode)
      → str_eq i o ≡ false
      → Leaves stale d i o (main stale words d)
  unfolding main
  main-Leaves words debug_mode parsed apart =
      rw parsed (with_files-Leaves (d.contents i) (d.writable o) apart refl refl)
