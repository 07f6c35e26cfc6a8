-- ===== src/Program/Commands.antt =====
-- The two commands one behind the other: `main` of assembler/src/main.cpp on the source file, and
-- `main` of emulator/src/main.cpp on the file that it writes.
use riscv_student_pack.Common.{
  ℕ, ◌+◌, ◌<◌, ◌≡◌, refl, sym, ap, ◌∙◌, true, false, List, [], ◌∷◌, Option, none, some, length,
  codes, All,
}
use riscv_student_pack.Cpu.State.{Kernel}
use riscv_student_pack.Cpu.Syscall.Buffers.{IsKernel}
use riscv_student_pack.Emulator.{File, exited, max_steps}
use riscv_student_pack.Emulator
use riscv_student_pack.Assembler.Outcome.{ok}
use riscv_student_pack.Assembler.Chars.{str_eq, str_eq_refl}
use riscv_student_pack.Assembler.Main.{
  Disk, replaced, bytes_from, closed, assemble, parse_words, parse_command_line,
}
use riscv_student_pack.Assembler.Main
use riscv_student_pack.Assembler.SecondPass.Arguments.{Operands}
use riscv_student_pack.Assembler.SecondPass.Output.{new_writer}
use riscv_student_pack.Program.{Statement, code, text, emit_words, result}
use riscv_student_pack.Program.Files.{length-bytes_from, output, file_of}
use riscv_student_pack.Program.Passes.{assemble-text}
use riscv_student_pack.Program.Running.{IsComputation, AllComputeOn}
use riscv_student_pack.Program.Exits.{with_exit, IsComputation-IsGood}
use riscv_student_pack.Program.Main.{report, first_registers, main-assemble}

-- The host's files as the emulator opens them.
abbrev file_at : Option (List ℕ) → Option File
file_at none = none
file_at (some bytes) = some (record { file_size = length bytes; delivered = bytes })

abbrev pub open_on : Disk → List ℕ → Option File
open_on d name = file_at (d.contents name)

module _ {k : Kernel} (host : IsKernel k) (p : List Statement) (h : All IsComputation p)
    (on : AllComputeOn p first_registers) (number : result p first_registers 17 ≡ 93) where
  -- Take a program of statements that are each one of the 18 R-type instructions of RV32IM, one of
  -- the 9 immediate instructions with a number that its field holds, an `li` of a number that the
  -- rounding of its upper part does not carry past INT32_MAX, an `mv` or a `nop`, in which every
  -- register operand names a register by 1 to 31 bytes, none a space, comma, `#`, `(`, `:` or `.`,
  -- and every number is written as `%d` prints it. Let no `div` or `rem` divide INT32_MIN by -1 in
  -- its course, let it have fewer words than the step limit and leave 93, the number of `exit`, in
  -- `a7`, and let an `ecall` follow. Let the text of both be the contents of a source file, and the
  -- output another file that can be written, neither named `--debug`. Then `main` of the assembler
  -- returns 0, and on the files that it leaves `main` of the emulator, with any host that keeps to
  -- its contract, runs the output file to the exit call: one step for each word and one for the
  -- `ecall`, and the exit code is what the instruction set says is in `a0` behind the statements,
  -- starting from registers that are all 0 but for the stack pointer.
  pub report-main :
      (stale : Operands) (d : Disk) (source binary : List ℕ)
      → length (code p) < max_steps
      → str_eq source (codes "--debug") ≡ false
      → str_eq binary (codes "--debug") ≡ false
      → str_eq source binary ≡ false
      → d.contents source ≡ some (text (with_exit p))
      → d.writable binary ≡ true
      → (d' : Disk) × ((Main.main stale (source ∷ binary ∷ []) d ≡ ok (0, d'))
          × (report (Emulator.main k (open_on d') (binary ∷ []))
              ≡ some (exited, (length (code p) + 1, result p first_registers 10))))
  unfolding Main.main parse_command_line parse_words
  report-main stale d source binary short plain_source plain_binary apart holds free =
      let q = with_exit p in
      let w = emit_words (code q) new_writer in
      let bytes = bytes_from w.file_length 0 w.bytes in
      let made = assemble-text q stale (IsComputation-IsGood p h) in
      let d' = replaced binary bytes (replaced binary [] d) in
      let written : open_on d' binary ≡ some (file_of w) = rw (str_eq_refl binary) (λ i.
        some (record {
          file_size = length-bytes_from w.file_length 0 w.bytes i;
          delivered = bytes;
        })) in
      (
        d',
        (
          rw (plain_source, plain_binary, holds, free, apart, made) refl,
          main-assemble host p h on number stale (open_on d') binary short plain_binary
              (written ∙ sym (ap output made)),
        ),
      )
