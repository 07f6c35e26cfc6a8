-- ===== src/Tests/Programs.antt =====
-- A small program from its text to its exit code (assembler/src and emulator/src).
use riscv_student_pack.Common.{
  if◌then◌else◌, none, ◌≡◌, refl, true, false, List, [], ◌∷◌, some, codes, All, arith, inl, inr,
  ◌-◌, ◌^◌,
}
use riscv_student_pack.Cpu.State.{Machine, IsMachine}
use riscv_student_pack.Emulator.{File, exited, main}
use riscv_student_pack.Emulator.Running.{Steps}
use riscv_student_pack.Assembler.Outcome.{ok}
use riscv_student_pack.Assembler.Chars.{str_eq}
use riscv_student_pack.Assembler.Main.{Disk, assemble, parse_words, parse_command_line}
use riscv_student_pack.Assembler.Main.Files.{Leaves, main-Leaves}
use riscv_student_pack.Assembler.Main
use riscv_student_pack.Emulator
use riscv_student_pack.Assembler.Registers.{reg_num, numbered}
use riscv_student_pack.Assembler.Instructions.Mnemonics.{add, rem}
use riscv_student_pack.Assembler.Instructions.Immediate.{addi}
use riscv_student_pack.Assembler.SecondPass.Arguments.{no_operands}
use riscv_student_pack.Assembler.SecondPass.Output.{new_writer, emit_word}
use riscv_student_pack.Program.{
  Statement, register_op, immediate_op, load_number, move, no_operation, system_call, text, code,
  emit_words, result, IsRegister,
}
use riscv_student_pack.Program.Files.{program-WordsAt}
use riscv_student_pack.Program.Passes.{assemble-text}
use riscv_student_pack.Program.Running.{IsComputation, AllComputeOn, after}
use riscv_student_pack.Program.Results.{program-Steps}
use riscv_student_pack.Program.Exits.{with_exit, IsComputation-IsGood}
use riscv_student_pack.Program.Main.{report, first_registers}
use riscv_student_pack.Program.Commands.{open_on, report-main}
use riscv_student_pack.Tests.Machines.{silent, silent-IsKernel}
use riscv_student_pack.Tests.Constants.{a0-IsToken}

abbrev doubling : List Statement
doubling =
    load_number (codes "a0") 70000
    ∷ no_operation
    ∷ register_op add (codes "a0") (codes "a0") (codes "a0")
    ∷ immediate_op addi (codes "a7") (codes "a0") (2 ^ 32 - 5)
    ∷ register_op rem (codes "a7") (codes "a0") (codes "a7")
    ∷ move (codes "a0") (codes "a7")
    ∷ load_number (codes "a7") 93
    ∷ []

a0-IsRegister : IsRegister (codes "a0")
unfolding reg_num numbered str_eq
a0-IsRegister = record {
  token = a0-IsToken;
  bytes = (
    record { no_open = refl; no_colon = refl; no_dot = refl; no_hash = refl; no_newline = refl },
    (
      record { no_open = refl; no_colon = refl; no_dot = refl; no_hash = refl; no_newline = refl },
      tt,
    ),
  );
  number_fits = omega arith;
}

a7-IsRegister : IsRegister (codes "a7")
unfolding reg_num numbered str_eq
a7-IsRegister = record {
  token = record {
    plain = (
      record { no_space = refl; no_blank = refl; no_comma = refl; no_hash = refl },
      (record { no_space = refl; no_blank = refl; no_comma = refl; no_hash = refl }, tt),
    );
    filled = refl;
    short = omega arith;
  };
  bytes = (
    record { no_open = refl; no_colon = refl; no_dot = refl; no_hash = refl; no_newline = refl },
    (
      record { no_open = refl; no_colon = refl; no_dot = refl; no_hash = refl; no_newline = refl },
      tt,
    ),
  );
  number_fits = omega arith;
}

doubling-IsComputation : All IsComputation doubling
doubling-IsComputation = (
  (a0-IsRegister, (omega arith, inl (omega arith))),
  (
    tt,
    (
      (a0-IsRegister, (a0-IsRegister, a0-IsRegister)),
      (
        (a7-IsRegister, (a0-IsRegister, (omega arith, inr (omega arith, omega arith)))),
        (
          (a7-IsRegister, (a0-IsRegister, a7-IsRegister)),
          ((a0-IsRegister, a7-IsRegister), ((a7-IsRegister, (omega arith, inl (omega arith))), tt)),
        ),
      ),
    ),
  ),
)

doubling-AllComputeOn : AllComputeOn doubling first_registers
unfolding reg_num numbered str_eq
doubling-AllComputeOn = (tt, (tt, (tt, (tt, ((λ o. omega (arith, o.0)), (tt, (tt, tt)))))))

assemble-text_example :
    assemble no_operands (text (with_exit doubling))
    ≡ ok (emit_words (code (with_exit doubling)) new_writer)
assemble-text_example =
    assemble-text (with_exit doubling) no_operands
      (IsComputation-IsGood doubling doubling-IsComputation)

-- The program in a memory of 64 bytes.
abbrev doubling_machine : Machine
doubling_machine = record {
  cpu = record { x = first_registers; pc = 0; running = true; debug_mode = false };
  mem = record { data_at = (emit_words (code (with_exit doubling)) new_writer).bytes; size = 64 };
  calls = [];
}

doubling_machine-IsMachine : IsMachine doubling_machine
unfolding emit_word
doubling_machine-IsMachine = record {
  cpu_good = record { pc_fits = omega arith; x_fits = λ r. ground arith; zero_cell = refl };
  mem_good = record { size_fits = omega arith; cells_fit = λ a. ground arith };
  holds_word = omega arith;
}

program-Steps_example :
    Steps silent 8 doubling_machine (after 8 (result doubling first_registers) doubling_machine)
program-Steps_example =
    program-Steps doubling doubling_machine (code (system_call ∷ [])) silent-IsKernel
      doubling_machine-IsMachine refl refl doubling-IsComputation doubling-AllComputeOn
      (omega arith)
      (program-WordsAt (with_exit doubling) (IsComputation-IsGood doubling doubling-IsComputation))

abbrev source_disk : Disk
source_disk = record {
  contents =
      λ name. if str_eq name (codes "doubling.s") then some (text (with_exit doubling)) else none;
  writable = λ name. true;
}

-- `doubling.s` is assembled to `doubling.bin`, which exits with 140000 rem 139995 after nine steps.
report-main_example :
    (d : Disk) × ((Main.main no_operands
          (codes "doubling.s" ∷ codes "doubling.bin" ∷ [])
          source_disk
        ≡ ok (0, d))
      × (report (Emulator.main silent (open_on d) (codes "doubling.bin" ∷ []))
          ≡ some (exited, (9, 5))))
unfolding reg_num numbered str_eq
report-main_example =
    report-main silent-IsKernel doubling doubling-IsComputation doubling-AllComputeOn refl
      no_operands source_disk (codes "doubling.s") (codes "doubling.bin") (omega arith) refl refl
      refl refl refl

-- The output is named, but the source file is missing.
main-Leaves_example : Leaves no_operands source_disk (codes "tripling.s") (codes "doubling.bin") (
    Main.main no_operands
      (codes "tripling.s" ∷ codes "--debug" ∷ codes "doubling.bin" ∷ [])
      source_disk)
unfolding parse_command_line parse_words str_eq
main-Leaves_example =
    main-Leaves no_operands source_disk (codes "tripling.s") (codes "doubling.bin")
      (codes "tripling.s" ∷ codes "--debug" ∷ codes "doubling.bin" ∷ []) true refl refl
