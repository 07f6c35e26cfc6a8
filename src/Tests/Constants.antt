-- ===== src/Tests/Constants.antt =====
-- `li` and `la` of a file that a machine has loaded at address 0
-- (assembler/src/second_pass.cpp and emulator/src/cpu.cpp).
use riscv_student_pack.Common.{ℕ, ◌≡◌, refl, sym, true, false, [], ◌∷◌, codes, arith, inl}
use mathlib.Core.Path.{subst}
use riscv_student_pack.Assembler.Chars.{str_eq}
use riscv_student_pack.Scan.{number_from}
use riscv_student_pack.Assembler.Immediates.{parse_imm, find_label}
use riscv_student_pack.Assembler.Registers.{reg_num}
use riscv_student_pack.Assembler.Pseudo.Building.{left_in}
use riscv_student_pack.Assembler.SecondPass.{Tables, assemble_operands}
use riscv_student_pack.Assembler.SecondPass.Arguments.{no_operands}
use riscv_student_pack.Assembler.SecondPass.Output.{Writer, new_writer, emit_word}
use riscv_student_pack.Assembler.SecondPass.Tokens.{IsToken}
use riscv_student_pack.Assembler.SecondPass.Expansion.{two_words}
use riscv_student_pack.Assembler.SecondPass.Fetching.{Holds}
use riscv_student_pack.Assembler.SecondPass.Constants.{
  FileHolds, assemble-li, assemble-la, run-li, run-la,
}
use riscv_student_pack.Cpu.State.{Machine, IsMachine}
use riscv_student_pack.Emulator.Running.{Steps}
use riscv_student_pack.Tests.Machines.{silent}

-- The file behind the two words that build `v` in a register.
abbrev file : (opcode rd v hi : ℕ) → Writer
file opcode rd v hi = two_words opcode rd v hi new_writer

abbrev machine_with : Writer → Machine
machine_with w = record {
  cpu = record { x = λ r. 0; pc = 0; running = true; debug_mode = false };
  mem = record { data_at = w.bytes; size = 64 };
  calls = [];
}

machine_with-IsMachine : (opcode rd v hi : ℕ) → IsMachine (machine_with (file opcode rd v hi))
unfolding emit_word
machine_with-IsMachine opcode rd v hi = record {
  cpu_good = record { pc_fits = omega arith; x_fits = λ r. omega arith; zero_cell = refl };
  mem_good = record { size_fits = omega arith; cells_fit = λ a. ground arith };
  holds_word = omega arith;
}

file-Holds : (w : Writer) → Holds w 0 8 (machine_with w).mem
file-Holds w = record { cells = λ c p q. refl; inside = omega arith }

pub a0-IsToken : IsToken (codes "a0")
a0-IsToken = record {
  plain = (
    record { no_space = refl; no_blank = refl; no_comma = refl; no_hash = refl },
    (record { no_space = refl; no_blank = refl; no_comma = refl; no_hash = refl }, tt),
  );
  filled = refl;
  short = omega arith;
}

abbrev pub table : Tables
table = record {
  labels = record { name = codes "msg"; addr = 70000; section_name = codes ".data" } ∷ [];
  sections = [];
  stale = no_operands;
}

a0-number : reg_num (codes "a0") ≡ 10
unfolding reg_num
a0-number = refl

li_held :
    FileHolds
      (assemble_operands table
        (record { op = codes "li"; a1 = codes "a0"; a2 = codes "70000"; a3 = [] })
        new_writer)
      0
      8
      (machine_with (file 0x37 (reg_num (codes "a0")) 70000 17)).mem
unfolding parse_imm number_from
li_held =
    subst (λ o. FileHolds o 0 8 (machine_with (file 0x37 (reg_num (codes "a0")) 70000 17)).mem)
      (sym (
        assemble-li table new_writer (codes "a0") (codes "70000") [] 70000 17 a0-IsToken
          (omega arith) refl refl refl))
      (file-Holds (file 0x37 (reg_num (codes "a0")) 70000 17))

run-li_example : Steps silent 2 (machine_with (file 0x37 (reg_num (codes "a0")) 70000 17)) (
    left_in
      (reg_num (codes "a0"))
      70000
      2
      (machine_with (file 0x37 (reg_num (codes "a0")) 70000 17)))
unfolding parse_imm number_from reg_num emit_word
run-li_example =
    run-li silent table new_writer (codes "a0") (codes "70000") []
      (machine_with-IsMachine 0x37 (reg_num (codes "a0")) 70000 17) refl a0-IsToken (omega arith)
      refl refl (omega arith) 70000 (omega arith) refl refl (inl (omega arith)) li_held

la_held :
    FileHolds
      (assemble_operands table
        (record { op = codes "la"; a1 = codes "a0"; a2 = codes "msg"; a3 = [] })
        new_writer)
      0
      8
      (machine_with (file 0x17 (reg_num (codes "a0")) 70000 17)).mem
unfolding find_label str_eq
la_held =
    subst (λ o. FileHolds o 0 8 (machine_with (file 0x17 (reg_num (codes "a0")) 70000 17)).mem)
      (sym
        (assemble-la table new_writer (codes "a0") (codes "msg") [] 70000 17 a0-IsToken refl refl))
      (file-Holds (file 0x17 (reg_num (codes "a0")) 70000 17))

run-la_example : Steps silent 2 (machine_with (file 0x17 (reg_num (codes "a0")) 70000 17)) (
    left_in
      (reg_num (codes "a0"))
      70000
      2
      (machine_with (file 0x17 (reg_num (codes "a0")) 70000 17)))
unfolding find_label str_eq reg_num emit_word
run-la_example =
    run-la silent table new_writer (codes "a0") (codes "msg") []
      (machine_with-IsMachine 0x17 (reg_num (codes "a0")) 70000 17) refl a0-IsToken (omega arith)
      refl refl (omega arith) 70000 (omega arith) refl refl (inl (omega arith)) la_held
