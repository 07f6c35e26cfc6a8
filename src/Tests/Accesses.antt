-- ===== src/Tests/Accesses.antt =====
-- A load and a store of a file that a machine has loaded at address 0
-- (assembler/src/second_pass.cpp and emulator/src/cpu.cpp).
use riscv_student_pack.Common.{
  ℕ, ◌-◌, ◌^◌, ◌==◌, if◌then◌else◌, ◌≡◌, refl, sym, true, false, [], some, codes, arith, inr,
}
use mathlib.Core.Path.{subst}
use riscv_student_pack.Encoder.{encode_i, encode_s}
use riscv_student_pack.Scan.{number_from}
use riscv_student_pack.Assembler.Chars.{str_eq, trim, skip_spaces, drop_trailing}
use riscv_student_pack.Assembler.Text.{split_at, cut_at, trim_in_place}
use riscv_student_pack.Assembler.Pseudo.{is_pseudoinstruction}
use riscv_student_pack.Assembler.Instructions.{encode_instruction, find_form, encode_form}
use riscv_student_pack.Assembler.Immediates.{parse_imm}
use riscv_student_pack.Assembler.Registers.{reg_num, numbered}
use riscv_student_pack.Assembler.Outcome.{Outcome, ok}
use riscv_student_pack.Assembler.Instructions.Accesses.{
  lw, sh, load_name, store_name, load_meaning, store_meaning,
}
use riscv_student_pack.Assembler.SecondPass.{process_instruction_second_pass, assemble_operands}
use riscv_student_pack.Assembler.SecondPass.Arguments.{
  without_parentheses, parse_instruction_args, last_word,
}
use riscv_student_pack.Assembler.SecondPass.Output.{Writer, new_writer, emit_word}
use riscv_student_pack.Assembler.SecondPass.Tokens.{IsToken}
use riscv_student_pack.Assembler.SecondPass.Constants.{FileHolds}
use riscv_student_pack.Assembler.SecondPass.Indirect.{indirect}
use riscv_student_pack.Cpu.State.{Machine, IsMachine, reg_read}
use riscv_student_pack.Cpu.Exec.{step}
use riscv_student_pack.Cpu.Exec.Invariant.{advanced}
use riscv_student_pack.Program.Accesses.{run-load, run-store}
use riscv_student_pack.Tests.Machines.{silent}
use riscv_student_pack.Tests.Constants.{table, a0-IsToken}

-- The file of one word, in a machine with 4 in `a1` and 700 in `a0`.
abbrev machine_at : Writer → Machine
machine_at w = record {
  cpu = record {
    x = λ r. if r == 11 then 4 else if r == 10 then 700 else 0;
    pc = 0;
    running = true;
    debug_mode = false;
  };
  mem = record { data_at = w.bytes; size = 64 };
  calls = [];
}

machine_at-IsMachine : (word : ℕ) → IsMachine (machine_at (emit_word word new_writer))
unfolding emit_word
machine_at-IsMachine word = record {
  cpu_good = record { pc_fits = omega arith; x_fits = λ r. ground arith; zero_cell = refl };
  mem_good = record { size_fits = omega arith; cells_fit = λ a. ground arith };
  holds_word = omega arith;
}

abbrev load_word : ℕ
load_word = encode_i (2 ^ 32 - 4) 11 2 10 0x03

abbrev store_word : ℕ
store_word = encode_s (2 ^ 32 - 4) 10 11 1 0x23

lw_line :
    process_instruction_second_pass table
      (indirect (load_name lw) (codes "a0") (codes "-4") (codes "a1"))
      new_writer
    ≡ ok (emit_word load_word new_writer)
unfolding process_instruction_second_pass without_parentheses parse_instruction_args split_at cut_at
    trim trim_in_place skip_spaces drop_trailing assemble_operands is_pseudoinstruction str_eq
    encode_instruction find_form encode_form parse_imm number_from reg_num numbered last_word
lw_line = refl

lw_held :
    FileHolds
      (process_instruction_second_pass table
        (indirect (load_name lw) (codes "a0") (codes "-4") (codes "a1"))
        new_writer)
      0
      4
      (machine_at (emit_word load_word new_writer)).mem
lw_held =
    subst
      (λ (o : Outcome Writer). FileHolds o 0 4 (machine_at (emit_word load_word new_writer)).mem)
      (sym lw_line) (record { cells = λ c p q. refl; inside = omega arith })

sh_line :
    process_instruction_second_pass table
      (indirect (store_name sh) (codes "a0") (codes "-4") (codes "a1"))
      new_writer
    ≡ ok (emit_word store_word new_writer)
unfolding process_instruction_second_pass without_parentheses parse_instruction_args split_at cut_at
    trim trim_in_place skip_spaces drop_trailing assemble_operands is_pseudoinstruction str_eq
    encode_instruction find_form encode_form parse_imm number_from reg_num numbered last_word
sh_line = refl

sh_held :
    FileHolds
      (process_instruction_second_pass table
        (indirect (store_name sh) (codes "a0") (codes "-4") (codes "a1"))
        new_writer)
      0
      4
      (machine_at (emit_word store_word new_writer)).mem
sh_held =
    subst
      (λ (o : Outcome Writer). FileHolds o 0 4 (machine_at (emit_word store_word new_writer)).mem)
      (sym sh_line) (record { cells = λ c p q. refl; inside = omega arith })

a1-IsToken : IsToken (codes "a1")
a1-IsToken = record {
  plain = (
    record { no_space = refl; no_blank = refl; no_comma = refl; no_hash = refl },
    (record { no_space = refl; no_blank = refl; no_comma = refl; no_hash = refl }, tt),
  );
  filled = refl;
  short = omega arith;
}

offset-IsToken : IsToken (codes "-4")
offset-IsToken = record {
  plain = (
    record { no_space = refl; no_blank = refl; no_comma = refl; no_hash = refl },
    (record { no_space = refl; no_blank = refl; no_comma = refl; no_hash = refl }, tt),
  );
  filled = refl;
  short = omega arith;
}

-- `lw a0, -4(a1)` loads the word at 0, which is its own.
run-load_example :
    step silent (machine_at (emit_word load_word new_writer))
    ≡ some (load_meaning lw 10 0 (advanced (machine_at (emit_word load_word new_writer))))
unfolding parse_imm number_from reg_num numbered str_eq reg_read
run-load_example =
    run-load silent table new_writer (2 ^ 32 - 4) (codes "a0") (codes "-4") (codes "a1")
      (machine_at-IsMachine load_word) refl a0-IsToken offset-IsToken a1-IsToken (refl, (refl, tt))
      (refl, (refl, tt)) (refl, (refl, tt)) (omega arith) (omega arith) refl
      (inr (omega arith, omega arith)) refl refl lw lw_held

-- `sh a0, -4(a1)` stores 700 over its own lower half.
run-store_example :
    step silent (machine_at (emit_word store_word new_writer))
    ≡ some (store_meaning sh 0 700 (advanced (machine_at (emit_word store_word new_writer))))
unfolding parse_imm number_from reg_num numbered str_eq reg_read
run-store_example =
    run-store silent table new_writer (2 ^ 32 - 4) (codes "a0") (codes "-4") (codes "a1")
      (machine_at-IsMachine store_word) refl a0-IsToken offset-IsToken a1-IsToken (refl, (refl, tt))
      (refl, (refl, tt)) (refl, (refl, tt)) (omega arith) (omega arith) refl
      (inr (omega arith, omega arith)) refl refl sh sh_held
