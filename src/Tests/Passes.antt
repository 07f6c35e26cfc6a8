-- ===== src/Tests/Passes.antt =====
-- The passes of the assembler and the loading of programs at concrete inputs
-- (assembler/src/first_pass.cpp, assembler/src/second_pass.cpp and emulator/src/emulator.cpp).
use riscv_student_pack.Common.{inl, ℕ, ◌≡◌, refl, List, [], ◌∷◌, ◌++◌, some, codes, arith, inr}
use riscv_student_pack.Assembler.Outcome.{unfinished}
use riscv_student_pack.Assembler.Chars.{str_eq, trim, skip_spaces, drop_trailing}
use riscv_student_pack.Scan.{number_from}
use riscv_student_pack.Assembler.Immediates.{Label, parse_imm, find_label}
use riscv_student_pack.Assembler.Pseudo.{print_int, pseudoinstruction_size}
use riscv_student_pack.Assembler.Pseudo.Decimals.{parse_imm-print_int}
use riscv_student_pack.Assembler.State.{Assembler, new_assembler, empty_section}
use riscv_student_pack.Assembler.Sections.{
  find_section, switch_section, sec_text, sec_data, sec_rodata, sec_bss,
}
use riscv_student_pack.Assembler.FirstPass.{
  process_instruction_first_pass, grow_text, first_pass, process_directive, bytes_of,
}
use riscv_student_pack.Assembler.FirstPass.States.{new_assembler-IsAssembler}
use riscv_student_pack.Assembler.FirstPass.Invariant.{ExitsOrKeeps, first_pass-ExitsOrKeeps}
use riscv_student_pack.Assembler.FirstPass.Placement.{IsPlaced, first_pass-IsPlaced}
use riscv_student_pack.Assembler.Main.{adjusted}
use riscv_student_pack.Assembler.SecondPass.{
  process_instruction_second_pass, Tables, assemble_operands,
}
use riscv_student_pack.Assembler.SecondPass.Arguments.{Operands, no_operands}
use riscv_student_pack.Assembler.SecondPass.Output.{new_writer}
use riscv_student_pack.Assembler.SecondPass.Data.{read_values, read_imm, data_bytes}
use riscv_student_pack.Assembler.SecondPass.Numerals.{read_values-unfinished}
use riscv_student_pack.Assembler.SecondPass.Directives.{
  Written, SameSize, data_bytes-Written, process_directive-SameSize,
}
use riscv_student_pack.Assembler.SecondPass.Tokens.{IsToken}
use riscv_student_pack.Assembler.SecondPass.SameLine.{process_instruction_second_pass-Writes}
use riscv_student_pack.Assembler.SecondPass.Sizes.{Writes, assemble_operands-Writes}
use riscv_student_pack.Emulator.{File, load_program, run_loop}
use riscv_student_pack.Emulator.Loading.{IsFile, Loads, load_program-Loads}
use riscv_student_pack.Emulator.Running.{RunsOrOverflows, run_loop-RunsOrOverflows}
use riscv_student_pack.Tests.Machines.{machine, machine-IsMachine, silent, silent-IsKernel}

parse_imm-print_int_example : parse_imm [] (print_int 4294967295 ++ codes ", x") ≡ some 4294967295
parse_imm-print_int_example =
    parse_imm-print_int [] 4294967295 (codes ", x") (omega arith) (refl, refl)

abbrev message : Label
message = record { name = codes "msg"; addr = 64; section_name = codes ".data" }

-- `.word msg`
read_values-unfinished_example : read_values 5 (read_imm (message ∷ [])) (codes "msg") ≡ unfinished
unfolding parse_imm find_label str_eq
read_values-unfinished_example =
    read_values-unfinished (message ∷ []) b'm' (codes "sg") 64 5 refl refl refl refl

data_bytes-Written_example :
    Written (codes ".word") 4 [] new_assembler (7 ∷ 4294967295 ∷ [])
    × Written (codes ".half") 2 [] new_assembler (7 ∷ 4294967295 ∷ [])
data_bytes-Written_example =
    data_bytes-Written [] new_assembler 7 (4294967295 ∷ []) (omega arith, (omega arith, tt))

process_directive-SameSize_example :
    SameSize new_assembler
      (process_directive (codes " .asciiz \"hi\"") new_assembler)
      (data_bytes [] (codes " .asciiz \"hi\""))
unfolding process_directive trim skip_spaces drop_trailing
process_directive-SameSize_example =
    process_directive-SameSize [] (codes " .asciiz \"hi\"") new_assembler refl

abbrev no_tables : Tables
no_tables = record { labels = []; sections = []; stale = no_operands }

-- `li a0, 70000`
abbrev load_number : Operands
load_number = record { op = codes "li"; a1 = codes "a0"; a2 = codes "70000"; a3 = [] }

assemble_operands-Writes_example :
    Writes (bytes_of 2) new_writer (assemble_operands no_tables load_number new_writer)
unfolding parse_imm number_from str_eq pseudoinstruction_size
assemble_operands-Writes_example =
    assemble_operands-Writes no_tables load_number new_writer [] 2 (inr refl) refl

abbrev program_lines : List (List ℕ)
program_lines = codes "start: nop" ∷ codes ".data" ∷ codes "x: .word 1, 2" ∷ []

first_pass-ExitsOrKeeps_example : ExitsOrKeeps (first_pass program_lines new_assembler)
first_pass-ExitsOrKeeps_example = first_pass-ExitsOrKeeps program_lines new_assembler-IsAssembler

abbrev first_program : File
first_program = record { file_size = 4; delivered = 0x33 ∷ 0x85 ∷ 0xc5 ∷ 0x40 ∷ [] }

first_program-IsFile : IsFile first_program
first_program-IsFile = record {
  delivered_fits = omega arith;
  delivered_bytes = (omega arith, (omega arith, (omega arith, (omega arith, tt))));
}

load_program-Loads_example :
    Loads first_program 8 (machine 0) (load_program (some first_program) 8 (machine 0))
load_program-Loads_example = load_program-Loads 8 first_program-IsFile (machine-IsMachine 0)

-- `sub a0, a1, a2` and two instructions that are none.
run_loop-RunsOrOverflows_example :
    RunsOrOverflows silent 3 0 3 (machine 0x40c58533) (run_loop 3 silent (machine 0x40c58533) 0)
run_loop-RunsOrOverflows_example =
    run_loop-RunsOrOverflows 3 0 3 (machine 0x40c58533) silent-IsKernel refl
      (machine-IsMachine 0x40c58533)

-- What the first pass counts.
abbrev counted : Assembler
counted = record {
  labels =
      record { name = codes "start"; addr = 0; section_name = codes ".text" }
      ∷ record { name = codes "x"; addr = 0; section_name = codes ".data" }
      ∷ [];
  sections =
      (codes ".bss", empty_section (codes ".bss") sec_bss)
      ∷ (codes ".data", record { name = codes ".data"; type = sec_data; offset = 8; base_addr = 0 })
      ∷ (codes ".rodata", empty_section (codes ".rodata") sec_rodata)
      ∷ (codes ".text", record { name = codes ".text"; type = sec_text; offset = 4; base_addr = 0 })
      ∷ [];
  current_section_name = codes ".data";
  pc_text = 4;
  pc_data = 8;
  text_size = 4;
  data_size = 8;
}

first_pass-IsPlaced_example : IsPlaced counted (adjusted counted)
unfolding first_pass find_section str_eq new_assembler trim skip_spaces drop_trailing
    pseudoinstruction_size switch_section
first_pass-IsPlaced_example = first_pass-IsPlaced program_lines counted refl (omega arith)

word-IsToken : IsToken (codes "la") × IsToken (codes "a0") × IsToken (codes "msg")
word-IsToken = (
  record {
    plain = (
      record { no_space = refl; no_blank = refl; no_comma = refl; no_hash = refl },
      (record { no_space = refl; no_blank = refl; no_comma = refl; no_hash = refl }, tt),
    );
    filled = refl;
    short = omega arith;
  },
  record {
    plain = (
      record { no_space = refl; no_blank = refl; no_comma = refl; no_hash = refl },
      (record { no_space = refl; no_blank = refl; no_comma = refl; no_hash = refl }, tt),
    );
    filled = refl;
    short = omega arith;
  },
  record {
    plain = (
      record { no_space = refl; no_blank = refl; no_comma = refl; no_hash = refl },
      (
        record { no_space = refl; no_blank = refl; no_comma = refl; no_hash = refl },
        (record { no_space = refl; no_blank = refl; no_comma = refl; no_hash = refl }, tt),
      ),
    );
    filled = refl;
    short = omega arith;
  },
)

process_instruction_second_pass-Writes_example :
    (process_instruction_first_pass (codes "la a0, msg") new_assembler
      ≡ some (grow_text (bytes_of 2) new_assembler))
    × Writes
        (bytes_of 2)
        new_writer
        (process_instruction_second_pass no_tables (codes "la a0, msg") new_writer)
unfolding pseudoinstruction_size str_eq
process_instruction_second_pass-Writes_example =
    process_instruction_second_pass-Writes (codes "la") (codes "a0") (codes "msg") (word-IsToken.0)
      (word-IsToken.1) (word-IsToken.2) (omega arith) (omega arith) (refl, (refl, tt))
      (refl, (refl, tt)) (refl, (refl, (refl, tt))) no_tables new_writer new_assembler 2 (inl refl)
      refl
