-- ===== src/Tests/Calls.antt =====
-- A call of a function that returns at once (assembler/src/second_pass.cpp and
-- emulator/src/cpu.cpp).
use riscv_student_pack.Common.{refl, sym, true, false, [], ◌∷◌, codes, arith, inl}
use mathlib.Core.Path.{subst}
use riscv_student_pack.Scan.{number_from}
use riscv_student_pack.Assembler.Chars.{str_eq}
use riscv_student_pack.Assembler.Immediates.{parse_imm, find_label}
use riscv_student_pack.Assembler.Outcome.{Outcome}
use riscv_student_pack.Assembler.SecondPass.{Tables, assemble_operands}
use riscv_student_pack.Assembler.SecondPass.Arguments.{no_operands}
use riscv_student_pack.Assembler.SecondPass.Output.{Writer, new_writer, emit_word, go_to}
use riscv_student_pack.Assembler.SecondPass.Tokens.{IsToken}
use riscv_student_pack.Assembler.SecondPass.Fetching.{emit_word-below}
use riscv_student_pack.Assembler.SecondPass.Constants.{FileHolds}
use riscv_student_pack.Cpu.State.{Machine, IsMachine, reg_write}
use riscv_student_pack.Emulator.Running.{Steps}
use riscv_student_pack.Program.Calls.{
  operands, call_word, ret_word, assemble-call, assemble-ret, run-call_ret,
}
use riscv_student_pack.Tests.Machines.{silent}

-- The function is at 8.
abbrev function_table : Tables
function_table = record {
  labels = record { name = codes "f"; addr = 8; section_name = codes ".text" } ∷ [];
  sections = [];
  stale = no_operands;
}

abbrev caller : Writer
caller = emit_word (call_word 8 0) new_writer

abbrev both : Writer
both = emit_word ret_word (go_to 8 caller)

abbrev caller_machine : Machine
caller_machine = record {
  cpu = record { x = λ r. 0; pc = 0; running = true; debug_mode = false };
  mem = record { data_at = both.bytes; size = 64 };
  calls = [];
}

caller_machine-IsMachine : IsMachine caller_machine
unfolding emit_word
caller_machine-IsMachine = record {
  cpu_good = record { pc_fits = omega arith; x_fits = λ r. omega arith; zero_cell = refl };
  mem_good = record { size_fits = omega arith; cells_fit = λ a. ground arith };
  holds_word = omega arith;
}

f-IsToken : IsToken (codes "f")
f-IsToken = record {
  plain = (record { no_space = refl; no_blank = refl; no_comma = refl; no_hash = refl }, tt);
  filled = refl;
  short = omega arith;
}

call_held :
    FileHolds
      (assemble_operands function_table (operands (codes "call") (codes "f")) new_writer)
      0
      4
      caller_machine.mem
unfolding parse_imm number_from find_label str_eq
call_held =
    subst (λ (o : Outcome Writer). FileHolds o 0 4 caller_machine.mem)
      (sym (assemble-call function_table new_writer (codes "f") [] [] f-IsToken refl))
      (record {
        cells = λ c p q. emit_word-below ret_word (go_to 8 caller) c (omega (arith, q));
        inside = omega arith;
      })

ret_held :
    FileHolds
      (assemble_operands function_table (operands (codes "ret") []) (go_to 8 caller))
      8
      12
      caller_machine.mem
ret_held =
    subst (λ (o : Outcome Writer). FileHolds o 8 12 caller_machine.mem)
      (sym (assemble-ret function_table (go_to 8 caller) [] [] []))
      (record { cells = λ c p q. refl; inside = omega arith })

run-call_ret_example :
    Steps silent 2 caller_machine
      (record caller_machine { cpu = record (reg_write 1 4 caller_machine.cpu) { pc = 4 } })
unfolding parse_imm number_from find_label str_eq
run-call_ret_example =
    run-call_ret silent function_table new_writer (go_to 8 caller) (codes "f") 8
      caller_machine-IsMachine refl f-IsToken refl (omega arith) (inl (omega arith)) refl refl
      (omega arith) refl refl refl call_held ret_held
