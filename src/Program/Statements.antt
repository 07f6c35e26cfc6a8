-- ===== src/Program/Statements.antt =====
-- One statement in both passes (assembler/src/first_pass.cpp and assembler/src/second_pass.cpp).
use riscv_student_pack.Common.{ℕ, ◌*◌, ◌≡◌, refl, ◌∙◌, List, ◌++◌, some, codes, length, arith}
use riscv_student_pack.Assembler.Outcome.{ok}
use riscv_student_pack.Assembler.Chars.{str_eq, skip_spaces}
use riscv_student_pack.Assembler.Text.{word, split_at, trim_in_place}
use riscv_student_pack.Assembler.Instructions.{encode_instruction, find_form, encode_form}
use riscv_student_pack.Assembler.Instructions.Mnemonics.{Mnemonic, name}
use riscv_student_pack.Assembler.Instructions.Execution.{encode_instruction-name}
use riscv_student_pack.Assembler.State.{Assembler}
use riscv_student_pack.Assembler.Pseudo.{print_int, pseudoinstruction_size, is_pseudoinstruction}
use riscv_student_pack.Assembler.FirstPass.{
  parse_simple_args, grow_text, process_instruction_first_pass,
}
use riscv_student_pack.Assembler.SecondPass.{
  Tables, assemble_operands, process_instruction_second_pass,
}
use riscv_student_pack.Assembler.SecondPass.Arguments.{no_operands, parse_instruction_args}
use riscv_student_pack.Assembler.SecondPass.Output.{Writer}
use riscv_student_pack.Assembler.SecondPass.Tokens.{no_blanks}
use riscv_student_pack.Assembler.SecondPass.Lines.{parse-three}
use riscv_student_pack.Assembler.SecondPass.SameLine.{trim_in_place-token, drop_comma-token}
use riscv_student_pack.Assembler.SecondPass.Expansion.{parse_printed, print_int-IsToken}
use riscv_student_pack.Program.{
  Statement, register_op, immediate_op, load_number, move, no_operation, system_call, line,
  words_of, emit_words, IsGood,
}
use riscv_student_pack.Program.Bytes.{name-IsToken, name-short}
use riscv_student_pack.Program.Clean.{line-IsLine}
use riscv_student_pack.Program.Immediates.{
  immediate_name-IsOperand, immediate_name-short, immediate_name-size, immediate_name-plain,
}
use riscv_student_pack.Assembler.Instructions.Immediate.{
  ImmediateMnemonic, immediate_name, encode_instruction-immediate,
}
use riscv_student_pack.Program.Pseudo.{
  load_number-second, load_number-first, move-second, move-first, no_operation-second,
  no_operation-first,
}
use riscv_student_pack.Program.Mnemonics.{counted_by_op, name-size, name-plain, plain_line}

-- Register instructions.
module _ (op : Mnemonic) (a b c : List ℕ) (good : IsGood (register_op op a b c)) where
  register_op-second :
      (t : Tables) (w : Writer)
      → process_instruction_second_pass t (line (register_op op a b c)) w
        ≡ ok (emit_words (words_of (register_op op a b c)) w)
  unfolding assemble_operands
  register_op-second t w =
      let (ha, (hb, hc)) = good in
      let ho = name-IsToken op in
      plain_line t (line (register_op op a b c)) w (line-IsLine (register_op op a b c) good) (
        parse-three (name op) a b no_operands (no_blanks (name op) ho.plain) (name-short op)
          ha.token hb.token c hc.token)
      ∙ rw
          (
            trim_in_place-token a ha.token,
            trim_in_place-token b hb.token,
            trim_in_place-token c hc.token,
            drop_comma-token a ha.token,
            drop_comma-token b hb.token,
            name-plain op,
            encode_instruction-name op t.labels w.pc a b c,
          )
          refl

  register_op-first :
      (s : Assembler)
      → process_instruction_first_pass (line (register_op op a b c)) s ≡ some (grow_text 4 s)
  register_op-first s =
      counted_by_op (name op) (a ++ (codes ", " ++ (b ++ (codes ", " ++ c)))) s 0 (name-IsToken op)
        (name-short op) (omega (arith, (line-IsLine (register_op op a b c) good).short))
        (name-size op s.labels)

-- Instructions on a register and a number.
module _ (op : ImmediateMnemonic) (a b : List ℕ) (v : ℕ)
    (good : IsGood (immediate_op op a b v)) where
  immediate_op-second :
      (t : Tables) (w : Writer)
      → process_instruction_second_pass t (line (immediate_op op a b v)) w
        ≡ ok (emit_words (words_of (immediate_op op a b v)) w)
  unfolding assemble_operands
  immediate_op-second t w =
      let (ha, (hb, (fits, hv))) = good in
      let ho = (immediate_name-IsOperand op).token in
      let hp = print_int-IsToken v in
      plain_line t (line (immediate_op op a b v)) w (line-IsLine (immediate_op op a b v) good) (
        parse-three (immediate_name op) a b no_operands (no_blanks (immediate_name op) ho.plain)
          (omega (arith, immediate_name-short op)) ha.token hb.token (print_int v) hp)
      ∙ rw
          (
            trim_in_place-token a ha.token,
            trim_in_place-token b hb.token,
            trim_in_place-token (print_int v) hp,
            drop_comma-token a ha.token,
            drop_comma-token b hb.token,
            immediate_name-plain op,
            encode_instruction-immediate t.labels w.pc v a b (print_int v) ha.number_fits
                hb.number_fits (parse_printed t.labels v fits) op hv,
          )
          refl

  immediate_op-first :
      (s : Assembler)
      → process_instruction_first_pass (line (immediate_op op a b v)) s ≡ some (grow_text 4 s)
  immediate_op-first s =
      counted_by_op (immediate_name op) (a ++ (codes ", " ++ (b ++ (codes ", " ++ print_int v)))) s
        0 ((immediate_name-IsOperand op).token) (omega (arith, immediate_name-short op))
        (omega (arith, (line-IsLine (immediate_op op a b v) good).short))
        (immediate_name-size op s.labels)

-- `ecall`
system_call-second :
    (t : Tables) (w : Writer)
    → process_instruction_second_pass t (line system_call) w
      ≡ ok (emit_words (words_of system_call) w)
unfolding assemble_operands is_pseudoinstruction str_eq encode_instruction find_form encode_form
    trim_in_place parse_instruction_args split_at
system_call-second t w = plain_line t (line system_call) w (line-IsLine system_call tt) refl ∙ refl

system_call-first :
    (s : Assembler) → process_instruction_first_pass (line system_call) s ≡ some (grow_text 4 s)
unfolding process_instruction_first_pass parse_simple_args pseudoinstruction_size str_eq word
    skip_spaces
system_call-first s = refl

-- In both passes, whatever the tables are.
pub statement-second :
    (s : Statement) (t : Tables) (w : Writer)
    → IsGood s
    → process_instruction_second_pass t (line s) w ≡ ok (emit_words (words_of s) w)
statement-second (register_op op a b c) t w good = register_op-second op a b c good t w
statement-second (immediate_op op a b v) t w good = immediate_op-second op a b v good t w
statement-second (load_number a v) t w good = load_number-second a v good t w
statement-second (move a b) t w good = move-second a b good t w
statement-second no_operation t w good = no_operation-second t w
statement-second system_call t w good = system_call-second t w

pub statement-first :
    (s : Statement) (a : Assembler)
    → IsGood s
    → process_instruction_first_pass (line s) a ≡ some (grow_text (length (words_of s) * 4) a)
statement-first (register_op op a1 b c) a good = register_op-first op a1 b c good a
statement-first (immediate_op op a1 b v) a good = immediate_op-first op a1 b v good a
statement-first (load_number a1 v) a good = load_number-first a1 v good a
statement-first (move a1 b) a good = move-first a1 b good a
statement-first no_operation a good = no_operation-first a
statement-first system_call a good = system_call-first a
