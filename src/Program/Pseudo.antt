-- ===== src/Program/Pseudo.antt =====
-- The pseudoinstructions of programs in both passes (assembler/src/first_pass.cpp,
-- assembler/src/second_pass.cpp and assembler/src/expand_pseudoinstruction.cpp).
use riscv_student_pack.Common.{
  ℕ, ◌*◌, ◌≡◌, refl, ap, ◌∙◌, true, List, [], ◌++◌, some, if◌then◌else◌, codes, length, arith,
  Bool-cases, inl, inr,
}
use riscv_student_pack.Encoder.{encode_i}
use riscv_student_pack.Assembler.Outcome.{ok}
use riscv_student_pack.Assembler.Chars.{str_eq, skip_spaces}
use riscv_student_pack.Assembler.Text.{word, split_at, trim_in_place}
use riscv_student_pack.Assembler.Registers.{reg_num, numbered}
use riscv_student_pack.Assembler.Immediates.{Label}
use riscv_student_pack.Assembler.State.{Assembler}
use riscv_student_pack.Assembler.Pseudo.{
  print_int, pseudoinstruction_size, is_pseudoinstruction, expand_pseudoinstruction, is_small,
}
use riscv_student_pack.Assembler.FirstPass.{
  parse_simple_args, grow_text, process_instruction_first_pass,
}
use riscv_student_pack.Assembler.SecondPass.{
  Tables, assemble_expanded, assemble_lines, assemble_operands, process_instruction_second_pass,
}
use riscv_student_pack.Assembler.SecondPass.Arguments.{no_operands, parse_instruction_args}
use riscv_student_pack.Assembler.SecondPass.Output.{Writer, emit_word}
use riscv_student_pack.Assembler.SecondPass.Tokens.{IsToken}
use riscv_student_pack.Assembler.SecondPass.Lines.{parse-two}
use riscv_student_pack.Assembler.SecondPass.SameLine.{
  trim_in_place-token, drop_comma-token, process_instruction_first_pass_lem,
  process_instruction_second_pass_lem,
}
use riscv_student_pack.Assembler.SecondPass.Expansion.{
  assemble-three, encode-addi, parse_printed, emit_encoded, print_int-IsToken,
}
use riscv_student_pack.Assembler.SecondPass.Constants.{rounded, assemble-li}
use riscv_student_pack.Program.{
  load_number, move, no_operation, line, words_of, upper_part, emit_words, IsGood,
}
use riscv_student_pack.Program.Bytes.{print_int-numeric, print_int-IsLineByte}
use riscv_student_pack.Program.Clean.{line-IsLine}
use riscv_student_pack.Program.Lines.{li-IsOperand, mv-IsOperand, print_int-short, Lacks-open}
use riscv_student_pack.Program.Mnemonics.{counted_by_op, plain_line}

x0-IsToken : IsToken (codes "x0")
x0-IsToken = record {
  plain = (
    record { no_space = refl; no_blank = refl; no_comma = refl; no_hash = refl },
    (record { no_space = refl; no_blank = refl; no_comma = refl; no_hash = refl }, tt),
  );
  filled = refl;
  short = omega arith;
}

-- `li`, small and large.
module _ (a : List ℕ) (v : ℕ) (good : IsGood (load_number a v)) where
  li-size :
      (labels : List Label)
      → pseudoinstruction_size labels (codes "li") (print_int v)
        ≡ some (if is_small v then 1 else 2)
  unfolding pseudoinstruction_size str_eq
  li-size labels = rw (print_int-numeric v, parse_printed labels v (good.1.0)) refl

  li-small :
      (t : Tables) (w : Writer)
      → is_small v ≡ true
      → assemble_operands t (record { op = codes "li"; a1 = a; a2 = print_int v; a3 = [] }) w
        ≡ ok (emit_word (encode_i v 0 0x0 (reg_num a) 0x13) w)
  unfolding assemble_operands assemble_lines expand_pseudoinstruction is_pseudoinstruction str_eq
      reg_num numbered
  li-small t w small =
      let ha = good.0.token in
      let added : assemble_expanded t (codes "addi " ++ (a ++ (codes ", x0, " ++ print_int v))) w
          ≡ ok (emit_word (encode_i v 0 0x0 (reg_num a) 0x13) w) =
        assemble-three t w (codes "addi") a (codes "x0") (refl, (refl, (refl, (refl, tt))))
          (refl, (refl, (refl, (refl, tt)))) (omega arith) ha x0-IsToken (print_int v)
          (print_int-IsToken v)
        ∙ ap (emit_encoded w) (
            encode-addi t.labels w.pc v a (codes "x0") (print_int v)
              (parse_printed t.labels v (good.1.0))) in
      rw (parse_printed t.labels v (good.1.0), small, added) refl

  pub load_number-second :
      (t : Tables) (w : Writer)
      → process_instruction_second_pass t (line (load_number a v)) w
        ≡ ok (emit_words (words_of (load_number a v)) w)
  load_number-second t w =
      let ha = good.0.token in
      let read =
        process_instruction_second_pass_lem (codes "li") a (print_int v) li-IsOperand.token ha
          (print_int-IsToken v) (omega arith) (print_int-short v)
          (Lacks-open (codes "li") li-IsOperand.bytes) (Lacks-open a good.0.bytes)
          (Lacks-open (print_int v) (print_int-IsLineByte v)) t w in
      elim (Bool-cases (is_small v)) [
        | inl small ↦ read ∙ rw small (li-small t w small)
        | inr large ↦
            read
            ∙ rw large (
                assemble-li t w a (print_int v) [] v (upper_part v) ha (good.1.0)
                  (rounded v (good.1.1)) (parse_printed t.labels v (good.1.0)) large)
      ]

  pub load_number-first :
      (s : Assembler)
      → process_instruction_first_pass (line (load_number a v)) s
        ≡ some (grow_text (length (words_of (load_number a v)) * 4) s)
  load_number-first s =
      let read =
        process_instruction_first_pass_lem (codes "li") a (print_int v) li-IsOperand.token
          (good.0.token) (print_int-IsToken v) (omega arith) (print_int-short v)
          (if is_small v then 1 else 2) s (li-size s.labels) in
      elim (Bool-cases (is_small v)) [
        | inl small ↦ read ∙ rw small refl
        | inr large ↦ read ∙ rw large refl
      ]

-- `mv`
mv-size :
    (labels : List Label) (a2 : List ℕ) → pseudoinstruction_size labels (codes "mv") a2 ≡ some 1
unfolding pseudoinstruction_size str_eq
mv-size labels a2 = refl

module _ (a b : List ℕ) (good : IsGood (move a b)) where
  move_expanded :
      (t : Tables) (w : Writer)
      → assemble_expanded t (codes "addi " ++ (a ++ (codes ", " ++ (b ++ codes ", 0")))) w
        ≡ ok (emit_word (encode_i 0 (reg_num b) 0x0 (reg_num a) 0x13) w)
  unfolding print_int
  move_expanded t w =
      let (ha, hb) = good in
      assemble-three t w (codes "addi") a b (refl, (refl, (refl, (refl, tt))))
        (refl, (refl, (refl, (refl, tt)))) (omega arith) ha.token hb.token (codes "0")
        (print_int-IsToken 0)
      ∙ ap (emit_encoded w)
          (encode-addi t.labels w.pc 0 a b (codes "0") (parse_printed t.labels 0 (omega arith)))

  pub move-second :
      (t : Tables) (w : Writer)
      → process_instruction_second_pass t (line (move a b)) w
        ≡ ok (emit_words (words_of (move a b)) w)
  unfolding assemble_operands assemble_lines expand_pseudoinstruction is_pseudoinstruction str_eq
      trim_in_place
  move-second t w =
      let (ha, hb) = good in
      plain_line t (line (move a b)) w (line-IsLine (move a b) good)
        (parse-two (codes "mv") a b no_operands (refl, (refl, tt)) (omega arith) ha.token hb.token)
      ∙ rw
          (
            trim_in_place-token a ha.token,
            trim_in_place-token b hb.token,
            drop_comma-token a ha.token,
            drop_comma-token b hb.token,
            move_expanded t w,
          )
          refl

  pub move-first :
      (s : Assembler) → process_instruction_first_pass (line (move a b)) s ≡ some (grow_text 4 s)
  move-first s =
      counted_by_op (codes "mv") (a ++ (codes ", " ++ b)) s 1 (mv-IsOperand.token) (omega arith)
        (omega (arith, (line-IsLine (move a b) good).short)) (mv-size s.labels)

-- `nop`
pub no_operation-second :
    (t : Tables) (w : Writer)
    → process_instruction_second_pass t (line no_operation) w
      ≡ ok (emit_words (words_of no_operation) w)
unfolding assemble_operands assemble_lines expand_pseudoinstruction is_pseudoinstruction str_eq
    trim_in_place parse_instruction_args split_at reg_num numbered print_int
no_operation-second t w =
    let added : assemble_expanded t (codes "addi x0, x0, 0") w
        ≡ ok (emit_word (encode_i 0 (reg_num (codes "x0")) 0x0 (reg_num (codes "x0")) 0x13) w) =
      assemble-three t w (codes "addi") (codes "x0") (codes "x0") (refl, (refl, (refl, (refl, tt))))
        (refl, (refl, (refl, (refl, tt)))) (omega arith) x0-IsToken x0-IsToken (codes "0")
        (print_int-IsToken 0)
      ∙ ap (emit_encoded w) (
          encode-addi t.labels w.pc 0 (codes "x0") (codes "x0") (codes "0")
            (parse_printed t.labels 0 (omega arith))) in
    plain_line t (line no_operation) w (line-IsLine no_operation tt) refl ∙ rw added refl

pub no_operation-first :
    (s : Assembler) → process_instruction_first_pass (line no_operation) s ≡ some (grow_text 4 s)
unfolding process_instruction_first_pass parse_simple_args pseudoinstruction_size str_eq word
    skip_spaces
no_operation-first s = refl
