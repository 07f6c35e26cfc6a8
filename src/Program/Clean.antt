-- ===== src/Program/Clean.antt =====
-- The line of a statement is clean, as the text functions of the assembler see it
-- (assembler/src/utils.cpp and assembler/src/second_pass.cpp).
use riscv_student_pack.Common.{refl, ◌++◌, codes, length-append, arith}
use riscv_student_pack.Assembler.Pseudo.{print_int}
use riscv_student_pack.Program.{
  Statement, register_op, immediate_op, load_number, move, no_operation, system_call, line, IsGood,
}
use riscv_student_pack.Program.Bytes.{letters-IsLineByte, name-short}
use riscv_student_pack.Program.Lines.{
  IsLine, IsRegister-IsOperand, print_int-IsOperand, print_int-short, one-ArePlain, more-ArePlain,
  op-IsLine, name-IsOperand, li-IsOperand, mv-IsOperand,
}
use riscv_student_pack.Program.Immediates.{immediate_name-IsOperand, immediate_name-short}

pub line-IsLine : (s : Statement) → IsGood s → IsLine (line s)
line-IsLine (register_op op a b c) (ha, (hb, hc)) =
    op-IsLine _ (name-IsOperand op)
      (more-ArePlain _ (IsRegister-IsOperand ha)
        (more-ArePlain _ (IsRegister-IsOperand hb) (one-ArePlain (IsRegister-IsOperand hc))))
      (omega (
        arith,
        name-short op,
        length-append a (codes ", " ++ (b ++ (codes ", " ++ c))),
        length-append b (codes ", " ++ c),
        ha.token.short,
        hb.token.short,
        hc.token.short,
      ))
line-IsLine (immediate_op op a b v) (ha, (hb, (fits, hv))) =
    op-IsLine _ (immediate_name-IsOperand op)
      (more-ArePlain _ (IsRegister-IsOperand ha)
        (more-ArePlain _ (IsRegister-IsOperand hb) (one-ArePlain (print_int-IsOperand v))))
      (omega (
        arith,
        immediate_name-short op,
        length-append a (codes ", " ++ (b ++ (codes ", " ++ print_int v))),
        length-append b (codes ", " ++ print_int v),
        ha.token.short,
        hb.token.short,
        print_int-short v,
      ))
line-IsLine (load_number a v) (ha, h) =
    op-IsLine _ li-IsOperand
      (more-ArePlain _ (IsRegister-IsOperand ha) (one-ArePlain (print_int-IsOperand v)))
      (omega
        (arith, length-append a (codes ", " ++ print_int v), ha.token.short, print_int-short v))
line-IsLine (move a b) (ha, hb) =
    op-IsLine _ mv-IsOperand
      (more-ArePlain _ (IsRegister-IsOperand ha) (one-ArePlain (IsRegister-IsOperand hb)))
      (omega (arith, length-append a (codes ", " ++ b), ha.token.short, hb.token.short))
line-IsLine no_operation h = record {
  starts = refl;
  ends = refl;
  bytes = letters-IsLineByte (codes "nop") (refl, (refl, (refl, tt)));
  short = omega arith;
}
line-IsLine system_call h = record {
  starts = refl;
  ends = refl;
  bytes = letters-IsLineByte (codes "ecall") (refl, (refl, (refl, (refl, (refl, tt)))));
  short = omega arith;
}
