-- ===== src/Program/Immediates.antt =====
-- The names of the instructions on a register and a number, in both passes
-- (assembler/src/first_pass.cpp and assembler/src/second_pass.cpp).
use riscv_student_pack.Common.{ℕ, ◌<◌, ◌≡◌, refl, false, List, some, length, All, arith}
use riscv_student_pack.Assembler.Chars.{str_eq, is_empty}
use riscv_student_pack.Assembler.Immediates.{Label}
use riscv_student_pack.Assembler.Instructions.Immediate.{
  ImmediateMnemonic, immediate_name, addi, slti, sltiu, xori, ori, andi, slli, srli, srai,
}
use riscv_student_pack.Assembler.Pseudo.{pseudoinstruction_size, is_pseudoinstruction}
use riscv_student_pack.Program.Bytes.{IsLetter, letters-IsPlain, letters-IsLineByte}
use riscv_student_pack.Program.Lines.{IsOperand}

immediate_name-IsLetter : (op : ImmediateMnemonic) → All IsLetter (immediate_name op)
immediate_name-IsLetter addi = (refl, (refl, (refl, (refl, tt))))
immediate_name-IsLetter slti = (refl, (refl, (refl, (refl, tt))))
immediate_name-IsLetter sltiu = (refl, (refl, (refl, (refl, (refl, tt)))))
immediate_name-IsLetter xori = (refl, (refl, (refl, (refl, tt))))
immediate_name-IsLetter ori = (refl, (refl, (refl, tt)))
immediate_name-IsLetter andi = (refl, (refl, (refl, (refl, tt))))
immediate_name-IsLetter slli = (refl, (refl, (refl, (refl, tt))))
immediate_name-IsLetter srli = (refl, (refl, (refl, (refl, tt))))
immediate_name-IsLetter srai = (refl, (refl, (refl, (refl, tt))))

immediate_name-filled : (op : ImmediateMnemonic) → is_empty (immediate_name op) ≡ false
immediate_name-filled addi = refl
immediate_name-filled slti = refl
immediate_name-filled sltiu = refl
immediate_name-filled xori = refl
immediate_name-filled ori = refl
immediate_name-filled andi = refl
immediate_name-filled slli = refl
immediate_name-filled srli = refl
immediate_name-filled srai = refl

pub immediate_name-short : (op : ImmediateMnemonic) → length (immediate_name op) < 7
immediate_name-short addi = omega arith
immediate_name-short slti = omega arith
immediate_name-short sltiu = omega arith
immediate_name-short xori = omega arith
immediate_name-short ori = omega arith
immediate_name-short andi = omega arith
immediate_name-short slli = omega arith
immediate_name-short srli = omega arith
immediate_name-short srai = omega arith

pub immediate_name-IsOperand : (op : ImmediateMnemonic) → IsOperand (immediate_name op)
immediate_name-IsOperand op = record {
  token = record {
    plain = letters-IsPlain (immediate_name op) (immediate_name-IsLetter op);
    filled = immediate_name-filled op;
    short = omega (arith, immediate_name-short op);
  };
  bytes = letters-IsLineByte (immediate_name op) (immediate_name-IsLetter op);
}

pub immediate_name-size :
    (op : ImmediateMnemonic) (labels : List Label) (a2 : List ℕ)
    → pseudoinstruction_size labels (immediate_name op) a2 ≡ some 0
unfolding pseudoinstruction_size str_eq
immediate_name-size addi labels a2 = refl
immediate_name-size slti labels a2 = refl
immediate_name-size sltiu labels a2 = refl
immediate_name-size xori labels a2 = refl
immediate_name-size ori labels a2 = refl
immediate_name-size andi labels a2 = refl
immediate_name-size slli labels a2 = refl
immediate_name-size srli labels a2 = refl
immediate_name-size srai labels a2 = refl

pub immediate_name-plain :
    (op : ImmediateMnemonic) → is_pseudoinstruction (immediate_name op) ≡ false
unfolding is_pseudoinstruction str_eq
immediate_name-plain addi = refl
immediate_name-plain slti = refl
immediate_name-plain sltiu = refl
immediate_name-plain xori = refl
immediate_name-plain ori = refl
immediate_name-plain andi = refl
immediate_name-plain slli = refl
immediate_name-plain srli = refl
immediate_name-plain srai = refl
