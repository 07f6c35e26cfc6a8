-- ===== src/Program/Mnemonics.antt =====
-- The register instructions' names, and lines without parentheses, in both passes
-- (assembler/src/first_pass.cpp and assembler/src/second_pass.cpp).
use riscv_student_pack.Common.{ℕ, ◌<◌, ◌≡◌, refl, false, List, ◌∷◌, ◌++◌, some, length, arith}
use riscv_student_pack.Assembler.Outcome.{ok}
use riscv_student_pack.Assembler.Chars.{str_eq}
use riscv_student_pack.Assembler.Immediates.{Label}
use riscv_student_pack.Assembler.Instructions.Mnemonics.{
  Mnemonic, name, add, sub, sll, slt, sltu, xor, srl, sra, or, and, mul, mulh, mulhsu, mulhu, div,
  divu, rem, remu,
}
use riscv_student_pack.Assembler.State.{Assembler}
use riscv_student_pack.Assembler.Pseudo.{pseudoinstruction_size, is_pseudoinstruction}
use riscv_student_pack.Assembler.FirstPass.{
  parse_simple_args, grow_text, bytes_of, process_instruction_first_pass,
}
use riscv_student_pack.Assembler.SecondPass.{
  Tables, assemble_operands, process_instruction_second_pass,
}
use riscv_student_pack.Assembler.SecondPass.Arguments.{
  Operands, no_operands, parse_instruction_args, trimmed, without_commas, without_parentheses,
}
use riscv_student_pack.Assembler.SecondPass.Output.{Writer}
use riscv_student_pack.Assembler.SecondPass.Tokens.{
  IsToken, split_at-Lacks, cut_at-Lacks, take_all, StartsPlain-token, skip_spaces-StartsPlain,
  trim-plain,
}
use riscv_student_pack.Assembler.SecondPass.SameLine.{word-token}
use riscv_student_pack.Program.Lines.{IsLine, Lacks-hash, Lacks-open}

-- The lines that `process_instruction_first_pass` counts by their mnemonic alone.
pub counted_by_op :
    (op l : List ℕ) (s : Assembler) (n : ℕ)
    → IsToken op
    → length op < 16
    → length (op ++ (b' ' ∷ l)) < 511
    → ((a2 : List ℕ) → pseudoinstruction_size s.labels op a2 ≡ some n)
    → process_instruction_first_pass (op ++ (b' ' ∷ l)) s ≡ some (grow_text (bytes_of n) s)
unfolding process_instruction_first_pass parse_simple_args
counted_by_op op l s n h short fits size =
    rw
      (
        take_all 511 (op ++ (b' ' ∷ l)) (omega (arith, fits)),
        skip_spaces-StartsPlain (op ++ (b' ' ∷ l)) (StartsPlain-token op _ h),
        word-token op l h.plain,
        take_all 15 op (omega (arith, short)),
        size _,
      )
      refl

pub name-size :
    (op : Mnemonic) (labels : List Label) (a2 : List ℕ)
    → pseudoinstruction_size labels (name op) a2 ≡ some 0
unfolding pseudoinstruction_size str_eq
name-size add labels a2 = refl
name-size sub labels a2 = refl
name-size sll labels a2 = refl
name-size slt labels a2 = refl
name-size sltu labels a2 = refl
name-size xor labels a2 = refl
name-size srl labels a2 = refl
name-size sra labels a2 = refl
name-size or labels a2 = refl
name-size and labels a2 = refl
name-size mul labels a2 = refl
name-size mulh labels a2 = refl
name-size mulhsu labels a2 = refl
name-size mulhu labels a2 = refl
name-size div labels a2 = refl
name-size divu labels a2 = refl
name-size rem labels a2 = refl
name-size remu labels a2 = refl

pub name-plain : (op : Mnemonic) → is_pseudoinstruction (name op) ≡ false
unfolding is_pseudoinstruction str_eq
name-plain add = refl
name-plain sub = refl
name-plain sll = refl
name-plain slt = refl
name-plain sltu = refl
name-plain xor = refl
name-plain srl = refl
name-plain sra = refl
name-plain or = refl
name-plain and = refl
name-plain mul = refl
name-plain mulh = refl
name-plain mulhsu = refl
name-plain mulhu = refl
name-plain div = refl
name-plain divu = refl
name-plain rem = refl
name-plain remu = refl

-- A line with no comment and no parenthesis.
pub plain_line :
    (t : Tables) (l : List ℕ) (w : Writer) {x : Operands}
    → IsLine l
    → parse_instruction_args l no_operands ≡ ok x
    → process_instruction_second_pass t l w ≡ assemble_operands t (without_commas (trimmed x)) w
unfolding process_instruction_second_pass without_parentheses
plain_line t l w h e =
    rw
      (
        cut_at-Lacks b'#' l (Lacks-hash l h.bytes),
        trim-plain l h.starts h.ends,
        split_at-Lacks b'(' l (Lacks-open l h.bytes),
        e,
      )
      refl
