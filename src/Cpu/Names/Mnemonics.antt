-- ===== src/Cpu/Names/Mnemonics.antt =====
-- emulator/src/cpu.cpp: `get_instruction_name` against the mnemonics of the assembler
-- (assembler/src/second_pass.cpp).
use riscv_student_pack.Common.{ℕ, ◌<◌, ◌≡◌, refl, ap, ◌∙◌, List, Option, none, some}
use riscv_student_pack.Memory.{◌>>=◌}
use riscv_student_pack.Instruction.{Instruction, decode}
use riscv_student_pack.Encoder.RoundTrip.{decode-encode_r}
use riscv_student_pack.Assembler.Registers.{reg_num}
use riscv_student_pack.Assembler.Immediates.{Label}
use riscv_student_pack.Assembler.Instructions.{encode_instruction}
use riscv_student_pack.Assembler.Instructions.Mnemonics.{
  Mnemonic, add, sub, sll, slt, sltu, xor, srl, sra, or, and, mul, mulh, mulhsu, mulhu, div, divu,
  rem, remu, name, funct7_of, funct3_of,
}
use riscv_student_pack.Assembler.Instructions.Execution.{funct_fits, encode_instruction-name}
use riscv_student_pack.Cpu.Names.{get_instruction_name, name_register, name_base, name_m}

-- What the debug output calls a decoded word.
abbrev called : Option Instruction → Option (List ℕ)
called none = none
called (some d) = some (get_instruction_name d.opcode d.funct3 d.funct7)

-- The name that the emulator prints for an assembled word.
abbrev pub printed : Option ℕ → Option (List ℕ)
printed o = do w ← o; called (decode w)

get_instruction_name-name :
    (op : Mnemonic) → get_instruction_name 0x33 (funct3_of op) (funct7_of op) ≡ name op
unfolding get_instruction_name name_register name_base name_m
get_instruction_name-name add = refl
get_instruction_name-name sub = refl
get_instruction_name-name sll = refl
get_instruction_name-name slt = refl
get_instruction_name-name sltu = refl
get_instruction_name-name xor = refl
get_instruction_name-name srl = refl
get_instruction_name-name sra = refl
get_instruction_name-name or = refl
get_instruction_name-name and = refl
get_instruction_name-name mul = refl
get_instruction_name-name mulh = refl
get_instruction_name-name mulhsu = refl
get_instruction_name-name mulhu = refl
get_instruction_name-name div = refl
get_instruction_name-name divu = refl
get_instruction_name-name rem = refl
get_instruction_name-name remu = refl

-- For each of the 18 R-type mnemonics of RV32IM and operands that name registers, the emulator's
-- name for what `encode_instruction` makes of them is that mnemonic.
pub printed-encode_instruction :
    (op : Mnemonic) (labels : List Label) (pc : ℕ) (a1 a2 a3 : List ℕ)
    → reg_num a1 < 32
    → reg_num a2 < 32
    → reg_num a3 < 32
    → printed (encode_instruction labels pc (name op) a1 a2 a3) ≡ some (name op)
printed-encode_instruction op labels pc a1 a2 a3 h1 h2 h3 =
    let (f7, f3) = funct_fits op in
    ap printed (encode_instruction-name op labels pc a1 a2 a3)
    ∙ ap called (
        decode-encode_r (funct7_of op) (reg_num a3) (reg_num a2) (funct3_of op) (reg_num a1) f7 h3
          h2 f3 h1)
    ∙ ap some (get_instruction_name-name op)
