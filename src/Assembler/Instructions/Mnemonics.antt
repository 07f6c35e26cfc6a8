-- ===== src/Assembler/Instructions/Mnemonics.antt =====
-- The R-type instructions by their mnemonics in assembler/src/second_pass.cpp, with what the
-- instruction set says of each.
use riscv_student_pack.Common.{
  ℕ, ◌+◌, ◌-◌, ◌*◌, ◌/◌, ◌%◌, ◌^◌, List, ltb, ◌==◌, if◌then◌else◌, codes, sra32, bit_and, bit_or,
  bit_xor, pos, ◌*ℤ◌, signed32, to_u32, floor_shift, ltb_ℤ,
}
use riscv_student_pack.Cpu.Alu.Division.{Overflows}
use riscv_student_pack.Cpu.Alu.Rounding.{quotient, remainder}

-- The instructions of R-type.
pub data Mnemonic : Type 0 where
  add sub sll slt sltu xor srl sra or and mul mulh mulhsu mulhu div divu rem remu : Mnemonic

abbrev pub name : Mnemonic → List ℕ
name add = codes "add"
name sub = codes "sub"
name sll = codes "sll"
name slt = codes "slt"
name sltu = codes "sltu"
name xor = codes "xor"
name srl = codes "srl"
name sra = codes "sra"
name or = codes "or"
name and = codes "and"
name mul = codes "mul"
name mulh = codes "mulh"
name mulhsu = codes "mulhsu"
name mulhu = codes "mulhu"
name div = codes "div"
name divu = codes "divu"
name rem = codes "rem"
name remu = codes "remu"

-- The instruction set's meaning of each: the pattern of the result by the operands' patterns.
abbrev pub meaning : Mnemonic → ℕ → ℕ → ℕ
meaning add a b = (a + b) % 2 ^ 32
meaning sub a b = (a + 2 ^ 32 - b) % 2 ^ 32
meaning sll a b = a * 2 ^ (b % 32) % 2 ^ 32
meaning slt a b = if ltb_ℤ (signed32 a) (signed32 b) then 1 else 0
meaning sltu a b = if ltb a b then 1 else 0
meaning xor a b = bit_xor a b
meaning srl a b = a / 2 ^ (b % 32)
meaning sra a b = sra32 a (b % 32)
meaning or a b = bit_or a b
meaning and a b = bit_and a b
meaning mul a b = to_u32 (signed32 a *ℤ signed32 b)
meaning mulh a b = to_u32 (floor_shift (signed32 a *ℤ signed32 b) 32)
meaning mulhsu a b = to_u32 (floor_shift (signed32 a *ℤ pos b) 32)
meaning mulhu a b = to_u32 (floor_shift (pos a *ℤ pos b) 32)
meaning div a b = if b == 0 then 2 ^ 32 - 1 else to_u32 (quotient (signed32 a) (signed32 b))
meaning divu a b = if b == 0 then 2 ^ 32 - 1 else a / b
meaning rem a b = if b == 0 then a else to_u32 (remainder (signed32 a) (signed32 b))
meaning remu a b = if b == 0 then a else a % b

-- The operands that the emulator computes: not INT32_MIN by -1, whose division overflows.
abbrev pub IsDefined : Mnemonic → ℕ → ℕ → Type 0
IsDefined div a b = ¬ Overflows a b
IsDefined rem a b = ¬ Overflows a b
IsDefined _ a b = Unit {0}

abbrev pub funct7_of : Mnemonic → ℕ
funct7_of sub = 0x20
funct7_of sra = 0x20
funct7_of mul = 1
funct7_of mulh = 1
funct7_of mulhsu = 1
funct7_of mulhu = 1
funct7_of div = 1
funct7_of divu = 1
funct7_of rem = 1
funct7_of remu = 1
funct7_of _ = 0

abbrev pub funct3_of : Mnemonic → ℕ
funct3_of add = 0
funct3_of sub = 0
funct3_of sll = 1
funct3_of slt = 2
funct3_of sltu = 3
funct3_of xor = 4
funct3_of srl = 5
funct3_of sra = 5
funct3_of or = 6
funct3_of and = 7
funct3_of mul = 0
funct3_of mulh = 1
funct3_of mulhsu = 2
funct3_of mulhu = 3
funct3_of div = 4
funct3_of divu = 5
funct3_of rem = 6
funct3_of remu = 7
