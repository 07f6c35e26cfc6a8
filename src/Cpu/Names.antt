-- ===== src/Cpu/Names.antt =====
-- emulator/src/cpu.cpp: `get_instruction_name`, which the debug output prints.
pub mod Mnemonics
use riscv_student_pack.Common.{ℕ, List, ◌==◌, if◌then◌else◌, codes}

-- The cases of `funct3` below each opcode.
unfoldable pub name_base : (funct3 : ℕ) → List ℕ
name_base funct3 =
    if funct3 == 0x0
    then codes "add"
    else if funct3 == 0x4
    then codes "xor"
    else if funct3 == 0x6
    then codes "or"
    else if funct3 == 0x7
    then codes "and"
    else if funct3 == 0x1
    then codes "sll"
    else if funct3 == 0x5
    then codes "srl"
    else if funct3 == 0x2
    then codes "slt"
    else if funct3 == 0x3
    then codes "sltu"
    else codes "alu-r"

unfoldable pub name_m : (funct3 : ℕ) → List ℕ
name_m funct3 =
    if funct3 == 0x0
    then codes "mul"
    else if funct3 == 0x1
    then codes "mulh"
    else if funct3 == 0x2
    then codes "mulhsu"
    else if funct3 == 0x3
    then codes "mulhu"
    else if funct3 == 0x4
    then codes "div"
    else if funct3 == 0x5
    then codes "divu"
    else if funct3 == 0x6
    then codes "rem"
    else if funct3 == 0x7
    then codes "remu"
    else codes "alu-r"

unfoldable pub name_imm : (funct3 funct7 : ℕ) → List ℕ
name_imm funct3 funct7 =
    if funct3 == 0x0
    then codes "addi"
    else if funct3 == 0x4
    then codes "xori"
    else if funct3 == 0x6
    then codes "ori"
    else if funct3 == 0x7
    then codes "andi"
    else if funct3 == 0x1
    then codes "slli"
    else if funct3 == 0x5
    then (if funct7 == 0x00 then codes "srli" else codes "srai")
    else if funct3 == 0x2
    then codes "slti"
    else if funct3 == 0x3
    then codes "sltiu"
    else codes "alu-i"

unfoldable pub name_load : (funct3 : ℕ) → List ℕ
name_load funct3 =
    if funct3 == 0x0
    then codes "lb"
    else if funct3 == 0x1
    then codes "lh"
    else if funct3 == 0x2
    then codes "lw"
    else if funct3 == 0x4
    then codes "lbu"
    else if funct3 == 0x5
    then codes "lhu"
    else codes "load"

unfoldable pub name_store : (funct3 : ℕ) → List ℕ
name_store funct3 =
    if funct3 == 0x0
    then codes "sb"
    else if funct3 == 0x1
    then codes "sh"
    else if funct3 == 0x2
    then codes "sw"
    else codes "store"

unfoldable pub name_branch : (funct3 : ℕ) → List ℕ
name_branch funct3 =
    if funct3 == 0x0
    then codes "beq"
    else if funct3 == 0x1
    then codes "bne"
    else if funct3 == 0x4
    then codes "blt"
    else if funct3 == 0x5
    then codes "bge"
    else if funct3 == 0x6
    then codes "bltu"
    else if funct3 == 0x7
    then codes "bgeu"
    else codes "branch"

unfoldable pub name_register : (funct3 funct7 : ℕ) → List ℕ
unfolding name_base name_m
name_register funct3 funct7 =
    if funct7 == 0x00
    then name_base funct3
    else if funct7 == 0x20
    then (if funct3 == 0x0
        then codes "sub"
        else if funct3 == 0x5
        then codes "sra"
        else codes "alu-r")
    else if funct7 == 0x01
    then name_m funct3
    else codes "alu-r"

unfoldable pub get_instruction_name : (opcode funct3 funct7 : ℕ) → List ℕ
unfolding name_register name_imm name_load name_store name_branch
get_instruction_name opcode funct3 funct7 =
    if opcode == 0x33
    then name_register funct3 funct7
    else if opcode == 0x13
    then name_imm funct3 funct7
    else if opcode == 0x03
    then name_load funct3
    else if opcode == 0x23
    then name_store funct3
    else if opcode == 0x63
    then name_branch funct3
    else if opcode == 0x6f
    then codes "jal"
    else if opcode == 0x67
    then codes "jalr"
    else if opcode == 0x37
    then codes "lui"
    else if opcode == 0x17
    then codes "auipc"
    else if opcode == 0x73
    then (if funct3 == 0x0 then codes "ecall" else codes "system")
    else codes "unknown"
