-- ===== src/Tests/Codes.antt =====
-- The encoder and the decoder at concrete operands (assembler/src/encode.cpp and
-- emulator/src/instructions.cpp).
use riscv_student_pack.Common.{◌≡◌, refl, ◌-◌, inl, inr, some, ◌^◌, arith}
use riscv_student_pack.Instruction.{
  Instruction, decode, instr_r_type, instr_i_type, instr_s_type, instr_b_type, instr_j_type,
}
use riscv_student_pack.Instruction.Fields.{table_decode, decode-table_decode}
use riscv_student_pack.Encoder.{encode_i, encode_s, encode_b, encode_j}
use riscv_student_pack.Encoder.RoundTrip.{
  decode-encode_i, decode-encode_s, decode-encode_b, decode-encode_j,
}

-- `addi x10, x11, -4`
decode-encode_i_example :
    decode (encode_i (2 ^ 32 - 4) 11 0 10 0x13)
    ≡ some (record {
      format = instr_i_type;
      raw = encode_i (2 ^ 32 - 4) 11 0 10 0x13;
      imm = 2 ^ 32 - 4;
      opcode = 0x13;
      rd = 10;
      rs1 = 11;
      rs2 = 28;
      funct3 = 0;
      funct7 = 127;
    })
decode-encode_i_example =
    decode-encode_i (2 ^ 32 - 4) 11 0 10 0x13 (inr (omega arith, omega arith)) (omega arith)
      (omega arith) (omega arith) (inr (inl refl))

-- `sw x12, -8(x11)`
decode-encode_s_example :
    decode (encode_s (2 ^ 32 - 8) 12 11 2 0x23)
    ≡ some (record {
      format = instr_s_type;
      raw = encode_s (2 ^ 32 - 8) 12 11 2 0x23;
      imm = 2 ^ 32 - 8;
      opcode = 0x23;
      rd = 24;
      rs1 = 11;
      rs2 = 12;
      funct3 = 2;
      funct7 = 127;
    })
decode-encode_s_example =
    decode-encode_s (2 ^ 32 - 8) 12 11 2 (inr (omega arith, omega arith)) (omega arith)
      (omega arith) (omega arith)

-- `blt x10, x11, .+8`
decode-encode_b_example :
    decode (encode_b 8 11 10 4 0x63)
    ≡ some (record {
      format = instr_b_type;
      raw = encode_b 8 11 10 4 0x63;
      imm = 8;
      opcode = 0x63;
      rd = 8;
      rs1 = 10;
      rs2 = 11;
      funct3 = 4;
      funct7 = 0;
    })
decode-encode_b_example =
    decode-encode_b 8 11 10 4 (inl (omega arith)) refl (omega arith) (omega arith) (omega arith)

-- `jal x1, .-16`
decode-encode_j_example :
    decode (encode_j (2 ^ 32 - 16) 1 0x6f)
    ≡ some (record {
      format = instr_j_type;
      raw = encode_j (2 ^ 32 - 16) 1 0x6f;
      imm = 2 ^ 32 - 16;
      opcode = 0x6f;
      rd = 1;
      rs1 = 31;
      rs2 = 17;
      funct3 = 7;
      funct7 = 127;
    })
decode-encode_j_example =
    decode-encode_j (2 ^ 32 - 16) 1 (inr (omega arith, omega arith)) refl (omega arith)

decode-table_decode_example : decode 0x40c58533 ≡ table_decode 0x40c58533
decode-table_decode_example = decode-table_decode 0x40c58533 (omega arith)

abbrev sub_instruction : Instruction
sub_instruction = record {
  format = instr_r_type;
  raw = 0x40c58533;
  imm = 0;
  opcode = 0x33;
  rd = 10;
  rs1 = 11;
  rs2 = 12;
  funct3 = 0;
  funct7 = 0x20;
}
