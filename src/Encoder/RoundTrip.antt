-- ===== src/Encoder/RoundTrip.antt =====
-- assembler/src/encode.cpp: the encoder against the emulator's decoder.
use riscv_student_pack.Common.{
  ℕ, ◌+◌, ◌*◌, ◌%◌, ◌^◌, ◌<◌, ◌≡◌, refl, ◌∙◌, ap, ◌⊎◌, some, slice, sext, FitsSigned, IsU32, arith,
}
use riscv_student_pack.Instruction.{
  InstrFormat, decode, decoded, instr_r_type, instr_i_type, instr_s_type, instr_b_type,
  instr_u_type, instr_j_type,
}
use riscv_student_pack.Instruction.Fields.{
  table_format, table_decode, decode-table_decode, imm_i, imm_u, offset_b, offset_j,
}
use riscv_student_pack.Encoder.{encode_r, encode_i, encode_s, encode_b, encode_u, encode_j}
use riscv_student_pack.Encoder.Sums.{
  encode_r-eq-sum, encode_i-eq-sum, encode_s-eq-sum, encode_u-eq-sum,
}
use riscv_student_pack.Encoder.Jumps.{encode_b-eq-sum, encode_j-eq-sum}

abbrev pub IsIOpcode : ℕ → Type 0
IsIOpcode opcode = (opcode ≡ 0x03) ⊎ ((opcode ≡ 0x13) ⊎ ((opcode ≡ 0x67) ⊎ (opcode ≡ 0x73)))

-- The slices of `w` outside its immediate.
record HasFields (w opcode rd funct3 rs1 rs2 funct7 : ℕ) : Type 0 where
  opcode_field : w % 2 ^ 7 ≡ opcode
  rd_field : slice w 7 5 ≡ rd
  funct3_field : slice w 12 3 ≡ funct3
  rs1_field : slice w 15 5 ≡ rs1
  rs2_field : slice w 20 5 ≡ rs2
  funct7_field : slice w 25 7 ≡ funct7

decode-HasFields :
    {w opcode rd funct3 rs1 rs2 funct7 imm : ℕ} {format : InstrFormat}
    → IsU32 w
    → HasFields w opcode rd funct3 rs1 rs2 funct7
    → table_format opcode w ≡ some (format, imm)
    → decode w ≡ decoded w opcode rd funct3 rs1 rs2 funct7 (some (format, imm))
unfolding table_decode
decode-HasFields {w} small f t =
    decode-table_decode w small
    ∙ rw (f.opcode_field, f.rd_field, f.funct3_field, f.rs1_field, f.rs2_field, f.funct7_field, t)

sext-FitsSigned_12 : (imm : ℕ) → FitsSigned 12 imm → sext 12 (imm % 2 ^ 12) ≡ imm
sext-FitsSigned_12 imm h = ground arith

sext-FitsSigned_13 : (imm : ℕ) → FitsSigned 13 imm → sext 13 (imm % 2 ^ 13) ≡ imm
sext-FitsSigned_13 imm h = ground arith

sext-FitsSigned_21 : (imm : ℕ) → FitsSigned 21 imm → sext 21 (imm % 2 ^ 21) ≡ imm
sext-FitsSigned_21 imm h = ground arith

table_format-i :
    (opcode w imm : ℕ)
    → IsIOpcode opcode
    → imm_i w ≡ imm
    → table_format opcode w ≡ some (instr_i_type, imm)
unfolding table_format
table_format-i opcode w imm ho e = ground arith

table_format-u :
    (opcode w imm : ℕ)
    → (opcode ≡ 0x37) ⊎ (opcode ≡ 0x17)
    → imm_u w ≡ imm
    → table_format opcode w ≡ some (instr_u_type, imm)
unfolding table_format
table_format-u opcode w imm ho e = ground arith

-- The emulator decodes what `encode_r` makes of three registers and function codes in range to the
-- same operands.
pub decode-encode_r :
    (funct7 rs2 rs1 funct3 rd : ℕ)
    → funct7 < 128
    → rs2 < 32
    → rs1 < 32
    → funct3 < 8
    → rd < 32
    → decode (encode_r funct7 rs2 rs1 funct3 rd 0x33)
      ≡ some (record {
        format = instr_r_type;
        raw = encode_r funct7 rs2 rs1 funct3 rd 0x33;
        imm = 0;
        opcode = 0x33;
        rd = rd;
        rs1 = rs1;
        rs2 = rs2;
        funct3 = funct3;
        funct7 = funct7;
      })
unfolding table_format
decode-encode_r funct7 rs2 rs1 funct3 rd h7 h2 h1 h3 hd =
    let e = encode_r-eq-sum rs1 funct3 0x33 h1 h3 (omega arith) funct7 rs2 rd h7 h2 hd in
    decode-HasFields (omega (arith, e)) (omega (arith, e)) refl

-- The emulator decodes what `encode_i` makes of an immediate that fits 12 bits, two registers, a
-- `funct3` and an I-type opcode to the same operands.
pub decode-encode_i :
    (imm rs1 funct3 rd opcode : ℕ)
    → FitsSigned 12 imm
    → rs1 < 32
    → funct3 < 8
    → rd < 32
    → IsIOpcode opcode
    → decode (encode_i imm rs1 funct3 rd opcode)
      ≡ some (record {
        format = instr_i_type;
        raw = encode_i imm rs1 funct3 rd opcode;
        imm = imm;
        opcode = opcode;
        rd = rd;
        rs1 = rs1;
        rs2 = imm % 2 ^ 5;
        funct3 = funct3;
        funct7 = slice imm 5 7;
      })
unfolding table_format
decode-encode_i imm rs1 funct3 rd opcode hi h1 h3 hd ho =
    let e = encode_i-eq-sum rs1 funct3 opcode h1 h3 (omega arith) imm rd hd in
    let i : slice (encode_i imm rs1 funct3 rd opcode) 20 12 ≡ imm % 2 ^ 12 = omega (arith, e) in
    decode-HasFields (omega (arith, e)) (omega (arith, e))
      (table_format-i opcode _ imm ho (ap (sext 12) i ∙ sext-FitsSigned_12 imm hi))

-- The emulator decodes what `encode_s` makes of an immediate that fits 12 bits, two registers and
-- a `funct3` to the same operands.
pub decode-encode_s :
    (imm rs2 rs1 funct3 : ℕ)
    → FitsSigned 12 imm
    → rs2 < 32
    → rs1 < 32
    → funct3 < 8
    → decode (encode_s imm rs2 rs1 funct3 0x23)
      ≡ some (record {
        format = instr_s_type;
        raw = encode_s imm rs2 rs1 funct3 0x23;
        imm = imm;
        opcode = 0x23;
        rd = imm % 2 ^ 5;
        rs1 = rs1;
        rs2 = rs2;
        funct3 = funct3;
        funct7 = slice imm 5 7;
      })
unfolding table_format
decode-encode_s imm rs2 rs1 funct3 hi h2 h1 h3 =
    let e = encode_s-eq-sum rs1 funct3 0x23 h1 h3 (omega arith) imm rs2 h2 in
    let i : slice (encode_s imm rs2 rs1 funct3 0x23) 25 7 * 2 ^ 5
          + slice (encode_s imm rs2 rs1 funct3 0x23) 7 5
        ≡ imm % 2 ^ 12 =
      omega (arith, e) in
    decode-HasFields (omega (arith, e)) (omega (arith, e))
      (ap (λ v. some (instr_s_type, v)) (ap (sext 12) i ∙ sext-FitsSigned_12 imm hi))

-- The emulator decodes what `encode_b` makes of an even offset that fits 13 bits, two registers
-- and a `funct3` to the same operands.
pub decode-encode_b :
    (imm rs2 rs1 funct3 : ℕ)
    → FitsSigned 13 imm
    → imm % 2 ≡ 0
    → rs2 < 32
    → rs1 < 32
    → funct3 < 8
    → decode (encode_b imm rs2 rs1 funct3 0x63)
      ≡ some (record {
        format = instr_b_type;
        raw = encode_b imm rs2 rs1 funct3 0x63;
        imm = imm;
        opcode = 0x63;
        rd = slice imm 1 4 * 2 + slice imm 11 1;
        rs1 = rs1;
        rs2 = rs2;
        funct3 = funct3;
        funct7 = slice imm 12 1 * 2 ^ 6 + slice imm 5 6;
      })
unfolding table_format
decode-encode_b imm rs2 rs1 funct3 hi even h2 h1 h3 =
    let e = encode_b-eq-sum imm rs2 rs1 funct3 0x63 (omega arith) h2 h1 h3 (omega arith) in
    let i : offset_b (encode_b imm rs2 rs1 funct3 0x63) ≡ imm % 2 ^ 13 = omega (arith, e) in
    decode-HasFields (omega (arith, e)) (omega (arith, e))
      (ap (λ v. some (instr_b_type, v)) (ap (sext 13) i ∙ sext-FitsSigned_13 imm hi))

-- The emulator decodes what `encode_u` makes of a 32-bit immediate with its low 12 bits clear, a
-- register and the opcode of `lui` or `auipc` to the same operands.
pub decode-encode_u :
    (imm rd opcode : ℕ)
    → IsU32 imm
    → imm % 2 ^ 12 ≡ 0
    → rd < 32
    → (opcode ≡ 0x37) ⊎ (opcode ≡ 0x17)
    → decode (encode_u imm rd opcode)
      ≡ some (record {
        format = instr_u_type;
        raw = encode_u imm rd opcode;
        imm = imm;
        opcode = opcode;
        rd = rd;
        rs1 = slice imm 15 5;
        rs2 = slice imm 20 5;
        funct3 = slice imm 12 3;
        funct7 = slice imm 25 7;
      })
unfolding table_format
decode-encode_u imm rd opcode hi round hd ho =
    let e = encode_u-eq-sum imm rd opcode hd (omega arith) in
    decode-HasFields (omega (arith, e)) (omega (arith, e))
      (table_format-u opcode _ imm ho (omega (arith, e)))

-- The emulator decodes what `encode_j` makes of an even offset that fits 21 bits and a register to
-- the same operands.
pub decode-encode_j :
    (imm rd : ℕ)
    → FitsSigned 21 imm
    → imm % 2 ≡ 0
    → rd < 32
    → decode (encode_j imm rd 0x6f)
      ≡ some (record {
        format = instr_j_type;
        raw = encode_j imm rd 0x6f;
        imm = imm;
        opcode = 0x6f;
        rd = rd;
        rs1 = slice imm 15 5;
        rs2 = slice imm 1 4 * 2 + slice imm 11 1;
        funct3 = slice imm 12 3;
        funct7 = slice imm 20 1 * 2 ^ 6 + slice imm 5 6;
      })
unfolding table_format
decode-encode_j imm rd hi even hd =
    let e = encode_j-eq-sum imm rd 0x6f (omega arith) hd (omega arith) in
    let i : offset_j (encode_j imm rd 0x6f) ≡ imm % 2 ^ 21 = omega (arith, e) in
    decode-HasFields (omega (arith, e)) (omega (arith, e))
      (ap (λ v. some (instr_j_type, v)) (ap (sext 21) i ∙ sext-FitsSigned_21 imm hi))
