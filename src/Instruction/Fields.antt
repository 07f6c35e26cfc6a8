-- ===== src/Instruction/Fields.antt =====
-- instructions.cpp: the decoder against the table of formats in plain arithmetic.
use riscv_student_pack.Common.{
  ℕ, ◌+◌, ◌-◌, ◌*◌, ◌/◌, ◌%◌, ◌^◌, ◌≤◌, ◌<◌, ◌≡◌, ◌∙◌, ap, ◌==◌, ◌||◌, Option, none, some, bit_and,
  bit_or, ltb, if◌then◌else◌, shl32, shr, slice, sext, IsU32, arith, sym, Bool-cases, inl, inr, suc,
}
use native.Mathlib.Nat.{pow-suc, pow-le-pow_right}
use riscv_student_pack.Common.Bits.{
  bit_and_mask, bit_and_field, bit_or_add, bit_xor_gain, bit_xor_lose,
}
use riscv_student_pack.Instruction.{
  InstrFormat, instr_r_type, instr_i_type, instr_s_type, instr_b_type, instr_u_type, instr_j_type,
  Instruction, sign_extend, extract_b_imm, extract_j_imm, extract_s_imm, decode_format, decode,
  decoded,
}

-- The bit trick of `sign_extend`, on a value that fits the width.
pub sign_extend-sext :
    (bits v : ℕ) → bits < 31 → v < 2 ^ suc bits → sign_extend v (suc bits) ≡ sext (suc bits) v
unfolding sign_extend
sign_extend-sext bits v h hv =
    let small : 2 ^ bits ≤ 2 ^ 30 =
      pow-le-pow_right {n = 2} (omega arith) {i = bits} {j = 30} (omega arith) in
    let top : suc bits - 1 ≡ bits = omega arith in
    let two : 2 ^ suc bits ≡ 2 ^ bits * 2 = pow-suc 2 bits in
    rw (top, two)
      (elim (Bool-cases (ltb v (2 ^ bits))) [
        | inl low ↦ ground (arith, bit_xor_gain bits v)
        | inr high ↦ ground (arith, bit_xor_lose bits (v - 2 ^ bits))
      ])

-- The immediates of the formats, from the slices of the word.
abbrev pub imm_i : ℕ → ℕ
imm_i w = sext 12 (slice w 20 12)

abbrev pub imm_s : ℕ → ℕ
imm_s w = sext 12 (slice w 25 7 * 2 ^ 5 + slice w 7 5)

abbrev pub offset_b : ℕ → ℕ
offset_b w = slice w 31 1 * 2 ^ 12 + slice w 7 1 * 2 ^ 11 + slice w 25 6 * 2 ^ 5 + slice w 8 4 * 2

abbrev pub imm_b : ℕ → ℕ
imm_b w = sext 13 (offset_b w)

abbrev pub imm_u : ℕ → ℕ
imm_u w = slice w 12 20 * 2 ^ 12

abbrev pub offset_j : ℕ → ℕ
offset_j w =
    slice w 31 1 * 2 ^ 20 + slice w 12 8 * 2 ^ 12 + slice w 20 1 * 2 ^ 11 + slice w 21 10 * 2

abbrev pub imm_j : ℕ → ℕ
imm_j w = sext 21 (offset_j w)

-- Three further fields joined below a first one by `|`, each below the place of the one before.
join_fields :
    (a b c d i j k : ℕ)
    → a % 2 ^ i ≡ 0
    → b < 2 ^ i
    → (a + b) % 2 ^ j ≡ 0
    → c < 2 ^ j
    → (a + b + c) % 2 ^ k ≡ 0
    → d < 2 ^ k
    → bit_or (bit_or (bit_or a b) c) d ≡ a + b + c + d
join_fields a b c d i j k ha hb hab hc habc hd =
    rw (bit_or_add i a b ha hb, bit_or_add j (a + b) c hab hc) (bit_or_add k (a + b + c) d habc hd)

extract_s_imm-imm_s : (w : ℕ) → extract_s_imm w ≡ imm_s w
unfolding extract_s_imm
extract_s_imm-imm_s w =
    ap (λ v. sign_extend v 12) joined
    ∙ sign_extend-sext 11 (slice w 25 7 * 2 ^ 5 + slice w 7 5) (omega arith) (omega arith)
  where
    joined :
        bit_or (shl32 (bit_and (shr w 25) 0x7f) 5) (bit_and (shr w 7) 0x1f)
        ≡ slice w 25 7 * 2 ^ 5 + slice w 7 5
    joined =
        rw (bit_and_mask 7 (shr w 25), bit_and_mask 5 (shr w 7))
          (bit_or_add 5 (shl32 (slice w 25 7) 5) (slice w 7 5) (omega arith) (omega arith)
            ∙ omega arith)

extract_b_imm-imm_b : (w : ℕ) → extract_b_imm w ≡ imm_b w
unfolding extract_b_imm
extract_b_imm-imm_b w =
    rw
      (
        bit_and_mask 1 (shr w 31),
        bit_and_mask 1 (shr w 7),
        bit_and_mask 6 (shr w 25),
        bit_and_mask 4 (shr w 8),
        join_fields (shl32 (slice w 31 1) 12) (shl32 (slice w 7 1) 11) (shl32 (slice w 25 6) 5)
            (shl32 (slice w 8 4) 1) 12 11 5 (omega arith) (omega arith) (omega arith) (omega arith)
            (omega arith) (omega arith),
      )
      (ap (λ t. sign_extend t 13) sum
        ∙ sign_extend-sext 12 (offset_b w) (omega arith) (omega arith))
  where
    sum :
        shl32 (slice w 31 1) 12
          + shl32 (slice w 7 1) 11
          + shl32 (slice w 25 6) 5
          + shl32 (slice w 8 4) 1
        ≡ offset_b w
    sum = omega arith

extract_j_imm-imm_j : (w : ℕ) → extract_j_imm w ≡ imm_j w
unfolding extract_j_imm
extract_j_imm-imm_j w =
    rw
      (
        bit_and_mask 1 (shr w 31),
        bit_and_mask 8 (shr w 12),
        bit_and_mask 1 (shr w 20),
        bit_and_mask 10 (shr w 21),
        join_fields (shl32 (slice w 31 1) 20) (shl32 (slice w 12 8) 12) (shl32 (slice w 20 1) 11)
            (shl32 (slice w 21 10) 1) 20 12 11 (omega arith) (omega arith) (omega arith)
            (omega arith) (omega arith) (omega arith),
      )
      (ap (λ t. sign_extend t 21) sum
        ∙ sign_extend-sext 20 (offset_j w) (omega arith) (omega arith))
  where
    sum :
        shl32 (slice w 31 1) 20
          + shl32 (slice w 12 8) 12
          + shl32 (slice w 20 1) 11
          + shl32 (slice w 21 10) 1
        ≡ offset_j w
    sum = omega arith

upper_mask : (w : ℕ) → IsU32 w → bit_and w 0xfffff000 ≡ imm_u w
upper_mask w h = bit_and_field 12 w 0xfffff ∙ rw (bit_and_mask 20 (w / 2 ^ 12))

-- The table of the RV32I base formats: which opcode has which format and immediate.
unfoldable pub table_format : ℕ → ℕ → Option (InstrFormat × ℕ)
table_format opcode w =
    if opcode == 0x33
    then some (instr_r_type, 0)
    else if opcode == 0x03 || (opcode == 0x13 || (opcode == 0x67 || opcode == 0x73))
    then some (instr_i_type, imm_i w)
    else if opcode == 0x23
    then some (instr_s_type, imm_s w)
    else if opcode == 0x63
    then some (instr_b_type, imm_b w)
    else if opcode == 0x37 || opcode == 0x17
    then some (instr_u_type, imm_u w)
    else if opcode == 0x6f
    then some (instr_j_type, imm_j w)
    else none

decode_format-table_format : (op w : ℕ) → IsU32 w → decode_format op w ≡ table_format op w
unfolding decode_format table_format
decode_format-table_format op w h = rw (
  bit_and_mask 12 (shr w 20),
  sign_extend-sext 11 (slice w 20 12) (omega arith) (omega arith),
  extract_s_imm-imm_s w,
  extract_b_imm-imm_b w,
  extract_j_imm-imm_j w,
  upper_mask w h,
)

unfoldable pub table_decode : ℕ → Option Instruction
table_decode w =
    decoded w (w % 2 ^ 7) (slice w 7 5) (slice w 12 3) (slice w 15 5) (slice w 20 5) (slice w 25 7)
      (table_format (w % 2 ^ 7) w)

-- `Instruction::decode` agrees on every 32-bit word with the table of RV32I formats, in which
-- fields are slices of the word and immediates are sign extensions of sums of slices; words with
-- another opcode are refused by both.
pub decode-table_decode : (w : ℕ) → IsU32 w → decode w ≡ table_decode w
unfolding decode table_decode
decode-table_decode w h = rw (
  bit_and_mask 7 w,
  bit_and_mask 5 (shr w 7),
  bit_and_mask 3 (shr w 12),
  bit_and_mask 5 (shr w 15),
  bit_and_mask 5 (shr w 20),
  bit_and_mask 7 (shr w 25),
  decode_format-table_format (w % 2 ^ 7) w h,
)

-- Every register number of a decoded instruction is below 32.
pub record RegistersFit (d : Instruction) : Type 0 where
  pub rd_fits : d.rd < 32
  pub rs1_fits : d.rs1 < 32
  pub rs2_fits : d.rs2 < 32
  pub imm_fits : IsU32 d.imm

-- Whatever `Instruction::decode` accepts has register numbers below 32 and an immediate of 32
-- bits.
pub decode-RegistersFit : (w : ℕ) (d : Instruction) → IsU32 w → decode w ≡ some d → RegistersFit d
unfolding table_decode table_format
decode-RegistersFit w d h e =
    let t : table_decode w ≡ some d = sym (decode-table_decode w h) ∙ e in ground arith
