-- ===== src/Assembler/SecondPass/Expansion.antt =====
-- assembler/src/second_pass.cpp: the words that the expanded lines of
-- assembler/src/expand_pseudoinstruction.cpp are assembled to.
use mathlib.Core.List.{append-nil}
use riscv_student_pack.Common.{
  ℕ, zero, suc, ◌+◌, ◌-◌, ◌/◌, ◌%◌, ◌^◌, ◌≤◌, ◌<◌, ◌≡◌, refl, sym, ap, ◌∙◌, false, List, [], ◌∷◌,
  ◌++◌, Option, some, ltb, codes, length, All, IsU32, shl32, arith, Bool-cases, inl, inr, ltb→lt,
}
use riscv_student_pack.Assembler.Outcome.{Outcome, ok, or_exit, ◌>>=◌}
use riscv_student_pack.Assembler.Chars.{is_empty}
use riscv_student_pack.Assembler.Text.{trim_in_place}
use riscv_student_pack.Assembler.Registers.{reg_num}
use riscv_student_pack.Assembler.Immediates.{Label, parse_imm}
use riscv_student_pack.Assembler.Instructions.{encode_instruction, find_form, encode_form}
use riscv_student_pack.Encoder.{encode_i, encode_u}
use riscv_student_pack.Assembler.Pseudo.{digits_before, print_int, lo12}
use riscv_student_pack.Assembler.Pseudo.Decimals.{parse_imm-print_int}
use riscv_student_pack.Assembler.SecondPass.{Tables, assemble_expanded}
use riscv_student_pack.Assembler.SecondPass.Output.{Writer, emit_word}
use riscv_student_pack.Assembler.SecondPass.Tokens.{
  IsToken, IsPlain, Lacks, Lacks-append, no_hashes, cut_at-Lacks, trim_in_place-plain,
  StartsPlain-alone, EndsPlain-token,
}
use riscv_student_pack.Assembler.SecondPass.Lines.{parse-two, parse-three}

digit-IsPlain : (d : ℕ) → d < 10 → IsPlain (b'0' + d)
digit-IsPlain d h = record {
  no_space = ground arith;
  no_blank = ground arith;
  no_comma = ground arith;
  no_hash = ground arith;
}

digits_before-IsPlain :
    (more n : ℕ) (s : List ℕ) → All IsPlain s → All IsPlain (digits_before more n s)
unfolding digits_before
digits_before-IsPlain zero n s h = h
digits_before-IsPlain (suc more) n s h = elim (Bool-cases (ltb n 10)) [
  | inl e ↦ rw e (digit-IsPlain n (ltb→lt n 10 e), h)
  | inr e ↦ rw e (
      digits_before-IsPlain more (n / 10) ((b'0' + n % 10) ∷ s)
        (digit-IsPlain (n % 10) (omega arith), h))
]

pub length-digits_before_le :
    (more n : ℕ) (s : List ℕ) → length (digits_before more n s) ≤ more + length s
unfolding digits_before
length-digits_before_le zero n s = omega arith
length-digits_before_le (suc more) n s = elim (Bool-cases (ltb n 10)) [
  | inl e ↦ rw e (omega arith)
  | inr e ↦ rw e (omega (arith, length-digits_before_le more (n / 10) ((b'0' + n % 10) ∷ s)))
]

digits_before-filled :
    (more n : ℕ) (s : List ℕ) → is_empty s ≡ false → is_empty (digits_before more n s) ≡ false
unfolding digits_before
digits_before-filled zero n s h = h
digits_before-filled (suc more) n s h = elim (Bool-cases (ltb n 10)) [
  | inl e ↦ rw e refl
  | inr e ↦ rw e (digits_before-filled more (n / 10) ((b'0' + n % 10) ∷ s) refl)
]

ten_digits-filled : (n : ℕ) → is_empty (digits_before 10 n []) ≡ false
unfolding digits_before
ten_digits-filled n = elim (Bool-cases (ltb n 10)) [
  | inl e ↦ rw e refl
  | inr e ↦ rw e (digits_before-filled 9 (n / 10) ((b'0' + n % 10) ∷ []) refl)
]

minus-IsPlain : IsPlain b'-'
minus-IsPlain = record { no_space = refl; no_blank = refl; no_comma = refl; no_hash = refl }

pub print_int-IsToken : (v : ℕ) → IsToken (print_int v)
unfolding print_int
print_int-IsToken v = elim (Bool-cases (ltb v (2 ^ 31))) [
  | inl e ↦ rw e (record {
    plain = digits_before-IsPlain 10 v [] tt;
    filled = ten_digits-filled v;
    short = omega (arith, length-digits_before_le 10 v []);
  })
  | inr e ↦ rw e (record {
    plain = (minus-IsPlain, digits_before-IsPlain 10 (2 ^ 32 - v) [] tt);
    filled = refl;
    short = omega (arith, length-digits_before_le 10 (2 ^ 32 - v) []);
  })
]

pub parse_printed :
    (labels : List Label) (v : ℕ) → IsU32 v → parse_imm labels (print_int v) ≡ some v
parse_printed labels v h =
    ap (parse_imm labels) (sym (append-nil (print_int v))) ∙ parse_imm-print_int labels v [] h tt

token_kept : (s : List ℕ) → IsToken s → trim_in_place s ≡ s
token_kept s h = trim_in_place-plain s (StartsPlain-alone s h) (EndsPlain-token s h.plain h.filled)

-- The end of `assemble_expanded` behind the operands.
abbrev pub emit_encoded : Writer → Option ℕ → Outcome Writer
emit_encoded w o = or_exit o >>= (λ word. ok (emit_word word w))

module _ (t : Tables) (w : Writer) (op a b : List ℕ) (lacks : Lacks b' ' op)
    (hashless : Lacks b'#' op) (short : length op < 16) (ha : IsToken a) (hb : IsToken b) where
  pub assemble-two :
      assemble_expanded t (op ++ (b' ' ∷ (a ++ (codes ", " ++ b)))) w
      ≡ emit_encoded w (encode_instruction t.labels w.pc op a b (trim_in_place t.stale.a3))
  unfolding assemble_expanded
  assemble-two =
      rw
        (
          cut_at-Lacks b'#' (op ++ (b' ' ∷ (a ++ (codes ", " ++ b)))) clean,
          parse-two op a b t.stale lacks short ha hb,
          token_kept a ha,
          token_kept b hb,
        )
        refl
    where
      clean : Lacks b'#' (op ++ (b' ' ∷ (a ++ (codes ", " ++ b))))
      clean = Lacks-append b'#' op (b' ' ∷ (a ++ (codes ", " ++ b))) hashless (
        refl,
        Lacks-append b'#' a (codes ", " ++ b) (no_hashes a ha.plain)
            (refl, (refl, no_hashes b hb.plain)),
      )

  module _ (c : List ℕ) (hc : IsToken c) where
    pub assemble-three :
        assemble_expanded t (op ++ (b' ' ∷ (a ++ (codes ", " ++ (b ++ (codes ", " ++ c)))))) w
        ≡ emit_encoded w (encode_instruction t.labels w.pc op a b c)
    unfolding assemble_expanded
    assemble-three =
        rw
          (
            cut_at-Lacks b'#' (op ++ (b' ' ∷ (a ++ (codes ", " ++ (b ++ (codes ", " ++ c))))))
                clean,
            parse-three op a b t.stale lacks short ha hb c hc,
            token_kept a ha,
            token_kept b hb,
            token_kept c hc,
          )
          refl
      where
        clean : Lacks b'#' (op ++ (b' ' ∷ (a ++ (codes ", " ++ (b ++ (codes ", " ++ c))))))
        clean =
            Lacks-append b'#' op (b' ' ∷ (a ++ (codes ", " ++ (b ++ (codes ", " ++ c))))) hashless (
              refl,
              Lacks-append b'#' a (codes ", " ++ (b ++ (codes ", " ++ c))) (no_hashes a ha.plain) (
                refl,
                (
                  refl,
                  Lacks-append b'#' b (codes ", " ++ c) (no_hashes b hb.plain)
                      (refl, (refl, no_hashes c hc.plain)),
                ),
              ),
            )

module _ (labels : List Label) (pc v : ℕ) (a b p : List ℕ)
    (reads : parse_imm labels p ≡ some v) where
  encode-lui :
      encode_instruction labels pc (codes "lui") a p b
      ≡ some (encode_u (shl32 v 12) (reg_num a) 0x37)
  unfolding encode_instruction find_form encode_form
  encode-lui = rw reads refl

  encode-auipc :
      encode_instruction labels pc (codes "auipc") a p b
      ≡ some (encode_u (shl32 v 12) (reg_num a) 0x17)
  unfolding encode_instruction find_form encode_form
  encode-auipc = rw reads refl

  pub encode-addi :
      encode_instruction labels pc (codes "addi") a b p
      ≡ some (encode_i v (reg_num b) 0x0 (reg_num a) 0x13)
  unfolding encode_instruction find_form encode_form
  encode-addi = rw reads refl

-- The upper and the lower word, at a writer.
abbrev pub two_words : (opcode rd v hi : ℕ) → Writer → Writer
two_words opcode rd v hi w =
    emit_word (encode_i (lo12 v hi) rd 0x0 rd 0x13) (emit_word (encode_u (shl32 hi 12) rd opcode) w)

module _ (t : Tables) (w : Writer) (a : List ℕ) (v hi : ℕ) (ha : IsToken a) (fits : IsU32 hi) where
  pub lower :
      assemble_expanded t
        (codes "addi " ++ (a ++ (codes ", " ++ (a ++ (codes ", " ++ print_int (lo12 v hi))))))
        w
      ≡ ok (emit_word (encode_i (lo12 v hi) (reg_num a) 0x0 (reg_num a) 0x13) w)
  lower =
      assemble-three t w (codes "addi") a a (refl, (refl, (refl, (refl, tt))))
        (refl, (refl, (refl, (refl, tt)))) (omega arith) ha ha (print_int (lo12 v hi))
        (print_int-IsToken (lo12 v hi))
      ∙ ap (emit_encoded w) (
          encode-addi t.labels w.pc (lo12 v hi) a a (print_int (lo12 v hi))
            (parse_printed t.labels (lo12 v hi) (omega arith)))

  pub upper_lui :
      assemble_expanded t (codes "lui" ++ (codes " " ++ (a ++ (codes ", " ++ print_int hi)))) w
      ≡ ok (emit_word (encode_u (shl32 hi 12) (reg_num a) 0x37) w)
  upper_lui =
      assemble-two t w (codes "lui") a (print_int hi) (refl, (refl, (refl, tt)))
        (refl, (refl, (refl, tt))) (omega arith) ha (print_int-IsToken hi)
      ∙ ap (emit_encoded w) (
          encode-lui t.labels w.pc hi a (trim_in_place t.stale.a3) (print_int hi)
            (parse_printed t.labels hi fits))

  pub upper_auipc :
      assemble_expanded t (codes "auipc" ++ (codes " " ++ (a ++ (codes ", " ++ print_int hi)))) w
      ≡ ok (emit_word (encode_u (shl32 hi 12) (reg_num a) 0x17) w)
  upper_auipc =
      assemble-two t w (codes "auipc") a (print_int hi) (refl, (refl, (refl, (refl, (refl, tt)))))
        (refl, (refl, (refl, (refl, (refl, tt))))) (omega arith) ha (print_int-IsToken hi)
      ∙ ap (emit_encoded w) (
          encode-auipc t.labels w.pc hi a (trim_in_place t.stale.a3) (print_int hi)
            (parse_printed t.labels hi fits))
