-- ===== src/Assembler/SecondPass/Lines.antt =====
-- assembler/src/second_pass.cpp: `parse_instruction_args` on the lines of expanded
-- pseudoinstructions, which separate operands by a comma and a blank.
use riscv_student_pack.Common.{
  ℕ, ◌<◌, ◌≡◌, refl, ap, ◌∙◌, List, ◌∷◌, ◌++◌, codes, take, length, length-append, arith, lt→ltb,
}
use riscv_student_pack.Assembler.Outcome.{ok}
use riscv_student_pack.Assembler.Chars.{skip_spaces, trim}
use riscv_student_pack.Assembler.Text.{split_at, cut_at}
use riscv_student_pack.Assembler.SecondPass.Arguments.{
  Operands, parse_instruction_args, stored, store_operands,
}
use riscv_student_pack.Assembler.SecondPass.Tokens.{
  IsToken, Lacks, no_commas, split_at-Lacks, split_at-found, cut_at-found, take_all,
  EndsPlain-token, EndsPlain-append, StartsPlain-token, StartsPlain-alone, skip_spaces-StartsPlain,
  trim-plain, trim-blank,
}

pub stored-short : (n : ℕ) (s : List ℕ) → length s < n → stored n s ≡ ok s
stored-short n s h = rw (lt→ltb (length s) n h) refl

-- The mnemonic in front of the operands.
pub parse-op :
    (op args : List ℕ) (old : Operands)
    → Lacks b' ' op
    → length op < 16
    → length args < 490
    → trim args ≡ args
    → parse_instruction_args (op ++ (b' ' ∷ args)) old
      ≡ store_operands (record old { op = op }) args (split_at b',' args)
unfolding parse_instruction_args
parse-op op args old lacks short room clean =
    let whole : take 511 (op ++ (b' ' ∷ args)) ≡ op ++ (b' ' ∷ args) =
      take_all 511 (op ++ (b' ' ∷ args)) (omega (arith, length-append op (b' ' ∷ args))) in
    rw (whole, split_at-found b' ' op args lacks, stored-short 16 op short, clean) refl

module _ (op a b : List ℕ) (old : Operands) (lacks : Lacks b' ' op) (short : length op < 16)
    (ha : IsToken a) (hb : IsToken b) where
  pub parse-two :
      parse_instruction_args (op ++ (b' ' ∷ (a ++ (codes ", " ++ b)))) old
      ≡ ok (record old { op = op; a1 = a; a2 = b })
  parse-two =
      parse-op op (a ++ (codes ", " ++ b)) old lacks short
        (omega (arith, length-append a (codes ", " ++ b), ha.short, hb.short))
        (trim-plain (a ++ (codes ", " ++ b)) (StartsPlain-token a _ ha) (
          EndsPlain-append a (codes ", " ++ b)
            (EndsPlain-append (codes ", ") b (EndsPlain-token b hb.plain hb.filled))))
      ∙ rw
          (
            split_at-found b',' a (b' ' ∷ b) (no_commas a ha.plain),
            stored-short 32 a ha.short,
            split_at-Lacks b',' (b' ' ∷ b) (refl, no_commas b hb.plain),
            trim-blank b (StartsPlain-alone b hb) (EndsPlain-token b hb.plain hb.filled),
            stored-short 32 b hb.short,
          )
          refl

  module _ (c : List ℕ) (hc : IsToken c) where
    pub parse-three :
        parse_instruction_args (op ++ (b' ' ∷ (a ++ (codes ", " ++ (b ++ (codes ", " ++ c)))))) old
        ≡ ok (record old { op = op; a1 = a; a2 = b; a3 = c })
    unfolding skip_spaces
    parse-three =
        parse-op op (a ++ (codes ", " ++ (b ++ (codes ", " ++ c)))) old lacks short
          (omega (
            arith,
            length-append a (codes ", " ++ (b ++ (codes ", " ++ c))),
            length-append b (codes ", " ++ c),
            ha.short,
            hb.short,
            hc.short,
          ))
          (trim-plain (a ++ (codes ", " ++ (b ++ (codes ", " ++ c)))) (StartsPlain-token a _ ha) (
            EndsPlain-append a (codes ", " ++ (b ++ (codes ", " ++ c))) (
              EndsPlain-append (codes ", ") (b ++ (codes ", " ++ c)) (
                EndsPlain-append b (codes ", " ++ c)
                  (EndsPlain-append (codes ", ") c (EndsPlain-token c hc.plain hc.filled))))))
        ∙ rw
            (
              split_at-found b',' a (b' ' ∷ (b ++ (codes ", " ++ c))) (no_commas a ha.plain),
              stored-short 32 a ha.short,
              split_at-found b',' (b' ' ∷ b) (b' ' ∷ c) (refl, no_commas b hb.plain),
              third,
              stored-short 32 b hb.short,
              trim-blank c (StartsPlain-alone c hc) (EndsPlain-token c hc.plain hc.filled),
              stored-short 32 c hc.short,
            )
            refl
      where
        third : cut_at b',' (skip_spaces (b' ' ∷ (b ++ (codes ", " ++ c)))) ≡ b
        third =
            ap (cut_at b',')
              (skip_spaces-StartsPlain (b ++ (codes ", " ++ c)) (StartsPlain-token b _ hb))
            ∙ cut_at-found b',' b (b' ' ∷ c) (no_commas b hb.plain)
