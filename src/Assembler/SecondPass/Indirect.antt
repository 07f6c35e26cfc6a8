-- ===== src/Assembler/SecondPass/Indirect.antt =====
-- assembler/src/second_pass.cpp: operands of the form `offset(register)`, which
-- `process_instruction_second_pass` turns into two.
use riscv_student_pack.Common.{
  ℕ, ◌<◌, ◌≡◌, refl, sym, ap, ◌∙◌, false, List, [], ◌∷◌, ◌++◌, some, codes, length, length-append,
  All, arith,
}
use mathlib.Core.List.{append_assoc, append-nil}
use riscv_student_pack.Assembler.Outcome.{ok}
use riscv_student_pack.Assembler.Chars.{is_empty, skip_spaces}
use riscv_student_pack.Assembler.Text.{split_at, cut_at}
use riscv_student_pack.Assembler.Pseudo.{is_pseudoinstruction}
use riscv_student_pack.Assembler.Instructions.{encode_instruction}
use riscv_student_pack.Assembler.SecondPass.{
  Tables, assemble_operands, process_instruction_second_pass,
}
use riscv_student_pack.Assembler.SecondPass.Arguments.{
  Operands, no_operands, parse_instruction_args, last_word, without_parentheses, at_front,
}
use riscv_student_pack.Assembler.SecondPass.Output.{Writer}
use riscv_student_pack.Assembler.SecondPass.Tokens.{
  IsPlain, IsToken, Lacks, Lacks-append, no_commas, no_blanks, no_hashes, split_at-found,
  cut_at-Lacks, cut_at-found, EndsPlain, EndsPlain-token, EndsPlain-append, StartsPlain-token,
  StartsPlain-alone, skip_spaces-StartsPlain, trim-plain,
}
use riscv_student_pack.Assembler.SecondPass.Lines.{parse-op, stored-short}
use riscv_student_pack.Assembler.SecondPass.SameLine.{trim_in_place-token, drop_comma-token}
use riscv_student_pack.Assembler.SecondPass.Expansion.{emit_encoded}

last_word-plain : (s : List ℕ) → All IsPlain s → last_word s ≡ ([], s)
unfolding last_word
last_word-plain [] h = refl
last_word-plain (c ∷ s) (p, ps) = rw (last_word-plain s ps, p.no_space, p.no_comma) refl

filled_behind : (x l : List ℕ) → is_empty l ≡ false → is_empty (x ++ l) ≡ false
filled_behind [] l h = h
filled_behind (c ∷ x) l h = refl

-- More text in front of a space or comma.
last_word-behind :
    (l before last x : List ℕ)
    → last_word l ≡ (before, last)
    → is_empty before ≡ false
    → last_word (x ++ l) ≡ (x ++ before, last)
unfolding last_word
last_word-behind l before last [] e f = e
last_word-behind l before last (c ∷ x) e f =
    ap (at_front c) (last_word-behind l before last x e f) ∙ rw (filled_behind x before f) refl

-- `op a, s(b)` and the operands without parentheses.
abbrev pub indirect : (op a s b : List ℕ) → List ℕ
indirect op a s b = op ++ (b' ' ∷ (a ++ (codes ", " ++ (s ++ (b'(' ∷ (b ++ (b')' ∷ [])))))))

abbrev direct : (op a s b : List ℕ) → List ℕ
direct op a s b = op ++ (b' ' ∷ (a ++ (codes ", " ++ (s ++ (b',' ∷ b)))))

module _ (op a s b : List ℕ) (ho : IsToken op) (ha : IsToken a) (hs : IsToken s) (hb : IsToken b)
    (short : length op < 16) where
  last_word-operands :
      last_word (op ++ (b' ' ∷ (a ++ (codes ", " ++ s)))) ≡ (op ++ (b' ' ∷ (a ++ codes ", ")), s)
  unfolding last_word
  last_word-operands =
      let blank : last_word (b' ' ∷ s) ≡ (b' ' ∷ [], s) = rw (last_word-plain s hs.plain) refl in
      let comma = last_word-behind (b' ' ∷ s) (b' ' ∷ []) s (b',' ∷ []) blank refl in
      let first = last_word-behind (codes ", " ++ s) (codes ", ") s a comma refl in
      let space =
        last_word-behind (a ++ (codes ", " ++ s)) (a ++ codes ", ") s (b' ' ∷ []) first
          (filled_behind a (codes ", ") refl) in
      last_word-behind (b' ' ∷ (a ++ (codes ", " ++ s))) (b' ' ∷ (a ++ codes ", ")) s op space refl

  parse-direct :
      (old : Operands)
      → parse_instruction_args (direct op a s b) old
        ≡ ok (record old { op = op; a1 = a; a2 = s; a3 = b })
  unfolding skip_spaces
  parse-direct old =
      parse-op op (a ++ (codes ", " ++ (s ++ (b',' ∷ b)))) old (no_blanks op ho.plain) short
        (omega (
          arith,
          length-append a (codes ", " ++ (s ++ (b',' ∷ b))),
          length-append s (b',' ∷ b),
          ha.short,
          hs.short,
          hb.short,
        ))
        (trim-plain (a ++ (codes ", " ++ (s ++ (b',' ∷ b)))) (StartsPlain-token a _ ha) (
          EndsPlain-append a (codes ", " ++ (s ++ (b',' ∷ b))) (
            EndsPlain-append (codes ", ") (s ++ (b',' ∷ b)) (
              EndsPlain-append s (b',' ∷ b)
                (EndsPlain-append (b',' ∷ []) b (EndsPlain-token b hb.plain hb.filled))))))
      ∙ rw
          (
            split_at-found b',' a (b' ' ∷ (s ++ (b',' ∷ b))) (no_commas a ha.plain),
            stored-short 32 a ha.short,
            split_at-found b',' (b' ' ∷ s) b (refl, no_commas s hs.plain),
            second,
            stored-short 32 s hs.short,
            trim-plain b (StartsPlain-alone b hb) (EndsPlain-token b hb.plain hb.filled),
            stored-short 32 b hb.short,
          )
          refl
    where
      second : cut_at b',' (skip_spaces (b' ' ∷ (s ++ (b',' ∷ b)))) ≡ s
      second =
          ap (cut_at b',') (skip_spaces-StartsPlain (s ++ (b',' ∷ b)) (StartsPlain-token s _ hs))
          ∙ cut_at-found b',' s b (no_commas s hs.plain)

  -- The text around the operands, moved out of and into the parentheses' place.
  regroup :
      (l rest : List ℕ)
      → (op ++ (b' ' ∷ (a ++ (codes ", " ++ l)))) ++ rest
        ≡ op ++ (b' ' ∷ (a ++ (codes ", " ++ (l ++ rest))))
  regroup l rest =
      append_assoc op (b' ' ∷ (a ++ (codes ", " ++ l))) rest
      ∙ ap (λ t. op ++ (b' ' ∷ t)) (append_assoc a (codes ", " ++ l) rest)

  module _ (open_op : Lacks b'(' op) (open_a : Lacks b'(' a) (open_s : Lacks b'(' s)
      (close_b : Lacks b')' b) where
    without_parentheses-indirect : without_parentheses (indirect op a s b) ≡ ok (direct op a s b)
    unfolding without_parentheses
    without_parentheses-indirect =
        let front = op ++ (b' ' ∷ (a ++ (codes ", " ++ s))) in
        let lacks : Lacks b'(' front =
          Lacks-append b'(' op (b' ' ∷ (a ++ (codes ", " ++ s))) open_op
            (refl, Lacks-append b'(' a (codes ", " ++ s) open_a (refl, (refl, open_s))) in
        let found : split_at b'(' (indirect op a s b) ≡ some (front, b ++ (b')' ∷ [])) =
          ap (split_at b'(') (sym (regroup s (b'(' ∷ (b ++ (b')' ∷ [])))))
          ∙ split_at-found b'(' front (b ++ (b')' ∷ [])) lacks in
        rw
          (
            found,
            split_at-found b')' b [] close_b,
            last_word-operands,
            stored-short 32 s hs.short,
            stored-short 32 b hb.short,
            append-nil b,
          )
          (ap (λ l. ok l) (regroup [] (s ++ (b',' ∷ b))))

    -- The second pass assembles a line of a mnemonic that is no pseudoinstruction, a blank, an
    -- operand, a comma and a blank, and an operand of the form `offset(register)`, each a token of
    -- fewer than 32 bytes (16 for the mnemonic) without parentheses, by encoding the mnemonic with
    -- the three operands, and exits if they cannot be encoded.
    pub process_instruction_second_pass-indirect :
        (t : Tables) (w : Writer)
        → is_pseudoinstruction op ≡ false
        → process_instruction_second_pass t (indirect op a s b) w
          ≡ emit_encoded w (encode_instruction t.labels w.pc op a s b)
    unfolding process_instruction_second_pass assemble_operands
    process_instruction_second_pass-indirect t w real =
        rw
          (
            cut_at-Lacks b'#' (indirect op a s b) clean,
            trim-plain (indirect op a s b) (StartsPlain-token op _ ho) ends,
            without_parentheses-indirect,
            parse-direct no_operands,
            trim_in_place-token a ha,
            trim_in_place-token s hs,
            trim_in_place-token b hb,
            drop_comma-token a ha,
            drop_comma-token s hs,
            real,
          )
          refl
      where
        clean : Lacks b'#' (indirect op a s b)
        clean =
            Lacks-append b'#' op (b' ' ∷ (a ++ (codes ", " ++ (s ++ (b'(' ∷ (b ++ (b')' ∷ [])))))))
              (no_hashes op ho.plain)
              (
                refl,
                Lacks-append b'#' a (codes ", " ++ (s ++ (b'(' ∷ (b ++ (b')' ∷ [])))))
                    (no_hashes a ha.plain)
                    (
                      refl,
                      (
                        refl,
                        Lacks-append b'#' s (b'(' ∷ (b ++ (b')' ∷ []))) (no_hashes s hs.plain) (
                          refl,
                          Lacks-append b'#' b (b')' ∷ []) (no_hashes b hb.plain) (refl, tt),
                        ),
                      ),
                    ),
              )

        ends : EndsPlain (indirect op a s b)
        ends =
            EndsPlain-append op (b' ' ∷ (a ++ (codes ", " ++ (s ++ (b'(' ∷ (b ++ (b')' ∷ []))))))) (
              EndsPlain-append (b' ' ∷ []) (a ++ (codes ", " ++ (s ++ (b'(' ∷ (b ++ (b')' ∷ []))))))
                (EndsPlain-append a (codes ", " ++ (s ++ (b'(' ∷ (b ++ (b')' ∷ []))))) (
                  EndsPlain-append (codes ", ") (s ++ (b'(' ∷ (b ++ (b')' ∷ [])))) (
                    EndsPlain-append s (b'(' ∷ (b ++ (b')' ∷ []))) (
                      EndsPlain-append (b'(' ∷ []) (b ++ (b')' ∷ []))
                        (EndsPlain-append b (b')' ∷ []) refl))))))
