-- ===== src/Assembler/SecondPass/SameLine.antt =====
-- One line of an instruction in both passes: `process_instruction_first_pass`
-- (assembler/src/first_pass.cpp) and `process_instruction_second_pass`
-- (assembler/src/second_pass.cpp).
use riscv_student_pack.Common.{
  ℕ, ◌<◌, ◌≡◌, ◌⊎◌, refl, sym, ap, ◌∙◌, true, false, List, [], ◌∷◌, ◌++◌, Option, some, ◌==◌, codes,
  take, length, length-append, All, arith,
}
use mathlib.Core.Path.{subst}
use riscv_student_pack.Memory
use riscv_student_pack.Assembler.Chars.{str_eq, skip_spaces, trim}
use riscv_student_pack.Assembler.Text.{word, after_word, trim_in_place}
use riscv_student_pack.Assembler.State.{Assembler}
use riscv_student_pack.Assembler.Pseudo.{pseudoinstruction_size}
use riscv_student_pack.Assembler.Pseudo.Sizes.{is_number}
use riscv_student_pack.Assembler.FirstPass.{
  parse_simple_args, grow_text, bytes_of, process_instruction_first_pass,
}
use riscv_student_pack.Assembler.SecondPass.{
  Tables, assemble_operands, process_instruction_second_pass,
}
use riscv_student_pack.Assembler.SecondPass.Arguments.{
  no_operands, is_comma, drop_comma, without_parentheses,
}
use riscv_student_pack.Assembler.SecondPass.Output.{Writer}
use riscv_student_pack.Assembler.SecondPass.Tokens.{
  IsToken, IsPlain, Lacks, Lacks-append, no_commas, no_blanks, no_hashes, split_at-Lacks,
  split_at-found, cut_at-Lacks, take_all, EndsPlain-token, EndsPlain-append, StartsPlain,
  StartsPlain-token, StartsPlain-alone, skip_spaces-StartsPlain, trim-plain, trim_in_place-plain,
}
use riscv_student_pack.Assembler.SecondPass.Lines.{parse-two}
use riscv_student_pack.Assembler.SecondPass.Sizes.{Writes, assemble_operands-Writes}

pub word-token : (s t : List ℕ) → All IsPlain s → word (s ++ (b' ' ∷ t)) ≡ s
unfolding word
word-token [] t h = refl
word-token (c ∷ s) t (p, ps) = rw (p.no_space, word-token s t ps) refl

after_word-token : (s t : List ℕ) → All IsPlain s → after_word (s ++ (b' ' ∷ t)) ≡ b' ' ∷ t
unfolding after_word
after_word-token [] t h = refl
after_word-token (c ∷ s) t (p, ps) = rw (p.no_space) (after_word-token s t ps)

skip_blank : (s : List ℕ) → StartsPlain s → skip_spaces (b' ' ∷ s) ≡ s
unfolding skip_spaces
skip_blank s h = skip_spaces-StartsPlain s h

-- A token is left alone by the clean-up of operands.
pub trim_in_place-token : (s : List ℕ) → IsToken s → trim_in_place s ≡ s
trim_in_place-token s h =
    trim_in_place-plain s (StartsPlain-alone s h) (EndsPlain-token s h.plain h.filled)

is_comma-token : (s : List ℕ) → All IsPlain s → is_comma s ≡ false
is_comma-token [] h = refl
is_comma-token (c ∷ []) (p, ps) = p.no_comma
is_comma-token (c ∷ d ∷ s) (p, ps) = is_comma-token (d ∷ s) ps

pub drop_comma-token : (s : List ℕ) → IsToken s → drop_comma s ≡ s
drop_comma-token s h = rw (is_comma-token s h.plain) refl

-- `process_instruction_first_pass` behind `parse_simple_args`.
abbrev pub counted : Assembler → List ℕ × List ℕ × List ℕ → Option Assembler
counted s (op, a1, a2) =
    Memory.◌>>=◌ (pseudoinstruction_size s.labels op a2)
      (λ words. some (grow_text (bytes_of words) s))

-- A mnemonic and two operands, with a blank, and a comma and a blank between them.
abbrev pub two_operands : (op a b : List ℕ) → List ℕ
two_operands op a b = op ++ (b' ' ∷ (a ++ (codes ", " ++ b)))

module _ (op a b : List ℕ) (ho : IsToken op) (ha : IsToken a) (hb : IsToken b)
    (short : length op < 16) (short_b : length b < 31) where
  starts_line : skip_spaces (two_operands op a b) ≡ two_operands op a b
  starts_line = skip_spaces-StartsPlain (two_operands op a b) (StartsPlain-token op _ ho)

  trim-line : trim (two_operands op a b) ≡ two_operands op a b
  trim-line = trim-plain (two_operands op a b) (StartsPlain-token op _ ho) (
      EndsPlain-append op (b' ' ∷ (a ++ (codes ", " ++ b))) (
        EndsPlain-append (b' ' ∷ []) (a ++ (codes ", " ++ b)) (
          EndsPlain-append a (codes ", " ++ b)
            (EndsPlain-append (codes ", ") b (EndsPlain-token b hb.plain hb.filled)))))

  Lacks-line :
      (x : ℕ)
      → Lacks x op
      → Lacks x a
      → Lacks x b
      → (b' ' == x) ≡ false
      → (b',' == x) ≡ false
      → Lacks x (two_operands op a b)
  Lacks-line x p q r blank comma =
      Lacks-append x op (b' ' ∷ (a ++ (codes ", " ++ b))) p
        (blank, Lacks-append x a (codes ", " ++ b) q (comma, (blank, r)))

  parse_simple_args-line :
      parse_simple_args (two_operands op a b) ≡ (op, trim_in_place (take 30 a), b)
  unfolding parse_simple_args
  parse_simple_args-line =
      let rest = a ++ (codes ", " ++ b) in
      rw
        (
          take_all 511 (two_operands op a b) (
              omega (
                arith,
                length-append op (b' ' ∷ rest),
                length-append a (codes ", " ++ b),
                ha.short,
              )),
          starts_line,
          word-token op rest ho.plain,
          after_word-token op rest ho.plain,
          skip_blank rest (StartsPlain-token a _ ha),
          split_at-found b',' a (b' ' ∷ b) (no_commas a ha.plain),
          skip_blank b (StartsPlain-alone b hb),
          take_all 15 op (omega (arith, short)),
          take_all 30 b (omega (arith, short_b)),
          trim_in_place-token b hb,
        )
        refl

  pub process_instruction_first_pass_lem :
      (n : ℕ) (s : Assembler)
      → pseudoinstruction_size s.labels op b ≡ some n
      → process_instruction_first_pass (two_operands op a b) s ≡ some (grow_text (bytes_of n) s)
  unfolding process_instruction_first_pass
  process_instruction_first_pass_lem n s e =
      ap (counted s) parse_simple_args-line
      ∙ ap (λ (o : Option ℕ). Memory.◌>>=◌ o (λ words. some (grow_text (bytes_of words) s))) e

  module _ (no_open_op : Lacks b'(' op) (no_open_a : Lacks b'(' a) (no_open_b : Lacks b'(' b) where
    pub process_instruction_second_pass_lem :
        (t : Tables) (w : Writer)
        → process_instruction_second_pass t (two_operands op a b) w
          ≡ assemble_operands t (record { op = op; a1 = a; a2 = b; a3 = [] }) w
    unfolding process_instruction_second_pass without_parentheses trim_in_place
    process_instruction_second_pass_lem t w =
        rw
          (
            cut_at-Lacks b'#' (two_operands op a b) (
                Lacks-line b'#' (no_hashes op ho.plain) (no_hashes a ha.plain)
                  (no_hashes b hb.plain) refl refl),
            trim-line,
            split_at-Lacks b'(' (two_operands op a b)
                (Lacks-line b'(' no_open_op no_open_a no_open_b refl refl),
            parse-two op a b no_operands (no_blanks op ho.plain) short ha hb,
            trim_in_place-token a ha,
            trim_in_place-token b hb,
            drop_comma-token a ha,
            drop_comma-token b hb,
          )
          refl

    -- For a line of a mnemonic of at most 15 bytes, a blank, and two operands of at most 31 and 30
    -- bytes with a comma and a blank between them, all without spaces, commas, `#` and opening
    -- parentheses, whose size the first pass counts, and of whose mnemonic `li` the second operand
    -- begins with a digit, perhaps behind a minus sign: the first pass grows the section by the
    -- counted bytes, and the second exits, is undefined, or writes exactly as many, whatever
    -- labels it knows.
    pub process_instruction_second_pass-Writes :
        (t : Tables) (w : Writer) (s : Assembler) (n : ℕ)
        → (str_eq op (codes "li") ≡ false) ⊎ (is_number b ≡ true)
        → pseudoinstruction_size s.labels op b ≡ some n
        → (process_instruction_first_pass (two_operands op a b) s ≡ some (grow_text (bytes_of n) s))
          × Writes (bytes_of n) w (process_instruction_second_pass t (two_operands op a b) w)
    process_instruction_second_pass-Writes t w s n h e = (
      process_instruction_first_pass_lem n s e,
      subst (Writes (bytes_of n) w) (sym (process_instruction_second_pass_lem t w)) (
          assemble_operands-Writes t (record { op = op; a1 = a; a2 = b; a3 = [] }) w s.labels n h
            e),
    )
