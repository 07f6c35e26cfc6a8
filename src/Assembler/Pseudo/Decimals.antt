-- ===== src/Assembler/Pseudo/Decimals.antt =====
-- `%d` (assembler/src/expand_pseudoinstruction.cpp) against `parse_imm` (assembler/src/utils.cpp).
use riscv_student_pack.Common.{
  ℕ, zero, suc, ◌+◌, ◌-◌, ◌*◌, ◌/◌, ◌%◌, ◌^◌, ◌≤◌, ◌<◌, ◌≡◌, refl, sym, ap, ◌∙◌, true, false, ◌&&◌,
  List, [], ◌∷◌, ◌++◌, some, ltb, ◌==◌, get_or, IsU32, arith, Bool-cases, inl, inr, lt→ltb, ltb→lt,
}
use native.Mathlib.Nat.{pow-suc}
use riscv_student_pack.Scan.{number_from, digit_value, long_to_int, is_x}
use riscv_student_pack.Assembler.Chars.{is_digit}
use riscv_student_pack.Assembler.Immediates.{Label, parse_imm}
use riscv_student_pack.Assembler.Pseudo.{digits_before, print_int}

-- The text begins with no digit.
abbrev pub NoDigit : List ℕ → Type 0
NoDigit [] = Unit {0}
NoDigit (c ∷ s) = is_digit c ≡ false

number_from-NoDigit : (n : ℕ) (s : List ℕ) → NoDigit s → number_from 10 n s ≡ n
unfolding number_from
number_from-NoDigit n [] h = refl
number_from-NoDigit n (c ∷ s) h = ground arith

number_from-digit :
    (acc d : ℕ) (s : List ℕ)
    → d < 10
    → number_from 10 acc ((b'0' + d) ∷ s) ≡ number_from 10 (acc * 10 + d) s
unfolding number_from
number_from-digit acc d s h = elim (Bool-cases (is_digit (b'0' + d))) [
  | inl e ↦
      let value : digit_value (b'0' + d) ≡ d = rw e (omega arith) in rw (value, lt→ltb d 10 h) refl
  | inr e ↦ absurd (ground (arith, e))
]

number_from-digits_before :
    (more n : ℕ) (s : List ℕ)
    → n < 10 ^ more
    → number_from 10 0 (digits_before more n s) ≡ number_from 10 n s
unfolding digits_before
number_from-digits_before zero n s h = let none_left : n ≡ 0 = omega arith in rw none_left refl
number_from-digits_before (suc more) n s h = elim (Bool-cases (ltb n 10)) [
  | inl e ↦
      rw e
        (number_from-digit 0 n s (ltb→lt n 10 e) ∙ ap (λ (t : ℕ). number_from 10 t s) (omega arith))
  | inr e ↦ rw e (
      number_from-digits_before more (n / 10) ((b'0' + n % 10) ∷ s) (omega (arith, pow-suc 10 more))
      ∙ number_from-digit (n / 10) (n % 10) s (omega arith)
      ∙ ap (λ (t : ℕ). number_from 10 t s) (omega arith))
]

-- The first digit, which is 0 for the number 0 only.
pub record Leads (n : ℕ) (s digits : List ℕ) : Type 0 where
  pub first : ℕ
  pub others : List ℕ
  pub whole : digits ≡ first ∷ others
  pub digit : is_digit first ≡ true
  pub zero_alone : first ≡ b'0' → (n ≡ 0) × (others ≡ s)

one_digit : (n : ℕ) (s : List ℕ) → ltb n 10 ≡ true → Leads n s ((b'0' + n) ∷ s)
one_digit n s e = record {
  first = b'0' + n;
  others = s;
  whole = refl;
  digit = ground (arith, e);
  zero_alone = λ z. (omega (arith, z), refl);
}

digits_before-Leads :
    (more n : ℕ) (s : List ℕ) → n < 10 ^ suc more → Leads n s (digits_before (suc more) n s)
unfolding digits_before
digits_before-Leads zero n s h = let e : ltb n 10 ≡ true = ground arith in rw e (one_digit n s e)
digits_before-Leads (suc k) n s h = elim (Bool-cases (ltb n 10)) [
  | inl e ↦ rw e (one_digit n s e)
  | inr e ↦
      let l =
        digits_before-Leads k (n / 10) ((b'0' + n % 10) ∷ s)
          (omega (arith, pow-suc 10 (suc k), h)) in
      rw e (record {
        first = l.first;
        others = l.others;
        whole = l.whole;
        digit = l.digit;
        zero_alone = λ z. absurd (ground (arith, e, l.zero_alone z));
      })
]

-- What follows a printed number so that it is read no further.
abbrev pub Delimited : List ℕ → Type 0
Delimited [] = Unit {0}
Delimited (c ∷ s) = (is_digit c ≡ false) × (is_x c ≡ false)

Delimited-NoDigit : (s : List ℕ) → Delimited s → NoDigit s
Delimited-NoDigit [] h = tt
Delimited-NoDigit (c ∷ s) h = h.0

-- `digits_before` puts its digits in front of the text, whatever that is.
digits_before-append :
    (more n : ℕ) (s t : List ℕ) → digits_before more n s ++ t ≡ digits_before more n (s ++ t)
unfolding digits_before
digits_before-append zero n s t = refl
digits_before-append (suc more) n s t = elim (Bool-cases (ltb n 10)) [
  | inl e ↦ rw e refl
  | inr e ↦ rw e (digits_before-append more (n / 10) ((b'0' + n % 10) ∷ s) t)
]

Delimited-head : (s : List ℕ) → Delimited s → is_x (get_or s 0 0) ≡ false
Delimited-head [] h = refl
Delimited-head (c ∷ s) h = h.1

-- A text that begins with a digit, and with 0 only if no `x` comes behind it.
parse_lead :
    (labels : List Label) (n c : ℕ) (t : List ℕ)
    → is_digit c ≡ true
    → (c == b'0' && is_x (get_or t 0 0)) ≡ false
    → number_from 10 0 (c ∷ t) ≡ n
    → n < 2 ^ 31
    → parse_imm labels (c ∷ t) ≡ some n
unfolding parse_imm
parse_lead labels n c t digit plain value h =
    let minus : (c == b'-') ≡ false = ground (arith, digit) in
    let kept : long_to_int false n ≡ n = omega arith in simp (plain, minus, digit, value, kept)

parse_minus :
    (labels : List Label) (n c : ℕ) (t : List ℕ)
    → is_digit c ≡ true
    → (c == b'0') ≡ false
    → number_from 10 0 (c ∷ t) ≡ n
    → n ≤ 2 ^ 31
    → parse_imm labels (b'-' ∷ c ∷ t) ≡ some (long_to_int true n)
unfolding parse_imm
parse_minus labels n c t digit nonzero value h = simp (nonzero, digit, value)

no_prefix :
    (n c : ℕ) (s t : List ℕ)
    → (c ≡ b'0' → (n ≡ 0) × (t ≡ s))
    → Delimited s
    → (c == b'0' && is_x (get_or t 0 0)) ≡ false
no_prefix n c s t alone d = elim (Bool-cases (c == b'0')) [
  | inr e ↦ rw e refl
  | inl e ↦ let same : t ≡ s = (alone (ground (arith, e))).1 in rw (e, same) (Delimited-head s d)
]

digits_value :
    (n : ℕ) (s : List ℕ) → n ≤ 2 ^ 31 → Delimited s → number_from 10 0 (digits_before 10 n s) ≡ n
digits_value n s h d =
    number_from-digits_before 10 n s (omega arith) ∙ number_from-NoDigit n s (Delimited-NoDigit s d)

parse_digits :
    (labels : List Label) (n : ℕ) (s : List ℕ)
    → n < 2 ^ 31
    → Delimited s
    → parse_imm labels (digits_before 10 n s) ≡ some n
parse_digits labels n s h d =
    let l = digits_before-Leads 9 n s (omega arith) in
    ap (parse_imm labels) l.whole
    ∙ parse_lead labels n l.first l.others l.digit (no_prefix n l.first s l.others l.zero_alone d)
        (ap (number_from 10 0) (sym l.whole) ∙ digits_value n s (omega arith) d) h

parse_negative :
    (labels : List Label) (n : ℕ) (s : List ℕ)
    → 0 < n
    → n ≤ 2 ^ 31
    → Delimited s
    → parse_imm labels (b'-' ∷ digits_before 10 n s) ≡ some (long_to_int true n)
parse_negative labels n s positive h d =
    let l = digits_before-Leads 9 n s (omega arith) in
    ap (λ (t : List ℕ). parse_imm labels (b'-' ∷ t)) l.whole
    ∙ parse_minus labels n l.first l.others l.digit (ground (arith, l.zero_alone))
        (ap (number_from 10 0) (sym l.whole) ∙ digits_value n s h d) h

-- `parse_imm` reads back what `%d` prints of any `int32_t`, whatever follows that begins with
-- neither a digit nor an `x`.
pub parse_imm-print_int :
    (labels : List Label) (v : ℕ) (s : List ℕ)
    → IsU32 v
    → Delimited s
    → parse_imm labels (print_int v ++ s) ≡ some v
unfolding print_int
parse_imm-print_int labels v s h d = elim (Bool-cases (ltb v (2 ^ 31))) [
  | inl e ↦ rw e (
      ap (parse_imm labels) (digits_before-append 10 v [] s)
      ∙ parse_digits labels v s (ltb→lt v (2 ^ 31) e) d)
  | inr e ↦ rw e (
      ap (λ (t : List ℕ). parse_imm labels (b'-' ∷ t)) (digits_before-append 10 (2 ^ 32 - v) [] s)
      ∙ parse_negative labels (2 ^ 32 - v) s (omega arith) (ground (arith, e)) d
      ∙ ap some (ground (arith, e)))
]
