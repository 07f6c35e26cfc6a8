-- ===== src/Assembler/SecondPass/Numerals.antt =====
-- Lists of numbers in `.half` and `.word`: `process_data_directive` of
-- assembler/src/second_pass.cpp and the counting of assembler/src/first_pass.cpp.
use riscv_student_pack.Common.{
  ℕ, zero, suc, ◌+◌, ◌-◌, ◌/◌, ◌%◌, ◌^◌, ◌≤◌, ◌≡◌, refl, ap, ◌∙◌, Bool, true, false, not, List, [],
  ◌∷◌, ◌++◌, some, ltb, ◌==◌, length, length-append, All, IsU32, arith, Bool-cases, inl, inr,
  ltb→lt,
}
use riscv_student_pack.Assembler.Outcome.{ok, unfinished, ◌>>=◌}
use riscv_student_pack.Assembler.Chars.{is_space}
use riscv_student_pack.Assembler.Immediates.{Label, parse_imm}
use riscv_student_pack.Assembler.Pseudo.{print_int, digits_before}
use riscv_student_pack.Assembler.Pseudo.Decimals.{Delimited, parse_imm-print_int}
use riscv_student_pack.Assembler.FirstPass.{is_blank, count_values}
use riscv_student_pack.Assembler.SecondPass.Data.{
  skip_separators, in_number, after_number, read_imm, read_values, value_bytes, list_bytes,
}
use riscv_student_pack.Assembler.SecondPass.Tokens.{IsToken, IsPlain}
use riscv_student_pack.Assembler.SecondPass.Expansion.{print_int-IsToken}

-- The loop of `.half` and `.word` does not end at the name of a label that `parse_imm` finds, if
-- its first byte is not one that `strspn` skips, no space and no comma: no number of rounds is
-- enough.
pub read_values-unfinished :
    (labels : List Label) (c : ℕ) (s : List ℕ) (v fuel : ℕ)
    → parse_imm labels (c ∷ s) ≡ some v
    → in_number c ≡ false
    → is_space c ≡ false
    → (c == b',') ≡ false
    → read_values fuel (read_imm labels) (c ∷ s) ≡ unfinished
unfolding read_values skip_separators after_number
read_values-unfinished labels c s v zero reads other no_space no_comma = refl
read_values-unfinished labels c s v (suc fuel) reads other no_space no_comma =
    let no_blank : is_blank c ≡ false = ground (arith, no_space, no_comma) in
    rw
      (
        no_blank,
        reads,
        other,
        no_space,
        no_comma,
        read_values-unfinished labels c s v fuel reads other no_space no_comma,
      )
      refl

-- Decimal numerals, a comma and a blank between them.
abbrev pub more_numerals : List ℕ → List ℕ
more_numerals [] = []
more_numerals (v ∷ vs) = b',' ∷ b' ' ∷ (print_int v ++ more_numerals vs)

abbrev pub numerals : List ℕ → List ℕ
numerals [] = []
numerals (v ∷ vs) = print_int v ++ more_numerals vs

digits_before-in_number :
    (more n : ℕ) (s : List ℕ)
    → All (λ c. in_number c ≡ true) s
    → All (λ c. in_number c ≡ true) (digits_before more n s)
unfolding digits_before
digits_before-in_number zero n s h = h
digits_before-in_number (suc more) n s h = elim (Bool-cases (ltb n 10)) [
  | inl e ↦ rw e (ground (arith, ltb→lt n 10 e), h)
  | inr e ↦ rw e (digits_before-in_number more (n / 10) ((b'0' + n % 10) ∷ s) (ground arith, h))
]

print_int-in_number : (v : ℕ) → All (λ c. in_number c ≡ true) (print_int v)
unfolding print_int
print_int-in_number v = elim (Bool-cases (ltb v (2 ^ 31))) [
  | inl e ↦ rw e (digits_before-in_number 10 v [] tt)
  | inr e ↦ rw e (refl, digits_before-in_number 10 (2 ^ 32 - v) [] tt)
]

after_number-append :
    (p t : List ℕ) → All (λ c. in_number c ≡ true) p → after_number (p ++ t) ≡ after_number t
unfolding after_number
after_number-append [] t h = refl
after_number-append (c ∷ p) t (e, h) = rw e (after_number-append p t h)

count_values-append :
    (p t : List ℕ) → All IsPlain p → count_values true (p ++ t) ≡ count_values true t
unfolding count_values
count_values-append [] t h = refl
count_values-append (c ∷ p) t (e, h) =
    ap (λ (b : Bool). count_values (not b) (p ++ t)) (e.no_comma) ∙ count_values-append p t h

Delimited-more_numerals : (vs : List ℕ) → Delimited (more_numerals vs)
Delimited-more_numerals [] = tt
Delimited-more_numerals (v ∷ vs) = (refl, refl)

after_number-more_numerals : (vs : List ℕ) → after_number (more_numerals vs) ≡ more_numerals vs
unfolding after_number
after_number-more_numerals [] = refl
after_number-more_numerals (v ∷ vs) = refl

-- A number in front: what the loop does with it.
module _ (labels : List Label) (v : ℕ) (fits : IsU32 v) (vs : List ℕ) where
  skip_separators-print_int :
      skip_separators (print_int v ++ more_numerals vs) ≡ print_int v ++ more_numerals vs
  unfolding skip_separators
  skip_separators-print_int = skipped (print_int v) (print_int-IsToken v)
    where
      skipped :
          (p : List ℕ) → IsToken p → skip_separators (p ++ more_numerals vs) ≡ p ++ more_numerals vs
      skipped [] h = cc (h.filled)
      skipped (c ∷ p) h = rw (h.plain.0.no_comma, h.plain.0.no_space) refl

  read_imm-print_int : read_imm labels (print_int v ++ more_numerals vs) ≡ ok (v, more_numerals vs)
  read_imm-print_int =
      rw
        (
          parse_imm-print_int labels v (more_numerals vs) fits (Delimited-more_numerals vs),
          after_number-append (print_int v) (more_numerals vs) (print_int-in_number v),
          after_number-more_numerals vs,
        )
        refl

  count_values-print_int :
      count_values false (print_int v ++ more_numerals vs)
      ≡ suc (count_values true (more_numerals vs))
  unfolding count_values
  count_values-print_int = counted (print_int v) (print_int-IsToken v)
    where
      counted :
          (p : List ℕ)
          → IsToken p
          → count_values false (p ++ more_numerals vs) ≡ suc (count_values true (more_numerals vs))
      counted [] h = cc (h.filled)
      counted (c ∷ p) h =
          let no_blank : is_blank c ≡ false =
            ground (arith, h.plain.0.no_comma, h.plain.0.no_space, h.plain.0.no_blank) in
          rw no_blank (ap (λ n. suc n) (count_values-append p (more_numerals vs) (h.plain.1)))

  read_values-print_int :
      (fuel : ℕ)
      → read_values (suc fuel) (read_imm labels) (print_int v ++ more_numerals vs)
        ≡ read_values fuel (read_imm labels) (skip_separators (more_numerals vs))
          >>= (λ more. ok (v ∷ more))
  unfolding read_values
  read_values-print_int fuel = run (print_int v) (print_int-IsToken v) read_imm-print_int
    where
      run :
          (p : List ℕ)
          → IsToken p
          → read_imm labels (p ++ more_numerals vs) ≡ ok (v, more_numerals vs)
          → read_values (suc fuel) (read_imm labels) (p ++ more_numerals vs)
            ≡ read_values fuel (read_imm labels) (skip_separators (more_numerals vs))
              >>= (λ more. ok (v ∷ more))
      run [] h e = cc (h.filled)
      run (c ∷ p) h e =
          let no_blank : is_blank c ≡ false =
            ground (arith, h.plain.0.no_comma, h.plain.0.no_space, h.plain.0.no_blank) in
          rw (no_blank, e) refl

skip_separators-more_numerals :
    (labels : List Label) (vs : List ℕ)
    → All IsU32 vs
    → skip_separators (more_numerals vs) ≡ numerals vs
unfolding skip_separators
skip_separators-more_numerals labels [] h = refl
skip_separators-more_numerals labels (v ∷ vs) (fits, h) = skip_separators-print_int labels v fits vs

read_values-numerals :
    (labels : List Label) (vs : List ℕ) (fuel : ℕ)
    → length vs ≤ fuel
    → All IsU32 vs
    → read_values fuel (read_imm labels) (numerals vs) ≡ ok vs
unfolding read_values
read_values-numerals labels [] zero h k = refl
read_values-numerals labels [] (suc fuel) h k = refl
read_values-numerals labels (v ∷ vs) zero h k = absurd (omega arith)
read_values-numerals labels (v ∷ vs) (suc fuel) h (fits, k) =
    read_values-print_int labels v fits vs fuel
    ∙ rw
        (
          skip_separators-more_numerals labels vs k,
          read_values-numerals labels vs fuel (omega (arith, h)) k,
        )
        refl

count_values-more_numerals :
    (labels : List Label) (vs : List ℕ)
    → All IsU32 vs
    → count_values true (more_numerals vs) ≡ length vs
unfolding count_values
count_values-more_numerals labels [] h = refl
count_values-more_numerals labels (v ∷ vs) (fits, h) =
    count_values-print_int labels v fits vs
    ∙ ap (λ n. suc n) (count_values-more_numerals labels vs h)

length-more_numerals_le : (vs : List ℕ) → length vs ≤ length (more_numerals vs)
length-more_numerals_le [] = omega arith
length-more_numerals_le (v ∷ vs) =
    omega (arith, length-append (print_int v) (more_numerals vs), length-more_numerals_le vs)

length-numerals_le : (vs : List ℕ) → length vs ≤ suc (length (numerals vs))
length-numerals_le [] = omega arith
length-numerals_le (v ∷ vs) =
    omega (arith, length-append (print_int v) (more_numerals vs), length-more_numerals_le vs)

-- The text of a list behind the directive: a blank and the numerals.
pub list_bytes-numerals :
    (labels : List Label) (n : ℕ) (vs : List ℕ)
    → All IsU32 vs
    → (list_bytes n (read_imm labels) (b' ' ∷ numerals vs) ≡ ok (value_bytes n vs))
      × (count_values false (b' ' ∷ numerals vs) ≡ length vs)
unfolding read_values count_values skip_separators
list_bytes-numerals labels n [] h = (refl, refl)
list_bytes-numerals labels n (v ∷ vs) (fits, h) = (
  rw
      (
        skip_separators-print_int labels v fits vs,
        read_values-numerals labels (v ∷ vs) (suc (length (numerals (v ∷ vs))))
            (length-numerals_le (v ∷ vs)) (fits, h),
      )
      refl,
  count_values-print_int labels v fits vs
      ∙ ap (λ k. suc k) (count_values-more_numerals labels vs h),
)
