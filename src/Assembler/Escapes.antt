-- ===== src/Assembler/Escapes.antt =====
-- assembler/src/utils.cpp: `parse_escaped_string`, the text of `.ascii` and `.asciiz`.
use riscv_student_pack.Common.{
  ℕ, suc, ◌≤◌, ◌≡◌, refl, Bool, true, false, List, [], ◌∷◌, ◌++◌, Option, none, some, ◌==◌,
  if◌then◌else◌, length, arith, ap, ◌∙◌,
}
use riscv_student_pack.Memory.{◌>>=◌}

-- The `switch` on the byte behind a backslash.
unfoldable pub unescape : ℕ → Option ℕ
unescape c =
    if c == b'n'
    then some 10
    else if c == b't'
    then some 9
    else if c == b'r'
    then some 13
    else if c == 92
    then some 92
    else if c == 34
    then some 34
    else none

abbrev cons_to : ℕ → Option (List ℕ) → Option (List ℕ)
cons_to c o = do rest ← o; some (c ∷ rest)

-- The loop, at an ordinary byte or behind a backslash: the bytes that it writes to `out`. The
-- function returns their number. A text that ends behind a backslash is an unknown escape.
unfoldable pub parse_from : (behind_backslash : Bool) → List ℕ → Option (List ℕ)
unfolding unescape
parse_from true [] = none
parse_from true (c ∷ s) = let rest = parse_from false s in do b ← unescape c; cons_to b rest
parse_from false [] = some []
parse_from false (c ∷ s) =
    let escaped = parse_from true s in
    let plain = parse_from false s in
    if c == 34 then some [] else if c == 92 then escaped else cons_to c plain

-- `Assembler::parse_escaped_string`
unfoldable pub parse_escaped_string : List ℕ → Option (List ℕ)
parse_escaped_string src = parse_from false src

-- A byte as it is written in a literal.
abbrev escape : ℕ → List ℕ
escape c =
    if c == 10
    then 92 ∷ b'n' ∷ []
    else if c == 9
    then 92 ∷ b't' ∷ []
    else if c == 13
    then 92 ∷ b'r' ∷ []
    else if c == 92
    then 92 ∷ 92 ∷ []
    else if c == 34
    then 92 ∷ 34 ∷ []
    else c ∷ []

abbrev pub literal : List ℕ → List ℕ
literal [] = []
literal (c ∷ s) = escape c ++ literal s

parse_from-escape :
    (c : ℕ) (l t : List ℕ)
    → parse_from false ((escape c ++ l) ++ t) ≡ cons_to c (parse_from false (l ++ t))
unfolding parse_from
parse_from-escape c l t = ground arith

-- `parse_escaped_string` reads a text back from its literal, in which newline, tab, carriage
-- return, backslash and quote are escaped, and stops at the closing quote whatever follows.
pub parse_escaped_string-literal :
    (s t : List ℕ) → parse_escaped_string (literal s ++ 34 ∷ t) ≡ some s
unfolding parse_escaped_string parse_from
parse_escaped_string-literal [] t = refl
parse_escaped_string-literal (c ∷ s) t =
    parse_from-escape c (literal s) (34 ∷ t) ∙ ap (cons_to c) (parse_escaped_string-literal s t)

length-cons_to_le :
    (c n : ℕ) (o : Option (List ℕ)) (out : List ℕ)
    → ((r : List ℕ) → o ≡ some r → length r ≤ n)
    → cons_to c o ≡ some out
    → length out ≤ suc n
length-cons_to_le c n none out h e = cc
length-cons_to_le c n (some r) out h e = ground (arith, h r refl, e)

length-unescaped_le :
    (n : ℕ) (b : Option ℕ) (o : Option (List ℕ)) (out : List ℕ)
    → ((r : List ℕ) → o ≡ some r → length r ≤ n)
    → (do v ← b; cons_to v o) ≡ some out
    → length out ≤ suc n
length-unescaped_le n none o out h e = cc
length-unescaped_le n (some v) o out h e = length-cons_to_le v n o out h e

length-chosen_le :
    (quote backslash : Bool) (c n : ℕ) (escaped plain : Option (List ℕ)) (out : List ℕ)
    → ((r : List ℕ) → escaped ≡ some r → length r ≤ n)
    → ((r : List ℕ) → plain ≡ some r → length r ≤ n)
    → (if quote then some [] else if backslash then escaped else cons_to c plain) ≡ some out
    → length out ≤ suc n
length-chosen_le true b c n escaped plain out h k e = ground (arith, e)
length-chosen_le false true c n escaped plain out h k e = omega (arith, h out e)
length-chosen_le false false c n escaped plain out h k e = length-cons_to_le c n plain out k e

length-parse_from_le :
    (b : Bool) (src out : List ℕ) → parse_from b src ≡ some out → length out ≤ length src
unfolding parse_from
length-parse_from_le true [] out h = cc
length-parse_from_le true (c ∷ s) out h =
    length-unescaped_le (length s) (unescape c) _ out (λ r. length-parse_from_le false s r) h
length-parse_from_le false [] out h = ground arith
length-parse_from_le false (c ∷ s) out h =
    length-chosen_le (c == 34) (c == 92) c (length s) _ _ out (λ r. length-parse_from_le true s r)
      (λ r. length-parse_from_le false s r) h

-- When `parse_escaped_string` returns, it has written at most as many bytes as the source text
-- has.
length-parse_escaped_string_le :
    (src out : List ℕ) → parse_escaped_string src ≡ some out → length out ≤ length src
unfolding parse_escaped_string
length-parse_escaped_string_le src out h = length-parse_from_le false src out h
