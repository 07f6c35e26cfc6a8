-- ===== src/Program/Bytes.antt =====
-- The bytes of mnemonics and printed numbers, as the text functions of the assembler see them
-- (assembler/src/utils.cpp, assembler/src/first_pass.cpp and assembler/src/second_pass.cpp).
use riscv_student_pack.Common.{
  ℕ, zero, suc, ◌+◌, ◌/◌, ◌%◌, ◌^◌, ◌-◌, ◌<◌, ◌≡◌, refl, Bool, true, false, List, [], ◌∷◌, ◌++◌,
  ◌==◌, ◌||◌, ◌&&◌, length, All, arith, Bool-cases, inl, inr, ltb, ltb→lt,
}
use riscv_student_pack.Assembler.Chars.{is_empty, is_digit, head_or_nul}
use riscv_student_pack.Assembler.Instructions.Mnemonics.{
  Mnemonic, name, add, sub, sll, slt, sltu, xor, srl, sra, or, and, mul, mulh, mulhsu, mulhu, div,
  divu, rem, remu,
}
use riscv_student_pack.Assembler.Pseudo.{print_int, digits_before}
use riscv_student_pack.Assembler.SecondPass.Tokens.{IsToken, IsPlain}
use riscv_student_pack.Program.{IsLineByte}

pub All-append : (P : ℕ → Type 0) (s t : List ℕ) → All P s → All P t → All P (s ++ t)
All-append P [] t h k = k
All-append P (c ∷ s) t (p, ps) k = (p, All-append P s t ps k)

abbrev pub is_letter : ℕ → Bool
is_letter c = ltb 96 c && ltb c 123

-- A small letter is such a byte.
letter-IsLineByte : (c : ℕ) → is_letter c ≡ true → IsLineByte c
letter-IsLineByte c h = record {
  no_open = ground (arith, h);
  no_colon = ground (arith, h);
  no_dot = ground (arith, h);
  no_hash = ground (arith, h);
  no_newline = ground (arith, h);
}

letter-IsPlain : (c : ℕ) → is_letter c ≡ true → IsPlain c
letter-IsPlain c h = record {
  no_space = ground (arith, h);
  no_blank = ground (arith, h);
  no_comma = ground (arith, h);
  no_hash = ground (arith, h);
}

abbrev pub IsLetter : ℕ → Type 0
IsLetter c = is_letter c ≡ true

pub letters-IsLineByte : (s : List ℕ) → All IsLetter s → All IsLineByte s
letters-IsLineByte [] h = tt
letters-IsLineByte (c ∷ s) (p, ps) = (letter-IsLineByte c p, letters-IsLineByte s ps)

pub letters-IsPlain : (s : List ℕ) → All IsLetter s → All IsPlain s
letters-IsPlain [] h = tt
letters-IsPlain (c ∷ s) (p, ps) = (letter-IsPlain c p, letters-IsPlain s ps)

name-IsLetter : (op : Mnemonic) → All IsLetter (name op)
name-IsLetter add = (refl, (refl, (refl, tt)))
name-IsLetter sub = (refl, (refl, (refl, tt)))
name-IsLetter sll = (refl, (refl, (refl, tt)))
name-IsLetter slt = (refl, (refl, (refl, tt)))
name-IsLetter sltu = (refl, (refl, (refl, (refl, tt))))
name-IsLetter xor = (refl, (refl, (refl, tt)))
name-IsLetter srl = (refl, (refl, (refl, tt)))
name-IsLetter sra = (refl, (refl, (refl, tt)))
name-IsLetter or = (refl, (refl, tt))
name-IsLetter and = (refl, (refl, (refl, tt)))
name-IsLetter mul = (refl, (refl, (refl, tt)))
name-IsLetter mulh = (refl, (refl, (refl, (refl, tt))))
name-IsLetter mulhsu = (refl, (refl, (refl, (refl, (refl, (refl, tt))))))
name-IsLetter mulhu = (refl, (refl, (refl, (refl, (refl, tt)))))
name-IsLetter div = (refl, (refl, (refl, tt)))
name-IsLetter divu = (refl, (refl, (refl, (refl, tt))))
name-IsLetter rem = (refl, (refl, (refl, tt)))
name-IsLetter remu = (refl, (refl, (refl, (refl, tt))))

name-filled : (op : Mnemonic) → is_empty (name op) ≡ false
name-filled add = refl
name-filled sub = refl
name-filled sll = refl
name-filled slt = refl
name-filled sltu = refl
name-filled xor = refl
name-filled srl = refl
name-filled sra = refl
name-filled or = refl
name-filled and = refl
name-filled mul = refl
name-filled mulh = refl
name-filled mulhsu = refl
name-filled mulhu = refl
name-filled div = refl
name-filled divu = refl
name-filled rem = refl
name-filled remu = refl

name-short_le : (op : Mnemonic) → length (name op) < 7
name-short_le add = omega arith
name-short_le sub = omega arith
name-short_le sll = omega arith
name-short_le slt = omega arith
name-short_le sltu = omega arith
name-short_le xor = omega arith
name-short_le srl = omega arith
name-short_le sra = omega arith
name-short_le or = omega arith
name-short_le and = omega arith
name-short_le mul = omega arith
name-short_le mulh = omega arith
name-short_le mulhsu = omega arith
name-short_le mulhu = omega arith
name-short_le div = omega arith
name-short_le divu = omega arith
name-short_le rem = omega arith
name-short_le remu = omega arith

pub name-IsToken : (op : Mnemonic) → IsToken (name op)
name-IsToken op = record {
  plain = letters-IsPlain (name op) (name-IsLetter op);
  filled = name-filled op;
  short = omega (arith, name-short_le op);
}

pub name-IsLineByte : (op : Mnemonic) → All IsLineByte (name op)
name-IsLineByte op = letters-IsLineByte (name op) (name-IsLetter op)

pub name-short : (op : Mnemonic) → length (name op) < 16
name-short op = omega (arith, name-short_le op)

-- Digits and the minus sign.
digit-IsLineByte : (d : ℕ) → d < 10 → IsLineByte (b'0' + d)
digit-IsLineByte d h = record {
  no_open = ground arith;
  no_colon = ground arith;
  no_dot = ground arith;
  no_hash = ground arith;
  no_newline = ground arith;
}

digits_before-IsLineByte :
    (more n : ℕ) (s : List ℕ) → All IsLineByte s → All IsLineByte (digits_before more n s)
unfolding digits_before
digits_before-IsLineByte zero n s h = h
digits_before-IsLineByte (suc more) n s h = elim (Bool-cases (ltb n 10)) [
  | inl e ↦ rw e (digit-IsLineByte n (ltb→lt n 10 e), h)
  | inr e ↦ rw e (
      digits_before-IsLineByte more (n / 10) ((b'0' + n % 10) ∷ s)
        (digit-IsLineByte (n % 10) (omega arith), h))
]

pub print_int-IsLineByte : (v : ℕ) → All IsLineByte (print_int v)
unfolding print_int
print_int-IsLineByte v = elim (Bool-cases (ltb v (2 ^ 31))) [
  | inl e ↦ rw e (digits_before-IsLineByte 10 v [] tt)
  | inr e ↦ rw e (
    record { no_open = refl; no_colon = refl; no_dot = refl; no_hash = refl; no_newline = refl },
    digits_before-IsLineByte 10 (2 ^ 32 - v) [] tt,
  )
]

-- The text begins with a digit or a minus sign, which is what the first pass asks of an `li`.
digits_before-digit :
    (more n : ℕ) (s : List ℕ)
    → is_digit (head_or_nul s) ≡ true
    → is_digit (head_or_nul (digits_before more n s)) ≡ true
unfolding digits_before
digits_before-digit zero n s h = h
digits_before-digit (suc more) n s h = elim (Bool-cases (ltb n 10)) [
  | inl e ↦ rw e (ground (arith, ltb→lt n 10 e))
  | inr e ↦ rw e (digits_before-digit more (n / 10) ((b'0' + n % 10) ∷ s) (ground arith))
]

ten_digits-digit : (n : ℕ) → is_digit (head_or_nul (digits_before 10 n [])) ≡ true
unfolding digits_before
ten_digits-digit n = elim (Bool-cases (ltb n 10)) [
  | inl e ↦ rw e (ground (arith, ltb→lt n 10 e))
  | inr e ↦ rw e (digits_before-digit 9 (n / 10) ((b'0' + n % 10) ∷ []) (ground arith))
]

pub print_int-numeric :
    (v : ℕ) → (is_digit (head_or_nul (print_int v)) || head_or_nul (print_int v) == b'-') ≡ true
unfolding print_int
print_int-numeric v = elim (Bool-cases (ltb v (2 ^ 31))) [
  | inl e ↦ rw (e, ten_digits-digit v) refl
  | inr e ↦ rw e refl
]
