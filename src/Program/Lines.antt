-- ===== src/Program/Lines.antt =====
-- The lines of statements, as the text functions of the assembler see them (assembler/src/utils.cpp
-- and assembler/src/second_pass.cpp).
use riscv_student_pack.Common.{
  ℕ, ◌+◌, ◌-◌, ◌^◌, ◌<◌, ◌≡◌, refl, false, List, [], ◌∷◌, ◌++◌, ◌==◌, codes, length, length-append,
  All, arith, Bool-cases, inl, inr, ltb,
}
use riscv_student_pack.Assembler.Sections.{starts_with}
use riscv_student_pack.Assembler.Text.{contains}
use riscv_student_pack.Assembler.Instructions.Mnemonics.{Mnemonic, name}
use riscv_student_pack.Assembler.Pseudo.{print_int}
use riscv_student_pack.Assembler.SecondPass.Tokens.{
  IsToken, EndsPlain, EndsPlain-token, EndsPlain-append, StartsPlain, StartsPlain-token, Lacks,
}
use riscv_student_pack.Assembler.SecondPass.Expansion.{print_int-IsToken, length-digits_before_le}
use riscv_student_pack.Program.{IsLineByte, IsRegister}
use riscv_student_pack.Program.Bytes.{
  letters-IsPlain, letters-IsLineByte, All-append, name-IsToken, name-IsLineByte,
  print_int-IsLineByte,
}

-- A line that is a statement and nothing else: no label, comment or directive.
pub record IsLine (l : List ℕ) : Type 0 where
  pub starts : StartsPlain l
  pub ends : EndsPlain l
  pub bytes : All IsLineByte l
  pub short : length l < 500

blank-IsLineByte : IsLineByte b' '
blank-IsLineByte = record {
  no_open = refl;
  no_colon = refl;
  no_dot = refl;
  no_hash = refl;
  no_newline = refl;
}

comma-IsLineByte : IsLineByte b','
comma-IsLineByte = record {
  no_open = refl;
  no_colon = refl;
  no_dot = refl;
  no_hash = refl;
  no_newline = refl;
}

-- An operand that is clean.
pub record IsOperand (a : List ℕ) : Type 0 where
  pub token : IsToken a
  pub bytes : All IsLineByte a

pub IsRegister-IsOperand : {a : List ℕ} → IsRegister a → IsOperand a
IsRegister-IsOperand h = record { token = h.token; bytes = h.bytes }

pub print_int-IsOperand : (v : ℕ) → IsOperand (print_int v)
print_int-IsOperand v = record { token = print_int-IsToken v; bytes = print_int-IsLineByte v }

pub print_int-short : (v : ℕ) → length (print_int v) < 31
unfolding print_int
print_int-short v = elim (Bool-cases (ltb v (2 ^ 31))) [
  | inl e ↦ rw e (omega (arith, length-digits_before_le 10 v []))
  | inr e ↦ rw e (omega (arith, length-digits_before_le 10 (2 ^ 32 - v) []))
]

-- Operands with a comma and a blank between them.
abbrev pub ArePlain : List ℕ → Type 0
ArePlain l = EndsPlain l × All IsLineByte l

pub one-ArePlain : {a : List ℕ} → IsOperand a → ArePlain a
one-ArePlain {a} h = (EndsPlain-token a h.token.plain h.token.filled, h.bytes)

pub more-ArePlain :
    {a : List ℕ} (l : List ℕ) → IsOperand a → ArePlain l → ArePlain (a ++ (codes ", " ++ l))
more-ArePlain {a} l h (e, b) = (
  EndsPlain-append a (codes ", " ++ l) (EndsPlain-append (codes ", ") l e),
  All-append IsLineByte a (codes ", " ++ l) h.bytes (comma-IsLineByte, (blank-IsLineByte, b)),
)

pub op-IsLine :
    {op : List ℕ} (l : List ℕ)
    → IsOperand op
    → ArePlain l
    → length op + length l < 499
    → IsLine (op ++ (b' ' ∷ l))
op-IsLine {op} l h (e, b) fits = record {
  starts = StartsPlain-token op (b' ' ∷ l) h.token;
  ends = EndsPlain-append op (b' ' ∷ l) (EndsPlain-append (b' ' ∷ []) l e);
  bytes = All-append IsLineByte op (b' ' ∷ l) h.bytes (blank-IsLineByte, b);
  short = omega (arith, length-append op (b' ' ∷ l), fits);
}

pub name-IsOperand : (op : Mnemonic) → IsOperand (name op)
name-IsOperand op = record { token = name-IsToken op; bytes = name-IsLineByte op }

pub li-IsOperand : IsOperand (codes "li")
li-IsOperand = record {
  token = record {
    plain = letters-IsPlain (codes "li") (refl, (refl, tt));
    filled = refl;
    short = omega arith;
  };
  bytes = letters-IsLineByte (codes "li") (refl, (refl, tt));
}

pub mv-IsOperand : IsOperand (codes "mv")
mv-IsOperand = record {
  token = record {
    plain = letters-IsPlain (codes "mv") (refl, (refl, tt));
    filled = refl;
    short = omega arith;
  };
  bytes = letters-IsLineByte (codes "mv") (refl, (refl, tt));
}

-- What such a line does not have in it.
Lacks-of :
    (x : ℕ) (l : List ℕ)
    → ((c : ℕ) → IsLineByte c → (c == x) ≡ false)
    → All IsLineByte l
    → Lacks x l
Lacks-of x [] f h = tt
Lacks-of x (c ∷ l) f (p, ps) = (f c p, Lacks-of x l f ps)

pub Lacks-hash : (l : List ℕ) → All IsLineByte l → Lacks b'#' l
Lacks-hash l = Lacks-of b'#' l (λ c p. p.no_hash)

pub Lacks-colon : (l : List ℕ) → All IsLineByte l → Lacks b':' l
Lacks-colon l = Lacks-of b':' l (λ c p. p.no_colon)

pub Lacks-open : (l : List ℕ) → All IsLineByte l → Lacks b'(' l
Lacks-open l = Lacks-of b'(' l (λ c p. p.no_open)

pub Lacks-newline : (l : List ℕ) → All IsLineByte l → Lacks 10 l
Lacks-newline l = Lacks-of 10 l (λ c p. p.no_newline)

-- No directive is in it.
pub contains-no_dot : (part l : List ℕ) → All IsLineByte l → contains (b'.' ∷ part) l ≡ false
unfolding contains starts_with
contains-no_dot part [] h = refl
contains-no_dot part (c ∷ l) (p, ps) =
    let other : (b'.' == c) ≡ false = ground (arith, p.no_dot) in
    rw (other, contains-no_dot part l ps) refl
