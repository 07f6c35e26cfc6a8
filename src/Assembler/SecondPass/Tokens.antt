-- ===== src/Assembler/SecondPass/Tokens.antt =====
-- assembler/src/second_pass.cpp: how `parse_instruction_args` takes a line of clean operands apart.
use riscv_student_pack.Common.{
  ℕ, zero, suc, ◌≤◌, ◌<◌, ◌≡◌, refl, ap, ◌∙◌, true, false, List, [], ◌∷◌, ◌++◌, none, some, ◌==◌,
  take, length, All, arith,
}
use riscv_student_pack.Assembler.Chars.{
  is_space, is_empty, skip_spaces, drop_trailing, trim_end, trim,
}
use riscv_student_pack.Assembler.Text.{split_at, cut_at, trim_in_place}

-- A byte that separates nothing.
pub record IsPlain (c : ℕ) : Type 0 where
  pub no_space : is_space c ≡ false
  pub no_blank : (c == b' ') ≡ false
  pub no_comma : (c == b',') ≡ false
  pub no_hash : (c == b'#') ≡ false

-- An operand of such bytes that fits its buffer.
pub record IsToken (s : List ℕ) : Type 0 where
  pub plain : All IsPlain s
  pub filled : is_empty s ≡ false
  pub short : length s < 32

-- The byte `x` does not occur.
abbrev pub Lacks : ℕ → List ℕ → Type 0
Lacks x s = All (λ c. (c == x) ≡ false) s

pub no_commas : (s : List ℕ) → All IsPlain s → Lacks b',' s
no_commas [] h = tt
no_commas (c ∷ s) (p, ps) = (p.no_comma, no_commas s ps)

pub no_blanks : (s : List ℕ) → All IsPlain s → Lacks b' ' s
no_blanks [] h = tt
no_blanks (c ∷ s) (p, ps) = (p.no_blank, no_blanks s ps)

pub no_hashes : (s : List ℕ) → All IsPlain s → Lacks b'#' s
no_hashes [] h = tt
no_hashes (c ∷ s) (p, ps) = (p.no_hash, no_hashes s ps)

pub Lacks-append : (x : ℕ) (s t : List ℕ) → Lacks x s → Lacks x t → Lacks x (s ++ t)
Lacks-append x [] t h k = k
Lacks-append x (c ∷ s) t (e, h) k = (e, Lacks-append x s t h k)

pub split_at-Lacks : (x : ℕ) (s : List ℕ) → Lacks x s → split_at x s ≡ none
unfolding split_at
split_at-Lacks x [] h = refl
split_at-Lacks x (c ∷ s) (e, h) = rw (e, split_at-Lacks x s h) refl

pub split_at-found : (x : ℕ) (s t : List ℕ) → Lacks x s → split_at x (s ++ (x ∷ t)) ≡ some (s, t)
unfolding split_at
split_at-found x [] t h = let e : (x == x) ≡ true = ground arith in rw e refl
split_at-found x (c ∷ s) t (e, h) = rw (e, split_at-found x s t h) refl

pub cut_at-Lacks : (x : ℕ) (s : List ℕ) → Lacks x s → cut_at x s ≡ s
unfolding cut_at
cut_at-Lacks x s h = rw (split_at-Lacks x s h) refl

pub cut_at-found : (x : ℕ) (s t : List ℕ) → Lacks x s → cut_at x (s ++ (x ∷ t)) ≡ s
unfolding cut_at
cut_at-found x s t h = rw (split_at-found x s t h) refl

pub take_all : (n : ℕ) (s : List ℕ) → length s ≤ n → take n s ≡ s
take_all zero [] h = refl
take_all (suc n) [] h = refl
take_all zero (c ∷ s) h = absurd (omega arith)
take_all (suc n) (c ∷ s) h = ap (λ (t : List ℕ). c ∷ t) (take_all n s (omega arith))

-- The text ends with a byte that is no space.
abbrev pub EndsPlain : List ℕ → Type 0
EndsPlain [] = ⊥
EndsPlain (c ∷ []) = is_space c ≡ false
EndsPlain (c ∷ d ∷ s) = EndsPlain (d ∷ s)

pub drop_trailing-EndsPlain : (s : List ℕ) → EndsPlain s → drop_trailing s ≡ s
unfolding drop_trailing
drop_trailing-EndsPlain [] h = refl
drop_trailing-EndsPlain (c ∷ []) h = rw h refl
drop_trailing-EndsPlain (c ∷ d ∷ s) h = rw (drop_trailing-EndsPlain (d ∷ s) h) (ground arith)

pub EndsPlain-token : (s : List ℕ) → All IsPlain s → is_empty s ≡ false → EndsPlain s
EndsPlain-token [] h f = cc
EndsPlain-token (c ∷ []) (p, ps) f = p.no_space
EndsPlain-token (c ∷ d ∷ s) (p, ps) f = EndsPlain-token (d ∷ s) ps refl

pub EndsPlain-append : (s t : List ℕ) → EndsPlain t → EndsPlain (s ++ t)
EndsPlain-append [] t h = h
EndsPlain-append (c ∷ []) [] h = absurd h
EndsPlain-append (c ∷ []) (d ∷ t) h = h
EndsPlain-append (c ∷ d ∷ s) t h = EndsPlain-append (d ∷ s) t h

-- The text begins with a byte that is no space.
abbrev pub StartsPlain : List ℕ → Type 0
StartsPlain [] = ⊥
StartsPlain (c ∷ s) = is_space c ≡ false

pub StartsPlain-token : (s t : List ℕ) → IsToken s → StartsPlain (s ++ t)
StartsPlain-token [] t h = absurd (cc (h.filled))
StartsPlain-token (c ∷ s) t h = h.plain.0.no_space

pub StartsPlain-alone : (s : List ℕ) → IsToken s → StartsPlain s
StartsPlain-alone [] h = absurd (cc (h.filled))
StartsPlain-alone (c ∷ s) h = h.plain.0.no_space

pub skip_spaces-StartsPlain : (s : List ℕ) → StartsPlain s → skip_spaces s ≡ s
unfolding skip_spaces
skip_spaces-StartsPlain [] h = refl
skip_spaces-StartsPlain (c ∷ s) h = rw h refl

trim_end-EndsPlain : (s : List ℕ) → EndsPlain s → trim_end s ≡ s
unfolding drop_trailing
trim_end-EndsPlain [] h = refl
trim_end-EndsPlain (c ∷ []) h = refl
trim_end-EndsPlain (c ∷ d ∷ s) h = ap (λ (t : List ℕ). c ∷ t) (drop_trailing-EndsPlain (d ∷ s) h)

pub trim-plain : (s : List ℕ) → StartsPlain s → EndsPlain s → trim s ≡ s
unfolding trim
trim-plain s h k = ap trim_end (skip_spaces-StartsPlain s h) ∙ trim_end-EndsPlain s k

-- A blank at the front is trimmed off.
pub trim-blank : (s : List ℕ) → StartsPlain s → EndsPlain s → trim (b' ' ∷ s) ≡ s
unfolding trim skip_spaces
trim-blank s h k = ap trim_end (skip_spaces-StartsPlain s h) ∙ trim_end-EndsPlain s k

pub trim_in_place-plain : (s : List ℕ) → StartsPlain s → EndsPlain s → trim_in_place s ≡ s
unfolding trim_in_place
trim_in_place-plain [] h k = refl
trim_in_place-plain (c ∷ s) h k = rw h (trim_end-EndsPlain (c ∷ s) k)
