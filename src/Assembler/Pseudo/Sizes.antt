-- ===== src/Assembler/Pseudo/Sizes.antt =====
-- The sizes of the first pass (`pseudoinstruction_size`, assembler/src/first_pass.cpp) against the
-- lines of the second (assembler/src/expand_pseudoinstruction.cpp).
use riscv_student_pack.Common.{
  ℕ, ◌≡◌, ◌⊎◌, refl, sym, Bool, true, false, ◌||◌, List, [], ◌∷◌, Option, none, some, ◌==◌, codes,
  length, get_or, ltb, leb, sub32, ◌&&◌, ◌-◌, ◌^◌, arith, Bool-cases, inl, inr,
}
use mathlib.Core.Path.{subst}
use riscv_student_pack.Assembler.Chars.{str_eq, str_eq→eq, is_digit, head_or_nul}
use riscv_student_pack.Assembler.Immediates.{Label, find_label, parse_imm}
use riscv_student_pack.Assembler.Outcome.{
  Outcome, ok, exited, undefined, unfinished, or_exit, ◌>>=◌,
}
use riscv_student_pack.Assembler.Pseudo.{
  is_small, built, expand_li, expand_pseudoinstruction, small_size, li_size, pseudoinstruction_size,
  is_pseudoinstruction,
}

-- The operand begins with a digit, perhaps behind a minus sign: a number to both passes.
abbrev pub is_number : List ℕ → Bool
is_number s = is_digit (get_or s 0 0) || get_or s 0 0 == b'-' && is_digit (get_or s 1 0)

parse_imm-is_number :
    (labels labels' : List Label) (s : List ℕ)
    → is_number s ≡ true
    → parse_imm labels s ≡ parse_imm labels' s
unfolding parse_imm
parse_imm-is_number labels labels' s h = rw h refl

looks_numeric :
    (s : List ℕ) → is_number s ≡ true → (is_digit (head_or_nul s) || head_or_nul s == b'-') ≡ true
looks_numeric [] h = cc
looks_numeric (c ∷ s) h = ground (arith, h)

-- The lines of a run are as many as the first pass has counted, which has counted some for a
-- pseudoinstruction only.
abbrev pub Agree : Option ℕ → Bool → Outcome (List (List ℕ)) → Type 0
Agree none pseudo o = Unit {0}
Agree (some n) pseudo (ok ls) = (length ls ≡ n) × (ltb 0 n ≡ pseudo)
Agree (some n) pseudo exited = ltb 0 n ≡ pseudo
Agree (some n) pseudo undefined = ltb 0 n ≡ pseudo
Agree (some n) pseudo unfinished = ⊥

Agree-built : (op a1 : List ℕ) (v : ℕ) → Agree (some 2) true (built op a1 v)
Agree-built op a1 v = elim (Bool-cases (leb (2 ^ 31 - 2048) v && ltb v (2 ^ 31))) [
  | inl e ↦ rw e refl
  | inr e ↦ rw e (refl, refl)
]

Agree-li : (a1 : List ℕ) (o : Option ℕ) → Agree (small_size o) true (or_exit o >>= expand_li a1)
Agree-li a1 none = tt
Agree-li a1 (some v) = elim (Bool-cases (is_small v)) [
  | inl e ↦ rw e (refl, refl)
  | inr e ↦ rw e (Agree-built (codes "lui") a1 v)
]

Agree-la :
    (a1 : List ℕ) (pc : ℕ) (o : Option ℕ)
    → Agree (some 2) true (or_exit o >>= (λ target. built (codes "auipc") a1 (sub32 target pc)))
Agree-la a1 pc none = refl
Agree-la a1 pc (some target) = Agree-built (codes "auipc") a1 (sub32 target pc)

Agree-li_size :
    (labels labels' : List Label) (a1 a2 : List ℕ)
    → is_number a2 ≡ true
    → Agree (li_size labels a2) true (or_exit (parse_imm labels' a2) >>= expand_li a1)
Agree-li_size labels labels' a1 a2 h =
    rw (looks_numeric a2 h, parse_imm-is_number labels labels' a2 h)
      (Agree-li a1 (parse_imm labels' a2))

module _ (labels labels' : List Label) (a1 a2 : List ℕ) (pc : ℕ) where
  abbrev AgreesFor : List ℕ → Type 0
  AgreesFor op =
      Agree (pseudoinstruction_size labels op a2) (is_pseudoinstruction op)
        (expand_pseudoinstruction labels' op a1 a2 pc)

  is_that : (op name : List ℕ) → str_eq op name ≡ true → AgreesFor name → AgreesFor op
  is_that op name e h = subst AgreesFor (sym (str_eq→eq op name e)) h

  Agree-plain :
      AgreesFor (codes "nop")
      × (AgreesFor (codes "mv")
          × (AgreesFor (codes "call") × (AgreesFor (codes "ret") × AgreesFor (codes "j"))))
  unfolding pseudoinstruction_size is_pseudoinstruction expand_pseudoinstruction str_eq
  Agree-plain = ((refl, refl), ((refl, refl), ((refl, refl), ((refl, refl), (refl, refl)))))

  AgreesFor-la : AgreesFor (codes "la")
  unfolding pseudoinstruction_size is_pseudoinstruction expand_pseudoinstruction str_eq
  AgreesFor-la = Agree-la a1 pc (find_label labels' a2)

  AgreesFor-li : is_number a2 ≡ true → AgreesFor (codes "li")
  unfolding pseudoinstruction_size is_pseudoinstruction expand_pseudoinstruction str_eq
  AgreesFor-li h = Agree-li_size labels labels' a1 a2 h

  pub Agree-expand_pseudoinstruction :
      (op : List ℕ) → (str_eq op (codes "li") ≡ false) ⊎ (is_number a2 ≡ true) → AgreesFor op
  unfolding pseudoinstruction_size is_pseudoinstruction expand_pseudoinstruction
  Agree-expand_pseudoinstruction op h =
      let (nop, (mv, (call, (ret, j)))) = Agree-plain in
      elim (Bool-cases (str_eq op (codes "nop"))) [
        | inl e ↦ is_that op (codes "nop") e nop
        | inr e1 ↦ elim (Bool-cases (str_eq op (codes "mv"))) [
          | inl e ↦ is_that op (codes "mv") e mv
          | inr e2 ↦ elim (Bool-cases (str_eq op (codes "li"))) [
            | inl e ↦ elim h [
              | inl other ↦ cc
              | inr number ↦ is_that op (codes "li") e (AgreesFor-li number)
            ]
            | inr e3 ↦ elim (Bool-cases (str_eq op (codes "la"))) [
              | inl e ↦ is_that op (codes "la") e AgreesFor-la
              | inr e4 ↦ elim (Bool-cases (str_eq op (codes "call"))) [
                | inl e ↦ is_that op (codes "call") e call
                | inr e5 ↦ elim (Bool-cases (str_eq op (codes "ret"))) [
                  | inl e ↦ is_that op (codes "ret") e ret
                  | inr e6 ↦ elim (Bool-cases (str_eq op (codes "j"))) [
                    | inl e ↦ is_that op (codes "j") e j
                    | inr e7 ↦ rw (e1, e2, e3, e4, e5, e6, e7) (refl, refl)
                  ]
                ]
              ]
            ]
          ]
        ]
      ]
