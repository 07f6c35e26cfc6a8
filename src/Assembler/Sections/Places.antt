-- ===== src/Assembler/Sections/Places.antt =====
-- assembler/src/adjust_labels.cpp: what one step of the layout does to the table of sections.
use riscv_student_pack.Common.{
  ℕ, ◌+◌, ◌^◌, ◌<◌, ◌≡◌, refl, ap, ◌∙◌, Bool, false, ◌&&◌, List, [], ◌∷◌, Option, none, some, ◌==◌,
  if◌then◌else◌, add32, arith, Bool-cases, inl, inr,
}
use mathlib.Core.Path.{subst}
use riscv_student_pack.Assembler.Chars.{str_eq, str_eq→eq}
use riscv_student_pack.Assembler.Sections.{
  SectionInfo, Sections, find_section, set_base, placed_first, placed, place, place_custom,
  is_custom,
}

-- The section at a base address.
abbrev pub rebase : ℕ → Option SectionInfo → Option SectionInfo
rebase base none = none
rebase base (some s) = some (record s { base_addr = base })

-- The number of bytes in a section of the table, none if it is missing.
abbrev pub size_of : Option SectionInfo → ℕ
size_of none = 0
size_of (some s) = s.offset

pub size_of-rebase : (b : ℕ) (o : Option SectionInfo) → size_of (rebase b o) ≡ size_of o
size_of-rebase b none = refl
size_of-rebase b (some s) = refl

pub find_section-set_base_same :
    (n : List ℕ) (b : ℕ) (t : Sections)
    → find_section n (set_base n b t) ≡ rebase b (find_section n t)
unfolding find_section set_base
find_section-set_base_same n b [] = refl
find_section-set_base_same n b ((key, s) ∷ rest) = elim (Bool-cases (str_eq key n)) [
  | inl e ↦ rw e (rw e refl)
  | inr e ↦ rw e (rw e (find_section-set_base_same n b rest))
]

pub find_section-set_base_other :
    (n k : List ℕ) (b : ℕ) (t : Sections)
    → str_eq k n ≡ false
    → find_section n (set_base k b t) ≡ find_section n t
unfolding find_section set_base
find_section-set_base_other n k b [] h = refl
find_section-set_base_other n k b ((key, s) ∷ rest) h = elim (Bool-cases (str_eq key k)) [
  | inl e ↦
      let same : str_eq key n ≡ false = ap (λ x. str_eq x n) (str_eq→eq key k e) ∙ h in
      rw e (rw same refl)
  | inr e ↦ rw e (elim (Bool-cases (str_eq key n)) [
    | inl f ↦ rw f refl
    | inr f ↦ rw f (find_section-set_base_other n k b rest h)
  ])
]

-- A step leaves the other sections where they are.
pub placed-other :
    (n k : List ℕ) (base : ℕ) (t : Sections) (o : Option SectionInfo)
    → str_eq k n ≡ false
    → find_section n (placed k (base, t) o).1 ≡ find_section n t
placed-other n k base t none h = refl
placed-other n k base t (some s) h = find_section-set_base_other n k base t h

pub placed-same :
    (n : List ℕ) (base : ℕ) (t : Sections) (o : Option SectionInfo)
    → find_section n t ≡ o
    → find_section n (placed n (base, t) o).1 ≡ rebase base (find_section n t)
placed-same n base t none e = rw e refl
placed-same n base t (some s) e = find_section-set_base_same n base t

pub placed-base :
    (n : List ℕ) (base : ℕ) (t : Sections) (o : Option SectionInfo)
    → base + size_of o < 2 ^ 32
    → (placed n (base, t) o).0 ≡ base + size_of o
placed-base n base t none h = omega arith
placed-base n base t (some s) h = omega arith

abbrev pub IsPlain : Option SectionInfo → Type 0
IsPlain none = Unit
IsPlain (some s) = is_custom s.type ≡ false

-- The loop over the custom sections leaves the others where they are.
pub place_custom-IsPlain :
    (n : List ℕ) (base : ℕ) (t : Sections)
    → IsPlain (find_section n t)
    → find_section n (place_custom base t) ≡ find_section n t
unfolding find_section place_custom
place_custom-IsPlain n base [] h = refl
place_custom-IsPlain n base ((key, s) ∷ rest) h = elim (Bool-cases (str_eq key n)) [
  | inl e ↦
      let plain : is_custom s.type ≡ false =
        subst IsPlain (ap (λ (b : Bool). if b then some s else find_section n rest) e) h in
      rw (plain, e) refl
  | inr e ↦
      let later : IsPlain (find_section n rest) =
        subst IsPlain (ap (λ (b : Bool). if b then some s else find_section n rest) e) h in
      elim (Bool-cases (is_custom s.type && s.base_addr == 0)) [
        | inl f ↦ rw (f, e) (place_custom-IsPlain n (add32 base s.offset) rest later)
        | inr f ↦ rw (f, e) (place_custom-IsPlain n base rest later)
      ]
]

pub placed_first-base :
    (n : List ℕ) (t : Sections) (o : Option SectionInfo) → (placed_first n t o).0 ≡ size_of o
placed_first-base n t none = refl
placed_first-base n t (some s) = refl

pub placed_first-same :
    (n : List ℕ) (t : Sections) (o : Option SectionInfo)
    → find_section n t ≡ o
    → find_section n (placed_first n t o).1 ≡ rebase 0 (find_section n t)
placed_first-same n t none e = rw e refl
placed_first-same n t (some s) e = find_section-set_base_same n 0 t

pub placed_first-other :
    (n k : List ℕ) (t : Sections) (o : Option SectionInfo)
    → str_eq k n ≡ false
    → find_section n (placed_first k t o).1 ≡ find_section n t
placed_first-other n k t none h = refl
placed_first-other n k t (some s) h = find_section-set_base_other n k 0 t h

pub place-base :
    (n : List ℕ) (p : ℕ × Sections) {o : Option SectionInfo}
    → find_section n p.1 ≡ o
    → p.0 + size_of o < 2 ^ 32
    → (place n p).0 ≡ p.0 + size_of o
place-base n (base, t) {o} e h =
    ap (λ (q : Option SectionInfo). (placed n (base, t) q).0) e ∙ placed-base n base t o h

pub place-same :
    (n : List ℕ) (p : ℕ × Sections) {o : Option SectionInfo} {b : ℕ}
    → find_section n p.1 ≡ o
    → p.0 ≡ b
    → find_section n (place n p).1 ≡ rebase b o
place-same n (base, t) e f =
    placed-same n base t (find_section n t) refl ∙ (λ i. rebase (f i) (e i))

pub place-other :
    (n k : List ℕ) (p : ℕ × Sections) {o : Option SectionInfo}
    → str_eq k n ≡ false
    → find_section n p.1 ≡ o
    → find_section n (place k p).1 ≡ o
place-other n k (base, t) h e = placed-other n k base t (find_section k t) h ∙ e

pub rebase-IsPlain : (b : ℕ) (o : Option SectionInfo) → IsPlain o → IsPlain (rebase b o)
rebase-IsPlain b none h = tt
rebase-IsPlain b (some s) h = h
