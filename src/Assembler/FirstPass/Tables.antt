-- ===== src/Assembler/FirstPass/Tables.antt =====
-- The table of sections under the operations of the first pass (assembler/src/first_pass.cpp and
-- assembler/src/utils.cpp): which sections it has, and of what type.
use riscv_student_pack.Common.{
  ℕ, ◌≡◌, refl, sym, ap, ◌∙◌, Bool, true, false, ◌&&◌, ◌==◌, List, [], ◌∷◌, Option, none, some,
  if◌then◌else◌, codes, add32, Bool-cases, Option-cases, inl, inr,
}
use riscv_student_pack.Assembler.Chars.{str_eq, str_eq_refl}
use riscv_student_pack.Assembler.Sections.{
  SectionType, SectionInfo, Sections, find_section, insert_section, found_or_inserted, new_section,
  switch_section, set_base, placed_first, placed, place, place_custom, is_custom, place_sections,
}
use riscv_student_pack.Assembler.Sections.Layout.{TypesFit, find_section-insert_section}
use riscv_student_pack.Assembler.State.{add_offset}

abbrev pub type_of : Option SectionInfo → Option SectionType
type_of none = none
type_of (some s) = some s.type

abbrev pub is_some : Option SectionType → Bool
is_some none = false
is_some (some x) = true

-- The type of the section of a name, `none` if there is none.
abbrev pub type_at : List ℕ → Sections → Option SectionType
type_at n t = type_of (find_section n t)

-- The table has a section of that name.
abbrev pub Has : Sections → List ℕ → Type 0
Has t n = is_some (type_at n t) ≡ true

abbrev pub SameTypes : Sections → Sections → Type 0
SameTypes t t' = (n : List ℕ) → type_at n t' ≡ type_at n t

pub Has-SameTypes : (t t' : Sections) (n : List ℕ) → SameTypes t t' → Has t n → Has t' n
Has-SameTypes t t' n e h = ap is_some (e n) ∙ h

pub TypesFit-SameTypes : (t t' : Sections) → SameTypes t t' → TypesFit t → TypesFit t'
TypesFit-SameTypes t t' e h = record {
  type_of_name = λ n s found. elim (Option-cases (find_section n t)) [
    | inl missing ↦ cc (e n, ap type_of found, ap type_of missing)
    | inr (s0, at) ↦
        let same : some s.type ≡ some s0.type = sym (ap type_of found) ∙ (e n ∙ ap type_of at) in
        cc (same, h.type_of_name n s0 at)
  ];
}

pub SameTypes-add_offset :
    (k : List ℕ) (size : ℕ) (t : Sections) → SameTypes t (add_offset k size t)
unfolding find_section add_offset
SameTypes-add_offset k size [] n = refl
SameTypes-add_offset k size ((key, s) ∷ rest) n = elim (Bool-cases (str_eq key k)) [
  | inl e ↦ rw e (elim (Bool-cases (str_eq key n)) [ inl f ↦ rw f refl | inr f ↦ rw f refl ])
  | inr e ↦ rw e (elim (Bool-cases (str_eq key n)) [
    | inl f ↦ rw f refl
    | inr f ↦ rw f (SameTypes-add_offset k size rest n)
  ])
]

-- The steps of `adjust_labels` change base addresses only.
SameTypes-set_base : (k : List ℕ) (base : ℕ) (t : Sections) → SameTypes t (set_base k base t)
unfolding find_section set_base
SameTypes-set_base k base [] n = refl
SameTypes-set_base k base ((key, s) ∷ rest) n = elim (Bool-cases (str_eq key k)) [
  | inl e ↦ rw e (elim (Bool-cases (str_eq key n)) [ inl f ↦ rw f refl | inr f ↦ rw f refl ])
  | inr e ↦ rw e (elim (Bool-cases (str_eq key n)) [
    | inl f ↦ rw f refl
    | inr f ↦ rw f (SameTypes-set_base k base rest n)
  ])
]

SameTypes-placed_first :
    (k : List ℕ) (t : Sections) (o : Option SectionInfo) → SameTypes t (placed_first k t o).1
SameTypes-placed_first k t none n = refl
SameTypes-placed_first k t (some s) n = SameTypes-set_base k 0 t n

SameTypes-placed :
    (k : List ℕ) (base : ℕ) (t : Sections) (o : Option SectionInfo)
    → SameTypes t (placed k (base, t) o).1
SameTypes-placed k base t none n = refl
SameTypes-placed k base t (some s) n = SameTypes-set_base k base t n

SameTypes-place : (k : List ℕ) (p : ℕ × Sections) → SameTypes p.1 (place k p).1
SameTypes-place k (base, t) = SameTypes-placed k base t (find_section k t)

SameTypes-place_custom : (base : ℕ) (t : Sections) → SameTypes t (place_custom base t)
unfolding find_section place_custom
SameTypes-place_custom base [] n = refl
SameTypes-place_custom base ((key, s) ∷ rest) n =
    elim (Bool-cases (is_custom s.type && s.base_addr == 0)) [
      | inl e ↦ rw e (elim (Bool-cases (str_eq key n)) [
        | inl f ↦ rw f refl
        | inr f ↦ rw f (SameTypes-place_custom (add32 base s.offset) rest n)
      ])
      | inr e ↦ rw e (elim (Bool-cases (str_eq key n)) [
        | inl f ↦ rw f refl
        | inr f ↦ rw f (SameTypes-place_custom base rest n)
      ])
    ]

pub SameTypes-place_sections : (t : Sections) → SameTypes t (place_sections t)
unfolding place_sections
SameTypes-place_sections t n =
    let p1 = placed_first (codes ".text") t (find_section (codes ".text") t) in
    let p2 = place (codes ".rodata") p1 in
    let p3 = place (codes ".data") p2 in
    let p4 = place (codes ".bss") p3 in
    SameTypes-place_custom p4.0 p4.1 n
    ∙ SameTypes-place (codes ".bss") p3 n
    ∙ SameTypes-place (codes ".data") p2 n
    ∙ SameTypes-place (codes ".rodata") p1 n
    ∙ SameTypes-placed_first (codes ".text") t (find_section (codes ".text") t) n

found_or_inserted-Has :
    (name n : List ℕ) (t : Sections) (o : Option SectionInfo)
    → find_section name t ≡ o
    → Has t n
    → Has (found_or_inserted name t o) n
found_or_inserted-Has name n t (some s) e h = h
found_or_inserted-Has name n t none e h =
    let choice : Bool → Option SectionInfo =
      λ b. if b then some (new_section name) else find_section n t in
    let at : find_section n (insert_section name (new_section name) t) ≡ choice (str_eq name n) =
      find_section-insert_section n name (new_section name) t e in
    elim (Bool-cases (str_eq name n)) [
      | inl same ↦ ap (λ (o : Option SectionInfo). is_some (type_of o)) (at ∙ ap choice same)
      | inr other ↦ ap (λ (o : Option SectionInfo). is_some (type_of o)) (at ∙ ap choice other) ∙ h
    ]

found_or_inserted-Has_new :
    (name : List ℕ) (t : Sections) (o : Option SectionInfo)
    → find_section name t ≡ o
    → Has (found_or_inserted name t o) name
found_or_inserted-Has_new name t (some s) e = ap (λ (o : Option SectionInfo). is_some (type_of o)) e
found_or_inserted-Has_new name t none e =
    let choice : Bool → Option SectionInfo =
      λ b. if b then some (new_section name) else find_section name t in
    ap (λ (o : Option SectionInfo). is_some (type_of o))
      (find_section-insert_section name name (new_section name) t e ∙ ap choice (str_eq_refl name))

pub switch_section-Has :
    (name n : List ℕ) (t : Sections) → Has t n → Has (switch_section name t).1 n
unfolding switch_section
switch_section-Has name n t h = found_or_inserted-Has name n t (find_section name t) refl h

pub switch_section-Has_new : (name : List ℕ) (t : Sections) → Has (switch_section name t).1 name
unfolding switch_section
switch_section-Has_new name t = found_or_inserted-Has_new name t (find_section name t) refl
