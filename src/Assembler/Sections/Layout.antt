-- ===== src/Assembler/Sections/Layout.antt =====
-- assembler/src/adjust_labels.cpp: where the sections and the labels come to lie.
use riscv_student_pack.Common.{
  ℕ, ◌+◌, ◌^◌, ◌<◌, ◌≡◌, refl, sym, ap, ◌∙◌, Bool, true, false, List, [], ◌∷◌, Option, none, some,
  if◌then◌else◌, codes, arith, Bool-cases, inl, inr,
}
use mathlib.Core.Path.{subst}
use riscv_student_pack.Assembler.Chars.{str_eq, str_eq→eq, str_eq_refl}
use riscv_student_pack.Assembler.Sections.{
  SectionInfo, Sections, get_section_type, starts_with, find_section, placed_first, place,
  is_custom, place_sections, insert_section, comes_before, switch_section, found_or_inserted,
  new_section,
}
use riscv_student_pack.Assembler.Sections.Places.{
  rebase, size_of, IsPlain, rebase-IsPlain, place_custom-IsPlain, placed_first-base,
  placed_first-same, placed_first-other, place-base, place-same, place-other,
}

-- Every section has the type that its name says.
pub record TypesFit (t : Sections) : Type 0 where
  pub type_of_name :
      (n : List ℕ) (s : SectionInfo) → find_section n t ≡ some s → s.type ≡ get_section_type n

TypesFit-IsPlain :
    (t : Sections) (n : List ℕ)
    → TypesFit t
    → is_custom (get_section_type n) ≡ false
    → (o : Option SectionInfo) → find_section n t ≡ o
    → IsPlain o
TypesFit-IsPlain t n h plain none e = tt
TypesFit-IsPlain t n h plain (some s) e = ap is_custom (h.type_of_name n s e) ∙ plain

module _ (t : Sections) where
  abbrev pub text_size : ℕ
  text_size = size_of (find_section (codes ".text") t)

  abbrev pub rodata_size : ℕ
  rodata_size = size_of (find_section (codes ".rodata") t)

  abbrev pub data_size : ℕ
  data_size = size_of (find_section (codes ".data") t)

  abbrev pub bss_size : ℕ
  bss_size = size_of (find_section (codes ".bss") t)

-- The standard sections of `t'` lie one behind the other, in the order `.text`, `.rodata`,
-- `.data`, `.bss`, and are otherwise those of `t`.
pub record IsLaidOut (t t' : Sections) : Type 0 where
  pub text_at : find_section (codes ".text") t' ≡ rebase 0 (find_section (codes ".text") t)
  pub rodata_at :
      find_section (codes ".rodata") t' ≡ rebase (text_size t) (find_section (codes ".rodata") t)
  pub data_at :
      find_section (codes ".data") t'
      ≡ rebase (text_size t + rodata_size t) (find_section (codes ".data") t)
  pub bss_at :
      find_section (codes ".bss") t'
      ≡ rebase (text_size t + rodata_size t + data_size t) (find_section (codes ".bss") t)

module _ (t : Sections) (typed : TypesFit t)
    (fits : text_size t + rodata_size t + data_size t + bss_size t < 2 ^ 32) where
  p1 : ℕ × Sections
  p1 = placed_first (codes ".text") t (find_section (codes ".text") t)

  p2 : ℕ × Sections
  p2 = place (codes ".rodata") p1

  p3 : ℕ × Sections
  p3 = place (codes ".data") p2

  p4 : ℕ × Sections
  p4 = place (codes ".bss") p3

  first_other :
      (n : List ℕ) → str_eq (codes ".text") n ≡ false → find_section n p1.1 ≡ find_section n t
  unfolding p1
  first_other n h = placed_first-other n (codes ".text") t _ h

  base1 : p1.0 ≡ text_size t
  unfolding p1
  base1 = placed_first-base (codes ".text") t (find_section (codes ".text") t)

  base2 : p2.0 ≡ text_size t + rodata_size t
  unfolding p2 str_eq
  base2 =
      place-base (codes ".rodata") p1 (first_other (codes ".rodata") refl)
        (omega (arith, base1, fits))
      ∙ ap (λ b. b + rodata_size t) base1

  base3 : p3.0 ≡ text_size t + rodata_size t + data_size t
  unfolding p3 p2 str_eq
  base3 =
      place-base (codes ".data") p2
        (place-other (codes ".data") (codes ".rodata") p1 refl (first_other (codes ".data") refl))
        (omega (arith, base2, fits))
      ∙ ap (λ b. b + data_size t) base2

  plain_at :
      (n : List ℕ) (b : ℕ)
      → is_custom (get_section_type n) ≡ false
      → find_section n p4.1 ≡ rebase b (find_section n t)
      → find_section n (place_sections t) ≡ rebase b (find_section n t)
  unfolding p4 p3 p2 p1 place_sections
  plain_at n b plain e =
      place_custom-IsPlain n p4.0 p4.1
        (subst IsPlain (sym e) (rebase-IsPlain b _ (TypesFit-IsPlain t n typed plain _ refl)))
      ∙ e

  -- If every section has the type of its name and the sizes of the four standard sections together
  -- fit 32 bits, `adjust_labels` puts them one behind the other from address 0 on, in the order
  -- `.text`, `.rodata`, `.data`, `.bss`, and changes nothing else of them; a missing section takes
  -- no room.
  pub place_sections-IsLaidOut : IsLaidOut t (place_sections t)
  unfolding p4 p3 p2 p1 str_eq get_section_type starts_with
  place_sections-IsLaidOut = record {
    text_at = plain_at (codes ".text") 0 refl (
        place-other (codes ".text") (codes ".bss") p3 refl (
          place-other (codes ".text") (codes ".data") p2 refl (
            place-other (codes ".text") (codes ".rodata") p1 refl
              (placed_first-same (codes ".text") t _ refl))));
    rodata_at = plain_at (codes ".rodata") (text_size t) refl (
        place-other (codes ".rodata") (codes ".bss") p3 refl (
          place-other (codes ".rodata") (codes ".data") p2 refl
            (place-same (codes ".rodata") p1 (first_other (codes ".rodata") refl) base1)));
    data_at = plain_at (codes ".data") (text_size t + rodata_size t) refl (
        place-other (codes ".data") (codes ".bss") p3 refl (
          place-same (codes ".data") p2
            (place-other (codes ".data") (codes ".rodata") p1 refl
              (first_other (codes ".data") refl))
            base2));
    bss_at = plain_at (codes ".bss") (text_size t + rodata_size t + data_size t) refl (
        place-same (codes ".bss") p3
          (place-other (codes ".bss") (codes ".data") p2 refl (
            place-other (codes ".bss") (codes ".rodata") p1 refl (first_other (codes ".bss") refl)))
          base3);
  }

-- If every section has the type of its name, `adjust_labels` leaves a section where it is whose
-- name is none of the four standard names, but has the type of one, as `.data.x` has.
pub place_sections-unplaced :
    (t : Sections) (n : List ℕ)
    → TypesFit t
    → is_custom (get_section_type n) ≡ false
    → str_eq (codes ".text") n ≡ false
    → str_eq (codes ".rodata") n ≡ false
    → str_eq (codes ".data") n ≡ false
    → str_eq (codes ".bss") n ≡ false
    → find_section n (place_sections t) ≡ find_section n t
unfolding place_sections
place_sections-unplaced t n typed plain h1 h2 h3 h4 =
    let first = placed_first (codes ".text") t (find_section (codes ".text") t) in
    let second = place (codes ".rodata") first in
    let third = place (codes ".data") second in
    let fourth = place (codes ".bss") third in
    let e : find_section n fourth.1 ≡ find_section n t = place-other n (codes ".bss") third h4 (
      place-other n (codes ".data") second h3 (
        place-other n (codes ".rodata") first h2
          (placed_first-other n (codes ".text") t (find_section (codes ".text") t) h1))) in
    place_custom-IsPlain n fourth.0 fourth.1
      (subst IsPlain (sym e) (TypesFit-IsPlain t n typed plain (find_section n t) refl))
    ∙ e

other_key : (key k n : List ℕ) → str_eq key n ≡ true → str_eq key k ≡ false → str_eq k n ≡ false
other_key key k n e h = elim (Bool-cases (str_eq k n)) [
  | inl g ↦
      let same : key ≡ k = str_eq→eq key n e ∙ sym (str_eq→eq k n g) in
      cc (ap (str_eq key) same, str_eq_refl key)
  | inr g ↦ g
]

-- What the table holds behind an entry of another key.
behind :
    (key k : List ℕ) (s : SectionInfo) (rest : Sections)
    → find_section k ((key, s) ∷ rest) ≡ none
    → (str_eq key k ≡ false) × (find_section k rest ≡ none)
unfolding find_section
behind key k s rest h = elim (Bool-cases (str_eq key k)) [ inl e ↦ cc | inr e ↦ (e, cc) ]

pub find_section-insert_section :
    (n k : List ℕ) (info : SectionInfo) (t : Sections)
    → find_section k t ≡ none
    → find_section n (insert_section k info t)
      ≡ (if str_eq k n then some info else find_section n t)
unfolding find_section insert_section
find_section-insert_section n k info [] h = refl
find_section-insert_section n k info ((key, s) ∷ rest) h =
    let (other, absent) = behind key k s rest h in
    elim (Bool-cases (comes_before k key)) [
      | inl c ↦ rw c refl
      | inr c ↦ rw c (elim (Bool-cases (str_eq key n)) [
        | inl e ↦ rw (e, other_key key k n e other) refl
        | inr e ↦ rw e (find_section-insert_section n k info rest absent)
      ])
    ]

found_or_inserted-TypesFit :
    (name : List ℕ) (t : Sections) (o : Option SectionInfo)
    → TypesFit t
    → find_section name t ≡ o
    → TypesFit (found_or_inserted name t o)
found_or_inserted-TypesFit name t (some s) h e = h
found_or_inserted-TypesFit name t none h e = record {
  type_of_name = λ n s found.
      let choice : Bool → Option SectionInfo =
        λ b. if b then some (new_section name) else find_section n t in
      let inserted : choice (str_eq name n) ≡ some s =
        sym (find_section-insert_section n name (new_section name) t e) ∙ found in
      elim (Bool-cases (str_eq name n)) [
        | inl same ↦
            let taken : some (new_section name) ≡ some s = sym (ap choice same) ∙ inserted in
            let it : new_section name ≡ s = cc in
            ap (λ (i : SectionInfo). i.type) (sym it) ∙ ap get_section_type (str_eq→eq name n same)
        | inr other ↦ h.type_of_name n s (sym (ap choice other) ∙ inserted)
      ];
}

-- If every section of the table has the type of its name, so has every section after
-- `switch_section`.
pub switch_section-TypesFit :
    (name : List ℕ) (t : Sections) → TypesFit t → TypesFit (switch_section name t).1
unfolding switch_section
switch_section-TypesFit name t h = found_or_inserted-TypesFit name t (find_section name t) h refl
