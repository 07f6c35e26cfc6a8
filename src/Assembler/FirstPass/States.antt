-- ===== src/Assembler/FirstPass/States.antt =====
-- assembler/src/first_pass.cpp: the invariant of its state, and the steps that only count or change
-- the section.
use riscv_student_pack.Common.{
  ℕ, ◌≡◌, refl, sym, ap, ◌∙◌, Bool, false, List, [], ◌∷◌, Option, none, some, if◌then◌else◌, codes,
  add32, All, Bool-cases, inl, inr,
}
use mathlib.Core.Path.{subst}
use riscv_student_pack.Assembler.Chars.{str_eq, str_eq→eq}
use riscv_student_pack.Assembler.Immediates.{Label}
use riscv_student_pack.Assembler.Sections.{
  SectionInfo, Sections, find_section, starts_with, switch_section, get_section_type,
}
use riscv_student_pack.Assembler.Sections.Layout.{TypesFit, switch_section-TypesFit}
use riscv_student_pack.Assembler.State.{
  Assembler, new_assembler, standard_sections, current_or_custom, get_current_section, grow_current,
}
use riscv_student_pack.Assembler.FirstPass.{
  grow_text, grow_data, grow_space, enter_section, touch_current,
}
use riscv_student_pack.Assembler.FirstPass.Tables.{
  Has, SameTypes, type_of, is_some, Has-SameTypes, TypesFit-SameTypes, SameTypes-add_offset,
  switch_section-Has, switch_section-Has_new,
}

-- No label has the name of an earlier one.
abbrev pub Distinct : List Label → Type 0
Distinct [] = Unit {0}
Distinct (l ∷ ls) = All (λ (k : Label). str_eq k.name l.name ≡ false) ls × Distinct ls

-- Every section has the type of its name, the current one is in the table, no two labels have one
-- name, and the section of every label is in the table.
pub record IsAssembler (a : Assembler) : Type 0 where
  pub typed : TypesFit a.sections
  pub current_known : Has a.sections a.current_section_name
  pub distinct : Distinct a.labels
  pub labels_known : All (λ (l : Label). Has a.sections l.section_name) a.labels

-- The labels, the current section and the types of the sections are those of `a`.
record IsLike (a a' : Assembler) : Type 0 where
  labels_same : a'.labels ≡ a.labels
  current_same : a'.current_section_name ≡ a.current_section_name
  types_same : SameTypes a.sections a'.sections

pub Has-labels :
    (t t' : Sections)
    → ((n : List ℕ) → Has t n → Has t' n)
    → (ls : List Label) → All (λ (l : Label). Has t l.section_name) ls
    → All (λ (l : Label). Has t' l.section_name) ls
Has-labels t t' f [] h = tt
Has-labels t t' f (l ∷ ls) (p, ps) = (f l.section_name p, Has-labels t t' f ls ps)

IsLike-IsAssembler : {a a' : Assembler} → IsLike a a' → IsAssembler a → IsAssembler a'
IsLike-IsAssembler {a} {a'} e h = record {
  typed = TypesFit-SameTypes a.sections a'.sections e.types_same h.typed;
  current_known =
      subst (Has a'.sections) (sym e.current_same)
        (Has-SameTypes a.sections a'.sections a.current_section_name e.types_same h.current_known);
  distinct = subst Distinct (sym e.labels_same) h.distinct;
  labels_known = subst (All (λ (l : Label). Has a'.sections l.section_name)) (sym e.labels_same) (
      Has-labels a.sections a'.sections (λ n. Has-SameTypes a.sections a'.sections n e.types_same)
        a.labels h.labels_known);
}

-- The table does not change when its section is there.
known_unchanged :
    (name : List ℕ) (t : Sections) (o : Option SectionInfo)
    → find_section name t ≡ o
    → Has t name
    → (current_or_custom name t o).1 ≡ t
known_unchanged name t (some s) e h = refl
known_unchanged name t none e h = cc (ap (λ (o : Option SectionInfo). is_some (type_of o)) e, h)

pub get_current_section-unchanged :
    {a : Assembler} → IsAssembler a → (get_current_section a).1 ≡ a.sections
unfolding get_current_section
get_current_section-unchanged {a} h =
    known_unchanged a.current_section_name a.sections
      (find_section a.current_section_name a.sections) refl h.current_known

grow_current-IsLike : (size : ℕ) {a : Assembler} → IsAssembler a → IsLike a (grow_current size a)
unfolding grow_current
grow_current-IsLike size {a} h = record {
  labels_same = refl;
  current_same = refl;
  types_same = λ n.
      SameTypes-add_offset a.current_section_name size (get_current_section a).1 n
      ∙ ap (λ (t : Sections). type_of (find_section n t)) (get_current_section-unchanged h);
}

pub touch_current-IsAssembler : {a : Assembler} → IsAssembler a → IsAssembler (touch_current a)
touch_current-IsAssembler {a} h =
    IsLike-IsAssembler
      (record {
        labels_same = refl;
        current_same = refl;
        types_same = λ n.
            ap (λ (t : Sections). type_of (find_section n t)) (get_current_section-unchanged h);
      })
      h

-- The counters are no part of the invariant.
with_text : {a : Assembler} (v : ℕ) → IsAssembler a → IsAssembler (record a { pc_text = v })
with_text v h = record {
  typed = h.typed;
  current_known = h.current_known;
  distinct = h.distinct;
  labels_known = h.labels_known;
}

with_data : {a : Assembler} (v : ℕ) → IsAssembler a → IsAssembler (record a { pc_data = v })
with_data v h = record {
  typed = h.typed;
  current_known = h.current_known;
  distinct = h.distinct;
  labels_known = h.labels_known;
}

pub grow_text-IsAssembler :
    (size : ℕ) {a : Assembler} → IsAssembler a → IsAssembler (grow_text size a)
unfolding grow_text
grow_text-IsAssembler size {a} h =
    let grown = IsLike-IsAssembler (grow_current-IsLike size h) h in
    elim (Bool-cases (str_eq a.current_section_name (codes ".text"))) [
      | inl e ↦ rw e (with_text (add32 a.pc_text size) grown)
      | inr e ↦ rw e grown
    ]

pub grow_data-IsAssembler :
    (size : ℕ) {a : Assembler} → IsAssembler a → IsAssembler (grow_data size a)
unfolding grow_data
grow_data-IsAssembler size {a} h =
    let grown = IsLike-IsAssembler (grow_current-IsLike size h) h in
    elim (Bool-cases (str_eq a.current_section_name (codes ".data"))) [
      | inl e ↦ rw e (with_data (add32 a.pc_data size) grown)
      | inr e ↦ rw e grown
    ]

pub grow_space-IsAssembler :
    (o : Option ℕ) {a : Assembler} → IsAssembler a → IsAssembler (grow_space o a)
grow_space-IsAssembler none h = h
grow_space-IsAssembler (some size) h = grow_data-IsAssembler size h

pub enter_section-IsAssembler :
    (name : List ℕ) {a : Assembler} → IsAssembler a → IsAssembler (enter_section name a)
unfolding enter_section switch_section
enter_section-IsAssembler name {a} h = record {
  typed = switch_section-TypesFit name a.sections h.typed;
  current_known = switch_section-Has_new name a.sections;
  distinct = h.distinct;
  labels_known =
      Has-labels a.sections (switch_section name a.sections).1
        (λ n. switch_section-Has name n a.sections) a.labels h.labels_known;
}

TypesFit-entry :
    {t : Sections} (key : List ℕ) (info : SectionInfo)
    → info.type ≡ get_section_type key
    → TypesFit t
    → TypesFit ((key, info) ∷ t)
unfolding find_section
TypesFit-entry {t} key info e h = record {
  type_of_name = λ n s found.
      let choice : Bool → Option SectionInfo = λ b. if b then some info else find_section n t in
      elim (Bool-cases (str_eq key n)) [
        | inl same ↦
            let it : some info ≡ some s = sym (ap choice same) ∙ found in
            cc (it, e, ap get_section_type (str_eq→eq key n same))
        | inr other ↦ h.type_of_name n s (sym (ap choice other) ∙ found)
      ];
}

TypesFit-none : TypesFit []
unfolding find_section
TypesFit-none = record { type_of_name = λ n s found. cc }

new_assembler-TypesFit : TypesFit standard_sections
unfolding get_section_type str_eq starts_with
new_assembler-TypesFit = TypesFit-entry (codes ".bss") _ refl (
    TypesFit-entry (codes ".data") _ refl (
      TypesFit-entry (codes ".rodata") _ refl
        (TypesFit-entry (codes ".text") _ refl TypesFit-none)))

-- The invariant holds of a new assembler.
pub new_assembler-IsAssembler : IsAssembler new_assembler
unfolding new_assembler find_section str_eq
new_assembler-IsAssembler = record {
  typed = new_assembler-TypesFit;
  current_known = refl;
  distinct = tt;
  labels_known = tt;
}
