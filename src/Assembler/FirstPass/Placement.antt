-- ===== src/Assembler/FirstPass/Placement.antt =====
-- assembler/src/main.cpp: the tables that the second pass reads, after `first_pass` and
-- `adjust_labels` (assembler/src/first_pass.cpp and assembler/src/adjust_labels.cpp).
use riscv_student_pack.Common.{
  ℕ, ◌+◌, ◌^◌, ◌<◌, ◌≡◌, refl, ap, List, [], ◌∷◌, map, Option, some, add32, All, Option-cases, inl,
  inr,
}
use mathlib.Core.Path.{subst}
use riscv_student_pack.Assembler.Immediates.{Label}
use riscv_student_pack.Assembler.Sections.{
  SectionInfo, Sections, find_section, adjust_label, adjust_labels, place_sections,
}
use riscv_student_pack.Assembler.Sections.Layout.{
  IsLaidOut, text_size, rodata_size, data_size, bss_size, place_sections-IsLaidOut,
}
use riscv_student_pack.Assembler.State.{Assembler, new_assembler}
use riscv_student_pack.Assembler.FirstPass.{first_pass}
use riscv_student_pack.Assembler.FirstPass.Tables.{
  Has, type_of, is_some, Has-SameTypes, SameTypes-place_sections,
}
use riscv_student_pack.Assembler.FirstPass.States.{IsAssembler, new_assembler-IsAssembler}
use riscv_student_pack.Assembler.FirstPass.Invariant.{
  ExitsOrKeeps, exits, keeps, first_pass-ExitsOrKeeps,
}
use riscv_student_pack.Assembler.Main.{adjusted}

-- The label `k` is `l`, moved to the place of its section.
pub record IsMoved (t : Sections) (l k : Label) : Type 0 where
  pub section : SectionInfo
  pub found : find_section l.section_name t ≡ some section
  pub moved : k.addr ≡ add32 l.addr section.base_addr
  pub same_name : k.name ≡ l.name

-- The same of two lists of labels, in order.
abbrev pub AreMoved : Sections → List Label → List Label → Type 0
AreMoved t [] [] = Unit {0}
AreMoved t (l ∷ ls) (k ∷ ks) = IsMoved t l k × AreMoved t ls ks
AreMoved t _ _ = ⊥

-- The standard sections of `b` are laid out with the sizes that `a` has counted, and its labels
-- are those of `a`, each at its section's place.
pub record IsPlaced (a b : Assembler) : Type 0 where
  pub laid_out : IsLaidOut a.sections b.sections
  pub labels_moved : AreMoved b.sections a.labels b.labels

adjust_label-IsMoved :
    (t : Sections) (l : Label) → Has t l.section_name → IsMoved t l (adjust_label t l)
adjust_label-IsMoved t l h = elim (Option-cases (find_section l.section_name t)) [
  | inl e ↦ cc (ap (λ (o : Option SectionInfo). is_some (type_of o)) e, h)
  | inr (s, e) ↦ record { section = s; found = e; moved = rw e refl; same_name = rw e refl }
]

map-AreMoved :
    (t t' : Sections)
    → ((n : List ℕ) → Has t n → Has t' n)
    → (ls : List Label) → All (λ (l : Label). Has t l.section_name) ls
    → AreMoved t' ls (map (adjust_label t') ls)
map-AreMoved t t' f [] h = tt
map-AreMoved t t' f (l ∷ ls) (p, ps) =
    (adjust_label-IsMoved t' l (f l.section_name p), map-AreMoved t t' f ls ps)

module _ {a : Assembler} (good : IsAssembler a) where
  adjusted-IsPlaced :
      text_size a.sections + rodata_size a.sections + data_size a.sections + bss_size a.sections
        < 2 ^ 32
      → IsPlaced a (adjusted a)
  unfolding adjusted adjust_labels
  adjusted-IsPlaced fits = record {
    laid_out = place_sections-IsLaidOut a.sections good.typed fits;
    labels_moved =
        map-AreMoved a.sections (place_sections a.sections)
          (λ n.
            Has-SameTypes a.sections (place_sections a.sections) n
              (SameTypes-place_sections a.sections))
          a.labels good.labels_known;
  }

kept : {o : Option Assembler} (a : Assembler) → ExitsOrKeeps o → o ≡ some a → IsAssembler a
kept a exits e = cc
kept a (keeps {a = b} h) e = subst IsAssembler (cc e) h

-- When the first pass of a new assembler returns for a file whose standard sections together fit
-- 32 bits, then after `adjust_labels` these sections lie one behind the other from address 0 on,
-- with the sizes that the pass has counted, and every label has kept its name and place in the
-- list and stands at its offset from the place of its section, which the table has.
pub first_pass-IsPlaced :
    (ls : List (List ℕ)) (a : Assembler)
    → first_pass ls new_assembler ≡ some a
    → text_size a.sections + rodata_size a.sections + data_size a.sections + bss_size a.sections
      < 2 ^ 32
    → IsPlaced a (adjusted a)
first_pass-IsPlaced ls a e fits =
    adjusted-IsPlaced (kept a (first_pass-ExitsOrKeeps ls new_assembler-IsAssembler) e) fits
