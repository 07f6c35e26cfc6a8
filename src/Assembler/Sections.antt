-- ===== src/Assembler/Sections.antt =====
-- The sections of the assembler: assembler/include/assembler.hpp, `get_section_type` and
-- `switch_section` (assembler/src/utils.cpp) and assembler/src/adjust_labels.cpp.
pub mod Places
pub mod Layout
use riscv_student_pack.Common.{
  ℕ, Bool, true, false, ◌||◌, ◌&&◌, List, [], ◌∷◌, map, Option, none, some, ltb, ◌==◌,
  if◌then◌else◌, codes, add32,
}
use riscv_student_pack.Assembler.Chars.{str_eq}
use riscv_student_pack.Assembler.Immediates.{Label}

pub data SectionType : Type 0 where
  sec_text sec_data sec_rodata sec_bss sec_custom : SectionType

pub record SectionInfo : Type 0 where
  pub name : List ℕ
  pub type : SectionType
  pub offset : ℕ
  pub base_addr : ℕ

-- `std::map<std::string, SectionInfo>`: the entries in the order of their keys.
abbrev pub Sections : Type 0
Sections = List (List ℕ × SectionInfo)

-- `name.find(prefix) == 0`
unfoldable pub starts_with : (prefix : List ℕ) → List ℕ → Bool
starts_with [] s = true
starts_with (c ∷ p) [] = false
starts_with (c ∷ p) (d ∷ s) = c == d && starts_with p s

-- `Assembler::get_section_type`
unfoldable pub get_section_type : List ℕ → SectionType
unfolding str_eq starts_with
get_section_type name =
    if str_eq name (codes ".text") || starts_with (codes ".text.") name
    then sec_text
    else if str_eq name (codes ".data") || starts_with (codes ".data.") name
    then sec_data
    else if str_eq name (codes ".rodata") || starts_with (codes ".rodata.") name
    then sec_rodata
    else if str_eq name (codes ".bss") || starts_with (codes ".bss.") name
    then sec_bss
    else sec_custom

-- `sections.find(name)`
unfoldable pub find_section : List ℕ → Sections → Option SectionInfo
find_section name [] = none
find_section name ((key, s) ∷ rest) =
    let found = find_section name rest in if str_eq key name then some s else found

-- The order of `std::string`, by the bytes.
unfoldable pub comes_before : List ℕ → List ℕ → Bool
comes_before s [] = false
comes_before [] (d ∷ t) = true
comes_before (c ∷ s) (d ∷ t) = ltb c d || c == d && comes_before s t

-- `sections[name] = info` for a new key.
unfoldable pub insert_section : List ℕ → SectionInfo → Sections → Sections
unfolding comes_before
insert_section name info [] = (name, info) ∷ []
insert_section name info ((key, s) ∷ rest) =
    let later = insert_section name info rest in
    if comes_before name key then (name, info) ∷ (key, s) ∷ rest else (key, s) ∷ later

-- `SectionInfo(section_name, type)` as `switch_section` makes it.
abbrev pub new_section : List ℕ → SectionInfo
new_section name = record { name = name; type = get_section_type name; offset = 0; base_addr = 0 }

abbrev pub found_or_inserted : List ℕ → Sections → Option SectionInfo → Sections
found_or_inserted name t (some s) = t
found_or_inserted name t none = insert_section name (new_section name) t

-- `Assembler::switch_section`: the new current section and the table.
unfoldable pub switch_section : List ℕ → Sections → List ℕ × Sections
switch_section name t = (name, found_or_inserted name t (find_section name t))

-- `sections[name].base_addr = base` for a key of the table.
unfoldable pub set_base : List ℕ → ℕ → Sections → Sections
set_base name base [] = []
set_base name base ((key, s) ∷ rest) =
    let later = set_base name base rest in
    if str_eq key name then (key, record s { base_addr = base }) ∷ rest else (key, s) ∷ later

-- The step of `.text`, and that of the sections behind it: the next base and the table.
abbrev pub placed_first : List ℕ → Sections → Option SectionInfo → ℕ × Sections
placed_first name t none = (0, t)
placed_first name t (some s) = (s.offset, set_base name 0 t)

abbrev pub placed : List ℕ → ℕ × Sections → Option SectionInfo → ℕ × Sections
placed name (base, t) none = (base, t)
placed name (base, t) (some s) = (add32 base s.offset, set_base name base t)

abbrev pub place : List ℕ → ℕ × Sections → ℕ × Sections
place name (base, t) = placed name (base, t) (find_section name t)

abbrev pub is_custom : SectionType → Bool
is_custom sec_custom = true
is_custom _ = false

-- The loop over the custom sections.
unfoldable pub place_custom : ℕ → Sections → Sections
place_custom base [] = []
place_custom base ((key, s) ∷ rest) =
    let moved = place_custom (add32 base s.offset) rest in
    let same = place_custom base rest in
    if is_custom s.type && s.base_addr == 0
    then (key, record s { base_addr = base }) ∷ moved
    else (key, s) ∷ same

abbrev pub moved_label : Label → Option SectionInfo → Label
moved_label l none = l
moved_label l (some s) = record l { addr = add32 l.addr s.base_addr }

abbrev pub adjust_label : Sections → Label → Label
adjust_label t l = moved_label l (find_section l.section_name t)

-- The base addresses that `adjust_labels` gives the sections.
unfoldable pub place_sections : Sections → Sections
place_sections t =
    let (base, t') = place (codes ".bss") (
      place (codes ".data") (
        place (codes ".rodata")
          (placed_first (codes ".text") t (find_section (codes ".text") t)))) in
    place_custom base t'

-- `Assembler::adjust_labels`
unfoldable pub adjust_labels : Sections → List Label → Sections × List Label
adjust_labels t labels = let t' = place_sections t in (t', map (adjust_label t') labels)
