-- ===== src/Assembler/State.antt =====
-- The state of the class `Assembler` (assembler/include/assembler.hpp), its constructor
-- (assembler/src/constructor.cpp) and `get_current_section` (assembler/src/utils.cpp).
use riscv_student_pack.Common.{ℕ, List, [], ◌∷◌, Option, none, some, if◌then◌else◌, codes, add32}
use riscv_student_pack.Assembler.Chars.{str_eq}
use riscv_student_pack.Assembler.Immediates.{Label}
use riscv_student_pack.Assembler.Sections.{
  SectionType, sec_text, sec_data, sec_rodata, sec_bss, sec_custom, SectionInfo, Sections,
  find_section, insert_section,
}

pub record Assembler : Type 0 where
  pub labels : List Label
  pub sections : Sections
  pub current_section_name : List ℕ
  pub pc_text : ℕ
  pub pc_data : ℕ
  pub text_size : ℕ
  pub data_size : ℕ

-- `SectionInfo(name, type)`
abbrev pub empty_section : List ℕ → SectionType → SectionInfo
empty_section name type = record { name = name; type = type; offset = 0; base_addr = 0 }

-- The four sections of the constructor, by their keys.
abbrev pub standard_sections : Sections
standard_sections =
    (codes ".bss", empty_section (codes ".bss") sec_bss)
    ∷ (codes ".data", empty_section (codes ".data") sec_data)
    ∷ (codes ".rodata", empty_section (codes ".rodata") sec_rodata)
    ∷ (codes ".text", empty_section (codes ".text") sec_text)
    ∷ []

-- `Assembler::Assembler`
unfoldable pub new_assembler : Assembler
new_assembler = record {
  labels = [];
  sections = standard_sections;
  current_section_name = codes ".text";
  pc_text = 0;
  pc_data = 0;
  text_size = 0;
  data_size = 0;
}

abbrev pub current_or_custom : List ℕ → Sections → Option SectionInfo → SectionInfo × Sections
current_or_custom name t (some s) = (s, t)
current_or_custom name t none =
    (empty_section name sec_custom, insert_section name (empty_section name sec_custom) t)

-- `Assembler::get_current_section`: the section, and the table that now has it.
unfoldable pub get_current_section : Assembler → SectionInfo × Sections
unfolding find_section
get_current_section a =
    current_or_custom a.current_section_name a.sections
      (find_section a.current_section_name a.sections)

-- `sections[name].offset += size` for a key of the table.
unfoldable pub add_offset : List ℕ → ℕ → Sections → Sections
add_offset name size [] = []
add_offset name size ((key, s) ∷ rest) =
    let later = add_offset name size rest in
    if str_eq key name
    then (key, record s { offset = add32 s.offset size }) ∷ rest
    else (key, s) ∷ later

-- `get_current_section().offset += size`
unfoldable pub grow_current : ℕ → Assembler → Assembler
unfolding add_offset get_current_section
grow_current size a = record a {
  sections = add_offset a.current_section_name size (get_current_section a).1;
}
