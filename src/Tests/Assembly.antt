-- ===== src/Tests/Assembly.antt =====
-- The assembler at concrete texts (assembler/src), and assembled words on a machine.
use riscv_student_pack.Common.{
  ℕ, ◌<◌, ◌≡◌, ◌⊎◌, inl, inr, refl, Bool, Option, sym, ap, ◌∙◌, Bool-cases, List, [], ◌∷◌, ◌++◌,
  some, if◌then◌else◌, codes, arith,
}
use riscv_student_pack.Memory.{read32, load_byte}
use riscv_student_pack.Encoder.{encode_r, encode_b, encode_j}
use riscv_student_pack.Cpu.State.{reg_read, reg_write, cpu_ok}
use riscv_student_pack.Cpu.Exec.{write_back, step}
use riscv_student_pack.Cpu.Exec.Invariant.{advanced}
use riscv_student_pack.Assembler.Chars.{str_eq, str_eq→eq}
use riscv_student_pack.Assembler.Registers.{
  reg_num, no_register, alnum_prefix, lookup_name, digits_from, numbered,
}
use riscv_student_pack.Assembler.Registers.Range.{reg_num_range}
use riscv_student_pack.Assembler.Immediates.{Label, parse_imm, find_label}
use riscv_student_pack.Scan.{number_from}
use riscv_student_pack.Assembler.Escapes.{
  parse_escaped_string, literal, parse_escaped_string-literal,
}
use riscv_student_pack.Assembler.Sections.{
  Sections, SectionInfo, find_section, place_sections, get_section_type, starts_with,
}
use riscv_student_pack.Assembler.Sections.Layout.{
  TypesFit, IsLaidOut, place_sections-IsLaidOut, place_sections-unplaced,
}
use riscv_student_pack.Assembler.Instructions.{encode_instruction, find_form, encode_form}
use riscv_student_pack.Assembler.Instructions.Mnemonics.{name, meaning, sub}
use riscv_student_pack.Assembler.Instructions.Execution.{step-encode_instruction}
use riscv_student_pack.Assembler.Instructions.Branching.{
  condition, at_pc, blt, step-branch, step-jal,
}
use riscv_student_pack.Cpu.Names.Mnemonics.{printed, printed-encode_instruction}
use riscv_student_pack.Tests.Machines.{machine, machine-IsMachine, silent}

sp_is_two : reg_num (codes "sp, 4") ≡ 2
unfolding reg_num alnum_prefix lookup_name numbered digits_from
sp_is_two = refl

x_is_zero : reg_num (codes "x") ≡ 0
unfolding reg_num alnum_prefix lookup_name numbered digits_from
x_is_zero = refl

reg_num_range_example : (reg_num (codes "t7") < 32) ⊎ (reg_num (codes "t7") ≡ no_register)
reg_num_range_example = reg_num_range (codes "t7")

parse_escaped_string-literal_example :
    parse_escaped_string (literal (b'a' ∷ 10 ∷ 34 ∷ []) ++ 34 ∷ codes " # end")
    ≡ some (b'a' ∷ 10 ∷ 34 ∷ [])
parse_escaped_string-literal_example =
    parse_escaped_string-literal (b'a' ∷ 10 ∷ 34 ∷ []) (codes " # end")

abbrev section : List ℕ → ℕ → SectionInfo
section name size = record {
  name = name;
  type = get_section_type name;
  offset = size;
  base_addr = 0;
}

abbrev table : Sections
table =
    (codes ".data", section (codes ".data") 12)
    ∷ (codes ".data.more", section (codes ".data.more") 4)
    ∷ (codes ".rodata", section (codes ".rodata") 5)
    ∷ (codes ".text", section (codes ".text") 40)
    ∷ []

no_sections-TypesFit : TypesFit []
unfolding find_section
no_sections-TypesFit = record { type_of_name = λ n s e. cc }

TypesFit-cons :
    (key : List ℕ) (size : ℕ) (rest : Sections)
    → TypesFit rest
    → TypesFit ((key, section key size) ∷ rest)
unfolding find_section
TypesFit-cons key size rest h = record {
  type_of_name = λ n s found.
      let choice : Bool → Option SectionInfo =
        λ b. if b then some (section key size) else find_section n rest in
      elim (Bool-cases (str_eq key n)) [
        | inl same ↦
            let taken : some (section key size) ≡ some s = sym (ap choice same) ∙ found in
            let it : section key size ≡ s = cc in
            ap (λ (i : SectionInfo). i.type) (sym it) ∙ ap get_section_type (str_eq→eq key n same)
        | inr other ↦ h.type_of_name n s (sym (ap choice other) ∙ found)
      ];
}

table-TypesFit : TypesFit table
table-TypesFit =
    TypesFit-cons _ _ _
      (TypesFit-cons _ _ _ (TypesFit-cons _ _ _ (TypesFit-cons _ _ _ no_sections-TypesFit)))

place_sections-IsLaidOut_example : IsLaidOut table (place_sections table)
unfolding find_section str_eq
place_sections-IsLaidOut_example = place_sections-IsLaidOut table table-TypesFit (omega arith)

place_sections-unplaced_example :
    find_section (codes ".data.more") (place_sections table)
    ≡ find_section (codes ".data.more") table
unfolding get_section_type starts_with str_eq
place_sections-unplaced_example =
    place_sections-unplaced table (codes ".data.more") table-TypesFit refl refl refl refl refl

-- `sub a0, a1, a2`
step-encode_instruction_example :
    step silent (machine 0x40c58533)
    ≡ some (
        write_back
          (reg_num (codes "a0"))
          (meaning sub
            (reg_read (machine 0x40c58533).cpu (reg_num (codes "a1")))
            (reg_read (machine 0x40c58533).cpu (reg_num (codes "a2"))))
          (advanced (machine 0x40c58533)))
unfolding reg_num alnum_prefix lookup_name read32 load_byte encode_instruction find_form encode_form
    encode_r
step-encode_instruction_example =
    step-encode_instruction silent sub [] (codes "a0") (codes "a1") (codes "a2")
      (machine-IsMachine 0x40c58533) refl (omega arith) (omega arith) (omega arith) tt refl

abbrev labels : List Label
labels = record { name = codes "loop"; addr = 8; section_name = codes ".text" } ∷ []

-- `blt a0, a1, loop`
step-branch_example :
    step silent (machine 0x00b54463)
    ≡ some (
      cpu_ok,
      at_pc
          (if condition blt
              (reg_read (machine 0x00b54463).cpu (reg_num (codes "a0")))
              (reg_read (machine 0x00b54463).cpu (reg_num (codes "a1")))
            then 8
            else 4)
          (machine 0x00b54463),
    )
unfolding reg_num alnum_prefix lookup_name read32 load_byte encode_instruction find_form encode_form
    encode_b parse_imm find_label
step-branch_example =
    step-branch silent blt labels (codes "a0") (codes "a1") (codes "loop")
      (machine-IsMachine 0x00b54463) refl (omega arith) (omega arith) refl (omega arith)
      (inl (omega arith)) refl refl

-- `jal ra, 16`
step-jal_example :
    step silent (machine 0x010000ef)
    ≡ some (
      cpu_ok,
      record (machine 0x010000ef) {
        cpu = record (reg_write (reg_num (codes "ra")) 4 (machine 0x010000ef).cpu) { pc = 16 };
      },
    )
unfolding reg_num alnum_prefix lookup_name read32 load_byte encode_instruction find_form encode_form
    encode_j parse_imm number_from
step-jal_example =
    step-jal silent [] (codes "ra") (codes "16") [] (machine-IsMachine 0x010000ef) refl
      (omega arith) refl (omega arith) (inl (omega arith)) refl refl

printed-encode_instruction_example :
    printed (encode_instruction [] 0 (name sub) (codes "a0") (codes "a1") (codes "a2"))
    ≡ some (name sub)
unfolding reg_num alnum_prefix lookup_name
printed-encode_instruction_example =
    printed-encode_instruction sub [] 0 (codes "a0") (codes "a1") (codes "a2") (omega arith)
      (omega arith) (omega arith)
