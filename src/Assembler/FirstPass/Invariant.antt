-- ===== src/Assembler/FirstPass/Invariant.antt =====
-- assembler/src/first_pass.cpp: what every line keeps of the invariant, errors and all.
use riscv_student_pack.Common.{
  ℕ, ◌≡◌, sym, ap, Bool, true, false, ◌||◌, List, [], ◌∷◌, ◌++◌, Option, none, some, ◌==◌,
  if◌then◌else◌, codes, All, Bool-cases, inl, inr,
}
use mathlib.Core.Path.{subst}
use riscv_student_pack.Memory.{◌>>=◌}
use riscv_student_pack.Assembler.Chars.{
  str_eq, str_eq→eq, str_eq_refl, is_empty, skip_spaces, trim, head_or_nul,
}
use riscv_student_pack.Assembler.Text.{split_at, cut_at, contains}
use riscv_student_pack.Assembler.Immediates.{Label}
use riscv_student_pack.Assembler.Sections.{Sections, starts_with}
use riscv_student_pack.Assembler.Sections.Layout.{TypesFit}
use riscv_student_pack.Assembler.State.{Assembler, get_current_section}
use riscv_student_pack.Assembler.FirstPass.{
  bytes_of, process_instruction_first_pass, has_label, add_label, process_label, process_directive,
  is_text, enter_section, current_type, process_rest, process_unlabelled, process_statement,
  section_argument, first_pass_line, first_pass_lines, with_sizes, first_pass,
}
use riscv_student_pack.Assembler.FirstPass.Tables.{Has}
use riscv_student_pack.Assembler.FirstPass.States.{
  Distinct, IsAssembler, Has-labels, get_current_section-unchanged, touch_current-IsAssembler,
  grow_text-IsAssembler, grow_data-IsAssembler, grow_space-IsAssembler, enter_section-IsAssembler,
}

-- It exits, or ends in such a state.
pub data ExitsOrKeeps : Option Assembler → Type 0 where
  exits : ExitsOrKeeps none
  keeps : {a : Assembler} → IsAssembler a → ExitsOrKeeps (some a)

-- What stands behind a result that may be an exit.
ExitsOrKeeps-bind :
    {B : Type 0} (o : Option B) (f : B → Option Assembler)
    → ((b : B) → ExitsOrKeeps (f b))
    → ExitsOrKeeps (o >>= f)
ExitsOrKeeps-bind none f h = exits
ExitsOrKeeps-bind (some b) f h = h b

ExitsOrKeeps-then :
    {o : Option Assembler} (f : Assembler → Option Assembler)
    → ExitsOrKeeps o
    → ((a : Assembler) → IsAssembler a → ExitsOrKeeps (f a))
    → ExitsOrKeeps (o >>= f)
ExitsOrKeeps-then f exits k = exits
ExitsOrKeeps-then f (keeps {a} h) k = k a h

ExitsOrKeeps-if :
    (b : Bool) (x y : Option Assembler)
    → ExitsOrKeeps x
    → ExitsOrKeeps y
    → ExitsOrKeeps (if b then x else y)
ExitsOrKeeps-if true x y h k = h
ExitsOrKeeps-if false x y h k = k

process_instruction-keeps :
    (s : List ℕ) {a : Assembler} → IsAssembler a → ExitsOrKeeps (process_instruction_first_pass s a)
unfolding process_instruction_first_pass
process_instruction-keeps s h =
    ExitsOrKeeps-bind _ _ (λ words. keeps (grow_text-IsAssembler (bytes_of words) h))

process_directive-keeps :
    (line : List ℕ) {a : Assembler} → IsAssembler a → ExitsOrKeeps (process_directive line a)
unfolding process_directive
process_directive-keeps line h =
    let s = trim line in
    ExitsOrKeeps-if (starts_with (codes ".asciiz") s) _ _
      (ExitsOrKeeps-bind _ _ (λ bytes. keeps (grow_data-IsAssembler _ h)))
      (ExitsOrKeeps-if (starts_with (codes ".ascii") s) _ _
        (ExitsOrKeeps-bind _ _ (λ bytes. keeps (grow_data-IsAssembler _ h)))
        (ExitsOrKeeps-if (starts_with (codes ".byte") s) _ _ (keeps (grow_data-IsAssembler _ h)) (
          ExitsOrKeeps-if (starts_with (codes ".half") s) _ _ (keeps (grow_data-IsAssembler _ h)) (
            ExitsOrKeeps-if (starts_with (codes ".word") s) _ _ (keeps (grow_data-IsAssembler _ h))
              (ExitsOrKeeps-if (starts_with (codes ".space") s) _ _
                (keeps (grow_space-IsAssembler _ h)) (keeps h))))))

-- A new label behind the others.
Fresh-append :
    (l k : Label) (ls : List Label)
    → All (λ (x : Label). str_eq x.name l.name ≡ false) ls
    → str_eq k.name l.name ≡ false
    → All (λ (x : Label). str_eq x.name l.name ≡ false) (ls ++ k ∷ [])
Fresh-append l k [] h e = (e, tt)
Fresh-append l k (x ∷ ls) (p, ps) e = (p, Fresh-append l k ls ps e)

str_eq-false_sym : (a b : List ℕ) → str_eq a b ≡ false → str_eq b a ≡ false
str_eq-false_sym a b h = elim (Bool-cases (str_eq b a)) [
  | inl e ↦ cc (ap (λ x. str_eq a x) (str_eq→eq b a e), str_eq_refl a, h)
  | inr e ↦ e
]

Distinct-append :
    (ls : List Label) (k : Label)
    → has_label ls k.name ≡ false
    → Distinct ls
    → Distinct (ls ++ k ∷ [])
unfolding has_label
Distinct-append [] k e h = (tt, tt)
Distinct-append (l ∷ ls) k e (p, ps) = elim (Bool-cases (str_eq l.name k.name)) [
  | inl same ↦ cc
  | inr other ↦ (
    Fresh-append l k ls p (str_eq-false_sym l.name k.name other),
    Distinct-append ls k (cc (other, e)) ps,
  )
]

All-append-label :
    (t : Sections) (ls : List Label) (k : Label)
    → All (λ (l : Label). Has t l.section_name) ls
    → Has t k.section_name
    → All (λ (l : Label). Has t l.section_name) (ls ++ k ∷ [])
All-append-label t [] k h e = (e, tt)
All-append-label t (x ∷ ls) k (p, ps) e = (p, All-append-label t ls k ps e)

add_label-keeps : (name : List ℕ) {a : Assembler} → IsAssembler a → ExitsOrKeeps (add_label name a)
unfolding add_label
add_label-keeps name {a} h = elim (Bool-cases (has_label a.labels name)) [
  | inl e ↦ rw e exits
  | inr e ↦ rw e (
      keeps (
        let k : Label = record {
          name = name;
          addr = (get_current_section a).0.offset;
          section_name = a.current_section_name;
        } in
        let same = get_current_section-unchanged h in
        let known =
          λ (l : List ℕ) (p : Has a.sections l). subst (λ (t : Sections). Has t l) (sym same) p in
        record {
          typed = subst TypesFit (sym same) h.typed;
          current_known = known a.current_section_name h.current_known;
          distinct = Distinct-append a.labels k e h.distinct;
          labels_known =
              All-append-label (get_current_section a).1 a.labels k
                (Has-labels a.sections (get_current_section a).1 known a.labels h.labels_known)
                (known a.current_section_name h.current_known);
        }))
]

process_label-keeps :
    (before : List ℕ) {a : Assembler} → IsAssembler a → ExitsOrKeeps (process_label before a)
unfolding process_label
process_label-keeps before h =
    ExitsOrKeeps-if (is_empty (skip_spaces before)) _ _ (keeps h) (add_label-keeps _ h)

process_rest-keeps :
    (after : List ℕ) (a : Assembler) → IsAssembler a → ExitsOrKeeps (process_rest after a)
unfolding process_rest
process_rest-keeps after a h =
    let s = skip_spaces after in
    let touched = touch_current-IsAssembler h in
    ExitsOrKeeps-if (is_empty s || head_or_nul s == b'#') _ _ (keeps h) (
      ExitsOrKeeps-if (is_text (current_type a)) _ _ (process_instruction-keeps _ touched) (
        ExitsOrKeeps-if (head_or_nul s == b'.') _ _ (process_directive-keeps _ touched)
          (keeps touched)))

process_unlabelled-keeps :
    (s : List ℕ) {a : Assembler} → IsAssembler a → ExitsOrKeeps (process_unlabelled s a)
unfolding process_unlabelled
process_unlabelled-keeps s {a} h =
    let touched = touch_current-IsAssembler h in
    ExitsOrKeeps-if (head_or_nul s == b'.') _ _ (process_directive-keeps s h) (
      ExitsOrKeeps-if (is_text (current_type a)) _ _ (process_instruction-keeps s touched)
        (keeps touched))

process_statement-keeps :
    (s : List ℕ) (o : Option (List ℕ × List ℕ)) {a : Assembler}
    → IsAssembler a
    → ExitsOrKeeps (process_statement s o a)
unfolding process_statement
process_statement-keeps s none h = process_unlabelled-keeps s h
process_statement-keeps s (some (before, after)) {a} h =
    ExitsOrKeeps-then (process_rest after) (process_label-keeps before h) (process_rest-keeps after)

first_pass_line-keeps :
    (line : List ℕ) {a : Assembler} → IsAssembler a → ExitsOrKeeps (first_pass_line line a)
unfolding first_pass_line
first_pass_line-keeps line {a} h =
    let s = trim line in
    let statement = trim (cut_at b'#' s) in
    let enters : (name : List ℕ) → ExitsOrKeeps (some (enter_section name a)) =
      λ name. keeps (enter_section-IsAssembler name h) in
    let named : ExitsOrKeeps
        (some (if is_empty (section_argument s) then a else enter_section (section_argument s) a)) =
      elim (Bool-cases (is_empty (section_argument s))) [
        | inl e ↦ rw e (keeps h)
        | inr e ↦ rw e (enters (section_argument s))
      ] in
    ExitsOrKeeps-if (is_empty s || head_or_nul s == b'#') _ _ (keeps h) (
      ExitsOrKeeps-if (starts_with (codes ".section") s) _ _ named (
        ExitsOrKeeps-if (str_eq s (codes ".text")) _ _ (enters (codes ".text")) (
          ExitsOrKeeps-if (str_eq s (codes ".data")) _ _ (enters (codes ".data")) (
            ExitsOrKeeps-if (str_eq s (codes ".rodata")) _ _ (enters (codes ".rodata")) (
              ExitsOrKeeps-if (str_eq s (codes ".bss")) _ _ (enters (codes ".bss")) (
                ExitsOrKeeps-if (contains (codes ".globl") s) _ _ (keeps h)
                  (process_statement-keeps statement (split_at b':' statement) h)))))))

first_pass_lines-keeps :
    (ls : List (List ℕ)) (a : Assembler) → IsAssembler a → ExitsOrKeeps (first_pass_lines ls a)
unfolding first_pass_lines
first_pass_lines-keeps [] a h = keeps h
first_pass_lines-keeps (l ∷ ls) a h =
    ExitsOrKeeps-then (first_pass_lines ls) (first_pass_line-keeps l h) (first_pass_lines-keeps ls)

-- From a state in which every section has the type of its name, the current section and the
-- section of each label are in the table and no two labels have one name, the first pass over any
-- lines exits or leaves such a state.
pub first_pass-ExitsOrKeeps :
    (ls : List (List ℕ)) {a : Assembler} → IsAssembler a → ExitsOrKeeps (first_pass ls a)
unfolding first_pass
first_pass-ExitsOrKeeps ls {a} h =
    ExitsOrKeeps-then (λ a'. some (with_sizes a'))
      (first_pass_lines-keeps ls (record a { labels = []; pc_text = 0; pc_data = 0 })
        (record {
          typed = h.typed;
          current_known = h.current_known;
          distinct = tt;
          labels_known = tt;
        }))
      (λ a' good. keeps (record {
        typed = good.typed;
        current_known = good.current_known;
        distinct = good.distinct;
        labels_known = good.labels_known;
      }))
