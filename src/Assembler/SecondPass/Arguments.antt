-- ===== src/Assembler/SecondPass/Arguments.antt =====
-- assembler/src/second_pass.cpp: `parse_instruction_args` and the rewriting of `offset(register)`.
-- `undefined` is a text that leaves its buffer of 16 or 32 bytes.
use riscv_student_pack.Common.{
  ℕ, Bool, false, not, ◌||◌, ◌&&◌, List, [], ◌∷◌, ◌++◌, Option, none, some, ltb, ◌==◌,
  if◌then◌else◌, take, length,
}
use riscv_student_pack.Assembler.Outcome.{Outcome, ok, undefined, ◌>>=◌}
use riscv_student_pack.Assembler.Chars.{is_space, is_empty, skip_spaces, trim}
use riscv_student_pack.Assembler.Text.{split_at, cut_at, trim_in_place}

pub record Operands : Type 0 where
  pub op : List ℕ
  pub a1 : List ℕ
  pub a2 : List ℕ
  pub a3 : List ℕ

abbrev pub no_operands : Operands
no_operands = record { op = []; a1 = []; a2 = []; a3 = [] }

-- A copy into a buffer of `size` bytes, with its NUL.
abbrev pub stored : ℕ → List ℕ → Outcome (List ℕ)
stored size s = if ltb (length s) size then ok s else undefined

-- The second and the third operand, by the second comma.
abbrev pub store_rest : Operands → List ℕ → Option (List ℕ × List ℕ) → Outcome Operands
store_rest x y none = do a2 ← stored 32 (trim y); ok (record x { a2 = a2 })
store_rest x y (some (before, after)) = do
  a2 ← stored 32 (cut_at b',' (skip_spaces y))
  a3 ← stored 32 (trim after)
  ok (record x { a2 = a2; a3 = a3 })

-- The operands by the first comma.
abbrev pub store_operands : Operands → List ℕ → Option (List ℕ × List ℕ) → Outcome Operands
store_operands x args none = do a1 ← stored 32 args; ok (record x { a1 = a1 })
store_operands x args (some (before, after)) = do
  a1 ← stored 32 before
  store_rest (record x { a1 = a1 }) after (split_at b',' after)

abbrev pub store_all : Operands → List ℕ → Option (List ℕ × List ℕ) → Outcome Operands
store_all old line none = do op ← stored 16 line; ok (record old { op = op })
store_all old line (some (before, after)) = do
  op ← stored 16 before
  store_operands (record old { op = op }) (trim after) (split_at b',' (trim after))

-- `Assembler::parse_instruction_args`; what the line does not name keeps its old value.
unfoldable pub parse_instruction_args : List ℕ → Operands → Outcome Operands
unfolding split_at cut_at
parse_instruction_args s old = store_all old (take 511 s) (split_at b' ' (take 511 s))

-- `trim(a1); trim(a2); trim(a3);`
abbrev pub trimmed : Operands → Operands
trimmed x = record x { a1 = trim_in_place x.a1; a2 = trim_in_place x.a2; a3 = trim_in_place x.a3 }

-- A text without the comma at its end, and whether there was one.
abbrev pub is_comma : List ℕ → Bool
is_comma [] = false
is_comma (c ∷ []) = c == b','
is_comma (c ∷ d ∷ s) = is_comma (d ∷ s)

abbrev pub without_last : List ℕ → List ℕ
without_last [] = []
without_last (c ∷ []) = []
without_last (c ∷ d ∷ s) = c ∷ without_last (d ∷ s)

abbrev pub drop_comma : List ℕ → List ℕ
drop_comma s = if is_comma s then trim_in_place (without_last s) else s

abbrev pub without_commas : Operands → Operands
without_commas x = record x { a1 = drop_comma x.a1; a2 = drop_comma x.a2 }

-- The text in front of the last space or comma, that one included, and what stands behind it.
abbrev pub at_front : ℕ → List ℕ × List ℕ → List ℕ × List ℕ
at_front c (before, last) =
    if is_empty before && not (is_space c || c == b',') then ([], c ∷ last) else (c ∷ before, last)

unfoldable pub last_word : List ℕ → List ℕ × List ℕ
last_word [] = ([], [])
last_word (c ∷ s) = at_front c (last_word s)

-- The line with `offset(reg)` as `offset,reg`.
abbrev pub joined : List ℕ × List ℕ → List ℕ × List ℕ → Outcome (List ℕ)
joined (before, last) (inner, suffix) = do
  offset ← stored 32 last
  reg ← stored 32 inner
  ok (before ++ (offset ++ (b',' ∷ (reg ++ suffix))))

abbrev pub close : List ℕ → List ℕ → Option (List ℕ × List ℕ) → Outcome (List ℕ)
close line before none = ok line
close line before (some closed) = joined (last_word before) closed

abbrev pub opened : List ℕ → Option (List ℕ × List ℕ) → Outcome (List ℕ)
opened line none = ok line
opened line (some (before, after)) = close line before (split_at b')' after)

-- The block that starts at `char *open_paren`. The result is no longer than the line.
unfoldable pub without_parentheses : List ℕ → Outcome (List ℕ)
unfolding split_at last_word
without_parentheses line = opened line (split_at b'(' line)
