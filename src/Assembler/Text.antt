-- ===== src/Assembler/Text.antt =====
-- The functions of the C library on strings, as the passes of the assembler use them
-- (assembler/src/first_pass.cpp and assembler/src/second_pass.cpp).
use riscv_student_pack.Common.{
  ℕ, zero, suc, Bool, true, ◌||◌, List, [], ◌∷◌, Option, none, some, ◌==◌, if◌then◌else◌,
}
use riscv_student_pack.Assembler.Chars.{is_space, is_empty, trim_end}
use riscv_student_pack.Assembler.Sections.{starts_with}

abbrev pub drop : ℕ → List ℕ → List ℕ
drop zero s = s
drop (suc n) [] = []
drop (suc n) (c ∷ s) = drop n s

abbrev pub with_front : ℕ → Option (List ℕ × List ℕ) → Option (List ℕ × List ℕ)
with_front c none = none
with_front c (some (before, after)) = some (c ∷ before, after)

-- `strchr(s, c)`: what stands before and behind the first `c`.
unfoldable pub split_at : (c : ℕ) → List ℕ → Option (List ℕ × List ℕ)
split_at c [] = none
split_at c (d ∷ s) = let later = split_at c s in if d == c then some ([], s) else with_front d later

abbrev pub before_or_all : List ℕ → Option (List ℕ × List ℕ) → List ℕ
before_or_all s none = s
before_or_all s (some (before, after)) = before

-- The text up to the first `c`, or all of it.
unfoldable pub cut_at : (c : ℕ) → List ℕ → List ℕ
unfolding split_at
cut_at c s = before_or_all s (split_at c s)

-- The bytes up to the first space, and what follows them.
unfoldable pub word : List ℕ → List ℕ
word [] = []
word (c ∷ s) = let rest = word s in if is_space c then [] else c ∷ rest

unfoldable pub after_word : List ℕ → List ℕ
after_word [] = []
after_word (c ∷ s) = let rest = after_word s in if is_space c then c ∷ s else rest

-- `trim` of a buffer whose result is dropped: the spaces at the front stay.
unfoldable pub trim_in_place : List ℕ → List ℕ
trim_in_place [] = []
trim_in_place (c ∷ s) =
    let rest = trim_in_place s in if is_space c then c ∷ rest else trim_end (c ∷ s)

-- `strstr(s, part)`
unfoldable pub contains : (part : List ℕ) → List ℕ → Bool
unfolding starts_with
contains part [] = is_empty part
contains part (c ∷ s) =
    let later = contains part s in if starts_with part (c ∷ s) then true else later

-- The name behind `.section`: up to a space or a comma.
unfoldable pub until_delimiter : List ℕ → List ℕ
until_delimiter [] = []
until_delimiter (c ∷ s) =
    let rest = until_delimiter s in if is_space c || c == b',' then [] else c ∷ rest

abbrev pub join_line : ℕ → List (List ℕ) → List (List ℕ)
join_line c [] = (c ∷ []) ∷ []
join_line c (l ∷ ls) = (c ∷ l) ∷ ls

-- The lines that `fgets` delivers of a text: each ends behind a newline, at the text's end or where
-- the buffer is full. The current line has room for one byte and `more` others.
unfoldable pub lines_from : (more : ℕ) → List ℕ → List (List ℕ)
lines_from more [] = []
lines_from zero (c ∷ s) = (c ∷ []) ∷ lines_from 510 s
lines_from (suc more) (c ∷ s) =
    let next = (c ∷ []) ∷ lines_from 510 s in
    let same = join_line c (lines_from more s) in if c == 10 then next else same

unfoldable pub lines : List ℕ → List (List ℕ)
unfolding lines_from
lines s = lines_from 510 s
