-- ===== src/Assembler/SecondPass/Directives.antt =====
-- Data directives in the two passes: `process_directive` of assembler/src/first_pass.cpp and
-- `process_data_directive` of assembler/src/second_pass.cpp.
use riscv_student_pack.Common.{
  ℕ, zero, suc, ◌+◌, ◌*◌, ◌/◌, ◌^◌, ◌≡◌, refl, sym, ap, ◌∙◌, true, List, [], ◌∷◌, ◌++◌, Option,
  none, some, codes, length, length-append, All, IsU32, arith, Bool-cases, inl, inr,
}
use mathlib.Core.Path.{subst}
use native.Mathlib.Nat.{zero-mul, suc-mul}
use riscv_student_pack.Memory
use riscv_student_pack.Assembler.Outcome.{Outcome, ok, exited, or_exit, ◌>>=◌}
use riscv_student_pack.Assembler.Chars.{trim}
use riscv_student_pack.Assembler.Immediates.{Label}
use riscv_student_pack.Assembler.Sections.{starts_with}
use riscv_student_pack.Assembler.State.{Assembler}
use riscv_student_pack.Assembler.Pseudo.{print_int}
use riscv_student_pack.Assembler.FirstPass.{string_of, grow_data, process_directive}
use riscv_student_pack.Assembler.SecondPass.Data.{value_bytes, data_bytes}
use riscv_student_pack.Assembler.SecondPass.Output.{low_bytes}
use riscv_student_pack.Assembler.SecondPass.Tokens.{
  EndsPlain, EndsPlain-token, EndsPlain-append, StartsPlain, trim-plain,
}
use riscv_student_pack.Assembler.SecondPass.Expansion.{print_int-IsToken}
use riscv_student_pack.Assembler.SecondPass.Numerals.{numerals, more_numerals, list_bytes-numerals}

-- Both passes exit, or the first counts as many bytes as the second writes.
pub data SameSize (a : Assembler) : Option Assembler → Outcome (List ℕ) → Type 0 where
  both_exit : SameSize a none exited
  same_size :
      {n : ℕ} {bytes : List ℕ} → length bytes ≡ n → SameSize a (some (grow_data n a)) (ok bytes)

terminated-SameSize :
    (a : Assembler) (o : Option (List ℕ))
    → SameSize a
        (Memory.◌>>=◌ o (λ bytes. some (grow_data (length bytes + 1) a)))
        (or_exit o >>= (λ bytes. ok (bytes ++ (0 ∷ []))))
terminated-SameSize a none = both_exit
terminated-SameSize a (some bytes) = same_size (length-append bytes (0 ∷ []))

plain-SameSize :
    (a : Assembler) (o : Option (List ℕ))
    → SameSize a (Memory.◌>>=◌ o (λ bytes. some (grow_data (length bytes) a))) (or_exit o)
plain-SameSize a none = both_exit
plain-SameSize a (some bytes) = same_size refl

-- For every text that begins, behind spaces, with `.ascii`, `.asciiz` included,
-- `process_directive` of the first pass and `process_data_directive` both exit, or the second
-- gives exactly as many bytes as the first counts. The theorem is about these two routines, not
-- about which lines the passes hand to them.
pub process_directive-SameSize :
    (labels : List Label) (line : List ℕ) (a : Assembler)
    → starts_with (codes ".ascii") (trim line) ≡ true
    → SameSize a (process_directive line a) (data_bytes labels line)
unfolding process_directive data_bytes
process_directive-SameSize labels line a h =
    elim (Bool-cases (starts_with (codes ".asciiz") (trim line))) [
      | inl e ↦ rw e (terminated-SameSize a (string_of (trim line)))
      | inr e ↦ rw (e, h) (plain-SameSize a (string_of (trim line)))
    ]

length-low_bytes : (n v : ℕ) → length (low_bytes n v) ≡ n
length-low_bytes zero v = refl
length-low_bytes (suc n) v = ap (λ k. suc k) (length-low_bytes n (v / 2 ^ 8))

length-value_bytes : (n : ℕ) (vs : List ℕ) → length (value_bytes n vs) ≡ length vs * n
length-value_bytes n [] = sym (zero-mul n)
length-value_bytes n (v ∷ vs) =
    length-append (low_bytes n v) (value_bytes n vs)
    ∙ omega (arith, length-low_bytes n v, length-value_bytes n vs, suc-mul (length vs) n)

print_int-EndsPlain : (v : ℕ) → EndsPlain (print_int v)
print_int-EndsPlain v =
    let token = print_int-IsToken v in EndsPlain-token (print_int v) token.plain token.filled

append_none : (s : List ℕ) → s ++ [] ≡ s
append_none [] = refl
append_none (c ∷ s) = ap (λ (t : List ℕ). c ∷ t) (append_none s)

EndsPlain-numerals : (v : ℕ) (vs : List ℕ) → EndsPlain (numerals (v ∷ vs))
EndsPlain-numerals v [] = subst EndsPlain (sym (append_none (print_int v))) (print_int-EndsPlain v)
EndsPlain-numerals v (u ∷ us) =
    EndsPlain-append (print_int v) (more_numerals (u ∷ us))
      (EndsPlain-append (codes ", ") (numerals (u ∷ us)) (EndsPlain-numerals u us))

-- The bytes of a list of numbers, and the size that the first pass counts for it.
abbrev pub Written : (name : List ℕ) → (n : ℕ) → List Label → Assembler → List ℕ → Type 0
Written name n labels a vs =
    (data_bytes labels (name ++ (b' ' ∷ numerals vs)) ≡ ok (value_bytes n vs))
    × ((process_directive (name ++ (b' ' ∷ numerals vs)) a ≡ some (grow_data (length vs * n) a))
        × (length (value_bytes n vs) ≡ length vs * n))

-- The line has nothing to trim.
trim-numerals :
    (name : List ℕ) (v : ℕ) (vs : List ℕ)
    → StartsPlain (name ++ (b' ' ∷ numerals (v ∷ vs)))
    → trim (name ++ (b' ' ∷ numerals (v ∷ vs))) ≡ name ++ (b' ' ∷ numerals (v ∷ vs))
trim-numerals name v vs h = trim-plain (name ++ (b' ' ∷ numerals (v ∷ vs))) h (
    EndsPlain-append name (b' ' ∷ numerals (v ∷ vs))
      (EndsPlain-append (b' ' ∷ []) (numerals (v ∷ vs)) (EndsPlain-numerals v vs)))

-- For the text of a `.word` or `.half` directive with one or more numbers as `%d` prints them, a
-- comma and a blank between them, `process_data_directive` ends and gives the low four or two
-- bytes of each number in order, lowest byte first, and `process_directive` of the first pass
-- counts exactly as many bytes. The theorem is about these two routines, not about which lines the
-- passes hand to them.
pub data_bytes-Written :
    (labels : List Label) (a : Assembler) (v : ℕ) (vs : List ℕ)
    → All IsU32 (v ∷ vs)
    → Written (codes ".word") 4 labels a (v ∷ vs) × Written (codes ".half") 2 labels a (v ∷ vs)
unfolding process_directive data_bytes starts_with
data_bytes-Written labels a v vs h =
    let (word, count) = list_bytes-numerals labels 4 (v ∷ vs) h in
    let (half, _) = list_bytes-numerals labels 2 (v ∷ vs) h in
    let word_line = trim-numerals (codes ".word") v vs refl in
    let half_line = trim-numerals (codes ".half") v vs refl in
    (
      (rw word_line word, (rw (word_line, count) refl, length-value_bytes 4 (v ∷ vs))),
      (rw half_line half, (rw (half_line, count) refl, length-value_bytes 2 (v ∷ vs))),
    )
