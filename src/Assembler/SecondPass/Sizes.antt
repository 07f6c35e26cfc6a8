-- ===== src/Assembler/SecondPass/Sizes.antt =====
-- The sizes of instructions in the two passes (assembler/src/first_pass.cpp and
-- assembler/src/second_pass.cpp).
use riscv_student_pack.Common.{
  ℕ, suc, ◌+◌, ◌*◌, ◌≡◌, ◌⊎◌, refl, ◌∙◌, Bool, true, false, List, [], ◌∷◌, Option, none, some,
  codes, length, ltb→lt, add32, arith, Bool-cases, inl, inr,
}
use mathlib.Core.Path.{subst}
use riscv_student_pack.Assembler.Chars.{str_eq}
use riscv_student_pack.Assembler.Text.{cut_at}
use riscv_student_pack.Assembler.Immediates.{Label}
use riscv_student_pack.Assembler.Instructions.{encode_instruction}
use riscv_student_pack.Assembler.Outcome.{
  Outcome, ok, exited, undefined, unfinished, or_exit, ◌>>=◌,
}
use riscv_student_pack.Assembler.Pseudo.{
  expand_pseudoinstruction, pseudoinstruction_size, is_pseudoinstruction,
}
use riscv_student_pack.Assembler.Pseudo.Sizes.{Agree, is_number, Agree-expand_pseudoinstruction}
use riscv_student_pack.Assembler.FirstPass.{bytes_of}
use riscv_student_pack.Assembler.SecondPass.{
  Tables, assemble_expanded, assemble_lines, assemble_operands,
}
use riscv_student_pack.Assembler.SecondPass.Arguments.{Operands, trimmed}
use riscv_student_pack.Assembler.SecondPass.Finishing.{
  IsFinished, by_return, by_exit, by_undefined, parse_instruction_args-IsFinished,
}
use riscv_student_pack.Assembler.SecondPass.Output.{Writer, emit_word}

-- `w'` is `n` bytes behind `w`, in the file and in `pc`.
pub record IsBehind (n : ℕ) (w w' : Writer) : Type 0 where
  pub position_moved : w'.position ≡ w.position + n
  pub pc_moved : w'.pc ≡ add32 w.pc n
  pub section_same : w'.section ≡ w.section

-- A run of the second pass that returns has written `n` bytes.
pub data Writes (n : ℕ) (w : Writer) : Outcome Writer → Type 0 where
  writes : {w' : Writer} → IsBehind n w w' → Writes n w (ok w')
  exits : Writes n w exited
  is_undefined : Writes n w undefined

emit_word-IsBehind : (word : ℕ) (w : Writer) → IsBehind 4 w (emit_word word w)
unfolding emit_word
emit_word-IsBehind word w = record {
  position_moved = omega arith;
  pc_moved = refl;
  section_same = refl;
}

IsBehind-add : {n m : ℕ} {u v w : Writer} → IsBehind n u v → IsBehind m v w → IsBehind (n + m) u w
IsBehind-add {n} {m} {u} {v} {w} h k = record {
  position_moved = omega (arith, h.position_moved, k.position_moved);
  pc_moved = omega (arith, h.pc_moved, k.pc_moved);
  section_same = k.section_same ∙ h.section_same;
}

Writes-bytes : {n m : ℕ} {w : Writer} {o : Outcome Writer} → n ≡ m → Writes n w o → Writes m w o
Writes-bytes {w = w} {o} e h = subst (λ n. Writes n w o) e h

encoded-Writes :
    (o : Option ℕ) (w : Writer) → Writes 4 w (or_exit o >>= (λ word. ok (emit_word word w)))
encoded-Writes none w = exits
encoded-Writes (some word) w = writes (emit_word-IsBehind word w)

parsed-Writes :
    (t : Tables) {o : Outcome Operands} (w : Writer)
    → IsFinished o
    → Writes 4 w (
        o >>= (λ args.
          or_exit (
            encode_instruction t.labels w.pc args.op
              (trimmed args).a1
              (trimmed args).a2
              (trimmed args).a3)
          >>= (λ word. ok (emit_word word w))))
parsed-Writes t w (by_return args) = encoded-Writes _ w
parsed-Writes t w by_exit = exits
parsed-Writes t w by_undefined = is_undefined

assemble_expanded-Writes :
    (t : Tables) (line : List ℕ) (w : Writer) → Writes 4 w (assemble_expanded t line w)
unfolding assemble_expanded
assemble_expanded-Writes t line w =
    parsed-Writes t w (parse_instruction_args-IsFinished (cut_at b'#' line) t.stale)

more_lines-Writes :
    {n m : ℕ} {w : Writer} {o : Outcome Writer} {f : Writer → Outcome Writer}
    → Writes n w o
    → ((w' : Writer) → Writes m w' (f w'))
    → Writes (n + m) w (o >>= f)
more_lines-Writes {n} {m} {w} (writes {w' = v} h) k = after_lines h (k v)
  where
    after_lines : {o : Outcome Writer} → IsBehind n w v → Writes m v o → Writes (n + m) w o
    after_lines h (writes b) = writes (IsBehind-add h b)
    after_lines h exits = exits
    after_lines h is_undefined = is_undefined
more_lines-Writes exits k = exits
more_lines-Writes is_undefined k = is_undefined

one_line-Writes :
    {w : Writer} {o : Outcome Writer} → Writes 4 w o → Writes 4 w (o >>= (λ w'. ok w'))
one_line-Writes (writes b) = writes b
one_line-Writes exits = exits
one_line-Writes is_undefined = is_undefined

assemble_lines-Writes :
    (t : Tables) (l : List ℕ) (ls : List (List ℕ)) (w : Writer)
    → Writes (suc (length ls) * 4) w (assemble_lines t (l ∷ ls) w)
unfolding assemble_lines
assemble_lines-Writes t l [] w = one_line-Writes (assemble_expanded-Writes t l w)
assemble_lines-Writes t l (k ∷ ls) w =
    Writes-bytes (omega arith)
      (more_lines-Writes (assemble_expanded-Writes t l w) (assemble_lines-Writes t k ls))

-- The lines of a pseudoinstruction of `n` instructions, of which there is one.
expanded-Writes :
    (t : Tables) (n : ℕ) (o : Outcome (List (List ℕ))) (w : Writer)
    → Agree (some n) true o
    → Writes (bytes_of n) w (o >>= (λ ls. assemble_lines t ls w))
expanded-Writes t n (ok []) w (e, p) = absurd (omega (arith, e, ltb→lt 0 n p))
expanded-Writes t n (ok (l ∷ ls)) w (e, p) =
    Writes-bytes (rw p (omega (arith, e))) (assemble_lines-Writes t l ls w)
expanded-Writes t n exited w h = exits
expanded-Writes t n undefined w h = is_undefined
expanded-Writes t n unfinished w h = absurd h

other-Writes :
    (n : ℕ) (o : Outcome (List (List ℕ))) {w : Writer} {r : Outcome Writer}
    → Agree (some n) false o
    → Writes 4 w r
    → Writes (bytes_of n) w r
other-Writes n (ok ls) h k = Writes-bytes (rw (h.1) refl) k
other-Writes n exited h k = Writes-bytes (rw h refl) k
other-Writes n undefined h k = Writes-bytes (rw h refl) k
other-Writes n unfinished h k = absurd h

sized :
    (t : Tables) (x : Operands) (w : Writer) (n : ℕ)
    → Agree
        (some n)
        (is_pseudoinstruction x.op)
        (expand_pseudoinstruction t.labels x.op x.a1 x.a2 w.pc)
    → Writes (bytes_of n) w (assemble_operands t x w)
unfolding assemble_operands
sized t x w n h = elim (Bool-cases (is_pseudoinstruction x.op)) [
  | inl e ↦ rw e (
      expanded-Writes t n (expand_pseudoinstruction t.labels x.op x.a1 x.a2 w.pc) w (
        subst
          (λ (b : Bool). Agree (some n) b (expand_pseudoinstruction t.labels x.op x.a1 x.a2 w.pc)) e
          h))
  | inr e ↦ rw e (
      other-Writes n (expand_pseudoinstruction t.labels x.op x.a1 x.a2 w.pc)
        (subst
          (λ (b : Bool). Agree (some n) b (expand_pseudoinstruction t.labels x.op x.a1 x.a2 w.pc)) e
          h)
        (encoded-Writes (encode_instruction t.labels w.pc x.op x.a1 x.a2 x.a3) w))
]

-- For every instruction and every pseudoinstruction whose size the first pass counts, in which the
-- operand of an `li` begins with a digit, perhaps behind a minus sign, the second pass exits, is
-- undefined, or moves the file position and `pc` by exactly the counted bytes, whatever labels the
-- two passes know; it always ends.
pub assemble_operands-Writes :
    (t : Tables) (x : Operands) (w : Writer) (labels : List Label) (n : ℕ)
    → (str_eq x.op (codes "li") ≡ false) ⊎ (is_number x.a2 ≡ true)
    → pseudoinstruction_size labels x.op x.a2 ≡ some n
    → Writes (bytes_of n) w (assemble_operands t x w)
assemble_operands-Writes t x w labels n h e = sized t x w n (
    subst
      (λ (o : Option ℕ).
        Agree o (is_pseudoinstruction x.op) (expand_pseudoinstruction t.labels x.op x.a1 x.a2 w.pc))
      e (Agree-expand_pseudoinstruction labels t.labels x.a1 x.a2 w.pc x.op h))
