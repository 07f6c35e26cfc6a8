-- ===== src/Assembler/SecondPass/Finishing.antt =====
-- assembler/src/second_pass.cpp: reading the operands of a line always ends.
use riscv_student_pack.Common.{ℕ, List, Option, none, some, ltb, length, take, Bool-cases, inl, inr}
use riscv_student_pack.Assembler.Outcome.{Outcome, ok, exited, undefined, ◌>>=◌}
use riscv_student_pack.Assembler.Chars.{trim, skip_spaces}
use riscv_student_pack.Assembler.Text.{split_at, cut_at}
use riscv_student_pack.Assembler.SecondPass.Arguments.{
  Operands, stored, store_rest, store_operands, store_all, parse_instruction_args,
}

-- A run that ends.
pub data IsFinished {ℓ} {A : Type ℓ} : Outcome A → Type ℓ where
  by_return : (a : A) → IsFinished (ok a)
  by_exit : IsFinished exited
  by_undefined : IsFinished undefined

pub IsFinished-bind {ℓ κ} :
    {A : Type ℓ} {B : Type κ} {o : Outcome A} {f : A → Outcome B}
    → IsFinished o
    → ((a : A) → IsFinished (f a))
    → IsFinished (o >>= f)
IsFinished-bind (by_return a) k = k a
IsFinished-bind by_exit k = by_exit
IsFinished-bind by_undefined k = by_undefined

IsFinished-stored : (size : ℕ) (s : List ℕ) → IsFinished (stored size s)
IsFinished-stored size s = elim (Bool-cases (ltb (length s) size)) [
  | inl e ↦ rw e (by_return s)
  | inr e ↦ rw e by_undefined
]

IsFinished-store_rest :
    (x : Operands) (y : List ℕ) (o : Option (List ℕ × List ℕ)) → IsFinished (store_rest x y o)
IsFinished-store_rest x y none = IsFinished-bind (IsFinished-stored 32 _) (λ a2. by_return _)
IsFinished-store_rest x y (some (before, after)) =
    IsFinished-bind (IsFinished-stored 32 (cut_at b',' (skip_spaces y))) (λ a2.
      IsFinished-bind (IsFinished-stored 32 (trim after))
        (λ a3. by_return (record x { a2 = a2; a3 = a3 })))

IsFinished-store_operands :
    (x : Operands) (args : List ℕ) (o : Option (List ℕ × List ℕ))
    → IsFinished (store_operands x args o)
IsFinished-store_operands x args none = IsFinished-bind (IsFinished-stored 32 _) (λ a1. by_return _)
IsFinished-store_operands x args (some (before, after)) =
    IsFinished-bind (IsFinished-stored 32 before)
      (λ a1. IsFinished-store_rest (record x { a1 = a1 }) after (split_at b',' after))

IsFinished-store_all :
    (old : Operands) (line : List ℕ) (o : Option (List ℕ × List ℕ))
    → IsFinished (store_all old line o)
IsFinished-store_all old line none = IsFinished-bind (IsFinished-stored 16 _) (λ op. by_return _)
IsFinished-store_all old line (some (before, after)) =
    IsFinished-bind (IsFinished-stored 16 before) (λ op.
      IsFinished-store_operands (record old { op = op }) (trim after) (split_at b',' (trim after)))

pub parse_instruction_args-IsFinished :
    (s : List ℕ) (old : Operands) → IsFinished (parse_instruction_args s old)
unfolding parse_instruction_args
parse_instruction_args-IsFinished s old =
    IsFinished-store_all old (take 511 s) (split_at b' ' (take 511 s))
