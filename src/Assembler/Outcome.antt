-- ===== src/Assembler/Outcome.antt =====
-- How a function of the assembler ends.
use riscv_student_pack.Common.{Option, none, some}

-- By returning, by `exit(1)` with a message, by undefined behaviour, or not within the fuel.
pub data Outcome {ℓ} (A : Type ℓ) : Type ℓ where
  ok : A → Outcome A
  exited undefined unfinished : Outcome A

infixl 5 ◌>>=◌
abbrev pub ◌>>=◌ {ℓ κ} : {A : Type ℓ} {B : Type κ} → Outcome A → (A → Outcome B) → Outcome B
ok a >>= f = f a
exited >>= f = exited
undefined >>= f = undefined
unfinished >>= f = unfinished

-- The functions that end by `exit(1)` only.
abbrev pub or_exit {ℓ} : {A : Type ℓ} → Option A → Outcome A
or_exit none = exited
or_exit (some a) = ok a
