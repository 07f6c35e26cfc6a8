-- ===== src/Assembler/Instructions/Branching.antt =====
-- The assembler's `encode_instruction` (assembler/src/second_pass.cpp) against `CPU::step`
-- (emulator/src/cpu.cpp), for branches and jumps.
use riscv_student_pack.Common.{
  ℕ, ◌%◌, ◌<◌, ◌≡◌, refl, ap, ◌∙◌, Bool, true, false, not, List, Option, some, ltb, ◌==◌,
  if◌then◌else◌, codes, add32, sub32, IsU32, FitsSigned, arith, signed32, ltb_ℤ, Bool-cases, inl,
  inr,
}
use riscv_student_pack.Memory.{mem_ok, read32}
use riscv_student_pack.Encoder.{encode_b, encode_j}
use riscv_student_pack.Encoder.RoundTrip.{decode-encode_b, decode-encode_j}
use riscv_student_pack.Cpu.State.{
  Cpu, Machine, Kernel, CpuStatus, cpu_ok, reg_read, reg_write, IsMachine,
}
use riscv_student_pack.Cpu.Exec.{run_decoded, execute, execute_branch, take_branch, branched, step}
use riscv_student_pack.Cpu.Exec.Invariant.{advanced, step-fetched}
use riscv_student_pack.Assembler.Registers.{reg_num}
use riscv_student_pack.Assembler.Immediates.{Label, parse_imm}
use riscv_student_pack.Assembler.Instructions.{
  encode_instruction, find_form, encode_form, forms, branch_form,
}
use riscv_student_pack.Assembler.Instructions.Execution.{emitted}

pub data Branch : Type 0 where
  beq bne blt bge bltu bgeu : Branch

abbrev pub branch_name : Branch → List ℕ
branch_name beq = codes "beq"
branch_name bne = codes "bne"
branch_name blt = codes "blt"
branch_name bge = codes "bge"
branch_name bltu = codes "bltu"
branch_name bgeu = codes "bgeu"

-- When the instruction set has each branch taken.
abbrev pub condition : Branch → ℕ → ℕ → Bool
condition beq a b = a == b
condition bne a b = not (a == b)
condition blt a b = ltb_ℤ (signed32 a) (signed32 b)
condition bge a b = not (ltb_ℤ (signed32 a) (signed32 b))
condition bltu a b = ltb a b
condition bgeu a b = not (ltb a b)

abbrev branch_code : Branch → ℕ
branch_code beq = 0
branch_code bne = 1
branch_code blt = 4
branch_code bge = 5
branch_code bltu = 6
branch_code bgeu = 7

branch_code-lt : (op : Branch) → branch_code op < 8
branch_code-lt beq = omega arith
branch_code-lt bne = omega arith
branch_code-lt blt = omega arith
branch_code-lt bge = omega arith
branch_code-lt bltu = omega arith
branch_code-lt bgeu = omega arith

find_form-branch_name :
    (op : Branch) → find_form (branch_name op) forms ≡ some (branch_form (branch_code op))
unfolding find_form
find_form-branch_name beq = refl
find_form-branch_name bne = refl
find_form-branch_name blt = refl
find_form-branch_name bge = refl
find_form-branch_name bltu = refl
find_form-branch_name bgeu = refl

take_branch-condition :
    (op : Branch) (a b : ℕ) → take_branch a b (branch_code op) ≡ some (condition op a b)
unfolding take_branch
take_branch-condition beq a b = refl
take_branch-condition bne a b = refl
take_branch-condition blt a b = refl
take_branch-condition bge a b = refl
take_branch-condition bltu a b = refl
take_branch-condition bgeu a b = refl

-- `pc += imm - 4` behind a fetch arrives at the address that `imm` was computed from.
target_reached :
    (pc target : ℕ)
    → IsU32 pc
    → IsU32 target
    → add32 (add32 pc 4) (sub32 (sub32 target pc) 4) ≡ target
target_reached pc target h t = omega arith

-- The machine at `pc`.
abbrev pub at_pc : ℕ → Machine → Machine
at_pc pc m = record m { cpu = record (m.cpu) { pc = pc } }

-- What `execute` returns for a branch.
with_branched : Machine → CpuStatus × Cpu → Option (CpuStatus × Machine)
with_branched m (status, c) = some (status, record m { cpu = c })

branch_machine :
    (m : Machine) (target : ℕ) (taken : Option Bool) (t : Bool)
    → IsU32 m.cpu.pc
    → IsU32 target
    → taken ≡ some t
    → with_branched (advanced m) (branched (sub32 target m.cpu.pc) (advanced m).cpu taken)
      ≡ some (cpu_ok, at_pc (if t then target else add32 m.cpu.pc 4) m)
unfolding with_branched
branch_machine m target taken true h t e = rw (e, target_reached m.cpu.pc target h t) refl
branch_machine m target taken false h t e = rw e refl

-- If the word at the program counter is what `encode_instruction` makes of a branch to an address
-- at an even distance that fits 13 bits, `CPU::step` goes to that address if the branch's
-- condition holds of the two registers, and else to the next word, and changes nothing else.
pub step-branch :
    (k : Kernel) {m : Machine} (op : Branch) (labels : List Label) (a1 a2 a3 : List ℕ) {target : ℕ}
    → IsMachine m
    → m.cpu.running ≡ true
    → reg_num a1 < 32
    → reg_num a2 < 32
    → parse_imm labels a3 ≡ some target
    → IsU32 target
    → FitsSigned 13 (sub32 target m.cpu.pc)
    → sub32 target m.cpu.pc % 2 ≡ 0
    → read32 m.mem m.cpu.pc 0
      ≡ emitted (encode_instruction labels m.cpu.pc (branch_name op) a1 a2 a3)
    → step k m
      ≡ some (
        cpu_ok,
        at_pc
            (if condition op (reg_read m.cpu (reg_num a1)) (reg_read m.cpu (reg_num a2))
              then target
              else add32 m.cpu.pc 4)
            m,
      )
unfolding with_branched execute execute_branch encode_instruction encode_form reg_read
step-branch k {m} op labels a1 a2 a3 {target} good runs h1 h2 named small near even at =
    let imm = sub32 target m.cpu.pc in
    let word = encode_b imm (reg_num a2) (reg_num a1) (branch_code op) 0x63 in
    let here : read32 m.mem m.cpu.pc 0 ≡ some (mem_ok, word) =
      at ∙ rw (find_form-branch_name op, named) refl in
    step-fetched k m runs here
    ∙ ap (run_decoded k (advanced m)) (
        decode-encode_b imm (reg_num a2) (reg_num a1) (branch_code op) near even h2 h1
          (branch_code-lt op))
    ∙ branch_machine m target _ _ good.cpu_good.pc_fits small (take_branch-condition op _ _)

-- If the word at the program counter is what `encode_instruction` makes of `jal` to an address at
-- an even distance that fits 21 bits, `CPU::step` goes to that address with the next word's
-- address in the link register, and changes nothing else.
pub step-jal :
    (k : Kernel) {m : Machine} (labels : List Label) (a1 a2 a3 : List ℕ) {target : ℕ}
    → IsMachine m
    → m.cpu.running ≡ true
    → reg_num a1 < 32
    → parse_imm labels a2 ≡ some target
    → IsU32 target
    → FitsSigned 21 (sub32 target m.cpu.pc)
    → sub32 target m.cpu.pc % 2 ≡ 0
    → read32 m.mem m.cpu.pc 0 ≡ emitted (encode_instruction labels m.cpu.pc (codes "jal") a1 a2 a3)
    → step k m
      ≡ some (
        cpu_ok,
        record m { cpu = record (reg_write (reg_num a1) (add32 m.cpu.pc 4) m.cpu) { pc = target } },
      )
unfolding execute encode_instruction encode_form find_form reg_write
step-jal k {m} labels a1 a2 a3 {target} good runs h1 named small near even at =
    let imm = sub32 target m.cpu.pc in
    let word = encode_j imm (reg_num a1) 0x6f in
    let here : read32 m.mem m.cpu.pc 0 ≡ some (mem_ok, word) = at ∙ rw named refl in
    step-fetched k m runs here
    ∙ ap (run_decoded k (advanced m)) (decode-encode_j imm (reg_num a1) near even h1)
    ∙ elim (Bool-cases (reg_num a1 == 0)) [
      | inl z ↦ rw (z, target_reached m.cpu.pc target good.cpu_good.pc_fits small) refl
      | inr z ↦ rw (z, target_reached m.cpu.pc target good.cpu_good.pc_fits small) refl
    ]
