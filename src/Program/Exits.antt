-- ===== src/Program/Exits.antt =====
-- A straight-line program and the exit call behind it, under the loop of `main`
-- (emulator/src/main.cpp).
use riscv_student_pack.Common.{
  ℕ, suc, ◌+◌, ◌*◌, ◌%◌, ◌≤◌, ◌≡◌, refl, sym, ap, ◌∙◌, true, false, List, [], ◌∷◌, ◌++◌, some,
  length, length-append, add32, All, arith,
}
use mathlib.Core.Path.{subst}
use riscv_student_pack.Cpu.State.{Machine, Kernel, IsMachine, get_register}
use riscv_student_pack.Cpu.Syscall.Buffers.{IsKernel}
use riscv_student_pack.Emulator.{exited, run_loop}
use riscv_student_pack.Program.{
  Statement, register_op, immediate_op, load_number, move, no_operation, system_call, words_of,
  code, result, IsGood,
}
use riscv_student_pack.Program.Files.{WordsAt}
use riscv_student_pack.Program.Running.{
  Steps-IsMachine, after, IsComputation, AllComputeOn, read-WordsAt,
}
use riscv_student_pack.Program.Results.{
  program-Steps, exit_step, run_loop-Steps, exit_end, WordsAt-rest, append_assoc,
}

-- A program and the exit call behind it.
abbrev pub with_exit : List Statement → List Statement
with_exit p = p ++ (system_call ∷ [])

pub code-with_exit : (p : List Statement) → code (with_exit p) ≡ code p ++ code (system_call ∷ [])
code-with_exit [] = refl
code-with_exit (s ∷ p) =
    ap (λ l. words_of s ++ l) (code-with_exit p)
    ∙ sym (append_assoc (words_of s) (code p) (code (system_call ∷ [])))

pub length-code : (p : List Statement) → length (code (with_exit p)) ≡ length (code p) + 1
length-code p = ap length (code-with_exit p) ∙ length-append (code p) (code (system_call ∷ []))

computes-IsGood : (s : Statement) → IsComputation s → IsGood s
computes-IsGood (register_op op a b c) h = h
computes-IsGood (immediate_op op a b v) h = h
computes-IsGood (load_number a v) h = h
computes-IsGood (move a b) h = h
computes-IsGood no_operation h = h
computes-IsGood system_call h = absurd h

pub IsComputation-IsGood : (p : List Statement) → All IsComputation p → All IsGood (with_exit p)
IsComputation-IsGood [] h = (tt, tt)
IsComputation-IsGood (s ∷ p) (good, h) = (computes-IsGood s good, IsComputation-IsGood p h)

-- The loop of `main` over a program in memory.
pub run_loop-program :
    {k : Kernel} (p : List Statement) (m : Machine) (left : ℕ)
    → IsKernel k
    → IsMachine m
    → m.cpu.running ≡ true
    → m.cpu.pc % 4 ≡ 0
    → All IsComputation p
    → AllComputeOn p m.cpu.x
    → result p m.cpu.x 17 ≡ 93
    → m.cpu.pc + length (code (with_exit p)) * 4 ≤ m.mem.size
    → WordsAt m.mem.data_at m.cpu.pc (code (with_exit p))
    → run_loop (length (code p) + suc left) k m 0
      ≡ some (record {
        stop = exited;
        step_count = length (code p) + 1;
        exit_code = result p m.cpu.x 10;
        machine =
            let end = after (length (code p) + 1) (result p m.cpu.x) m in
            record end { cpu = record (end.cpu) { running = false } };
      })
unfolding get_register
run_loop-program {k} p m left host good runs aligned h on number room words =
    let n = length (code p) in
    let placed : WordsAt m.mem.data_at m.cpu.pc (code p ++ code (system_call ∷ [])) =
      subst (λ l. WordsAt m.mem.data_at m.cpu.pc l) (code-with_exit p) words in
    let path =
      program-Steps p m (code (system_call ∷ [])) host good runs aligned h on
        (omega (arith, room, length-code p)) placed in
    let m1 = after n (result p m.cpu.x) m in
    let good1 : IsMachine m1 = Steps-IsMachine host path good in
    let pc : m.cpu.pc + n * 4 ≡ m1.cpu.pc =
      omega (arith, room, length-code p, good.mem_good.size_fits) in
    let stops = exit_step k m1 runs number (
      read-WordsAt m.mem m1.cpu.pc _ [] good.mem_good (omega (arith, pc, aligned))
        (omega (arith, pc, room, length-code p))
        (subst (λ a. WordsAt m.mem.data_at a (code (system_call ∷ []))) pc
          (WordsAt-rest m.mem.data_at m.cpu.pc (code p) _ placed))) in
    let from_zero : 0 + n + 1 ≡ n + 1 = omega arith in
    let last : add32 (add32 m.cpu.pc (4 * n)) 4 ≡ add32 m.cpu.pc (4 * (n + 1)) = omega arith in
    run_loop-Steps (suc left) 0 path ∙ exit_end k left (0 + n) m1 _ runs stops ∙ (λ j.
      some (record {
        stop = exited;
        step_count = from_zero j;
        exit_code = result p m.cpu.x 10;
        machine = record m {
          cpu = record (m.cpu) { x = result p m.cpu.x; pc = last j; running = false };
        };
      }))
