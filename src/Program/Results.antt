-- ===== src/Program/Results.antt =====
-- Straight-line programs on the processor (emulator/src/cpu.cpp), up to the exit call, and under
-- the loop of `main` (emulator/src/main.cpp).
use riscv_student_pack.Common.{
  ℕ, suc, ◌+◌, ◌*◌, ◌%◌, ◌≤◌, ◌≡◌, refl, sym, ap, ◌∙◌, true, false, List, [], ◌∷◌, ◌++◌, some,
  length, length-append, add32, All, arith, inr,
}
use mathlib.Core.Path.{subst}
use riscv_student_pack.Memory.{mem_ok, read32}
use riscv_student_pack.Encoder.{encode_i}
use riscv_student_pack.Encoder.RoundTrip.{decode-encode_i}
use riscv_student_pack.Cpu.State.{Machine, Kernel, cpu_syscall_exit, IsMachine, get_register}
use riscv_student_pack.Cpu.Syscall.{handle_syscall}
use riscv_student_pack.Cpu.Exec.{step, run_decoded, execute, execute_i, execute_system}
use riscv_student_pack.Cpu.Exec.Invariant.{step-fetched, advanced}
use riscv_student_pack.Cpu.Syscall.Buffers.{IsKernel}
use riscv_student_pack.Emulator.{exited, run_loop}
use riscv_student_pack.Emulator.Running.{Steps, arrived, step_to}
use riscv_student_pack.Program.{Statement, words_of, code, performed, result}
use riscv_student_pack.Program.Files.{WordsAt}
use riscv_student_pack.Program.Running.{
  Steps-append, Steps-IsMachine, after, IsComputation, AllComputeOn, statement-Steps,
}

pub WordsAt-rest :
    (f : ℕ → ℕ) (a : ℕ) (ws vs : List ℕ) → WordsAt f a (ws ++ vs) → WordsAt f (a + length ws * 4) vs
WordsAt-rest f a [] vs h = subst (λ b. WordsAt f b vs) (omega arith) h
WordsAt-rest f a (w ∷ ws) vs (e, h) =
    subst (λ b. WordsAt f b vs) (omega arith) (WordsAt-rest f (a + 4) ws vs h)

pub append_assoc : (xs ys zs : List ℕ) → (xs ++ ys) ++ zs ≡ xs ++ (ys ++ zs)
append_assoc [] ys zs = refl
append_assoc (x ∷ xs) ys zs = ap (λ l. x ∷ l) (append_assoc xs ys zs)

-- The program counter, and the machine, behind two runs.
after_twice : (i n : ℕ) (x y : ℕ → ℕ) (m : Machine) → after n y (after i x m) ≡ after (i + n) y m
after_twice i n x y m =
    let pc : add32 (add32 m.cpu.pc (4 * i)) (4 * n) ≡ add32 m.cpu.pc (4 * (i + n)) = omega arith in
    λ j. record m { cpu = record (m.cpu) { pc = pc j; x = y } }

-- Take a program of statements that are each one of the 18 R-type instructions of RV32IM, one of
-- the 9 immediate instructions with a number that its field holds, an `li` of a number that the
-- rounding of its upper part does not carry past INT32_MAX, an `mv` or a `nop`, in which every
-- register operand names a register by 1 to 31 bytes, none a space, comma, `#`, `(`, `:` or `.`. If
-- its words lie in the memory of a running machine in good order at its program counter, a multiple
-- of 4, and no `div` or `rem` divides INT32_MIN by -1 in its course, then as many steps of the
-- processor as there are words succeed, with any host that keeps to its contract, and leave in the
-- registers what the instruction set says of the statements, the program counter behind the last
-- word, and nothing else changed.
pub program-Steps :
    {k : Kernel} (p : List Statement) (m : Machine) (vs : List ℕ)
    → IsKernel k
    → IsMachine m
    → m.cpu.running ≡ true
    → m.cpu.pc % 4 ≡ 0
    → All IsComputation p
    → AllComputeOn p m.cpu.x
    → m.cpu.pc + length (code p) * 4 ≤ m.mem.size
    → WordsAt m.mem.data_at m.cpu.pc (code p ++ vs)
    → Steps k (length (code p)) m (after (length (code p)) (result p m.cpu.x) m)
program-Steps {k} [] m vs host good runs aligned h on room words =
    let pc : m.cpu.pc ≡ add32 m.cpu.pc 0 = omega (arith, good.cpu_good.pc_fits) in
    subst (λ (m' : Machine). Steps k 0 m m') (λ j. record m { cpu = record (m.cpu) { pc = pc j } })
      arrived
program-Steps {k} (s ∷ p) m vs host good runs aligned (computes, h) (on, later) room words =
    let ws = words_of s in
    let len = length-append ws (code p) in
    let all : WordsAt m.mem.data_at m.cpu.pc (ws ++ (code p ++ vs)) =
      subst (λ l. WordsAt m.mem.data_at m.cpu.pc l) (append_assoc ws (code p) vs) words in
    let m1 = after (length ws) (performed s m.cpu.x) m in
    let front : Steps k (length ws) m m1 =
      statement-Steps k good runs aligned s (code p ++ vs) computes on (omega (arith, room, len))
        all in
    let pc : m.cpu.pc + length ws * 4 ≡ m1.cpu.pc =
      omega (arith, room, len, good.mem_good.size_fits) in
    let rest =
      program-Steps p m1 vs host (Steps-IsMachine host front good) runs (omega (arith, pc, aligned))
        h later (omega (arith, pc, room, len))
        (subst (λ a. WordsAt m.mem.data_at a (code p ++ vs)) pc
          (WordsAt-rest m.mem.data_at m.cpu.pc ws (code p ++ vs) all)) in
    subst (λ n. Steps k n m (after n (result (s ∷ p) m.cpu.x) m)) (sym len)
      (subst (λ (m' : Machine). Steps k (length ws + length (code p)) m m')
        (after_twice (length ws) (length (code p)) (performed s m.cpu.x) (result (s ∷ p) m.cpu.x) m)
        (Steps-append front rest))

-- `ecall` with the number of `exit` stops the processor.
pub exit_step :
    (k : Kernel) (m : Machine)
    → m.cpu.running ≡ true
    → m.cpu.x 17 ≡ 93
    → read32 m.mem m.cpu.pc 0 ≡ some (mem_ok, encode_i 0x000 0x00 0x0 0x00 0x73)
    → step k m
      ≡ some (cpu_syscall_exit, record m { cpu = record ((advanced m).cpu) { running = false } })
unfolding execute execute_i execute_system handle_syscall
exit_step k m runs number fetches =
    step-fetched k m runs fetches
    ∙ ap (run_decoded k (advanced m)) (
        decode-encode_i 0 0 0 0 0x73 (ground arith) (omega arith) (omega arith) (omega arith)
          (inr (inr (inr refl))))
    ∙ rw number refl

-- The loop of `main` along successful steps.
pub run_loop-Steps :
    {k : Kernel} {n : ℕ} {m m' : Machine} (left done : ℕ)
    → Steps k n m m'
    → run_loop (n + left) k m done ≡ run_loop left k m' (done + n)
unfolding run_loop
run_loop-Steps {k} {m = m} left done arrived =
    ap (λ i. run_loop i k m done) (omega arith) ∙ ap (run_loop left k m) (omega arith)
run_loop-Steps {k} {m = m} {m' = m'} left done (step_to {n} runs e h) =
    let count : suc n + left ≡ suc (n + left) = omega arith in
    rw count
      (simp runs (rw e (run_loop-Steps left (done + 1) h ∙ ap (run_loop left k m') (omega arith))))

pub exit_end :
    (k : Kernel) (left n : ℕ) (m m' : Machine)
    → m.cpu.running ≡ true
    → step k m ≡ some (cpu_syscall_exit, m')
    → run_loop (suc left) k m n
      ≡ some (record {
        stop = exited;
        step_count = n + 1;
        exit_code = get_register m'.cpu 10;
        machine = m';
      })
unfolding run_loop
exit_end k left n m m' runs e = simp runs (rw e refl)
