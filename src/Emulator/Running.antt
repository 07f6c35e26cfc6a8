-- ===== src/Emulator/Running.antt =====
-- emulator/src/main.cpp: the loop of `main` as steps of the processor.
use riscv_student_pack.Common.{
  ℕ, zero, suc, ◌+◌, ◌<◌, ◌≡◌, ◌≢◌, inl, inr, refl, true, false, Option, none, some, arith,
  Bool-cases, Option-cases,
}
use mathlib.Core.Path.{subst}
use riscv_student_pack.Cpu.State.{
  Machine, Kernel, CpuStatus, cpu_ok, cpu_fetch_error, cpu_fetch_misaligned,
  cpu_fetch_out_of_bounds, cpu_decode_error, cpu_execution_error, cpu_illegal_instruction,
  cpu_syscall_exit, get_register, IsMachine,
}
use riscv_student_pack.Cpu.Syscall.Buffers.{IsKernel}
use riscv_student_pack.Cpu.Exec.{step}
use riscv_student_pack.Cpu.Exec.Invariant.{KeepsUnless, StepOverflows, step-KeepsUnless}
use riscv_student_pack.Emulator.{Finished, exited, halted, step_limit, failed, after_step, run_loop}

-- `n` successful steps of a running processor lead from one machine to another.
pub data Steps (k : Kernel) : ℕ → Machine → Machine → Type 0 where
  arrived : {m : Machine} → Steps k zero m m
  step_to :
      {n : ℕ} {m m1 m2 : Machine}
      → m.cpu.running ≡ true
      → step k m ≡ some (cpu_ok, m1)
      → Steps k n m1 m2
      → Steps k (suc n) m m2

-- How the loop ends at a machine that it has reached by `n` steps, with a limit of `limit`.
pub data Ends (k : Kernel) (limit n : ℕ) (m : Machine) : Finished → Type 0 where
  at_limit :
      {r : Finished}
      → n ≡ limit
      → r ≡ record { stop = step_limit; step_count = n; exit_code = 0; machine = m }
      → Ends k limit n m r
  not_running :
      {r : Finished}
      → n < limit
      → m.cpu.running ≡ false
      → r ≡ record { stop = halted; step_count = n; exit_code = 0; machine = m }
      → Ends k limit n m r
  by_exit :
      {r : Finished} {m' : Machine}
      → n < limit
      → m.cpu.running ≡ true
      → step k m ≡ some (cpu_syscall_exit, m')
      → r ≡ record {
        stop = exited;
        step_count = n + 1;
        exit_code = get_register m'.cpu 10;
        machine = m';
      }
      → Ends k limit n m r
  by_error :
      {r : Finished} {status : CpuStatus} {m' : Machine}
      → n < limit
      → m.cpu.running ≡ true
      → status ≢ cpu_ok
      → status ≢ cpu_syscall_exit
      → step k m ≡ some (status, m')
      → r ≡ record { stop = failed status; step_count = n + 1; exit_code = 0; machine = m' }
      → Ends k limit n m r

-- The steps before the end, and the end.
pub record Runs (k : Kernel) (done limit : ℕ) (m : Machine) (r : Finished) : Type 0 where
  pub steps : ℕ
  pub last : Machine
  pub path : Steps k steps m last
  pub end : Ends k limit (done + steps) last r

-- The steps before an undefined one.
pub record RunsToOverflow (k : Kernel) (limit : ℕ) (m : Machine) : Type 0 where
  pub steps : ℕ
  pub last : Machine
  pub below : steps < limit
  pub path : Steps k steps m last
  pub overflow : StepOverflows last

abbrev pub RunsOrOverflows : Kernel → ℕ → ℕ → ℕ → Machine → Option Finished → Type 0
RunsOrOverflows k left done limit m none = RunsToOverflow k left m
RunsOrOverflows k left done limit m (some r) = Runs k done limit m r × IsMachine r.machine

-- The same end under an equal count.
Ends-count :
    {k : Kernel} {limit a b : ℕ} {m : Machine} {r : Finished}
    → a ≡ b
    → Ends k limit a m r
    → Ends k limit b m r
Ends-count {k} {limit} {m = m} {r} e h = subst (λ n. Ends k limit n m r) e h

-- A run goes on behind a successful step.
one_more :
    (k : Kernel) (left done limit : ℕ) (m : Machine) {m' : Machine} (o : Option Finished)
    → m.cpu.running ≡ true
    → step k m ≡ some (cpu_ok, m')
    → RunsOrOverflows k left (done + 1) limit m' o
    → RunsOrOverflows k (suc left) done limit m o
one_more k left done limit m none runs e h = record {
  steps = suc h.steps;
  last = h.last;
  below = omega (arith, h.below);
  path = step_to runs e h.path;
  overflow = h.overflow;
}
one_more k left done limit m (some r) runs e (h, good) = (
  record {
    steps = suc h.steps;
    last = h.last;
    path = step_to runs e h.path;
    end = Ends-count (omega arith) h.end;
  },
  good,
)

ended :
    {k : Kernel} {done limit : ℕ} {m : Machine} {r : Finished}
    → Ends k limit done m r
    → Runs k done limit m r
ended {m = m} h = record { steps = 0; last = m; path = arrived; end = Ends-count (omega arith) h }

module _ (k : Kernel) (left done limit : ℕ) (bound : done + suc left ≡ limit) (m : Machine)
    (runs : m.cpu.running ≡ true) where
  stepped :
      (more : Machine → Option Finished) (status : CpuStatus) (m' : Machine)
      → step k m ≡ some (status, m')
      → IsMachine m'
      → RunsOrOverflows k left (done + 1) limit m' (more m')
      → RunsOrOverflows k (suc left) done limit m (after_step (done + 1) more (status, m'))
  stepped more cpu_ok m' e good ih = one_more k left done limit m (more m') runs e ih
  stepped more cpu_syscall_exit m' e good ih = (ended (by_exit (omega arith) runs e refl), good)
  stepped more cpu_fetch_error m' e good ih =
      (ended (by_error (omega arith) runs (λ q. cc) (λ q. cc) e refl), good)
  stepped more cpu_fetch_misaligned m' e good ih =
      (ended (by_error (omega arith) runs (λ q. cc) (λ q. cc) e refl), good)
  stepped more cpu_fetch_out_of_bounds m' e good ih =
      (ended (by_error (omega arith) runs (λ q. cc) (λ q. cc) e refl), good)
  stepped more cpu_decode_error m' e good ih =
      (ended (by_error (omega arith) runs (λ q. cc) (λ q. cc) e refl), good)
  stepped more cpu_execution_error m' e good ih =
      (ended (by_error (omega arith) runs (λ q. cc) (λ q. cc) e refl), good)
  stepped more cpu_illegal_instruction m' e good ih =
      (ended (by_error (omega arith) runs (λ q. cc) (λ q. cc) e refl), good)

-- With a host that delivers bytes and no more than asked for, from a machine in good order, and
-- with as many steps left as the limit allows, the loop of `main` ends: after successful steps of
-- `CPU::step` it stops at the limit, at a processor that does not run, at the exit call, whose
-- code is register 10, or at the first failed step, with the right step count and a machine in
-- good order; or, within the limit, it reaches an undefined step, a signed division of INT32_MIN
-- by -1.
pub run_loop-RunsOrOverflows :
    {k : Kernel} (left done limit : ℕ) (m : Machine)
    → IsKernel k
    → done + left ≡ limit
    → IsMachine m
    → RunsOrOverflows k left done limit m (run_loop left k m done)
unfolding run_loop
run_loop-RunsOrOverflows zero done limit m host bound good =
    (ended (at_limit (omega arith) refl), good)
run_loop-RunsOrOverflows {k} (suc left) done limit m host bound good =
    elim (Bool-cases m.cpu.running) [
      | inr stands ↦ simp stands (ended (not_running (omega arith) stands refl), good)
      | inl runs ↦ simp runs (elim (Option-cases (step k m)) [
        | inl undefined ↦
            let faulty : StepOverflows m =
              subst (KeepsUnless (StepOverflows m)) undefined (step-KeepsUnless host good) in
            rw undefined (record {
              steps = 0;
              last = m;
              below = omega arith;
              path = arrived;
              overflow = faulty;
            })
        | inr ((status, m'), e) ↦
            let kept : IsMachine m' =
              subst (KeepsUnless (StepOverflows m)) e (step-KeepsUnless host good) in
            rw e (
              stepped k left done limit bound m runs (λ (x : Machine). run_loop left k x (done + 1))
                status m' e kept
                (run_loop-RunsOrOverflows left (done + 1) limit m' host (omega arith) kept))
      ])
    ]
