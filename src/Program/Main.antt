-- ===== src/Program/Main.antt =====
-- From the text of a program to its exit code: the assembler's `assemble` (assembler/src), the
-- file between them, and `main` of the emulator (emulator/src/main.cpp).
use riscv_student_pack.Common.{
  ℕ, suc, ◌+◌, ◌-◌, ◌*◌, ◌<◌, ◌≤◌, ◌≡◌, refl, sym, ap, ◌∙◌, true, false, List, [], ◌∷◌, Option,
  none, some, length, codes, All, arith, inl, inr, Option-cases,
}
use mathlib.Core.Path.{subst}
use riscv_student_pack.Memory.{new_memory, update, ◌>>=◌}
use riscv_student_pack.Cpu.State.{
  Cpu, Machine, Kernel, IsMachine, IsCpu, new_cpu, set_pc, set_debug_mode, memory_size, stack_top,
}
use riscv_student_pack.Cpu.Syscall.Buffers.{IsKernel}
use riscv_student_pack.Emulator.{
  File, Stop, exited, Outcome, ran, run_loop, new_emulator, load_program, run_loaded, main_with,
  main, parse_words, max_steps,
}
use riscv_student_pack.Emulator.Loading.{IsLoaded, Loads, load_program-Loads}
use riscv_student_pack.Assembler.Main.{assemble}
use riscv_student_pack.Assembler.SecondPass.Arguments.{Operands}
use riscv_student_pack.Assembler.Chars.{str_eq}
use riscv_student_pack.Assembler.SecondPass.Output.{new_writer}
use riscv_student_pack.Program.{Statement, code, text, emit_words, result, IsGood}
use riscv_student_pack.Program.Files.{
  WordsAt, WordsAt-same, length-bytes_from, overlaid-bytes_from, program_file, program_file-size,
  output, program_file-IsFile, program-WordsAt,
}
use riscv_student_pack.Program.Running.{IsComputation, AllComputeOn}
use riscv_student_pack.Program.Passes.{assemble-text}
use riscv_student_pack.Program.Exits.{
  with_exit, length-code, IsComputation-IsGood, run_loop-program,
}

new_emulator-IsMachine : IsMachine (new_emulator memory_size)
unfolding new_emulator new_cpu new_memory
new_emulator-IsMachine = record {
  cpu_good = record { pc_fits = omega arith; x_fits = λ r. ground arith; zero_cell = refl };
  mem_good = record { size_fits = omega arith; cells_fit = λ a. omega arith };
  holds_word = omega arith;
}

-- What a run of `main` reports, if it gets to run.
abbrev pub report : Option Outcome → Option (Stop × (ℕ × ℕ))
report (some (ran r)) = some (r.stop, (r.step_count, r.exit_code))
report _ = none

-- The registers before the first instruction: all are 0 but the stack pointer.
abbrev pub first_registers : ℕ → ℕ
first_registers = update (λ _. 0) 2 stack_top

module _ {k : Kernel} (host : IsKernel k) (p : List Statement) (h : All IsComputation p)
    (on : AllComputeOn p first_registers) (number : result p first_registers 17 ≡ 93) where
  run_loop-limit :
      (m : Machine) (limit : ℕ)
      → IsMachine m
      → m.cpu ≡ new_cpu
      → length (code p) < limit
      → length (code (with_exit p)) * 4 ≤ m.mem.size
      → WordsAt m.mem.data_at 0 (code (with_exit p))
      → report (run_loop limit k m 0 >>= (λ r. some (ran r)))
        ≡ some (exited, (length (code p) + 1, result p first_registers 10))
  unfolding new_cpu
  run_loop-limit m limit good first short room words =
      let pc : m.cpu.pc ≡ 0 = ap (λ (c : Cpu). c.pc) first in
      let runs : m.cpu.running ≡ true = ap (λ (c : Cpu). c.running) first in
      let x : m.cpu.x ≡ first_registers = ap (λ (c : Cpu). c.x) first in
      let left = limit - (length (code p) + 1) in
      let count : limit ≡ length (code p) + suc left = omega (arith, short) in
      ap (λ n. report (run_loop n k m 0 >>= (λ r. some (ran r)))) count
      ∙ ap (λ o. report (o >>= (λ r. some (ran r))))
          (run_loop-program p m left host good runs (omega (arith, pc)) h
            (subst (AllComputeOn p) (sym x) on) (ap (λ y. result p y 17) x ∙ number)
            (omega (arith, pc, room))
            (subst (λ a. WordsAt m.mem.data_at a (code (with_exit p))) (sym pc) words))
      ∙ ap (λ y. some (exited, (length (code p) + 1, result p y 10))) x

  -- The file of the program, at address 0.
  run_loaded-program :
      (word : List ℕ) (m : Machine)
      → length (code p) < max_steps
      → IsLoaded (program_file (with_exit p)) 0 (new_emulator memory_size) 0 m
      → report (
          run_loaded k
            (record { debug_mode = false; program_file = some word; load_address = 0 })
            (0, m))
        ≡ some (exited, (length (code p) + 1, result p first_registers 10))
  unfolding run_loaded set_pc set_debug_mode new_emulator new_cpu new_memory
  run_loaded-program word m short loaded =
      let q = with_exit p in
      let w = emit_words (code q) new_writer in
      let good_q : All IsGood q = IsComputation-IsGood p h in
      let size = program_file-size q in
      let start = record m { cpu = set_debug_mode false (set_pc 0 m.cpu) } in
      let first : start.cpu ≡ new_cpu =
        ap (λ (c : Cpu). set_debug_mode false (set_pc 0 c)) loaded.same_cpu in
      let good : IsMachine start = record {
        cpu_good = subst IsCpu (sym first) (new_emulator-IsMachine.cpu_good);
        mem_good = loaded.good.mem_good;
        holds_word = loaded.good.holds_word;
      } in
      let cells : (c : ℕ) → c < 0 + length (code q) * 4 → m.mem.data_at c ≡ w.bytes c = λ c below.
        loaded.contents refl c
        ∙ overlaid-bytes_from w.file_length c w.bytes (λ _. 0) (omega (arith, below, size)) in
      run_loop-limit start max_steps good first short
        (omega (arith, loaded.same_size, short, length-code p))
        (WordsAt-same w.bytes m.mem.data_at 0 (code q) cells (program-WordsAt q good_q))

  room :
      length (code p) < max_steps
      → 0 + (program_file (with_exit p)).file_size ≤ (new_emulator memory_size).mem.size
  unfolding new_emulator new_memory
  room short = omega (arith, short, program_file-size (with_exit p), length-code p)

  main-program_file :
      (open_file : List ℕ → Option File) (word : List ℕ)
      → length (code p) < max_steps
      → str_eq word (codes "--debug") ≡ false
      → open_file word ≡ some (program_file (with_exit p))
      → report (main k open_file (word ∷ []))
        ≡ some (exited, (length (code p) + 1, result p first_registers 10))
  unfolding main main_with parse_words
  main-program_file open_file word short plain opened =
      let q = program_file (with_exit p) in
      let start = new_emulator memory_size in
      let loads =
        load_program-Loads {f = q} 0 (program_file-IsFile (with_exit p)) new_emulator-IsMachine in
      let got = Option-cases (load_program (some q) 0 start) in
      rw (plain, opened)
        (elim got [
          | inl e ↦ absurd (subst (Loads q 0 start) e loads)
          | inr ((status, m), e) ↦
              let loaded : IsLoaded q 0 start status m = subst (Loads q 0 start) e loads in
              let (_, zero_if) = loaded.success_iff in
              let success : status ≡ 0 = zero_if (
                room short,
                length-bytes_from q.file_size 0 (emit_words (code (with_exit p)) new_writer).bytes,
              ) in
              rw (e, success)
                (run_loaded-program word m short
                  (subst (λ st. IsLoaded q 0 start st m) success loaded))
        ])

  -- The file that the assembler makes of the program's text.
  pub main-assemble :
      (stale : Operands) (open_file : List ℕ → Option File) (word : List ℕ)
      → length (code p) < max_steps
      → str_eq word (codes "--debug") ≡ false
      → open_file word ≡ output (assemble stale (text (with_exit p)))
      → report (main k open_file (word ∷ []))
        ≡ some (exited, (length (code p) + 1, result p first_registers 10))
  main-assemble stale open_file word short plain holds =
      main-program_file open_file word short plain
        (holds ∙ ap output (assemble-text (with_exit p) stale (IsComputation-IsGood p h)))
