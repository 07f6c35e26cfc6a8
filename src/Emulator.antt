-- ===== src/Emulator.antt =====
-- emulator/include/emulator.hpp, emulator/src/emulator.cpp and emulator/src/main.cpp: loading a
-- program and running it. What they print is left out. `none` is undefined behaviour.
pub mod Loading
pub mod Running
use riscv_student_pack.Common.{
  ℕ, zero, suc, ◌+◌, ◌-◌, ◌^◌, Bool, true, false, not, List, [], ◌∷◌, Option, none, some, ltb, ◌==◌,
  if◌then◌else◌, codes, length,
}
use riscv_student_pack.Memory.{Memory, new_memory, ◌>>=◌}
use riscv_student_pack.Scan.{strtoul_auto}
use riscv_student_pack.Assembler.Chars.{str_eq}
use riscv_student_pack.Cpu.State.{
  Cpu, Machine, Kernel, CpuStatus, cpu_ok, cpu_fetch_error, cpu_fetch_misaligned,
  cpu_fetch_out_of_bounds, cpu_decode_error, cpu_execution_error, cpu_illegal_instruction,
  cpu_syscall_exit, new_cpu, get_register, set_pc, set_debug_mode, memory_size,
}
use riscv_student_pack.Cpu.Syscall.{copy_in}
use riscv_student_pack.Cpu.Exec.{step}

-- `Emulator::Emulator`
unfoldable pub new_emulator : ℕ → Machine
new_emulator size = record { cpu = new_cpu; mem = new_memory size; calls = [] }

-- A file as the host shows it: what `ftell` says of its end, and the bytes that `fread` delivers.
pub record File : Type 0 where
  pub file_size : ℕ
  pub delivered : List ℕ

abbrev load_failed : ℕ
load_failed = 2 ^ 32 - 1

-- `Emulator::load_program` behind `fopen`, which fails with `none`: the pattern of its result.
unfoldable pub load_program : Option File → (load_address : ℕ) → Machine → Option (ℕ × Machine)
load_program none load_address m = some (load_failed, m)
load_program (some f) load_address m =
    if ltb m.mem.size (load_address + f.file_size) then some (load_failed, m) else do
      mem' ← copy_in f.delivered load_address m.mem
      some (if length f.delivered == f.file_size then 0 else load_failed, record m { mem = mem' })

-- What ends the loop of `main`.
pub data Stop : Type 0 where
  exited halted step_limit : Stop
  failed : CpuStatus → Stop

pub record Finished : Type 0 where
  pub stop : Stop
  pub step_count : ℕ
  pub exit_code : ℕ
  pub machine : Machine

-- The two tests of the status behind a step; `more` is the rest of the loop.
abbrev pub after_step :
    (step_count : ℕ) → (Machine → Option Finished) → CpuStatus × Machine → Option Finished
after_step n more (cpu_syscall_exit, m) =
    some (record { stop = exited; step_count = n; exit_code = get_register m.cpu 10; machine = m })
after_step n more (cpu_ok, m) = more m
after_step n more (status, m) =
    some (record { stop = failed status; step_count = n; exit_code = 0; machine = m })

-- The loop of `main`, with `left` steps to go until `max_steps`.
unfoldable pub run_loop : (left : ℕ) → Kernel → Machine → (step_count : ℕ) → Option Finished
run_loop zero k m n =
    some (record { stop = step_limit; step_count = n; exit_code = 0; machine = m })
run_loop (suc left) k m n =
    let rest = λ (m' : Machine). run_loop left k m' (n + 1) in
    if not m.cpu.running
    then some (record { stop = halted; step_count = n; exit_code = 0; machine = m })
    else do r ← step k m; after_step (n + 1) rest r

abbrev pub max_steps : ℕ
max_steps = 1000000

-- The options of the command line.
pub record Options : Type 0 where
  pub debug_mode : Bool
  pub program_file : Option (List ℕ)
  pub load_address : ℕ

-- A word that is not `--debug` is the file, or behind that the address.
abbrev pub plain_word : List ℕ → Options → Option (List ℕ) → Options
plain_word word o none = record o { program_file = some word }
plain_word word o (some file) = record o { load_address = strtoul_auto word }

-- The loop over `argv`.
unfoldable pub parse_words : List (List ℕ) → Options → Options
unfolding str_eq
parse_words [] o = o
parse_words (word ∷ words) o = parse_words words (
    if str_eq word (codes "--debug")
    then record o { debug_mode = true }
    else plain_word word o o.program_file)

-- How `main` ends: with exit code 1 before the loop, or as the loop does.
pub data Outcome : Type 0 where
  refused : Outcome
  ran : Finished → Outcome

abbrev ran_of : Finished → Option Outcome
ran_of r = some (ran r)

-- What `main` does with the machine that `load_program` leaves.
unfoldable pub run_loaded : Kernel → Options → ℕ × Machine → Option Outcome
run_loaded k o (zero, m) =
    run_loop max_steps k
      (record m { cpu = set_debug_mode o.debug_mode (set_pc o.load_address m.cpu) }) 0
    >>= ran_of
run_loaded k o (suc e, m) = some refused

unfoldable pub main_with :
    Kernel → (List ℕ → Option File) → Options → Option (List ℕ) → Option Outcome
main_with k open_file o none = some refused
main_with k open_file o (some file) = do
  r ← load_program (open_file file) o.load_address (new_emulator memory_size)
  run_loaded k o r

-- `main`, with the words behind the program's name and the host's files.
unfoldable pub main : Kernel → (List ℕ → Option File) → List (List ℕ) → Option Outcome
main k open_file words =
    let o =
      parse_words words (record { debug_mode = false; program_file = none; load_address = 0 }) in
    main_with k open_file o o.program_file
