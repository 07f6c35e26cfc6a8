-- ===== src/Assembler/Pseudo/Building.antt =====
-- The two instructions of `li` and `la` (assembler/src/expand_pseudoinstruction.cpp) on the
-- processor (emulator/src/cpu.cpp).
use riscv_student_pack.Common.{
  ℕ, ◌*◌, ◌%◌, ◌^◌, ◌<◌, ◌≡◌, refl, ap, ◌∙◌, fun_ext, true, some, ◌==◌, if◌then◌else◌, add32, sub32,
  shl32, IsU32, FitsSigned, arith, Bool-cases, inl, inr,
}
use riscv_student_pack.Memory.{mem_ok, read32, update}
use riscv_student_pack.Encoder.{encode_i, encode_u}
use riscv_student_pack.Encoder.RoundTrip.{decode-encode_i, decode-encode_u}
use riscv_student_pack.Cpu.State.{Cpu, Machine, Kernel, cpu_ok, reg_read, reg_write}
use riscv_student_pack.Cpu.Alu.{execute_alu}
use riscv_student_pack.Cpu.Exec.{run_decoded, execute, execute_i, execute_u, write_back, step}
use riscv_student_pack.Cpu.Exec.Invariant.{advanced, step-fetched}
use riscv_student_pack.Emulator.Running.{Steps, arrived, step_to}
use riscv_student_pack.Assembler.Outcome.{ok}
use riscv_student_pack.Assembler.Pseudo.{hi20, lo12}

-- The upper and the lower part of a number, where `hi20` does not overflow.
pub record IsSplit (v hi : ℕ) : Type 0 where
  pub hi_fits : IsU32 hi
  pub lo_fits : FitsSigned 12 (lo12 v hi)
  pub upper_round : shl32 hi 12 % 2 ^ 12 ≡ 0
  pub sum : add32 (shl32 hi 12) (lo12 v hi) ≡ v

pub hi20-IsSplit : (v hi : ℕ) → IsU32 v → hi20 v ≡ ok hi → IsSplit v hi
hi20-IsSplit v hi h e = record {
  hi_fits = ground (arith, e);
  lo_fits = ground (arith, e);
  upper_round = omega arith;
  sum = ground (arith, e);
}

module _ (k : Kernel) (m : Machine) (runs : m.cpu.running ≡ true) where
  pub step-lui :
      (v rd : ℕ)
      → IsU32 v
      → v % 2 ^ 12 ≡ 0
      → rd < 32
      → read32 m.mem m.cpu.pc 0 ≡ some (mem_ok, encode_u v rd 0x37)
      → step k m ≡ some (write_back rd v (advanced m))
  unfolding execute execute_u
  step-lui v rd h round hd fetches =
      step-fetched k m runs fetches
      ∙ ap (run_decoded k (advanced m)) (decode-encode_u v rd 0x37 h round hd (inl refl))

  pub step-auipc :
      (v rd : ℕ)
      → IsU32 v
      → v % 2 ^ 12 ≡ 0
      → rd < 32
      → read32 m.mem m.cpu.pc 0 ≡ some (mem_ok, encode_u v rd 0x17)
      → step k m ≡ some (write_back rd (sub32 (add32 (add32 m.cpu.pc 4) v) 4) (advanced m))
  unfolding execute execute_u
  step-auipc v rd h round hd fetches =
      step-fetched k m runs fetches
      ∙ ap (run_decoded k (advanced m)) (decode-encode_u v rd 0x17 h round hd (inr refl))

  pub step-addi :
      (imm rs1 rd : ℕ)
      → FitsSigned 12 imm
      → rs1 < 32
      → rd < 32
      → read32 m.mem m.cpu.pc 0 ≡ some (mem_ok, encode_i imm rs1 0x0 rd 0x13)
      → step k m ≡ some (write_back rd (add32 (reg_read m.cpu rs1) imm) (advanced m))
  unfolding execute execute_i execute_alu reg_read
  step-addi imm rs1 rd h h1 hd fetches =
      step-fetched k m runs fetches
      ∙ ap (run_decoded k (advanced m))
          (decode-encode_i imm rs1 0x0 rd 0x13 h h1 (omega arith) hd (inr (inl refl)))

-- A register written twice.
update_twice : (f : ℕ → ℕ) (p v w : ℕ) → update (update f p v) p w ≡ update f p w
update_twice f p v w = fun_ext (λ q. ground arith)

-- The machine behind `n` instructions that leave `v` in `rd` and change nothing else.
abbrev pub left_in : (rd v n : ℕ) → Machine → Machine
left_in rd v n m = record m { cpu = record (reg_write rd v m.cpu) { pc = add32 m.cpu.pc (4 * n) } }

abbrev pub written : (rd v : ℕ) → (ℕ → ℕ) → ℕ → ℕ
written rd v x = if rd == 0 then x else update x rd v

pub reg_write-written : (rd v : ℕ) (c : Cpu) → reg_write rd v c ≡ record c { x = written rd v c.x }
unfolding reg_write
reg_write-written rd v c = elim (Bool-cases (rd == 0)) [ inl z ↦ rw z refl | inr z ↦ rw z refl ]

-- The machine between the two instructions.
abbrev halfway : (rd u : ℕ) → Machine → Machine
halfway rd u m = record m {
  cpu = record (m.cpu) { pc = add32 m.cpu.pc 4; x = written rd u m.cpu.x };
}

pc_twice : (pc : ℕ) → add32 (add32 pc 4) 4 ≡ add32 pc (4 * 2)
pc_twice pc = omega arith

-- The lower part is added to the register that has just been written, unless that is `x0`.
lower_added :
    (rd u lo v : ℕ) (m : Machine)
    → add32 u lo ≡ v
    → write_back rd (add32 (reg_read (halfway rd u m).cpu rd) lo) (advanced (halfway rd u m))
      ≡ (cpu_ok, left_in rd v 2 m)
unfolding reg_write reg_read
lower_added rd u lo v m e = elim (Bool-cases (rd == 0)) [
  | inl z ↦ simp z (λ i. (cpu_ok, record m { cpu = record (m.cpu) { pc = pc_twice m.cpu.pc i } }))
  | inr z ↦
      let own : (rd == rd) ≡ true = ground arith in
      simp (z, own, e)
        (λ i. (
          cpu_ok,
          record m {
            cpu = record (m.cpu) { pc = pc_twice m.cpu.pc i; x = update_twice m.cpu.x rd u v i };
          },
        ))
]

-- `addi` behind an instruction that has put `u` into its register.
add_lower :
    {k : Kernel} {m : Machine} (rd u lo v : ℕ)
    → m.cpu.running ≡ true
    → add32 u lo ≡ v
    → FitsSigned 12 lo
    → rd < 32
    → step k m ≡ some (write_back rd u (advanced m))
    → read32 m.mem (add32 m.cpu.pc 4) 0 ≡ some (mem_ok, encode_i lo rd 0x0 rd 0x13)
    → Steps k 2 m (left_in rd v 2 m)
add_lower {k} {m} rd u lo v runs e fits hd first second =
    step_to runs
      (first
        ∙ ap (λ (c : Cpu). some (cpu_ok, record m { cpu = c }))
            (reg_write-written rd u (advanced m).cpu))
      (step_to runs
        (step-addi k (halfway rd u m) runs lo rd rd fits hd hd second
          ∙ ap some (lower_added rd u lo v m e))
        arrived)

module _ (k : Kernel) (m : Machine) (rd v hi : ℕ) (runs : m.cpu.running ≡ true) (register : rd < 32)
    (number : IsU32 v) (upper : hi20 v ≡ ok hi)
    (second : read32 m.mem (add32 m.cpu.pc 4) 0
      ≡ some (mem_ok, encode_i (lo12 v hi) rd 0x0 rd 0x13)) where
  pub Steps-li :
      read32 m.mem m.cpu.pc 0 ≡ some (mem_ok, encode_u (shl32 hi 12) rd 0x37)
      → Steps k 2 m (left_in rd v 2 m)
  Steps-li first =
      let s = hi20-IsSplit v hi number upper in
      add_lower rd (shl32 hi 12) (lo12 v hi) v runs s.sum s.lo_fits register
        (step-lui k m runs (shl32 hi 12) rd (omega arith) s.upper_round register first) second

  pub Steps-la :
      IsU32 m.cpu.pc
      → read32 m.mem m.cpu.pc 0 ≡ some (mem_ok, encode_u (shl32 hi 12) rd 0x17)
      → Steps k 2 m (left_in rd (add32 m.cpu.pc v) 2 m)
  Steps-la fits first =
      let s = hi20-IsSplit v hi number upper in
      add_lower rd (sub32 (add32 (add32 m.cpu.pc 4) (shl32 hi 12)) 4) (lo12 v hi) (add32 m.cpu.pc v)
        runs (omega (arith, s.sum)) s.lo_fits register
        (step-auipc k m runs (shl32 hi 12) rd (omega arith) s.upper_round register first) second
