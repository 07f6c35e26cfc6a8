-- ===== src/Program/Running.antt =====
-- A program in memory on the processor (emulator/src/cpu.cpp).
use riscv_student_pack.Common.{
  ℕ, ◌+◌, ◌*◌, ◌%◌, ◌<◌, ◌≤◌, ◌≡◌, refl, sym, ap, ◌∙◌, true, List, [], ◌∷◌, ◌++◌, some, ◌==◌,
  length, add32, IsU32, FitsSigned, arith, Bool-cases, inl, inr,
}
use mathlib.Core.Path.{subst}
use riscv_student_pack.Memory.{Memory, IsMemory, mem_ok, read32}
use riscv_student_pack.Memory.Access.{read_result, read32-read_result}
use riscv_student_pack.Encoder.{encode_i}
use riscv_student_pack.Cpu.State.{Cpu, Machine, Kernel, cpu_ok, IsMachine, reg_read}
use riscv_student_pack.Cpu.Exec.{step}
use riscv_student_pack.Cpu.Exec.Invariant.{KeepsUnless, StepOverflows, step-KeepsUnless, advanced}
use riscv_student_pack.Cpu.Syscall.Buffers.{IsKernel}
use riscv_student_pack.Emulator.Running.{Steps, arrived, step_to}
use riscv_student_pack.Assembler.Registers.{reg_num}
use riscv_student_pack.Assembler.Instructions.{encode_instruction}
use riscv_student_pack.Assembler.Instructions.Mnemonics.{Mnemonic, name, meaning, IsDefined}
use riscv_student_pack.Assembler.Instructions.Execution.{
  encode_instruction-name, step-encode_instruction, emitted,
}
use riscv_student_pack.Assembler.Instructions.Immediate.{
  ImmediateMnemonic, immediate_name, immediate_meaning, encode_instruction-immediate,
  step-encode_immediate,
}
use riscv_student_pack.Assembler.SecondPass.Expansion.{parse_printed}
use riscv_student_pack.Assembler.Pseudo.{print_int, is_small, lo12}
use riscv_student_pack.Assembler.Pseudo.Building.{step-addi, Steps-li, reg_write-written}
use riscv_student_pack.Assembler.SecondPass.Constants.{RoundsUp, rounded}
use riscv_student_pack.Program.{
  Statement, register_op, immediate_op, load_number, move, no_operation, system_call, words_of,
  upper_part, large_words, set, performed, IsGood,
}
use riscv_student_pack.Program.Files.{WordsAt}

pub Steps-append :
    {k : Kernel} {n i : ℕ} {m m1 m2 : Machine}
    → Steps k n m m1
    → Steps k i m1 m2
    → Steps k (n + i) m m2
Steps-append {k} {i = i} {m = m} {m2 = m2} arrived h = subst (λ n. Steps k n m m2) (omega arith) h
Steps-append {k} {i = i} {m = m} {m2 = m2} (step_to {n} runs e g) h =
    subst (λ n. Steps k n m m2) (omega arith) (step_to runs e (Steps-append g h))

-- Successful steps lead from a machine in good order to one.
pub Steps-IsMachine :
    {k : Kernel} {n : ℕ} {m m' : Machine} → IsKernel k → Steps k n m m' → IsMachine m → IsMachine m'
Steps-IsMachine host arrived good = good
Steps-IsMachine {m = m} host (step_to runs e h) good =
    Steps-IsMachine host h (subst (KeepsUnless (StepOverflows m)) e (step-KeepsUnless host good))

-- The machine with other registers, `n` instructions further.
abbrev pub after : (n : ℕ) → (ℕ → ℕ) → Machine → Machine
after n x m = record m { cpu = record (m.cpu) { pc = add32 m.cpu.pc (4 * n); x = x } }

-- A statement that leaves the registers to the program, and is no call of the host.
abbrev pub IsComputation : Statement → Type 0
IsComputation system_call = ⊥
IsComputation s = IsGood s

-- The registers on which the emulator computes a statement: no division overflows.
abbrev pub ComputesOn : Statement → (ℕ → ℕ) → Type 0
ComputesOn (register_op op a b c) x = IsDefined op (x (reg_num b)) (x (reg_num c))
ComputesOn _ x = Unit {0}

-- The same all along a program.
abbrev pub AllComputeOn : List Statement → (ℕ → ℕ) → Type 0
AllComputeOn [] x = Unit {0}
AllComputeOn (s ∷ p) x = ComputesOn s x × AllComputeOn p (performed s x)

-- What the processor fetches.
pub read-WordsAt :
    (m : Memory) (a v : ℕ) (vs : List ℕ)
    → IsMemory m
    → a % 4 ≡ 0
    → a + 4 ≤ m.size
    → WordsAt m.data_at a (v ∷ vs)
    → read32 m a 0 ≡ some (mem_ok, v)
unfolding read_result
read-WordsAt m a v vs good aligned room (e, rest) =
    read32-read_result good a 0 (omega (arith, room, good.size_fits)) (omega (arith, room))
    ∙ ground (arith, room, e)

reg_read-plain : (c : Cpu) (r : ℕ) → c.x 0 ≡ 0 → reg_read c r ≡ c.x r
unfolding reg_read
reg_read-plain c r z = elim (Bool-cases (r == 0)) [
  | inl e ↦ let here : r ≡ 0 = ground (arith, e) in rw e (sym z ∙ ap c.x (sym here))
  | inr e ↦ rw e refl
]

-- One statement from its words.
module _ (k : Kernel) {m : Machine} (good : IsMachine m) (runs : m.cpu.running ≡ true)
    (aligned : m.cpu.pc % 4 ≡ 0) where
  register_op-Steps :
      (op : Mnemonic) (a b c : List ℕ) (vs : List ℕ)
      → IsGood (register_op op a b c)
      → IsDefined op (m.cpu.x (reg_num b)) (m.cpu.x (reg_num c))
      → m.cpu.pc + 4 ≤ m.mem.size
      → WordsAt m.mem.data_at m.cpu.pc (words_of (register_op op a b c) ++ vs)
      → Steps k 1 m (after 1 (performed (register_op op a b c) m.cpu.x) m)
  register_op-Steps op a b c vs (ha, (hb, hc)) defined room words =
      let value = meaning op (reg_read m.cpu (reg_num b)) (reg_read m.cpu (reg_num c)) in
      let zero_cell = good.cpu_good.zero_cell in
      let fetched : read32 m.mem m.cpu.pc 0
          ≡ emitted (encode_instruction [] m.cpu.pc (name op) a b c) =
        read-WordsAt m.mem m.cpu.pc _ vs good.mem_good aligned room words
        ∙ sym (ap emitted (encode_instruction-name op [] m.cpu.pc a b c)) in
      let stepped : step k m ≡ some (cpu_ok, after 1 (performed (register_op op a b c) m.cpu.x) m) =
        step-encode_instruction k op [] a b c good runs ha.number_fits hb.number_fits hc.number_fits
          (subst (λ (p : ℕ × ℕ). IsDefined op p.0 p.1)
            (λ i. (
              sym (reg_read-plain m.cpu (reg_num b) zero_cell) i,
              sym (reg_read-plain m.cpu (reg_num c) zero_cell) i,
            ))
            defined)
          fetched
        ∙ ap (λ (c' : Cpu). some (cpu_ok, record m { cpu = c' }))
            (reg_write-written (reg_num a) value (advanced m).cpu)
        ∙ rw
            (reg_read-plain m.cpu (reg_num b) zero_cell, reg_read-plain m.cpu (reg_num c) zero_cell)
            refl in
      step_to runs stepped arrived

  immediate_op-Steps :
      (op : ImmediateMnemonic) (a b : List ℕ) (v : ℕ) (vs : List ℕ)
      → IsGood (immediate_op op a b v)
      → m.cpu.pc + 4 ≤ m.mem.size
      → WordsAt m.mem.data_at m.cpu.pc (words_of (immediate_op op a b v) ++ vs)
      → Steps k 1 m (after 1 (performed (immediate_op op a b v) m.cpu.x) m)
  immediate_op-Steps op a b v vs (ha, (hb, (fits, hv))) room words =
      let value = immediate_meaning op (reg_read m.cpu (reg_num b)) v in
      let reads = parse_printed [] v fits in
      let fetched : read32 m.mem m.cpu.pc 0
          ≡ emitted (encode_instruction [] m.cpu.pc (immediate_name op) a b (print_int v)) =
        read-WordsAt m.mem m.cpu.pc _ vs good.mem_good aligned room words
        ∙ sym (
            ap emitted (
              encode_instruction-immediate [] m.cpu.pc v a b (print_int v) ha.number_fits
                hb.number_fits reads op hv)) in
      let stepped : step k m
          ≡ some (cpu_ok, after 1 (performed (immediate_op op a b v) m.cpu.x) m) =
        step-encode_immediate k m op [] v a b (print_int v) runs ha.number_fits hb.number_fits reads
          hv fetched
        ∙ ap (λ (c' : Cpu). some (cpu_ok, record m { cpu = c' }))
            (reg_write-written (reg_num a) value (advanced m).cpu)
        ∙ rw (reg_read-plain m.cpu (reg_num b) (good.cpu_good.zero_cell)) refl in
      step_to runs stepped arrived

  -- `addi` of 0, as `mv` and `nop` need it.
  copied :
      (rd rs : ℕ) (vs : List ℕ)
      → rd < 32
      → rs < 32
      → m.cpu.pc + 4 ≤ m.mem.size
      → WordsAt m.mem.data_at m.cpu.pc (encode_i 0 rs 0x0 rd 0x13 ∷ vs)
      → Steps k 1 m (after 1 (set rd (m.cpu.x rs) m.cpu.x) m)
  copied rd rs vs hd hs room words =
      let same : add32 (m.cpu.x rs) 0 ≡ m.cpu.x rs = omega (arith, good.cpu_good.x_fits rs) in
      step_to runs
        (step-addi k m runs 0 rs rd (inl (omega arith)) hs hd
            (read-WordsAt m.mem m.cpu.pc _ vs good.mem_good aligned room words)
          ∙ ap (λ (c' : Cpu). some (cpu_ok, record m { cpu = c' }))
              (reg_write-written rd (add32 (reg_read m.cpu rs) 0) (advanced m).cpu)
          ∙ rw (reg_read-plain m.cpu rs (good.cpu_good.zero_cell), same) refl)
        arrived

  -- What `li` and its words mean, whichever they are.
  LoadsBy : List ℕ → (rd v : ℕ) → List ℕ → Type 0
  LoadsBy ws rd v vs =
      m.cpu.pc + length ws * 4 ≤ m.mem.size
      → WordsAt m.mem.data_at m.cpu.pc (ws ++ vs)
      → Steps k (length ws) m (after (length ws) (set rd v m.cpu.x) m)

  small_number :
      (rd v : ℕ) (vs : List ℕ)
      → rd < 32
      → IsU32 v
      → is_small v ≡ true
      → LoadsBy (encode_i v 0 0x0 rd 0x13 ∷ []) rd v vs
  unfolding LoadsBy reg_read
  small_number rd v vs register number small room words =
      let fits : FitsSigned 12 v = ground (arith, small) in
      let same : add32 0 v ≡ v = omega (arith, number) in
      step_to runs
        (step-addi k m runs v 0 rd fits (omega arith) register
            (read-WordsAt m.mem m.cpu.pc _ vs good.mem_good aligned room words)
          ∙ ap (λ (c' : Cpu). some (cpu_ok, record m { cpu = c' }))
              (reg_write-written rd (add32 0 v) (advanced m).cpu)
          ∙ rw same refl)
        arrived

  large_number :
      (rd v : ℕ) (vs : List ℕ) → rd < 32 → IsU32 v → RoundsUp v → LoadsBy (large_words rd v) rd v vs
  unfolding LoadsBy
  large_number rd v vs register number up room (first, (second, rest)) =
      let next : add32 m.cpu.pc 4 ≡ m.cpu.pc + 4 = omega (arith, room, good.mem_good.size_fits) in
      let low = encode_i (lo12 v (upper_part v)) rd 0x0 rd 0x13 in
      subst (λ (m' : Machine). Steps k 2 m m')
        (ap (λ (c' : Cpu). record m { cpu = record c' { pc = add32 m.cpu.pc (4 * 2) } })
          (reg_write-written rd v m.cpu))
        (Steps-li k m rd v (upper_part v) runs register number (rounded v up)
          (ap (λ a. read32 m.mem a 0) next
            ∙ read-WordsAt m.mem (m.cpu.pc + 4) _ vs good.mem_good (omega (arith, aligned))
                (omega (arith, room)) (second, rest))
          (read-WordsAt m.mem m.cpu.pc _ (low ∷ vs) good.mem_good aligned (omega (arith, room))
            (first, (second, rest))))

  load_number-Steps :
      (a : List ℕ) (v : ℕ) (vs : List ℕ)
      → IsGood (load_number a v)
      → LoadsBy (words_of (load_number a v)) (reg_num a) v vs
  load_number-Steps a v vs (ha, (number, up)) = elim (Bool-cases (is_small v)) [
    | inl small ↦ rw small (small_number (reg_num a) v vs ha.number_fits number small)
    | inr large ↦ rw large (large_number (reg_num a) v vs ha.number_fits number up)
  ]

  pub statement-Steps :
      (s : Statement) (vs : List ℕ)
      → IsComputation s
      → ComputesOn s m.cpu.x
      → m.cpu.pc + length (words_of s) * 4 ≤ m.mem.size
      → WordsAt m.mem.data_at m.cpu.pc (words_of s ++ vs)
      → Steps k (length (words_of s)) m (after (length (words_of s)) (performed s m.cpu.x) m)
  unfolding LoadsBy
  statement-Steps (register_op op a b c) vs good_s on room words =
      register_op-Steps op a b c vs good_s on room words
  statement-Steps (immediate_op op a b v) vs good_s on room words =
      immediate_op-Steps op a b v vs good_s room words
  statement-Steps (load_number a v) vs good_s on room words =
      load_number-Steps a v vs good_s room words
  statement-Steps (move a b) vs (ha, hb) on room words =
      copied (reg_num a) (reg_num b) vs ha.number_fits hb.number_fits room words
  statement-Steps no_operation vs good_s on room words =
      copied 0 0 vs (omega arith) (omega arith) room words
  statement-Steps system_call vs bad on room words = absurd bad
