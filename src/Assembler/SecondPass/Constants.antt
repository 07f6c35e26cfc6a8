-- ===== src/Assembler/SecondPass/Constants.antt =====
-- `li` and `la` from their operands (assembler/src/second_pass.cpp and
-- assembler/src/expand_pseudoinstruction.cpp) over the bytes of the output file to the registers of
-- the processor (emulator/src/cpu.cpp).
use riscv_student_pack.Common.{
  ℕ, ◌+◌, ◌%◌, ◌^◌, ◌≤◌, ◌<◌, ◌≡◌, refl, true, false, List, some, codes, IsU32, add32, sub32, shl32,
  sra32, arith, ◌⊎◌,
}
use riscv_student_pack.Memory.{Memory}
use riscv_student_pack.Encoder.{encode_u}
use mathlib.Core.Path.{subst}
use riscv_student_pack.Cpu.State.{Machine, Kernel, IsMachine}
use riscv_student_pack.Emulator.Running.{Steps}
use riscv_student_pack.Assembler.Outcome.{Outcome, ok}
use riscv_student_pack.Assembler.Chars.{str_eq}
use riscv_student_pack.Assembler.Registers.{reg_num}
use riscv_student_pack.Assembler.Immediates.{parse_imm, find_label}
use riscv_student_pack.Assembler.Pseudo.{
  is_small, hi20, expand_pseudoinstruction, is_pseudoinstruction,
}
use riscv_student_pack.Assembler.Pseudo.Building.{hi20-IsSplit, left_in, Steps-li, Steps-la}
use riscv_student_pack.Assembler.SecondPass.{Tables, assemble_lines, assemble_operands}
use riscv_student_pack.Assembler.SecondPass.Output.{Writer, emit_word}
use riscv_student_pack.Assembler.SecondPass.Tokens.{IsToken}
use riscv_student_pack.Assembler.SecondPass.Expansion.{two_words, lower, upper_lui, upper_auipc}
use riscv_student_pack.Assembler.SecondPass.Fetching.{Holds, first_fetched, second_fetched}

module _ (t : Tables) (w : Writer) (a s r : List ℕ) (v hi : ℕ) (ha : IsToken a) (number : IsU32 v)
    (upper : hi20 v ≡ ok hi) where
  pub assemble-li :
      parse_imm t.labels s ≡ some v
      → is_small v ≡ false
      → assemble_operands t (record { op = codes "li"; a1 = a; a2 = s; a3 = r }) w
        ≡ ok (two_words 0x37 (reg_num a) v hi w)
  unfolding assemble_operands assemble_lines expand_pseudoinstruction is_pseudoinstruction str_eq
  assemble-li reads large =
      let i = hi20-IsSplit v hi number upper in
      rw
        (
          reads,
          large,
          upper,
          upper_lui t w a v hi ha i.hi_fits,
          lower t (emit_word (encode_u (shl32 hi 12) (reg_num a) 0x37) w) a v hi ha i.hi_fits,
        )
        refl

module _ (t : Tables) (w : Writer) (a s r : List ℕ) (target hi : ℕ) (ha : IsToken a)
    (upper : hi20 (sub32 target w.pc) ≡ ok hi) where
  pub assemble-la :
      find_label t.labels s ≡ some target
      → assemble_operands t (record { op = codes "la"; a1 = a; a2 = s; a3 = r }) w
        ≡ ok (two_words 0x17 (reg_num a) (sub32 target w.pc) hi w)
  unfolding assemble_operands assemble_lines expand_pseudoinstruction is_pseudoinstruction str_eq
  assemble-la found =
      let i = hi20-IsSplit (sub32 target w.pc) hi (omega arith) upper in
      rw
        (
          found,
          upper,
          upper_auipc t w a (sub32 target w.pc) hi ha i.hi_fits,
          lower t (emit_word (encode_u (shl32 hi 12) (reg_num a) 0x17) w) a (sub32 target w.pc) hi
              ha i.hi_fits,
        )
        refl

-- The same of what the pass has made of a line, if it has succeeded.
abbrev pub FileHolds : Outcome Writer → ℕ → ℕ → Memory → Type 0
FileHolds (ok w) a b m = Holds w a b m
FileHolds _ a b m = ⊥

-- No overflow of `int32_t` when `hi20` rounds up.
abbrev pub RoundsUp : ℕ → Type 0
RoundsUp v = (v + 2048 < 2 ^ 31) ⊎ (2 ^ 31 ≤ v)

pub rounded : (v : ℕ) → RoundsUp v → hi20 v ≡ ok (sra32 (add32 v 0x800) 12)
rounded v h = ground arith

module _ (k : Kernel) {m : Machine} (t : Tables) (w : Writer) (a s r : List ℕ) (good : IsMachine m)
    (runs : m.cpu.running ≡ true) (token : IsToken a) (register : reg_num a < 32)
    (place : w.position ≡ m.cpu.pc) (aligned : m.cpu.pc % 4 ≡ 0)
    (room : m.cpu.pc + 8 < 2 ^ 32) where
  -- Let `li` name a register by an operand of at most 31 bytes without spaces, commas or `#`, and
  -- a number outside -2048 to 2047 that `parse_imm` reads and that no rounding carries past
  -- INT32_MAX. If the words that the second pass assembles of it at its place in the file lie in
  -- the memory of a running machine in good order at its program counter, a multiple of 4 with
  -- room for both words, then two steps of the processor succeed and leave the number in the
  -- register, the program counter 8 further and nothing else changed (x0 stays 0).
  pub run-li :
      (v : ℕ)
      → IsU32 v
      → parse_imm t.labels s ≡ some v
      → is_small v ≡ false
      → RoundsUp v
      → FileHolds
          (assemble_operands t (record { op = codes "li"; a1 = a; a2 = s; a3 = r }) w)
          m.cpu.pc
          (m.cpu.pc + 8)
          m.mem
      → Steps k 2 m (left_in (reg_num a) v 2 m)
  run-li v number reads large up held =
      let hi = sra32 (add32 v 0x800) 12 in
      let h : Holds (two_words 0x37 (reg_num a) v hi w) m.cpu.pc (m.cpu.pc + 8) m.mem =
        subst (λ (o : Outcome Writer). FileHolds o m.cpu.pc (m.cpu.pc + 8) m.mem)
          (assemble-li t w a s r v hi token number (rounded v up) reads large) held in
      Steps-li k m (reg_num a) v hi runs register number (rounded v up)
        (second_fetched w 0x37 (reg_num a) v hi good place aligned room register (omega arith) h)
        (first_fetched w 0x37 (reg_num a) v hi good place aligned room register (omega arith) h)

  -- The same for `la` and the address that `find_label` gives its label, when the `pc` of the
  -- second pass is the program counter of the machine and no rounding carries the distance past
  -- INT32_MAX: two steps leave the address of the label in the register.
  pub run-la :
      (target : ℕ)
      → IsU32 target
      → w.pc ≡ m.cpu.pc
      → find_label t.labels s ≡ some target
      → RoundsUp (sub32 target w.pc)
      → FileHolds
          (assemble_operands t (record { op = codes "la"; a1 = a; a2 = s; a3 = r }) w)
          m.cpu.pc
          (m.cpu.pc + 8)
          m.mem
      → Steps k 2 m (left_in (reg_num a) target 2 m)
  run-la target number same found up held =
      let v = sub32 target w.pc in
      let hi = sra32 (add32 v 0x800) 12 in
      let h : Holds (two_words 0x17 (reg_num a) v hi w) m.cpu.pc (m.cpu.pc + 8) m.mem =
        subst (λ (o : Outcome Writer). FileHolds o m.cpu.pc (m.cpu.pc + 8) m.mem)
          (assemble-la t w a s r target hi token (rounded v up) found) held in
      let reached : add32 m.cpu.pc v ≡ target = omega (arith, good.cpu_good.pc_fits) in
      subst (λ (x : ℕ). Steps k 2 m (left_in (reg_num a) x 2 m)) reached
        (Steps-la k m (reg_num a) v hi runs register (omega arith) (rounded v up)
          (second_fetched w 0x17 (reg_num a) v hi good place aligned room register (omega arith) h)
          good.cpu_good.pc_fits
          (first_fetched w 0x17 (reg_num a) v hi good place aligned room register (omega arith) h))
