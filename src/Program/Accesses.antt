-- ===== src/Program/Accesses.antt =====
-- The names of loads and stores, and lines of the form `op a, offset(b)` in the output file
-- (assembler/src/second_pass.cpp) and on the processor (emulator/src/cpu.cpp).
use riscv_student_pack.Common.{
  ℕ, ◌+◌, ◌%◌, ◌<◌, ◌≡◌, refl, sym, ap, ◌∙◌, true, false, List, some, length, IsU32, FitsSigned,
  add32, arith,
}
use mathlib.Core.Path.{subst}
use riscv_student_pack.Memory.{mem_ok, read32}
use riscv_student_pack.Memory.Access.{little_endian}
use riscv_student_pack.Assembler.Instructions.Execution.{emitted}
use riscv_student_pack.Encoder.{encode_i, encode_s}
use riscv_student_pack.Encoder.Sums.{encode_i-eq-sum, encode_s-eq-sum}
use riscv_student_pack.Cpu.State.{Machine, Kernel, reg_read, IsMachine}
use riscv_student_pack.Cpu.Exec.{step}
use riscv_student_pack.Cpu.Exec.Invariant.{advanced}
use riscv_student_pack.Assembler.Outcome.{Outcome, ok}
use riscv_student_pack.Assembler.Chars.{str_eq}
use riscv_student_pack.Assembler.Registers.{reg_num}
use riscv_student_pack.Assembler.Immediates.{parse_imm}
use riscv_student_pack.Assembler.Pseudo.{is_pseudoinstruction}
use riscv_student_pack.Assembler.Instructions.Accesses.{
  Load, lb, lh, lw, lbu, lhu, load_name, load_code, load_code-lt, load_meaning, Store, sb, sh, sw,
  store_name, store_code, store_code-lt, store_meaning,
}
use riscv_student_pack.Assembler.Instructions.Accesses.Loading.{
  encode_instruction-load, step-encode_load,
}
use riscv_student_pack.Assembler.Instructions.Accesses.Storing.{
  encode_instruction-store, step-encode_store,
}
use riscv_student_pack.Assembler.SecondPass.{Tables, process_instruction_second_pass}
use riscv_student_pack.Assembler.SecondPass.Output.{Writer, emit_word}
use riscv_student_pack.Assembler.SecondPass.Tokens.{IsToken, Lacks}
use riscv_student_pack.Assembler.SecondPass.Expansion.{emit_encoded}
use riscv_student_pack.Assembler.SecondPass.Fetching.{Holds, read-Holds, emit_word-bytes}
use riscv_student_pack.Assembler.SecondPass.Constants.{FileHolds}
use riscv_student_pack.Assembler.SecondPass.Indirect.{
  indirect, process_instruction_second_pass-indirect,
}
use riscv_student_pack.Program.Bytes.{letters-IsPlain}

load_name-IsToken : (op : Load) → IsToken (load_name op)
load_name-IsToken lb = record {
  plain = letters-IsPlain (load_name lb) (refl, (refl, tt));
  filled = refl;
  short = omega arith;
}
load_name-IsToken lh = record {
  plain = letters-IsPlain (load_name lh) (refl, (refl, tt));
  filled = refl;
  short = omega arith;
}
load_name-IsToken lw = record {
  plain = letters-IsPlain (load_name lw) (refl, (refl, tt));
  filled = refl;
  short = omega arith;
}
load_name-IsToken lbu = record {
  plain = letters-IsPlain (load_name lbu) (refl, (refl, (refl, tt)));
  filled = refl;
  short = omega arith;
}
load_name-IsToken lhu = record {
  plain = letters-IsPlain (load_name lhu) (refl, (refl, (refl, tt)));
  filled = refl;
  short = omega arith;
}

load_name-short : (op : Load) → length (load_name op) < 16
load_name-short lb = omega arith
load_name-short lh = omega arith
load_name-short lw = omega arith
load_name-short lbu = omega arith
load_name-short lhu = omega arith

load_name-plain : (op : Load) → is_pseudoinstruction (load_name op) ≡ false
unfolding is_pseudoinstruction str_eq
load_name-plain lb = refl
load_name-plain lh = refl
load_name-plain lw = refl
load_name-plain lbu = refl
load_name-plain lhu = refl

load_name-open : (op : Load) → Lacks b'(' (load_name op)
load_name-open lb = (refl, (refl, tt))
load_name-open lh = (refl, (refl, tt))
load_name-open lw = (refl, (refl, tt))
load_name-open lbu = (refl, (refl, (refl, tt)))
load_name-open lhu = (refl, (refl, (refl, tt)))

store_name-IsToken : (op : Store) → IsToken (store_name op)
store_name-IsToken sb = record {
  plain = letters-IsPlain (store_name sb) (refl, (refl, tt));
  filled = refl;
  short = omega arith;
}
store_name-IsToken sh = record {
  plain = letters-IsPlain (store_name sh) (refl, (refl, tt));
  filled = refl;
  short = omega arith;
}
store_name-IsToken sw = record {
  plain = letters-IsPlain (store_name sw) (refl, (refl, tt));
  filled = refl;
  short = omega arith;
}

store_name-short : (op : Store) → length (store_name op) < 16
store_name-short sb = omega arith
store_name-short sh = omega arith
store_name-short sw = omega arith

store_name-plain : (op : Store) → is_pseudoinstruction (store_name op) ≡ false
unfolding is_pseudoinstruction str_eq
store_name-plain sb = refl
store_name-plain sh = refl
store_name-plain sw = refl

store_name-open : (op : Store) → Lacks b'(' (store_name op)
store_name-open sb = (refl, (refl, tt))
store_name-open sh = (refl, (refl, tt))
store_name-open sw = (refl, (refl, tt))

-- A word of the file, fetched.
pub word_fetched :
    (w : Writer) (word : ℕ) {m : Machine}
    → IsMachine m
    → w.position ≡ m.cpu.pc
    → m.cpu.pc % 4 ≡ 0
    → IsU32 word
    → Holds (emit_word word w) m.cpu.pc (m.cpu.pc + 4) m.mem
    → read32 m.mem m.cpu.pc 0 ≡ some (mem_ok, word)
word_fetched w word {m} good place aligned fits held =
    read-Holds (emit_word word w) m.cpu.pc word good.mem_good held good.cpu_good.pc_fits aligned (
      subst (λ (a : ℕ). little_endian (emit_word word w).bytes 4 a ≡ word) place
        (emit_word-bytes word w fits))

module _ (k : Kernel) {m : Machine} (t : Tables) (w : Writer) (v : ℕ) (a s b : List ℕ)
    (good : IsMachine m) (runs : m.cpu.running ≡ true) (ha : IsToken a) (hs : IsToken s)
    (hb : IsToken b) (open_a : Lacks b'(' a) (open_s : Lacks b'(' s) (close_b : Lacks b')' b)
    (register : reg_num a < 32) (base : reg_num b < 32) (reads : parse_imm t.labels s ≡ some v)
    (fits : FitsSigned 12 v) (place : w.position ≡ m.cpu.pc) (aligned : m.cpu.pc % 4 ≡ 0) where
  -- Let a line be the mnemonic of a load, a blank, a register operand, a comma and a blank, and
  -- `offset(base)`, where all three operands are not empty, have fewer than 32 bytes and no spaces,
  -- commas or `#`, the register operand and the offset no `(` and the base no `)`; the register
  -- operand and the base name registers, and `parse_imm` reads the offset as a number that 12 bits
  -- hold. If the word that the second pass assembles of the line at its place in the file lies in
  -- the memory of a running machine in good order at its program counter, a multiple of 4, then
  -- `CPU::step` goes on to the next word, and when base plus offset, summed in 32 bits, is a
  -- multiple of the width and the bytes lie inside the memory, it puts their little-endian number,
  -- extended as the instruction set says, into the register (x0 stays 0); otherwise it reports an
  -- execution error. Nothing else changes.
  pub run-load :
      (op : Load)
      → FileHolds
          (process_instruction_second_pass t (indirect (load_name op) a s b) w)
          m.cpu.pc
          (m.cpu.pc + 4)
          m.mem
      → step k m
        ≡ some (load_meaning op (reg_num a) (add32 (reg_read m.cpu (reg_num b)) v) (advanced m))
  run-load op held =
      let word = encode_i v (reg_num b) (load_code op) (reg_num a) 0x03 in
      let word_fits : IsU32 word = omega (
        arith,
        encode_i-eq-sum (reg_num b) (load_code op) 0x03 base (load_code-lt op) (omega arith) v
            (reg_num a) register,
        load_code-lt op,
        register,
        base,
      ) in
      let assembled : process_instruction_second_pass t (indirect (load_name op) a s b) w
          ≡ ok (emit_word word w) =
        process_instruction_second_pass-indirect (load_name op) a s b (load_name-IsToken op) ha hs
          hb (load_name-short op) (load_name-open op) open_a open_s close_b t w (load_name-plain op)
        ∙ ap (emit_encoded w) (encode_instruction-load op t.labels w.pc v a s b reads) in
      let h : Holds (emit_word word w) m.cpu.pc (m.cpu.pc + 4) m.mem =
        subst (λ (o : Outcome Writer). FileHolds o m.cpu.pc (m.cpu.pc + 4) m.mem) assembled held in
      step-encode_load k m op t.labels v a s b good runs register base reads fits (
        word_fetched w word good place aligned word_fits h
        ∙ sym (ap emitted (encode_instruction-load op t.labels m.cpu.pc v a s b reads)))

  -- Let a line be the mnemonic of a store, a blank, a register operand, a comma and a blank, and
  -- `offset(base)`, where all three operands are not empty, have fewer than 32 bytes and no spaces,
  -- commas or `#`, the register operand and the offset no `(` and the base no `)`; the register
  -- operand and the base name registers, and `parse_imm` reads the offset as a number that 12 bits
  -- hold. If the word that the second pass assembles of the line at its place in the file lies in
  -- the memory of a running machine in good order at its program counter, a multiple of 4, then
  -- `CPU::step` goes on to the next word, and when base plus offset, summed in 32 bits, is a
  -- multiple of the width and the bytes lie inside the memory, it puts the low bytes of the
  -- register there, lowest first; otherwise it reports an execution error. Nothing else changes.
  pub run-store :
      (op : Store)
      → FileHolds
          (process_instruction_second_pass t (indirect (store_name op) a s b) w)
          m.cpu.pc
          (m.cpu.pc + 4)
          m.mem
      → step k m
        ≡ some (
            store_meaning op
              (add32 (reg_read m.cpu (reg_num b)) v)
              (reg_read m.cpu (reg_num a))
              (advanced m))
  run-store op held =
      let word = encode_s v (reg_num a) (reg_num b) (store_code op) 0x23 in
      let word_fits : IsU32 word = omega (
        arith,
        encode_s-eq-sum (reg_num b) (store_code op) 0x23 base (store_code-lt op) (omega arith) v
            (reg_num a) register,
        store_code-lt op,
        register,
        base,
      ) in
      let assembled : process_instruction_second_pass t (indirect (store_name op) a s b) w
          ≡ ok (emit_word word w) =
        process_instruction_second_pass-indirect (store_name op) a s b (store_name-IsToken op) ha hs
          hb (store_name-short op) (store_name-open op) open_a open_s close_b t w
          (store_name-plain op)
        ∙ ap (emit_encoded w) (encode_instruction-store op t.labels w.pc v a s b reads) in
      let h : Holds (emit_word word w) m.cpu.pc (m.cpu.pc + 4) m.mem =
        subst (λ (o : Outcome Writer). FileHolds o m.cpu.pc (m.cpu.pc + 4) m.mem) assembled held in
      step-encode_store k m op t.labels v a s b good runs register base reads fits (
        word_fetched w word good place aligned word_fits h
        ∙ sym (ap emitted (encode_instruction-store op t.labels m.cpu.pc v a s b reads)))
