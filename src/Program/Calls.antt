-- ===== src/Program/Calls.antt =====
-- `call`, `j` and `ret` (assembler/src/expand_pseudoinstruction.cpp) in the output file and on the
-- processor (emulator/src/cpu.cpp).
use riscv_student_pack.Common.{
  ℕ, ◌+◌, ◌/◌, ◌%◌, ◌^◌, ◌<◌, ◌≡◌, refl, ap, ◌∙◌, true, List, [], ◌∷◌, ◌++◌, some, codes, IsU32,
  FitsSigned, add32, sub32, bit_and, arith, inl, inr,
}
use mathlib.Core.Path.{subst}
use riscv_student_pack.Common.Bits.{bit_and_field, bit_and_mask}
use riscv_student_pack.Memory.{mem_ok, read32}
use riscv_student_pack.Encoder.{encode_i, encode_j}
use riscv_student_pack.Encoder.Sums.{encode_i-eq-sum}
use riscv_student_pack.Encoder.Jumps.{encode_j-eq-sum}
use riscv_student_pack.Encoder.RoundTrip.{decode-encode_i}
use riscv_student_pack.Cpu.State.{Machine, Kernel, cpu_ok, reg_read, reg_write, IsMachine}
use riscv_student_pack.Cpu.Exec.{step, run_decoded, execute, execute_i}
use riscv_student_pack.Cpu.Exec.Invariant.{advanced, step-fetched}
use riscv_student_pack.Emulator.Running.{Steps, arrived, step_to}
use riscv_student_pack.Assembler.Outcome.{Outcome, ok}
use riscv_student_pack.Assembler.Chars.{str_eq}
use riscv_student_pack.Assembler.Registers.{reg_num, numbered}
use riscv_student_pack.Assembler.Immediates.{parse_imm}
use riscv_student_pack.Assembler.Pseudo.{is_pseudoinstruction, expand_pseudoinstruction, print_int}
use riscv_student_pack.Assembler.Instructions.{encode_instruction, find_form, encode_form}
use riscv_student_pack.Assembler.Instructions.Branching.{step-jal}
use riscv_student_pack.Assembler.SecondPass.{
  Tables, assemble_operands, assemble_lines, assemble_expanded,
}
use riscv_student_pack.Assembler.SecondPass.Output.{Writer, emit_word}
use riscv_student_pack.Assembler.SecondPass.Tokens.{IsToken}
use riscv_student_pack.Assembler.SecondPass.Expansion.{
  assemble-two, assemble-three, parse_printed, print_int-IsToken,
}
use riscv_student_pack.Assembler.SecondPass.Fetching.{Holds, read-Holds, emit_word-bytes}
use riscv_student_pack.Memory.Access.{little_endian}
use riscv_student_pack.Assembler.SecondPass.Arguments.{Operands}
use riscv_student_pack.Assembler.SecondPass.Constants.{FileHolds}
use riscv_student_pack.Program.Accesses.{word_fetched}

digit_name-IsToken : (d : ℕ) → d < 10 → IsToken (b'x' ∷ (b'0' + d) ∷ [])
digit_name-IsToken d h = record {
  plain = (
    record { no_space = refl; no_blank = refl; no_comma = refl; no_hash = refl },
    (
      record {
        no_space = ground arith;
        no_blank = ground arith;
        no_comma = ground arith;
        no_hash = ground arith;
      },
      tt,
    ),
  );
  filled = refl;
  short = omega arith;
}

-- Bit 0 of an even address is clear already.
even_address : (a : ℕ) → IsU32 a → a % 2 ≡ 0 → bit_and a 0xfffffffe ≡ a
even_address a h e = bit_and_field 1 a 0x7fffffff ∙ omega (arith, bit_and_mask 31 (a / 2), h, e)

-- The word of `call`.
abbrev pub call_word : (target pc : ℕ) → ℕ
call_word target pc = encode_j (sub32 target pc) 1 0x6f

abbrev pub ret_word : ℕ
ret_word = encode_i 0 1 0x0 0 0x67

module _ (t : Tables) (w : Writer) where
  pub assemble-call :
      (label a2 a3 : List ℕ) {target : ℕ}
      → IsToken label
      → parse_imm t.labels label ≡ some target
      → assemble_operands t (record { op = codes "call"; a1 = label; a2 = a2; a3 = a3 }) w
        ≡ ok (emit_word (call_word target w.pc) w)
  unfolding assemble_operands assemble_lines expand_pseudoinstruction is_pseudoinstruction str_eq
      encode_instruction find_form encode_form reg_num numbered
  assemble-call label a2 a3 {target} token named =
      let line : assemble_expanded t (codes "jal x1, " ++ label) w
          ≡ ok (emit_word (encode_j (sub32 target w.pc) 1 0x6f) w) =
        assemble-two t w (codes "jal") (codes "x1") label (refl, (refl, (refl, tt)))
          (refl, (refl, (refl, tt))) (omega arith) (digit_name-IsToken 1 (omega arith)) token
        ∙ rw named refl in
      rw line refl

  pub assemble-ret :
      (a1 a2 a3 : List ℕ)
      → assemble_operands t (record { op = codes "ret"; a1 = a1; a2 = a2; a3 = a3 }) w
        ≡ ok (emit_word ret_word w)
  unfolding assemble_operands assemble_lines expand_pseudoinstruction is_pseudoinstruction str_eq
      encode_instruction find_form encode_form reg_num numbered print_int
  assemble-ret a1 a2 a3 =
      let line : assemble_expanded t (codes "jalr x0, x1, 0") w
          ≡ ok (emit_word (encode_i 0 1 0x0 0 0x67) w) =
        assemble-three t w (codes "jalr") (codes "x0") (codes "x1")
          (refl, (refl, (refl, (refl, tt)))) (refl, (refl, (refl, (refl, tt)))) (omega arith)
          (digit_name-IsToken 0 (omega arith)) (digit_name-IsToken 1 (omega arith)) (codes "0")
          (print_int-IsToken 0)
        ∙ rw (parse_printed t.labels 0 (omega arith)) refl in
      rw line refl

-- `ret` goes to an even address in `x1`.
step-ret :
    (k : Kernel) (m : Machine) (back : ℕ)
    → m.cpu.running ≡ true
    → reg_read m.cpu 1 ≡ back
    → IsU32 back
    → back % 2 ≡ 0
    → read32 m.mem m.cpu.pc 0 ≡ some (mem_ok, ret_word)
    → step k m ≡ some (cpu_ok, record m { cpu = record (m.cpu) { pc = back } })
unfolding execute execute_i reg_read reg_write
step-ret k m back runs link fits even fetches =
    let reached : bit_and (add32 (m.cpu.x 1) 0) 0xfffffffe ≡ back =
      even_address (add32 (m.cpu.x 1) 0) (omega arith) (omega (arith, link, fits, even))
      ∙ omega (arith, link, fits) in
    step-fetched k m runs fetches
    ∙ ap (run_decoded k (advanced m)) (
        decode-encode_i 0 1 0x0 0 0x67 (inl (omega arith)) (omega arith) (omega arith) (omega arith)
          (inr (inr (inl refl))))
    ∙ rw reached refl

call_word-IsU32 : (target pc : ℕ) → IsU32 (call_word target pc)
call_word-IsU32 target pc =
    omega
      (arith, encode_j-eq-sum (sub32 target pc) 1 0x6f (omega arith) (omega arith) (omega arith))

ret_word-IsU32 : IsU32 ret_word
ret_word-IsU32 =
    omega (
      arith,
      encode_i-eq-sum 1 0x0 0x67 (omega arith) (omega arith) (omega arith) 0 0 (omega arith),
    )

-- What a line has become in the file, given that the pass has succeeded.
held_word :
    {o : Outcome Writer} {w : Writer} (a b : ℕ) (m : Machine)
    → o ≡ ok w
    → FileHolds o a b m.mem
    → Holds w a b m.mem
held_word a b m e h = subst (λ (o : Outcome Writer). FileHolds o a b m.mem) e h

abbrev pub operands : (op a1 : List ℕ) → Operands
operands op a1 = record { op = op; a1 = a1; a2 = []; a3 = [] }

module _ (k : Kernel) {m : Machine} (t : Tables) (w1 w2 : Writer) (label : List ℕ) (target : ℕ)
    (good : IsMachine m) (runs : m.cpu.running ≡ true) (token : IsToken label)
    (named : parse_imm t.labels label ≡ some target) (fits : IsU32 target)
    (near : FitsSigned 21 (sub32 target m.cpu.pc)) (aligned : m.cpu.pc % 4 ≡ 0)
    (aligned_target : target % 4 ≡ 0) (room : m.cpu.pc + 4 < 2 ^ 32)
    (place : w1.position ≡ m.cpu.pc) (same : w1.pc ≡ m.cpu.pc)
    (place_target : w2.position ≡ target) where
  -- The machine in the function.
  abbrev called : Machine
  called = record m { cpu = record (reg_write 1 (add32 m.cpu.pc 4) m.cpu) { pc = target } }

  call-step :
      FileHolds
        (assemble_operands t (operands (codes "call") label) w1)
        m.cpu.pc
        (m.cpu.pc + 4)
        m.mem
      → step k m ≡ some (cpu_ok, called)
  unfolding encode_instruction find_form encode_form reg_num numbered str_eq
  call-step held =
      let h =
        held_word m.cpu.pc (m.cpu.pc + 4) m (assemble-call t w1 label [] [] token named) held in
      step-jal k t.labels (codes "x1") label [] good runs (omega arith) named fits near
        (omega (arith, aligned, aligned_target, good.cpu_good.pc_fits, fits))
        (word_fetched w1 (call_word target w1.pc) good place aligned (call_word-IsU32 target w1.pc)
            h
          ∙ rw (named, same) refl)

  ret-step :
      FileHolds (assemble_operands t (operands (codes "ret") []) w2) target (target + 4) m.mem
      → step k called
        ≡ some (cpu_ok, record called { cpu = record (called.cpu) { pc = add32 m.cpu.pc 4 } })
  unfolding reg_read reg_write
  ret-step held =
      let h = held_word target (target + 4) m (assemble-ret t w2 [] [] []) held in
      step-ret k called (add32 m.cpu.pc 4) runs refl (omega arith) (omega (arith, aligned, room)) (
        read-Holds (emit_word ret_word w2) target ret_word good.mem_good h fits aligned_target (
          subst (λ (a : ℕ). little_endian (emit_word ret_word w2).bytes 4 a ≡ ret_word) place_target
            (emit_word-bytes ret_word w2 ret_word-IsU32)))

  -- Let the word that the second pass assembles of `call` and a label at its place in the file lie
  -- in the memory of a running machine in good order at its program counter, which is also the
  -- `pc` of the pass, and the word of `ret` at the address that `parse_imm` gives the label, both
  -- addresses multiples of 4 at a distance that fits 21 bits. Then two steps succeed, through the
  -- function and back, and leave the program counter and x1 at the word behind the call and
  -- nothing else changed.
  pub run-call_ret :
      FileHolds
        (assemble_operands t (operands (codes "call") label) w1)
        m.cpu.pc
        (m.cpu.pc + 4)
        m.mem
      → FileHolds (assemble_operands t (operands (codes "ret") []) w2) target (target + 4) m.mem
      → Steps k 2 m (record m {
        cpu = record (reg_write 1 (add32 m.cpu.pc 4) m.cpu) { pc = add32 m.cpu.pc 4 };
      })
  unfolding reg_write
  run-call_ret held_call held_ret =
      step_to runs (call-step held_call) (step_to runs (ret-step held_ret) arrived)
