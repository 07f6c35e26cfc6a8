-- ===== src/Assembler/SecondPass/Fetching.antt =====
-- The two words of a pseudoinstruction in the output file (assembler/src/second_pass.cpp) as what the
-- processor fetches (emulator/src/memory.cpp).
use riscv_student_pack.Common.{
  ℕ, ◌+◌, ◌%◌, ◌^◌, ◌≤◌, ◌<◌, ◌≡◌, sym, ap, ◌∙◌, some, IsU32, add32, shl32, arith,
}
use riscv_student_pack.Memory.{Memory, IsMemory, mem_ok, read32}
use riscv_student_pack.Memory.Access.{read_result, read32-read_result, little_endian}
use riscv_student_pack.Encoder.{encode_i, encode_u}
use riscv_student_pack.Encoder.Sums.{encode_i-eq-sum, encode_u-eq-sum}
use mathlib.Core.Path.{subst}
use riscv_student_pack.Cpu.State.{Machine, IsMachine}
use riscv_student_pack.Assembler.Pseudo.{lo12}
use riscv_student_pack.Assembler.SecondPass.Output.{Writer, emit_word}
use riscv_student_pack.Assembler.SecondPass.Expansion.{two_words}

-- A word's bytes in a file, and the others.
pub emit_word-bytes :
    (v : ℕ) (w : Writer) → IsU32 v → little_endian (emit_word v w).bytes 4 w.position ≡ v
unfolding emit_word
emit_word-bytes v w h = ground arith

pub emit_word-below :
    (v : ℕ) (w : Writer) (b : ℕ) → b < w.position → (emit_word v w).bytes b ≡ w.bytes b
unfolding emit_word
emit_word-below v w b h = ground arith

pub emit_word-position : (v : ℕ) (w : Writer) → (emit_word v w).position ≡ w.position + 4
unfolding emit_word
emit_word-position v w = omega arith

-- The memory holds what the file has in the bytes from `a` up to `b`.
pub record Holds (w : Writer) (a b : ℕ) (m : Memory) : Type 0 where
  pub cells : (c : ℕ) → a ≤ c → c < b → m.data_at c ≡ w.bytes c
  pub inside : b ≤ m.size

-- Fetching a word that the file has.
pub read-Holds :
    (w : Writer) (a word : ℕ) {m : Memory}
    → IsMemory m
    → Holds w a (a + 4) m
    → IsU32 a
    → a % 4 ≡ 0
    → little_endian w.bytes 4 a ≡ word
    → read32 m a 0 ≡ some (mem_ok, word)
unfolding read_result
read-Holds w a word {m} good h fits aligned e =
    let same : little_endian m.data_at 4 a ≡ word = omega (
      arith,
      h.cells a (omega arith) (omega arith),
      h.cells (a + 1) (omega arith) (omega arith),
      h.cells (a + 2) (omega arith) (omega arith),
      h.cells (a + 3) (omega arith) (omega arith),
      e,
    ) in
    read32-read_result good a 0 fits (omega (arith, h.inside)) ∙ ground (arith, h.inside, same)

module _ (lo up : ℕ) (w : Writer) (hl : IsU32 lo) (hu : IsU32 up) where
  first_word : little_endian (emit_word lo (emit_word up w)).bytes 4 w.position ≡ up
  first_word =
      let w1 = emit_word up w in
      let end = emit_word-position up w in
      omega (
        arith,
        emit_word-bytes up w hu,
        emit_word-below lo w1 w.position (omega (arith, end)),
        emit_word-below lo w1 (w.position + 1) (omega (arith, end)),
        emit_word-below lo w1 (w.position + 1 + 1) (omega (arith, end)),
        emit_word-below lo w1 (w.position + 1 + 1 + 1) (omega (arith, end)),
      )

  second_word : little_endian (emit_word lo (emit_word up w)).bytes 4 (w.position + 4) ≡ lo
  second_word =
      ap (λ (a : ℕ). little_endian (emit_word lo (emit_word up w)).bytes 4 a)
        (sym (emit_word-position up w))
      ∙ emit_word-bytes lo (emit_word up w) hl

-- The two words of a pseudoinstruction in memory are what the processor fetches.
module _ {m : Machine} (w : Writer) (opcode rd v hi : ℕ) (good : IsMachine m)
    (place : w.position ≡ m.cpu.pc) (aligned : m.cpu.pc % 4 ≡ 0) (room : m.cpu.pc + 8 < 2 ^ 32)
    (register : rd < 32) (code : opcode < 128)
    (held : Holds (two_words opcode rd v hi w) m.cpu.pc (m.cpu.pc + 8) m.mem) where
  up_fits : IsU32 (encode_u (shl32 hi 12) rd opcode)
  up_fits = omega (arith, encode_u-eq-sum (shl32 hi 12) rd opcode register code)

  lo_fits : IsU32 (encode_i (lo12 v hi) rd 0x0 rd 0x13)
  lo_fits = omega (
    arith,
    encode_i-eq-sum rd 0x0 0x13 register (omega arith) (omega arith) (lo12 v hi) rd register,
  )

  pub first_fetched : read32 m.mem m.cpu.pc 0 ≡ some (mem_ok, encode_u (shl32 hi 12) rd opcode)
  first_fetched =
      read-Holds (two_words opcode rd v hi w) m.cpu.pc (encode_u (shl32 hi 12) rd opcode)
        good.mem_good
        (record {
          cells = λ c p q. held.cells c p (omega arith);
          inside = omega (arith, held.inside);
        })
        good.cpu_good.pc_fits aligned
        (subst
          (λ (a : ℕ).
            little_endian (two_words opcode rd v hi w).bytes 4 a ≡ encode_u (shl32 hi 12) rd opcode)
          place
          (first_word (encode_i (lo12 v hi) rd 0x0 rd 0x13) (encode_u (shl32 hi 12) rd opcode) w
            lo_fits up_fits))

  pub second_fetched :
      read32 m.mem (add32 m.cpu.pc 4) 0 ≡ some (mem_ok, encode_i (lo12 v hi) rd 0x0 rd 0x13)
  second_fetched =
      let further : w.position + 4 ≡ add32 m.cpu.pc 4 = omega arith in
      read-Holds (two_words opcode rd v hi w) (add32 m.cpu.pc 4)
        (encode_i (lo12 v hi) rd 0x0 rd 0x13) good.mem_good
        (record {
          cells = λ c p q. held.cells c (omega arith) (omega arith);
          inside = omega (arith, held.inside);
        })
        (omega arith) (omega arith)
        (subst
          (λ (a : ℕ).
            little_endian (two_words opcode rd v hi w).bytes 4 a
            ≡ encode_i (lo12 v hi) rd 0x0 rd 0x13)
          further
          (second_word (encode_i (lo12 v hi) rd 0x0 rd 0x13) (encode_u (shl32 hi 12) rd opcode) w
            lo_fits up_fits))
