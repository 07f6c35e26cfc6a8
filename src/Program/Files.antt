-- ===== src/Program/Files.antt =====
-- The output file of the assembler (assembler/src/second_pass.cpp) as the file that the emulator
-- loads (emulator/src/emulator.cpp).
use riscv_student_pack.Common.{
  ℕ, zero, suc, ◌+◌, ◌-◌, ◌*◌, ◌<◌, ◌≡◌, refl, sym, ap, ◌∙◌, true, List, [], ◌∷◌, Option, none,
  some, length, get_or, shl32, All, IsU32, IsByte, arith, Bool-cases, inl, inr, ltb, leb, ◌&&◌,
}
use mathlib.Core.Path.{subst}
use riscv_student_pack.Memory.Access.{little_endian}
use riscv_student_pack.Encoder.{encode_i}
use riscv_student_pack.Encoder.Sums.{encode_r-eq-sum, encode_i-eq-sum, encode_u-eq-sum}
use riscv_student_pack.Assembler.Outcome.{Outcome, ok}
use riscv_student_pack.Assembler.Main.{bytes_from}
use riscv_student_pack.Assembler.Registers.{reg_num}
use riscv_student_pack.Assembler.Instructions.Mnemonics.{funct7_of, funct3_of}
use riscv_student_pack.Assembler.Instructions.Execution.{funct_fits}
use riscv_student_pack.Assembler.Instructions.Immediate.{
  immediate_code, immediate_field, immediate_code-lt,
}
use riscv_student_pack.Assembler.Pseudo.{is_small, lo12}
use riscv_student_pack.Assembler.SecondPass.Output.{Writer, new_writer, emit_word}
use riscv_student_pack.Assembler.SecondPass.Fetching.{
  emit_word-bytes, emit_word-below, emit_word-position,
}
use riscv_student_pack.Emulator.{File}
use riscv_student_pack.Emulator.Loading.{IsFile, overlaid}
use riscv_student_pack.Program.Bytes.{All-append}
use riscv_student_pack.Program.{
  Statement, register_op, immediate_op, load_number, move, no_operation, system_call, words_of,
  code, emit_words, upper_part, IsGood,
}

-- The words lie one behind the other from `a` on, each with its lowest byte first.
abbrev pub WordsAt : (ℕ → ℕ) → ℕ → List ℕ → Type 0
WordsAt f a [] = Unit {0}
WordsAt f a (v ∷ vs) = (little_endian f 4 a ≡ v) × WordsAt f (a + 4) vs

emit_words-below :
    (vs : List ℕ) (w : Writer) (b : ℕ) → b < w.position → (emit_words vs w).bytes b ≡ w.bytes b
emit_words-below [] w b h = refl
emit_words-below (v ∷ vs) w b h =
    emit_words-below vs (emit_word v w) b (omega (arith, h, emit_word-position v w))
    ∙ emit_word-below v w b h

-- The word at the front, which the others leave where it is.
first_word :
    (v : ℕ) (vs : List ℕ) (w : Writer)
    → IsU32 v
    → little_endian (emit_words (v ∷ vs) w).bytes 4 w.position ≡ v
first_word v vs w h =
    let end = emit_word-position v w in
    omega (
      arith,
      emit_word-bytes v w h,
      emit_words-below vs (emit_word v w) w.position (omega (arith, end)),
      emit_words-below vs (emit_word v w) (w.position + 1) (omega (arith, end)),
      emit_words-below vs (emit_word v w) (w.position + 1 + 1) (omega (arith, end)),
      emit_words-below vs (emit_word v w) (w.position + 1 + 1 + 1) (omega (arith, end)),
    )

emit_words-WordsAt :
    (vs : List ℕ) (w : Writer) → All IsU32 vs → WordsAt (emit_words vs w).bytes w.position vs
emit_words-WordsAt [] w h = tt
emit_words-WordsAt (v ∷ vs) w (fits, h) = (
  first_word v vs w fits,
  subst (λ (a : ℕ). WordsAt (emit_words (v ∷ vs) w).bytes a vs) (emit_word-position v w)
      (emit_words-WordsAt vs (emit_word v w) h),
)

-- Where equal cells lie, the same words lie.
pub WordsAt-same :
    (f g : ℕ → ℕ) (a : ℕ) (vs : List ℕ)
    → ((c : ℕ) → c < a + length vs * 4 → g c ≡ f c)
    → WordsAt f a vs
    → WordsAt g a vs
WordsAt-same f g a [] e h = tt
WordsAt-same f g a (v ∷ vs) e (p, ps) = (
  omega (
    arith,
    p,
    e a (omega arith),
    e (a + 1) (omega arith),
    e (a + 1 + 1) (omega arith),
    e (a + 1 + 1 + 1) (omega arith),
  ),
  WordsAt-same f g (a + 4) vs (λ c q. e c (omega (arith, q))) ps,
)

encode_i-IsU32 :
    (imm rs1 rd opcode : ℕ)
    → rs1 < 32
    → rd < 32
    → opcode < 128
    → IsU32 (encode_i imm rs1 0x0 rd opcode)
encode_i-IsU32 imm rs1 rd opcode h1 hd ho =
    omega (arith, encode_i-eq-sum rs1 0x0 opcode h1 (omega arith) ho imm rd hd, h1, hd, ho)

words_of-IsU32 : (s : Statement) → IsGood s → All IsU32 (words_of s)
words_of-IsU32 (register_op op a b c) (ha, (hb, hc)) =
    let (f7, f3) = funct_fits op in
    (
      omega (
        arith,
        encode_r-eq-sum (reg_num b) (funct3_of op) 0x33 (hb.number_fits) f3 (omega arith)
            (funct7_of op) (reg_num c) (reg_num a) f7 (hc.number_fits) (ha.number_fits),
        f7,
        f3,
        ha.number_fits,
        hb.number_fits,
        hc.number_fits,
      ),
      tt,
    )
words_of-IsU32 (immediate_op op a b v) (ha, (hb, h)) = (
  omega (
    arith,
    encode_i-eq-sum (reg_num b) (immediate_code op) 0x13 hb.number_fits (immediate_code-lt op)
        (omega arith) (immediate_field op v) (reg_num a) ha.number_fits,
    immediate_code-lt op,
    ha.number_fits,
    hb.number_fits,
  ),
  tt,
)
words_of-IsU32 (load_number a v) (ha, (number, up)) = elim (Bool-cases (is_small v)) [
  | inl small ↦
      rw small
        (encode_i-IsU32 v 0 (reg_num a) 0x13 (omega arith) (ha.number_fits) (omega arith), tt)
  | inr large ↦ rw large (
    omega (
      arith,
      encode_u-eq-sum (shl32 (upper_part v) 12) (reg_num a) 0x37 (ha.number_fits) (omega arith),
      ha.number_fits,
    ),
    (
      encode_i-IsU32 (lo12 v (upper_part v)) (reg_num a) (reg_num a) 0x13 (ha.number_fits)
          (ha.number_fits) (omega arith),
      tt,
    ),
  )
]
words_of-IsU32 (move a b) (ha, hb) =
    (encode_i-IsU32 0 (reg_num b) (reg_num a) 0x13 hb.number_fits ha.number_fits (omega arith), tt)
words_of-IsU32 no_operation h =
    (encode_i-IsU32 0 0 0 0x13 (omega arith) (omega arith) (omega arith), tt)
words_of-IsU32 system_call h =
    (encode_i-IsU32 0 0 0 0x73 (omega arith) (omega arith) (omega arith), tt)

pub code-IsU32 : (p : List Statement) → All IsGood p → All IsU32 (code p)
code-IsU32 [] h = tt
code-IsU32 (s ∷ p) (good, h) =
    All-append IsU32 (words_of s) (code p) (words_of-IsU32 s good) (code-IsU32 p h)

-- The file, as `fread` delivers it.
abbrev pub file_of : Writer → File
file_of w = record { file_size = w.file_length; delivered = bytes_from w.file_length 0 w.bytes }

pub length-bytes_from : (n a : ℕ) (f : ℕ → ℕ) → length (bytes_from n a f) ≡ n
length-bytes_from zero a f = refl
length-bytes_from (suc n) a f = ap (λ k. suc k) (length-bytes_from n (a + 1) f)

pub get_or-bytes_from : (n a i : ℕ) (f : ℕ → ℕ) → i < n → get_or (bytes_from n a f) i 0 ≡ f (a + i)
get_or-bytes_from zero a i f h = absurd (omega arith)
get_or-bytes_from (suc n) a zero f h = ap f (omega arith)
get_or-bytes_from (suc n) a (suc i) f h =
    get_or-bytes_from n (a + 1) i f (omega arith) ∙ ap f (omega arith)

-- Loaded at 0, they are the cells.
pub overlaid-bytes_from : (n c : ℕ) (f d : ℕ → ℕ) → c < n → overlaid (bytes_from n 0 f) 0 d c ≡ f c
overlaid-bytes_from n c f d h =
    let inside : (leb 0 c && ltb c (0 + length (bytes_from n 0 f))) ≡ true =
      ground (arith, h, length-bytes_from n 0 f) in
    rw inside (get_or-bytes_from n 0 (c - 0) f (omega (arith, h)) ∙ ap f (omega arith))

bytes_from-IsByte : (n a : ℕ) (f : ℕ → ℕ) → ((b : ℕ) → IsByte (f b)) → All IsByte (bytes_from n a f)
bytes_from-IsByte zero a f h = tt
bytes_from-IsByte (suc n) a f h = (h a, bytes_from-IsByte n (a + 1) f h)

emit_words-IsByte :
    (vs : List ℕ) (w : Writer)
    → ((b : ℕ) → IsByte (w.bytes b))
    → (b : ℕ) → IsByte ((emit_words vs w).bytes b)
unfolding emit_word
emit_words-IsByte [] w h b = h b
emit_words-IsByte (v ∷ vs) w h b = emit_words-IsByte vs (emit_word v w) (λ c. ground (arith, h c)) b

-- The file ends behind the last word.
emit_word-file_length :
    (v : ℕ) (w : Writer) → w.file_length ≡ w.position → (emit_word v w).file_length ≡ w.position + 4
unfolding emit_word
emit_word-file_length v w h = ground (arith, h)

emit_words-file_length :
    (vs : List ℕ) (w : Writer)
    → w.file_length ≡ w.position
    → (emit_words vs w).file_length ≡ w.position + length vs * 4
emit_words-file_length [] w h = omega (arith, h)
emit_words-file_length (v ∷ vs) w h =
    let end = emit_word-position v w in
    emit_words-file_length vs (emit_word v w) (emit_word-file_length v w h ∙ sym end)
    ∙ omega (arith, end)

-- The file of a program.
abbrev pub program_file : List Statement → File
program_file p = file_of (emit_words (code p) new_writer)

pub program_file-size : (p : List Statement) → (program_file p).file_size ≡ length (code p) * 4
program_file-size p = emit_words-file_length (code p) new_writer refl ∙ omega arith

pub program_file-IsFile : (p : List Statement) → IsFile (program_file p)
program_file-IsFile p =
    let w = emit_words (code p) new_writer in
    record {
      delivered_fits = omega (arith, length-bytes_from w.file_length 0 w.bytes);
      delivered_bytes =
          bytes_from-IsByte w.file_length 0 w.bytes
            (emit_words-IsByte (code p) new_writer (λ b. omega arith));
    }

pub program-WordsAt :
    (p : List Statement) → All IsGood p → WordsAt (emit_words (code p) new_writer).bytes 0 (code p)
program-WordsAt p h = emit_words-WordsAt (code p) new_writer (code-IsU32 p h)

-- The file that the assembler writes, if it succeeds.
abbrev pub output : Outcome Writer → Option File
output (ok w) = some (file_of w)
output _ = none
