-- ===== src/Program.antt =====
-- Straight-line programs in both halves of the pack: their text, which the assembler (assembler/src)
-- reads, and what the instruction set says that they do, as the emulator (emulator/src) should.
pub mod Bytes
pub mod Lines
pub mod Immediates
pub mod Clean
pub mod Mnemonics
pub mod Pseudo
pub mod Statements
pub mod Reading
pub mod Passes
pub mod Files
pub mod Running
pub mod Results
pub mod Exits
pub mod Main
pub mod Commands
pub mod Accesses
pub mod Calls
use riscv_student_pack.Common.{
  ℕ, ◌+◌, ◌*◌, ◌^◌, ◌<◌, ◌≡◌, Bool, true, false, List, [], ◌∷◌, ◌++◌, ◌==◌, if◌then◌else◌, codes,
  add32, shl32, sra32, length, All, IsU32,
}
use riscv_student_pack.Memory.{update}
use riscv_student_pack.Encoder.{encode_r, encode_i, encode_u}
use riscv_student_pack.Assembler.Registers.{reg_num}
use riscv_student_pack.Assembler.Instructions.Mnemonics.{
  Mnemonic, name, meaning, funct7_of, funct3_of,
}
use riscv_student_pack.Assembler.Instructions.Immediate.{
  ImmediateMnemonic, immediate_name, immediate_meaning, IsImmediate, immediate_code,
  immediate_field,
}
use riscv_student_pack.Assembler.Pseudo.{print_int, is_small, lo12}
use riscv_student_pack.Assembler.SecondPass.Constants.{RoundsUp}
use riscv_student_pack.Assembler.SecondPass.Output.{Writer, emit_word}
use riscv_student_pack.Assembler.SecondPass.Tokens.{IsToken}

-- `op a, b, c` on registers, `op a, b, v` with a number, `li a, v`, `mv a, b`, `nop`, and `ecall`.
pub data Statement : Type 0 where
  register_op : Mnemonic → (a b c : List ℕ) → Statement
  immediate_op : ImmediateMnemonic → (a b : List ℕ) → (v : ℕ) → Statement
  load_number : (a : List ℕ) → (v : ℕ) → Statement
  move : (a b : List ℕ) → Statement
  no_operation : Statement
  system_call : Statement

abbrev pub line : Statement → List ℕ
line (register_op op a b c) = name op ++ (b' ' ∷ (a ++ (codes ", " ++ (b ++ (codes ", " ++ c)))))
line (immediate_op op a b v) =
    immediate_name op ++ (b' ' ∷ (a ++ (codes ", " ++ (b ++ (codes ", " ++ print_int v)))))
line (load_number a v) = codes "li" ++ (b' ' ∷ (a ++ (codes ", " ++ print_int v)))
line (move a b) = codes "mv" ++ (b' ' ∷ (a ++ (codes ", " ++ b)))
line no_operation = codes "nop"
line system_call = codes "ecall"

-- The file: each statement on a line of its own.
abbrev pub text : List Statement → List ℕ
text [] = []
text (s ∷ p) = line s ++ (10 ∷ text p)

-- The instructions of a statement.
abbrev pub upper_part : ℕ → ℕ
upper_part v = sra32 (add32 v 0x800) 12

abbrev pub large_words : (rd v : ℕ) → List ℕ
large_words rd v =
    encode_u (shl32 (upper_part v) 12) rd 0x37
    ∷ encode_i (lo12 v (upper_part v)) rd 0x0 rd 0x13
    ∷ []

abbrev pub words_of : Statement → List ℕ
words_of (register_op op a b c) =
    encode_r (funct7_of op) (reg_num c) (reg_num b) (funct3_of op) (reg_num a) 0x33 ∷ []
words_of (immediate_op op a b v) =
    encode_i (immediate_field op v) (reg_num b) (immediate_code op) (reg_num a) 0x13 ∷ []
words_of (load_number a v) =
    if is_small v then encode_i v 0 0x0 (reg_num a) 0x13 ∷ [] else large_words (reg_num a) v
words_of (move a b) = encode_i 0 (reg_num b) 0x0 (reg_num a) 0x13 ∷ []
words_of no_operation = encode_i 0 0 0x0 0 0x13 ∷ []
words_of system_call = encode_i 0x000 0x00 0x0 0x00 0x73 ∷ []

abbrev pub code : List Statement → List ℕ
code [] = []
code (s ∷ p) = words_of s ++ code p

-- The words one behind the other in the file.
abbrev pub emit_words : List ℕ → Writer → Writer
emit_words [] w = w
emit_words (v ∷ vs) w = emit_words vs (emit_word v w)

-- What the instruction set says of the registers: `x0` keeps its value.
abbrev pub set : (rd v : ℕ) → (ℕ → ℕ) → ℕ → ℕ
set rd v x = if rd == 0 then x else update x rd v

abbrev pub performed : Statement → (ℕ → ℕ) → ℕ → ℕ
performed (register_op op a b c) x = set (reg_num a) (meaning op (x (reg_num b)) (x (reg_num c))) x
performed (immediate_op op a b v) x = set (reg_num a) (immediate_meaning op (x (reg_num b)) v) x
performed (load_number a v) x = set (reg_num a) v x
performed (move a b) x = set (reg_num a) (x (reg_num b)) x
performed no_operation x = x
performed system_call x = x

abbrev pub result : List Statement → (ℕ → ℕ) → ℕ → ℕ
result [] x = x
result (s ∷ p) x = result p (performed s x)

-- A byte with no meaning of its own in a line.
pub record IsLineByte (c : ℕ) : Type 0 where
  pub no_open : (c == b'(') ≡ false
  pub no_colon : (c == b':') ≡ false
  pub no_dot : (c == b'.') ≡ false
  pub no_hash : (c == b'#') ≡ false
  pub no_newline : (c == 10) ≡ false

-- An operand that names a register.
pub record IsRegister (a : List ℕ) : Type 0 where
  pub token : IsToken a
  pub bytes : All IsLineByte a
  pub number_fits : reg_num a < 32

abbrev pub IsGood : Statement → Type 0
IsGood (register_op op a b c) = IsRegister a × (IsRegister b × IsRegister c)
IsGood (immediate_op op a b v) = IsRegister a × (IsRegister b × (IsU32 v × IsImmediate op v))
IsGood (load_number a v) = IsRegister a × (IsU32 v × RoundsUp v)
IsGood (move a b) = IsRegister a × IsRegister b
IsGood no_operation = Unit {0}
IsGood system_call = Unit {0}
