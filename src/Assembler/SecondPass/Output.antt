-- ===== src/Assembler/SecondPass/Output.antt =====
-- assembler/src/second_pass.cpp: the output file and the position of the pass.
use riscv_student_pack.Common.{
  ℕ, zero, suc, ◌+◌, ◌/◌, ◌%◌, ◌^◌, List, [], ◌∷◌, codes, add32, length, ltb, if◌then◌else◌,
}
use riscv_student_pack.Memory.{update}

-- The file, whose bytes are 0 where nothing has been written, its length and the place of the next
-- write; and the variables `pc` and `current_section_name` of `second_pass`.
pub record Writer : Type 0 where
  pub bytes : ℕ → ℕ
  pub file_length : ℕ
  pub position : ℕ
  pub pc : ℕ
  pub section : List ℕ

abbrev pub new_writer : Writer
new_writer = record {
  bytes = λ _. 0;
  file_length = 0;
  position = 0;
  pc = 0;
  section = codes ".text";
}

-- `fwrite` of bytes.
unfoldable pub write_bytes : List ℕ → Writer → Writer
write_bytes [] w = w
write_bytes (b ∷ bs) w = write_bytes bs (record w {
  bytes = update w.bytes w.position b;
  file_length = if ltb w.position w.file_length then w.file_length else w.position + 1;
  position = w.position + 1;
})

-- A write that moves `pc` along.
unfoldable pub emit : List ℕ → Writer → Writer
unfolding write_bytes
emit bs w = write_bytes bs (record w { pc = add32 w.pc (length bs) })

-- The low `n` bytes of a number as the host keeps them, lowest first.
abbrev pub low_bytes : (n v : ℕ) → List ℕ
low_bytes zero v = []
low_bytes (suc n) v = (v % 2 ^ 8) ∷ low_bytes n (v / 2 ^ 8)

-- `fwrite(&instr, 4, 1, out)` and `*pc += 4`
unfoldable pub emit_word : ℕ → Writer → Writer
unfolding emit
emit_word word w = emit (low_bytes 4 word) w

-- `pc = base` and `fseek(out, base, SEEK_SET)`
abbrev pub go_to : ℕ → Writer → Writer
go_to base w = record w { pc = base; position = base }
