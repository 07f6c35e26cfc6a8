-- ===== src/Memory/Access.antt =====
-- memory.cpp: what each read returns on every branch, and which accesses are undefined.
use riscv_student_pack.Common.{
  ℕ, zero, suc, ◌+◌, ◌*◌, ◌%◌, ◌^◌, ◌≤◌, ◌<◌, ◌≡◌, ◌↔◌, none, some, bit_or, ltb, ◌==◌, not,
  if◌then◌else◌, u32, shl32, IsByte, IsU32, arith, ◌∙◌,
}
use riscv_student_pack.Common.Bits.{bit_or_add, bit_or_comm}
use riscv_student_pack.Memory.{
  MemoryStatus, mem_ok, mem_read_error, mem_misaligned_error, Memory, IsMemory, read8, read16,
  write16, read32, write32,
}

pub join16 : (b0 b1 : ℕ) → IsByte b0 → IsByte b1 → bit_or b0 (shl32 b1 8) % 2 ^ 16 ≡ b0 + b1 * 2 ^ 8
join16 b0 b1 h0 h1 =
    omega (arith, bit_or_comm b0 (shl32 b1 8), bit_or_add 8 (shl32 b1 8) b0 (omega arith) h0)

pub join32 :
    (b0 b1 b2 b3 : ℕ)
    → IsByte b0
    → IsByte b1
    → IsByte b2
    → IsByte b3
    → u32 (bit_or (bit_or (bit_or b0 (shl32 b1 8)) (shl32 b2 16)) (shl32 b3 24))
      ≡ b0 + b1 * 2 ^ 8 + b2 * 2 ^ 16 + b3 * 2 ^ 24
join32 b0 b1 b2 b3 h0 h1 h2 h3 = rw (one, two, three) (omega arith)
  where
    one : bit_or b0 (shl32 b1 8) ≡ b0 + b1 * 2 ^ 8
    one = bit_or_comm b0 (shl32 b1 8) ∙ bit_or_add 8 (shl32 b1 8) b0 (omega arith) h0 ∙ omega arith

    two : bit_or (b0 + b1 * 2 ^ 8) (shl32 b2 16) ≡ b0 + b1 * 2 ^ 8 + b2 * 2 ^ 16
    two =
        bit_or_comm (b0 + b1 * 2 ^ 8) (shl32 b2 16)
        ∙ bit_or_add 16 (shl32 b2 16) (b0 + b1 * 2 ^ 8) (omega arith) (omega arith)
        ∙ omega arith

    three :
        bit_or (b0 + b1 * 2 ^ 8 + b2 * 2 ^ 16) (shl32 b3 24)
        ≡ b0 + b1 * 2 ^ 8 + b2 * 2 ^ 16 + b3 * 2 ^ 24
    three =
        bit_or_comm (b0 + b1 * 2 ^ 8 + b2 * 2 ^ 16) (shl32 b3 24)
        ∙ bit_or_add 24 (shl32 b3 24) (b0 + b1 * 2 ^ 8 + b2 * 2 ^ 16) (omega arith) (omega arith)
        ∙ omega arith

-- The number that `n` bytes from `a` on hold, lowest first.
abbrev pub little_endian : (ℕ → ℕ) → ℕ → ℕ → ℕ
little_endian d zero a = 0
little_endian d (suc n) a = d a + little_endian d n (a + 1) * 2 ^ 8

-- What a read of `n` bytes at an address aligned to `n` is to return.
unfoldable pub read_result : ℕ → Memory → ℕ → ℕ → MemoryStatus × ℕ
read_result n m addr value =
    if not (addr % n == 0)
    then (mem_misaligned_error, value)
    else if ltb m.size (addr + n)
    then (mem_read_error, value)
    else (mem_ok, little_endian m.data_at n addr)

module _ {m : Memory} (v : IsMemory m) (addr value : ℕ) (fits : IsU32 addr) where
  pub read8-read_result : read8 m addr value ≡ some (read_result 1 m addr value)
  unfolding read8 read_result
  read8-read_result = ground (arith, v.size_fits)

  -- On a memory of at least two bytes and a 32-bit address, `read16` is defined and gives the
  -- misalignment error for an odd address, else the read error for a halfword that does not lie
  -- inside the memory, else the little-endian number of its two bytes; an error leaves the old
  -- value.
  pub read16-read_result : 2 ≤ m.size → read16 m addr value ≡ some (read_result 2 m addr value)
  unfolding read16 read_result
  read16-read_result h = ground (
    arith,
    v.size_fits,
    join16 (m.data_at addr) (m.data_at (addr + 1)) (v.cells_fit addr) (v.cells_fit (addr + 1)),
  )

  -- On a memory of at least four bytes and a 32-bit address, `read32` is defined and gives the
  -- misalignment error for an address that 4 does not divide, else the read error for a word that
  -- does not lie inside the memory, else the little-endian number of its four bytes; an error
  -- leaves the old value.
  pub read32-read_result : 4 ≤ m.size → read32 m addr value ≡ some (read_result 4 m addr value)
  unfolding read32 read_result
  read32-read_result h = ground (
    arith,
    v.size_fits,
    join32 (m.data_at addr) (m.data_at (addr + 1)) (m.data_at (addr + 2)) (m.data_at (addr + 3))
        (v.cells_fit addr) (v.cells_fit (addr + 1)) (v.cells_fit (addr + 2))
        (v.cells_fit (addr + 3)),
  )

-- The bounds checks subtract the width from the size in 32 bits.
module _ (m : Memory) (addr value : ℕ) (size_fits : IsU32 m.size) (fits : IsU32 addr) where
  pub read16-undefined_iff : (read16 m addr value ≡ none) ↔ (addr % 2 ≡ 0) × (m.size < 2)
  unfolding read16
  read16-undefined_iff = (λ h. ground arith, λ h. ground arith)

  -- For a 32-bit size and address, `read32` reads outside the allocation if and only if the
  -- address is a multiple of 4 and the memory is smaller than four bytes.
  pub read32-undefined_iff : (read32 m addr value ≡ none) ↔ (addr % 4 ≡ 0) × (m.size < 4)
  unfolding read32
  read32-undefined_iff = (λ h. ground arith, λ h. ground arith)

  pub write16-undefined_iff : (write16 addr value m ≡ none) ↔ (addr % 2 ≡ 0) × (m.size < 2)
  unfolding write16
  write16-undefined_iff = (λ h. ground arith, λ h. ground arith)

  -- For a 32-bit size and address, `write32` writes outside the allocation if and only if the
  -- address is a multiple of 4 and the memory is smaller than four bytes.
  pub write32-undefined_iff : (write32 addr value m ≡ none) ↔ (addr % 4 ≡ 0) × (m.size < 4)
  unfolding write32
  write32-undefined_iff = (λ h. ground arith, λ h. ground arith)
