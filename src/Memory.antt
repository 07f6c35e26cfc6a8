-- ===== src/Memory.antt =====
-- emulator/include/memory.hpp and emulator/src/memory.cpp: byte-addressable memory.
-- `none` is undefined behaviour: an access to `data` outside its allocation of `size` bytes.
pub mod Access
pub mod RoundTrip
use riscv_student_pack.Common.{
  ℕ, ◌+◌, ◌-◌, ◌*◌, ◌/◌, ◌%◌, ◌^◌, ◌≤◌, ◌<◌, ◌≡◌, Bool, true, false, Option, none, some, bit_and,
  bit_or, ltb, leb, ◌==◌, not, if◌then◌else◌, u8, u32, add32, sub32, shl32, shr, IsByte, IsU32,
}

-- `memory_status_t`
pub data MemoryStatus : Type 0 where
  mem_ok mem_read_error mem_write_error mem_misaligned_error : MemoryStatus

pub record Memory : Type 0 where
  pub data_at : ℕ → ℕ
  pub size : ℕ

infixl 5 ◌>>=◌
abbrev pub ◌>>=◌ : {A B : Type 0} → Option A → (A → Option B) → Option B
none >>= f = none
some a >>= f = f a

-- `Memory::Memory`: the allocation is zeroed.
unfoldable pub new_memory : ℕ → Memory
new_memory size = record { data_at = λ _. 0; size = size }

-- `data[addr]` as a value, and as the target of an assignment.
unfoldable pub load_byte : Memory → ℕ → Option ℕ
load_byte m addr = if ltb addr m.size then some (m.data_at addr) else none

abbrev pub update : (ℕ → ℕ) → ℕ → ℕ → ℕ → ℕ
update f p v q = if p == q then v else f q

unfoldable pub store_byte : ℕ → ℕ → Memory → Option Memory
store_byte addr v m =
    if ltb addr m.size then some (record m { data_at = update m.data_at addr v }) else none

-- The reads take the old value of `*value` and return the status with its new value.
unfoldable pub read8 : Memory → ℕ → ℕ → Option (MemoryStatus × ℕ)
unfolding load_byte
read8 m addr value =
    if leb m.size addr
    then some (mem_read_error, value)
    else do b ← load_byte m addr; some (mem_ok, b)

unfoldable pub write8 : ℕ → ℕ → Memory → Option (MemoryStatus × Memory)
unfolding store_byte
write8 addr value m =
    if leb m.size addr
    then some (mem_write_error, m)
    else do m' ← store_byte addr value m; some (mem_ok, m')

unfoldable pub read16 : Memory → ℕ → ℕ → Option (MemoryStatus × ℕ)
unfolding load_byte
read16 m addr value =
    if not (addr % 2 == 0)
    then some (mem_misaligned_error, value)
    else if ltb (sub32 m.size 2) addr
    then some (mem_read_error, value)
    else do
      b0 ← load_byte m addr
      b1 ← load_byte m (add32 addr 1)
      some (mem_ok, bit_or b0 (shl32 b1 8) % 2 ^ 16)

unfoldable pub write16 : ℕ → ℕ → Memory → Option (MemoryStatus × Memory)
unfolding store_byte
write16 addr value m =
    if not (addr % 2 == 0)
    then some (mem_misaligned_error, m)
    else if ltb (sub32 m.size 2) addr
    then some (mem_write_error, m)
    else do
      m1 ← store_byte addr (u8 (bit_and value 0xff)) m
      m2 ← store_byte (add32 addr 1) (u8 (bit_and (shr value 8) 0xff)) m1
      some (mem_ok, m2)

unfoldable pub read32 : Memory → ℕ → ℕ → Option (MemoryStatus × ℕ)
unfolding load_byte
read32 m addr value =
    if not (addr % 4 == 0)
    then some (mem_misaligned_error, value)
    else if ltb (sub32 m.size 4) addr
    then some (mem_read_error, value)
    else do
      b0 ← load_byte m addr
      b1 ← load_byte m (add32 addr 1)
      b2 ← load_byte m (add32 addr 2)
      b3 ← load_byte m (add32 addr 3)
      some (mem_ok, u32 (bit_or (bit_or (bit_or b0 (shl32 b1 8)) (shl32 b2 16)) (shl32 b3 24)))

unfoldable pub write32 : ℕ → ℕ → Memory → Option (MemoryStatus × Memory)
unfolding store_byte
write32 addr value m =
    if not (addr % 4 == 0)
    then some (mem_misaligned_error, m)
    else if ltb (sub32 m.size 4) addr
    then some (mem_write_error, m)
    else do
      m1 ← store_byte addr (u8 (bit_and value 0xff)) m
      m2 ← store_byte (add32 addr 1) (u8 (bit_and (shr value 8) 0xff)) m1
      m3 ← store_byte (add32 addr 2) (u8 (bit_and (shr value 16) 0xff)) m2
      m4 ← store_byte (add32 addr 3) (u8 (bit_and (shr value 24) 0xff)) m3
      some (mem_ok, m4)

-- The size is that of a `uint32_t`, and every cell holds a byte.
pub record IsMemory (m : Memory) : Type 0 where
  pub size_fits : IsU32 m.size
  pub cells_fit : (a : ℕ) → IsByte (m.data_at a)
