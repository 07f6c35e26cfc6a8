-- ===== src/Memory/RoundTrip.antt =====
-- memory.cpp: what each write leaves behind, and reading it back.
use riscv_student_pack.Common.{
  ℕ, zero, suc, ◌+◌, ◌/◌, ◌%◌, ◌^◌, ◌≤◌, ◌<◌, ◌≡◌, refl, Option, some, bit_and, ltb, ◌==◌, not,
  if◌then◌else◌, u8, shr, IsByte, IsU32, arith, ◌∙◌, ap,
}
use native.Mathlib.Nat.{pow-suc}
use riscv_student_pack.Common.Bits.{bit_and_mask}
use riscv_student_pack.Memory.{
  MemoryStatus, mem_ok, mem_write_error, mem_misaligned_error, Memory, IsMemory, update, read8,
  write8, read16, write16, read32, write32,
}
use riscv_student_pack.Memory.Access.{
  little_endian, read_result, read8-read_result, read16-read_result, read32-read_result,
}

-- The store after `n` bytes of `v` were put at `a`, lowest first.
abbrev pub put_bytes : ℕ → ℕ → ℕ → (ℕ → ℕ) → ℕ → ℕ
put_bytes zero a v d = d
put_bytes (suc n) a v d = put_bytes n (a + 1) (v / 2 ^ 8) (update d a (v % 2 ^ 8))

-- What a write of the low `n` bytes of `v` at an address aligned to `n` is to do.
unfoldable pub write_result : ℕ → ℕ → ℕ → Memory → MemoryStatus × Memory
write_result n addr v m =
    if not (addr % n == 0)
    then (mem_misaligned_error, m)
    else if ltb m.size (addr + n)
    then (mem_write_error, m)
    else (mem_ok, record m { data_at = put_bytes n addr v m.data_at })

byte_of : (v k : ℕ) → u8 (bit_and (shr v k) 0xff) ≡ v / 2 ^ k % 2 ^ 8
byte_of v k = omega (arith, bit_and_mask 8 (shr v k))

module _ (m : Memory) (addr v : ℕ) (size_fits : IsU32 m.size) (fits : IsU32 addr) where
  pub write8-write_result : IsByte v → write8 addr v m ≡ some (write_result 1 addr v m)
  unfolding write8 write_result
  write8-write_result h = ground arith

  pub write16-write_result : 2 ≤ m.size → write16 addr v m ≡ some (write_result 2 addr v m)
  unfolding write16 write_result
  write16-write_result h = ground (arith, bit_and_mask 8 v, byte_of v 8)

  -- On a memory of at least four bytes and a 32-bit address, `write32` is defined and gives the
  -- misalignment error for an address that 4 does not divide, else the write error for a word that
  -- does not lie inside the memory, both without a change, and else puts the four bytes of the
  -- value there, lowest first.
  pub write32-write_result : 4 ≤ m.size → write32 addr v m ≡ some (write_result 4 addr v m)
  unfolding write32 write_result
  write32-write_result h = ground (arith, bit_and_mask 8 v, byte_of v 8, byte_of v 16, byte_of v 24)

put_bytes_below : (n a v b : ℕ) (d : ℕ → ℕ) → b < a → put_bytes n a v d b ≡ d b
put_bytes_below zero a v b d h = refl
put_bytes_below (suc n) a v b d h =
    ground (arith, put_bytes_below n (a + 1) (v / 2 ^ 8) b (update d a (v % 2 ^ 8)))

put_bytes_above : (n a v b : ℕ) (d : ℕ → ℕ) → a + n ≤ b → put_bytes n a v d b ≡ d b
put_bytes_above zero a v b d h = refl
put_bytes_above (suc n) a v b d h =
    ground (arith, put_bytes_above n (a + 1) (v / 2 ^ 8) b (update d a (v % 2 ^ 8)))

put_bytes-IsByte :
    (n a v : ℕ) (d : ℕ → ℕ) → ((b : ℕ) → IsByte (d b)) → (b : ℕ) → IsByte (put_bytes n a v d b)
put_bytes-IsByte zero a v d h b = h b
put_bytes-IsByte (suc n) a v d h b =
    put_bytes-IsByte n (a + 1) (v / 2 ^ 8) (update d a (v % 2 ^ 8)) (λ c. ground (arith, h c)) b

little_endian-put_bytes :
    (n a v : ℕ) (d : ℕ → ℕ) → v < 256 ^ n → little_endian (put_bytes n a v d) n a ≡ v
little_endian-put_bytes zero a v d h = omega arith
little_endian-put_bytes (suc n) a v d h = ground (
  arith,
  pow-suc 256 n,
  put_bytes_below n (a + 1) (v / 2 ^ 8) a (update d a (v % 2 ^ 8)),
  little_endian-put_bytes n (a + 1) (v / 2 ^ 8) (update d a (v % 2 ^ 8)),
)

-- `m'` differs from `m` at most in the `n` bytes from `addr` on.
pub record SameOutside (n addr : ℕ) (m m' : Memory) : Type 0 where
  pub same_size : m'.size ≡ m.size
  pub below : (b : ℕ) → b < addr → m'.data_at b ≡ m.data_at b
  pub above : (b : ℕ) → addr + n ≤ b → m'.data_at b ≡ m.data_at b

module _ (n addr v : ℕ) {m m' : Memory} {s : MemoryStatus}
    (written : write_result n addr v m ≡ (s, m')) where
  pub write_result-SameOutside : SameOutside n addr m m'
  unfolding write_result
  write_result-SameOutside = record {
    same_size = ground arith;
    below = λ b h. ground (arith, put_bytes_below n addr v b m.data_at);
    above = λ b h. ground (arith, put_bytes_above n addr v b m.data_at);
  }

  pub write_result-IsMemory : IsMemory m → IsMemory m'
  unfolding write_result
  write_result-IsMemory k = record {
    size_fits = ground (arith, k.size_fits);
    cells_fit =
        λ b. ground (arith, k.cells_fit b, put_bytes-IsByte n addr v m.data_at k.cells_fit b);
  }

read_result-write_result :
    (n addr v value : ℕ) (m m' : Memory)
    → v < 256 ^ n
    → write_result n addr v m ≡ (mem_ok, m')
    → read_result n m' addr value ≡ (mem_ok, v)
unfolding write_result read_result
read_result-write_result n addr v value m m' h e =
    ground (arith, little_endian-put_bytes n addr v m.data_at h)

-- The effect of a successful write of `n` bytes: read back the same, all else unchanged.
pub record IsWritten (n addr : ℕ) (m m' : Memory) : Type 0 where
  pub outside : SameOutside n addr m m'
  pub still_memory : IsMemory m'

-- A write and a read that meet their descriptions at width `n` are a round trip.
round_trip :
    (n addr v old : ℕ) {m m' : Memory} {write : Option (MemoryStatus × Memory)}
    {read : Option (MemoryStatus × ℕ)}
    → IsMemory m
    → v < 256 ^ n
    → write ≡ some (write_result n addr v m)
    → write ≡ some (mem_ok, m')
    → (IsMemory m' → m'.size ≡ m.size → read ≡ some (read_result n m' addr old))
    → (read ≡ some (mem_ok, v)) × IsWritten n addr m m'
round_trip n addr v old {m} {m'} k h described e reads =
    let w : write_result n addr v m ≡ (mem_ok, m') = cc in
    let o : SameOutside n addr m m' = write_result-SameOutside n addr v w in
    let k' : IsMemory m' = write_result-IsMemory n addr v w k in
    (
      reads k' o.same_size ∙ ap some (read_result-write_result n addr v old m m' h w),
      record { outside = o; still_memory = k' },
    )

module _ {m m' : Memory} (k : IsMemory m) (addr v old : ℕ) (fits : IsU32 addr) where
  -- A byte that `write8` has stored is read back by `read8`; the write keeps the memory's form,
  -- its size and every other byte.
  pub read8-write8 :
      IsByte v
      → write8 addr v m ≡ some (mem_ok, m')
      → (read8 m' addr old ≡ some (mem_ok, v)) × IsWritten 1 addr m m'
  read8-write8 h e =
      round_trip 1 addr v old k (omega arith) (write8-write_result m addr v k.size_fits fits h) e
        (λ k' s. read8-read_result k' addr old fits)

  -- In a memory of at least two bytes, a halfword that `write16` has stored is read back by
  -- `read16`; the write keeps the memory's form, its size and every byte outside the two.
  pub read16-write16 :
      2 ≤ m.size
      → v < 2 ^ 16
      → write16 addr v m ≡ some (mem_ok, m')
      → (read16 m' addr old ≡ some (mem_ok, v)) × IsWritten 2 addr m m'
  read16-write16 large h e =
      round_trip 2 addr v old k (omega arith) (write16-write_result m addr v k.size_fits fits large)
        e (λ k' s. read16-read_result k' addr old fits (omega arith))

  -- In a memory of at least four bytes, a word that `write32` has stored is read back by `read32`;
  -- the write keeps the memory's form, its size and every byte outside the four.
  pub read32-write32 :
      4 ≤ m.size
      → IsU32 v
      → write32 addr v m ≡ some (mem_ok, m')
      → (read32 m' addr old ≡ some (mem_ok, v)) × IsWritten 4 addr m m'
  read32-write32 large h e =
      round_trip 4 addr v old k (omega arith) (write32-write_result m addr v k.size_fits fits large)
        e (λ k' s. read32-read_result k' addr old fits (omega arith))
