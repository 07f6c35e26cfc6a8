-- ===== src/Cpu/Syscall/Buffers.antt =====
-- cpu.cpp: the host's accesses to a buffer in memory.
use riscv_student_pack.Common.{
  ℕ, zero, suc, ◌+◌, ◌≤◌, ◌≡◌, ◌≢◌, none, some, List, [], ◌∷◌, take, length, All, IsByte, arith,
  inl, inr, Option-cases, sym, ap, ◌∙◌,
}
use mathlib.Core.Path.{subst}
use riscv_student_pack.Memory.{Memory, IsMemory, load_byte, store_byte, update, ◌>>=◌}
use riscv_student_pack.Cpu.State.{Kernel, OsCall, os_read}
use riscv_student_pack.Cpu.Syscall.{copy_out, copy_in}

-- What the host guarantees: `read` delivers at most the bytes asked for, and all are bytes.
pub record IsKernel (k : Kernel) : Type 0 where
  pub read_fits :
      (past : List OsCall) (fd count : ℕ) → length (k.reply past (os_read fd count)).bytes ≤ count
  pub bytes_fit : (past : List OsCall) (call : OsCall) → All IsByte (k.reply past call).bytes

pub copy_out-defined : (n a : ℕ) (m : Memory) → a + n ≤ m.size → copy_out n a m ≢ none
unfolding copy_out load_byte
copy_out-defined zero a m h = λ e. cc
copy_out-defined (suc n) a m h = ground (arith, copy_out-defined n (a + 1) m)

pub store_byte-IsMemory :
    (a b : ℕ) {m m' : Memory}
    → IsMemory m
    → IsByte b
    → store_byte a b m ≡ some m'
    → IsMemory m' × (m'.size ≡ m.size)
unfolding store_byte
store_byte-IsMemory a b {m} {m'} k h e = (
  record {
    size_fits = ground (arith, k.size_fits);
    cells_fit = λ c. ground (arith, k.cells_fit c);
  },
  ground arith,
)

pub copy_in-defined :
    (bs : List ℕ) (a : ℕ) (m : Memory) → a + length bs ≤ m.size → copy_in bs a m ≢ none
unfolding copy_in store_byte
copy_in-defined [] a m h = λ e. cc
copy_in-defined (b ∷ bs) a m h =
    ground (arith, copy_in-defined bs (a + 1) (record m { data_at = update m.data_at a b }))

pub copy_in-IsMemory :
    (bs : List ℕ) (a : ℕ) {m m' : Memory}
    → IsMemory m
    → All IsByte bs
    → copy_in bs a m ≡ some m'
    → IsMemory m' × (m'.size ≡ m.size)
unfolding copy_in
copy_in-IsMemory [] a {m} {m'} k h e =
    let same : m ≡ m' = cc in (subst IsMemory same k, ap (λ (x : Memory). x.size) (sym same))
copy_in-IsMemory (b ∷ bs) a {m} {m'} k (hb, hbs) e = elim (Option-cases (store_byte a b m)) [
  | inl none_at ↦ cc
  | inr (m1, at) ↦
      let rest : copy_in bs (a + 1) m1 ≡ some m' = cc (ap (λ o. o >>= copy_in bs (a + 1)) at) in
      let (k1, s1) = store_byte-IsMemory a b k hb at in
      let (k2, s2) = copy_in-IsMemory bs (a + 1) k1 hbs rest in (k2, s2 ∙ s1)
]

pub take-All : (n : ℕ) (bs : List ℕ) → All IsByte bs → All IsByte (take n bs)
take-All zero bs h = tt
take-All (suc n) [] h = tt
take-All (suc n) (b ∷ bs) (hb, hbs) = (hb, take-All n bs hbs)

pub length-take_le : (n : ℕ) (bs : List ℕ) → length (take n bs) ≤ n
length-take_le zero bs = omega arith
length-take_le (suc n) [] = omega arith
length-take_le (suc n) (b ∷ bs) = omega (arith, length-take_le n bs)
