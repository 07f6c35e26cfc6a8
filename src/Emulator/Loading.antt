-- ===== src/Emulator/Loading.antt =====
-- emulator/src/emulator.cpp: `load_program`.
use riscv_student_pack.Common.{
  ℕ, suc, ◌+◌, ◌-◌, ◌≤◌, ◌<◌, ◌≡◌, ◌↔◌, refl, ap, ◌∙◌, ◌&&◌, List, [], ◌∷◌, Option, none, some, ltb,
  leb, ◌==◌, if◌then◌else◌, length, get_or, All, IsByte, arith, Bool-cases, Option-cases, inl, inr,
}
use riscv_student_pack.Memory.{Memory, store_byte, update, ◌>>=◌}
use riscv_student_pack.Cpu.State.{Machine, IsMachine}
use riscv_student_pack.Cpu.Syscall.{copy_in}
use riscv_student_pack.Cpu.Syscall.Buffers.{copy_in-defined, copy_in-IsMemory}
use riscv_student_pack.Emulator.{File, load_program}

-- The cell at `c` when `bs` lie from `a` on and `d` holds elsewhere.
abbrev pub overlaid : List ℕ → ℕ → (ℕ → ℕ) → ℕ → ℕ
overlaid bs a d c = if leb a c && ltb c (a + length bs) then get_or bs (c - a) 0 else d c

stored_cells :
    (a b : ℕ) (m m1 : Memory) → store_byte a b m ≡ some m1 → m1.data_at ≡ update m.data_at a b
unfolding store_byte
stored_cells a b m m1 e = ground (arith, e)

overlaid-cons :
    (b : ℕ) (bs : List ℕ) (a : ℕ) (d : ℕ → ℕ) (c : ℕ)
    → overlaid bs (a + 1) (update d a b) c ≡ overlaid (b ∷ bs) a d c
overlaid-cons b bs a d c = elim (Bool-cases (a == c)) [
  | inl e ↦ let same : c - a ≡ 0 = ground (arith, e) in rw same (ground (arith, e))
  | inr e ↦ elim (Bool-cases (leb a c)) [
    | inl f ↦
        let later : c - a ≡ suc (c - (a + 1)) = ground (arith, e, f) in
        rw later (ground (arith, e, f))
    | inr f ↦ ground (arith, e, f)
  ]
]

copy_in-overlaid :
    (bs : List ℕ) (a : ℕ) (m m' : Memory)
    → copy_in bs a m ≡ some m'
    → (c : ℕ) → m'.data_at c ≡ overlaid bs a m.data_at c
unfolding copy_in
copy_in-overlaid [] a m m' e c = ground (arith, e)
copy_in-overlaid (b ∷ bs) a m m' e c = elim (Option-cases (store_byte a b m)) [
  | inl out ↦ cc
  | inr (m1, at) ↦
      let rest : copy_in bs (a + 1) m1 ≡ some m' = cc (ap (λ o. o >>= copy_in bs (a + 1)) at) in
      copy_in-overlaid bs (a + 1) m1 m' rest c
      ∙ ap (λ (d : ℕ → ℕ). overlaid bs (a + 1) d c) (stored_cells a b m m1 at)
      ∙ overlaid-cons b bs a m.data_at c
]

-- What the host shows of a file: no more is delivered than the file is long, and all are bytes.
pub record IsFile (f : File) : Type 0 where
  pub delivered_fits : length f.delivered ≤ f.file_size
  pub delivered_bytes : All IsByte f.delivered

-- The machine `m'` and the status that loading `f` at `a` leaves.
pub record IsLoaded (f : File) (a : ℕ) (m : Machine) (status : ℕ) (m' : Machine) : Type 0 where
  pub good : IsMachine m'
  pub success_iff :
      (status ≡ 0) ↔ (a + f.file_size ≤ m.mem.size) × (length f.delivered ≡ f.file_size)
  pub contents : status ≡ 0 → (c : ℕ) → m'.mem.data_at c ≡ overlaid f.delivered a m.mem.data_at c
  pub too_large : m.mem.size < a + f.file_size → m' ≡ m
  pub same_cpu : m'.cpu ≡ m.cpu
  pub same_size : m'.mem.size ≡ m.mem.size

abbrev pub Loads : File → ℕ → Machine → Option (ℕ × Machine) → Type 0
Loads f a m none = ⊥
Loads f a m (some (status, m')) = IsLoaded f a m status m'

-- For a file that delivers bytes, and no more than its size, and a machine in good order,
-- `load_program` is always defined, writes only inside the memory, leaves the processor alone and
-- a machine in good order. It returns 0 exactly if the file fits behind the load address and is
-- delivered in full, and then the memory holds the file's bytes from that address on and its old
-- bytes elsewhere; too large a file changes nothing.
pub load_program-Loads :
    {f : File} {m : Machine} (a : ℕ)
    → IsFile f
    → IsMachine m
    → Loads f a m (load_program (some f) a m)
unfolding load_program
load_program-Loads {f} {m} a good_file good = elim (Bool-cases (ltb m.mem.size (a + f.file_size))) [
  | inl large ↦ rw large (record {
    good = good;
    success_iff = (λ e. absurd (omega arith), λ e. absurd (ground arith));
    contents = λ e. absurd (omega arith);
    too_large = λ e. refl;
    same_cpu = refl;
    same_size = refl;
  })
  | inr fits ↦ rw fits (elim (Option-cases (copy_in f.delivered a m.mem)) [
    | inl bad ↦
        absurd (copy_in-defined f.delivered a m.mem (ground (arith, good_file.delivered_fits)) bad)
    | inr (mem', e) ↦
        let (kept, same_size) =
          copy_in-IsMemory f.delivered a good.mem_good good_file.delivered_bytes e in
        rw e (record {
          good = record {
            cpu_good = good.cpu_good;
            mem_good = kept;
            holds_word = omega (arith, same_size, good.holds_word);
          };
          success_iff = (λ z. ground arith, λ z. ground arith);
          contents = λ z. copy_in-overlaid f.delivered a m.mem mem' e;
          too_large = λ z. absurd (ground arith);
          same_cpu = refl;
          same_size = same_size;
        })
  ])
]
