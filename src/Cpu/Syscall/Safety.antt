-- ===== src/Cpu/Syscall/Safety.antt =====
-- cpu.cpp: the system calls of `handle_syscall` and the invariant of the machine.
use riscv_student_pack.Common.{
  ℕ, ◌+◌, ◌-◌, ◌^◌, ◌≡◌, ◌≢◌, refl, Bool, true, false, Option, List, ◌∷◌, ltb, leb, ◌==◌,
  if◌then◌else◌, take, IsU32, u32, arith, inl, inr, Option-cases, Bool-cases,
}
use riscv_student_pack.Memory.{Memory, IsMemory, update}
use riscv_student_pack.Cpu.State.{
  Cpu, Machine, Kernel, OsCall, os_read, os_fstat, CpuStatus, IsCpu, IsMachine, Keeps,
}
use riscv_student_pack.Cpu.Syscall.{
  copy_out, copy_in, answer, sys_write, sys_read, sys_openat, sys_close, sys_fstat, handle_syscall,
}
use riscv_student_pack.Cpu.Syscall.Buffers.{
  IsKernel, copy_out-defined, copy_in-defined, copy_in-IsMemory, take-All, length-take_le,
}

-- Setting a register other than `x0`.
pub update-IsCpu :
    (r v : ℕ) {c : Cpu} → IsCpu c → r ≢ 0 → IsU32 v → IsCpu (record c { x = update c.x r v })
update-IsCpu r v k h hv = record {
  pc_fits = k.pc_fits;
  x_fits = λ q. ground (arith, k.x_fits q);
  zero_cell = ground (arith, k.zero_cell);
}

answer-IsMachine : (v : ℕ) {m : Machine} → IsU32 v → IsMachine m → IsMachine (answer v m).1
unfolding answer
answer-IsMachine v hv k = record {
  cpu_good = update-IsCpu 10 v k.cpu_good (omega arith) hv;
  mem_good = k.mem_good;
  holds_word = k.holds_word;
}

pub Keeps-if :
    (b : Bool) (x y : Option (CpuStatus × Machine)) → Keeps x → Keeps y → Keeps (if b then x else y)
Keeps-if true x y hx hy = hx
Keeps-if false x y hx hy = hy

-- Another memory of the same size, and any record of calls, in a machine.
pub with_memory :
    (calls : List OsCall) {m : Machine} {mem' : Memory}
    → IsMachine m
    → IsMemory mem' × (mem'.size ≡ m.mem.size)
    → IsMachine (record m { mem = mem'; calls = calls })
with_memory calls k (good, same) = record {
  cpu_good = k.cpu_good;
  mem_good = good;
  holds_word = omega (arith, same, k.holds_word);
}

with_calls :
    (calls : List OsCall) {m : Machine} → IsMachine m → IsMachine (record m { calls = calls })
with_calls calls k = with_memory calls k (k.mem_good, refl)

module _ {k : Kernel} (host : IsKernel k) {m : Machine} (good : IsMachine m) where
  sys_write-Keeps : Keeps (sys_write k m)
  unfolding sys_write
  sys_write-Keeps = elim (Bool-cases (ltb m.mem.size (m.cpu.x 11 + m.cpu.x 12))) [
    | inl out ↦ rw out (answer-IsMachine (2 ^ 32 - 1) (omega arith) good)
    | inr fits ↦ elim (Option-cases (copy_out (m.cpu.x 12) (m.cpu.x 11) m.mem)) [
      | inl e ↦ absurd (copy_out-defined (m.cpu.x 12) (m.cpu.x 11) m.mem (ground arith) e)
      | inr (bytes, e) ↦ rw (fits, e) (answer-IsMachine _ (omega arith) (with_calls _ good))
    ]
  ]

  sys_read-Keeps : Keeps (sys_read k m)
  unfolding sys_read
  sys_read-Keeps =
      let call = os_read (m.cpu.x 10) (m.cpu.x 12) in
      let bytes = (k.reply m.calls call).bytes in
      elim (Bool-cases (ltb m.mem.size (m.cpu.x 11 + m.cpu.x 12))) [
        | inl out ↦ rw out (answer-IsMachine (2 ^ 32 - 1) (omega arith) good)
        | inr fits ↦ elim (Option-cases (copy_in bytes (m.cpu.x 11) m.mem)) [
          | inl e ↦ absurd (
              copy_in-defined bytes (m.cpu.x 11) m.mem
                (ground (arith, host.read_fits m.calls (m.cpu.x 10) (m.cpu.x 12))) e)
          | inr (mem', e) ↦
              rw (fits, e)
                (answer-IsMachine _ (omega arith) (
                  with_memory _ good (
                    copy_in-IsMemory bytes (m.cpu.x 11) good.mem_good (host.bytes_fit m.calls call)
                      e)))
        ]
      ]

  sys_fstat-Keeps : Keeps (sys_fstat k m)
  unfolding sys_fstat
  sys_fstat-Keeps =
      let call = os_fstat (m.cpu.x 10) in
      let r = k.reply m.calls call in
      let size = if ltb k.stat_size 64 then k.stat_size else 64 in
      elim (Bool-cases (r.result == 0)) [
        | inr failed ↦ rw failed (answer-IsMachine _ (omega arith) (with_calls _ good))
        | inl found ↦ elim (Bool-cases (leb (m.cpu.x 11 + k.stat_size) m.mem.size)) [
          | inr out ↦ rw (found, out) (answer-IsMachine _ (omega arith) (with_calls _ good))
          | inl fits ↦ elim (Option-cases (copy_in (take size r.bytes) (m.cpu.x 11) m.mem)) [
            | inl e ↦ absurd (
                copy_in-defined (take size r.bytes) (m.cpu.x 11) m.mem
                  (ground (arith, length-take_le size r.bytes)) e)
            | inr (mem', e) ↦
                rw (found, fits, e)
                  (answer-IsMachine _ (omega arith) (
                    with_memory _ good (
                      copy_in-IsMemory (take size r.bytes) (m.cpu.x 11) good.mem_good
                        (take-All size r.bytes (host.bytes_fit m.calls call)) e)))
          ]
        ]
      ]

  -- From a machine in good order, with a host that delivers bytes and no more than asked for,
  -- every system call is defined, so the host gets no buffer outside the memory, and leaves a
  -- machine in good order.
  pub handle_syscall-Keeps : Keeps (handle_syscall k m)
  unfolding handle_syscall sys_openat sys_close
  handle_syscall-Keeps = Keeps-if (number == 93) _ _ exited (
      Keeps-if (number == 64) _ _ sys_write-Keeps (
        Keeps-if (number == 63) _ _ sys_read-Keeps (
          Keeps-if (number == 56) _ _ (replied _) (
            Keeps-if (number == 57) _ _ (replied _) (
              Keeps-if (number == 214) _ _ (answer-IsMachine (2 ^ 32 - 12) (omega arith) good) (
                Keeps-if (number == 80) _ _ sys_fstat-Keeps
                  (answer-IsMachine (2 ^ 32 - 38) (omega arith) good)))))))
    where
      number : ℕ
      number = m.cpu.x 17

      exited : IsMachine (record m { cpu = record (m.cpu) { running = false } })
      exited = record {
        cpu_good = record {
          pc_fits = good.cpu_good.pc_fits;
          x_fits = good.cpu_good.x_fits;
          zero_cell = good.cpu_good.zero_cell;
        };
        mem_good = good.mem_good;
        holds_word = good.holds_word;
      }

      replied :
          (call : OsCall)
          → IsMachine
              (answer (u32 (k.reply m.calls call).result) (record m { calls = call ∷ m.calls })).1
      replied call = answer-IsMachine _ (omega arith) (with_calls _ good)
