-- ===== src/Cpu/Syscall.antt =====
-- cpu.cpp: `handle_syscall`. `size_t` has 64 bits, so `buf_addr + count` does not wrap round.
-- The error numbers are those of Linux: ENOMEM is 12 and ENOSYS 38.
pub mod Buffers
pub mod Safety
use riscv_student_pack.Common.{
  ℕ, zero, suc, ◌+◌, ◌-◌, ◌^◌, ◌≤◌, ◌<◌, Bool, false, Option, none, some, List, [], ◌∷◌, ltb, leb,
  ◌==◌, if◌then◌else◌, u32, add32, take, min,
}
use riscv_student_pack.Memory.{Memory, load_byte, store_byte, update, ◌>>=◌}
use riscv_student_pack.Cpu.State.{
  Cpu, Machine, Kernel, OsCall, OsReply, os_write, os_read, os_open, os_close, os_fstat, CpuStatus,
  cpu_ok, cpu_syscall_exit,
}

-- The host reads `count` bytes from `&data[addr]`.
unfoldable pub copy_out : ℕ → ℕ → Memory → Option (List ℕ)
copy_out zero addr m = some []
copy_out (suc count) addr m = do
  b ← load_byte m addr
  rest ← copy_out count (addr + 1) m
  some (b ∷ rest)

-- The host or `memcpy` puts bytes at `&data[addr]`.
unfoldable pub copy_in : List ℕ → ℕ → Memory → Option Memory
copy_in [] addr m = some m
copy_in (b ∷ bs) addr m = do m' ← store_byte addr b m; copy_in bs (addr + 1) m'

-- The loop that collects the path, with `left` rounds to go at index `i`. Its own bounds test
-- keeps `data[path_addr + i]` inside the allocation.
unfoldable pub read_path : (left i path_addr : ℕ) → Memory → List ℕ
read_path zero i path_addr m = []
read_path (suc left) i path_addr m =
    let a = add32 path_addr i in
    let rest = m.data_at a ∷ read_path left (i + 1) path_addr m in
    if leb m.size a then [] else if m.data_at a == 0 then [] else rest

-- `x[10] = value` and `return CPU_OK`.
unfoldable pub answer : ℕ → Machine → CpuStatus × Machine
answer value m = (cpu_ok, record m { cpu = record (m.cpu) { x = update m.cpu.x 10 value } })

unfoldable pub sys_write : Kernel → Machine → Option (CpuStatus × Machine)
sys_write k m =
    let fd = m.cpu.x 10 in
    let buf_addr = m.cpu.x 11 in
    let count = m.cpu.x 12 in
    if ltb m.mem.size (buf_addr + count) then some (answer (2 ^ 32 - 1) m) else do
      bytes ← copy_out count buf_addr m.mem
      let call = os_write fd bytes
      let r = k.reply m.calls call
      some (answer (u32 r.result) (record m { calls = call ∷ m.calls }))

unfoldable pub sys_read : Kernel → Machine → Option (CpuStatus × Machine)
sys_read k m =
    let buf_addr = m.cpu.x 11 in
    let count = m.cpu.x 12 in
    let call = os_read (m.cpu.x 10) count in
    let r = k.reply m.calls call in
    if ltb m.mem.size (buf_addr + count) then some (answer (2 ^ 32 - 1) m) else do
      mem' ← copy_in r.bytes buf_addr m.mem
      some (answer (u32 r.result) (record m { mem = mem'; calls = call ∷ m.calls }))

unfoldable pub sys_openat : Kernel → Machine → Option (CpuStatus × Machine)
sys_openat k m =
    let call = os_open (read_path 255 0 (m.cpu.x 11) m.mem) (m.cpu.x 12) (m.cpu.x 12) in
    some (answer (u32 (k.reply m.calls call).result) (record m { calls = call ∷ m.calls }))

unfoldable pub sys_close : Kernel → Machine → Option (CpuStatus × Machine)
sys_close k m =
    let call = os_close (m.cpu.x 10) in
    some (answer (u32 (k.reply m.calls call).result) (record m { calls = call ∷ m.calls }))

unfoldable pub sys_fstat : Kernel → Machine → Option (CpuStatus × Machine)
sys_fstat k m =
    let arg2 = m.cpu.x 11 in
    let call = os_fstat (m.cpu.x 10) in
    let r = k.reply m.calls call in
    let m' = record m { calls = call ∷ m.calls } in
    if r.result == 0
    then (if leb (arg2 + k.stat_size) m.mem.size
        then (do
          mem' ← copy_in (take (if ltb k.stat_size 64 then k.stat_size else 64) r.bytes) arg2 m.mem
          some (answer (u32 r.result) (record m { mem = mem'; calls = call ∷ m.calls })))
        else some (answer (u32 r.result) m'))
    else some (answer (u32 r.result) m')

-- The `switch (syscall_num)`.
unfoldable pub handle_syscall : Kernel → Machine → Option (CpuStatus × Machine)
handle_syscall k m =
    let number = m.cpu.x 17 in
    if number == 93
    then some (cpu_syscall_exit, record m { cpu = record (m.cpu) { running = false } })
    else if number == 64
    then sys_write k m
    else if number == 63
    then sys_read k m
    else if number == 56
    then sys_openat k m
    else if number == 57
    then sys_close k m
    else if number == 214
    then some (answer (2 ^ 32 - 12) m)
    else if number == 80
    then sys_fstat k m
    else some (answer (2 ^ 32 - 38) m)
