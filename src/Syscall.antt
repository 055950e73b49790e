-- ===== src/Syscall.antt =====
-- The system calls of src/syscall.c that read, write and name the process. The user's buffer is a
-- memory of bytes, the keys are the characters that the UART receives; a count of characters is below
-- 2 ^ 31, or negative.
pub mod Echo
pub mod Fork
mod Examples
use osc_riscv.Base.{
  ℕ, zero, suc, ◌+◌, ◌^◌, Option, none, some, List, [], ◌∷◌, ltb, if◌then◌else◌, update,
}
use osc_riscv.Text.{Ptr, Mem, ◌>>=◌}
use osc_riscv.Printk.{Output, uart_putc}
use osc_riscv.Shell.{uart_getc}
use osc_riscv.Sched.{Kernel, get_current, kthread_exit}

unfoldable pub sys_getpid : Kernel → ℕ
unfolding get_current
sys_getpid k = (k.task (get_current k)).pid

-- The loop of `sys_read`, with `n` characters left: `none` is one that waits for a key.
unfoldable pub read_keys : (n : ℕ) (p : Ptr) → List ℕ → Mem → Option (Mem × List ℕ)
unfolding uart_getc
read_keys zero p keys m = some (m, keys)
read_keys (suc n) p [] m = none
read_keys (suc n) p (k ∷ keys) m = read_keys n (p + 1) keys (update m p (uart_getc k))

-- The result, the memory and the keys still to be read.
unfoldable pub sys_read : (buf : Ptr) (count : ℕ) → List ℕ → Mem → Option (ℕ × Mem × List ℕ)
unfolding read_keys
sys_read buf count keys m =
    let n = if ltb count (2 ^ 63) then count else 0 in
    read_keys n buf keys m >>= λ (m', rest). some (n, m', rest)

-- The loop of `sys_write`, with `n` characters left.
unfoldable pub write_bytes : (n : ℕ) (p : Ptr) → Mem → Output → Output
unfolding uart_putc
write_bytes zero p m out = out
write_bytes (suc n) p m out = write_bytes n (p + 1) m (uart_putc (m p) out)

unfoldable pub sys_write : (buf : Ptr) (count : ℕ) → Mem → Output → ℕ × Output
unfolding write_bytes
sys_write buf count m out =
    let n = if ltb count (2 ^ 63) then count else 0 in (n, write_bytes n buf m out)

-- `sys_exit`: the error code is not used.
unfoldable pub sys_exit : (runqueue : Ptr) → Kernel → Kernel
unfolding kthread_exit
sys_exit runqueue k = kthread_exit runqueue k
