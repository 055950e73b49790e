-- ===== src/Traps/Call.antt =====
-- A system call in the handler of src/traps.c.
use Prim.Native.Nat.{bit_and-bitwise}
use osc_riscv.Base.{
  ℕ, zero, suc, ◌+◌, ◌*◌, ◌/◌, ◌%◌, ◌^◌, ◌<◌, ◌≡◌, ◌≢◌, refl, sym, ap, ◌∙◌, some, List, arith,
  length, update, ==_false, lt→ltb,
}
use osc_riscv.Regs
use osc_riscv.Regs.{PtRegs}
use osc_riscv.Text.{Mem}
use osc_riscv.Printk.{uart_puts}
use osc_riscv.Initrd.Archive.{Bytes}
use osc_riscv.Irq.{set_interrupt}
use osc_riscv.Sched.{get_current}
use osc_riscv.Signal.{sig_bit}
use osc_riscv.Signal.Kill.{do_signal-least}
use osc_riscv.Syscall.{sys_write}
use osc_riscv.Syscall.Echo.{write_bytes-Bytes}
use osc_riscv.Traps.{
  TrapState, returned, Env, words_of, bytes_of, exc_syscall, syscall, signals, do_traps,
}

-- The bytes of a word.
word_byte :
    (r : ℕ) (F : ℕ → ℕ)
    → r < 8
    → ((i : ℕ) → F i < 2 ^ 8)
    → (F 0
          + 2 ^ 8 * F 1
          + 2 ^ 16 * F 2
          + 2 ^ 24 * F 3
          + 2 ^ 32 * F 4
          + 2 ^ 40 * F 5
          + 2 ^ 48 * F 6
          + 2 ^ 56 * F 7)
        / 2 ^ (8 * r)
        % 2 ^ 8
      ≡ F r
word_byte zero F lt h = omega (arith, h 0, h 1, h 2, h 3, h 4, h 5, h 6, h 7)
word_byte (suc zero) F lt h = omega (arith, h 0, h 1, h 2, h 3, h 4, h 5, h 6, h 7)
word_byte (suc (suc zero)) F lt h = omega (arith, h 0, h 1, h 2, h 3, h 4, h 5, h 6, h 7)
word_byte (suc (suc (suc zero))) F lt h = omega (arith, h 0, h 1, h 2, h 3, h 4, h 5, h 6, h 7)
word_byte (suc (suc (suc (suc zero)))) F lt h =
    omega (arith, h 0, h 1, h 2, h 3, h 4, h 5, h 6, h 7)
word_byte (suc (suc (suc (suc (suc zero))))) F lt h =
    omega (arith, h 0, h 1, h 2, h 3, h 4, h 5, h 6, h 7)
word_byte (suc (suc (suc (suc (suc (suc zero)))))) F lt h =
    omega (arith, h 0, h 1, h 2, h 3, h 4, h 5, h 6, h 7)
word_byte (suc (suc (suc (suc (suc (suc (suc zero))))))) F lt h =
    omega (arith, h 0, h 1, h 2, h 3, h 4, h 5, h 6, h 7)
word_byte (suc (suc (suc (suc (suc (suc (suc (suc r)))))))) F lt h = absurd (omega (arith, lt))

-- A memory of bytes is the bytes of its words.
bytes_of-words_of : (m : Mem) (p : ℕ) → ((a : ℕ) → m a < 2 ^ 8) → bytes_of (words_of m) p ≡ m p
bytes_of-words_of m p h =
    let q = p / 8 * 8 in
    let first : m (q + 0) ≡ m q = ap m (omega arith) in
    ap
      (λ b.
        (b
          + 2 ^ 8 * m (q + 1)
          + 2 ^ 16 * m (q + 2)
          + 2 ^ 24 * m (q + 3)
          + 2 ^ 32 * m (q + 4)
          + 2 ^ 40 * m (q + 5)
          + 2 ^ 48 * m (q + 6)
          + 2 ^ 56 * m (q + 7))
        / 2 ^ (8 * (p % 8))
        % 2 ^ 8)
      (sym first)
    ∙ word_byte (p % 8) (λ i. m (q + i)) (omega arith) (λ i. h (q + i))
    ∙ ap m (omega arith)

no_signal :
    (env : Env) (regs : PtRegs) (s : TrapState)
    → (s.machine.kernel.task (get_current s.machine.kernel)).pending ≡ 0
    → signals env regs s ≡ returned regs (record s { user = bytes_of (words_of s.user) })
unfolding signals
no_signal env regs s e =
    let quiet =
      (do_signal-least env.runqueue env.sigreturn regs (words_of s.user) s.machine.kernel).1
        (λ sig lt pending. pending (rw e (bit_and-bitwise 0 (sig_bit sig)))) in
    rw (signals, quiet) refl

-- A system call that returns, of a process that has no signal pending.
do_traps-syscall :
    (env : Env) (regs regs' : PtRegs) (s s' : TrapState)
    → regs Regs.cause ≡ exc_syscall
    → syscall env
        (update regs Regs.epc ((regs Regs.epc + 4) % 2 ^ 64))
        (record s { machine = record s.machine { sstatus = set_interrupt s.machine.sstatus } })
      ≡ some (returned regs' s')
    → (s'.machine.kernel.task (get_current s'.machine.kernel)).pending ≡ 0
    → do_traps env regs s ≡ some (returned regs' (record s' { user = bytes_of (words_of s'.user) }))
unfolding do_traps
do_traps-syscall env regs regs' s s' cause call quiet =
    rw (cause, do_traps, call) (ap some (no_signal env regs' s' quiet))

syscall-sys_write :
    (env : Env) (regs : PtRegs) (s : TrapState) (xs : List ℕ)
    → regs Regs.a7 ≡ 2
    → regs Regs.a1 ≡ length xs
    → length xs < 2 ^ 31
    → Bytes s.user (regs Regs.a0) xs
    → syscall env regs s
      ≡ some (returned (update regs Regs.a0 (length xs)) (record s { out = uart_puts xs s.out }))
unfolding syscall sys_write
syscall-sys_write env regs s xs number count small bytes =
    let fits = lt→ltb (length xs) (2 ^ 63) (omega (arith, small)) in
    rw (number, count, fits, write_bytes-Bytes (regs Regs.a0) xs s.user s.out bytes) refl

-- The trap of a process that has no signal pending, with the number of `sys_write` in a7 and fewer than
-- 2 ^ 31 characters: `do_traps` prints them and returns behind the `ecall`, with their number in a0. No
-- other register changes, and neither the user's memory nor the kernel.
pub do_traps-sys_write :
    (env : Env) (regs : PtRegs) (s : TrapState) (xs : List ℕ)
    → regs Regs.cause ≡ exc_syscall
    → regs Regs.a7 ≡ 2
    → regs Regs.a1 ≡ length xs
    → length xs < 2 ^ 31
    → Bytes s.user (regs Regs.a0) xs
    → (s.machine.kernel.task (get_current s.machine.kernel)).pending ≡ 0
    → ((a : ℕ) → s.user a < 2 ^ 8)
    → (regs' : PtRegs) × (s' : TrapState) × (do_traps env regs s ≡ some (returned regs' s'))
      × (regs' Regs.epc ≡ (regs Regs.epc + 4) % 2 ^ 64)
      × (regs' Regs.a0 ≡ length xs)
      × ((i : ℕ) → i ≢ Regs.epc → i ≢ Regs.a0 → regs' i ≡ regs i)
      × (s'.out ≡ uart_puts xs s.out)
      × ((a : ℕ) → s'.user a ≡ s.user a)
      × (s'.machine.kernel ≡ s.machine.kernel)
do_traps-sys_write env regs s xs cause number count small bytes quiet plain =
    let entered = update regs Regs.epc ((regs Regs.epc + 4) % 2 ^ 64) in
    let s1 : TrapState = record s {
      machine = record s.machine { sstatus = set_interrupt s.machine.sstatus };
    } in
    let regs' = update entered Regs.a0 (length xs) in
    let s2 : TrapState = record s1 { out = uart_puts xs s.out } in
    (
      regs',
      record s2 { user = bytes_of (words_of s.user) },
      do_traps-syscall env regs regs' s s2 cause
          (syscall-sys_write env entered s1 xs number count small bytes) quiet,
      refl,
      refl,
      λ i other other'. rw (==_false i Regs.a0 other', ==_false i Regs.epc other) refl,
      refl,
      λ a. bytes_of-words_of s.user a plain,
      refl,
    )
