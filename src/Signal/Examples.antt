-- ===== src/Signal/Examples.antt =====
-- The theorems on src/signal.c, applied to the run queue of three tasks.
use Prim.Native.Nat.{bit_and}
use osc_riscv.Base.{ℕ, ◌≡◌, refl, ◌<◌, ◌==◌, arith, if◌then◌else◌, suc, update}
use osc_riscv.Regs
use osc_riscv.Regs.{PtRegs, pt_regs_words}
use osc_riscv.Sched.{Kernel, get_current, set_task}
use osc_riscv.Sched.Examples.{kernel}
use osc_riscv.Signal.{User, sys_sigreturn, do_signal, deliver, returned, nsig, sig_bit, not64}
use osc_riscv.Signal.Frame.{back, sys_sigreturn-restores, sys_sigreturn-shifted}
use osc_riscv.Signal.Kill.{IsPending, do_signal-least}

-- Registers that hold their own numbers, but for the stack pointer.
abbrev registers : ℕ → PtRegs
registers sp i = if i == Regs.sp then sp else i

abbrev user : User
user a = 0

-- The registers and the memory as a handler leaves them that writes below the frame and calls
-- `sigreturn`, from the registers and the memory it was entered with.
abbrev handled : PtRegs → PtRegs
handled regs i = if i == Regs.a7 then 8 else if i == Regs.epc then 9004 else regs i

abbrev scratched : User → User
scratched u = update u 16 77

handled_sp : (regs : PtRegs) → handled regs Regs.sp ≡ regs Regs.sp
handled_sp regs = refl

scratched_out : (u : User) (a : ℕ) → 16 < a → scratched u a ≡ u a
scratched_out u a h = ground (arith, h)

sys_sigreturn-restores_example :
    let b = back 9000 3 (registers 1208) user kernel kernel (omega arith, omega arith) in
    ((j : ℕ)
      → j < pt_regs_words
      → (sys_sigreturn (handled b.0) (scratched b.1) kernel).1 j ≡ registers 1208 j)
    × (((sys_sigreturn (handled b.0) (scratched b.1) kernel).2.task (get_current kernel)).blocked
        ≡ bit_and (kernel.task (get_current kernel)).blocked (not64 (sig_bit 3)))
sys_sigreturn-restores_example =
    let b = back 9000 3 (registers 1208) user kernel kernel (omega arith, omega arith) in
    sys_sigreturn-restores 9000 3 (registers 1208) user kernel kernel (omega arith, omega arith)
      (handled b.0) (scratched b.1) (handled_sp b.0)
      (scratched_out b.1 _ (omega arith), λ j lt. scratched_out b.1 _ (omega arith)) (omega arith)
      (omega arith)

sys_sigreturn-shifted_example :
    let b = back 9000 3 (registers 1200) user kernel kernel (omega arith, omega arith) in
    (sys_sigreturn (handled b.0) (scratched b.1) kernel).1 (suc 9) ≡ registers 1200 9
sys_sigreturn-shifted_example =
    let b = back 9000 3 (registers 1200) user kernel kernel (omega arith, omega arith) in
    sys_sigreturn-shifted 9000 3 (registers 1200) user kernel kernel (omega arith, omega arith)
      (handled b.0) (scratched b.1) (handled_sp b.0)
      (scratched_out b.1 _ (omega arith), λ j lt. scratched_out b.1 _ (omega arith)) (omega arith) 9
      (omega arith)

-- The signals 2 and 5 of the task at 2 are pending.
abbrev signalled : Kernel
signalled = set_task 2 (record (kernel.task 2) { pending = 36; blocked = 36 }) kernel

do_signal-least_example :
    ((sig : ℕ)
      → sig < nsig
      → IsPending signalled sig
      → ((s : ℕ) → s < sig → ¬ IsPending signalled s)
      → do_signal 1 9000 (registers 1200) user signalled
        ≡ deliver 1 9000 sig (registers 1200) user signalled)
    × (((s : ℕ) → s < nsig → ¬ IsPending signalled s)
        → do_signal 1 9000 (registers 1200) user signalled
          ≡ returned (registers 1200) user signalled)
do_signal-least_example = do_signal-least 1 9000 (registers 1200) user signalled
