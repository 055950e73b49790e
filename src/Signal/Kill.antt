-- ===== src/Signal/Kill.antt =====
-- `sys_kill` and the choice of the signal to deliver.
use Prim.Native.Nat.{bit_and, bit_or}
use osc_riscv.Base.{
  ℕ, zero, suc, ◌+◌, ◌<◌, ◌≤◌, ◌≡◌, ◌≢◌, refl, inl, inr, arith, ◌==◌, List, Bool-cases, ==_false,
  eq_of_==, some, negsuc, length, ◌∈◌, false,
}
use osc_riscv.Regs.{PtRegs}
use osc_riscv.Ring.{Ptr}
use osc_riscv.Sched.{Kernel, get_current, set_task}
use osc_riscv.Sched.Create.{IsThreads, OtherPids, find_task_by_pid_lem}
use osc_riscv.Signal.{
  User, sys_kill, kill_task, sig_bit, nsig, deliver, signal_loop, do_signal, returned,
}

module _ (runqueue : Ptr) (k : Kernel) (xs : List Ptr) (fuel : ℕ) (h : IsThreads runqueue k xs)
    (enough : length xs < fuel) where
  -- `sys_kill` refuses an identifier that no task of the queue has, and changes nothing.
  pub sys_kill-no_task :
      (pid sig : ℕ)
      → OtherPids k.task pid xs
      → sys_kill fuel runqueue pid sig k ≡ some (negsuc 0, k)
  unfolding sys_kill
  sys_kill-no_task pid sig o =
      rw ((find_task_by_pid_lem runqueue k xs fuel h enough).1 pid o, sys_kill)

  -- The task with the identifier gets the signal, unless it has it blocked.
  pub sys_kill-task :
      (x : Ptr) (sig : ℕ)
      → x ∈ xs
      → sys_kill fuel runqueue (k.task x).pid sig k ≡ some (kill_task sig x k)
  unfolding sys_kill
  sys_kill-task x sig j = rw ((find_task_by_pid_lem runqueue k xs fuel h enough).0 x j, sys_kill)

-- The kernel after `sys_kill` has given the signal.
abbrev given : (sig : ℕ) (x : Ptr) → Kernel → Kernel
given sig x k =
    let t = k.task x in
    set_task x
      (record t {
        blocked = bit_or t.blocked (sig_bit sig);
        pending = bit_or t.pending (sig_bit sig);
      })
      k

by_contra : (n : ℕ) → ¬ (n ≢ 0) → n ≡ 0
by_contra zero h = refl
by_contra (suc n) h = absurd (h (ground arith))

-- A signal of the current task is pending.
abbrev pub IsPending : Kernel → ℕ → Type 0
IsPending k sig = bit_and (k.task (get_current k)).pending (sig_bit sig) ≢ 0

signal_loop-first :
    (n : ℕ) (runqueue : Ptr) (sigreturn from : ℕ) (regs : PtRegs) (u : User) (k : Kernel) (sig : ℕ)
    → from ≤ sig
    → sig < from + n
    → IsPending k sig
    → ((s : ℕ) → s < sig → ¬ IsPending k s)
    → signal_loop n runqueue sigreturn from regs u k ≡ deliver runqueue sigreturn sig regs u k
unfolding signal_loop
signal_loop-first zero runqueue sigreturn from regs u k sig lo hi p none_below =
    absurd (omega arith)
signal_loop-first (suc n) runqueue sigreturn from regs u k sig lo hi p none_below =
    let bits = bit_and (k.task (get_current k)).pending (sig_bit from) in
    elim (Bool-cases (from == sig)) [
      | inl e ↦
          let here : (bits == 0) ≡ false = ==_false bits 0 (rw (eq_of_== from sig e) p) in
          rw (here) (rw (eq_of_== from sig e))
      | inr ne ↦
          let clear : bits ≡ 0 = by_contra bits (none_below from (ground arith)) in
          rw (clear) (
            signal_loop-first n runqueue sigreturn (from + 1) regs u k sig (ground arith)
              (omega arith) p none_below)
    ]

signal_loop-none :
    (n : ℕ) (runqueue : Ptr) (sigreturn from : ℕ) (regs : PtRegs) (u : User) (k : Kernel)
    → ((s : ℕ) → s < from + n → ¬ IsPending k s)
    → signal_loop n runqueue sigreturn from regs u k ≡ returned regs u k
unfolding signal_loop
signal_loop-none zero runqueue sigreturn from regs u k clear = refl
signal_loop-none (suc n) runqueue sigreturn from regs u k clear =
    let here : bit_and (k.task (get_current k)).pending (sig_bit from) ≡ 0 =
      by_contra (bit_and (k.task (get_current k)).pending (sig_bit from))
        (clear from (omega arith)) in
    rw here
      (signal_loop-none n runqueue sigreturn (from + 1) regs u k (λ s lt. clear s (omega arith)))

-- `do_signal` delivers the pending signal with the least number, and no other; with none pending it
-- changes nothing.
pub do_signal-least :
    (runqueue : Ptr) (sigreturn : ℕ) (regs : PtRegs) (u : User) (k : Kernel)
    → ((sig : ℕ)
        → sig < nsig
        → IsPending k sig
        → ((s : ℕ) → s < sig → ¬ IsPending k s)
        → do_signal runqueue sigreturn regs u k ≡ deliver runqueue sigreturn sig regs u k)
      × (((s : ℕ) → s < nsig → ¬ IsPending k s)
          → do_signal runqueue sigreturn regs u k ≡ returned regs u k)
unfolding do_signal
do_signal-least runqueue sigreturn regs u k = (
  λ sig lt p below.
      signal_loop-first nsig runqueue sigreturn 0 regs u k sig (omega arith) (omega arith) p below,
  λ clear. signal_loop-none nsig runqueue sigreturn 0 regs u k (λ s lt. clear s (omega arith)),
)
