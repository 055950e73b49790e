-- ===== src/Signal.antt =====
-- src/signal.c and include/signal.h, with the saved registers of include/traps.h. The shift `1 << sig`
-- is done in `int` and widened, so that bit 31 brings the bits above it along; it is defined for `sig`
-- below 32.
mod Examples
pub mod Frame
pub mod Kill
use Prim.Native.Nat.{bit_and, bit_or}
use osc_riscv.Base.{
  ℕ, zero, suc, ◌+◌, ◌-◌, ◌*◌, ◌/◌, ◌%◌, ◌^◌, Bool, not, Option, none, some, ◌==◌, ltb,
  if◌then◌else◌, update, ℤ, pos, negsuc,
}
use osc_riscv.Regs
use osc_riscv.Regs.{PtRegs, pt_regs_words}
use osc_riscv.Ring.{Ptr}
use osc_riscv.Sched.{TaskStruct, Kernel, set_task, get_current, find_task_by_pid, kthread_exit}

abbrev pub nsig : ℕ
nsig = 32

abbrev pub sig_dfl : ℕ
sig_dfl = 0

-- `struct sigframe`: the number in the first word, the registers behind it.
abbrev pub sigframe_size : ℕ
sigframe_size = 8 + 8 * pt_regs_words

-- The 64-bit words of the user's memory, by address; the stack pointer is a multiple of 8.
abbrev pub User : Type 0
User = ℕ → ℕ

-- `1 << sig` as a 64-bit word.
abbrev pub sig_bit : ℕ → ℕ
sig_bit sig = if sig == 31 then 2 ^ 64 - 2 ^ 31 else 2 ^ sig

abbrev pub not64 : ℕ → ℕ
not64 x = 2 ^ 64 - 1 - x

-- `none` is a write outside the array `sighand`, which the code does not rule out.
unfoldable pub sys_signal : (sig handler : ℕ) → Kernel → Option (ℤ × Kernel)
sys_signal sig handler k =
    let current = get_current k in
    let t = k.task current in
    if ltb sig nsig
    then some (pos 0, set_task current (record t { sighand = update t.sighand sig handler }) k)
    else none

-- `copy_user` of `n` words from a structure to the user's memory …
unfoldable pub copy_to_user : (n i : ℕ) (to : ℕ) (from : ℕ → ℕ) → User → User
copy_to_user zero i to from u = u
copy_to_user (suc n) i to from u = copy_to_user n (i + 1) to from (update u (to + 8 * i) (from i))

-- … and of the registers from it.
unfoldable pub copy_from_user : (from : ℕ) → User → PtRegs
copy_from_user from u = λ i. u (from + 8 * i)

-- The result, the registers and the kernel.
unfoldable pub sys_sigreturn : PtRegs → User → Kernel → ℕ × PtRegs × Kernel
unfolding copy_from_user
sys_sigreturn regs u k =
    let frame = regs Regs.sp in
    let regs = copy_from_user (frame + 8) u in
    let signo = u frame % 2 ^ 32 in
    let current = get_current k in
    let t = k.task current in
    (
      regs Regs.a0,
      regs,
      set_task current (record t { blocked = bit_and t.blocked (not64 (sig_bit signo)) }) k,
    )

-- The power of two stands also for a shift by 32 and more, which is undefined in C.
unfoldable pub kill_task : (sig : ℕ) (task : Ptr) → Kernel → ℤ × Kernel
kill_task sig task k =
    let t = k.task task in
    if not (bit_and t.blocked (sig_bit sig) == 0) then (pos 0, k) else (
      pos 0,
      set_task task
          (record t {
            blocked = bit_or t.blocked (sig_bit sig);
            pending = bit_or t.pending (sig_bit sig);
          })
          k,
    )

-- The outer `none` is out of fuel.
unfoldable pub sys_kill : (fuel : ℕ) (runqueue : Ptr) (pid sig : ℕ) → Kernel → Option (ℤ × Kernel)
unfolding kill_task
sys_kill fuel runqueue pid sig k = elim (find_task_by_pid fuel runqueue pid k) [
  | none ↦ none
  | some none ↦ some (negsuc 0, k)
  | some (some task) ↦ some (kill_task sig task k)
]

-- How `do_signal` ends: it returns to the trap handler, or the processor has gone on to another task.
pub data Delivered : Type 0 where
  returned : PtRegs → User → Kernel → Delivered
  switched : Kernel → Delivered

-- A signal with a handler: the frame is written below the user's stack, and the handler is entered.
unfoldable pub set_up_frame : (sigreturn sig : ℕ) → PtRegs → User → Kernel → PtRegs × User
set_up_frame sigreturn sig regs u k =
    let t = k.task (get_current k) in
    let frame = (regs Regs.sp + 2 ^ 64 - sigframe_size) % 2 ^ 64 in
    let u = update u frame (u frame / 2 ^ 32 * 2 ^ 32 + sig) in
    let u = copy_to_user pt_regs_words 0 (frame + 8) regs u in
    let regs = update regs Regs.epc (t.sighand sig) in
    let regs = update regs Regs.ra sigreturn in
    let regs = update regs Regs.sp (bit_and frame (not64 0xf)) in (regs, u)

-- A pending signal.
unfoldable pub deliver : (runqueue : Ptr) (sigreturn sig : ℕ) → PtRegs → User → Kernel → Delivered
unfolding set_up_frame
deliver runqueue sigreturn sig regs u k =
    let current = get_current k in
    let t = k.task current in
    let k = set_task current (record t { pending = bit_and t.pending (not64 (sig_bit sig)) }) k in
    let k' = kthread_exit runqueue k in
    let t' = k'.task current in
    let (regs', u') = set_up_frame sigreturn sig regs u k in
    if t.sighand sig == sig_dfl
    then (if get_current k' == current
        then returned regs u
            (set_task current (record t' { blocked = bit_and t'.blocked (not64 (sig_bit sig)) }) k')
        else switched k')
    else returned regs' u' k

-- The loop over the signals, with `n` rounds left.
unfoldable pub signal_loop :
    (n : ℕ) (runqueue : Ptr) (sigreturn sig : ℕ) → PtRegs → User → Kernel → Delivered
unfolding deliver
signal_loop zero runqueue sigreturn sig regs u k = returned regs u k
signal_loop (suc n) runqueue sigreturn sig regs u k =
    let rest = signal_loop n runqueue sigreturn (sig + 1) regs u k in
    if not (bit_and (k.task (get_current k)).pending (sig_bit sig) == 0)
    then deliver runqueue sigreturn sig regs u k
    else rest

unfoldable pub do_signal : (runqueue : Ptr) (sigreturn : ℕ) → PtRegs → User → Kernel → Delivered
do_signal runqueue sigreturn regs u k = signal_loop nsig runqueue sigreturn 0 regs u k
