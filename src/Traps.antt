-- ===== src/Traps.antt =====
-- `do_traps` of src/traps.c: the dispatch on the cause and on the number of the system call, over the
-- scheduler, the signals, the system calls and the page-fault handler. The user's memory is one of
-- bytes; the signals read and write it by words, at multiples of 8. The messages of the handler are
-- left out.
pub mod Call
mod Examples
use osc_riscv.Base.{
  ℕ, zero, suc, ◌+◌, ◌-◌, ◌*◌, ◌/◌, ◌%◌, ◌^◌, Option, none, some, List, ◌==◌, ◌||◌, if◌then◌else◌,
  update, ℤ, pos, negsuc, widen,
}
use osc_riscv.Regs
use osc_riscv.Regs.{PtRegs, pt_regs_words}
use osc_riscv.Ring.{Ptr}
use osc_riscv.Text.{Mem}
use osc_riscv.Printk.{Output, ◌>>=◌}
use osc_riscv.Mm.Defs.{Layout}
use osc_riscv.Irq.{set_interrupt}
use osc_riscv.Sched.{Kernel, Fresh, get_current, find_task_by_pid, kthread_stop, kthread_exit}
use osc_riscv.Signal.{User, copy_to_user, Delivered, sys_signal, sys_sigreturn, sys_kill, do_signal}
use osc_riscv.Syscall.{sys_getpid, sys_read, sys_write, sys_exit}
use osc_riscv.Syscall.Fork.{Machine, areas_of, memory_of, sys_fork}
use osc_riscv.Vm.{exc_inst_page_fault, exc_load_page_fault, exc_store_page_fault}
use osc_riscv.Vm.Fault.{
  Memory, FaultResult, segmentation_fault, unallocated, unhandled, handled, do_page_fault,
}

abbrev pub exc_syscall : ℕ
exc_syscall = 8

pub record TrapState : Type 0 where
  pub machine : Machine
  pub user : Mem
  pub keys : List ℕ
  pub out : Output

-- How the handler ends: it returns to the process with these registers, the processor has gone on to
-- another task, or the handler stays in a loop.
pub data Trapped : Type 0 where
  returned : PtRegs → TrapState → Trapped
  switched : TrapState → Trapped
  panicked : Trapped

-- The words of a memory of bytes, and back.
abbrev pub words_of : Mem → User
words_of m a =
    m a
    + 2 ^ 8 * m (a + 1)
    + 2 ^ 16 * m (a + 2)
    + 2 ^ 24 * m (a + 3)
    + 2 ^ 32 * m (a + 4)
    + 2 ^ 40 * m (a + 5)
    + 2 ^ 48 * m (a + 6)
    + 2 ^ 56 * m (a + 7)

abbrev pub bytes_of : User → Mem
bytes_of u p = u (p / 8 * 8) / 2 ^ (8 * (p % 8)) % 2 ^ 8

-- A `long` as a word.
abbrev pub word_of : ℤ → ℕ
word_of (pos n) = n
word_of (negsuc n) = 2 ^ 64 - 1 - n

abbrev pub with_kernel : Kernel → TrapState → TrapState
with_kernel k s = record s { machine = record s.machine { kernel = k } }

abbrev pub with_memory : Memory → TrapState → TrapState
with_memory m s = record s {
  machine = record s.machine {
    kernel = record s.machine.kernel { word = m.tables.word };
    taken = m.tables.taken;
    mm = m.mm;
  };
}

-- A call that may have gone on to another task.
abbrev pub scheduled : (current : Ptr) → PtRegs → Kernel → TrapState → Trapped
scheduled current regs k s =
    if get_current k == current then returned regs (with_kernel k s) else switched (with_kernel k s)

-- What the handler uses: the allocator, fuels, addresses, and what `kmalloc` returns. `regs_at` is the
-- address of the registers on the kernel stack, `sigreturn` that of the user's return.
pub record Env : Type 0 where
  pub layout : Layout
  pub pages : ℕ → ℕ
  pub vmas : ℕ → Ptr
  pub fuel : ℕ
  pub range_fuel : ℕ
  pub runqueue : Ptr
  pub pg_dir : ℕ
  pub ret_from_exception : ℕ
  pub fresh : Fresh
  pub regs_at : ℕ
  pub sigreturn : ℕ

module _ (env : Env) where
  -- `do_page_fault` in the handler.
  unfoldable pub page_fault : PtRegs → TrapState → Option Trapped
  page_fault regs s =
      let k = s.machine.kernel in
      let t = k.task (get_current k) in
      do_page_fault env.layout env.fuel t.mm.mmap t.mm.pgd (regs Regs.cause) (regs Regs.badaddr)
        (areas_of s.machine) (memory_of s.machine)
      >>= λ (r : FaultResult). elim r [
        | segmentation_fault ↦ some (scheduled (get_current k) regs (kthread_exit env.runqueue k) s)
        | unallocated ↦ none
        | unhandled ↦ some panicked
        | handled m ↦ some (returned regs (with_memory m s))
      ]

  -- The registers stand in the kernel's memory, where `sys_fork` copies them.
  unfoldable pub fork_call : PtRegs → TrapState → Option Trapped
  fork_call regs s =
      let k = s.machine.kernel in
      let stored = copy_to_user pt_regs_words 0 env.regs_at regs k.word in
      sys_fork env.layout env.pages env.vmas env.fuel env.range_fuel env.runqueue env.pg_dir
        env.ret_from_exception env.fresh env.regs_at
        (record s.machine { kernel = record k { word = stored } })
      >>= λ (pid, machine).
          some (returned (update regs Regs.a0 pid) (record s { machine = machine }))

  -- The call that stops the task of an identifier.
  unfoldable pub stop_call : PtRegs → TrapState → Option Trapped
  stop_call regs s =
      let k = s.machine.kernel in
      let stop = λ (task : Ptr).
        scheduled (get_current k) (update regs Regs.a0 0) (kthread_stop env.runqueue task k) s in
      elim (find_task_by_pid env.fuel env.runqueue (widen (regs Regs.a0)) k) [
        | none ↦ none
        | some none ↦ some (returned (update regs Regs.a0 (2 ^ 64 - 1)) s)
        | some (some task) ↦ some (stop task)
      ]

  -- The `switch` on the number of the system call; `none` is out of fuel, a key that does not come, or
  -- a write out of bounds.
  unfoldable pub syscall : PtRegs → TrapState → Option Trapped
  syscall regs s =
      let k = s.machine.kernel in
      let a0 = regs Regs.a0 in
      let a1 = regs Regs.a1 in
      let n = regs Regs.a7 in
      let set : ℕ → PtRegs = λ w. update regs Regs.a0 w in
      if n == 0
      then some (returned (set (sys_getpid k)) s)
      else if n == 1
      then (sys_read a0 a1 s.keys s.user >>= λ (w, m, keys).
          some (returned (set w) (record s { user = m; keys = keys })))
      else if n == 2
      then (let (w, out) = sys_write a0 a1 s.user s.out in
          some (returned (set w) (record s { out = out })))
      else if n == 4
      then fork_call regs s
      else if n == 5
      then some (scheduled (get_current k) regs (sys_exit env.runqueue k) s)
      else if n == 6
      then stop_call regs s
      else if n == 7
      then (sys_signal (a0 % 2 ^ 32) a1 k >>= λ (w, k).
          some (returned (set (word_of w)) (with_kernel k s)))
      else if n == 8
      then (let (w, regs, k) = sys_sigreturn regs (words_of s.user) k in
          some (returned (update regs Regs.a0 w) (with_kernel k s)))
      else if n == 9
      then (sys_kill env.fuel env.runqueue (widen a0) (a1 % 2 ^ 32) k >>= λ (w, k).
          some (returned (set (word_of w)) (with_kernel k s)))
      else if n == 10
      then some (returned (set 0) s)
      else some (returned regs s)

  -- `do_signal` at the end of the handler.
  unfoldable pub signals : PtRegs → TrapState → Trapped
  signals regs s =
      elim (do_signal env.runqueue env.sigreturn regs (words_of s.user) s.machine.kernel) [
        | Delivered.returned regs' u k ↦
            returned regs' (record (with_kernel k s) { user = bytes_of u })
        | Delivered.switched k ↦ switched (with_kernel k s)
      ]

  unfoldable pub do_traps : PtRegs → TrapState → Option Trapped
  do_traps regs s =
      let cause = regs Regs.cause in
      let s' = record s {
        machine = record s.machine { sstatus = set_interrupt s.machine.sstatus };
      } in
      let regs' = update regs Regs.epc ((regs Regs.epc + 4) % 2 ^ 64) in
      let call = syscall regs' s' >>= λ (r : Trapped). elim r [
        | returned regs s ↦ some (signals regs s)
        | switched s ↦ some (switched s)
        | panicked ↦ some panicked
      ] in
      if cause == exc_inst_page_fault
        || cause == exc_load_page_fault
        || cause == exc_store_page_fault
      then page_fault regs s
      else if cause == exc_syscall
      then call
      else some panicked
