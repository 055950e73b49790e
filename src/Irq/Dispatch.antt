-- ===== src/Irq/Dispatch.antt =====
-- `do_irq` of src/irq.c: the dispatch on the cause, on the scheduler, the timer's registers and the
-- queue of tasks. The lists of the queue and of the scheduler are the same memory. No interrupt comes
-- while a handler runs.
mod Examples
pub mod Served
pub mod Timed
use Prim.Native.Nat.{bit_and}
use osc_riscv.Base.{
  ℕ, zero, suc, ◌+◌, ◌-◌, ◌^◌, List, [], ◌∷◌, Option, none, some, ◌==◌, if◌then◌else◌,
}
use osc_riscv.Ring.{Ptr}
use osc_riscv.Printk.{Output, uart_puts, ◌>>=◌}
use osc_riscv.Printk.Format.{vprintk}
use osc_riscv.Sched.{Kernel, get_current, schedule}
use osc_riscv.Timer.{Timers, disable_timer_interrupt, timer_irq_handler}
use osc_riscv.Irq.{Irq, enable_interrupt, disable_interrupt, irq_add_task, run_tasks}

abbrev pub irq_s_timer : ℕ
irq_s_timer = 5

abbrev pub irq_s_ext : ℕ
irq_s_ext = 9

-- The cause without its high bit.
abbrev pub irq_cause : ℕ → ℕ
irq_cause x = bit_and x (2 ^ 64 - 1 - 2 ^ 63)

pub record System : Type 0 where
  pub irq : Irq
  pub kernel : Kernel
  pub timers : Timers
  pub out : Output

-- How the handler ends: it returns, or `schedule` has gone on to another task, and the handler goes on
-- behind it when the task runs again.
pub data Interrupted : Type 0 where
  returned switched : System → Interrupted

-- "do_irq: external interrupt\n"
abbrev pub external : List ℕ
external =
    100 ∷ 111 ∷ 95 ∷ 105 ∷ 114 ∷ 113 ∷ 58 ∷ 32 ∷ 101 ∷ 120 ∷ 116 ∷ 101 ∷ 114 ∷ 110 ∷ 97 ∷ 108 ∷ 32
    ∷ 105 ∷ 110 ∷ 116 ∷ 101 ∷ 114 ∷ 114 ∷ 117 ∷ 112 ∷ 116 ∷ 10 ∷ []

-- "do_irq: unknown interrupt cause (%d)\n"
abbrev pub unknown : List ℕ
unknown =
    100 ∷ 111 ∷ 95 ∷ 105 ∷ 114 ∷ 113 ∷ 58 ∷ 32 ∷ 117 ∷ 110 ∷ 107 ∷ 110 ∷ 111 ∷ 119 ∷ 110 ∷ 32 ∷ 105
    ∷ 110 ∷ 116 ∷ 101 ∷ 114 ∷ 114 ∷ 117 ∷ 112 ∷ 116 ∷ 32 ∷ 99 ∷ 97 ∷ 117 ∷ 115 ∷ 101 ∷ 32 ∷ 40 ∷ 37
    ∷ 100 ∷ 41 ∷ 10 ∷ []

-- `fuel` bounds the loops; `head` is `&irq_tasks`, `queue` is `&timer_queue`, and `task` is what
-- `kmalloc` returns for a task. `handler` is the address of `timer_irq_handler`, the only function that
-- is ever put into the queue, and `clock c` the readings of the clock in its `c`-th call.
module _ (fuel : ℕ) (head runqueue task queue : Ptr) (handler : ℕ) (clock : ℕ → ℕ → ℕ)
    (str : ℕ → List ℕ) where
  -- The call of a task's handler, with the number of calls before it.
  unfoldable pub call_handler : (func : ℕ) → ℕ × Timers → Option (ℕ × Timers)
  call_handler func (c, t) =
      let called : Option (ℕ × Timers) = elim (timer_irq_handler fuel (clock c) queue t) [
        | none ↦ none
        | some t' ↦ some (c + 1, t')
      ] in
      if func == handler then called else none

  -- What follows the switch: the queue of tasks.
  unfoldable pub finish_irq : System → Option Interrupted
  finish_irq s =
      run_tasks call_handler fuel head (enable_interrupt s.irq) (0, s.timers)
      >>= λ (irq, (c, timers)). some (returned (record s { irq = irq; timers = timers }))

  -- The case of the timer behind `schedule`.
  unfoldable pub resume_timer : System → Option Interrupted
  resume_timer s = irq_add_task fuel head task handler 1 s.irq >>= λ irq.
      finish_irq (record s { irq = irq; timers = disable_timer_interrupt s.timers })

  unfoldable pub do_irq : (cause : ℕ) → System → Option Interrupted
  do_irq cause s =
      let current = get_current s.kernel in
      let s = record s { irq = disable_interrupt s.irq } in
      let k = schedule runqueue (record s.kernel { links = s.irq.links }) in
      if irq_cause cause == irq_s_timer
      then (if get_current k == current
          then resume_timer (record s { kernel = k })
          else some (switched (record s { kernel = k })))
      else if irq_cause cause == irq_s_ext
      then finish_irq (record s { out = uart_puts external s.out })
      else vprintk str unknown (irq_cause cause ∷ []) s.out >>= λ out.
          finish_irq (record s { out = out })
