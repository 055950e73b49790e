-- ===== src/Irq/Dispatch/Timed.antt =====
-- The interrupt of the timer in src/irq.c.
use osc_riscv.Base.{ℕ, ◌≡◌, Option, none, some, List, All, ltb, update}
use osc_riscv.Ring.{Ptr}
use osc_riscv.Ring.Each.{insert_first}
use osc_riscv.Irq.{IrqTask, Irq}
use osc_riscv.Irq.Tasks.{IsTasks, Waiting}

-- The queue's tasks with the timer's, and the queue with it in its place.
abbrev pub with_timer : (task : Ptr) (handler : ℕ) → (Ptr → IrqTask) → Ptr → IrqTask
with_timer task handler table =
    update table task (record { handler = handler; priority = 1; running = 0 })

abbrev pub queued : (task : Ptr) (handler : ℕ) → (Ptr → IrqTask) → List Ptr → List Ptr
queued task handler table xs =
    let t = with_timer task handler table in
    insert_first (λ pos. ltb (t task).priority (t pos).priority) task xs

-- `irq_add_task` runs no handler.
ran_of : List ℕ → Option Irq → List ℕ
ran_of old none = old
ran_of old (some s) = s.ran

-- The queue of the interrupt's tasks, all of which call the timer's handler and wait.
pub record IsTimerQueue (head handler : ℕ) (s : Irq) (xs : List Ptr) : Type 0 where
  pub tasks : IsTasks head s xs
  pub waiting : Waiting s.task xs
  pub calls_timer : All (λ p. (s.task p).handler ≡ handler) xs
