-- ===== src/Irq.antt =====
-- src/irq.c: the tasks that interrupts leave behind, in a queue by priority. A `struct irq_task` is
-- known by the address of its `list` member, and what `kmalloc` returns is an argument.
pub mod Tasks
pub mod Dispatch
mod Examples
use Prim.Native.Nat.{bit_and, bit_or}
use osc_riscv.Base.{
  ℕ, zero, suc, ◌+◌, ◌-◌, ◌^◌, List, [], ◌∷◌, ◌++◌, Option, none, some, ltb, ◌==◌, not,
  if◌then◌else◌, update,
}
use osc_riscv.Ring.{
  Ptr, Links, init_list_head, list_del_init, list_empty, list_first_entry, list_for_each,
}
use osc_riscv.Ring.Each.{add_before}

-- A priority is not negative: `do_irq` gives 1.
pub record IrqTask : Type 0 where
  pub handler : ℕ
  pub priority : ℕ
  pub running : ℕ

-- `ran` is the calls of handlers in order, and `freed` the arguments of `kfree`.
pub record Irq : Type 0 where
  pub links : Links
  pub task : Ptr → IrqTask
  pub sstatus : ℕ
  pub ran : List ℕ
  pub freed : List Ptr

-- `head` is `&irq_tasks`.
unfoldable pub irq_init : (head : Ptr) → Irq → Irq
irq_init head s = record s { links = init_list_head head s.links }

-- `sstatus` with the interrupt switched on, and off.
abbrev pub set_interrupt : ℕ → ℕ
set_interrupt sstatus = bit_or sstatus (2 ^ 1)

abbrev pub clear_interrupt : ℕ → ℕ
clear_interrupt sstatus = bit_and sstatus (2 ^ 64 - 1 - 2 ^ 1)

unfoldable pub enable_interrupt : Irq → Irq
enable_interrupt s = record s { sstatus = set_interrupt s.sstatus }

unfoldable pub disable_interrupt : Irq → Irq
disable_interrupt s = record s { sstatus = clear_interrupt s.sstatus }

unfoldable pub irq_add_task : (fuel : ℕ) (head task callback priority : ℕ) → Irq → Option Irq
irq_add_task fuel head task callback priority s =
    let t : IrqTask = record { handler = callback; priority = priority; running = 0 } in
    let s = record s { task = update s.task task t; links = init_list_head task s.links } in
    let found =
      list_for_each (λ pos. ltb (s.task task).priority (s.task pos).priority) fuel head s.links in
    elim found [
      | none ↦ none
      | some place ↦ some (record s { links = add_before place task head s.links })
    ]

-- `call` is what the function at an address does to the rest of the system, of type `W`; `none` is out
-- of fuel.
module _ {W : Type 0} (call : ℕ → W → Option W) where
  -- The first task is marked and its handler is called, and it is then taken out of the queue and freed.
  unfoldable pub run_first : (head : Ptr) → Irq → W → Option (Irq × W)
  unfolding enable_interrupt disable_interrupt
  run_first head s w =
      let task = list_first_entry head s.links in
      let s = disable_interrupt s in
      let s = record s { task = update s.task task (record (s.task task) { running = 1 }) } in
      let s = enable_interrupt s in
      let handler = (s.task task).handler in
      let s = record s { ran = s.ran ++ handler ∷ [] } in
      let s' = disable_interrupt s in
      let s' = record s' { links = list_del_init task s'.links; freed = s'.freed ++ task ∷ [] } in
      elim (call handler w) [ none ↦ none | some w' ↦ some (enable_interrupt s', w') ]

  -- The loop of `do_irq`.
  unfoldable pub run_tasks : ℕ → (head : Ptr) → Irq → W → Option (Irq × W)
  run_tasks zero head s w = none
  run_tasks (suc fuel) head s w =
      let task = list_first_entry head s.links in
      let rest : Option (Irq × W) = elim (run_first head s w) [
        | none ↦ none
        | some r ↦ run_tasks fuel head r.0 r.1
      ] in
      if list_empty head s.links
      then some (s, w)
      else if not ((s.task task).running == 0)
      then some (s, w)
      else rest
