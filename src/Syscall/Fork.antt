-- ===== src/Syscall/Fork.antt =====
-- `sys_fork` of src/syscall.c, on the scheduler, the areas, the page tables and the page allocator. The
-- lists of the kernel and of the areas are the same memory, and so are the words of the kernel and of
-- the page tables. The interrupt is switched off and on in `sstatus`.
pub mod Child
pub mod Thread
pub mod Examples
use osc_riscv.Base.{
  ℕ, zero, suc, ◌+◌, ◌-◌, ◌*◌, ◌%◌, ◌^◌, Option, none, some, ◌==◌, if◌then◌else◌, update,
}
use osc_riscv.Regs
use osc_riscv.Ring.{Ptr}
use osc_riscv.Mm.Defs.{Layout, Mm}
use osc_riscv.Irq.{set_interrupt, clear_interrupt}
use osc_riscv.Sched.{Kernel, TaskStruct, Fresh, get_current, set_task, kthread_create}
use osc_riscv.Vm.{Areas, VmAreaStruct, copy_words}
use osc_riscv.Vm.Fault.{Memory}
use osc_riscv.Vm.Copy.{dup_mmap}

pub record Machine : Type 0 where
  pub kernel : Kernel
  pub area : Ptr → VmAreaStruct
  pub taken : ℕ
  pub mm : Mm
  pub sstatus : ℕ

-- The areas and the memory of a machine.
abbrev pub areas_of : Machine → Areas
areas_of s = record { links = s.kernel.links; area = s.area }

abbrev pub memory_of : Machine → Memory
memory_of s = record { tables = record { word = s.kernel.word; taken = s.taken }; mm = s.mm }

-- The page tables of the two processes, by the addresses of their `mm_struct`s.
abbrev pub pgd_of : (parent child : TaskStruct) → Ptr → ℕ
pgd_of parent child mm = if mm == child.mm.mmap then child.mm.pgd else parent.mm.pgd

-- The new thread, with a copy of the parent's kernel stack.
unfoldable pub fork_thread : (runqueue : Ptr) (pg_dir : ℕ) (fresh : Fresh) → Machine → Machine
fork_thread runqueue pg_dir fresh s =
    let parent = get_current s.kernel in
    let (child, k) = kthread_create runqueue pg_dir fresh 0 s.kernel in
    record s {
      kernel = record k {
        word = copy_words 1024 (k.task child).stack (k.task parent).stack k.word;
      };
      sstatus = clear_interrupt s.sstatus;
    }

-- The end of the call: the signal handlers, the child's registers and where it starts.
unfoldable pub fork_registers :
    (ret_from_exception regs : ℕ) (parent child : Ptr) → Machine → ℕ × Machine
fork_registers ret_from_exception regs parent child s =
    let k = s.kernel in
    let t = k.task child in
    let sp_offset = (regs + 2 ^ 64 - (k.task parent).stack) % 2 ^ 64 in
    let childregs = (t.stack + sp_offset) % 2 ^ 64 in
    let t = record t {
      sighand = (k.task parent).sighand;
      thread = record t.thread { ra = ret_from_exception; sp = childregs };
    } in
    let k = set_task child t (record k { word = update k.word (childregs + 8 * Regs.a0) 0 }) in
    (t.pid, record s { kernel = k; sstatus = set_interrupt s.sstatus })

-- `regs` is the address of the registers that the trap has saved on the parent's stack.
unfoldable pub sys_fork :
    (l : Layout) (pages : ℕ → ℕ) (vmas : ℕ → Ptr) (fuel range_fuel : ℕ) (runqueue : Ptr)
    (pg_dir ret_from_exception : ℕ) (fresh : Fresh) (regs : ℕ)
    → Machine
    → Option (ℕ × Machine)
sys_fork l pages vmas fuel range_fuel runqueue pg_dir ret_from_exception fresh regs s =
    let parent = get_current s.kernel in
    let s = fork_thread runqueue pg_dir fresh s in
    let child = fresh.task in
    let t = s.kernel.task parent in
    let t' = s.kernel.task child in
    elim (dup_mmap l pages fuel range_fuel (pgd_of t t') vmas t'.mm.mmap t.mm.mmap
      (areas_of s, memory_of s)) [
        | none ↦ none
        | some r ↦ some (
            fork_registers ret_from_exception regs parent child (record s {
              kernel = record s.kernel { links = r.0.links; word = r.1.tables.word };
              area = r.0.area;
              taken = r.1.tables.taken;
              mm = r.1.mm;
            }))
      ]
