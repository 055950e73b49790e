-- ===== src/Initrd/Exec.antt =====
-- `initrd_exec` of src/initrd.c: a file of the archive becomes a process. The addresses that `kmalloc`
-- returns are arguments.
pub mod Mapped
pub mod Start
use Prim.Native.Nat.{bit_and, bit_or}
use osc_riscv.Base.{
  ℕ, ◌+◌, ◌-◌, ◌*◌, ◌%◌, ◌^◌, Option, none, some, ◌==◌, if◌then◌else◌, List, widen,
}
use osc_riscv.Text.{Ptr, Mem, null}
use osc_riscv.Utils.{align}
use osc_riscv.Printk.{Output, uart_puts}
use osc_riscv.Mm.Defs.{page_size}
use osc_riscv.Sched.{Kernel, Fresh, kthread_create, switch_mm}
use osc_riscv.Vm.{VmAreaStruct, Areas, vm_mmap, vm_read, vm_write, vm_exec}
use osc_riscv.Initrd.{filesize, headsize, find_loop, not_found}

abbrev pub user_stack : ℕ
user_stack = 0x3fffffb000

abbrev pub user_sp : ℕ
user_sp = 0x3ffffff000

-- The kernel with the areas of its processes; the lists of both are in the same memory.
pub record Processes : Type 0 where
  pub kernel : Kernel
  pub area : Ptr → VmAreaStruct

abbrev pub mmap_into : (vma mm file addr len prot : ℕ) → Processes → Processes
mmap_into vma mm file addr len prot s =
    let a = vm_mmap vma mm file addr len prot (record { links = s.kernel.links; area = s.area }) in
    record { kernel = record s.kernel { links = a.links }; area = a.area }

-- What `sret` enters: the task that `sscratch` holds, the stack pointer, the program counter and
-- `sstatus`, without `SPP`.
pub record Entered : Type 0 where
  pub sscratch : Ptr
  pub sp : ℕ
  pub sepc : ℕ
  pub sstatus : ℕ

pub data Execution : Type 0 where
  entered : Entered → Processes → Execution
  returned : Output → Execution

-- The two areas of a new task, and the way into it; `file` and `len` are where the file's bytes are
-- and how many pages they fill.
unfoldable pub enter_file :
    (sstatus : ℕ) (task mm : Ptr) (pgd : ℕ) (vma vma' : Ptr) (file len : ℕ) → Processes → Execution
enter_file sstatus task mm pgd vma vma' file len s =
    let s = mmap_into vma mm file 0 len (bit_or vm_read vm_exec) s in
    let s = mmap_into vma' mm 0 user_stack (page_size * 4) (bit_or vm_read vm_write) s in
    let s = record s { kernel = switch_mm pgd 8 s.kernel } in
    entered
      (record {
        sscratch = task;
        sp = user_sp;
        sepc = 0;
        sstatus = bit_and sstatus (2 ^ 64 - 1 - 2 ^ 8);
      })
      s

-- The file whose header is found at `ptr`; the areas are put at `vma` and `vma'`.
unfoldable pub start_file :
    (runqueue : Ptr) (pg_dir sstatus : ℕ) (fresh : Fresh) (vma vma' : Ptr) (m : Mem) (ptr : Ptr)
    → Processes
    → Execution
start_file runqueue pg_dir sstatus fresh vma vma' m ptr s =
    let (task, k) = kthread_create runqueue pg_dir fresh 0 s.kernel in
    enter_file sstatus task (k.task task).mm.mmap (k.task task).mm.pgd vma vma'
      ((ptr + widen (headsize m ptr)) % 2 ^ 64) (widen (align (filesize m ptr) page_size))
      (record s { kernel = k })

unfoldable pub initrd_exec :
    (fuel : ℕ) (runqueue : Ptr) (pg_dir sstatus : ℕ) (fresh : Fresh) (vma vma' base target : Ptr)
    → (name : List ℕ) → Mem
    → Output
    → Processes
    → Option Execution
initrd_exec fuel runqueue pg_dir sstatus fresh vma vma' base target name m out s =
    let found = find_loop fuel m base target in
    let run : Option Execution = elim found [
      | none ↦ none
      | some none ↦ some (returned (uart_puts (not_found name) out))
      | some (some ptr) ↦ some (start_file runqueue pg_dir sstatus fresh vma vma' m ptr s)
    ] in
    if target == null then some (returned out) else run
