-- ===== src/Sched.antt =====
-- src/sched.c, include/sched.h and `switch_to` of src/entry.S. A `struct task_struct` is known by the
-- address of its `list` member, and a process's page table by its address. What `kmalloc` returns
-- is an argument.
pub mod Create
pub mod Examples
pub mod Switch
pub mod Zombies
use Prim.Native.Nat.{bit_or}
use osc_riscv.Base.{
  ℕ, zero, suc, ◌+◌, ◌-◌, ◌*◌, ◌/◌, ◌%◌, ◌^◌, Bool, true, false, Option, none, some, ◌==◌, ltb,
  if◌then◌else◌, update,
}
use osc_riscv.Ring.{
  Ptr, Links, init_list_head, list_add_tail, list_del_init, list_next_entry_circular, list_for_each,
  list_for_each_safe,
}
use osc_riscv.Vm.{virt_to_phys, copy_words}

abbrev pub stack_size : ℕ
stack_size = 0x2000

-- `s i` is the callee-saved register `s<i>`, of which there are 12.
pub record ThreadStruct : Type 0 where
  pub ra : ℕ
  pub sp : ℕ
  pub s : ℕ → ℕ

pub record ThreadInfo : Type 0 where
  pub kernel_sp : ℕ
  pub user_sp : ℕ

pub data TaskState : Type 0 where
  task_running task_zombie : TaskState

-- `mmap` is the address of the list of areas.
pub record MmStruct : Type 0 where
  pub mmap : Ptr
  pub pgd : ℕ

-- `sighand sig` is the handler of a signal, 0 for `SIG_DFL`.
pub record TaskStruct : Type 0 where
  pub thread : ThreadStruct
  pub thread_info : ThreadInfo
  pub pid : ℕ
  pub state : TaskState
  pub stack : ℕ
  pub mm : MmStruct
  pub sighand : ℕ → ℕ
  pub blocked : ℕ
  pub pending : ℕ

-- The registers of the processor that the scheduler reads or writes.
pub record Cpu : Type 0 where
  pub ra : ℕ
  pub sp : ℕ
  pub s : ℕ → ℕ
  pub tp : Ptr
  pub satp : ℕ

-- `word a` is the 64-bit word at the address `a` of the page tables.
-- `nr_threads` stays below 2 ^ 31, where the `int` of the source would overflow.
pub record Kernel : Type 0 where
  pub nr_threads : ℕ
  pub links : Links
  pub task : Ptr → TaskStruct
  pub word : ℕ → ℕ
  pub cpu : Cpu

unfoldable pub get_current : Kernel → Ptr
get_current k = k.cpu.tp

abbrev pub set_task : Ptr → TaskStruct → Kernel → Kernel
set_task p t k = record k { task = update k.task p t }

-- `runqueue` is the address of the list's head; the inner `none` is the null pointer.
unfoldable pub find_task_by_pid :
    (fuel : ℕ) (runqueue : Ptr) (pid : ℕ) → Kernel → Option (Option Ptr)
find_task_by_pid fuel runqueue pid k =
    list_for_each (λ pos. (k.task pos).pid == pid) fuel runqueue k.links

unfoldable pub switch_mm : (pgd satp_mode : ℕ) → Kernel → Kernel
switch_mm pgd satp_mode k = record k {
  cpu = record k.cpu { satp = bit_or (satp_mode * 2 ^ 60 % 2 ^ 64) (virt_to_phys pgd / 2 ^ 12) };
}

-- `CTX_RA`, `CTX_SP` and `CTX_S0`, from which on the registers `s0` to `s11` have 8 bytes each.
abbrev pub ctx_ra : ℕ
ctx_ra = 0

abbrev pub ctx_sp : ℕ
ctx_sp = 8

abbrev pub ctx_s0 : ℕ
ctx_s0 = 16

-- The word at an offset of the context, at the start of a `struct task_struct`.
unfoldable pub ctx_load : (offset : ℕ) → ThreadStruct → ℕ
ctx_load offset t =
    if offset == ctx_ra
    then t.ra
    else if offset == ctx_sp
    then t.sp
    else t.s ((offset - ctx_s0) / 8)

unfoldable pub ctx_store : (offset value : ℕ) → ThreadStruct → ThreadStruct
ctx_store offset value t =
    if offset == ctx_ra
    then record t { ra = value }
    else if offset == ctx_sp
    then record t { sp = value }
    else record t { s = update t.s ((offset - ctx_s0) / 8) value }

-- The stores of `switch_to`, one for each register.
unfoldable pub save_context : Cpu → ThreadStruct → ThreadStruct
unfolding ctx_store
save_context cpu t =
    let t = ctx_store 0 cpu.ra t in
    let t = ctx_store 8 cpu.sp t in
    let t = ctx_store 16 (cpu.s 0) t in
    let t = ctx_store 24 (cpu.s 1) t in
    let t = ctx_store 32 (cpu.s 2) t in
    let t = ctx_store 40 (cpu.s 3) t in
    let t = ctx_store 48 (cpu.s 4) t in
    let t = ctx_store 56 (cpu.s 5) t in
    let t = ctx_store 64 (cpu.s 6) t in
    let t = ctx_store 72 (cpu.s 7) t in
    let t = ctx_store 80 (cpu.s 8) t in
    let t = ctx_store 88 (cpu.s 9) t in
    let t = ctx_store 96 (cpu.s 10) t in ctx_store 104 (cpu.s 11) t

-- `ld s<i>, offset(a1)`
abbrev load_s : (i offset : ℕ) → ThreadStruct → (ℕ → ℕ) → ℕ → ℕ
load_s i offset t s = update s i (ctx_load offset t)

-- The loads of `switch_to` into `s0` to `s11`.
unfoldable pub load_saved : ThreadStruct → (ℕ → ℕ) → ℕ → ℕ
unfolding ctx_load
load_saved t s =
    let s = load_s 0 16 t s in
    let s = load_s 1 24 t s in
    let s = load_s 2 32 t s in
    let s = load_s 3 40 t s in
    let s = load_s 4 48 t s in
    let s = load_s 5 56 t s in
    let s = load_s 6 64 t s in
    let s = load_s 7 72 t s in
    let s = load_s 8 80 t s in
    let s = load_s 9 88 t s in let s = load_s 10 96 t s in load_s 11 104 t s

-- The registers are saved in `prev` and loaded from `next`.
unfoldable pub switch_to : (prev next : Ptr) → Kernel → Kernel
unfolding ctx_load save_context load_saved
switch_to prev next k =
    let old = k.task prev in
    let k = set_task prev (record old { thread = save_context k.cpu old.thread }) k in
    let t = (k.task next).thread in
    record k {
      cpu = record {
        ra = ctx_load 0 t;
        sp = ctx_load 8 t;
        s = load_saved t k.cpu.s;
        tp = next;
        satp = k.cpu.satp;
      };
    }

unfoldable pub schedule : (runqueue : Ptr) → Kernel → Kernel
unfolding get_current switch_mm switch_to
schedule runqueue k =
    let current = get_current k in
    let next = list_next_entry_circular current runqueue k.links in
    if next == current then k else switch_to current next (switch_mm (k.task next).mm.pgd 0x8 k)

unfoldable pub is_zombie : TaskState → Bool
is_zombie task_running = false
is_zombie task_zombie = true

unfoldable pub kill_zombies : (fuel : ℕ) (runqueue : Ptr) → Kernel → Option Kernel
unfolding is_zombie
kill_zombies fuel runqueue k =
    list_for_each_safe (λ (k : Kernel). k.links)
      (λ pos k.
        if is_zombie (k.task pos).state then record k { links = list_del_init pos k.links } else k)
      fuel runqueue k

-- The three allocations of `kthread_create`, and the address of `pg_dir`. `mmap` is the address of the
-- new task's list of areas.
pub record Fresh : Type 0 where
  pub task : Ptr
  pub stack : ℕ
  pub pgd : ℕ
  pub mmap : Ptr

-- `blank` is what the new task's memory holds before.
unfoldable pub kthread_create :
    (runqueue : Ptr) (pg_dir : ℕ) (fresh : Fresh) (threadfn : ℕ) → Kernel → Ptr × Kernel
kthread_create runqueue pg_dir fresh threadfn k =
    let old = k.task fresh.task in
    let sp = (fresh.stack + stack_size) % 2 ^ 64 in
    let t : TaskStruct = record {
      thread = record old.thread { ra = threadfn; sp = sp };
      thread_info = record old.thread_info { kernel_sp = sp };
      pid = k.nr_threads;
      state = task_running;
      stack = fresh.stack;
      mm = record { mmap = fresh.mmap; pgd = fresh.pgd };
      sighand = λ sig. 0;
      blocked = 0;
      pending = 0;
    } in
    (
      fresh.task,
      record k {
        nr_threads = k.nr_threads + 1;
        task = update k.task fresh.task t;
        word = copy_words 512 fresh.pgd pg_dir k.word;
        links = list_add_tail fresh.task runqueue (init_list_head fresh.mmap k.links);
      },
    )

-- `idle` is the address of the function that the first thread runs.
unfoldable pub kthread_init :
    (runqueue : Ptr) (pg_dir : ℕ) (fresh : Fresh) (idle : ℕ) → Kernel → Kernel
kthread_init runqueue pg_dir fresh idle k =
    let k = record k { links = init_list_head runqueue k.links } in
    let (tidle, k) = kthread_create runqueue pg_dir fresh idle k in
    record k { cpu = record k.cpu { tp = tidle } }

unfoldable pub kthread_stop : (runqueue task : Ptr) → Kernel → Kernel
unfolding schedule
kthread_stop runqueue task k =
    schedule runqueue (set_task task (record (k.task task) { state = task_zombie }) k)

unfoldable pub kthread_exit : (runqueue : Ptr) → Kernel → Kernel
unfolding schedule
kthread_exit runqueue k =
    let current = get_current k in
    schedule runqueue (set_task current (record (k.task current) { state = task_zombie }) k)

-- One round of the loop of `idle`.
unfoldable pub idle_round : (fuel : ℕ) (runqueue : Ptr) → Kernel → Option Kernel
unfolding kill_zombies schedule
idle_round fuel runqueue k = elim (kill_zombies fuel runqueue k) [
  | none ↦ none
  | some k' ↦ some (schedule runqueue k')
]
