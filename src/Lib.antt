-- ===== src/Lib.antt =====
-- A model of osc-riscv, a small kernel for 64-bit RISC-V boards, and what is proved of it.
--
-- The program's parts and the files that model them:
-- - include/list.h, the circular lists that every queue of the kernel is made of: Ring. A
--   `struct list_head` is a pointer, the memory holds a `prev` and a `next` word for each, and each
--   operation is the sequence of its writes. Ring/Chain says which nodes a list holds.
-- - src/mm.c, the buddy allocator over `mem_map`: Mm/Defs. The fields of a `struct page` are
--   functions of the page's index, the lists of free blocks are threaded through the same words as
--   all others. Mm/Invariant says what the allocator keeps true. The object caches, `kmalloc`, `kfree`
--   and the set-up of the memory stand in Mm/Kmalloc; Mm/Kmalloc/Setup, Reserve and Boot follow
--   `mem_init` from a memory of any content to the buddy system.
-- - src/sched.c with the switch of src/entry.S, the run queue and the kernel threads: Sched. The state
--   is a `Kernel`: the lists, the tasks, the words of the page tables and the processor's registers.
-- - src/signal.c, the signals of user processes: Signal, on the scheduler's state, with the saved
--   registers of include/traps.h in Regs.
-- - src/timer.c, the queue of timers and its interrupt handler: Timer.
-- - src/initrd.c, the files of the ram disk: Initrd for the walk over the headers and the printing,
--   Initrd/Exec for the start of a program, on the scheduler's and the areas' state.
-- - src/devtree.c, the walk over the flattened device tree: Devtree.
-- - src/shell.c, the line editor: Shell. The keys are the characters that the UART receives.
-- - src/cmd.c, the list of commands and the dispatch of a line: Cmd. Which function is called, with
--   which arguments, is the result.
-- - src/syscall.c, the calls that read, write and name or end the process: Syscall; `sys_fork`:
--   Syscall/Fork, over the scheduler, the areas and the page tables.
-- - src/traps.c, the handler of traps, which calls the system calls, the page-fault handler and
--   the signals: Traps.
-- - src/irq.c, the tasks that interrupts leave behind: Irq, and the dispatch on the cause:
--   Irq/Dispatch, where the tasks' handler acts on the timers.
-- - src/vm.c, page-table entries, the walk over the tables and the areas of a process: Vm; the
--   page-fault handler: Vm/Fault; what `fork` does to the areas and the tables: Vm/Copy, on the
--   allocator's state. Vm/Forest says what the tables hold: all tables together are a forest, which
--   gives each virtual page of each process an entry.
-- - src/sbi.c, the calls of the firmware, which is a parameter: Sbi.
-- - src/string.c: Text, on a memory of bytes. src/utils.c: Utils, on 32-bit words.
-- - src/printk.c and src/uart.c, the printing of numbers and the output: Printk; the formats of
--   `printk`: Printk/Format.
-- The components meet in the lists: the allocator, the scheduler and the timers call the operations
-- of Ring on their own words, and their theorems rest on those of Ring/Add, Ring/Del, Ring/Walk and
-- Ring/Each. Signal finds its task by the scheduler's `find_task_by_pid` and ends a process by
-- `kthread_exit`.
--
-- Numbers are natural numbers, and an unsigned word of the machine is its value with the wrap-around
-- of its width written out. A loop that counts down runs on the number of rounds left; a loop that
-- a list or a terminating zero ends runs on fuel, and `none` means that the fuel ran out: any fuel
-- above the number of entries or characters is enough, as the theorems on these loops state. What
-- `rdtime` reads is an argument. The page-fault handler runs `kmalloc` on the allocator; `dup_mmap`
-- runs it too and takes the addresses that it returns as arguments, and the other components take
-- only the addresses.
--
-- Not modelled: the boot code and the linker scripts, the firmware, the devices but for the UART,
-- the framebuffer and what the shell's commands do. Interrupts do not come in the middle of an
-- operation here.
pub mod Base
pub mod Initrd
pub mod Devtree
pub mod Irq
pub mod Mm
pub mod Printk
pub mod Regs
pub mod Ring
pub mod Sched
pub mod Sbi
pub mod Shell
pub mod Cmd
pub mod Syscall
pub mod Signal
pub mod Text
pub mod Timer
pub mod Traps
pub mod Utils
pub mod Vm
