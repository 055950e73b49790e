-- ===== src/Irq/Dispatch/Examples.antt =====
-- The theorem on `do_irq` of src/irq.c, applied to a queue of one task and a run queue of one.
use osc_riscv.Base.{ℕ, ◌+◌, ◌*◌, []}
use osc_riscv.Ring.{init_list_head, list_add_tail}
use osc_riscv.Sched.{task_running}
use osc_riscv.Irq.Dispatch.{System}

-- The queue at 1 holds the task at 2, and the run queue at 50 the thread at 60.
abbrev system : System
system = record {
  irq = record {
    links = list_add_tail 60 50 (
        init_list_head 50
          (list_add_tail 2 1 (init_list_head 1 (record { prev = λ p. 0; next = λ p. 0 }))));
    task = λ p. record { handler = 7; priority = 1; running = 0 };
    sstatus = 2;
    ran = [];
    freed = [];
  };
  kernel = record {
    nr_threads = 1;
    links = record { prev = λ p. 0; next = λ p. 0 };
    task = λ p. record {
      thread = record { ra = 0; sp = 0; s = λ i. 0 };
      thread_info = record { kernel_sp = 0; user_sp = 0 };
      pid = 0;
      state = task_running;
      stack = 0;
      mm = record { mmap = 5; pgd = 0 };
      sighand = λ sig. 0;
      blocked = 0;
      pending = 0;
    };
    word = λ a. 0;
    cpu = record { ra = 0; sp = 0; s = λ i. 0; tp = 60; satp = 0 };
  };
  timers = record {
    links = record { prev = λ p. p; next = λ p. p };
    timer = λ p. record { func = 0; arg = 0; time = 0 };
    sie = 32;
    deadline = 0;
    fired = [];
    freed = [];
  };
  out = [];
}

-- The clock moves on by a million in each call of the handler.
abbrev clock : (call reading : ℕ) → ℕ
clock call reading = call * 1000000 + reading
