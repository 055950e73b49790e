-- ===== src/Sched/Examples.antt =====
-- The theorems on src/sched.c, applied to a run queue of three tasks.
use osc_riscv.Base.{
  ◌<◌, ℕ, ◌≡◌, ◌≢◌, refl, [], ◌∷◌, ◌++◌, List, some, ◌==◌, arith, if◌then◌else◌, get_elem?,
}
use osc_riscv.Ring.{Ptr, Links, init_list_head, list_add_tail}
use osc_riscv.Ring.Chain.{IsRing}
use osc_riscv.Ring.Add.{init_list_head-IsRing, list_add_tail-IsRing}
use osc_riscv.Sched.{
  task_running, task_zombie, is_zombie, Kernel, Fresh, get_current, schedule, switch_to,
  kill_zombies, kthread_create,
}
use osc_riscv.Sched.Switch.{schedule-next, switch_to-restores, rounds, rounds-all}
use osc_riscv.Sched.Zombies.{kill_zombies-survivors, survivors}
use osc_riscv.Sched.Create.{IsThreads, kthread_create-IsThreads}

abbrev pub blank : Links
blank = init_list_head 1 (record { prev = λ p. 0; next = λ p. 0 })

abbrev pub queue : Links
queue = list_add_tail 4 1 (list_add_tail 3 1 (list_add_tail 2 1 blank))

abbrev pub tasks : List Ptr
tasks = 2 ∷ 3 ∷ 4 ∷ []

pub queue-IsRing : IsRing queue 1 tasks
queue-IsRing =
    list_add_tail-IsRing (list_add_tail 3 1 (list_add_tail 2 1 blank)) 4 1 (2 ∷ 3 ∷ [])
      (list_add_tail-IsRing (list_add_tail 2 1 blank) 3 1 (2 ∷ [])
        (list_add_tail-IsRing blank 2 1 []
          (init_list_head-IsRing (record { prev = λ p. 0; next = λ p. 0 }) 1) refl)
        refl)
      refl

-- The task at 3 is a zombie; the identifiers are the addresses less 2.
abbrev pub kernel : Kernel
kernel = record {
  nr_threads = 3;
  links = queue;
  task = λ p. record {
    thread = record { ra = 0; sp = 0; s = λ i. 0 };
    thread_info = record { kernel_sp = 0; user_sp = 0 };
    pid = if p == 2 then 0 else if p == 3 then 1 else 2;
    state = if p == 3 then task_zombie else task_running;
    stack = 0;
    mm = record { mmap = 0; pgd = 0 };
    sighand = λ sig. 0;
    blocked = 0;
    pending = 0;
  };
  word = λ a. 0;
  cpu = record { ra = 5; sp = 6; s = λ i. i; tp = 2; satp = 0 };
}

pub kernel-IsThreads : IsThreads 1 kernel tasks
kernel-IsThreads = record {
  ring = queue-IsRing;
  given = (omega arith, (omega arith, (omega arith, tt)));
  distinct = ((λ e. ground arith, (λ e. ground arith, tt)), ((λ e. ground arith, tt), (tt, tt)));
}

schedule-next_example :
    (get_current (schedule 1 kernel) ≡ 3)
    × ((schedule 1 kernel).links ≡ queue)
    × ((schedule 1 kernel).word ≡ kernel.word)
unfolding get_current
schedule-next_example = schedule-next 1 kernel 2 [] (3 ∷ 4 ∷ []) queue-IsRing refl

switch_to-restores_example :
    ((switch_to 3 2 (switch_to 2 3 kernel)).cpu.ra ≡ 5)
    × ((switch_to 3 2 (switch_to 2 3 kernel)).cpu.sp ≡ 6)
    × ((i : ℕ) → i < 12 → (switch_to 3 2 (switch_to 2 3 kernel)).cpu.s i ≡ i)
    × ((switch_to 3 2 (switch_to 2 3 kernel)).cpu.tp ≡ 2)
    × ((r : Ptr) → r ≢ 2 → (switch_to 2 3 kernel).task r ≡ kernel.task r)
switch_to-restores_example =
    switch_to-restores 2 3 3 kernel (switch_to 2 3 kernel) (λ e. ground arith) refl

rounds-all_example :
    ((i : ℕ) (y : Ptr) → get_elem? tasks i ≡ some y → get_current (rounds i 1 kernel) ≡ y)
    × (get_current (rounds 3 1 kernel) ≡ 2)
unfolding get_current
rounds-all_example = rounds-all 1 kernel 2 (3 ∷ 4 ∷ []) queue-IsRing refl

kill_zombies-survivors_example :
    (k' : Kernel) × (kill_zombies 4 1 kernel ≡ some k')
    × IsRing k'.links 1 (2 ∷ 4 ∷ [])
    × (k'.task ≡ kernel.task)
    × (k'.cpu ≡ kernel.cpu)
unfolding survivors is_zombie
kill_zombies-survivors_example = kill_zombies-survivors 4 1 tasks kernel queue-IsRing (omega arith)

abbrev pub fresh : Fresh
fresh = record { task = 5; stack = 4096; pgd = 8192; mmap = 6 }

kthread_create-IsThreads_example :
    let (t, k') = kthread_create 1 0 fresh 77 kernel in
    IsThreads 1 k' (tasks ++ t ∷ [])
    × ((k'.task t).pid ≡ 3)
    × ((k'.task t).state ≡ task_running)
    × ((k'.task t).blocked ≡ 0)
    × ((k'.task t).pending ≡ 0)
    × ((sig : ℕ) → (k'.task t).sighand sig ≡ 0)
    × ((p : Ptr) → p ≢ t → k'.task p ≡ kernel.task p)
kthread_create-IsThreads_example =
    kthread_create-IsThreads 1 0 fresh 77 kernel tasks kernel-IsThreads refl refl
