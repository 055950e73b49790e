-- ===== src/Syscall/Fork/Examples.antt =====
-- The theorem on `sys_fork` of src/syscall.c, applied to a process with one area.
use osc_riscv.Base.{
  ℕ, zero, suc, ◌+◌, ◌*◌, ◌≡◌, ◌≢◌, inl, inr, refl, ◌∙◌, some, arith, ◌==◌, [], ◌∷◌, update,
  Bool-cases,
}
use osc_riscv.Ring.{init_list_head, list_add_tail, list_add_between}
use osc_riscv.Ring.Chain.{IsRing}
use osc_riscv.Mm.Examples.{layout}
use osc_riscv.Sched.{TaskStruct, task_running, Fresh, get_current, kthread_create}
use osc_riscv.Vm.{copy_words}
use osc_riscv.Vm.Forest.{frame_at, slot, page_number}
use osc_riscv.Vm.Forest.Grow.{leaf-none}
use osc_riscv.Vm.Forest.Congr.{IsForest-congr}
use osc_riscv.Vm.Forest.Walk.{IsPaged, pages_of}
use osc_riscv.Vm.Forest.Examples.{
  given_back, vmas, roots, start, frames, frames_bounds, family_areas, roots-IsForest, roots-some,
  roots-IsPaged, roots-Under,
}
use osc_riscv.Vm.Copy.Dup.{pages_total, news}
use osc_riscv.Vm.Copy.Lists.{Copies}
use osc_riscv.Syscall.Fork.{Machine, areas_of, memory_of, fork_thread, sys_fork}
use osc_riscv.Syscall.Fork.Child.{Starts, StacksApart, sys_fork-Starts}
use osc_riscv.Syscall.Fork.Thread.{stack_copy}

-- The task at 60 runs; its areas are in the list at 1, and its registers 7904 bytes into its stack.
abbrev pub fresh : Fresh
fresh = record { task = 70; stack = frame_at 2010; pgd = frame_at 2; mmap = 5 }

abbrev pub parent_task : TaskStruct
parent_task = record {
  thread = record { ra = 0; sp = 0; s = λ i. 0 };
  thread_info = record { kernel_sp = 0; user_sp = 0 };
  pid = 2;
  state = task_running;
  stack = frame_at 2000;
  mm = record { mmap = 1; pgd = frame_at 1 };
  sighand = λ sig. sig;
  blocked = 0;
  pending = 0;
}

abbrev pub before : Machine
before = record {
  kernel = record {
    nr_threads = 3;
    links = list_add_tail 60 50 (init_list_head 50 family_areas.links);
    task = λ p. parent_task;
    word = λ a. 0;
    cpu = record { ra = 0; sp = 0; s = λ i. 0; tp = 60; satp = 0 };
  };
  area = family_areas.area;
  taken = 0;
  mm = given_back;
  sstatus = 2;
}

copy_words-zero :
    (n dst src : ℕ) (word : ℕ → ℕ) (a : ℕ)
    → ((a : ℕ) → word a ≡ 0)
    → copy_words n dst src word a ≡ 0
unfolding copy_words
copy_words-zero zero dst src word a h = h a
copy_words-zero (suc n) dst src word a h =
    copy_words-zero n (dst + 8) (src + 8) (update word dst (word src)) a
      (λ b. elim (Bool-cases (b == dst)) [ inl e ↦ rw e (h src) | inr e ↦ rw e (h b) ])

other : get_current before.kernel ≢ fresh.task
unfolding get_current
other e = absurd (omega (arith, e))

thread_word : (a : ℕ) → (fork_thread 50 (frame_at 3) fresh before).kernel.word a ≡ 0
thread_word a =
    stack_copy 50 (frame_at 3) fresh before other a
    ∙ copy_words-zero 1024 fresh.stack (before.kernel.task (get_current before.kernel)).stack
        (copy_words 512 fresh.pgd (frame_at 3) before.kernel.word) a
        (λ b. copy_words-zero 512 fresh.pgd (frame_at 3) before.kernel.word b (λ c. refl))

thread-IsPaged :
    IsPaged frames 1000 997 roots (memory_of (fork_thread 50 (frame_at 3) fresh before)).tables
unfolding fork_thread
thread-IsPaged = record {
  tables =
      IsForest-congr roots start.word
        (memory_of (fork_thread 50 (frame_at 3) fresh before)).tables.word
        (λ level x g j here lt. thread_word (slot g j)) roots-IsForest;
  fresh = roots-IsPaged.fresh;
  room = omega arith;
}

parent_list : IsRing (fork_thread 50 (frame_at 3) fresh before).kernel.links 1 (2 ∷ [])
unfolding fork_thread kthread_create list_add_tail list_add_between init_list_head
parent_list = record { chain = (refl, refl, (refl, refl)); head_out = refl; distinct = (refl, tt) }

child_list : IsRing (fork_thread 50 (frame_at 3) fresh before).kernel.links 5 []
unfolding fork_thread kthread_create list_add_tail list_add_between init_list_head
child_list = record { chain = (refl, refl); head_out = refl; distinct = tt }

stacks :
    StacksApart layout frames 1000 994 0 1 1 2
      (omega arith)
      vmas
      2
      2
      50
      (frame_at 3)
      fresh
      before
      roots
unfolding fork_thread kthread_create get_current
stacks = record {
  apart = inr (omega arith);
  off = inr (omega arith);
  old_fits = omega arith;
  new_fits = omega arith;
  stray = λ j lt. (
    λ i le below. elim (frames_bounds i below).2 [
      | inl low ↦ inr (omega (arith, low))
      | inr high ↦ inl (omega (arith, high))
    ],
    λ level x g j' here small e.
        let at : frame_at 2010 + 8 * j ≡ slot g j' = e in
        elim (roots-some level x g here).1 [
          | inl k ↦ omega (arith, at, k.1, small)
          | inr k ↦ omega (arith, at, k.1, small)
        ],
  );
}

sys_fork-Starts_example :
    (s' : Machine) × (sys_fork layout
        (pages_of frames)
        vmas
        2
        2
        50
        (frame_at 3)
        4096
        fresh
        (((fork_thread 50 (frame_at 3) fresh before).kernel.task (get_current before.kernel)).stack
          + 8 * 988)
        before
      ≡ some (3, s'))
    × Starts
        (((fork_thread 50 (frame_at 3) fresh before).kernel.task (get_current before.kernel)).stack
          + 8 * 988)
        4096
        (get_current before.kernel)
        70
        before
        s'
    × Copies 1 5
        (2 ∷ [])
        []
        (news vmas 0 1)
        (family_areas.area 2 ∷ [])
        (areas_of (fork_thread 50 (frame_at 3) fresh before))
        (areas_of s')
unfolding fork_thread kthread_create get_current news pages_total
sys_fork-Starts_example =
    sys_fork-Starts layout frames 1000 994 0 1 1 2 (omega arith) vmas 2 2 50 (frame_at 3) fresh
      before 4096 988 (2 ∷ []) roots other refl refl parent_list child_list (omega arith)
      (λ a i. ground (arith, i)) (refl, (refl, tt)) (omega arith)
      ((refl, omega arith, omega arith, omega arith), tt) (tt, tt)
      (
        (λ i lt.
            leaf-none roots (fork_thread 50 (frame_at 3) fresh before).kernel.word
              (page_number 1 4096 + i) refl),
        tt,
      )
      refl refl thread-IsPaged roots-Under stacks (omega arith)
