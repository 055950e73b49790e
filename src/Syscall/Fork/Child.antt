-- ===== src/Syscall/Fork/Child.antt =====
-- What `sys_fork` of src/syscall.c makes of a process: where its child starts, and with what.
use osc_riscv.Base.{
  ℕ, ◌+◌, ◌*◌, ◌^◌, ◌<◌, ◌≤◌, ◌≡◌, ◌≢◌, ◌⊎◌, sym, ap, subst, ◌∙◌, some, arith, ◌==◌, List, [], ◌∷◌,
  map, length, Distinct, All, if◌then◌else◌, ==_refl, ==_false,
}
use osc_riscv.Regs
use osc_riscv.Regs.{pt_regs_words}
use osc_riscv.Ring.{Ptr}
use osc_riscv.Ring.Chain.{IsRing}
use osc_riscv.Mm.Defs.{Layout, page_size}
use osc_riscv.Sched.{TaskStruct, Fresh, get_current, stack_size}
use osc_riscv.Vm.Forest.{frame_at, Forest, leaf, IsStray}
use osc_riscv.Vm.Forest.Walk.{IsPaged, pages_of}
use osc_riscv.Vm.Copy.Entry.{Under}
use osc_riscv.Vm.Copy.Dup.{pages_total, IsUserArea, AreasApart, IsBlank, news}
use osc_riscv.Vm.Copy.Loop.{dup_mmap-Copies}
use osc_riscv.Vm.Copy.Lists.{Copies, ApartLists}
use osc_riscv.Syscall.Fork.{Machine, areas_of, memory_of, pgd_of, fork_thread, sys_fork}
use osc_riscv.Syscall.Fork.Thread.{
  child_task, parent_task, stack_word, ended, ended_sp, ended_task, ended_word, dup_mmap-sys_fork,
  same_task, fork_pid, fork_areas, within_stack, sum_words,
}

-- The child starts at `ret`, on its own kernel stack, with the registers that the parent has saved at
-- `regs`, but for `a0`, and with the parent's signal handlers; the parent's task is as it was.
pub record Starts (regs ret : ℕ) (current child : Ptr) (s s' : Machine) : Type 0 where
  pub place : (s'.kernel.task child).thread.ra ≡ ret
  pub on_stack :
      ((s'.kernel.task child).stack ≤ (s'.kernel.task child).thread.sp)
      × ((s'.kernel.task child).thread.sp + 8 * pt_regs_words
          ≤ (s'.kernel.task child).stack + stack_size)
  pub registers :
      (i : ℕ)
      → i < pt_regs_words
      → s'.kernel.word ((s'.kernel.task child).thread.sp + 8 * i)
        ≡ (if i == Regs.a0 then 0 else s.kernel.word (regs + 8 * i))
  pub handlers : (s'.kernel.task child).sighand ≡ (s.kernel.task current).sighand
  pub parent : s'.kernel.task current ≡ s.kernel.task current

module _ (l : Layout) (frames : ℕ → ℕ) (limit k parent child f g : ℕ) (ne : parent ≢ child)
    (vmas : ℕ → Ptr) (fuel range_fuel : ℕ) (runqueue : Ptr) (pg_dir : ℕ) (fresh : Fresh)
    (s : Machine) where
  abbrev thread : Machine
  thread = fork_thread runqueue pg_dir fresh s

  abbrev old : TaskStruct
  old = thread.kernel.task (get_current s.kernel)

  abbrev new : TaskStruct
  new = thread.kernel.task fresh.task

  -- The stacks of the two tasks are apart, and a word of the child's is no page table's.
  pub record StacksApart (forest : Forest) : Type 0 where
    pub apart : (new.stack + stack_size ≤ old.stack) ⊎ (old.stack + stack_size ≤ new.stack)
    pub off : (old.stack + stack_size ≤ fresh.pgd) ⊎ (fresh.pgd + page_size ≤ old.stack)
    pub old_fits : old.stack + stack_size ≤ 2 ^ 64
    pub new_fits : new.stack + stack_size ≤ 2 ^ 64
    pub stray : (j : ℕ) → j < 1024 → IsStray forest frames limit thread.taken (new.stack + 8 * j)

  thread_word :
      get_current s.kernel ≢ fresh.task
      → (forest : Forest) → StacksApart forest
      → (j : ℕ) → j < 1024
      → thread.kernel.word (new.stack + 8 * j) ≡ s.kernel.word (old.stack + 8 * j)
  thread_word other forest h j lt =
      let tasks = (same_task runqueue pg_dir fresh s).0 in
      let at =
        ap (λ (t : Ptr → TaskStruct). (t fresh.task).stack) tasks
        ∙ (child_task runqueue pg_dir fresh s other).0 in
      let at' =
        ap (λ (t : Ptr → TaskStruct). (t (get_current s.kernel)).stack) tasks
        ∙ ap (λ (t : TaskStruct). t.stack) (parent_task runqueue pg_dir fresh s other) in
      let old_stack = (s.kernel.task (get_current s.kernel)).stack in
      let apart =
        subst (λ a. (a + stack_size ≤ old_stack) ⊎ (old_stack + stack_size ≤ a)) at
          (subst (λ b. (new.stack + stack_size ≤ b) ⊎ (b + stack_size ≤ new.stack)) at' h.apart) in
      let off = subst (λ b. (b + stack_size ≤ fresh.pgd) ⊎ (fresh.pgd + page_size ≤ b)) at' h.off in
      ap (λ a. thread.kernel.word (a + 8 * j)) at
      ∙ stack_word runqueue pg_dir fresh s other j lt apart off
      ∙ sym (ap (λ a. s.kernel.word (a + 8 * j)) at')

  -- `sys_fork` returns the child's identifier. The child's list holds copies of the parent's areas, and
  -- when the child is switched to, it starts at `ret_from_exception` on its own kernel stack with the
  -- registers that the parent's trap has saved, but for `a0`, which is 0. `fork_thread` is the state in
  -- which `dup_mmap` begins: the parent's areas lie in its user half and have no page in common, the
  -- child has none of their pages, the stacks lie apart from each other and from the page tables, and
  -- the registers lie in the parent's stack. There is fuel for the areas and their pages.
  pub sys_fork-Starts :
      (ret q : ℕ) (xs : List Ptr) (forest : Forest)
      → get_current s.kernel ≢ fresh.task
      → old.mm.pgd ≡ frame_at f
      → new.mm.pgd ≡ frame_at g
      → IsRing thread.kernel.links old.mm.mmap xs
      → IsRing thread.kernel.links new.mm.mmap []
      → old.mm.mmap ≢ new.mm.mmap
      → ApartLists old.mm.mmap new.mm.mmap xs [] (news vmas 0 (length xs))
      → Distinct (new.mm.mmap ∷ news vmas 0 (length xs))
      → length xs < fuel
      → All (IsUserArea old.mm.mmap range_fuel) (map thread.area xs)
      → AreasApart (map thread.area xs)
      → All (IsBlank child (leaf forest thread.kernel.word)) (map thread.area xs)
      → forest 2 parent ≡ some f
      → forest 2 child ≡ some g
      → IsPaged frames limit
          (3 * pages_total (map thread.area xs) + k)
          forest
          (memory_of thread).tables
      → Under parent child forest
      → StacksApart forest
      → q + pt_regs_words ≤ 1024
      → (s' : Machine) × (sys_fork l
            (pages_of frames)
            vmas
            fuel
            range_fuel
            runqueue
            pg_dir
            ret
            fresh
            (old.stack + 8 * q)
            s
          ≡ some (s.kernel.nr_threads, s'))
        × Starts (old.stack + 8 * q) ret (get_current s.kernel) fresh.task s s'
        × Copies old.mm.mmap new.mm.mmap xs []
            (news vmas 0 (length xs))
            (map thread.area xs)
            (areas_of thread)
            (areas_of s')
  sys_fork-Starts ret q xs forest other at at' r r' apart_mm apart d more hu ha hb here here' p
        under st fits =
      let current = get_current s.kernel in
      let two = ==_false old.mm.mmap new.mm.mmap apart_mm in
      let at_old : pgd_of old new old.mm.mmap ≡ frame_at f = rw two at in
      let at_new : pgd_of old new new.mm.mmap ≡ frame_at g = rw (==_refl new.mm.mmap) at' in
      let dup =
        dup_mmap-Copies l frames limit k parent child f g ne (pgd_of old new) vmas old.mm.mmap
          new.mm.mmap range_fuel at_old at_new fuel xs (areas_of thread) (memory_of thread) forest r
          r' apart d more hu ha hb here here' p under in
      let made = dup.0 in
      let m : Machine = record thread {
        kernel = record thread.kernel { links = made.0.links; word = made.1.tables.word };
        area = made.0.area;
        taken = made.1.tables.taken;
        mm = made.1.mm;
      } in
      let e =
        dup_mmap-sys_fork l (pages_of frames) vmas fuel range_fuel runqueue pg_dir ret fresh
          (old.stack + 8 * q) s made dup.1 in
      let s' = ended m ret current fresh.task q other fits st.old_fits st.new_fits in
      let tasks = (same_task runqueue pg_dir fresh s).0 in
      let pid =
        fork_pid ret (old.stack + 8 * q) current fresh.task m
        ∙ ap (λ (t : Ptr → TaskStruct). (t fresh.task).pid) tasks
        ∙ (child_task runqueue pg_dir fresh s other).1 in
      let sp = ended_sp m ret current fresh.task q other fits st.old_fits st.new_fits in
      let task = ended_task m ret current fresh.task q other fits st.old_fits st.new_fits in
      let kept_task =
        ap (λ (t : Ptr → TaskStruct). t current) tasks
        ∙ parent_task runqueue pg_dir fresh s other in
      (
        s',
        e ∙ ap (λ n. some (n, s')) pid,
        record {
          place = task.0;
          on_stack =
              within_stack q (s'.kernel.task fresh.task).thread.sp new.stack
                (s'.kernel.task fresh.task).stack sp task.1 fits;
          registers = λ i lt.
              let low : q + i < 1024 = omega (arith, lt, fits) in
              let a = new.stack + 8 * (q + i) in
              let copied : made.1.tables.word a ≡ s.kernel.word (old.stack + 8 * (q + i)) =
                (dup.3.others a (st.stray (q + i) low)).0
                ∙ thread_word other forest st (q + i) low in
              ap (λ a. s'.kernel.word (a + 8 * i)) sp
              ∙ ended_word m ret current fresh.task q other fits st.old_fits st.new_fits i
              ∙ ap (λ w. if i == Regs.a0 then 0 else w)
                  (ap made.1.tables.word (sum_words new.stack q i)
                    ∙ copied
                    ∙ ap s.kernel.word (sym (sum_words old.stack q i)));
          handlers = task.2 ∙ ap (λ (t : TaskStruct). t.sighand) kept_task;
          parent = task.3 ∙ kept_task;
        },
        subst
            (λ a.
              Copies old.mm.mmap new.mm.mmap xs [] (news vmas 0 (length xs)) (map thread.area xs)
                (areas_of thread) a)
            (sym (fork_areas ret (old.stack + 8 * q) current fresh.task m)) dup.2,
      )
