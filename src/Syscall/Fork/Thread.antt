-- ===== src/Syscall/Fork/Thread.antt =====
-- The steps of `sys_fork` of src/syscall.c before and behind `dup_mmap`.
use osc_riscv.Base.{
  ℕ, ◌+◌, ◌-◌, ◌*◌, ◌%◌, ◌^◌, ◌<◌, ◌≤◌, ◌≡◌, ◌≢◌, ◌⊎◌, inl, inr, refl, ap, ap₂, ◌∙◌, true, some,
  arith, ◌==◌, if◌then◌else◌, Bool-cases, ==_refl, ==_false, eq_of_==, ne_of_==,
}
use osc_riscv.Regs
use osc_riscv.Regs.{pt_regs_words}
use osc_riscv.Ring.{Ptr}
use osc_riscv.Mm.Defs.{Layout, page_size}
use osc_riscv.Sched.{TaskStruct, Fresh, get_current, kthread_create, stack_size}
use osc_riscv.Vm.{Areas, copy_words}
use osc_riscv.Vm.Fault.{Memory}
use osc_riscv.Vm.Fault.Cow.{copy_words_out, copy_words_in}
use osc_riscv.Vm.Copy.{dup_mmap}
use osc_riscv.Syscall.Fork.{
  Machine, areas_of, memory_of, pgd_of, fork_thread, fork_registers, sys_fork,
}

module _ (runqueue : Ptr) (pg_dir : ℕ) (fresh : Fresh) (s : Machine)
    (ne : get_current s.kernel ≢ fresh.task) where
  pub child_task :
      let t = (kthread_create runqueue pg_dir fresh 0 s.kernel).1.task fresh.task in
      (t.stack ≡ fresh.stack)
      × (t.pid ≡ s.kernel.nr_threads)
      × (t.mm.pgd ≡ fresh.pgd)
      × (t.mm.mmap ≡ fresh.mmap)
  unfolding kthread_create
  child_task = rw (==_refl fresh.task) (refl, refl, refl, refl)

  pub parent_task :
      (kthread_create runqueue pg_dir fresh 0 s.kernel).1.task (get_current s.kernel)
      ≡ s.kernel.task (get_current s.kernel)
  unfolding kthread_create
  parent_task = rw (==_false (get_current s.kernel) fresh.task ne) refl

  pub new_word :
      (kthread_create runqueue pg_dir fresh 0 s.kernel).1.word
      ≡ copy_words 512 fresh.pgd pg_dir s.kernel.word
  unfolding kthread_create
  new_word = refl

  pub stack_copy :
      (x : ℕ)
      → (fork_thread runqueue pg_dir fresh s).kernel.word x
        ≡ copy_words 1024 fresh.stack
            (s.kernel.task (get_current s.kernel)).stack
            (copy_words 512 fresh.pgd pg_dir s.kernel.word)
            x
  unfolding fork_thread kthread_create
  stack_copy x =
      let k = (kthread_create runqueue pg_dir fresh 0 s.kernel).1 in
      ap₂ (λ (a : ℕ) (b : ℕ). copy_words 1024 a b k.word x) child_task.0
        (ap (λ (t : TaskStruct). t.stack) parent_task)
      ∙ ap
          (λ (w : ℕ → ℕ).
            copy_words 1024 fresh.stack (s.kernel.task (get_current s.kernel)).stack w x)
          new_word

  -- The child's stack holds the words of the parent's.
  pub stack_word :
      (j : ℕ)
      → j < 1024
      → let old = (s.kernel.task (get_current s.kernel)).stack in
        (fresh.stack + stack_size ≤ old) ⊎ (old + stack_size ≤ fresh.stack)
        → (old + stack_size ≤ fresh.pgd) ⊎ (fresh.pgd + page_size ≤ old)
        → (fork_thread runqueue pg_dir fresh s).kernel.word (fresh.stack + 8 * j)
          ≡ s.kernel.word (old + 8 * j)
  stack_word j lt apart off =
      let old = (s.kernel.task (get_current s.kernel)).stack in
      let out : (old + 8 * j < fresh.pgd) ⊎ (fresh.pgd + 8 * 512 ≤ old + 8 * j) = elim off [
        | inl low ↦ inl (omega (arith, low, lt))
        | inr high ↦ inr (omega (arith, high))
      ] in
      let apart' : (fresh.stack + 8 * 1024 ≤ old) ⊎ (old + 8 * 1024 ≤ fresh.stack) = apart in
      stack_copy (fresh.stack + 8 * j)
      ∙ copy_words_in 1024 fresh.stack old (copy_words 512 fresh.pgd pg_dir s.kernel.word) j apart'
          lt
      ∙ copy_words_out 512 fresh.pgd pg_dir s.kernel.word (old + 8 * j) out

-- The end of the call, for registers that lie `q` words above the bottom of the parent's stack.
module _ (m : Machine) (ret parent child q : ℕ) (ne : parent ≢ child)
    (fits : q + pt_regs_words ≤ 1024) (high : (m.kernel.task parent).stack + stack_size ≤ 2 ^ 64)
    (high' : (m.kernel.task child).stack + stack_size ≤ 2 ^ 64) where
  abbrev pub ended : Machine
  ended = (fork_registers ret ((m.kernel.task parent).stack + 8 * q) parent child m).1

  pub ended_sp : (ended.kernel.task child).thread.sp ≡ (m.kernel.task child).stack + 8 * q
  unfolding fork_registers
  ended_sp = rw (==_refl child) (omega (arith, fits, high, high'))

  pub ended_task :
      ((ended.kernel.task child).thread.ra ≡ ret)
      × ((ended.kernel.task child).stack ≡ (m.kernel.task child).stack)
      × ((ended.kernel.task child).sighand ≡ (m.kernel.task parent).sighand)
      × (ended.kernel.task parent ≡ m.kernel.task parent)
  unfolding fork_registers
  ended_task = rw (==_refl child, ==_false parent child ne) (refl, refl, refl, refl)

  pub ended_word :
      (i : ℕ)
      → ended.kernel.word ((m.kernel.task child).stack + 8 * q + 8 * i)
        ≡ (if i == Regs.a0 then 0 else m.kernel.word ((m.kernel.task child).stack + 8 * q + 8 * i))
  unfolding fork_registers
  ended_word i =
      let stack = (m.kernel.task child).stack in
      let at : (stack
              + (((m.kernel.task parent).stack + 8 * q) + 2 ^ 64 - (m.kernel.task parent).stack)
                % 2 ^ 64)
            % 2 ^ 64
          ≡ stack + 8 * q =
        omega (arith, fits, high, high') in
      elim (Bool-cases (i == Regs.a0)) [
        | inl e ↦
            let same : (stack + 8 * q + 8 * i == stack + 8 * q + 8 * Regs.a0) ≡ true =
              rw (eq_of_== i Regs.a0 e) (==_refl (stack + 8 * q + 8 * Regs.a0)) in
            rw (at, same, e) refl
        | inr e ↦
            let other =
              ==_false (stack + 8 * q + 8 * i) (stack + 8 * q + 8 * Regs.a0)
                (λ k. ne_of_== i Regs.a0 e (omega (arith, k))) in
            rw (at, other, e) refl
      ]

-- `sys_fork` after its `dup_mmap`.
pub dup_mmap-sys_fork :
    (l : Layout) (pages : ℕ → ℕ) (vmas : ℕ → Ptr) (fuel range_fuel : ℕ) (runqueue : Ptr)
    (pg_dir ret : ℕ) (fresh : Fresh) (regs : ℕ) (s : Machine) (r : Areas × Memory)
    → let m = fork_thread runqueue pg_dir fresh s in
      let t = m.kernel.task (get_current s.kernel) in
      let t' = m.kernel.task fresh.task in
      dup_mmap l pages fuel range_fuel
          (pgd_of t t')
          vmas
          t'.mm.mmap
          t.mm.mmap
          (areas_of m, memory_of m)
        ≡ some r
      → sys_fork l pages vmas fuel range_fuel runqueue pg_dir ret fresh regs s
        ≡ some (
            fork_registers ret regs (get_current s.kernel) fresh.task (record m {
              kernel = record m.kernel { links = r.0.links; word = r.1.tables.word };
              area = r.0.area;
              taken = r.1.tables.taken;
              mm = r.1.mm;
            }))
unfolding sys_fork
dup_mmap-sys_fork l pages vmas fuel range_fuel runqueue pg_dir ret fresh regs s r e =
    rw (sys_fork, e) refl

pub same_task :
    (runqueue : Ptr) (pg_dir : ℕ) (fresh : Fresh) (s : Machine)
    → ((fork_thread runqueue pg_dir fresh s).kernel.task
        ≡ (kthread_create runqueue pg_dir fresh 0 s.kernel).1.task)
      × ((fork_thread runqueue pg_dir fresh s).area ≡ s.area)
      × ((fork_thread runqueue pg_dir fresh s).taken ≡ s.taken)
unfolding fork_thread
same_task runqueue pg_dir fresh s = (refl, refl, refl)

pub fork_pid :
    (ret regs parent child : ℕ) (m : Machine)
    → (fork_registers ret regs parent child m).0 ≡ (m.kernel.task child).pid
unfolding fork_registers
fork_pid ret regs parent child m = refl

pub fork_areas :
    (ret regs parent child : ℕ) (m : Machine)
    → areas_of (fork_registers ret regs parent child m).1 ≡ areas_of m
unfolding fork_registers
fork_areas ret regs parent child m = refl

pub within_stack :
    (q sp stack stack' : ℕ)
    → sp ≡ stack + 8 * q
    → stack' ≡ stack
    → q + pt_regs_words ≤ 1024
    → (stack' ≤ sp) × (sp + 8 * pt_regs_words ≤ stack' + stack_size)
within_stack q sp stack stack' e e' fits = (omega (arith, e, e'), omega (arith, e, e', fits))

pub sum_words : (a q i : ℕ) → a + 8 * q + 8 * i ≡ a + 8 * (q + i)
sum_words a q i = omega arith
