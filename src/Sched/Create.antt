-- ===== src/Sched/Create.antt =====
-- `kthread_create` and `find_task_by_pid` of src/sched.c: the identifiers of the tasks.
use osc_riscv.Base.{
  ℕ, ◌+◌, ◌<◌, ◌≡◌, ◌≢◌, refl, ap, sym, ◌∙◌, List, [], ◌∷◌, ◌++◌, ◌∈◌, ◌∉◌, arith, length, ◌==◌,
  All, Bool-cases, inl, inr, some, none, ==_false, ==_refl, ne_of_mem, All-mem, eq_of_==,
}
use osc_riscv.Ring.{Ptr, init_list_head}
use osc_riscv.Ring.Chain.{IsRing}
use osc_riscv.Ring.Add.{list_add_tail-IsRing, init_list_head-frame}
use osc_riscv.Ring.Each.{find?, list_for_each-find?}
use osc_riscv.Sched.{Kernel, TaskStruct, task_running, Fresh, kthread_create, find_task_by_pid}

abbrev pub OtherPids : (Ptr → TaskStruct) → ℕ → List Ptr → Type 0
OtherPids task pid xs = All (λ p. (task p).pid ≢ pid) xs

abbrev pub DistinctPids : (Ptr → TaskStruct) → List Ptr → Type 0
DistinctPids task [] = Unit
DistinctPids task (x ∷ xs) = OtherPids task (task x).pid xs × DistinctPids task xs

-- The run queue holds the tasks `xs`; their identifiers have been given out and are distinct.
pub record IsThreads (runqueue : Ptr) (k : Kernel) (xs : List Ptr) : Type 0 where
  pub ring : IsRing k.links runqueue xs
  pub given : All (λ p. (k.task p).pid < k.nr_threads) xs
  pub distinct : DistinctPids k.task xs

find?-pid :
    (task : Ptr → TaskStruct) (x : Ptr) (xs : List Ptr)
    → DistinctPids task xs
    → x ∈ xs
    → find? (λ pos. (task pos).pid == (task x).pid) xs ≡ some x
unfolding find?
find?-pid task x [] d j = absurd (ground arith)
find?-pid task x (y ∷ ys) d j = elim (Bool-cases (x == y)) [
  | inl e ↦ let same : x ≡ y = eq_of_== x y e in rw (same, ==_refl (task y).pid)
  | inr ne ↦
      let there : x ∈ ys = ground arith in
      let other : (task y).pid ≢ (task x).pid =
        λ e. All-mem (λ p. (task y).pid ≢ (task p).pid) x ys there (turn y ys d.0) e in
      rw (==_false (task y).pid (task x).pid other) (find?-pid task x ys d.1 there)
]
  where
    turn :
        (z : Ptr) (zs : List Ptr)
        → OtherPids task (task z).pid zs
        → All (λ p. (task z).pid ≢ (task p).pid) zs
    turn z [] o = tt
    turn z (w ∷ zs) o = ((λ e. o.0 (sym e)), turn z zs o.1)

find?-no_pid :
    (task : Ptr → TaskStruct) (pid : ℕ) (xs : List Ptr)
    → OtherPids task pid xs
    → find? (λ pos. (task pos).pid == pid) xs ≡ none
unfolding find?
find?-no_pid task pid [] o = refl
find?-no_pid task pid (y ∷ ys) o = ground (arith, find?-no_pid task pid ys)

module _ (runqueue : Ptr) (k : Kernel) (xs : List Ptr) (fuel : ℕ) (h : IsThreads runqueue k xs)
    (enough : length xs < fuel) where
  -- `find_task_by_pid` ends, finds the task with an identifier, and nothing if there is none.
  pub find_task_by_pid_lem :
      ((x : Ptr) → x ∈ xs → find_task_by_pid fuel runqueue (k.task x).pid k ≡ some (some x))
      × ((pid : ℕ) → OtherPids k.task pid xs → find_task_by_pid fuel runqueue pid k ≡ some none)
  unfolding find_task_by_pid
  find_task_by_pid_lem = (
    λ x j.
        list_for_each-find? k.links (λ pos. (k.task pos).pid == (k.task x).pid) runqueue fuel xs
          h.ring enough
        ∙ ap some (find?-pid k.task x xs h.distinct j),
    λ pid o.
        list_for_each-find? k.links (λ pos. (k.task pos).pid == pid) runqueue fuel xs h.ring enough
        ∙ ap some (find?-no_pid k.task pid xs o),
  )

-- A new task at the end of the queue.
threads_add :
    (task task' : Ptr → TaskStruct) (n : ℕ) (t : Ptr) (xs : List Ptr)
    → ((p : Ptr) → p ∈ xs → task' p ≡ task p)
    → (task' t).pid ≡ n
    → All (λ p. (task p).pid < n) xs
    → DistinctPids task xs
    → All (λ p. (task' p).pid < n + 1) (xs ++ t ∷ []) × DistinctPids task' (xs ++ t ∷ [])
threads_add task task' n t [] same e g d = ((omega (arith, e), tt), (tt, tt))
threads_add task task' n t (x ∷ xs) same e g d =
    let rest = threads_add task task' n t xs (λ p j. same p (ground arith)) e g.1 d.1 in
    let at : (task' x).pid ≡ (task x).pid = ap (λ s. s.pid) (same x (ground arith)) in
    ((omega (arith, at, g.0), rest.0), (others xs (λ p j. same p (ground arith)) d.0, rest.1))
  where
    others :
        (ys : List Ptr)
        → ((p : Ptr) → p ∈ ys → task' p ≡ task p)
        → OtherPids task (task x).pid ys
        → OtherPids task' (task' x).pid (ys ++ t ∷ [])
    others [] same' o =
        let at : (task' x).pid ≡ (task x).pid = ap (λ s. s.pid) (same x (ground arith)) in
        (omega (arith, e, at, g.0), tt)
    others (y ∷ ys) same' o =
        let at : (task' x).pid ≡ (task x).pid = ap (λ s. s.pid) (same x (ground arith)) in
        let at' : (task' y).pid ≡ (task y).pid = ap (λ s. s.pid) (same' y (ground arith)) in
        (λ e. o.0 (sym at' ∙ e ∙ at), others ys (λ p j. same' p (ground arith)) o.1)

-- `kthread_create` puts a running task at the end of the run queue, under an identifier that no other
-- task of the queue has, with no signal blocked or pending and every handler at its default.
pub kthread_create-IsThreads :
    (runqueue : Ptr) (pg_dir : ℕ) (fresh : Fresh) (threadfn : ℕ) (k : Kernel) (xs : List Ptr)
    → IsThreads runqueue k xs
    → fresh.task ∉ runqueue ∷ xs
    → fresh.mmap ∉ runqueue ∷ xs
    → let (t, k') = kthread_create runqueue pg_dir fresh threadfn k in
      IsThreads runqueue k' (xs ++ t ∷ [])
      × ((k'.task t).pid ≡ k.nr_threads)
      × ((k'.task t).state ≡ task_running)
      × ((k'.task t).blocked ≡ 0)
      × ((k'.task t).pending ≡ 0)
      × ((sig : ℕ) → (k'.task t).sighand sig ≡ 0)
      × ((p : Ptr) → p ≢ t → k'.task p ≡ k.task p)
unfolding kthread_create
kthread_create-IsThreads runqueue pg_dir fresh threadfn k xs h out out' =
    let ring = init_list_head-frame k.links fresh.mmap runqueue xs out' h.ring in
    let k' = (kthread_create runqueue pg_dir fresh threadfn k).1 in
    let threads =
      threads_add k.task k'.task k.nr_threads fresh.task xs
        (λ p j. rw (==_false p fresh.task (ne_of_mem p fresh.task xs j (ground arith))))
        (rw (==_refl fresh.task)) h.given h.distinct in
    (
      record {
        ring =
            list_add_tail-IsRing (init_list_head fresh.mmap k.links) fresh.task runqueue xs ring
              out;
        given = threads.0;
        distinct = threads.1;
      },
      rw (==_refl fresh.task),
      rw (==_refl fresh.task),
      rw (==_refl fresh.task),
      rw (==_refl fresh.task),
      λ sig. rw (==_refl fresh.task),
      λ p ne. rw (==_false p fresh.task ne),
    )

-- Operations that change neither the queue nor the identifiers keep the invariant.
pub IsThreads-same :
    (runqueue : Ptr) (k k' : Kernel) (xs : List Ptr)
    → k'.links ≡ k.links
    → k'.nr_threads ≡ k.nr_threads
    → ((p : Ptr) → (k'.task p).pid ≡ (k.task p).pid)
    → IsThreads runqueue k xs
    → IsThreads runqueue k' xs
IsThreads-same runqueue k k' xs links nr same h = record {
  ring = rw links h.ring;
  given = below xs h.given;
  distinct = apart xs h.distinct;
}
  where
    below :
        (ys : List Ptr)
        → All (λ p. (k.task p).pid < k.nr_threads) ys
        → All (λ p. (k'.task p).pid < k'.nr_threads) ys
    below [] g = tt
    below (y ∷ ys) g = (omega (arith, same y, nr, g.0), below ys g.1)

    others :
        (x : Ptr) (ys : List Ptr)
        → OtherPids k.task (k.task x).pid ys
        → OtherPids k'.task (k'.task x).pid ys
    others x [] o = tt
    others x (y ∷ ys) o = (λ e. o.0 (sym (same y) ∙ e ∙ same x), others x ys o.1)

    apart : (ys : List Ptr) → DistinctPids k.task ys → DistinctPids k'.task ys
    apart [] d = tt
    apart (y ∷ ys) d = (others y ys d.0, apart ys d.1)
