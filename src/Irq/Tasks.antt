-- ===== src/Irq/Tasks.antt =====
-- The queue of src/irq.c: the order of its tasks, and the loop that runs them.
use osc_riscv.Base.{
  ℕ, zero, suc, ◌<◌, ◌≡◌, ◌≢◌, ==_refl, refl, ap, ap₂, sym, ◌∙◌, List, [], ◌∷◌, ◌++◌, map, ◌∈◌, ◌∉◌,
  Option, none, some, Option-cases, inl, inr, arith, length, ltb, update, All, ==_false, ne_of_mem,
}
use mathlib.Core.List.{append_assoc, append-nil}
use osc_riscv.Ring.{Ptr, init_list_head, list_del_init, list_first_entry}
use osc_riscv.Ring.Chain.{IsRing}
use osc_riscv.Ring.Add.{init_list_head-frame}
use osc_riscv.Ring.Del.{list_del_init-IsRing}
use osc_riscv.Ring.Walk.{list_empty-ring, list_first_entry-ring}
use osc_riscv.Ring.Each.{
  Sorted, Sorted-congr, insert_first, insert_first-Sorted, add_before-IsRing, list_for_each-find?,
  find?, add_before,
}
use osc_riscv.Irq.{
  IrqTask, Irq, enable_interrupt, disable_interrupt, irq_add_task, run_first, run_tasks,
  set_interrupt, clear_interrupt,
}

-- The queue at `head` holds the tasks `xs`, in the order of their priorities.
pub record IsTasks (head : Ptr) (s : Irq) (xs : List Ptr) : Type 0 where
  pub ring : IsRing s.links head xs
  pub sorted : Sorted (λ p. (s.task p).priority) xs

-- `irq_add_task` ends, puts the new task behind those of its own and of smaller priorities and before
-- the others, keeps the queue in the order of the priorities, and leaves the other tasks as they are.
pub irq_add_task-IsTasks :
    (head : Ptr) (s : Irq) (xs : List Ptr) (fuel task callback priority : ℕ)
    → IsTasks head s xs
    → task ∉ head ∷ xs
    → length xs < fuel
    → (s' : Irq) × (irq_add_task fuel head task callback priority s ≡ some s')
      × IsTasks head s'
          (insert_first (λ pos. ltb (s'.task task).priority (s'.task pos).priority) task xs)
      × (s'.task
          ≡ update s.task task (record { handler = callback; priority = priority; running = 0 }))
unfolding irq_add_task
irq_add_task-IsTasks head s xs fuel task callback priority q out h =
    let t : IrqTask = record { handler = callback; priority = priority; running = 0 } in
    let table = update s.task task t in
    let key = λ (p : Ptr). (table p).priority in
    let test = λ (p : Ptr). ltb (key task) (key p) in
    let ring = init_list_head-frame s.links task head xs out q.ring in
    let found = list_for_each-find? (init_list_head task s.links) test head fuel xs ring h in
    let same : (a : Ptr) → a ∈ xs → key a ≡ (s.task a).priority =
      λ a j. rw (==_false a task (ne_of_mem a task xs j (ground arith))) in
    (
      record s {
        task = table;
        links = add_before (find? test xs) task head (init_list_head task s.links);
      },
      rw (found, irq_add_task),
      record {
        ring = add_before-IsRing (init_list_head task s.links) test task head xs ring out;
        sorted =
            insert_first-Sorted key task xs
              (Sorted-congr (λ p. (s.task p).priority) key xs same q.sorted);
      },
      refl,
    )

-- The handlers of some tasks.
abbrev pub handlers : (Ptr → IrqTask) → List Ptr → List ℕ
handlers task xs = map (λ p. (task p).handler) xs

-- No task of the list is running.
abbrev pub Waiting : (Ptr → IrqTask) → List Ptr → Type 0
Waiting task xs = All (λ p. (task p).running ≡ 0) xs

-- All tasks of the queue `xs` have been run and freed.
pub record Drained (head : Ptr) (s : Irq) (xs : List Ptr) (s' : Irq) : Type 0 where
  pub ring : IsRing s'.links head []
  pub ran : s'.ran ≡ s.ran ++ handlers s.task xs
  pub freed : s'.freed ≡ s.freed ++ xs

module _ (task task' : Ptr → IrqTask) where
  pub Waiting-same :
      (xs : List Ptr) → ((p : Ptr) → p ∈ xs → task' p ≡ task p) → Waiting task xs → Waiting task' xs
  Waiting-same [] same w = tt
  Waiting-same (x ∷ xs) same w = (
    ap (λ t. t.running) (same x (ground arith)) ∙ w.0,
    Waiting-same xs (λ p j. same p (ground arith)) w.1,
  )

  handlers_same :
      (xs : List Ptr)
      → ((p : Ptr) → p ∈ xs → task' p ≡ task p)
      → handlers task' xs ≡ handlers task xs
  handlers_same [] same = refl
  handlers_same (x ∷ xs) same =
      rw (same x (ground arith), handlers_same xs (λ p j. same p (ground arith)))

-- What the handlers do, one after the other.
unfoldable pub calls : {W : Type 0} → (ℕ → W → Option W) → List ℕ → W → Option W
calls call [] w = some w
calls call (h ∷ hs) w = elim (call h w) [ none ↦ none | some w' ↦ calls call hs w' ]

some≢none : {A : Type 0} {a : A} → some a ≢ none
some≢none e = absurd (ground (arith, e))

-- The first task `x` has been run and freed.
record Ran (s : Irq) (x : Ptr) (s1 : Irq) : Type 0 where
  links : s1.links ≡ list_del_init x s.links
  table : s1.task ≡ update s.task x (record (s.task x) { running = 1 })
  ran : s1.ran ≡ s.ran ++ (s.task x).handler ∷ []
  freed : s1.freed ≡ s.freed ++ x ∷ []

run_first-Ran :
    {W : Type 0}
    → (call : ℕ → W → Option W) (head : Ptr) (s : Irq) (w w1 : W) (x : Ptr)
    → list_first_entry head s.links ≡ x
    → call (s.task x).handler w ≡ some w1
    → (s1 : Irq) × (run_first call head s w ≡ some (s1, w1)) × Ran s x s1
unfolding run_first enable_interrupt disable_interrupt
run_first-Ran call head s w w1 x first e =
    let on = set_interrupt (clear_interrupt (set_interrupt (clear_interrupt s.sstatus))) in
    let y = list_first_entry head s.links in
    let table = update s.task y (record (s.task y) { running = 1 }) in
    let same : (table y).handler ≡ (s.task y).handler = rw (==_refl y) refl in
    let e' : call (table y).handler w ≡ some w1 = rw same (rw first e) in
    (
      record {
        links = list_del_init y s.links;
        task = table;
        sstatus = on;
        ran = s.ran ++ (table y).handler ∷ [];
        freed = s.freed ++ y ∷ [];
      },
      rw (run_first, e') refl,
      record {
        links = ap (λ z. list_del_init z s.links) first;
        table = ap (λ z. update s.task z (record (s.task z) { running = 1 })) first;
        ran = ap (λ h. s.ran ++ h ∷ []) same ∙ ap (λ z. s.ran ++ (s.task z).handler ∷ []) first;
        freed = ap (λ z. s.freed ++ z ∷ []) first;
      },
    )

-- On a queue of which no task is running, and whose handlers end, the loop ends; it runs every task's
-- handler in the order of the queue, with what they do to the rest of the system, takes the tasks out
-- and frees them, and leaves the queue empty.
pub run_tasks-Drained :
    {W : Type 0}
    → (call : ℕ → W → Option W) (fuel : ℕ) (head : Ptr) (s : Irq) (w w' : W) (xs : List Ptr)
    → IsRing s.links head xs
    → Waiting s.task xs
    → length xs < fuel
    → calls call (handlers s.task xs) w ≡ some w'
    → (s' : Irq) × (run_tasks call fuel head s w ≡ some (s', w')) × Drained head s xs s'
unfolding run_tasks calls
run_tasks-Drained call zero head s v v' xs r w h c = absurd (omega arith)
run_tasks-Drained call (suc fuel) head s v v' [] r w h c = (
  s,
  rw (list_empty-ring s.links head [] r)
      (ap (λ o. elim o [ none ↦ none | some a ↦ some (s, a) ]) c),
  record { ring = r; ran = sym (append-nil s.ran); freed = sym (append-nil s.freed) },
)
run_tasks-Drained call (suc fuel) head s v v' (x ∷ xs) r w h c =
    let empty = list_empty-ring s.links head (x ∷ xs) r in
    let first = list_first_entry-ring s.links head x xs r in
    elim (Option-cases (call (s.task x).handler v)) [
      | inl e ↦ absurd (some≢none (sym (rw (calls, e) at c)))
      | inr (v1, e) ↦
          let f = run_first-Ran call head s v v1 x first e in
          let s1 = f.0 in
          let same : (p : Ptr) → p ∈ xs → s1.task p ≡ s.task p =
            λ p j. ap (λ t. t p) f.2.table ∙ rw (==_false p x (ne_of_mem p x xs j r.distinct.0)) in
          let rest : calls call (handlers s1.task xs) v1 ≡ some v' =
            rw (handlers_same s.task s1.task xs same) (rw (calls, e) at c) in
          let (s', done, d) =
            run_tasks-Drained call fuel head s1 v1 v' xs
              (rw f.2.links (list_del_init-IsRing s.links head x [] xs r))
              (Waiting-same s.task s1.task xs same w.1) (omega arith) rest in
          (
            s',
            rw (run_tasks, empty, first, w.0, f.1) done,
            record {
              ring = d.ring;
              ran =
                  d.ran
                  ∙ ap₂ (λ a b. a ++ b) f.2.ran (handlers_same s.task s1.task xs same)
                  ∙ append_assoc s.ran ((s.task x).handler ∷ []) (handlers s.task xs);
              freed = d.freed ∙ ap (λ t. t ++ xs) f.2.freed ∙ append_assoc s.freed (x ∷ []) xs;
            },
          )
    ]
