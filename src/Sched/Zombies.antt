-- ===== src/Sched/Zombies.antt =====
-- `kill_zombies` of src/sched.c.
use osc_riscv.Base.{
  ℕ, zero, suc, ◌<◌, ◌≡◌, refl, List, [], ◌∷◌, ◌++◌, arith, length, ◌==◌, if◌then◌else◌, Bool-cases,
  inl, inr, false, some, has-append,
}
use mathlib.Core.List.{append_assoc}
use osc_riscv.Ring.{Ptr, list_del_init, each_safe_loop, list_for_each_safe}
use osc_riscv.Ring.Chain.{IsRing}
use osc_riscv.Ring.Del.{list_del_init-IsRing}
use osc_riscv.Ring.Walk.{first_or, next-first_or}
use osc_riscv.Sched.{Kernel, TaskStruct, is_zombie, kill_zombies}

-- The entries of a queue whose tasks are not zombies.
unfoldable pub survivors : (Ptr → TaskStruct) → List Ptr → List Ptr
unfolding is_zombie
survivors task [] = []
survivors task (x ∷ xs) =
    if is_zombie (task x).state then survivors task xs else x ∷ survivors task xs

-- The body of the loop.
abbrev reap : Ptr → Kernel → Kernel
reap pos k =
    if is_zombie (k.task pos).state then record k { links = list_del_init pos k.links } else k

reap_loop :
    (fuel : ℕ) (runqueue : Ptr) (done rest : List Ptr) (k : Kernel)
    → IsRing k.links runqueue (done ++ rest)
    → length rest < fuel
    → let pos = first_or rest runqueue in
      (k' : Kernel) × (each_safe_loop
          (λ (k : Kernel). k.links)
          reap
          fuel
          pos
          (k.links.next pos)
          runqueue
          k
        ≡ some k')
      × IsRing k'.links runqueue (done ++ survivors k.task rest)
      × (k'.task ≡ k.task)
      × (k'.cpu ≡ k.cpu)
unfolding each_safe_loop survivors
reap_loop zero runqueue done rest k r h = absurd (omega arith)
reap_loop (suc fuel) runqueue done [] k r h = (k, ground arith, r, refl, refl)
reap_loop (suc fuel) runqueue done (x ∷ xs) k r h =
    let going : (x == runqueue) ≡ false =
      ground (arith, r.head_out, has-append runqueue done (x ∷ xs)) in
    let next = next-first_or k.links runqueue done x xs r in
    elim (Bool-cases (is_zombie (k.task x).state)) [
      | inl dead ↦
          rw (going, dead, next)
            (reap_loop fuel runqueue done xs (record k { links = list_del_init x k.links })
              (list_del_init-IsRing k.links runqueue x done xs r) (omega arith))
      | inr alive ↦
          let (k', ended, ring, task, cpu) =
            reap_loop fuel runqueue (done ++ x ∷ []) xs k (rw (append_assoc done (x ∷ []) xs) r)
              (omega arith) in
          rw (going, alive, next)
            (k', ended, rw (append_assoc done (x ∷ []) (survivors k.task xs)) at ring, task, cpu)
    ]

-- `kill_zombies` ends. It takes the zombies out of the run queue, keeps the others in their order, and
-- changes no task and no register.
pub kill_zombies-survivors :
    (fuel : ℕ) (runqueue : Ptr) (xs : List Ptr) (k : Kernel)
    → IsRing k.links runqueue xs
    → length xs < fuel
    → (k' : Kernel) × (kill_zombies fuel runqueue k ≡ some k')
      × IsRing k'.links runqueue (survivors k.task xs)
      × (k'.task ≡ k.task)
      × (k'.cpu ≡ k.cpu)
unfolding kill_zombies list_for_each_safe
kill_zombies-survivors fuel runqueue [] k r h = rw r.chain.0 (reap_loop fuel runqueue [] [] k r h)
kill_zombies-survivors fuel runqueue (x ∷ xs) k r h =
    rw r.chain.0 (reap_loop fuel runqueue [] (x ∷ xs) k r h)
