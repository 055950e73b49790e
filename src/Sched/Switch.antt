-- ===== src/Sched/Switch.antt =====
-- `schedule` and `switch_to`: which task runs next, and what becomes of the registers.
use osc_riscv.Base.{
  ℕ, zero, suc, ◌<◌, ◌≡◌, ◌≢◌, refl, sym, ◌∙◌, List, [], ◌∷◌, ◌++◌, arith, length, ==_refl,
  ==_false, get_elem?, some,
}
use mathlib.Core.List.{append_assoc}
use osc_riscv.Ring.{Ptr}
use osc_riscv.Ring.Chain.{IsRing}
use osc_riscv.Ring.Walk.{list_next_entry_circular-ring, first_or}
use osc_riscv.Sched.{
  Kernel, Cpu, ThreadStruct, ctx_load, ctx_store, save_context, load_saved, schedule, switch_to,
  get_current,
}

-- `schedule` goes on to the task behind the current one in the run queue, from the last to the first,
-- whatever the tasks' states; it leaves the queue and the page tables as they are.
pub schedule-next :
    (runqueue : Ptr) (k : Kernel) (current : Ptr) (xs ys : List Ptr)
    → IsRing k.links runqueue (xs ++ current ∷ ys)
    → get_current k ≡ current
    → (get_current (schedule runqueue k) ≡ first_or ys (first_or xs current))
      × ((schedule runqueue k).links ≡ k.links)
      × ((schedule runqueue k).word ≡ k.word)
unfolding schedule get_current
schedule-next runqueue k current xs ys r e =
    let next = list_next_entry_circular-ring k.links runqueue current xs ys r in
    (ground (arith, next, e), ground (arith, next, e), ground (arith, next, e))

-- What the loads read of the stores: each of the twelve registers from its own place.
save_context-load_saved :
    (cpu : Cpu) (t : ThreadStruct) (s : ℕ → ℕ) (i : ℕ)
    → i < 12
    → load_saved (save_context cpu t) s i ≡ cpu.s i
unfolding save_context load_saved ctx_store ctx_load
save_context-load_saved cpu t s zero lt = refl
save_context-load_saved cpu t s (suc zero) lt = refl
save_context-load_saved cpu t s (suc (suc zero)) lt = refl
save_context-load_saved cpu t s (suc (suc (suc zero))) lt = refl
save_context-load_saved cpu t s (suc (suc (suc (suc zero)))) lt = refl
save_context-load_saved cpu t s (suc (suc (suc (suc (suc zero))))) lt = refl
save_context-load_saved cpu t s (suc (suc (suc (suc (suc (suc zero)))))) lt = refl
save_context-load_saved cpu t s (suc (suc (suc (suc (suc (suc (suc zero))))))) lt = refl
save_context-load_saved cpu t s (suc (suc (suc (suc (suc (suc (suc (suc zero)))))))) lt = refl
save_context-load_saved cpu t s (suc (suc (suc (suc (suc (suc (suc (suc (suc zero))))))))) lt = refl
save_context-load_saved cpu t s (suc (suc (suc (suc (suc (suc (suc (suc (suc (suc zero))))))))))
      lt =
    refl
save_context-load_saved cpu t s
      (suc (suc (suc (suc (suc (suc (suc (suc (suc (suc (suc zero))))))))))) lt =
    refl
save_context-load_saved cpu t s
      (suc (suc (suc (suc (suc (suc (suc (suc (suc (suc (suc (suc i)))))))))))) lt =
    absurd (omega arith)

save_context-ra_sp :
    (cpu : Cpu) (t : ThreadStruct)
    → (ctx_load 0 (save_context cpu t) ≡ cpu.ra) × (ctx_load 8 (save_context cpu t) ≡ cpu.sp)
unfolding save_context ctx_store ctx_load
save_context-ra_sp cpu t = (refl, refl)

-- The registers `ra`, `sp` and `s0` to `s11` that `switch_to` saves of the task it leaves come back,
-- each in its place, when a later `switch_to` from another task goes on to this one, if nothing has
-- written the saved context. `tp` is then the task, and the first switch writes no other task's context.
pub switch_to-restores :
    (p n q : Ptr) (k k' : Kernel)
    → q ≢ p
    → (k'.task p).thread ≡ ((switch_to p n k).task p).thread
    → ((switch_to q p k').cpu.ra ≡ k.cpu.ra)
      × ((switch_to q p k').cpu.sp ≡ k.cpu.sp)
      × ((i : ℕ) → i < 12 → (switch_to q p k').cpu.s i ≡ k.cpu.s i)
      × ((switch_to q p k').cpu.tp ≡ p)
      × ((r : Ptr) → r ≢ p → (switch_to p n k).task r ≡ k.task r)
unfolding switch_to
switch_to-restores p n q k k' ne kept =
    let old = (k.task p).thread in
    let mine : (k'.task p).thread ≡ save_context k.cpu old = kept ∙ rw (==_refl p) in
    let ends = save_context-ra_sp k.cpu old in
    rw (==_false p q (λ e. ne (sym e)), mine)
      (
        ends.0,
        ends.1,
        λ i lt. save_context-load_saved k.cpu old k'.cpu.s i lt,
        refl,
        λ r ne'. rw (==_false r p ne') refl,
      )

-- `n` calls of `schedule`, one by each task that is switched to.
abbrev pub rounds : ℕ → Ptr → Kernel → Kernel
rounds zero runqueue k = k
rounds (suc n) runqueue k = rounds n runqueue (schedule runqueue k)

rounds-front :
    (runqueue : Ptr) (i : ℕ) (k : Kernel) (front : List Ptr) (x : Ptr) (xs : List Ptr) (y : Ptr)
    → IsRing k.links runqueue (front ++ x ∷ xs)
    → get_current k ≡ x
    → get_elem? (x ∷ xs) i ≡ some y
    → (get_current (rounds i runqueue k) ≡ y) × ((rounds i runqueue k).links ≡ k.links)
rounds-front runqueue zero k front x xs y r e at = (ground (arith, e), refl)
rounds-front runqueue (suc i) k front x [] y r e at = absurd (ground arith)
rounds-front runqueue (suc i) k front x (x' ∷ xs) y r e at =
    let (cur, same, _) = schedule-next runqueue k x front (x' ∷ xs) r e in
    let r' : IsRing (schedule runqueue k).links runqueue ((front ++ x ∷ []) ++ x' ∷ xs) =
      rw (same, append_assoc front (x ∷ []) (x' ∷ xs)) r in
    let (now, same') =
      rounds-front runqueue i (schedule runqueue k) (front ++ x ∷ []) x' xs y r' cur at in
    (now, same' ∙ same)

first_or-append : (front : List Ptr) (x y : Ptr) → first_or (front ++ x ∷ []) y ≡ first_or front x
first_or-append [] x y = refl
first_or-append (z ∷ front) x y = refl

rounds-wrap :
    (runqueue : Ptr) (k : Kernel) (front : List Ptr) (x : Ptr) (xs : List Ptr)
    → IsRing k.links runqueue (front ++ x ∷ xs)
    → get_current k ≡ x
    → get_current (rounds (length (x ∷ xs)) runqueue k) ≡ first_or front x
rounds-wrap runqueue k front x [] r e = (schedule-next runqueue k x front [] r e).0
rounds-wrap runqueue k front x (x' ∷ xs) r e =
    let (cur, same, _) = schedule-next runqueue k x front (x' ∷ xs) r e in
    let r' : IsRing (schedule runqueue k).links runqueue ((front ++ x ∷ []) ++ x' ∷ xs) =
      rw (same, append_assoc front (x ∷ []) (x' ∷ xs)) r in
    rounds-wrap runqueue (schedule runqueue k) (front ++ x ∷ []) x' xs r' cur
    ∙ first_or-append front x x'

-- The run queue is served round-robin: from its first task on, the i-th call of `schedule` goes on to
-- the i-th task, and one call more comes back to the first.
pub rounds-all :
    (runqueue : Ptr) (k : Kernel) (x : Ptr) (xs : List Ptr)
    → IsRing k.links runqueue (x ∷ xs)
    → get_current k ≡ x
    → ((i : ℕ) (y : Ptr) → get_elem? (x ∷ xs) i ≡ some y → get_current (rounds i runqueue k) ≡ y)
      × (get_current (rounds (length (x ∷ xs)) runqueue k) ≡ x)
rounds-all runqueue k x xs r e =
    (λ i y at. (rounds-front runqueue i k [] x xs y r e at).0, rounds-wrap runqueue k [] x xs r e)
