-- ===== src/Timer/Queue.antt =====
-- The queue of src/timer.c keeps its timers in the order of their times.
use osc_riscv.Base.{
  ℕ, ◌+◌, ◌<◌, ◌≡◌, refl, List, ◌∷◌, ◌∈◌, ◌∉◌, some, arith, length, ltb, update, ==_false,
  ne_of_mem,
}
use osc_riscv.Ring.{Ptr, init_list_head}
use osc_riscv.Ring.Chain.{IsRing}
use osc_riscv.Ring.Add.{init_list_head-frame}
use osc_riscv.Ring.Each.{
  Sorted, Sorted-congr, insert_first, insert_first-Sorted, add_before-IsRing, list_for_each-find?,
  find?, add_before,
}
use osc_riscv.Timer.{Timer, Timers, timer_add, get_uptime}

-- The queue at `head` holds the timers `xs`, in the order of their times.
pub record IsQueue (head : Ptr) (s : Timers) (xs : List Ptr) : Type 0 where
  pub ring : IsRing s.links head xs
  pub sorted : Sorted (λ p. (s.timer p).time) xs

abbrev new_timer : ℕ → ℕ → ℕ → ℕ → Timer
new_timer ticks callback arg after = record {
  func = callback;
  arg = arg;
  time = get_uptime ticks + after;
}

-- `timer_add` ends, puts the new timer behind those that expire no later than it and before the
-- others, and keeps the queue in the order of the times; the other timers are left as they are.
pub timer_add-IsQueue :
    (head : Ptr) (s : Timers) (xs : List Ptr) (fuel timer ticks callback arg after : ℕ)
    → IsQueue head s xs
    → timer ∉ head ∷ xs
    → length xs < fuel
    → let t = new_timer ticks callback arg after in
      (s' : Timers) × (timer_add fuel head timer ticks callback arg after s ≡ some s')
      × IsQueue head s'
          (insert_first (λ pos. ltb (s'.timer timer).time (s'.timer pos).time) timer xs)
      × (s'.timer ≡ update s.timer timer t)
unfolding timer_add
timer_add-IsQueue head s xs fuel timer ticks callback arg after q out h =
    let t = new_timer ticks callback arg after in
    let table = update s.timer timer t in
    let key = λ (p : Ptr). (table p).time in
    let test = λ (p : Ptr). ltb (key timer) (key p) in
    let ring = init_list_head-frame s.links timer head xs out q.ring in
    let found = list_for_each-find? (init_list_head timer s.links) test head fuel xs ring h in
    let same : (a : Ptr) → a ∈ xs → key a ≡ (s.timer a).time =
      λ a j. rw (==_false a timer (ne_of_mem a timer xs j (ground arith))) in
    (
      record s {
        timer = table;
        links = add_before (find? test xs) timer head (init_list_head timer s.links);
      },
      rw (found, timer_add),
      record {
        ring = add_before-IsRing (init_list_head timer s.links) test timer head xs ring out;
        sorted =
            insert_first-Sorted key timer xs
              (Sorted-congr (λ p. (s.timer p).time) key xs same q.sorted);
      },
      refl,
    )
