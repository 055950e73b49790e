-- ===== src/Timer/Expire.antt =====
-- The handler of src/timer.c runs the timers that are due.
use osc_riscv.Base.{
  ℕ, zero, suc, ◌<◌, ◌≤◌, ◌≡◌, refl, ap, sym, ◌∙◌, List, [], ◌∷◌, ◌++◌, map, some, arith, length,
  ltb, Bool-cases, inl, inr,
}
use mathlib.Core.List.{append_assoc, append-nil}
use osc_riscv.Ring.{Ptr, list_del_init}
use osc_riscv.Ring.Chain.{IsRing}
use osc_riscv.Ring.Del.{list_del_init-IsRing}
use osc_riscv.Ring.Walk.{list_empty-ring, list_first_entry-ring}
use osc_riscv.Timer.{Timer, Timers, get_uptime, expire_loop}

-- From the reading `n` on, each timer of `front` is due at the reading of its round, and the first of
-- `back`, if any, is not due at its own.
abbrev pub Runs : (ℕ → ℕ) → (Ptr → Timer) → ℕ → (front back : List Ptr) → Type 0
Runs clock timer n [] [] = Unit
Runs clock timer n [] (x ∷ back) = get_uptime (clock n) < (timer x).time
Runs clock timer n (x ∷ front) back =
    ((timer x).time ≤ get_uptime (clock n)) × Runs clock timer (suc n) front back

-- The calls of some timers.
abbrev pub calls : (Ptr → Timer) → List Ptr → List (ℕ × ℕ)
calls timer xs = map (λ p. ((timer p).func, (timer p).arg)) xs

-- The outcome of the loop on the queue `xs`.
pub record Expired (clock : ℕ → ℕ) (n : ℕ) (head : Ptr) (s : Timers) (xs : List Ptr) (s' : Timers)
    : Type 0 where
  pub front : List Ptr
  pub back : List Ptr
  pub whole : xs ≡ front ++ back
  pub runs : Runs clock s.timer n front back
  pub ring : IsRing s'.links head back
  pub timer : s'.timer ≡ s.timer
  pub fired : s'.fired ≡ s.fired ++ calls s.timer front
  pub freed : s'.freed ≡ s.freed ++ front

abbrev fired_state : Timers → Ptr → Timers
fired_state s x = record s {
  fired = s.fired ++ ((s.timer x).func, (s.timer x).arg) ∷ [];
  links = list_del_init x s.links;
  freed = s.freed ++ x ∷ [];
}

-- The loop ends. It calls, takes out and frees the timers at the front of the queue that are due when
-- it reads the clock for them, in order, and stops at the first that is not.
pub expire_loop-Expired :
    (fuel : ℕ) (clock : ℕ → ℕ) (n : ℕ) (head : Ptr) (s : Timers) (xs : List Ptr)
    → IsRing s.links head xs
    → length xs < fuel
    → (s' : Timers) × (expire_loop fuel clock n head s ≡ some s') × Expired clock n head s xs s'
unfolding expire_loop
expire_loop-Expired zero clock n head s xs r h = absurd (omega arith)
expire_loop-Expired (suc fuel) clock n head s [] r h =
    let empty = list_empty-ring s.links head [] r in
    (
      s,
      rw empty,
      record {
        front = [];
        back = [];
        whole = refl;
        runs = tt;
        ring = r;
        timer = refl;
        fired = sym (append-nil s.fired);
        freed = sym (append-nil s.freed);
      },
    )
expire_loop-Expired (suc fuel) clock n head s (x ∷ xs) r h =
    let empty = list_empty-ring s.links head (x ∷ xs) r in
    let first = list_first_entry-ring s.links head x xs r in
    elim (Bool-cases (ltb (get_uptime (clock n)) (s.timer x).time)) [
      | inl later ↦ (
        s,
        rw (empty, first, later),
        record {
          front = [];
          back = x ∷ xs;
          whole = refl;
          runs = ground arith;
          ring = r;
          timer = refl;
          fired = sym (append-nil s.fired);
          freed = sym (append-nil s.freed);
        },
      )
      | inr due ↦
          let s1 = fired_state s x in
          let (s', done, e) =
            expire_loop-Expired fuel clock (suc n) head s1 xs
              (list_del_init-IsRing s.links head x [] xs r) (omega arith) in
          (
            s',
            rw (empty, first, due) done,
            record {
              front = x ∷ e.front;
              back = e.back;
              whole = ap (λ t. x ∷ t) e.whole;
              runs = (ground arith, e.runs);
              ring = e.ring;
              timer = e.timer;
              fired =
                  e.fired ∙ append_assoc s.fired (calls s.timer (x ∷ [])) (calls s.timer e.front);
              freed = e.freed ∙ append_assoc s.freed (x ∷ []) e.front;
            },
          )
    ]
