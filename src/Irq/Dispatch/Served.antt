-- ===== src/Irq/Dispatch/Served.antt =====
-- The calls of `timer_irq_handler` of src/timer.c that src/irq.c makes from its queue.
use Prim.Native.Nat.{bit_and}
use osc_riscv.Base.{
  ℕ, zero, suc, ◌+◌, ◌/◌, ◌%◌, ◌^◌, ◌<◌, ◌≤◌, ◌≡◌, refl, sym, ap, ◌∙◌, inl, inr, Option, none, some,
  List, [], ◌∷◌, ◌++◌, All, length, arith, ltb, subst, Bool-cases, ==_refl,
}
use osc_riscv.Base.Bits.{and_or_self}
use osc_riscv.Ring.{Ptr, list_empty, list_first_entry}
use osc_riscv.Ring.Chain.{IsRing}
use osc_riscv.Timer.{
  Timers, time_freq, get_uptime, fire_first, expire_loop, timer_irq_handler, enable_timer_interrupt,
}
use osc_riscv.Timer.Expire.{expire_loop-Expired}
use osc_riscv.Irq.Tasks.{calls}
use osc_riscv.Irq.Dispatch.{call_handler}

-- The state in which a call leaves the timers: their interrupt is on, the next one is a 32nd of a second
-- behind the clock's first reading, and the ring of the timers that are left is no longer than before.
pub record Armed (clock : ℕ → ℕ) (queue : Ptr) (fuel : ℕ) (t : Timers) : Type 0 where
  pub on : bit_and t.sie (2 ^ 5) ≡ 2 ^ 5
  pub deadline : t.deadline ≡ (clock 0 + time_freq / 32) % 2 ^ 64
  pub left : List Ptr
  pub ring : IsRing t.links queue left
  pub few : length left < fuel

deadline_of : ℕ → Option Timers → ℕ
deadline_of d none = d
deadline_of d (some s) = s.deadline

fire_first-deadline : (head : Ptr) (s : Timers) → (fire_first head s).deadline ≡ s.deadline
unfolding fire_first
fire_first-deadline head s = refl

expire_loop-deadline :
    (fuel : ℕ) (clock : ℕ → ℕ) (n : ℕ) (head : Ptr) (s : Timers)
    → deadline_of s.deadline (expire_loop fuel clock n head s) ≡ s.deadline
unfolding expire_loop deadline_of
expire_loop-deadline zero clock n head s = refl
expire_loop-deadline (suc fuel) clock n head s =
    let rest = expire_loop-deadline fuel clock (suc n) head (fire_first head s) in
    let late = ltb (get_uptime (clock n)) (s.timer (list_first_entry head s.links)).time in
    elim (Bool-cases (list_empty head s.links)) [
      | inl e ↦ rw (expire_loop, e) refl
      | inr e ↦ elim (Bool-cases late) [
        | inl l ↦ rw (expire_loop, e, l) refl
        | inr l ↦ rw (expire_loop, e, l) (rw (fire_first-deadline head s) at rest)
      ]
    ]

length-append_le : (xs ys : List Ptr) → length ys ≤ length (xs ++ ys)
length-append_le [] ys = omega arith
length-append_le (x ∷ xs) ys = omega (arith, length-append_le xs ys)

pub timer_irq_handler-Armed :
    (fuel : ℕ) (clock : ℕ → ℕ) (queue : Ptr) (t : Timers) (xs : List Ptr)
    → IsRing t.links queue xs
    → length xs < fuel
    → (t' : Timers) × (timer_irq_handler fuel clock queue t ≡ some t') × Armed clock queue fuel t'
unfolding timer_irq_handler enable_timer_interrupt deadline_of
timer_irq_handler-Armed fuel clock queue t xs r few =
    let t1 : Timers = record t { deadline = (clock 0 + time_freq / 32) % 2 ^ 64 } in
    let (s', done, e) = expire_loop-Expired fuel clock 1 queue t1 xs r few in
    let kept : s'.deadline ≡ t1.deadline =
      sym (ap (deadline_of t1.deadline) done) ∙ expire_loop-deadline fuel clock 1 queue t1 in
    let less = length-append_le e.front e.back in
    (
      enable_timer_interrupt s',
      rw (timer_irq_handler, done) refl,
      record {
        on = and_or_self s'.sie (2 ^ 5);
        deadline = kept;
        left = e.back;
        ring = e.ring;
        few = omega (arith, less, ap length e.whole, few);
      },
    )

-- One call or more: each ends, and the last of them, the call `c + length hs`, has left the timers.
pub calls-Armed :
    (fuel : ℕ) (head runqueue task queue : Ptr) (handler : ℕ) (clock : ℕ → ℕ → ℕ) (str : ℕ → List ℕ)
    (h : ℕ) (hs : List ℕ) (c : ℕ) (t : Timers) (xs : List Ptr)
    → All (λ x. x ≡ handler) (h ∷ hs)
    → IsRing t.links queue xs
    → length xs < fuel
    → (t' : Timers) × (calls
          (call_handler fuel head runqueue task queue handler clock str)
          (h ∷ hs)
          (c, t)
        ≡ some (c + suc (length hs), t'))
      × Armed (clock (c + length hs)) queue fuel t'
unfolding calls call_handler
calls-Armed fuel head runqueue task queue handler clock str h [] c t xs same r few =
    let (t1, done, a) = timer_irq_handler-Armed fuel (clock c) queue t xs r few in
    let last : c + 0 ≡ c = omega arith in
    (
      t1,
      rw (calls, call_handler, same.0, ==_refl handler, done) refl,
      subst (λ i. Armed (clock i) queue fuel t1) (sym last) a,
    )
calls-Armed fuel head runqueue task queue handler clock str h (h' ∷ hs) c t xs same r few =
    let (t1, done, a) = timer_irq_handler-Armed fuel (clock c) queue t xs r few in
    let (t2, rest, b) =
      calls-Armed fuel head runqueue task queue handler clock str h' hs (c + 1) t1 a.left same.1
        a.ring a.few in
    let last : c + 1 + length hs ≡ c + suc (length hs) = omega arith in
    let count : c + 1 + suc (length hs) ≡ c + suc (suc (length hs)) = omega arith in
    (
      t2,
      rw (calls, call_handler, same.0, ==_refl handler, done) (rest ∙ ap (λ n. some (n, t2)) count),
      subst (λ i. Armed (clock i) queue fuel t2) last b,
    )
