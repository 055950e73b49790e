-- ===== src/Timer.antt =====
-- src/timer.c. A `struct timer` is known by the address of its `list` member. The times of `rdtime`
-- are given: `clock n` is the n-th reading. Times and delays are not negative.
mod Examples
pub mod Expire
pub mod Queue
use Prim.Native.Nat.{bit_and, bit_or}
use osc_riscv.Base.{
  ℕ, zero, suc, ◌+◌, ◌-◌, ◌/◌, ◌%◌, ◌^◌, List, [], ◌∷◌, ◌++◌, Option, none, some, Option-cases, ltb,
  if◌then◌else◌, update,
}
use osc_riscv.Ring.{
  Ptr, Links, init_list_head, list_add_tail, list_del_init, list_empty, list_first_entry,
  list_for_each,
}
use osc_riscv.Ring.Each.{add_before}

abbrev pub time_freq : ℕ
time_freq = 4000000

pub record Timer : Type 0 where
  pub func : ℕ
  pub arg : ℕ
  pub time : ℕ

-- The timers in memory, the registers that the module writes, and what it does to the world:
-- `deadline` is the last argument of `sbi_set_timer`, `fired` the calls of callbacks in order, and
-- `freed` the arguments of `kfree`.
pub record Timers : Type 0 where
  pub links : Links
  pub timer : Ptr → Timer
  pub sie : ℕ
  pub deadline : ℕ
  pub fired : List (ℕ × ℕ)
  pub freed : List Ptr

unfoldable pub enable_timer_interrupt : Timers → Timers
enable_timer_interrupt s = record s { sie = bit_or s.sie (2 ^ 5) }

unfoldable pub disable_timer_interrupt : Timers → Timers
disable_timer_interrupt s = record s { sie = bit_and s.sie (2 ^ 64 - 1 - 2 ^ 5) }

-- `head` is `&timer_queue`.
unfoldable pub timer_init : (head : Ptr) → Timers → Timers
unfolding enable_timer_interrupt
timer_init head s =
    let s = record s { links = init_list_head head s.links } in
    let s = enable_timer_interrupt s in record s { deadline = time_freq }

unfoldable pub get_uptime : (ticks : ℕ) → ℕ
get_uptime ticks = ticks / time_freq

-- `timer` is what `kmalloc` returns, and `ticks` what `rdtime` reads.
unfoldable pub timer_add :
    (fuel : ℕ) (head timer ticks callback arg after : ℕ) → Timers → Option Timers
unfolding get_uptime
timer_add fuel head timer ticks callback arg after s =
    let t : Timer = record { func = callback; arg = arg; time = get_uptime ticks + after } in
    let s = record s { timer = update s.timer timer t; links = init_list_head timer s.links } in
    let found =
      list_for_each (λ pos. ltb (s.timer timer).time (s.timer pos).time) fuel head s.links in
    elim found [
      | none ↦ none
      | some place ↦ some (record s { links = add_before place timer head s.links })
    ]

-- `set_timeout`: the callback is `uart_puts`.
unfoldable pub set_timeout :
    (uart_puts fuel : ℕ) (head timer ticks message after : ℕ) → Timers → Option Timers
unfolding timer_add
set_timeout uart_puts fuel head timer ticks message after s =
    timer_add fuel head timer ticks uart_puts message after s

-- The first timer is run, taken out of the queue and freed.
unfoldable pub fire_first : (head : Ptr) → Timers → Timers
fire_first head s =
    let timer = list_first_entry head s.links in
    record s {
      fired = s.fired ++ ((s.timer timer).func, (s.timer timer).arg) ∷ [];
      links = list_del_init timer s.links;
      freed = s.freed ++ timer ∷ [];
    }

-- The loop of the handler; the round at hand reads `clock n`.
unfoldable pub expire_loop : ℕ → (clock : ℕ → ℕ) → (n : ℕ) → (head : Ptr) → Timers → Option Timers
unfolding get_uptime fire_first
expire_loop zero clock n head s = none
expire_loop (suc fuel) clock n head s =
    let timer = list_first_entry head s.links in
    let rest = expire_loop fuel clock (suc n) head (fire_first head s) in
    if list_empty head s.links
    then some s
    else if ltb (get_uptime (clock n)) (s.timer timer).time
    then some s
    else rest

unfoldable pub timer_irq_handler : ℕ → (clock : ℕ → ℕ) → (head : Ptr) → Timers → Option Timers
unfolding expire_loop enable_timer_interrupt
timer_irq_handler fuel clock head s =
    let s = record s { deadline = (clock 0 + time_freq / 32) % 2 ^ 64 } in
    elim (expire_loop fuel clock 1 head s) [
      | none ↦ none
      | some s' ↦ some (enable_timer_interrupt s')
    ]
