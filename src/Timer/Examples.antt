-- ===== src/Timer/Examples.antt =====
-- The theorems on src/timer.c, applied to a queue of one timer.
use osc_riscv.Base.{◌≡◌, refl, [], ◌∷◌, some, ◌+◌, ◌*◌, arith, ltb, update}
use osc_riscv.Ring.{init_list_head, list_add_tail}
use osc_riscv.Ring.Chain.{IsRing}
use osc_riscv.Ring.Add.{init_list_head-IsRing, list_add_tail-IsRing}
use osc_riscv.Ring.Each.{insert_first}
use osc_riscv.Timer.{Timers, timer_add, expire_loop, get_uptime}
use osc_riscv.Timer.Queue.{IsQueue, timer_add-IsQueue}
use osc_riscv.Timer.Expire.{Expired, expire_loop-Expired}

-- The queue at 1 holds the timer at 2, which is due at 5 seconds.
abbrev waiting : Timers
waiting = record {
  links = list_add_tail 2 1 (init_list_head 1 (record { prev = λ p. 0; next = λ p. 0 }));
  timer = λ p. record { func = 7; arg = 8; time = 5 };
  sie = 0;
  deadline = 0;
  fired = [];
  freed = [];
}

waiting-IsRing : IsRing waiting.links 1 (2 ∷ [])
waiting-IsRing =
    list_add_tail-IsRing (init_list_head 1 (record { prev = λ p. 0; next = λ p. 0 })) 2 1 []
      (init_list_head-IsRing (record { prev = λ p. 0; next = λ p. 0 }) 1) refl

timer_add-IsQueue_example :
    (s' : Timers) × (timer_add 2 1 3 (2 * 4000000) 9 10 1 waiting ≡ some s')
    × IsQueue 1 s' (insert_first (λ p. ltb (s'.timer 3).time (s'.timer p).time) 3 (2 ∷ []))
    × (s'.timer
        ≡ update waiting.timer 3
            (record { func = 9; arg = 10; time = get_uptime (2 * 4000000) + 1 }))
timer_add-IsQueue_example =
    timer_add-IsQueue 1 waiting (2 ∷ []) 2 3 (2 * 4000000) 9 10 1
      (record { ring = waiting-IsRing; sorted = (tt, tt) }) refl (omega arith)

expire_loop-Expired_example :
    (s' : Timers) × (expire_loop 2 (λ n. 24000000) 1 1 waiting ≡ some s')
    × Expired (λ n. 24000000) 1 1 waiting (2 ∷ []) s'
expire_loop-Expired_example =
    expire_loop-Expired 2 (λ n. 24000000) 1 1 waiting (2 ∷ []) waiting-IsRing (omega arith)
