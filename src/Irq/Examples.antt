-- ===== src/Irq/Examples.antt =====
-- The theorems on src/irq.c, applied to a queue of one task.
use osc_riscv.Base.{refl, [], ◌∷◌}
use osc_riscv.Ring.{init_list_head, list_add_tail}
use osc_riscv.Ring.Chain.{IsRing}
use osc_riscv.Ring.Add.{init_list_head-IsRing, list_add_tail-IsRing}
use osc_riscv.Irq.{Irq}

-- The queue at 1 holds the task at 2.
abbrev queued : Irq
queued = record {
  links = list_add_tail 2 1 (init_list_head 1 (record { prev = λ p. 0; next = λ p. 0 }));
  task = λ p. record { handler = 7; priority = 1; running = 0 };
  sstatus = 2;
  ran = [];
  freed = [];
}

queued-IsRing : IsRing queued.links 1 (2 ∷ [])
queued-IsRing =
    list_add_tail-IsRing (init_list_head 1 (record { prev = λ p. 0; next = λ p. 0 })) 2 1 []
      (init_list_head-IsRing (record { prev = λ p. 0; next = λ p. 0 }) 1) refl
