-- ===== src/Ring/Examples.antt =====
-- The theorems on the lists of include/list.h, applied to small lists.
use osc_riscv.Base.{refl, ◌∷◌, []}
use osc_riscv.Ring.{Links, init_list_head, list_add_tail, list_del_init}
use osc_riscv.Ring.Chain.{IsRing}
use osc_riscv.Ring.Add.{list_add_tail-IsRing, init_list_head-IsRing}
use osc_riscv.Ring.Del.{list_del_init-IsRing}

-- The list with head 1 that holds 2 and 3.
abbrev blank : Links
blank = init_list_head 1 (record { prev = λ p. 0; next = λ p. 0 })

abbrev one : Links
one = list_add_tail 2 1 blank

abbrev two : Links
two = list_add_tail 3 1 one

one-IsRing : IsRing one 1 (2 ∷ [])
one-IsRing =
    list_add_tail-IsRing blank 2 1 []
      (init_list_head-IsRing (record { prev = λ p. 0; next = λ p. 0 }) 1) refl

two-IsRing : IsRing two 1 (2 ∷ 3 ∷ [])
two-IsRing = list_add_tail-IsRing one 3 1 (2 ∷ []) one-IsRing refl

list_del_init-IsRing_example : IsRing (list_del_init 2 two) 1 (3 ∷ [])
list_del_init-IsRing_example = list_del_init-IsRing two 1 2 [] (3 ∷ []) two-IsRing
