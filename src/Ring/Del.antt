-- ===== src/Ring/Del.antt =====
-- Removal from the lists of include/list.h.
use osc_riscv.Base.{◌≡◌, List, [], ◌∷◌, ◌++◌, Distinct, ◌∉◌, arith, has-append, Distinct-delete}
use osc_riscv.Ring.{Ptr, Links, list_del_init}
use osc_riscv.Ring.Chain.{Chain, IsRing, SameOutside, prev-mem, next-mem, Chain-frame, Chain-split}

module _ (m : Links) (e : Ptr) where
  Chain-list_del_init_front :
      (p q : Ptr) (ys : List Ptr)
      → m.next p ≡ e
      → m.prev e ≡ p
      → Chain m e ys q
      → p ∉ e ∷ ys
      → q ∉ e ∷ ys
      → Distinct (e ∷ ys)
      → Chain (list_del_init e m) p ys q
  unfolding list_del_init
  Chain-list_del_init_front p q [] n v c po qo d = ground arith
  Chain-list_del_init_front p q (y ∷ ys) n v c po qo d = (
    ground arith,
    ground arith,
    Chain-frame m (list_del_init e m) y q ys (λ a i. ground arith) (λ a i. ground arith) c.2,
  )

  pub Chain-list_del_init :
      (p q : Ptr) (xs ys : List Ptr)
      → Chain m p xs e
      → Chain m e ys q
      → p ∉ xs ++ e ∷ ys
      → q ∉ xs ++ e ∷ ys
      → Distinct (xs ++ e ∷ ys)
      → Chain (list_del_init e m) p (xs ++ ys) q
  Chain-list_del_init p q [] ys c c' po qo d = Chain-list_del_init_front p q ys c.0 c.1 c' po qo d
  Chain-list_del_init p q (x ∷ xs) ys c c' po qo d =
      let back = prev-mem m x e xs c.2 in
      let ahead = next-mem m e q ys c' in
      (
        unfold list_del_init in ground (arith, has-append p xs (e ∷ ys), back),
        unfold list_del_init in
            ground (
              arith,
              has-append x xs (e ∷ ys),
              has-append q xs (e ∷ ys),
              ahead,
              has-append x ys (q ∷ []),
              back,
            ),
        Chain-list_del_init x q xs ys c.2 c' d.0 (ground arith) d.1,
      )

module _ (m : Links) (head e : Ptr) (xs ys : List Ptr) (r : IsRing m head (xs ++ e ∷ ys)) where
  -- `list_del_init` takes the entry out and keeps the others in order.
  pub list_del_init-IsRing : IsRing (list_del_init e m) head (xs ++ ys)
  list_del_init-IsRing =
      let parts = Chain-split m head e head xs ys r.chain in
      record {
        chain =
            Chain-list_del_init m e head head xs ys parts.0 parts.1 r.head_out r.head_out
              r.distinct;
        head_out = ground (arith, has-append head xs ys, has-append head xs (e ∷ ys), r.head_out);
        distinct = (Distinct-delete e xs ys r.distinct).0;
      }

  -- The entry is left an empty list of its own.
  pub list_del_init_self : IsRing (list_del_init e m) e []
  unfolding list_del_init
  list_del_init_self = ground arith

  pub list_del_init-SameOutside : SameOutside (head ∷ xs ++ e ∷ ys) m (list_del_init e m)
  unfolding list_del_init
  list_del_init-SameOutside a out =
      let parts = Chain-split m head e head xs ys r.chain in
      ground (
        arith,
        prev-mem m head e xs parts.0,
        next-mem m e head ys parts.1,
        has-append a xs (e ∷ ys),
        has-append (m.prev e) xs (e ∷ ys),
        has-append (m.next e) xs (e ∷ ys),
        has-append (m.next e) ys (head ∷ []),
      )
