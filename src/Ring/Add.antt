-- ===== src/Ring/Add.antt =====
-- Insertion into the lists of include/list.h.
use osc_riscv.Base.{
  ne_of_mem, not-mem-append_left, Distinct-parts, Distinct-apart, Distinct-insert, Distinct-delete,
  ◌≢◌, List, [], ◌∷◌, ◌++◌, Distinct, ◌∉◌, ◌∈◌, arith, has-append,
}
use mathlib.Core.List.{append_assoc, append-nil}
use osc_riscv.Ring.{Ptr, Links, list_add, list_add_tail, init_list_head}
use osc_riscv.Ring.Chain.{
  Chain, IsRing, IsRing-frame, SameOutside, next-mem, prev-mem, Chain-frame, Chain-append,
  Chain-split,
}

-- The end of a chain with a node put in front of it: only the words named change.
Chain-list_add_tail :
    (m : Links) (node p q : Ptr) (xs : List Ptr)
    → Chain m p xs q
    → node ∉ p ∷ xs
    → node ≢ q
    → q ∉ xs
    → p ∉ xs
    → Distinct xs
    → Chain (list_add_tail node q m) p (xs ++ node ∷ []) q
unfolding list_add_tail
Chain-list_add_tail m node p q [] c out ne qx px d = ground arith
Chain-list_add_tail m node p q (x ∷ xs) c out ne qx px d = (
  ground (arith, prev-mem m x q xs c.2),
  ground arith,
  Chain-list_add_tail m node x q xs c.2 (ground arith) ne (ground arith) d.0 d.1,
)

module _ (m : Links) (node head : Ptr) where
  pub Chain-list_add_tail_rest :
      (pos : Ptr) (xs ys : List Ptr)
      → Chain m head xs pos
      → Chain m pos ys head
      → head ∉ xs ++ pos ∷ ys
      → Distinct (xs ++ pos ∷ ys)
      → node ∉ head ∷ xs ++ pos ∷ ys
      → Chain (list_add_tail node pos m) pos ys head
  unfolding list_add_tail
  Chain-list_add_tail_rest pos xs ys c e hx d out =
      let behind : Distinct (pos ∷ ys) = (Distinct-parts xs (pos ∷ ys) d).1 in
      Chain-frame m (list_add_tail node pos m) pos head ys
        (λ a i. ground (
          arith,
          prev-mem m head pos xs c,
          Distinct-apart xs (pos ∷ ys) d (m.prev pos),
          has-append node xs (pos ∷ ys),
          has-append head xs (pos ∷ ys),
        ))
        (λ a i. ground (arith, has-append node xs (pos ∷ ys), has-append head xs (pos ∷ ys))) e

  -- `list_add_tail` with an entry of the list for its second argument puts the node before it.
  pub list_add_tail_before :
      (pos : Ptr) (xs ys : List Ptr)
      → IsRing m head (xs ++ pos ∷ ys)
      → node ∉ head ∷ xs ++ pos ∷ ys
      → IsRing (list_add_tail node pos m) head (xs ++ node ∷ pos ∷ ys)
  list_add_tail_before pos xs ys r out = record {
    chain =
        let parts = Chain-split m head pos head xs ys r.chain in
        rw (← append_assoc xs (node ∷ []) (pos ∷ ys)) (
          Chain-append (list_add_tail node pos m) head pos head (xs ++ node ∷ []) ys
            (Chain-list_add_tail m node head pos xs parts.0
              (ground (arith, has-append node xs (pos ∷ ys)))
              (ground (arith, has-append node xs (pos ∷ ys)))
              (not-mem-append_left pos xs ys (Distinct-delete pos xs ys r.distinct).1)
              (ground (arith, has-append head xs (pos ∷ ys)))
              (Distinct-parts xs (pos ∷ ys) r.distinct).0)
            (Chain-list_add_tail_rest pos xs ys parts.0 parts.1 r.head_out r.distinct out));
    head_out = ground (arith, has-append head xs (pos ∷ ys), has-append head xs (node ∷ pos ∷ ys));
    distinct = Distinct-insert node xs (pos ∷ ys) r.distinct (ground arith);
  }

  -- `list_add_tail` with the head puts the node at the end.
  pub list_add_tail-IsRing :
      (xs : List Ptr)
      → IsRing m head xs
      → node ∉ head ∷ xs
      → IsRing (list_add_tail node head m) head (xs ++ node ∷ [])
  list_add_tail-IsRing xs r out = record {
    chain =
        Chain-list_add_tail m node head head xs r.chain out (ground arith) r.head_out r.head_out
          r.distinct;
    head_out = ground (arith, has-append head xs (node ∷ []));
    distinct = Distinct-insert node xs [] (rw append-nil r.distinct) (rw append-nil (ground arith));
  }

  Chain-list_add :
      (xs : List Ptr)
      → Chain m head xs head
      → node ∉ head ∷ xs
      → head ∉ xs
      → Distinct xs
      → Chain (list_add node head m) head (node ∷ xs) head
  unfolding list_add
  Chain-list_add [] c out hx d = ground arith
  Chain-list_add (x ∷ xs) c out hx d = (
    ground arith,
    ground arith,
    (
      ground arith,
      ground arith,
      Chain-frame m (list_add node head m) x head xs (λ a i. ground arith) (λ a i. ground arith)
          c.2,
    ),
  )

  -- `list_add` puts the node at the front.
  pub list_add-IsRing :
      (xs : List Ptr)
      → IsRing m head xs
      → node ∉ head ∷ xs
      → IsRing (list_add node head m) head (node ∷ xs)
  list_add-IsRing xs r out = record {
    chain = Chain-list_add xs r.chain out r.head_out r.distinct;
    head_out = ground arith;
    distinct = (ground arith, r.distinct);
  }

  pub list_add-SameOutside :
      (xs : List Ptr) → IsRing m head xs → SameOutside (head ∷ node ∷ xs) m (list_add node head m)
  unfolding list_add
  list_add-SameOutside xs r a out =
      ground (arith, next-mem m head head xs r.chain, has-append (m.next head) xs (head ∷ []))

  pub list_add_tail-SameOutside :
      (xs : List Ptr)
      → IsRing m head xs
      → SameOutside (head ∷ node ∷ xs) m (list_add_tail node head m)
  unfolding list_add_tail
  list_add_tail-SameOutside xs r a out = ground (arith, prev-mem m head head xs r.chain)

-- An initialised head is an empty list.
pub init_list_head-IsRing : (m : Links) (head : Ptr) → IsRing (init_list_head head m) head []
unfolding init_list_head
init_list_head-IsRing m head = ground arith

init_list_head-SameOutside :
    (m : Links) (node : Ptr) → SameOutside (node ∷ []) m (init_list_head node m)
unfolding init_list_head
init_list_head-SameOutside m node a out = ground arith

pub init_list_head-frame :
    (m : Links) (node head : Ptr) (xs : List Ptr)
    → node ∉ head ∷ xs
    → IsRing m head xs
    → IsRing (init_list_head node m) head xs
init_list_head-frame m node head xs out r =
    IsRing-frame m (init_list_head node m) head xs (node ∷ []) (init_list_head-SameOutside m node)
      (λ a j. apart a j) r
  where
    apart : (a : Ptr) → a ∈ head ∷ xs → a ∉ node ∷ []
    apart a j = ground (arith, ne_of_mem a node (head ∷ xs) j out)
