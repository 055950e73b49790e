-- ===== src/Ring/Walk.antt =====
-- Reading the lists of include/list.h: the tests, the entries, the count.
use osc_riscv.Base.{
  Bool, ℕ, zero, suc, ◌+◌, ◌<◌, ◌≡◌, List, [], ◌∷◌, ◌++◌, ◌∉◌, arith, true, false, has-append, some,
  length,
}
use osc_riscv.Ring.{
  Ptr, Links, list_empty, list_first_entry, list_next_entry_circular, count_nodes_loop,
  list_count_nodes,
}
use osc_riscv.Ring.Chain.{Chain, IsRing, Chain-split}

-- The first of a list's entries, or the given one of an empty list.
abbrev pub first_or : List Ptr → Ptr → Ptr
first_or [] p = p
first_or (x ∷ xs) p = x

abbrev pub null? : List Ptr → Bool
null? [] = true
null? (x ∷ xs) = false

module _ (m : Links) (head : Ptr) where
  -- `list_empty` tells whether the list has no entry.
  pub list_empty-ring : (xs : List Ptr) → IsRing m head xs → list_empty head m ≡ null? xs
  unfolding list_empty
  list_empty-ring [] r = ground (arith, r.chain)
  list_empty-ring (x ∷ xs) r = ground (arith, r.chain, r.head_out)

  pub list_first_entry-ring :
      (x : Ptr) (xs : List Ptr) → IsRing m head (x ∷ xs) → list_first_entry head m ≡ x
  unfolding list_first_entry
  list_first_entry-ring x xs r = r.chain.0

  -- `list_next_entry_circular` steps to the entry behind, and from the last to the first.
  pub list_next_entry_circular-ring :
      (pos : Ptr) (xs ys : List Ptr)
      → IsRing m head (xs ++ pos ∷ ys)
      → list_next_entry_circular pos head m ≡ first_or ys (first_or xs pos)
  unfolding list_next_entry_circular
  list_next_entry_circular-ring pos [] [] r = ground (arith, r.chain)
  list_next_entry_circular-ring pos (x ∷ xs) [] r =
      ground (arith, r.chain, Chain-split m head pos head (x ∷ xs) [] r.chain)
  list_next_entry_circular-ring pos xs (y ∷ ys) r = ground (
    arith,
    Chain-split m head pos head xs (y ∷ ys) r.chain,
    r.head_out,
    has-append head xs (pos ∷ y ∷ ys),
  )

  count_nodes_loop-ring :
      (fuel p count : ℕ) (xs : List Ptr)
      → Chain m p xs head
      → head ∉ xs
      → length xs < fuel
      → count_nodes_loop fuel (m.next p) head count m ≡ some (count + length xs)
  unfolding count_nodes_loop
  count_nodes_loop-ring zero p count xs c out h = absurd (omega arith)
  count_nodes_loop-ring (suc fuel) p count [] c out h = ground arith
  count_nodes_loop-ring (suc fuel) p count (x ∷ xs) c out h =
      ground (arith, count_nodes_loop-ring fuel x (count + 1) xs)

  -- `list_count_nodes` ends, and returns the number of entries.
  pub list_count_nodes-length :
      (fuel : ℕ) (xs : List Ptr)
      → IsRing m head xs
      → length xs < fuel
      → list_count_nodes fuel head m ≡ some (length xs)
  unfolding list_count_nodes
  list_count_nodes-length fuel xs r h =
      ground (arith, count_nodes_loop-ring fuel head 0 xs r.chain r.head_out h)

-- The entry behind one of a list, or the head.
pub next-first_or :
    (m : Links) (head : Ptr) (done : List Ptr) (x : Ptr) (xs : List Ptr)
    → IsRing m head (done ++ x ∷ xs)
    → m.next x ≡ first_or xs head
next-first_or m head done x [] r = (Chain-split m head x head done [] r.chain).1.0
next-first_or m head done x (y ∷ ys) r = (Chain-split m head x head done (y ∷ ys) r.chain).1.0
