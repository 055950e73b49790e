-- ===== src/Ring/Chain.antt =====
-- What a list of include/list.h stands for: the nodes that `next` and `prev` lead through.
use osc_riscv.Base.{◌≡◌, List, [], ◌∷◌, ◌++◌, Distinct, ◌∉◌, ◌∈◌, arith}
use osc_riscv.Ring.{Ptr, Links}

-- From `p` the `next` words lead through `xs` to `q`, and the `prev` words lead back.
abbrev pub Chain : Links → Ptr → List Ptr → Ptr → Type 0
Chain m p [] q = (m.next p ≡ q) × (m.prev q ≡ p)
Chain m p (x ∷ xs) q = (m.next p ≡ x) × (m.prev x ≡ p) × Chain m x xs q

-- The list with head `head` holds the nodes `xs`, in this order.
pub record IsRing (m : Links) (head : Ptr) (xs : List Ptr) : Type 0 where
  pub chain : Chain m head xs head
  pub head_out : head ∉ xs
  pub distinct : Distinct xs

-- The memory words of `m'` are those of `m` except at the nodes that `xs` holds.
abbrev pub SameOutside : List Ptr → Links → Links → Type 0
SameOutside xs m m' = (a : Ptr) → a ∉ xs → (m'.next a ≡ m.next a) × (m'.prev a ≡ m.prev a)

module _ (m : Links) where
  -- The node before the end of a chain stands in the chain.
  pub prev-mem : (p q : Ptr) (xs : List Ptr) → Chain m p xs q → m.prev q ∈ p ∷ xs
  prev-mem p q [] c = ground arith
  prev-mem p q (x ∷ xs) c = ground (arith, prev-mem x q xs)

  -- The node behind the start of a chain stands in the chain or is its end.
  pub next-mem : (p q : Ptr) (xs : List Ptr) → Chain m p xs q → m.next p ∈ xs ++ q ∷ []
  next-mem p q [] c = ground arith
  next-mem p q (x ∷ xs) c = ground arith

  pub Chain-append :
      (p q r : Ptr) (xs ys : List Ptr)
      → Chain m p xs q
      → Chain m q ys r
      → Chain m p (xs ++ q ∷ ys) r
  Chain-append p q r [] ys c d = (c.0, c.1, d)
  Chain-append p q r (x ∷ xs) ys c d = (c.0, c.1, Chain-append x q r xs ys c.2 d)

  pub Chain-split :
      (p q r : Ptr) (xs ys : List Ptr)
      → Chain m p (xs ++ q ∷ ys) r
      → Chain m p xs q × Chain m q ys r
  Chain-split p q r [] ys c = ((c.0, c.1), c.2)
  Chain-split p q r (x ∷ xs) ys c =
      let rest = Chain-split x q r xs ys c.2 in ((c.0, c.1, rest.0), rest.1)

  -- A chain survives a change of other words.
  pub Chain-frame :
      (m' : Links) (p q : Ptr) (xs : List Ptr)
      → ((a : Ptr) → a ∈ p ∷ xs → m'.next a ≡ m.next a)
      → ((a : Ptr) → a ∈ q ∷ xs → m'.prev a ≡ m.prev a)
      → Chain m p xs q
      → Chain m' p xs q
  Chain-frame m' p q [] n v c = ground (arith, n p, v q)
  Chain-frame m' p q (x ∷ xs) n v c = (
    ground (arith, n p),
    ground (arith, v x),
    Chain-frame m' x q xs (λ a i. n a (ground arith)) (λ a i. v a (ground arith)) c.2,
  )

-- Writes at the nodes `ws` leave every ring alone that holds none of them.
pub IsRing-frame :
    (m m' : Links) (head : Ptr) (xs ws : List Ptr)
    → SameOutside ws m m'
    → ((a : Ptr) → a ∈ head ∷ xs → a ∉ ws)
    → IsRing m head xs
    → IsRing m' head xs
IsRing-frame m m' head xs ws same apart r = record {
  chain =
      Chain-frame m m' head head xs (λ a i. (same a (apart a i)).0) (λ a i. (same a (apart a i)).1)
        r.chain;
  head_out = r.head_out;
  distinct = r.distinct;
}
