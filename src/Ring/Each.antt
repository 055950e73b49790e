-- ===== src/Ring/Each.antt =====
-- The loops over the lists of include/list.h.
use osc_riscv.Base.{
  ℕ, zero, suc, ◌<◌, ◌≡◌, refl, ap, List, [], ◌∷◌, ◌++◌, Bool, Option, some, none, ◌∈◌, ◌∉◌, arith,
  if◌then◌else◌, length, ltb, ◌≤◌, All, subst, Bool-cases, inl, inr,
}
use osc_riscv.Ring.{Ptr, Links, each_loop, list_for_each, list_add_tail}
use osc_riscv.Ring.Chain.{Chain, IsRing}
use osc_riscv.Ring.Add.{list_add_tail-IsRing, list_add_tail_before}

-- The first entry that passes a test.
unfoldable pub find? : (Ptr → Bool) → List Ptr → Option Ptr
find? test [] = none
find? test (x ∷ xs) = if test x then some x else find? test xs

module _ (m : Links) (test : Ptr → Bool) (head : Ptr) where
  each_loop-find? :
      (fuel p : ℕ) (xs : List Ptr)
      → Chain m p xs head
      → head ∉ xs
      → length xs < fuel
      → each_loop test fuel (m.next p) head m ≡ some (find? test xs)
  unfolding each_loop find?
  each_loop-find? zero p xs c out h = absurd (omega arith)
  each_loop-find? (suc fuel) p [] c out h = ground arith
  each_loop-find? (suc fuel) p (x ∷ xs) c out h = ground (arith, each_loop-find? fuel x xs)

  -- A loop over a list ends, and finds the first entry that passes its test.
  pub list_for_each-find? :
      (fuel : ℕ) (xs : List Ptr)
      → IsRing m head xs
      → length xs < fuel
      → list_for_each test fuel head m ≡ some (find? test xs)
  unfolding list_for_each
  list_for_each-find? fuel xs r h = each_loop-find? fuel head xs r.chain r.head_out h

-- A node put before the first entry that passes a test, or at the end.
unfoldable pub insert_first : (Ptr → Bool) → Ptr → List Ptr → List Ptr
insert_first test node [] = node ∷ []
insert_first test node (x ∷ xs) = if test x then node ∷ x ∷ xs else x ∷ insert_first test node xs

insert_first-end :
    (test : Ptr → Bool) (node : Ptr) (xs : List Ptr)
    → find? test xs ≡ none
    → insert_first test node xs ≡ xs ++ node ∷ []
unfolding find? insert_first
insert_first-end test node [] e = refl
insert_first-end test node (x ∷ xs) e = ground (arith, insert_first-end test node xs)

insert_first-before :
    (test : Ptr → Bool) (node : Ptr) (xs : List Ptr) (pos : Ptr)
    → find? test xs ≡ some pos
    → (front : List Ptr) × (back : List Ptr) × (xs ≡ front ++ pos ∷ back)
      × (insert_first test node xs ≡ front ++ node ∷ pos ∷ back)
unfolding find? insert_first
insert_first-before test node [] pos e = absurd (ground arith)
insert_first-before test node (x ∷ xs) pos e = elim (Bool-cases (test x)) [
  | inl yes_here ↦
      let same : x ≡ pos = ground arith in ([], xs, ap (λ t. t ∷ xs) same, rw (yes_here, same))
  | inr no_here ↦
      let (front, back, whole, put) = insert_first-before test node xs pos (ground arith) in
      (x ∷ front, back, ap (λ t. x ∷ t) whole, rw no_here (ap (λ t. x ∷ t) put))
]

-- `list_add_tail` before the entry that a loop has found, or at the end of the list.
unfoldable pub add_before : Option Ptr → (node head : Ptr) → Links → Links
add_before none node head m = list_add_tail node head m
add_before (some pos) node head m = list_add_tail node pos m

pub add_before-IsRing :
    (m : Links) (test : Ptr → Bool) (node head : Ptr) (xs : List Ptr)
    → IsRing m head xs
    → node ∉ head ∷ xs
    → IsRing (add_before (find? test xs) node head m) head (insert_first test node xs)
unfolding add_before
add_before-IsRing m test node head xs r out = by_place (find? test xs) refl
  where
    by_place :
        (place : Option Ptr)
        → find? test xs ≡ place
        → IsRing (add_before place node head m) head (insert_first test node xs)
    by_place none e =
        rw (insert_first-end test node xs e) (list_add_tail-IsRing m node head xs r out)
    by_place (some pos) e =
        let (front, back, whole, put) = insert_first-before test node xs pos e in
        rw put (
          list_add_tail_before m node head pos front back (rw whole at r)
            (subst (λ t. node ∉ head ∷ t) whole out))

-- Entries in the order of a key.
abbrev pub Sorted : (Ptr → ℕ) → List Ptr → Type 0
Sorted key [] = Unit
Sorted key (x ∷ xs) = All (λ y. key x ≤ key y) xs × Sorted key xs

All-insert_first {ℓ} :
    (P : Ptr → Type ℓ) (test : Ptr → Bool) (node : Ptr) (xs : List Ptr)
    → P node
    → All P xs
    → All P (insert_first test node xs)
unfolding insert_first
All-insert_first P test node [] p h = (p, tt)
All-insert_first P test node (x ∷ xs) p h = elim (Bool-cases (test x)) [
  | inl e ↦ rw e (p, h)
  | inr ne ↦ rw ne (h.0, All-insert_first P test node xs p h.1)
]

All-le :
    (key : Ptr → ℕ) (a b : ℕ) (xs : List Ptr)
    → a ≤ b
    → All (λ y. b ≤ key y) xs
    → All (λ y. a ≤ key y) xs
All-le key a b [] le h = tt
All-le key a b (x ∷ xs) le h = (omega (arith, h.0), All-le key a b xs le h.1)

-- Before the first entry with a larger key a node keeps the order, behind the entries with its own.
pub insert_first-Sorted :
    (key : Ptr → ℕ) (node : Ptr) (xs : List Ptr)
    → Sorted key xs
    → Sorted key (insert_first (λ pos. ltb (key node) (key pos)) node xs)
unfolding insert_first
insert_first-Sorted key node [] h = (tt, tt)
insert_first-Sorted key node (x ∷ xs) h = elim (Bool-cases (ltb (key node) (key x))) [
  | inl e ↦
      let lt : key node ≤ key x = ground arith in
      rw e ((lt, All-le key (key node) (key x) xs lt h.0), h)
  | inr ne ↦ rw ne (
    All-insert_first (λ y. key x ≤ key y) (λ pos. ltb (key node) (key pos)) node xs (ground arith)
        h.0,
    insert_first-Sorted key node xs h.1,
  )
]

pub Sorted-congr :
    (key key' : Ptr → ℕ) (xs : List Ptr)
    → ((a : Ptr) → a ∈ xs → key' a ≡ key a)
    → Sorted key xs
    → Sorted key' xs
Sorted-congr key key' [] same h = tt
Sorted-congr key key' (x ∷ xs) same h = (
  later xs (λ a j. same a (ground arith)) h.0,
  Sorted-congr key key' xs (λ a j. same a (ground arith)) h.1,
)
  where
    later :
        (ys : List Ptr)
        → ((a : Ptr) → a ∈ ys → key' a ≡ key a)
        → All (λ y. key x ≤ key y) ys
        → All (λ y. key' x ≤ key' y) ys
    later [] e a = tt
    later (y ∷ ys) e a =
        (ground (arith, same x (ground arith), e y), later ys (λ z j. e z (ground arith)) a.1)
