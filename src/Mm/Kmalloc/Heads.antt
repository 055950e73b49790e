-- ===== src/Mm/Kmalloc/Heads.antt =====
-- The heads of the lists of src/mm.c, and the free blocks that the set-up leaves.
use osc_riscv.Base.{
  ℕ, zero, suc, ◌+◌, ◌*◌, ◌%◌, ◌<◌, ◌≤◌, ◌≡◌, ◌⊎◌, inl, refl, List, [], ◌∷◌, ◌++◌, ◌∈◌, arith, ◌==◌,
  ltb, if◌then◌else◌, has-append, ◌∙◌,
}
use native.Mathlib.Nat.{add-zero}
use osc_riscv.Ring.{Ptr, Links, init_list_head}
use osc_riscv.Ring.Chain.{IsRing}
use osc_riscv.Mm.Defs.{Layout, buddy_max_order}
use osc_riscv.Mm.Blocks.{covers, cover_list, cover_free}
use osc_riscv.Mm.Kmalloc.{init_heads}

module _ (l : Layout) where
  -- Heads are initialised in their own words only …
  pub init_heads-out :
      (n addr : ℕ) (m : Links) (a : Ptr)
      → (a < addr) ⊎ (addr + 16 * n ≤ a)
      → ((init_heads l n addr m).next a ≡ m.next a) × ((init_heads l n addr m).prev a ≡ m.prev a)
  unfolding init_heads init_list_head
  init_heads-out zero addr m a o = (refl, refl)
  init_heads-out (suc n) addr m a o =
      ground (arith, init_heads-out n (addr + 16) (init_list_head addr m) a (ground arith))

  -- … and each is then an empty list.
  pub init_heads-IsRing :
      (n addr j : ℕ) (m : Links) → j < n → IsRing (init_heads l n addr m) (addr + 16 * j) []
  unfolding init_heads init_list_head
  init_heads-IsRing zero addr j m lt = absurd (omega arith)
  init_heads-IsRing (suc n) addr zero m lt =
      let kept = init_heads-out n (addr + 16) (init_list_head addr m) addr (inl (omega arith)) in
      rw (add-zero addr) (record { chain = ground (arith, kept); head_out = refl; distinct = tt })
  init_heads-IsRing (suc n) addr (suc j) m lt =
      let shift : addr + 16 * suc j ≡ addr + 16 + 16 * j = omega arith in
      rw shift (init_heads-IsRing n (addr + 16) j (init_list_head addr m) (omega arith))

-- The first pages of the first `c` blocks of the largest order.
unfoldable pub heads : ℕ → List ℕ
heads zero = []
heads (suc c) = heads c ++ c * 1024 ∷ []

-- All of them free, and no other block.
abbrev pub initial_free : ℕ → ℕ → List ℕ
initial_free c o = if o == buddy_max_order then heads c else []

pub initial_none : (o : ℕ) → initial_free 0 o ≡ []
unfolding heads
initial_none o = ground arith

pub no_head : (q : ℕ) → q ∈ heads 0 → ⊥
unfolding heads
no_head q j = absurd (ground arith)

pub heads-mem : (c q : ℕ) → q ∈ heads c → (q % 1024 ≡ 0) × (q + 1024 ≤ c * 1024)
unfolding heads
heads-mem zero q j = absurd (ground arith)
heads-mem (suc c) q j = ground (arith, has-append q (heads c) (c * 1024 ∷ []), heads-mem c q)

cover_list-append_one :
    (o x p : ℕ) (xs : List ℕ) → cover_list o (xs ++ x ∷ []) p ≡ cover_list o xs p + covers o x p
unfolding cover_list
cover_list-append_one o x p [] = omega arith
cover_list-append_one o x p (y ∷ ys) = omega (arith, cover_list-append_one o x p ys)

pub cover_list-heads : (c p : ℕ) → cover_list 10 (heads c) p ≡ (if ltb p (c * 1024) then 1 else 0)
unfolding heads cover_list
cover_list-heads zero p = ground arith
cover_list-heads (suc c) p =
    cover_list-append_one 10 (c * 1024) p (heads c) ∙ ground (arith, cover_list-heads c p)

pub cover_free-initial : (c p : ℕ) → cover_free 11 (initial_free c) p ≡ cover_list 10 (heads c) p
unfolding cover_free cover_list
cover_free-initial c p = omega arith
