-- ===== src/Mm/Invariant.antt =====
-- What the allocator keeps true of `mem_map` and `free_area`, and what follows from it.
use osc_riscv.Base.{
  ℕ, ◌+◌, ◌≤◌, ◌<◌, ◌≡◌, ◌≢◌, refl, List, [], ◌∷◌, ◌∈◌, ◌∉◌, has, arith, ◌==◌, Bool-cases, inl, inr,
  All, update, ◌⊎◌, eq_of_==, ne_of_==, sym, ◌∙◌, erase,
}
use mathlib.Core.Bool.{false≢true}
use native.Mathlib.Nat.{one-le-pow}
use osc_riscv.Mm.Defs.{Layout, Mm, num_pages, buddy_max_order}
use osc_riscv.Mm.Rings.{Rings, Apart}
use osc_riscv.Mm.Blocks.{covers, cover_free, IsBlock, cover_free-mem, cover_free-two, covers_self}

-- The first page of a block and its order.
abbrev pub Block : Type 0
Block = ℕ × ℕ

unfoldable pub cover_live : List Block → ℕ → ℕ
cover_live [] p = 0
cover_live ((q, o) ∷ bs) p = covers o q p + cover_live bs p

-- A block that is handed out.
abbrev pub IsLive : Mm → Block → Type 0
IsLive s (q, o) = IsBlock q o × (o ≤ buddy_max_order) × (s.order q ≡ o) × (s.used q ≡ 1)

-- `free o` names the free blocks of order `o`, in the order of their list, and `live` the blocks
-- that are handed out; `rest p` counts how often the page `p` stands in a block that an operation
-- has at hand. Every page stands in exactly one block.
pub record Holds (l : Layout) (s : Mm) (free : ℕ → List ℕ) (live : List Block) (rest : ℕ → ℕ)
    : Type 0 where
  pub rings : Rings l s.links free
  pub cover : (p : ℕ) → p < num_pages → cover_free 11 free p + cover_live live p + rest p ≡ 1
  pub free_ok : (o q : ℕ) → o ≤ buddy_max_order → q ∈ free o → IsBlock q o × (s.order q ≡ o)
  pub live_ok : All (IsLive s) live

-- Between two operations no block is at hand.
abbrev pub IsBuddySystem : Layout → Mm → (ℕ → List ℕ) → List Block → Type 0
IsBuddySystem l s free live = Holds l s free live (λ p. 0)

pub head_in_memory : (q o : ℕ) → IsBlock q o → q < num_pages
head_in_memory q o b = omega (arith, one-le-pow o 2)

-- A block at a page that no live block has: it is none of the live ones.
pub live_ne : (bs : List Block) (x : ℕ) → cover_live bs x ≡ 0 → All (λ (b : Block). b.0 ≢ x) bs
unfolding cover_live
live_ne [] x h = tt
live_ne ((q, o) ∷ bs) x h =
    (λ e. absurd (ground (arith, covers_self o q)), live_ne bs x (omega arith))

-- Live blocks see the fields of their own first pages only.
pub IsLive-frame :
    (s s' : Mm) (x : ℕ) (bs : List Block)
    → ((q : ℕ) → q ≢ x → (s'.order q ≡ s.order q) × (s'.used q ≡ s.used q))
    → All (λ (b : Block). b.0 ≢ x) bs
    → All (IsLive s) bs
    → All (IsLive s') bs
IsLive-frame s s' x [] same ne ok = tt
IsLive-frame s s' x ((q, o) ∷ bs) same ne ok =
    (ground (arith, same q), IsLive-frame s s' x bs same ne.1 ok.1)

module _ {l : Layout} {s : Mm} {free : ℕ → List ℕ} {live : List Block} {rest : ℕ → ℕ}
    (h : Holds l s free live rest) where
  pub Holds-Apart : Apart free
  Holds-Apart o i q ho hi ne j = elim (Bool-cases (has q (free i))) [
    | inl k ↦
        let ok = h.free_ok o q ho j in
        absurd (
          omega (
            arith,
            h.cover q (head_in_memory q o ok.0),
            cover_free-two 11 o i q q q free (omega arith) (omega arith) ne j k,
            covers_self o q,
            covers_self i q,
          ))
    | inr k ↦ k
  ]

  -- A page of the block at hand heads no free block …
  pub rest-not_free :
      (x : ℕ) → x < num_pages → rest x ≡ 1 → (o : ℕ) → o ≤ buddy_max_order → x ∉ free o
  rest-not_free x lt e o ho = elim (Bool-cases (has x (free o))) [
    | inl k ↦
        absurd (
          omega
            (arith, h.cover x lt, cover_free-mem 11 o x x free (omega arith) k, covers_self o x))
    | inr k ↦ k
  ]

  -- … and no live one.
  pub rest-not_live : (x : ℕ) → x < num_pages → rest x ≡ 1 → All (λ (b : Block). b.0 ≢ x) live
  rest-not_live x lt e = live_ne live x (omega (arith, h.cover x lt))

-- The free blocks after one has been put in front of a list …
pub mem_put :
    (free : ℕ → List ℕ) (i x o p : ℕ)
    → x ∉ free o
    → p ∈ update free i (x ∷ free i) o
    → ((o ≡ i) × (p ≡ x)) ⊎ ((p ∈ free o) × (p ≢ x))
mem_put free i x o p fresh j = elim (Bool-cases (o == i)) [
  | inl e ↦ elim (Bool-cases (p == x)) [
    | inl e' ↦ inl (ground arith, ground arith)
    | inr ne ↦
        let same : o ≡ i = eq_of_== o i e in
        let there : p ∈ free i = ground arith in inr (rw same there, ne_of_== p x ne)
  ]
  | inr ne ↦
      let there : p ∈ free o = rw ne at j in
      inr (there, λ e. absurd (false≢true (sym fresh ∙ (rw e at there))))
]

mem_of_erase : (a b : ℕ) (xs : List ℕ) → a ∈ erase b xs → a ∈ xs
mem_of_erase a b [] j = j
mem_of_erase a b (x ∷ xs) j = ground (arith, mem_of_erase a b xs)

-- … and after one has been taken out of it.
pub mem_take :
    (free : ℕ → List ℕ) (i x o p : ℕ) → p ∈ update free i (erase x (free i)) o → p ∈ free o
mem_take free i x o p j = elim (Bool-cases (o == i)) [
  | inl e ↦ let same : o ≡ i = eq_of_== o i e in rw same (mem_of_erase p x (free i) (ground arith))
  | inr ne ↦ rw ne at j
]

pub not_free_of_uncovered :
    (free : ℕ → List ℕ) (x : ℕ)
    → cover_free 11 free x ≡ 0
    → (o : ℕ) → o ≤ buddy_max_order
    → x ∉ free o
not_free_of_uncovered free x e o ho = elim (Bool-cases (has x (free o))) [
  | inl k ↦ absurd (omega (arith, cover_free-mem 11 o x x free (omega arith) k, covers_self o x))
  | inr k ↦ k
]

pub cover_live_cons :
    (q o : ℕ) (bs : List Block) (p : ℕ)
    → cover_live ((q, o) ∷ bs) p ≡ covers o q p + cover_live bs p
unfolding cover_live
cover_live_cons q o bs p = refl
