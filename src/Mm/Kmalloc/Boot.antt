-- ===== src/Mm/Kmalloc/Boot.antt =====
-- `reserve_memory` and `mem_init` of src/mm.c.
use Prim.Native.Nat.{bit_and}
use osc_riscv.Base.{
  ℕ, zero, suc, ◌+◌, ◌-◌, ◌*◌, ◌/◌, ◌%◌, ◌^◌, ◌<◌, ◌≤◌, ◌≡◌, ◌⊎◌, inl, inr, refl, some, List, [],
  ◌∷◌, ◌++◌, arith, ◌==◌, All, length, Bool-cases, eq_of_==, ne_of_==, ap, ◌∙◌,
}
use mathlib.Core.List.{append_assoc}
use native.Mathlib.Nat.{one-le-pow, le-mul_of_pos_right}
use osc_riscv.Base.Bits.{and_round}
use osc_riscv.Mm.Defs.{Layout, Mm, buddy_max_order, num_pages, page_size}
use osc_riscv.Mm.Invariant.{Block, IsBuddySystem}
use osc_riscv.Mm.Kmalloc.{reserve_loop, reserve_memory, init_map, mem_init, page_mask}
use osc_riscv.Mm.Kmalloc.Reserve.{IsOutside, IsInside}
use osc_riscv.Mm.Kmalloc.Reserve.Weight.{weight}
use osc_riscv.Mm.Kmalloc.Reserve.Sweep.{All-append, list_for_each_safe-Swept}
use osc_riscv.Mm.Kmalloc.Heads.{heads, initial_free}
use osc_riscv.Mm.Kmalloc.Setup.{init_map-IsBuddySystem}

-- The pages from `a` to below `b` are reserved: no free block has one of them, and the blocks that are
-- handed out besides those of `live` have no other.
pub record Reserved (l : Layout) (a b : ℕ) (s' : Mm) (live : List Block) : Type 0 where
  pub free' : ℕ → List ℕ
  pub new : List Block
  pub system : IsBuddySystem l s' free' (new ++ live)
  pub outside :
      (o : ℕ)
      → o ≤ buddy_max_order
      → All (λ q. IsOutside (a * page_size) (b * page_size) q o) (free' o)
  pub inside : All (IsInside (a * page_size) (b * page_size)) new

module _ (l : Layout) (a b : ℕ) where
  Reserved-after :
      (s' : Mm) (live new : List Block)
      → All (IsInside (a * page_size) (b * page_size)) new
      → Reserved l a b s' (new ++ live)
      → Reserved l a b s' live
  Reserved-after s' live new i r = record {
    free' = r.free';
    new = r.new ++ new;
    system = rw (append_assoc r.new new live) r.system;
    outside = r.outside;
    inside = All-append (IsInside (a * page_size) (b * page_size)) r.new new r.inside i;
  }

  reserve_loop-Reserved :
      (k fuel : ℕ) (s : Mm) (free : ℕ → List ℕ) (live : List Block)
      → IsBuddySystem l s free live
      → k ≤ 11
      → ((o : ℕ)
          → k ≤ o
          → o ≤ buddy_max_order
          → All (λ q. IsOutside (a * page_size) (b * page_size) q o) (free o))
      → weight k free < fuel
      → (s' : Mm) × (reserve_loop l k fuel (a * page_size) (b * page_size) s ≡ some s')
        × Reserved l a b s' live
  unfolding reserve_loop weight
  reserve_loop-Reserved zero fuel s free live h hk out lt = (
    s,
    refl,
    record {
      free' = free;
      new = [];
      system = h;
      outside = λ o ho. out o (omega arith) ho;
      inside = tt;
    },
  )
  reserve_loop-Reserved (suc k) fuel s free live h hk out lt =
      let short : length (free k) ≤ length (free k) * 2 ^ k =
        le-mul_of_pos_right (length (free k)) (one-le-pow k 2 (omega arith)) in
      let (s1, ended, w) =
        list_for_each_safe-Swept l a b k (omega (arith, hk)) fuel s free live h
          (omega (arith, short, lt)) in
      let (s', ended', r) =
        reserve_loop-Reserved k fuel s1 w.free' (w.new ++ live) w.system (omega (arith, hk))
          (λ o le ho. elim (Bool-cases (o == k)) [
            | inl same ↦ rw (eq_of_== o k same) w.outside
            | inr other ↦
                let lower : k < o = ground (arith, ne_of_== o k other, le) in
                rw (w.above o lower) (out o (omega (arith, lower)) ho)
          ])
          (omega (arith, w.lighter, lt)) in
      rw (reserve_loop, ended) (s', ended', Reserved-after s' live w.new w.inside r)

  mask_page : (x : ℕ) → x < 2 ^ 64 → bit_and x (page_mask l) ≡ x / page_size * page_size
  mask_page x h = and_round 12 52 x (omega (arith, h))

  -- `reserve_memory`, given fuel for as many pages as are free, ends; whatever the order of the free
  -- blocks is, none of them then has a page of the range, which goes from `a` to below `b`, and every
  -- block that it has handed out lies in the range; all else that was handed out still is. The range
  -- ends a page before the end of the addresses.
  pub reserve_memory-Reserved :
      (fuel addr size : ℕ) (s : Mm) (free : ℕ → List ℕ) (live : List Block)
      → a ≡ addr / page_size
      → b ≡ (addr + size + page_size - 1) / page_size
      → addr + size + page_size < 2 ^ 64
      → IsBuddySystem l s free live
      → weight 11 free < fuel
      → (s' : Mm) × (reserve_memory l fuel addr size s ≡ some s') × Reserved l a b s' live
  unfolding reserve_memory
  reserve_memory-Reserved fuel addr size s free live ea eb small h lt =
      let start : bit_and addr (page_mask l) ≡ a * page_size =
        rw ea (mask_page addr (omega (arith, small))) in
      let plain : (addr + size + page_size - 1) % 2 ^ 64 ≡ addr + size + page_size - 1 =
        omega (arith, small) in
      let end : bit_and (addr + size + page_size - 1) (page_mask l) ≡ b * page_size =
        rw eb (mask_page (addr + size + page_size - 1) (omega (arith, small))) in
      rw (plain, start, end)
        (reserve_loop-Reserved 11 fuel s free live h (omega arith)
          (λ o le ho. absurd (omega (arith, le, ho))) lt)

length-append_one : (xs : List ℕ) (x : ℕ) → length (xs ++ x ∷ []) ≡ suc (length xs)
length-append_one [] x = refl
length-append_one (y ∷ ys) x = omega (arith, length-append_one ys x)

length-heads : (c : ℕ) → length (heads c) ≡ c
unfolding heads
length-heads zero = refl
length-heads (suc c) = length-append_one (heads c) (c * 1024) ∙ ap suc (length-heads c)

pub weight-initial : (c : ℕ) → weight 11 (initial_free c) ≡ c * 1024
unfolding weight
weight-initial c = omega (arith, length-heads c)

-- `mem_init`, with fuel above the number of pages, ends, whatever the memory holds before. Every page
-- then stands in exactly one block; no free block has a page of the kernel, which ends at the heap's
-- end, and only pages of the kernel are handed out. The caches' heads lie apart from the buddy
-- system's, and the heap's end is the address of a page that exists.
pub mem_init-Reserved :
    (l : Layout) (fuel caches heap_top : ℕ) (s : Mm)
    → (caches + 16 * 7 ≤ l.free_area) ⊎ (l.free_area + 16 * 11 ≤ caches)
    → heap_top ≤ page_size * num_pages
    → num_pages < fuel
    → (s' : Mm) × (mem_init l fuel caches heap_top s ≡ some s')
      × Reserved l 0 ((heap_top + page_size - 1) / page_size) s' []
unfolding mem_init
mem_init-Reserved l fuel caches heap_top s apart small lt =
    reserve_memory-Reserved l 0 ((heap_top + page_size - 1) / page_size) fuel 0 heap_top
      (init_map l caches s) (initial_free 1280) [] refl (omega arith) (omega (arith, small))
      (init_map-IsBuddySystem l caches s apart).0 (omega (arith, weight-initial 1280, lt))
