-- ===== src/Mm/Examples.antt =====
-- The theorems on src/mm.c, applied to a memory that is all handed out in the largest blocks, and to
-- the one that giving back the last block leads to.
use osc_riscv.Base.{
  ℕ, zero, suc, ◌≡◌, refl, [], ◌∷◌, List, ◌+◌, ◌*◌, ◌≤◌, arith, ltb, if◌then◌else◌, All, ◌⊎◌,
}
use osc_riscv.Mm.Defs.{Layout, Mm, alloc_pages, free_pages}
use osc_riscv.Mm.Blocks.{cover_list, cover_free}
use osc_riscv.Mm.Invariant.{Block, IsBuddySystem, IsLive, cover_live}
use osc_riscv.Mm.Take.{Refused, Allocated, alloc_pages-Holds}
use osc_riscv.Mm.Free.{free_pages-Holds}
use osc_riscv.Ring.{init_list_head, list_add_tail}
use osc_riscv.Mm.Defs.{page_size, buddy_max_order, num_pages}
use osc_riscv.Mm.Kmalloc.{
  kmalloc, kmalloc_pages, kmem_cache_alloc, cache, cache_min_size, cache_max_index, cache_unalloc,
}
use osc_riscv.Mm.Kmalloc.Sizes.{IsClass, kmalloc-IsClass}
use osc_riscv.Base.{some, ◌<◌}
use osc_riscv.Base.{inr}
use osc_riscv.Mm.Kmalloc.{init_map, mem_init, reserve_memory}
use osc_riscv.Mm.Kmalloc.Heads.{initial_free}
use osc_riscv.Mm.Kmalloc.Setup.{init_map-IsBuddySystem}
use osc_riscv.Mm.Kmalloc.Boot.{Reserved, weight-initial, reserve_memory-Reserved, mem_init-Reserved}

abbrev pub layout : Layout
layout = record {
  free_area = 0x80200000;
  mem_map = 0x80300000;
  kmem_cache = 0x80201000;
  behind = omega arith;
}

abbrev pub full : Mm
full = record {
  order = λ p. 10;
  used = λ p. 1;
  cacheidx = λ p. 0;
  refcount = λ p. 1;
  links = record { prev = λ p. p; next = λ p. p };
}

-- The first `n` blocks of order 10.
pub blocks : ℕ → List Block
blocks zero = []
blocks (suc n) = (n * 1024, 10) ∷ blocks n

pub cover_live-blocks : (n p : ℕ) → cover_live (blocks n) p ≡ (if ltb p (n * 1024) then 1 else 0)
unfolding blocks cover_live
cover_live-blocks zero p = ground arith
cover_live-blocks (suc n) p = ground (arith, cover_live-blocks n p)

blocks-IsLive : (n : ℕ) → n ≤ 1280 → All (IsLive full) (blocks n)
unfolding blocks
blocks-IsLive zero h = tt
blocks-IsLive (suc n) h =
    (((omega arith, omega arith), omega arith, refl, refl), blocks-IsLive n (omega arith))

full-IsBuddySystem :
    (n : ℕ) → n + 1 ≡ 1280 → IsBuddySystem layout full (λ o. []) ((n * 1024, 10) ∷ blocks n)
unfolding cover_live cover_free cover_list
full-IsBuddySystem n e = record {
  rings = λ o ho. record { chain = (refl, refl); head_out = refl; distinct = tt };
  cover = λ p lt. ground (arith, cover_live-blocks n p);
  free_ok = λ o q ho j. absurd (ground arith);
  live_ok = (((omega arith, omega arith), omega arith, refl, refl), blocks-IsLive n (omega arith));
}

free_pages-Holds_example :
    (free : ℕ → List ℕ) × IsBuddySystem layout (free_pages layout 1309696 full) free (blocks 1279)
free_pages-Holds_example =
    free_pages-Holds [] (blocks 1279) 1309696 10 (full-IsBuddySystem 1279 (omega arith))

pub freed :
    (free : ℕ → List ℕ) × IsBuddySystem layout (free_pages layout 1309696 full) free (blocks 1279)
freed = free_pages-Holds [] (blocks 1279) 1309696 10 (full-IsBuddySystem 1279 (omega arith))

alloc_pages-Holds_example :
    let s = free_pages layout 1309696 full in
    Refused s freed.0 3 (alloc_pages layout 3 s)
    ⊎ Allocated layout 3 (blocks 1279) (alloc_pages layout 3 s)
alloc_pages-Holds_example = alloc_pages-Holds 3 (omega arith) freed.1

kmalloc-IsClass_example :
    ((3000 ≤ 2048)
      × ((k : ℕ) × (k ≤ cache_max_index)
          × (kmalloc layout 0x80201000 3000 full ≡ kmem_cache_alloc layout 0x80201000 k full)
          × IsClass cache_min_size 0 3000 k))
    ⊎ ((2048 < 3000)
        × ((k : ℕ) × (k ≤ buddy_max_order)
            × (kmalloc layout 0x80201000 3000 full ≡ kmalloc_pages layout 0x80201000 k full)
            × IsClass page_size 0 3000 k))
kmalloc-IsClass_example = kmalloc-IsClass layout 0x80201000 3000 full (omega arith) (omega arith)

-- The cache of 64-byte objects holds the one at 0xffffffc000001040.
abbrev cached : Mm
cached = record full {
  cacheidx = λ p. 1;
  links =
      list_add_tail 0xffffffc000001040 (cache layout 0x80201000 1)
        (init_list_head (cache layout 0x80201000 1) (record { prev = λ p. 0; next = λ p. 0 }));
}

-- The caches' heads stand behind the buddy system's.
init_map-IsBuddySystem_example :
    let s' = init_map layout 0x80201000 full in
    IsBuddySystem layout s' (initial_free 1280) []
    × ((q : ℕ)
        → q < num_pages
        → (s'.used q ≡ 0) × (s'.refcount q ≡ 0) × (s'.cacheidx q ≡ cache_unalloc))
init_map-IsBuddySystem_example = init_map-IsBuddySystem layout 0x80201000 full (inr (omega arith))

-- The kernel ends in the page 0x80400.
mem_init-Reserved_example :
    (s' : Mm) × (mem_init layout 1310721 0x80201000 0x80400100 full ≡ some s')
    × Reserved layout 0 0x80401 s' []
mem_init-Reserved_example =
    mem_init-Reserved layout 1310721 0x80201000 0x80400100 full (inr (omega arith)) (omega arith)
      (omega arith)

reserve_memory-Reserved_example :
    (s' : Mm) × (reserve_memory layout 1310721 0x87000123 0x4000 (init_map layout 0x80201000 full)
      ≡ some s')
    × Reserved layout 0x87000 0x87005 s' []
reserve_memory-Reserved_example =
    reserve_memory-Reserved layout 0x87000 0x87005 1310721 0x87000123 0x4000
      (init_map layout 0x80201000 full) (initial_free 1280) [] refl refl (omega arith)
      (init_map-IsBuddySystem layout 0x80201000 full (inr (omega arith))).0
      (omega (arith, weight-initial 1280))
