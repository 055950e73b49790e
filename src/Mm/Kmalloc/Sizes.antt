-- ===== src/Mm/Kmalloc/Sizes.antt =====
-- The size classes of `kmalloc`, and the addresses of pages.
use osc_riscv.Base.{
  ℕ, zero, suc, ◌+◌, ◌*◌, ◌^◌, ◌<◌, ◌≤◌, ◌≡◌, ◌⊎◌, inl, inr, refl, arith, true, false, some, ltb,
  leb, Bool-cases, ◌==◌, eq_of_==,
}
use native.Mathlib.Nat.{mul-le-mul_left, pow-le-pow_right}
use osc_riscv.Mm.Defs.{Layout, Mm, page_size, buddy_max_order}
use osc_riscv.Mm.Kmalloc.{
  class_loop, kmalloc, kmalloc_pages, kmem_cache_alloc, cache_min_size, cache_max_index,
}

-- `k` is the least number from `low` on whose class is large enough.
abbrev pub IsClass : (unit low size k : ℕ) → Type 0
IsClass unit low size k =
    (low ≤ k) × (size ≤ unit * 2 ^ k) × ((j : ℕ) → low ≤ j → j < k → unit * 2 ^ j < size)

class_loop-from :
    (fuel unit low top size : ℕ)
    → low ≤ top
    → top < low + fuel
    → size ≤ unit * 2 ^ top
    → ((j : ℕ) → j ≤ top → unit * 2 ^ j < 2 ^ 31)
    → (k : ℕ) × (class_loop fuel unit low size ≡ some k) × (k ≤ top) × IsClass unit low size k
unfolding class_loop
class_loop-from zero unit low top size le lt enough fits = absurd (omega arith)
class_loop-from (suc fuel) unit low top size le lt enough fits =
    let shift : leb (2 ^ 31) (unit * 2 ^ low) ≡ false = ground (arith, fits low le) in
    elim (Bool-cases (ltb (unit * 2 ^ low) size)) [
      | inl e ↦
          let below : low < top = above (Bool-cases (low == top)) (ground arith) in
          let (k, done, bound, (from, large, least)) =
            class_loop-from fuel unit (low + 1) top size (omega arith) (omega arith) enough fits in
          rw (shift, e)
            (
              k,
              done,
              bound,
              (
                omega (arith, from),
                large,
                λ j p p'. earlier j p (λ q. least j q p') (Bool-cases (low == j)) (ground arith),
              ),
            )
      | inr e ↦
          rw (shift, e) (low, refl, le, (omega arith, ground arith, λ j p p'. absurd (omega arith)))
    ]
  where
    above : ((low == top) ≡ true) ⊎ ((low == top) ≡ false) → unit * 2 ^ low < size → low < top
    above (inl e) small = absurd (omega (arith, enough, rw (eq_of_== low top e) at small))
    above (inr e) small = ground arith

    earlier :
        (j : ℕ)
        → low ≤ j
        → (low + 1 ≤ j → unit * 2 ^ j < size)
        → ((low == j) ≡ true) ⊎ ((low == j) ≡ false)
        → unit * 2 ^ low < size
        → unit * 2 ^ j < size
    earlier j p later (inl e) small = rw (← eq_of_== low j e) small
    earlier j p later (inr e) small = later (ground arith)

-- Shifts that do not overflow: a unit of 2 ^ u, up to the class `top`.
shifts_fit : (unit top : ℕ) → unit * 2 ^ top < 2 ^ 31 → (j : ℕ) → j ≤ top → unit * 2 ^ j < 2 ^ 31
shifts_fit unit top h j le =
    omega (arith, h, mul-le-mul_left unit (pow-le-pow_right {n = 2} (omega arith) le))

-- `kmalloc` of at least one byte and at most the largest block's size: of at most 2048 bytes, it takes
-- an object from the cache of the least class that is large enough; of more, it takes a block of the
-- least order that is.
pub kmalloc-IsClass :
    (l : Layout) (caches size : ℕ) (s : Mm)
    → 1 ≤ size
    → size ≤ page_size * 2 ^ buddy_max_order
    → ((size ≤ 2048)
        × ((k : ℕ) × (k ≤ cache_max_index)
            × (kmalloc l caches size s ≡ kmem_cache_alloc l caches k s)
            × IsClass cache_min_size 0 size k))
      ⊎ ((2048 < size)
          × ((k : ℕ) × (k ≤ buddy_max_order)
              × (kmalloc l caches size s ≡ kmalloc_pages l caches k s)
              × IsClass page_size 0 size k))
unfolding kmalloc
kmalloc-IsClass l caches size s some_bytes fits =
    let bytes : (size == 0) ≡ false = ground arith in
    elim (Bool-cases (ltb (cache_min_size * 2 ^ cache_max_index) size)) [
      | inl e ↦
          let large : 2048 < size = ground arith in
          let (k, done, bound, class) =
            class_loop-from 20 page_size 0 10 size (omega arith) (omega arith) (omega arith)
              (shifts_fit page_size 10 (omega arith)) in
          inr (large, (k, bound, rw (bytes, e, done) refl, class))
      | inr e ↦
          let small : size ≤ 2048 = ground arith in
          let (k, done, bound, class) =
            class_loop-from 20 cache_min_size 0 6 size (omega arith) (omega arith) (omega arith)
              (shifts_fit cache_min_size 6 (omega arith)) in
          inl (small, (k, bound, rw (bytes, e, done) refl, class))
    ]

-- A page of `kmalloc` is a page of `alloc_pages`.
pub kmalloc-page :
    (l : Layout) (caches : ℕ) (s : Mm) → kmalloc l caches page_size s ≡ kmalloc_pages l caches 0 s
unfolding kmalloc class_loop
kmalloc-page l caches s = refl
