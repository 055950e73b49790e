-- ===== src/Mm/Kmalloc.antt =====
-- src/mm.c above the buddy allocator: the object caches, `kmalloc` and `kfree`, and the set-up of the
-- memory. An object is known by its address, where its list lies.
pub mod Boot
pub mod Caches
pub mod Heads
pub mod Reserve
pub mod Setup
pub mod Sizes
use Prim.Native.Nat.{bit_and}
use osc_riscv.Base.{
  ℕ, zero, suc, ◌+◌, ◌-◌, ◌*◌, ◌/◌, ◌%◌, ◌^◌, Option, none, some, ◌==◌, not, ◌&&◌, ◌||◌, ltb, leb,
  if◌then◌else◌, update,
}
use osc_riscv.Ring.{
  Ptr, Links, init_list_head, list_add, list_add_tail, list_del_init, list_empty, list_first_entry,
  list_for_each_safe,
}
use osc_riscv.Mm.Defs.{
  Layout, Mm, area, page_list, page_entry, get_buddy, alloc_pages, free_pages, buddy_max_order,
  num_pages, page_size,
}
use osc_riscv.Vm.{virt_to_phys, phys_to_virt}

abbrev pub cache_max_index : ℕ
cache_max_index = 6

abbrev pub cache_min_size : ℕ
cache_min_size = 32

-- -1 as an `unsigned int`.
abbrev pub cache_unalloc : ℕ
cache_unalloc = 2 ^ 32 - 1

unfoldable pub page_to_virt : (page : ℕ) → ℕ
page_to_virt page = phys_to_virt (page * page_size)

unfoldable pub virt_to_page : (addr : ℕ) → ℕ
virt_to_page addr = virt_to_phys addr / page_size

-- `while ((unit << k) < size) k++;`. The shift is done in `int`: `none` is one that overflows, or that
-- the fuel ran out.
unfoldable pub class_loop : (fuel unit k size : ℕ) → Option ℕ
class_loop zero unit k size = none
class_loop (suc fuel) unit k size =
    let rest = class_loop fuel unit (k + 1) size in
    if leb (2 ^ 31) (unit * 2 ^ k) then none else if ltb (unit * 2 ^ k) size then rest else some k

-- The rounds of the loop that cuts a page into objects, with `n` of them left.
unfoldable pub fill_loop : (n addr size head : ℕ) → Links → Links
fill_loop zero addr size head m = m
fill_loop (suc n) addr size head m =
    fill_loop n (addr + size) size head (list_add_tail addr head (init_list_head addr m))

-- `caches` is the address of `kmem_cache`.
module _ (l : Layout) (caches : Ptr) where
  abbrev pub cache : ℕ → Ptr
  cache index = caches + 16 * index

  -- The first object of a cache.
  unfoldable pub take_object : (index : ℕ) → Mm → ℕ × Mm
  take_object index s =
      let obj = list_first_entry (cache index) s.links in
      (obj, record s { links = list_del_init obj s.links })

  -- A page of new objects.
  unfoldable pub fill_cache : (index page : ℕ) → Mm → Mm
  unfolding fill_loop page_to_virt
  fill_cache index page s =
      let size = cache_min_size * 2 ^ index in
      record s {
        cacheidx = update s.cacheidx page index;
        links = fill_loop (page_size / size) (page_to_virt page) size (cache index) s.links;
      }

  -- `none`: `alloc_pages` has returned the null pointer, which the code writes through.
  unfoldable pub kmem_cache_alloc : (index : ℕ) → Mm → Option (ℕ × Mm)
  unfolding take_object fill_cache
  kmem_cache_alloc index s =
      let (page, s') = alloc_pages l 0 s in
      let filled : Option (ℕ × Mm) = elim page [
        | none ↦ none
        | some p ↦ some (take_object index (fill_cache index p s'))
      ] in
      if list_empty (cache index) s.links then filled else some (take_object index s)

  unfoldable pub kmem_cache_free : (ptr : ℕ) → Mm → Mm
  unfolding virt_to_page
  kmem_cache_free ptr s = record s {
    links = list_add_tail ptr (cache (s.cacheidx (virt_to_page ptr))) s.links;
  }

  -- A size above the largest object's takes whole pages. `none`: the null pointer of `alloc_pages` has
  -- been used, or a shift has overflowed.
  unfoldable pub kmalloc_pages : (order : ℕ) → Mm → Option (ℕ × Mm)
  unfolding page_to_virt
  kmalloc_pages order s =
      let (page, s') = alloc_pages l order s in
      elim page [ none ↦ none | some p ↦ some (page_to_virt p, s') ]

  unfoldable pub kmalloc : (size : ℕ) → Mm → Option (ℕ × Mm)
  kmalloc size s =
      let pages : Option (ℕ × Mm) = elim (class_loop 20 page_size 0 size) [
        | none ↦ none
        | some order ↦ kmalloc_pages order s
      ] in
      let object : Option (ℕ × Mm) = elim (class_loop 20 cache_min_size 0 size) [
        | none ↦ none
        | some index ↦ kmem_cache_alloc index s
      ] in
      if size == 0
      then some (0, s)
      else if ltb (cache_min_size * 2 ^ cache_max_index) size
      then pages
      else object

  unfoldable pub kfree : (ptr : ℕ) → Mm → Mm
  unfolding virt_to_page kmem_cache_free
  kfree ptr s =
      let page = virt_to_page ptr in
      if s.cacheidx page == cache_unalloc
      then (if not (virt_to_phys ptr % page_size == 0) then s else free_pages l page s)
      else kmem_cache_free ptr s

-- `reserve_memory`: what it does to a free block. A block of one page never lies half in the range,
-- whose ends are multiples of the page size.
module _ (l : Layout) where
  unfoldable pub reserve_block : (order start end : ℕ) (pos : Ptr) → Mm → Mm
  reserve_block order start end pos s =
      let page = page_entry l pos in
      let page_start = page * page_size in
      let page_end = page_start + page_size * 2 ^ order in
      let half = get_buddy page (order - 1) in
      if leb end page_start || leb page_end start
      then s
      else if leb start page_start && leb page_end end
      then record s {
        links = list_del_init pos s.links;
        order = update s.order page order;
        used = update s.used page 1;
      }
      else record s {
        order = update (update s.order page (order - 1)) half (order - 1);
        links =
            list_add (page_list l half) (area l (order - 1))
              (list_add pos (area l (order - 1)) (list_del_init pos s.links));
      }

  -- The orders below `k`, from the largest.
  unfoldable pub reserve_loop : (k fuel start end : ℕ) → Mm → Option Mm
  unfolding reserve_block
  reserve_loop zero fuel start end s = some s
  reserve_loop (suc k) fuel start end s =
      elim (list_for_each_safe (λ (s : Mm). s.links) (reserve_block k start end) fuel (area l k)
        s) [ none ↦ none | some s' ↦ reserve_loop k fuel start end s' ]

  -- `~(PAGE_SIZE - 1)` in 64 bits.
  abbrev pub page_mask : ℕ
  page_mask = 2 ^ 64 - 2 ^ 12

  unfoldable pub reserve_memory : (fuel addr size : ℕ) → Mm → Option Mm
  unfolding reserve_loop
  reserve_memory fuel addr size s =
      let start = bit_and addr page_mask in
      let end = bit_and ((addr + size + page_size - 1) % 2 ^ 64) page_mask in
      reserve_loop (buddy_max_order + 1) fuel start end s

  -- The heads of `n` lists from an address on.
  unfoldable pub init_heads : (n addr : ℕ) → Links → Links
  init_heads zero addr m = m
  init_heads (suc n) addr m = init_heads n (addr + 16) (init_list_head addr m)

  -- The loop over `mem_map` from the page `i` on, with `n` pages left.
  unfoldable pub init_pages : (n i : ℕ) → Mm → Mm
  init_pages zero i s = s
  init_pages (suc n) i s =
      let first = i % 2 ^ buddy_max_order == 0 in
      let m = init_list_head (page_list l i) s.links in
      init_pages n (i + 1) (record {
        order = update s.order i (if first then buddy_max_order else 0);
        used = update s.used i 0;
        cacheidx = update s.cacheidx i cache_unalloc;
        refcount = update s.refcount i 0;
        links = if first then list_add_tail (page_list l i) (area l buddy_max_order) m else m;
      })

  -- The lists' heads and `mem_map`.
  unfoldable pub init_map : (caches : ℕ) → Mm → Mm
  unfolding init_heads init_pages
  init_map caches s =
      let s = record s { links = init_heads (buddy_max_order + 1) l.free_area s.links } in
      let s = record s { links = init_heads (cache_max_index + 1) caches s.links } in
      init_pages num_pages 0 s

  -- `heap_top` is the heap's end behind `mem_map`, as a physical address.
  unfoldable pub mem_init : (fuel caches heap_top : ℕ) → Mm → Option Mm
  unfolding init_map reserve_memory
  mem_init fuel caches heap_top s = reserve_memory fuel 0 heap_top (init_map caches s)
