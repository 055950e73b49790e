-- ===== src/Mm/Defs.antt =====
-- The allocator's state and its operations, as src/mm.c has them.
use Prim.Native.Nat.{bit_xor}
use osc_riscv.Base.{
  ℕ, zero, suc, ◌+◌, ◌-◌, ◌*◌, ◌/◌, ◌%◌, ◌^◌, ◌≤◌, Option, none, some, ◌==◌, not, ◌||◌, ltb,
  if◌then◌else◌, update,
}
use osc_riscv.Ring.{Ptr, Links, list_add, list_del_init, list_empty, list_first_entry}

abbrev pub buddy_max_order : ℕ
buddy_max_order = 10

abbrev pub num_pages : ℕ
num_pages = 0x140000

abbrev pub page_size : ℕ
page_size = 4096

-- Where the linker and `alloc_bootmem` have put the two arrays. `mem_map` is carved out of the heap,
-- which begins at `_end`, behind all static data.
pub record Layout : Type 0 where
  pub free_area : Ptr
  pub mem_map : Ptr
  pub kmem_cache : Ptr
  pub behind : free_area + 16 * (buddy_max_order + 1) ≤ mem_map

-- The fields of `mem_map[i]` but for its list, and the words of all lists.
pub record Mm : Type 0 where
  pub order : ℕ → ℕ
  pub used : ℕ → ℕ
  pub cacheidx : ℕ → ℕ
  pub refcount : ℕ → ℕ
  pub links : Links

module _ (l : Layout) where
  -- `&free_area[i]`: a `struct list_head` has two words.
  abbrev pub area : ℕ → Ptr
  area i = l.free_area + 16 * i

  -- `&mem_map[i].list`: a `struct page` has 32 bytes, and the list stands behind four `int`s.
  abbrev pub page_list : ℕ → Ptr
  page_list i = l.mem_map + 32 * i + 16

  -- `list_entry(p, struct page, list)`, as an index.
  abbrev pub page_entry : Ptr → ℕ
  page_entry p = (p - 16 - l.mem_map) / 32

-- `(unsigned int)(page - mem_map) ^ (1 << order)`
unfoldable pub get_buddy : (page order : ℕ) → ℕ
get_buddy page order = bit_xor page (2 ^ order)

module _ (l : Layout) where
  -- The loop `while (i > order)`, with `k` rounds left: `i` is `order + k`.
  unfoldable pub split_loop : (k order page : ℕ) → Mm → Mm
  split_loop zero order page s = s
  split_loop (suc k) order page s =
      let i = order + k in
      let buddy = get_buddy page i in
      split_loop k order page (record s {
        order = update s.order buddy i;
        links = list_add (page_list l buddy) (area l i) s.links;
      })

  -- The block that the search has found in `free_area[i]`.
  unfoldable pub take_block : (i order : ℕ) → Mm → Option ℕ × Mm
  unfolding split_loop
  take_block i order s =
      let page = page_entry l (list_first_entry (area l i) s.links) in
      let s' : Mm = record {
        order = update s.order page order;
        used = update s.used page 1;
        cacheidx = s.cacheidx;
        refcount = update s.refcount page 1;
        links = list_del_init (page_list l page) s.links;
      } in
      (some page, split_loop (i - order) order page s')

  -- The loop `for (int i = order; i <= BUDDY_MAX_ORDER; i++)`, with `k` rounds left.
  unfoldable pub alloc_loop : (k i order : ℕ) → Mm → Option ℕ × Mm
  unfolding take_block
  alloc_loop zero i order s = (none, s)
  alloc_loop (suc k) i order s =
      let rest = alloc_loop k (i + 1) order s in
      if list_empty (area l i) s.links then rest else take_block i order s

  -- `none` is the null pointer.
  unfoldable pub alloc_pages : (order : ℕ) → Mm → Option ℕ × Mm
  unfolding alloc_loop
  alloc_pages order s = alloc_loop (buddy_max_order + 1 - order) order order s

  -- The loop `while (order < BUDDY_MAX_ORDER)`, with `k` rounds left: the block to free and its order
  -- when the loop ends, and the state.
  unfoldable pub merge_loop : (k current order : ℕ) → Mm → ℕ × ℕ × Mm
  merge_loop zero current order s = (current, order, s)
  merge_loop (suc k) current order s =
      let buddy = get_buddy current order in
      let rest =
        merge_loop k (if ltb buddy current then buddy else current) (order + 1)
          (record s { links = list_del_init (page_list l buddy) s.links }) in
      if not (s.used buddy == 0) || not (s.order buddy == order) then (current, order, s) else rest

  -- The block that the loop leaves becomes free.
  unfoldable pub put_block : (current order : ℕ) → Mm → Mm
  put_block current order s = record s {
    order = update s.order current order;
    used = update s.used current 0;
    refcount = update s.refcount current 0;
    links = list_add (page_list l current) (area l order) s.links;
  }

  unfoldable pub free_pages : (page : ℕ) → Mm → Mm
  unfolding merge_loop put_block
  free_pages page s =
      let (current, order, s') =
        merge_loop (buddy_max_order - s.order page) page (s.order page) s in
      put_block current order s'

  unfoldable pub get_page : (page : ℕ) → Mm → Mm
  get_page page s = record s { refcount = update s.refcount page ((s.refcount page + 1) % 2 ^ 32) }

  unfoldable pub put_page : (page : ℕ) → Mm → Mm
  unfolding free_pages
  put_page page s =
      let s' = record s {
        refcount = update s.refcount page ((s.refcount page + 2 ^ 32 - 1) % 2 ^ 32);
      } in
      if s'.refcount page == 0 then free_pages page s' else s'
