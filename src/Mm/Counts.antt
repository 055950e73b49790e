-- ===== src/Mm/Counts.antt =====
-- `alloc_pages` of src/mm.c and the counts of references.
use osc_riscv.Base.{
  ℕ, zero, suc, ◌+◌, ◌-◌, ◌≡◌, ◌≢◌, refl, ap, ◌∙◌, Option, some, arith, ◌==◌, if◌then◌else◌, update,
  ==_false, Bool, true, false,
}
use osc_riscv.Ring.{list_add, list_empty, list_first_entry, list_del_init}
use osc_riscv.Mm.Defs.{
  Layout, Mm, split_loop, take_block, alloc_loop, alloc_pages, get_buddy, area, page_entry,
  page_list, buddy_max_order,
}

split_loop-refcount :
    (l : Layout) (k order page : ℕ) (s : Mm) → (split_loop l k order page s).refcount ≡ s.refcount
unfolding split_loop
split_loop-refcount l zero order page s = refl
split_loop-refcount l (suc k) order page s =
    let buddy = get_buddy page (order + k) in
    split_loop-refcount l k order page (record s {
      order = update s.order buddy (order + k);
      links = list_add (page_list l buddy) (area l (order + k)) s.links;
    })

-- The counts of all pages but the first of the block that is returned.
abbrev KeepsCounts : Mm → Option ℕ × Mm → Type 0
KeepsCounts s r = (q o : ℕ) → r.0 ≡ some q → o ≢ q → r.1.refcount o ≡ s.refcount o

take_block-refcount : (l : Layout) (i order : ℕ) (s : Mm) → KeepsCounts s (take_block l i order s)
unfolding take_block
take_block-refcount l i order s q o e ne =
    let page = page_entry l (list_first_entry (area l i) s.links) in
    let s' : Mm = record {
      order = update s.order page order;
      used = update s.used page 1;
      cacheidx = s.cacheidx;
      refcount = update s.refcount page 1;
      links = list_del_init (page_list l page) s.links;
    } in
    let same : page ≡ q = ground (arith, e) in
    let other : (o == page) ≡ false = ==_false o page (λ z. ne (z ∙ same)) in
    ap (λ f. f o) (split_loop-refcount l (i - order) order page s') ∙ rw other refl

alloc_loop-refcount :
    (l : Layout) (k i order : ℕ) (s : Mm) → KeepsCounts s (alloc_loop l k i order s)
unfolding alloc_loop
alloc_loop-refcount l zero i order s q o e ne = refl
alloc_loop-refcount l (suc k) i order s q o e ne =
    by_list (list_empty (area l i) s.links) (alloc_loop-refcount l k (i + 1) order s q o) e
  where
    by_list :
        (empty : Bool)
        → ((alloc_loop l k (i + 1) order s).0 ≡ some q
            → o ≢ q
            → (alloc_loop l k (i + 1) order s).1.refcount o ≡ s.refcount o)
        → (if empty then alloc_loop l k (i + 1) order s else take_block l i order s).0 ≡ some q
        → (if empty then alloc_loop l k (i + 1) order s else take_block l i order s).1.refcount o
          ≡ s.refcount o
    by_list true later found = later found ne
    by_list false later found = take_block-refcount l i order s q o found ne

-- `alloc_pages` changes no count but that of the block it returns.
pub alloc_pages-refcount :
    (l : Layout) (order : ℕ) (s : Mm) (q o : ℕ)
    → (alloc_pages l order s).0 ≡ some q
    → o ≢ q
    → (alloc_pages l order s).1.refcount o ≡ s.refcount o
unfolding alloc_pages
alloc_pages-refcount l order s q o e ne =
    alloc_loop-refcount l (buddy_max_order + 1 - order) order order s q o e ne
