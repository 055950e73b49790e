-- ===== src/Vm/Fault/Cow.antt =====
-- Copy on write in src/vm.c.
use Prim.Native.Nat.{bit_and}
use osc_riscv.Base.{
  ℕ, zero, suc, ◌+◌, ◌-◌, ◌*◌, ◌%◌, ◌^◌, ◌<◌, ◌≤◌, ◌≡◌, ◌≢◌, ◌⊎◌, inl, inr, refl, ap, sym, ◌∙◌,
  false, none, some, arith, ◌==◌, ltb, update, Bool-cases, ==_refl, ==_false, lt→ltb,
}
use native.Mathlib.Nat.{add-zero}
use osc_riscv.Base.{List, [], ◌∷◌, ap}
use osc_riscv.Mm.Defs.{buddy_max_order, Layout, Mm, alloc_pages, put_page, num_pages, page_size}
use osc_riscv.Mm.Invariant.{Block, IsBuddySystem, cover_live, head_in_memory, cover_live_cons}
use osc_riscv.Mm.Blocks.{covers_self, covers}
use osc_riscv.Mm.Counts.{alloc_pages-refcount}
use osc_riscv.Mm.Take.{alloc_pages-Holds}
use osc_riscv.Mm.Kmalloc.{page_to_virt, virt_to_page}
use osc_riscv.Vm.{
  copy_words, VmAreaStruct, mk_pte, pte_to_virt, page_offset, page_write, exc_store_page_fault,
}
use osc_riscv.Vm.Entries.{pte_to_virt-mk_pte}
use osc_riscv.Vm.Fault.{Memory, handled, unallocated, copy_page, fault_in}

-- Copying words changes none outside the block …
pub copy_words_out :
    (n dst src : ℕ) (word : ℕ → ℕ) (a : ℕ)
    → (a < dst) ⊎ (dst + 8 * n ≤ a)
    → copy_words n dst src word a ≡ word a
unfolding copy_words
copy_words_out zero dst src word a o = refl
copy_words_out (suc n) dst src word a o =
    ground
      (arith, copy_words_out n (dst + 8) (src + 8) (update word dst (word src)) a (ground arith))

-- … and copies each of it, if the blocks are apart.
pub copy_words_in :
    (n dst src : ℕ) (word : ℕ → ℕ) (j : ℕ)
    → (dst + 8 * n ≤ src) ⊎ (src + 8 * n ≤ dst)
    → j < n
    → copy_words n dst src word (dst + 8 * j) ≡ word (src + 8 * j)
unfolding copy_words
copy_words_in zero dst src word j o lt = absurd (omega arith)
copy_words_in (suc n) dst src word zero o lt = ground (
  arith,
  add-zero dst,
  add-zero src,
  copy_words_out n (dst + 8) (src + 8) (update word dst (word src)) dst (inl (omega arith)),
)
copy_words_in (suc n) dst src word (suc j) o lt =
    let shift : dst + 8 * suc j ≡ dst + 8 + 8 * j = omega arith in
    let shift' : src + 8 * suc j ≡ src + 8 + 8 * j = omega arith in
    rw (shift, shift')
      (copy_words_in n (dst + 8) (src + 8) (update word dst (word src)) j (ground arith)
          (omega arith)
        ∙ ground arith)

-- The words of a page of the kernel.
abbrev pub OutsidePage : (a page : ℕ) → Type 0
OutsidePage a page =
    (a < page_offset + page_size * page) ⊎ (page_offset + page_size * page + page_size ≤ a)

page_to_virt_small : (n : ℕ) → n < num_pages → page_to_virt n ≡ page_offset + page_size * n
unfolding page_to_virt
page_to_virt_small n h = omega (arith, h)

-- The page is handed out.
abbrev pub InUse : List Block → ℕ → Type 0
InUse live p = (p < num_pages) × (cover_live live p ≡ 1)

-- The process has a page of its own instead of the page `old`.
pub record Copied (live : List Block) (old pte : ℕ) (s s' : Memory) : Type 0 where
  pub page : ℕ
  pub fresh : cover_live live page ≡ 0
  pub leads : pte_to_virt (s'.tables.word pte) ≡ page_to_virt page
  pub contents :
      (j : ℕ)
      → j < 512
      → s'.tables.word (page_offset + page_size * page + 8 * j)
        ≡ s.tables.word (page_offset + page_size * old + 8 * j)
  pub others : (a : ℕ) → OutsidePage a page → a ≢ pte → s'.tables.word a ≡ s.tables.word a
  pub count : s'.mm.refcount old ≡ s.mm.refcount old - 1

new_ne :
    (q p : ℕ) (live : List Block) (free : ℕ → List ℕ) (l : Layout) (s : Mm)
    → IsBuddySystem l s free ((q, 0) ∷ live)
    → InUse live p
    → p ≢ q
new_ne q p live free l s h u e =
    let same : covers 0 q p ≡ 1 = rw e (covers_self 0 q) in
    absurd (omega (arith, h.cover p u.0, cover_live_cons q 0 live p, u.1, same))

fresh_zero :
    (q : ℕ) (live : List Block) (free : ℕ → List ℕ) (l : Layout) (s : Mm)
    → IsBuddySystem l s free ((q, 0) ∷ live)
    → q < num_pages
    → cover_live live q ≡ 0
fresh_zero q live free l s h lt =
    omega (arith, h.cover q lt, cover_live_cons q 0 live q, covers_self 0 q)

apart_pages :
    (q p a : ℕ)
    → p ≢ q
    → (page_offset + page_size * p ≤ a) × (a < page_offset + page_size * p + page_size)
    → OutsidePage a q
apart_pages q p a ne (low, high) = elim (Bool-cases (ltb p q)) [
  | inl less ↦ inl (ground (arith, low, high, less))
  | inr more ↦ inr (let lt : q < p = ground (arith, ne, more) in omega (arith, low, high, lt))
]

put_page-shared :
    (l : Layout) (p : ℕ) (s : Mm)
    → 1 < s.refcount p
    → s.refcount p < 2 ^ 32
    → (put_page l p s).refcount p ≡ s.refcount p - 1
unfolding put_page
put_page-shared l p s two word =
    let count : (s.refcount p + 2 ^ 32 - 1) % 2 ^ 32 ≡ s.refcount p - 1 =
      omega (arith, two, word) in
    let more : (s.refcount p - 1 == 0) ≡ false =
      ==_false (s.refcount p - 1) 0 (λ z. absurd (omega (arith, z, two))) in
    rw (==_refl p, count, more, ==_refl p) refl

module _ (l : Layout) (a : VmAreaStruct) (pte old : ℕ) (s : Memory) (free : ℕ → List ℕ)
    (live : List Block) where
  -- The fault is one on a shared page `old`; the entry stands in a page that is handed out.
  pub record IsShared : Type 0 where
    pub system : IsBuddySystem l s.mm free live
    pub leads : virt_to_page (pte_to_virt (s.tables.word pte)) ≡ old
    pub shared : (1 < s.mm.refcount old) × (s.mm.refcount old < 2 ^ 32)
    pub used : InUse live old
    pub table : ℕ
    pub table_used : InUse live table
    pub entry :
        (page_offset + page_size * table ≤ pte)
        × (pte < page_offset + page_size * table + page_size)

  copy_page-shared :
      IsShared
      → (q : ℕ) → (alloc_pages l 0 s.mm).0 ≡ some q
      → q < num_pages
      → cover_live live q ≡ 0
      → old ≢ q
      → OutsidePage pte q
      → (s' : Memory) × (copy_page l a pte s ≡ handled s') × Copied live old pte s s'
  unfolding copy_page
  copy_page-shared h q e lt fresh ne out =
      let apart : (j : ℕ) → j < 512 → pte ≢ page_offset + page_size * q + 8 * j =
        λ j lt' z. absurd (omega (arith, z, out)) in
      let mm = (alloc_pages l 0 s.mm).1 in
      let word = copy_words 512 (page_to_virt q) (page_to_virt old) s.tables.word in
      let mine = page_to_virt_small q lt in
      let theirs = page_to_virt_small old h.used.0 in
      let kept = alloc_pages-refcount l 0 s.mm q old e ne in
      (
        record {
          tables = record s.tables { word = update word pte (mk_pte (page_to_virt q) a.vm_flags) };
          mm = put_page l old mm;
        },
        rw (e, h.leads, lt→ltb 1 (s.mm.refcount old) h.shared.0) refl,
        record {
          page = q;
          fresh = fresh;
          leads = rw (==_refl pte, mine) ((pte_to_virt-mk_pte q a.vm_flags (omega (arith, lt))).0);
          contents = λ j lt'.
              let off : (page_offset + page_size * q + 8 * j == pte) ≡ false =
                ==_false (page_offset + page_size * q + 8 * j) pte
                  (λ z. absurd (apart j lt' (sym z))) in
              rw off (
                rw (mine, theirs)
                  (copy_words_in 512 (page_offset + page_size * q) (page_offset + page_size * old)
                    s.tables.word j (omega arith) lt'));
          others = λ b out ne'.
              rw (==_false b pte ne', mine)
                (copy_words_out 512 (page_offset + page_size * q) (page_to_virt old) s.tables.word b
                  (omega (arith, out)));
          count =
              put_page-shared l old mm (omega (arith, kept, h.shared))
                (omega (arith, kept, h.shared))
              ∙ ap (λ (t : ℕ). t - 1) kept;
        },
      )

  copy_page-unallocated :
      IsShared → (alloc_pages l 0 s.mm).0 ≡ none → copy_page l a pte s ≡ unallocated
  unfolding copy_page
  copy_page-unallocated h e = rw (e, h.leads, lt→ltb 1 (s.mm.refcount old) h.shared.0) refl

  -- A store to a page that another process shares, through an entry that denies writing, either
  -- finds no free block and leaves the lists of free blocks empty from order 0 on, or gives the process a page of
  -- its own: a page that was not handed out, to which the entry leads, with the 512 words of the
  -- shared page; all words outside the new page and the entry are unchanged, and the shared page has
  -- one reference less. The allocator's lists are a buddy system, the entry stands in a page that is
  -- handed out, and so does the shared page.
  pub fault_in-Copied :
      (addr : ℕ)
      → IsShared
      → s.tables.word pte ≢ 0
      → bit_and (s.tables.word pte) page_write ≡ 0
      → let r = fault_in l exc_store_page_fault a addr pte s in
        ((r ≡ unallocated) × ((o : ℕ) → 0 ≤ o → o ≤ buddy_max_order → free o ≡ []))
        ⊎ ((s' : Memory) × (r ≡ handled s') × Copied live old pte s s')
  unfolding fault_in
  fault_in-Copied addr h present denied =
      rw (==_false (s.tables.word pte) 0 present, denied)
        (elim (alloc_pages-Holds 0 (omega arith) h.system) [
          | inl (e, same, no_block) ↦ inl (copy_page-unallocated h e, no_block)
          | inr (q, e, block, one, (free', system)) ↦
              let lt = head_in_memory q 0 block in
              let table_ne =
                new_ne q h.table live free' l (alloc_pages l 0 s.mm).1 system h.table_used in
              inr (
                copy_page-shared h q e lt
                  (fresh_zero q live free' l (alloc_pages l 0 s.mm).1 system lt)
                  (new_ne q old live free' l (alloc_pages l 0 s.mm).1 system h.used)
                  (apart_pages q h.table pte table_ne h.entry))
        ])
