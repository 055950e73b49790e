-- ===== src/Mm/Kmalloc/Setup.antt =====
-- The set-up of `mem_map` and of the lists in src/mm.c.
use osc_riscv.Base.{
  ℕ, zero, suc, ◌+◌, ◌*◌, ◌%◌, ◌^◌, ◌<◌, ◌≤◌, ◌≡◌, ◌≢◌, ◌⊎◌, inl, inr, refl, false, List, [], ◌∷◌,
  ◌∈◌, ◌∉◌, has, map, arith, ◌==◌, if◌then◌else◌, update, Bool-cases, eq_of_==, ne_of_==, ==_false,
  subst, lt→ltb, has-append, ◌∙◌,
}
use mathlib.Core.List.{map-append}
use native.Mathlib.Nat.{add-zero}
use osc_riscv.Ring.{Ptr, Links, init_list_head, list_add_tail}
use osc_riscv.Ring.Chain.{IsRing}
use osc_riscv.Ring.Add.{init_list_head-frame, list_add_tail-IsRing, list_add_tail-SameOutside}
use osc_riscv.Mm.Defs.{Layout, Mm, area, page_list, buddy_max_order, num_pages}
use osc_riscv.Mm.Rings.{Rings, IsRing-other, has-page_list}
use osc_riscv.Mm.Invariant.{IsBuddySystem, cover_live}
use osc_riscv.Mm.Kmalloc.{init_heads, init_pages, init_map, cache_unalloc}
use osc_riscv.Mm.Kmalloc.Heads.{
  init_heads-out, init_heads-IsRing, heads, initial_free, initial_none, no_head, heads-mem,
  cover_list-heads, cover_free-initial,
}

module _ (l : Layout) where
  -- The pages below `i` are set up: `c` of them head a block.
  record IsStarted (i c : ℕ) (s : Mm) : Type 0 where
    pub rings : Rings l s.links (initial_free c)
    pub count : (i ≤ c * 1024) × (c * 1024 < i + 1024)
    pub orders : (q : ℕ) → q ∈ heads c → s.order q ≡ 10
    pub unused :
        (q : ℕ) → q < i → (s.used q ≡ 0) × (s.refcount q ≡ 0) × (s.cacheidx q ≡ cache_unalloc)

  page_out :
      (i c o : ℕ) → c * 1024 < i + 1024 → (c * 1024 ≤ i) ⊎ (i % 1024 ≢ 0) → i ∉ initial_free c o
  page_out i c o h z = elim (Bool-cases (has i (initial_free c o))) [
    | inl j ↦ absurd (ground (arith, heads-mem c i))
    | inr out ↦ out
  ]

  page_list_out :
      (i o : ℕ) (xs : List ℕ)
      → o ≤ buddy_max_order
      → i ∉ xs
      → page_list l i ∉ area l o ∷ map (page_list l) xs
  page_list_out i o xs ho out = ground (arith, l.behind, has-page_list l i xs)

  Rings-next :
      (i c : ℕ) (m : Links)
      → c * 1024 ≡ i
      → Rings l m (initial_free c)
      → Rings l
          (list_add_tail (page_list l i) (area l 10) (init_list_head (page_list l i) m))
          (initial_free (suc c))
  unfolding heads
  Rings-next i c m e r o ho =
      let mine = page_out i c 10 (omega (arith, e)) (inl (omega (arith, e))) in
      let m' = init_list_head (page_list l i) m in
      let kept : (o : ℕ)
          → o ≤ buddy_max_order
          → IsRing m' (area l o) (map (page_list l) (initial_free c o)) =
        λ o ho.
          init_list_head-frame m (page_list l i) (area l o) (map (page_list l) (initial_free c o))
            (page_list_out i o (initial_free c o) ho
              (page_out i c o (omega (arith, e)) (inl (omega (arith, e)))))
            (r o ho) in
      let largest = kept 10 (omega arith) in
      let out = page_list_out i 10 (heads c) (omega arith) mine in
      elim (Bool-cases (o == 10)) [
        | inl same ↦
            rw (eq_of_== o 10 same, e, map-append (page_list l) (heads c) (i ∷ []))
              (list_add_tail-IsRing m' (page_list l i) (area l 10) (map (page_list l) (heads c))
                largest out)
        | inr other ↦ rw other (
            IsRing-other l m' (list_add_tail (page_list l i) (area l 10) m') o 10 [] (i ∷ heads c)
              ho (omega arith) (ne_of_== o 10 other)
              (list_add_tail-SameOutside m' (page_list l i) (area l 10)
                (map (page_list l) (heads c)) largest)
              (λ q j. absurd (ground arith)) (rw other at (kept o ho)))
      ]

  -- One page.
  set_page : (i : ℕ) → Mm → Mm
  set_page i s =
      let first = i % 2 ^ buddy_max_order == 0 in
      let m = init_list_head (page_list l i) s.links in
      record {
        order = update s.order i (if first then buddy_max_order else 0);
        used = update s.used i 0;
        cacheidx = update s.cacheidx i cache_unalloc;
        refcount = update s.refcount i 0;
        links = if first then list_add_tail (page_list l i) (area l buddy_max_order) m else m;
      }

  IsStarted-head :
      (i c : ℕ) (s : Mm) → i % 1024 ≡ 0 → IsStarted i c s → IsStarted (i + 1) (suc c) (set_page i s)
  unfolding set_page heads
  IsStarted-head i c s z h =
      let e : c * 1024 ≡ i = omega (arith, h.count, z) in
      record {
        rings = λ o ho. rw z (Rings-next i c s.links e h.rings o ho);
        count = (omega (arith, e), omega (arith, e));
        orders = λ q j. elim (Bool-cases (q == i)) [
          | inl same ↦ rw same (rw z refl)
          | inr other ↦
              rw other (h.orders q (ground (arith, has-append q (heads c) (c * 1024 ∷ []), e)))
        ];
        unused = λ q lt. ground (arith, h.unused q);
      }

  IsStarted-inner :
      (i c : ℕ) (s : Mm) → i % 1024 ≢ 0 → IsStarted i c s → IsStarted (i + 1) c (set_page i s)
  unfolding set_page
  IsStarted-inner i c s z h =
      let test : (i % 1024 == 0) ≡ false = ==_false (i % 1024) 0 z in
      record {
        rings = λ o ho. rw test (
            init_list_head-frame s.links (page_list l i) (area l o)
              (map (page_list l) (initial_free c o))
              (page_list_out i o (initial_free c o) ho
                (page_out i c o (omega (arith, h.count)) (inr z)))
              (h.rings o ho));
        count = (omega (arith, h.count, z), omega (arith, h.count));
        orders = λ q j. elim (Bool-cases (q == i)) [
          | inl same ↦ absurd (ground (arith, heads-mem c q))
          | inr other ↦ rw other (h.orders q j)
        ];
        unused = λ q lt. ground (arith, h.unused q);
      }

  init_pages-IsStarted :
      (n i c : ℕ) (s : Mm) → IsStarted i c s → (c' : ℕ) × IsStarted (i + n) c' (init_pages l n i s)
  unfolding init_pages set_page
  init_pages-IsStarted zero i c s h = (c, rw (add-zero i) h)
  init_pages-IsStarted (suc n) i c s h =
      let shift : i + suc n ≡ i + 1 + n = omega arith in
      elim (Bool-cases (i % 1024 == 0)) [
        | inl z ↦ rw shift (
            init_pages-IsStarted n (i + 1) (suc c) (set_page i s)
              (IsStarted-head i c s (eq_of_== (i % 1024) 0 z) h))
        | inr z ↦ rw shift (
            init_pages-IsStarted n (i + 1) c (set_page i s)
              (IsStarted-inner i c s (ne_of_== (i % 1024) 0 z) h))
      ]

  IsStarted-IsBuddySystem :
      (s : Mm) → IsStarted num_pages 1280 s → IsBuddySystem l s (initial_free 1280) []
  unfolding cover_live
  IsStarted-IsBuddySystem s h = record {
    rings = h.rings;
    cover = λ p lt. omega (
      arith,
      cover_free-initial 1280 p,
      rw (lt→ltb p (1280 * 1024) lt) at (cover_list-heads 1280 p),
    );
    free_ok = λ o q ho j. elim (Bool-cases (o == 10)) [
      | inl same ↦
          let j' : q ∈ heads 1280 = rw same at j in
          rw (eq_of_== o 10 same) (
            (omega (arith, heads-mem 1280 q j'), omega (arith, heads-mem 1280 q j')),
            h.orders q j',
          )
      | inr other ↦ absurd (ground (arith, j))
    ];
    live_ok = tt;
  }

  -- The buddy system's heads are empty lists before the pages are set up.
  IsStarted-none :
      (caches : Ptr) (s : Mm)
      → (caches + 16 * 7 ≤ l.free_area) ⊎ (l.free_area + 16 * 11 ≤ caches)
      → let m = init_heads l 11 l.free_area s.links in
        IsStarted 0 0 (record s { links = init_heads l 7 caches m })
  IsStarted-none caches s apart =
      let m = init_heads l 11 l.free_area s.links in
      record {
        rings = λ o ho.
            let kept = init_heads-out l 7 caches m (area l o) (ground arith) in
            let empty = init_heads-IsRing l 11 l.free_area o s.links (omega (arith, ho)) in
            rw (initial_none o) (record {
              chain = (kept.0 ∙ empty.chain.0, kept.1 ∙ empty.chain.1);
              head_out = refl;
              distinct = tt;
            });
        count = (omega arith, omega arith);
        orders = λ q j. absurd (no_head q j);
        unused = λ q lt. absurd (omega arith);
      }

  -- Whatever the memory holds, the set-up of the lists' heads and of `mem_map` makes a buddy system of
  -- it in which every page is free: 1280 blocks of the largest order, in the order of their pages, no
  -- page used, referred to, or in a cache. The caches' heads lie apart from the buddy system's and
  -- from `mem_map`.
  pub init_map-IsBuddySystem :
      (caches : Ptr) (s : Mm)
      → (caches + 16 * 7 ≤ l.free_area) ⊎ (l.free_area + 16 * 11 ≤ caches)
      → let s' = init_map l caches s in
        IsBuddySystem l s' (initial_free 1280) []
        × ((q : ℕ)
            → q < num_pages
            → (s'.used q ≡ 0) × (s'.refcount q ≡ 0) × (s'.cacheidx q ≡ cache_unalloc))
  unfolding init_map
  init_map-IsBuddySystem caches s apart =
      let m = init_heads l 11 l.free_area s.links in
      let s1 : Mm = record s { links = init_heads l 7 caches m } in
      let (c, done) = init_pages-IsStarted num_pages 0 0 s1 (IsStarted-none caches s apart) in
      let whole : c ≡ 1280 = omega (arith, done.count) in
      let full : IsStarted num_pages 1280 (init_pages l num_pages 0 s1) =
        subst (λ (k : ℕ). IsStarted num_pages k (init_pages l num_pages 0 s1)) whole done in
      (IsStarted-IsBuddySystem (init_pages l num_pages 0 s1) full, λ q lt. full.unused q lt)
