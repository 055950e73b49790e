-- ===== src/Mm/Take.antt =====
-- `alloc_pages` of src/mm.c: the search for a free block, and the block that it hands out.
use osc_riscv.Base.{
  ℕ, zero, suc, ◌+◌, ◌-◌, ◌≤◌, ◌<◌, ◌≡◌, refl, ap, subst, ◌∙◌, List, [], ◌∷◌, ◌∈◌, ◌∉◌, arith, ◌==◌,
  if◌then◌else◌, Bool-cases, inl, inr, ◌⊎◌, update, Option, none, some, erase, ne_of_mem, ==_refl,
  eq_of_==, ==_false, map,
}
use osc_riscv.Ring.{list_del_init, list_first_entry, list_empty}
use osc_riscv.Ring.Chain.{IsRing}
use osc_riscv.Ring.Walk.{list_first_entry-ring, list_empty-ring, null?}
use osc_riscv.Mm.Defs.{
  Layout, Mm, area, page_list, page_entry, num_pages, buddy_max_order, take_block, alloc_loop,
  alloc_pages,
}
use osc_riscv.Mm.Rings.{Rings-list_del_init, page_entry-page_list}
use osc_riscv.Mm.Blocks.{
  covers, cover_free, IsBlock, cover_free-update, cover_list-erase, covers_self,
}
use osc_riscv.Mm.Invariant.{
  Block, cover_live, Holds, IsBuddySystem, head_in_memory, IsLive-frame, live_ne, Holds-Apart,
  cover_live_cons, mem_take, not_free_of_uncovered,
}
use osc_riscv.Mm.Alloc.{split_loop-Holds}

-- The state in which the block at `q` has left its list.
abbrev taken : Layout → ℕ → ℕ → Mm → Mm
taken l order q s = record {
  order = update s.order q order;
  used = update s.used q 1;
  cacheidx = s.cacheidx;
  refcount = update s.refcount q 1;
  links = list_del_init (page_list l q) s.links;
}

module _ {l : Layout} {s : Mm} {free : ℕ → List ℕ} {live : List Block} (i order q : ℕ)
    (h : IsBuddySystem l s free live) (hi : i ≤ buddy_max_order) (j : q ∈ free i) where
  taken_cover :
      (p : ℕ)
      → p < num_pages
      → cover_free 11 (update free i (erase q (free i))) p + cover_live live p + covers i q p ≡ 1
  taken_cover p lt = omega (
    arith,
    h.cover p lt,
    cover_free-update 11 i p free (erase q (free i)) (omega arith),
    cover_list-erase i q p (free i) j,
  )

  taken_fresh : (o : ℕ) → o ≤ buddy_max_order → q ∉ update free i (erase q (free i)) o
  taken_fresh =
      not_free_of_uncovered (update free i (erase q (free i))) q
        (omega (arith, taken_cover q (head_in_memory q i (h.free_ok i q hi j).0), covers_self i q))

  taken-Holds : Holds l (taken l order q s) (update free i (erase q (free i))) live (covers i q)
  taken-Holds = record {
    rings = Rings-list_del_init l s.links free h.rings (Holds-Apart h) i q hi j;
    cover = taken_cover;
    free_ok = λ o p ho k. (
      (h.free_ok o p ho (mem_take free i q o p k)).0,
      rw (==_false p q (ne_of_mem p q (update free i (erase q (free i)) o) k (taken_fresh o ho)))
          (h.free_ok o p ho (mem_take free i q o p k)).1,
    );
    live_ok =
        IsLive-frame s (taken l order q s) q live (λ p ne. ground arith)
          (live_ne live q (
            omega
              (arith, taken_cover q (head_in_memory q i (h.free_ok i q hi j).0), covers_self i q)))
          h.live_ok;
  }

  take_block-Holds :
      (qs : List ℕ)
      → free i ≡ q ∷ qs
      → order ≤ i
      → ((take_block l i order s).0 ≡ some q)
        × IsBlock q order
        × ((take_block l i order s).1.refcount q ≡ 1)
        × ((free' : ℕ → List ℕ) × IsBuddySystem l
              (take_block l i order s).1
              free'
              ((q, order) ∷ live))
  unfolding take_block
  take_block-Holds qs e le =
      let ring : IsRing s.links (area l i) (page_list l q ∷ map (page_list l) qs) =
        subst (λ xs. IsRing s.links (area l i) (map (page_list l) xs)) e (h.rings i hi) in
      let first : page_entry l (list_first_entry (area l i) s.links) ≡ q =
        ap (page_entry l)
          (list_first_entry-ring s.links (area l i) (page_list l q) (map (page_list l) qs) ring)
        ∙ page_entry-page_list l q in
      let whole : order + (i - order) ≡ i = omega arith in
      let (free', h', b', same) =
        split_loop-Holds l (i - order) order q (taken l order q s)
          (update free i (erase q (free i))) live (rw whole taken-Holds)
          (rw whole (h.free_ok i q hi j).0) (omega arith) in
      let at : (taken l order q s).order q ≡ order = rw (==_refl q) in
      let used : (taken l order q s).used q ≡ 1 = rw (==_refl q) in
      let count : (taken l order q s).refcount q ≡ 1 = rw (==_refl q) in
      rw first (
        refl,
        b',
        same.2 ∙ count,
        (
          free',
          record {
            rings = h'.rings;
            cover = λ p lt. omega (arith, h'.cover p lt, cover_live_cons q order live p);
            free_ok = h'.free_ok;
            live_ok = ((b', omega arith, same.0 ∙ at, same.1 ∙ used), h'.live_ok);
          },
        ),
      )

-- What `alloc_pages` may return when it has searched the orders from `i` on.
abbrev pub Refused : Mm → (ℕ → List ℕ) → ℕ → Option ℕ × Mm → Type 0
Refused s free i r =
    (r.0 ≡ none) × (r.1 ≡ s) × ((o : ℕ) → i ≤ o → o ≤ buddy_max_order → free o ≡ [])

abbrev pub Allocated : Layout → ℕ → List Block → Option ℕ × Mm → Type 0
Allocated l order live r =
    (q : ℕ) × (r.0 ≡ some q)
    × IsBlock q order
    × (r.1.refcount q ≡ 1)
    × ((free' : ℕ → List ℕ) × IsBuddySystem l r.1 free' ((q, order) ∷ live))

module _ {l : Layout} {s : Mm} {free : ℕ → List ℕ} {live : List Block} (order : ℕ)
    (h : IsBuddySystem l s free live) where
  list_empty-free :
      (i : ℕ) (xs : List ℕ)
      → i ≤ buddy_max_order
      → free i ≡ xs
      → list_empty (area l i) s.links ≡ null? (map (page_list l) xs)
  list_empty-free i xs hi e =
      list_empty-ring s.links (area l i) (map (page_list l) xs)
        (subst (λ xs. IsRing s.links (area l i) (map (page_list l) xs)) e (h.rings i hi))

  alloc_loop-Holds :
      (k i : ℕ)
      → i + k ≡ buddy_max_order + 1
      → order ≤ i
      → Refused s free i (alloc_loop l k i order s)
        ⊎ Allocated l order live (alloc_loop l k i order s)
  unfolding alloc_loop
  alloc_loop-Holds zero i e le = inl (refl, refl, λ o p p'. absurd (omega arith))
  alloc_loop-Holds (suc k) i e le =
      by_list (free i) refl (alloc_loop-Holds k (i + 1) (omega arith) (omega arith))
    where
      by_list :
          (xs : List ℕ)
          → free i ≡ xs
          → Refused s free (i + 1) (alloc_loop l k (i + 1) order s)
            ⊎ Allocated l order live (alloc_loop l k (i + 1) order s)
          → let r =
              if list_empty (area l i) s.links
              then alloc_loop l k (i + 1) order s
              else take_block l i order s in
            Refused s free i r ⊎ Allocated l order live r
      by_list [] here (inl (a, b, none_above)) = rw (list_empty-free i [] (omega arith) here) (
          inl (
            a,
            b,
            λ o p p'. elim (Bool-cases (i == o)) [
              | inl same ↦ rw (← eq_of_== i o same) here
              | inr ne ↦ none_above o (ground arith) p'
            ],
          ))
      by_list [] here (inr found) = rw (list_empty-free i [] (omega arith) here) (inr found)
      by_list (q ∷ qs) here later = rw (list_empty-free i (q ∷ qs) (omega arith) here) (
          let (got, block, count, holds) =
            take_block-Holds i order q h (omega arith) (rw here (ground arith)) qs here le in
          inr (q, got, block, count, holds))

-- `alloc_pages` either finds that no free block of the order asked for or of a larger one is left,
-- returns the null pointer and changes nothing; or it returns a block of just that order, aligned
-- to its size, with one reference, which no other live block overlaps, and every page still stands
-- in exactly one block.
pub alloc_pages-Holds :
    {l : Layout} {s : Mm} {free : ℕ → List ℕ} {live : List Block} (order : ℕ)
    → order ≤ buddy_max_order
    → IsBuddySystem l s free live
    → Refused s free order (alloc_pages l order s) ⊎ Allocated l order live (alloc_pages l order s)
unfolding alloc_pages
alloc_pages-Holds order le h =
    alloc_loop-Holds order h (buddy_max_order + 1 - order) order (omega arith) (omega arith)
