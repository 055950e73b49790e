-- ===== src/Vm/Fault/Demand.antt =====
-- Demand paging in src/vm.c: a fault on a page that has no entry.
use Prim.Native.Nat.{bit_and}
use osc_riscv.Base.{
  ℕ, zero, suc, ◌+◌, ◌-◌, ◌*◌, ◌/◌, ◌%◌, ◌^◌, ◌<◌, ◌≤◌, ◌≡◌, ◌≢◌, ◌⊎◌, inl, inr, refl, sym, ap,
  subst, ◌∙◌, false, some, arith, ◌==◌, update, if◌then◌else◌, Bool-cases, ==_false, ne_of_==,
}
use osc_riscv.Base.Bits.{and_round}
use osc_riscv.Ring.{Ptr}
use osc_riscv.Mm.Defs.{Layout, Mm, alloc_pages}
use osc_riscv.Mm.Kmalloc.{page_to_virt}
use osc_riscv.Vm.{
  Tables, Areas, VmAreaStruct, mk_pte, pte_alloc_map, find_vma, access_error, fill_entry, walk_loop,
  pte_entry, pte_to_virt,
}
use osc_riscv.Vm.Forest.{frame_at, slot, Forest, page_number, leaf}
use osc_riscv.Vm.Forest.Grow.{slot_ne, leaf-some, clear_words_out, clear_words_in}
use osc_riscv.Vm.Forest.Walk.{IsPaged, pages_of, Walked}
use osc_riscv.Vm.Forest.Map.{Maps, pte_alloc_map-Walked, set_leaf-IsForest, leaf-set_leaf}
use osc_riscv.Vm.Forest.Congr.{IsForest-congr, leaf-congr, slot_outside, IsFresh-next}
use osc_riscv.Vm.Fault.{
  Memory, handled, kmalloc_times, kmalloc_nth, walked, fill_page, demand_page, fault_in,
  do_page_fault, page_mask,
}
use osc_riscv.Vm.Fault.Cow.{copy_words_out}

fill_page-out :
    (a : VmAreaStruct) (addr page : ℕ) (word : ℕ → ℕ) (b : ℕ)
    → (b < page) ⊎ (page + 8 * 512 ≤ b)
    → fill_page a addr page word b ≡ word b
unfolding fill_page
fill_page-out a addr page word b o = elim (Bool-cases (a.vm_file == 0)) [
  | inl e ↦ rw e (clear_words_out 512 page word b o)
  | inr e ↦
      rw e (copy_words_out 512 page ((a.vm_file + (addr + 2 ^ 64 - a.vm_start)) % 2 ^ 64) word b o)
]

fill_page-zero :
    (a : VmAreaStruct) (addr page : ℕ) (word : ℕ → ℕ) (j : ℕ)
    → j < 512
    → (a.vm_file ≢ 0) ⊎ (fill_page a addr page word (page + 8 * j) ≡ 0)
unfolding fill_page
fill_page-zero a addr page word j lt = elim (Bool-cases (a.vm_file == 0)) [
  | inl e ↦ inr (rw e (clear_words_in 512 page word j lt))
  | inr e ↦ inl (ne_of_== a.vm_file 0 e)
]

-- The next `n` calls of `kmalloc(PAGE_SIZE)` succeed, and return the pages `frames i`, `frames (i + 1)`, …
abbrev pub Supplies : Layout → (frames : ℕ → ℕ) (n i : ℕ) → Mm → Type 0
Supplies l frames zero i mm = Unit
Supplies l frames (suc n) i mm =
    ((alloc_pages l 0 mm).0 ≡ some (frames i)) × Supplies l frames n (i + 1) (alloc_pages l 0 mm).1

-- The allocator behind `n` calls.
abbrev after : Layout → ℕ → Mm → Mm
after l zero mm = mm
after l (suc n) mm = after l n (alloc_pages l 0 mm).1

after-suc : (l : Layout) (n : ℕ) (mm : Mm) → (alloc_pages l 0 (after l n mm)).1 ≡ after l (suc n) mm
after-suc l zero mm = refl
after-suc l (suc n) mm = after-suc l n (alloc_pages l 0 mm).1

-- A page that the 64-bit addresses of the kernel's half reach.
page_to_virt-frame_at : (p : ℕ) → p < 2 ^ 26 → page_to_virt p ≡ frame_at p
unfolding page_to_virt
page_to_virt-frame_at p lt = omega (arith, lt)

module _ (l : Layout) (frames : ℕ → ℕ) (limit : ℕ)
    (small : (i : ℕ) → i < limit → frames i < 2 ^ 26) where
  kmalloc_nth-Supplies :
      (j n i : ℕ) (mm : Mm)
      → Supplies l frames n i mm
      → j < n
      → i + n ≤ limit
      → kmalloc_nth l j mm ≡ pages_of frames (i + j)
  unfolding kmalloc_nth
  kmalloc_nth-Supplies j zero i mm h lt le = absurd (omega arith)
  kmalloc_nth-Supplies zero (suc n) i mm h lt le =
      let at : i + 0 ≡ i = omega arith in
      rw (kmalloc_nth, h.0, at) (page_to_virt-frame_at (frames i) (small i (omega arith)))
  kmalloc_nth-Supplies (suc j) (suc n) i mm h lt le =
      let at : i + suc j ≡ i + 1 + j = omega arith in
      rw at
        (kmalloc_nth-Supplies j n (i + 1) (alloc_pages l 0 mm).1 h.1 (omega arith) (omega arith))

  kmalloc_times-Supplies :
      (n m i : ℕ) (mm : Mm)
      → Supplies l frames m i mm
      → n ≤ m
      → kmalloc_times l n mm ≡ some (after l n mm)
  unfolding kmalloc_times
  kmalloc_times-Supplies zero m i mm h le = refl
  kmalloc_times-Supplies (suc n) zero i mm h le = absurd (omega arith)
  kmalloc_times-Supplies (suc n) (suc m) i mm h le =
      rw (kmalloc_times, h.0)
        (kmalloc_times-Supplies n m (i + 1) (alloc_pages l 0 mm).1 h.1 (omega arith))

  Supplies-after :
      (n m i : ℕ) (mm : Mm)
      → Supplies l frames m i mm
      → n < m
      → (alloc_pages l 0 (after l n mm)).0 ≡ some (frames (i + n))
  Supplies-after n zero i mm h lt = absurd (omega arith)
  Supplies-after zero (suc m) i mm h lt = let at : i + 0 ≡ i = omega arith in rw at h.0
  Supplies-after (suc n) (suc m) i mm h lt =
      let at : i + suc n ≡ i + 1 + n = omega arith in
      rw at (Supplies-after n m (i + 1) (alloc_pages l 0 mm).1 h.1 (omega arith))

-- The walk uses only the pages from the next one on, one for each level.
fill_entry-congr :
    (pages pages' : ℕ → ℕ) (entry : ℕ) (t : Tables)
    → pages t.taken ≡ pages' t.taken
    → fill_entry pages entry t ≡ fill_entry pages' entry t
unfolding fill_entry
fill_entry-congr pages pages' entry t e = rw e refl

fill_entry-taken :
    (pages : ℕ → ℕ) (entry : ℕ) (t : Tables)
    → (t.taken ≤ (fill_entry pages entry t).taken)
      × ((fill_entry pages entry t).taken ≤ t.taken + 1)
unfolding fill_entry
fill_entry-taken pages entry t = elim (Bool-cases (t.word entry == 0)) [
  | inl e ↦ rw e (omega arith, omega arith)
  | inr e ↦ rw e (omega arith, omega arith)
]

walk_loop-taken :
    (pages : ℕ → ℕ) (level pte va : ℕ) (t : Tables)
    → (t.taken ≤ (walk_loop pages level pte va t).1.taken)
      × ((walk_loop pages level pte va t).1.taken ≤ t.taken + level)
unfolding walk_loop
walk_loop-taken pages zero pte va t = (omega arith, omega arith)
walk_loop-taken pages (suc level) pte va t =
    let entry = pte_entry pte va (suc level) in
    let t' = fill_entry pages entry t in
    let (low, high) = fill_entry-taken pages entry t in
    let (low', high') = walk_loop-taken pages level (pte_to_virt (t'.word entry)) va t' in
    (omega (arith, low, low'), omega (arith, high, high'))

walk_loop-congr :
    (pages pages' : ℕ → ℕ) (level pte va : ℕ) (t : Tables)
    → ((i : ℕ) → t.taken ≤ i → i < t.taken + level → pages i ≡ pages' i)
    → walk_loop pages level pte va t ≡ walk_loop pages' level pte va t
unfolding walk_loop
walk_loop-congr pages pages' zero pte va t h = refl
walk_loop-congr pages pages' (suc level) pte va t h =
    let entry = pte_entry pte va (suc level) in
    let t' = fill_entry pages' entry t in
    let (low, high) = fill_entry-taken pages' entry t in
    rw (fill_entry-congr pages pages' entry t (h t.taken (omega arith) (omega arith))) (
      walk_loop-congr pages pages' level (pte_to_virt (t'.word entry)) va t'
        (λ i le lt. h i (omega (arith, le, low)) (omega (arith, lt, high))))

-- The page of the address has a new page, with `frame` for its number, and no other page has another entry.
pub record Paged (l : Layout) (frames : ℕ → ℕ) (limit k process addr : ℕ) (a : VmAreaStruct)
    (forest : Forest) (s s' : Memory) : Type 0 where
  pub frame : ℕ
  pub maps :
      Maps frames limit k forest
        (λ v.
          if v == page_number process addr
          then mk_pte (frame_at frame) a.vm_flags
          else leaf forest s.tables.word v)
        s'.tables
  pub blank : (j : ℕ) → j < 512 → (a.vm_file ≢ 0) ⊎ (s'.tables.word (slot frame j) ≡ 0)
  pub unused : (level x : ℕ) → maps.forest' level x ≢ some frame
  pub allocator : kmalloc_times l (s'.tables.taken - s.tables.taken) s.mm ≡ some s'.mm

-- The state behind `demand_page`, of the page in the frame `f`.
abbrev demanded : (a : VmAreaStruct) (addr entry f : ℕ) → Tables → Mm → Memory
demanded a addr entry f t mm = record {
  tables = record {
    word = update (fill_page a addr (frame_at f) t.word) entry (mk_pte (frame_at f) a.vm_flags);
    taken = t.taken + 1;
  };
  mm = mm;
}

demand_page-some :
    (l : Layout) (a : VmAreaStruct) (addr pte f : ℕ) (t : Tables) (mm : Mm)
    → (alloc_pages l 0 mm).0 ≡ some f
    → f < 2 ^ 26
    → demand_page l a addr pte (record { tables = t; mm = mm })
      ≡ handled (demanded a addr pte f t (alloc_pages l 0 mm).1)
unfolding demand_page
demand_page-some l a addr pte f t mm e lt = rw (demand_page, e, page_to_virt-frame_at f lt) refl

module _ (l : Layout) (frames : ℕ → ℕ) (limit k process : ℕ) (a : VmAreaStruct) (addr : ℕ)
    (forest : Forest) (s : Memory) (entry : ℕ) (t : Tables) where
  demanded-Paged :
      Walked frames limit (suc k) (page_number process addr) forest s.tables entry t
      → (addr' : ℕ) (mm : Mm) → kmalloc_times l (t.taken + 1 - s.tables.taken) s.mm ≡ some mm
      → Paged l frames limit k process addr a forest s
          (demanded a addr' entry (frames t.taken) t mm)
  demanded-Paged w addr' mm calls =
      let f = frames t.taken in
      let lt : t.taken < limit = omega (arith, w.paged.room) in
      let word = fill_page a addr' (frame_at f) t.word in
      let other = λ (level x g : ℕ) (there : w.forest' level x ≡ some g) (e : g ≡ f).
        w.paged.fresh.unused t.taken level x (omega arith) lt (there ∙ ap some e) in
      let same = λ (level x g j : ℕ) (there : w.forest' level x ≡ some g) (small : j < 512).
        fill_page-out a addr' (frame_at f) t.word (slot g j)
          (slot_outside g f j small (other level x g there)) in
      let v = page_number process addr in
      let h = IsForest-congr w.forest' t.word word same w.paged.tables in
      let apart = λ (j : ℕ) (small : j < 512). ==_false (slot f j) (slot w.table (v % 512)) (
        slot_ne f w.table j (v % 512) small (omega arith)
          (inl (λ e. other 0 (v / 512) w.table w.there (sym e)))) in
      let new = mk_pte (frame_at f) a.vm_flags in
      rw w.entry_at (record {
        frame = f;
        maps = record {
          forest' = w.forest';
          paged = record {
            tables = set_leaf-IsForest w.forest' word h v w.table new w.there;
            fresh = IsFresh-next w.forest' frames limit t.taken w.paged.fresh;
            room = omega (arith, w.paged.room);
          };
          leaves = λ v'.
              leaf-set_leaf w.forest' word h v w.table new w.there v'
              ∙ rw (leaf-congr w.forest' t.word word same v', w.same v') refl;
          kept = w.kept;
        };
        blank = λ j small. elim (fill_page-zero a addr' (frame_at f) t.word j small) [
          | inl file ↦ inl file
          | inr blank ↦ inr (rw (apart j small) blank)
        ];
        unused = λ level x there. other level x f there refl;
        allocator = calls;
      })

fault_in-demand :
    (l : Layout) (cause : ℕ) (a : VmAreaStruct) (addr pte : ℕ) (s : Memory)
    → s.tables.word pte ≡ 0
    → fault_in l cause a addr pte s ≡ demand_page l a addr pte s
unfolding fault_in
fault_in-demand l cause a addr pte s e = rw e refl

walked-demand :
    (l : Layout) (cause : ℕ) (a : VmAreaStruct) (addr pte : ℕ) (t : Tables) (s : Memory) (mm : Mm)
    → kmalloc_times l (t.taken - s.tables.taken) s.mm ≡ some mm
    → t.word pte ≡ 0
    → walked l cause a addr pte t s ≡ demand_page l a addr pte (record { tables = t; mm = mm })
unfolding walked
walked-demand l cause a addr pte t s mm calls e =
    rw (walked, calls) (fault_in-demand l cause a addr pte (record { tables = t; mm = mm }) e)

do_page_fault-walked :
    (l : Layout) (fuel mm pgd cause badaddr vma : ℕ) (areas : Areas) (s : Memory)
    → find_vma fuel mm badaddr areas ≡ some (some vma)
    → access_error cause (areas.area vma) ≡ false
    → let addr = bit_and badaddr page_mask in
      let r = pte_alloc_map (λ i. kmalloc_nth l (i - s.tables.taken) s.mm) pgd addr s.tables in
      do_page_fault l fuel mm pgd cause badaddr areas s
      ≡ some (walked l cause (areas.area vma) addr r.0 r.1 s)
unfolding do_page_fault
do_page_fault-walked l fuel mm pgd cause badaddr vma areas s found allowed =
    rw (do_page_fault, found, allowed) refl

first_page :
    (process badaddr : ℕ)
    → badaddr < 2 ^ 38
    → (bit_and badaddr page_mask < 2 ^ 38)
      × (page_number process (bit_and badaddr page_mask) ≡ page_number process badaddr)
first_page process badaddr h =
    let cut : bit_and badaddr page_mask ≡ badaddr / 2 ^ 12 * 2 ^ 12 =
      and_round 12 52 badaddr (omega (arith, h)) in
    rw cut (omega (arith, h), omega (arith, h))

module _ (frames : ℕ → ℕ) (limit k process root : ℕ) (forest : Forest) (l : Layout) (s : Memory)
    (areas : Areas) where
  -- A fault at an address of a process's user half, in an area that allows the access, on a page that
  -- has no entry, where the next three calls of `kmalloc` succeed and return pages that no table stands
  -- in: `do_page_fault` ends, gives the page of the address a new page with the area's rights, which is
  -- filled with zeros if the area has no file, and changes the entry of no other page, of this process
  -- or another. The allocator is as after the calls of `kmalloc`, one for the page and one for each new
  -- table.
  pub do_page_fault-Paged :
      (fuel : ℕ) (mm : Ptr) (cause badaddr : ℕ) (vma : Ptr)
      → forest 2 process ≡ some root
      → IsPaged frames limit (3 + k) forest s.tables
      → Supplies l frames 3 s.tables.taken s.mm
      → badaddr < 2 ^ 38
      → find_vma fuel mm badaddr areas ≡ some (some vma)
      → access_error cause (areas.area vma) ≡ false
      → leaf forest s.tables.word (page_number process badaddr) ≡ 0
      → (s' : Memory) × (do_page_fault l fuel mm (frame_at root) cause badaddr areas s
          ≡ some (handled s'))
        × Paged l frames limit k process badaddr (areas.area vma) forest s s'
  unfolding pte_alloc_map
  do_page_fault-Paged fuel mm cause badaddr vma owned p supply user found allowed empty =
      let addr = bit_and badaddr page_mask in
      let page = first_page process badaddr user in
      let a = areas.area vma in
      let room : IsPaged frames limit (2 + suc k) forest s.tables = record {
        tables = p.tables;
        fresh = p.fresh;
        room = omega (arith, p.room);
      } in
      let r = pte_alloc_map (pages_of frames) (frame_at root) addr s.tables in
      let w =
        subst (λ v. Walked frames limit (suc k) v forest s.tables r.0 r.1) page.1
          (pte_alloc_map-Walked frames limit process root forest s.tables owned (suc k) addr room
            page.0) in
      let zero_word : r.1.word r.0 ≡ 0 =
        ap r.1.word w.entry_at
        ∙ sym (leaf-some w.forest' r.1.word (page_number process badaddr) w.table w.there)
        ∙ w.same (page_number process badaddr)
        ∙ empty in
      let taken = s.tables.taken in
      let given = λ (i : ℕ). kmalloc_nth l (i - taken) s.mm in
      let walk : pte_alloc_map given (frame_at root) addr s.tables ≡ r =
        walk_loop-congr given (pages_of frames) 2 (frame_at root) addr s.tables (λ i le lt.
          let at : taken + (i - taken) ≡ i = omega arith in
          kmalloc_nth-Supplies l frames limit p.fresh.small (i - taken) 3 taken s.mm supply
            (omega arith) (omega (arith, p.room))
          ∙ ap (pages_of frames) at) in
      let (low, high) = walk_loop-taken (pages_of frames) 2 (frame_at root) addr s.tables in
      let n = r.1.taken - taken in
      let few : n ≤ 2 = omega (arith, low, high) in
      let mm1 = after l n s.mm in
      let calls : kmalloc_times l n s.mm ≡ some mm1 =
        kmalloc_times-Supplies l frames limit p.fresh.small n 3 taken s.mm supply
          (omega (arith, few)) in
      let at : taken + n ≡ r.1.taken = omega (arith, low) in
      let new : (alloc_pages l 0 mm1).0 ≡ some (frames r.1.taken) =
        Supplies-after l frames limit p.fresh.small n 3 taken s.mm supply (omega (arith, few))
        ∙ ap (λ i. some (frames i)) at in
      let more : r.1.taken + 1 - taken ≡ suc n = omega (arith, low) in
      let calls' : kmalloc_times l (r.1.taken + 1 - taken) s.mm ≡ some (alloc_pages l 0 mm1).1 =
        rw more (
          kmalloc_times-Supplies l frames limit p.fresh.small (suc n) 3 taken s.mm supply
            (omega (arith, few))
          ∙ ap some (sym (after-suc l n s.mm))) in
      let small : frames r.1.taken < 2 ^ 26 =
        p.fresh.small r.1.taken (omega (arith, high, p.room)) in
      let start =
        do_page_fault-walked l fuel mm (frame_at root) cause badaddr vma areas s found allowed in
      let finish =
        walked-demand l cause a addr r.0 r.1 s mm1 calls zero_word
        ∙ demand_page-some l a addr r.0 (frames r.1.taken) r.1 mm1 new small in
      (
        demanded a addr r.0 (frames r.1.taken) r.1 (alloc_pages l 0 mm1).1,
        start
            ∙ ap (λ (w : ℕ × Tables). some (walked l cause a addr w.0 w.1 s)) walk
            ∙ ap some finish,
        demanded-Paged l frames limit k process a badaddr forest s r.0 r.1 w addr
            (alloc_pages l 0 mm1).1 calls',
      )
