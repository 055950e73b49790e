-- ===== src/Vm/Copy/Loop.antt =====
-- The loop of `dup_mmap` of src/vm.c over the areas of the parent.
use osc_riscv.Base.{
  ℕ, zero, suc, ◌+◌, ◌*◌, ◌<◌, ◌≡◌, ◌≢◌, refl, sym, ap, ap₂, subst, ◌∙◌, false, some, arith, ◌==◌,
  List, [], ◌∷◌, ◌++◌, map, length, ◌∉◌, Distinct, Distinct-parts, All, has-append, update, ==_refl,
}
use mathlib.Core.List.{append_assoc, append-nil, nil≢cons, head-eq_of_cons-eq, tail-eq_of_cons-eq}
use osc_riscv.Ring.{Ptr, list_add_tail, list_is_head}
use osc_riscv.Ring.Chain.{IsRing}
use osc_riscv.Ring.Walk.{first_or, next-first_or}
use osc_riscv.Mm.Defs.{Layout, Mm}
use osc_riscv.Vm.{VmAreaStruct, Areas}
use osc_riscv.Vm.Forest.Congr.{Untouched-then}
use osc_riscv.Vm.Forest.{frame_at, Forest, page_number, leaf}
use osc_riscv.Vm.Forest.Walk.{IsPaged, IsPaged-fewer, pages_of}
use osc_riscv.Vm.Fault.{Memory}
use osc_riscv.Vm.Copy.{kmalloc_behind, vm_area_size, copy_page_range, dup_area, dup_loop, dup_mmap}
use osc_riscv.Vm.Copy.Entry.{Under}
use osc_riscv.Vm.Copy.Range.{SharedRange, copy_page_range-SharedRange}
use osc_riscv.Vm.Copy.Shared.{
  shared, owned, shared-congr, owned-congr, Counts, Counts-none, Counts-kmalloc, Counts-then,
  Counts-same,
}
use osc_riscv.Vm.Copy.Dup.{
  pages_in, pages_total, IsUserArea, PagesApart, AreasApart, IsBlank, shared_areas, owned_areas,
  for_process, news, SharedAreas, IsBlank-shared,
}
use osc_riscv.Vm.Copy.Lists.{
  map-update, Copies, ApartLists, Copies-cons, new_out, first_entry, add_area,
}

shared_areas-congr :
    (parent child : ℕ) (olds : List VmAreaStruct) (entry entry' : ℕ → ℕ) (u : ℕ)
    → ((u : ℕ) → entry u ≡ entry' u)
    → shared_areas parent child olds entry u ≡ shared_areas parent child olds entry' u
unfolding shared_areas
shared_areas-congr parent child [] entry entry' u h = h u
shared_areas-congr parent child (a ∷ olds) entry entry' u h =
    let v = page_number parent a.vm_start in
    let v' = page_number child a.vm_start in
    shared_areas-congr parent child olds (shared (pages_in a) v v' entry)
      (shared (pages_in a) v v' entry') u
      (λ u. shared-congr (pages_in a) entry entry' v v v' v' u refl refl h)

owned_areas-congr :
    (parent child : ℕ) (olds : List VmAreaStruct) (entry entry' : ℕ → ℕ)
    → ((u : ℕ) → entry u ≡ entry' u)
    → owned_areas parent child olds entry ≡ owned_areas parent child olds entry'
unfolding owned_areas
owned_areas-congr parent child [] entry entry' h = refl
owned_areas-congr parent child (a ∷ olds) entry entry' h =
    let v = page_number parent a.vm_start in
    let v' = page_number child a.vm_start in
    ap₂ (λ ps qs. ps ++ qs) (owned-congr (pages_in a) v entry entry' (λ i lt. h (v + i)))
      (owned_areas-congr parent child olds (shared (pages_in a) v v' entry)
        (shared (pages_in a) v v' entry')
        (λ u. shared-congr (pages_in a) entry entry' v v v' v' u refl refl h))

module _ (l : Layout) (frames : ℕ → ℕ) (limit k parent child : ℕ) where
  SharedAreas-cons :
      (k' : ℕ) (a : VmAreaStruct) (olds : List VmAreaStruct) (forest : Forest) (s : Memory)
      (mm : Mm) (s1 s' : Memory)
      (m : SharedRange l frames limit k' parent child
        (pages_in a)
        (page_number parent a.vm_start)
        (page_number child a.vm_start)
        forest
        (record s { mm = mm })
        s1)
      → Counts l [] s.mm mm
      → SharedAreas l frames limit k parent child olds m.forest' s1 s'
      → SharedAreas l frames limit k parent child (a ∷ olds) forest s s'
  unfolding shared_areas owned_areas
  SharedAreas-cons k' a olds forest s mm s1 s' m call h =
      let e1 = leaf m.forest' s1.tables.word in
      let e =
        shared (pages_in a) (page_number parent a.vm_start) (page_number child a.vm_start)
          (leaf forest s.tables.word) in
      record {
        forest' = h.forest';
        paged = h.paged;
        under = h.under;
        leaves = λ u. h.leaves u ∙ shared_areas-congr parent child olds e1 e u m.leaves;
        kept = λ level x c q. h.kept level x c (m.kept level x c q);
        others =
            Untouched-then frames limit forest s.tables m.forest' s1.tables h.forest' s'.tables
              m.others h.others;
        count =
            let ps =
              owned (pages_in a) (page_number parent a.vm_start) (leaf forest s.tables.word) in
            let qs = owned_areas parent child olds e in
            Counts-then l [] (ps ++ qs) s.mm mm s'.mm call (
              Counts-then l ps qs mm s1.mm s'.mm m.count (
                Counts-same l (owned_areas parent child olds e1) qs s1.mm s'.mm
                  (owned_areas-congr parent child olds e1 e m.leaves) h.count));
      }

  IsBlank-rest :
      (oldmm fuel : ℕ) (a : VmAreaStruct) (olds : List VmAreaStruct) (entry entry' : ℕ → ℕ)
      → parent ≢ child
      → IsUserArea oldmm fuel a
      → All (IsUserArea oldmm fuel) olds
      → All (PagesApart a) olds
      → ((u : ℕ)
          → entry' u
            ≡ shared
                (pages_in a)
                (page_number parent a.vm_start)
                (page_number child a.vm_start)
                entry
                u)
      → All (IsBlank child entry) olds
      → All (IsBlank child entry') olds
  IsBlank-rest oldmm fuel a [] entry entry' ne ha hs o h b = tt
  IsBlank-rest oldmm fuel a (c ∷ olds) entry entry' ne ha hs o h b = (
    λ i lt.
        h (page_number child c.vm_start + i)
        ∙ IsBlank-shared parent child oldmm fuel a c entry ne ha hs.0 o.0 b.0 i lt,
    IsBlank-rest oldmm fuel a olds entry entry' ne ha hs.1 o.1 h b.1,
  )

module _ (l : Layout) (frames : ℕ → ℕ) (limit k parent child f g : ℕ) (ne : parent ≢ child)
    (pgd : Ptr → ℕ) (vmas : ℕ → Ptr) (oldmm mm : Ptr) (range_fuel : ℕ) (at : pgd oldmm ≡ frame_at f)
    (at' : pgd mm ≡ frame_at g) where
  dup_area-some :
      (pos vma : Ptr) (areas : Areas) (s s1 : Memory)
      → copy_page_range l
          (pages_of frames)
          range_fuel
          pgd
          (for_process mm (areas.area pos))
          (update areas.area vma (for_process mm (areas.area pos)) pos)
          (record s { mm = kmalloc_behind l vm_area_size s.mm })
        ≡ some s1
      → dup_area l (pages_of frames) range_fuel pgd mm pos vma (areas, s)
        ≡ some (
          record {
            area = update areas.area vma (for_process mm (areas.area pos));
            links = list_add_tail vma mm areas.links;
          },
          s1,
        )
  unfolding dup_area
  dup_area-some pos vma areas s s1 e = rw (dup_area, e) refl

  pub dup_loop-Copies :
      (fuel i : ℕ) (done rest made : List Ptr) (olds : List VmAreaStruct) (areas : Areas)
      (s : Memory) (forest : Forest)
      → IsRing areas.links oldmm (done ++ rest)
      → IsRing areas.links mm made
      → ApartLists oldmm mm (done ++ rest) made (news vmas i (length rest))
      → Distinct (mm ∷ made ++ news vmas i (length rest))
      → map areas.area rest ≡ olds
      → length rest < fuel
      → All (IsUserArea oldmm range_fuel) olds
      → AreasApart olds
      → All (IsBlank child (leaf forest s.tables.word)) olds
      → forest 2 parent ≡ some f
      → forest 2 child ≡ some g
      → IsPaged frames limit (3 * pages_total olds + k) forest s.tables
      → Under parent child forest
      → (r : Areas × Memory) × (dup_loop l
            (pages_of frames)
            fuel
            range_fuel
            pgd
            vmas
            mm
            (first_or rest oldmm)
            oldmm
            i
            (areas, s)
          ≡ some r)
        × Copies oldmm mm (done ++ rest) made (news vmas i (length rest)) olds areas r.0
        × SharedAreas l frames limit k parent child olds forest s r.1
  unfolding dup_loop news shared_areas owned_areas pages_total list_is_head
  dup_loop-Copies zero i done rest made olds areas s forest r r' apart d e fuel hu ha hb here here'
        p under =
      absurd (omega arith)
  dup_loop-Copies (suc fuel) i done [] made [] areas s forest r r' apart d e more hu ha hb here
        here' p under =
      (
        (areas, s),
        ground (arith, ==_refl oldmm),
        record {
          parent_list = r;
          child_list = rw (append-nil made) r';
          areas = refl;
          others = λ q out. refl;
        },
        record {
          forest' = forest;
          paged = IsPaged-fewer frames limit (3 * 0 + k) k forest s.tables p (omega arith);
          under = under;
          leaves = λ u. refl;
          kept = λ level x c q. q;
          others = λ a stray. (refl, stray);
          count = Counts-none l s.mm;
        },
      )
  dup_loop-Copies (suc fuel) i done [] made (a ∷ olds) areas s forest r r' apart d e more hu ha hb
        here here' p under =
      absurd (nil≢cons e)
  dup_loop-Copies (suc fuel) i done (x ∷ xs) made [] areas s forest r r' apart d e more hu ha hb
        here here' p under =
      absurd (nil≢cons (sym e))
  dup_loop-Copies (suc fuel) i done (x ∷ xs) made (a ∷ olds) areas s forest r r' apart d e more hu
        ha hb here here' p under =
      let y = vmas i in
      let ys = news vmas (i + 1) (length xs) in
      let here_area = head-eq_of_cons-eq e in
      let fresh = new_out oldmm mm (done ++ x ∷ xs) made ys y apart in
      let fresh' : (x == y) ≡ false = ground (arith, fresh, has-append y done (x ∷ xs)) in
      let out : y ∉ xs = ground (arith, fresh, has-append y done (x ∷ xs)) in
      let rings = add_area areas.links oldmm mm y (done ++ x ∷ xs) made ys r r' apart d in
      let area1 = update areas.area y (for_process mm (areas.area x)) in
      let areas1 : Areas = record { area = area1; links = list_add_tail y mm areas.links } in
      let room =
        IsPaged-fewer frames limit (3 * (pages_in a + pages_total olds) + k)
          (3 * pages_in a + (3 * pages_total olds + k)) forest s.tables p (omega arith) in
      let s0 = record s { mm = kmalloc_behind l vm_area_size s.mm } in
      let step =
        copy_page_range-SharedRange l frames limit (3 * pages_total olds + k) parent child f g ne
          (pages_in a) range_fuel pgd (for_process mm a) a forest s0 refl hu.0.1
          (ap pgd hu.0.0 ∙ at) at' here here' hu.0.2 hu.0.3 room under hb.0 in
      let s1 = step.0 in
      let m = step.2 in
      let old : area1 x ≡ a = rw fresh' here_area in
      let copied =
        ap₂ (λ b c. copy_page_range l (pages_of frames) range_fuel pgd (for_process mm b) c s0)
          here_area old
        ∙ step.1 in
      let going : (x == oldmm) ≡ false =
        ground (arith, r.head_out, has-append oldmm done (x ∷ xs)) in
      let done' = append_assoc done (x ∷ []) xs in
      let made' = append_assoc made (y ∷ []) ys in
      let rest =
        dup_loop-Copies fuel (i + 1) (done ++ x ∷ []) xs (made ++ y ∷ []) olds areas1 s1 m.forest'
          (rw done' rings.0) rings.1 (rw (done', made') apart) (rw made' d)
          (map-update areas.area y (for_process mm (areas.area x)) xs out ∙ tail-eq_of_cons-eq e)
          (omega (arith, more)) hu.1 ha.1
          (IsBlank-rest l frames limit k parent child oldmm range_fuel a olds
            (leaf forest s.tables.word) (leaf m.forest' s1.tables.word) ne hu.0 hu.1 ha.0 m.leaves
            hb.1)
          (m.kept 2 parent f here) (m.kept 2 child g here') m.paged m.under in
      let next : areas1.links.next x ≡ first_or xs oldmm =
        next-first_or areas1.links oldmm done x xs rings.0 in
      let once = (Distinct-parts (mm ∷ made) (y ∷ ys) d).1.0 in
      let one : dup_area l (pages_of frames) range_fuel pgd mm x y (areas, s) ≡ some (areas1, s1) =
        dup_area-some x y areas s s1 copied in
      (
        rest.0,
        rw (going, one, next) rest.1,
        Copies-cons oldmm mm (done ++ x ∷ xs) made ys y a olds areas areas1 rest.0.0 once
            (ap (λ b. update areas.area y (for_process mm b)) here_area)
            (subst (λ zs. Copies oldmm mm zs (made ++ y ∷ []) ys olds areas1 rest.0.0) done'
              rest.2),
        SharedAreas-cons l frames limit k parent child (3 * pages_total olds + k) a olds forest s
            (kmalloc_behind l vm_area_size s.mm) s1 rest.0.1 m (Counts-kmalloc l vm_area_size s.mm)
            rest.3,
      )

  -- `dup_mmap` returns, with fuel above the number of areas and above the number of pages of each. The
  -- child's list, which was empty, holds copies of the parent's areas, in their order and for the child's
  -- process; the parent's list and areas are as they were. The pages of the areas are shared, area by
  -- area, no other page's entry changes, and no word beside the tables and the fresh frames. The
  -- allocator has served calls of `kmalloc`, and one `get_page` for each page that is shared, in the order
  -- of the areas and of their pages. The calls of `kmalloc` are taken to return the given addresses, none
  -- of them null. The areas lie in the parent's user half and have no page in common; the child has none
  -- of their pages, and tables only where the parent has; the addresses of the new areas are new; there
  -- are three fresh frames for each page.
  pub dup_mmap-Copies :
      (fuel : ℕ) (xs : List Ptr) (areas : Areas) (s : Memory) (forest : Forest)
      → IsRing areas.links oldmm xs
      → IsRing areas.links mm []
      → ApartLists oldmm mm xs [] (news vmas 0 (length xs))
      → Distinct (mm ∷ news vmas 0 (length xs))
      → length xs < fuel
      → All (IsUserArea oldmm range_fuel) (map areas.area xs)
      → AreasApart (map areas.area xs)
      → All (IsBlank child (leaf forest s.tables.word)) (map areas.area xs)
      → forest 2 parent ≡ some f
      → forest 2 child ≡ some g
      → IsPaged frames limit (3 * pages_total (map areas.area xs) + k) forest s.tables
      → Under parent child forest
      → (r : Areas × Memory) × (dup_mmap l
            (pages_of frames)
            fuel
            range_fuel
            pgd
            vmas
            mm
            oldmm
            (areas, s)
          ≡ some r)
        × Copies oldmm mm xs [] (news vmas 0 (length xs)) (map areas.area xs) areas r.0
        × SharedAreas l frames limit k parent child (map areas.area xs) forest s r.1
  unfolding dup_mmap
  dup_mmap-Copies fuel xs areas s forest r r' apart d more hu ha hb here here' p under =
      rw (first_entry areas.links oldmm xs r) (
        dup_loop-Copies fuel 0 [] xs [] (map areas.area xs) areas s forest r r' apart d refl more hu
          ha hb here here' p under)
