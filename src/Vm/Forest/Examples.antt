-- ===== src/Vm/Forest/Examples.antt =====
-- The theorems on the page tables of src/vm.c, applied to two processes, the first of which has a page.
use osc_riscv.Base.{
  ℕ, ltb, ltb→lt, ltb→le, ◌≤◌, ◌^◌, suc, ◌+◌, ◌*◌, ◌/◌, ◌<◌, ◌≡◌, ◌≢◌, ◌⊎◌, inl, inr, refl, sym,
  subst, ◌∙◌, false, none, some, arith, ◌==◌, [], ◌∷◌, if◌then◌else◌, update, Bool-cases, ==_false,
  eq_of_==,
}
use osc_riscv.Ring.{
  init_list_head, list_add_tail, list_add_between, list_is_head, list_for_each, each_loop,
}
use osc_riscv.Ring.Chain.{IsRing}
use osc_riscv.Mm.Examples.{layout, full}
use osc_riscv.Vm.Fault.{Memory, do_page_fault, handled}
use osc_riscv.Mm.Defs.{Mm, free_pages, alloc_pages}
use osc_riscv.Vm.Fault.Demand.{Paged, Supplies, do_page_fault-Paged}
use osc_riscv.Vm.Copy.{dup_mmap, kmalloc_behind, vm_area_size}
use osc_riscv.Mm.Kmalloc.{
  kmalloc, class_loop, kmalloc_pages, kmem_cache_alloc, take_object, fill_cache, fill_loop,
  page_to_virt,
}
use osc_riscv.Vm.Copy.Entry.{Under, Under-parent, twin, width}
use osc_riscv.Vm.Copy.Dup.{news, SharedAreas, pages_total}
use osc_riscv.Vm.Copy.Loop.{dup_mmap-Copies}
use osc_riscv.Vm.Copy.Lists.{Copies}
use osc_riscv.Vm.{page_offset, Areas, find_vma, access_error, Tables, fill_entry, map_pages, mk_pte}
use osc_riscv.Vm.Forest.{frame_at, slot, Forest, IsForest, page_number, leaf}
use osc_riscv.Vm.Forest.Grow.{leaf-none, some_inj, some_ne_none}
use osc_riscv.Vm.Forest.Walk.{IsPaged, IsPaged-fewer, pages_of, Stepped, fill_entry-Stepped}
use osc_riscv.Vm.Forest.Map.{Maps, set_leaf-IsForest, leaf-set_leaf}
use osc_riscv.Vm.Forest.Range.{ranged, page_entry, map_pages-Maps}

-- The tables of the processes 0 and 1 stand in the frames 1 and 2, and are empty.
abbrev pub roots : Forest
roots level x =
    if level == 2 then if x == 0 then some 1 else if x == 1 then some 2 else none else none

-- The first one is taken from the free pages by the cache of 64-byte objects.
abbrev pub vmas : ℕ → ℕ
vmas i = page_offset + 4096 * 1309696 + 64 * i

abbrev pub start : Tables
start = record { word = λ a. 0; taken = 0 }

abbrev pub frames : ℕ → ℕ
frames i = if ltb i 2 then i + 10 else i + 1309695

roots_other : (level x : ℕ) → level ≢ 2 → roots level x ≡ none
roots_other level x ne = rw (==_false level 2 ne) refl

-- Where there is a table.
pub roots-some :
    (level x f : ℕ)
    → roots level x ≡ some f
    → (level ≡ 2) × (((x ≡ 0) × (f ≡ 1)) ⊎ ((x ≡ 1) × (f ≡ 2)))
roots-some level x f e = elim (Bool-cases (level == 2)) [
  | inl two ↦ (
    eq_of_== level 2 two,
    elim (Bool-cases (x == 0)) [
      | inl h ↦ inl (eq_of_== x 0 h, some_inj f 1 (sym e ∙ rw (two, h) refl))
      | inr h ↦ elim (Bool-cases (x == 1)) [
        | inl h' ↦ inr (eq_of_== x 1 h', some_inj f 2 (sym e ∙ rw (two, h, h') refl))
        | inr h' ↦ absurd (some_ne_none f (sym e ∙ rw (two, h, h') refl))
      ]
    ],
  )
  | inr other ↦ absurd (some_ne_none f (sym e ∙ rw other refl))
]

pub roots-IsForest : IsForest roots start.word
roots-IsForest = record {
  leads = λ level x f idx here u. elim (Bool-cases (level == 2)) [
    | inl two ↦
        let k = (roots-some (suc level) x f here).0 in
        absurd (omega (arith, k, eq_of_== level 2 two))
    | inr other ↦ rw other refl
  ];
  closed = λ level x idx low out lt.
      roots_other level (x * 512 + idx) (λ e. absurd (omega (arith, e, low)));
  apart = λ level x level' x' f a b.
      let h = roots-some level x f a in
      let h' = roots-some level' x' f b in
      (
        omega (arith, h.0, h'.0),
        elim h.1 [
          | inl p ↦ elim h'.1 [
            | inl q ↦ omega (arith, p.0, q.0)
            | inr q ↦ absurd (omega (arith, p.1, q.1))
          ]
          | inr p ↦ elim h'.1 [
            | inl q ↦ absurd (omega (arith, p.1, q.1))
            | inr q ↦ omega (arith, p.0, q.0)
          ]
        ],
      );
}

pub frames_bounds :
    (i : ℕ)
    → i < 1000
    → (10 ≤ frames i) × (frames i < 2 ^ 26) × ((frames i < 12) ⊎ (1309000 < frames i))
frames_bounds i lt = elim (Bool-cases (ltb i 2)) [
  | inl e ↦
      let small = ltb→lt i 2 e in
      rw e (omega (arith, small), omega (arith, small), inl (omega (arith, small)))
  | inr e ↦
      let big = ltb→le i 2 e in
      rw e (omega (arith, lt), omega (arith, lt), inr (omega (arith, big)))
]

pub roots-IsPaged : IsPaged frames 1000 1000 roots start
roots-IsPaged = record {
  tables = roots-IsForest;
  fresh = record {
    small = λ i lt. (frames_bounds i lt).1;
    once = λ i j lt lt' e. ground (arith, e);
    unused = λ i level x le lt e. elim (roots-some level x (frames i) e).1 [
      | inl q ↦ absurd (omega (arith, q.1, (frames_bounds i lt).0))
      | inr q ↦ absurd (omega (arith, q.1, (frames_bounds i lt).0))
    ];
  };
  room = omega arith;
}

-- Three pages of process 1.
map_pages-Maps_example :
    (t' : Tables) × (map_pages (pages_of frames) (frame_at 2) 4096 10000 40960 31 start ≡ some t')
    × Maps frames 1000 994 roots
        (ranged 3 (page_number 1 4096) (page_entry 40960 31) (leaf roots start.word))
        t'
map_pages-Maps_example =
    map_pages-Maps frames 1000 1 2 994 4096 10000 40960 31 roots start refl roots-IsPaged
      (omega arith) (omega arith) (omega arith)

-- The list at 1 holds one area, from 4096 to 8192, and the list at 5 none.
abbrev pub family_areas : Areas
family_areas = record {
  links =
      list_add_tail 2 1
        (init_list_head 1 (init_list_head 5 (record { prev = λ p. 0; next = λ p. 0 })));
  area = λ p. record { vm_start = 4096; vm_end = 8192; vm_mm = 1; vm_flags = 3; vm_file = 0 };
}

find_first : find_vma 2 1 5000 family_areas ≡ some (some 2)
unfolding find_vma list_for_each each_loop list_is_head list_add_tail list_add_between
    init_list_head
find_first = refl

allowed : access_error 13 (family_areas.area 2) ≡ false
unfolding access_error
allowed = refl

-- The allocator after the pages from 1309696 on have been given back.
abbrev pub given_back : Mm
given_back = free_pages layout 1309696 full

abbrev low_pages : ℕ → ℕ
low_pages i = i + 1309696

low_pages-IsPaged : IsPaged low_pages 1000 1000 roots start
low_pages-IsPaged = record {
  tables = roots-IsForest;
  fresh = record {
    small = λ i lt. omega (arith, lt);
    once = λ i j lt lt' e. omega (arith, e);
    unused = λ i level x le lt e. elim (roots-some level x (low_pages i) e).1 [
      | inl q ↦ absurd (omega (arith, q.1))
      | inr q ↦ absurd (omega (arith, q.1))
    ];
  };
  room = omega arith;
}

given_back-Supplies : Supplies layout low_pages 3 0 given_back
unfolding alloc_pages free_pages osc_riscv.Mm.Defs.alloc_loop osc_riscv.Mm.Defs.take_block
    osc_riscv.Mm.Defs.split_loop osc_riscv.Mm.Defs.merge_loop osc_riscv.Mm.Defs.put_block
    osc_riscv.Mm.Defs.get_buddy osc_riscv.Ring.list_empty osc_riscv.Ring.list_add
    osc_riscv.Ring.list_first_entry osc_riscv.Ring.list_del_init osc_riscv.Ring.list_del_between
    osc_riscv.Ring.init_list_head list_add_between
given_back-Supplies = (refl, (refl, (refl, tt)))

do_page_fault-Paged_example :
    (s' : Memory) × (do_page_fault layout 2 1
        (frame_at 2)
        13
        5000
        family_areas
        (record { tables = start; mm = given_back })
      ≡ some (handled s'))
    × Paged layout low_pages 1000 997 1 5000
        (family_areas.area 2)
        roots
        (record { tables = start; mm = given_back })
        s'
do_page_fault-Paged_example =
    do_page_fault-Paged low_pages 1000 997 1 2 roots layout
      (record { tables = start; mm = given_back }) family_areas 2 1 13 5000 2 refl low_pages-IsPaged
      given_back-Supplies (omega arith) find_first allowed
      (leaf-none roots start.word (page_number 1 5000) refl)

-- Process 0 gets two tables, and its page 1 an entry.
pub roots-Under : Under 0 1 roots
roots-Under level y own out = elim (Bool-cases (level == 2)) [
  | inl two ↦
      let e = eq_of_== level 2 two in
      let own' : y / width 2 ≡ 1 = subst (λ k. y / width k ≡ 1) e own in
      let out' : roots 2 (twin 0 2 y) ≡ none = subst (λ k. roots k (twin 0 k y) ≡ none) e out in
      let at : twin 0 2 y ≡ 0 = omega arith in
      let out'' : roots 2 0 ≡ none = subst (λ a. roots 2 a ≡ none) at out' in
      absurd (some_ne_none 1 out'')
  | inr other ↦ rw other refl
]

first_table :
    Stepped frames 1000 998 1 0 roots start
      (slot 1 0)
      (fill_entry (pages_of frames) (slot 1 0) start)
first_table =
    fill_entry-Stepped frames 1000 998 1 0 1 0 roots start
      (IsPaged-fewer frames 1000 1000 999 roots start roots-IsPaged (omega arith)) refl
      (omega arith, λ e. omega arith) (omega arith)

abbrev one_table : Tables
one_table = fill_entry (pages_of frames) (slot 1 0) start

abbrev two_tables : Tables
two_tables = fill_entry (pages_of frames) (slot first_table.child 0) one_table

second_table :
    Stepped frames 1000 997 0 0 first_table.forest' one_table (slot first_table.child 0) two_tables
second_table =
    fill_entry-Stepped frames 1000 997 0 0 first_table.child 0 first_table.forest' one_table
      first_table.paged first_table.there (omega arith, λ e. omega arith) (omega arith)

abbrev parent_tables : Tables
parent_tables = record two_tables {
  word = update two_tables.word (slot second_table.child 1) (mk_pte (frame_at 5) 3);
}

parent_tables-IsPaged : IsPaged frames 1000 997 second_table.forest' parent_tables
parent_tables-IsPaged = record {
  tables =
      set_leaf-IsForest second_table.forest' two_tables.word second_table.paged.tables 1
        second_table.child (mk_pte (frame_at 5) 3) second_table.there;
  fresh = second_table.paged.fresh;
  room = second_table.paged.room;
}

family-Under : Under 0 1 second_table.forest'
family-Under =
    Under-parent 0 1 frames 1000 997 0 0 first_table.forest' one_table (slot first_table.child 0)
      two_tables second_table (omega arith) refl
      (Under-parent 0 1 frames 1000 998 1 0 roots start (slot 1 0) one_table first_table
        (omega arith) refl roots-Under)

child-blank :
    (i : ℕ) → i < 1 → leaf second_table.forest' parent_tables.word (page_number 1 4096 + i) ≡ 0
child-blank i lt =
    let v = page_number 1 4096 + i in
    let ne : (v == 1) ≡ false = ==_false v 1 (λ e. absurd (omega (arith, e))) in
    leaf-set_leaf second_table.forest' two_tables.word second_table.paged.tables 1
      second_table.child (mk_pte (frame_at 5) 3) second_table.there v
    ∙ rw ne (second_table.same v ∙ first_table.same v ∙ leaf-none roots start.word v refl)

abbrev family : Memory
family = record { tables = parent_tables; mm = given_back }

-- What `kmalloc` returns for the area, and then for the three pages.
family_calls :
    let m1 = kmalloc_behind layout vm_area_size given_back in
    let m2 = kmalloc_behind layout 4096 m1 in
    let m3 = kmalloc_behind layout 4096 m2 in
    let m4 = kmalloc_behind layout 4096 m3 in
    (kmalloc layout 0x80201000 vm_area_size given_back ≡ some (vmas 0, m1))
    × (kmalloc layout 0x80201000 4096 m1 ≡ some (pages_of frames 2, m2))
    × (kmalloc layout 0x80201000 4096 m2 ≡ some (pages_of frames 3, m3))
    × (kmalloc layout 0x80201000 4096 m3 ≡ some (pages_of frames 4, m4))
unfolding kmalloc_behind kmalloc class_loop kmalloc_pages kmem_cache_alloc take_object fill_cache
    fill_loop page_to_virt alloc_pages free_pages osc_riscv.Mm.Defs.alloc_loop
    osc_riscv.Mm.Defs.take_block osc_riscv.Mm.Defs.split_loop osc_riscv.Mm.Defs.merge_loop
    osc_riscv.Mm.Defs.put_block osc_riscv.Mm.Defs.get_buddy osc_riscv.Ring.list_empty
    osc_riscv.Ring.list_add osc_riscv.Ring.list_first_entry osc_riscv.Ring.list_del_init
    osc_riscv.Ring.list_del_between osc_riscv.Ring.init_list_head list_add_between list_add_tail
family_calls = (refl, refl, refl, refl)

abbrev pgd : ℕ → ℕ
pgd mm = if mm == 1 then frame_at 1 else frame_at 2

parent_list : IsRing family_areas.links 1 (2 ∷ [])
unfolding list_add_tail list_add_between init_list_head
parent_list = record { chain = (refl, refl, (refl, refl)); head_out = refl; distinct = (refl, tt) }

child_list : IsRing family_areas.links 5 []
unfolding list_add_tail list_add_between init_list_head
child_list = record { chain = (refl, refl); head_out = refl; distinct = tt }

dup_mmap-Copies_example :
    (r : Areas × Memory) × (dup_mmap layout
        (pages_of frames)
        2
        2
        pgd
        vmas
        5
        1
        (family_areas, family)
      ≡ some r)
    × Copies 1 5 (2 ∷ []) [] (news vmas 0 1) (family_areas.area 2 ∷ []) family_areas r.0
    × SharedAreas layout frames 1000 994 0 1
        (family_areas.area 2 ∷ [])
        second_table.forest'
        family
        r.1
unfolding news pages_total
dup_mmap-Copies_example =
    dup_mmap-Copies layout frames 1000 994 0 1 1 2 (omega arith) pgd vmas 1 5 2 refl refl 2 (2 ∷ [])
      family_areas family second_table.forest' parent_list child_list (λ a i. ground (arith, i))
      (refl, (refl, tt)) (omega arith) ((refl, omega arith, omega arith, omega arith), tt) (tt, tt)
      (child-blank, tt) (second_table.kept 2 0 1 (first_table.kept 2 0 1 refl))
      (second_table.kept 2 1 2 (first_table.kept 2 1 2 refl)) parent_tables-IsPaged family-Under
