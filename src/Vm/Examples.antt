-- ===== src/Vm/Examples.antt =====
-- The theorems on src/vm.c, applied to a page and to a process with one area.
use osc_riscv.Base.{◌≡◌, refl, [], ◌∷◌, some, Option, ◌+◌, ◌*◌, arith}
use osc_riscv.Ring.{Ptr, init_list_head, list_add_tail}
use osc_riscv.Ring.Add.{init_list_head-IsRing, list_add_tail-IsRing}
use osc_riscv.Mm.Defs.{page_size, free_pages, buddy_max_order}
use osc_riscv.Mm.Examples.{layout, full, freed, blocks, cover_live-blocks}
use osc_riscv.Base.{ℕ, ◌⊎◌, ◌≤◌, ◌==◌, if◌then◌else◌}
use osc_riscv.Vm.{VmAreaStruct, exc_store_page_fault}
use osc_riscv.Mm.Kmalloc.{virt_to_page}
use osc_riscv.Vm.Fault.{Memory, fault_in, unallocated, handled}
use osc_riscv.Vm.Fault.Cow.{IsShared, Copied, fault_in-Copied}
use osc_riscv.Vm.{Areas, find_vma, mk_pte, pte_to_virt, page_offset}
use osc_riscv.Vm.Find.{FirstArea, find_vma-FirstArea}
use osc_riscv.Vm.Entries.{pte_to_virt-mk_pte}

-- The list at 1 holds one area, from 4096 to 8192.
abbrev areas : Areas
areas = record {
  links = list_add_tail 2 1 (init_list_head 1 (record { prev = λ p. 0; next = λ p. 0 }));
  area = λ p. record { vm_start = 4096; vm_end = 8192; vm_mm = 1; vm_flags = 3; vm_file = 0 };
}

find_vma-FirstArea_example :
    (r : Option Ptr) × (find_vma 2 1 5000 areas ≡ some r) × FirstArea areas.area 5000 (2 ∷ []) r
find_vma-FirstArea_example =
    find_vma-FirstArea 2 1 5000 areas (2 ∷ [])
      (list_add_tail-IsRing (init_list_head 1 (record { prev = λ p. 0; next = λ p. 0 })) 2 1 []
        (init_list_head-IsRing (record { prev = λ p. 0; next = λ p. 0 }) 1) refl)
      (omega arith)

-- The page 5 has two owners; the entry at the start of page 7 leads to it and denies writing.
abbrev entry : ℕ
entry = page_offset + page_size * 7

abbrev reader : VmAreaStruct
reader = record { vm_start = 4096; vm_end = 8192; vm_mm = 1; vm_flags = 3; vm_file = 0 }

abbrev two_owners : Memory
two_owners = record {
  tables = record {
    word = λ a. if a == entry then mk_pte (page_offset + page_size * 5) 1 else 0;
    taken = 0;
  };
  mm = record (free_pages layout 1309696 full) { refcount = λ p. 2 };
}

two_owners-IsShared : IsShared layout reader entry 5 two_owners freed.0 (blocks 1279)
unfolding virt_to_page pte_to_virt mk_pte
two_owners-IsShared = record {
  system =
      let h = freed.1 in
      record { rings = h.rings; cover = h.cover; free_ok = h.free_ok; live_ok = h.live_ok };
  leads = refl;
  shared = (omega arith, omega arith);
  used = (omega arith, ground (arith, cover_live-blocks 1279 5));
  table = 7;
  table_used = (omega arith, ground (arith, cover_live-blocks 1279 7));
  entry = (omega arith, omega arith);
}

fault_in-Copied_example :
    let r = fault_in layout exc_store_page_fault reader 4096 entry two_owners in
    ((r ≡ unallocated) × ((o : ℕ) → 0 ≤ o → o ≤ buddy_max_order → freed.0 o ≡ []))
    ⊎ ((s' : Memory) × (r ≡ handled s') × Copied (blocks 1279) 5 entry two_owners s')
unfolding mk_pte
fault_in-Copied_example =
    fault_in-Copied layout reader entry 5 two_owners freed.0 (blocks 1279) 4096 two_owners-IsShared
      (pte_to_virt-mk_pte 5 1 (omega arith)).1 refl
