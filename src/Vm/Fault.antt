-- ===== src/Vm/Fault.antt =====
-- `do_page_fault` of src/vm.c: demand paging and copy on write, over the tables and the allocator.
pub mod Cow
pub mod Demand
use Prim.Native.Nat.{bit_and, bit_or}
use osc_riscv.Base.{
  ℕ, zero, suc, ◌+◌, ◌-◌, ◌*◌, ◌/◌, ◌%◌, ◌^◌, Bool, Option, none, some, ltb, ◌==◌, not, ◌&&◌,
  if◌then◌else◌, update,
}
use osc_riscv.Ring.{Ptr}
use osc_riscv.Mm.Defs.{Layout, Mm, alloc_pages, put_page, page_size}
use osc_riscv.Mm.Kmalloc.{page_to_virt, virt_to_page}
use osc_riscv.Vm.{
  Tables, Areas, VmAreaStruct, pte_to_virt, mk_pte, clear_words, copy_words, pte_alloc_map,
  find_vma, access_error, page_write, exc_store_page_fault,
}

-- The page tables and the allocator.
pub record Memory : Type 0 where
  pub tables : Tables
  pub mm : Mm

-- How the handler ends: the process exits, it goes on, the handler has used a null pointer, or it
-- stays in its last loop.
pub data FaultResult : Type 0 where
  segmentation_fault unallocated unhandled : FaultResult
  handled : Memory → FaultResult

-- A new page is filled with the file's bytes, or with zeros.
unfoldable pub fill_page : (a : VmAreaStruct) (addr page : ℕ) → (ℕ → ℕ) → ℕ → ℕ
fill_page a addr page word =
    if a.vm_file == 0
    then clear_words 512 page word
    else copy_words 512 page ((a.vm_file + (addr + 2 ^ 64 - a.vm_start)) % 2 ^ 64) word

-- The first page of an address is `addr & ~(PAGE_SIZE - 1)`.
abbrev pub page_mask : ℕ
page_mask = 2 ^ 64 - 2 ^ 12

module _ (l : Layout) where
  -- `n` calls of `kmalloc(PAGE_SIZE)`, each of which is `alloc_pages(0)`: the allocator behind them, or
  -- `none` if one has returned the null pointer.
  unfoldable pub kmalloc_times : (n : ℕ) → Mm → Option Mm
  kmalloc_times zero s = some s
  kmalloc_times (suc n) s =
      let rest = kmalloc_times n (alloc_pages l 0 s).1 in
      elim (alloc_pages l 0 s).0 [ none ↦ none | some p ↦ rest ]

  -- The address that such a call returns after `n` others.
  unfoldable pub kmalloc_nth : (n : ℕ) → Mm → ℕ
  kmalloc_nth zero s = elim (alloc_pages l 0 s).0 [ none ↦ 0 | some p ↦ page_to_virt p ]
  kmalloc_nth (suc n) s = kmalloc_nth n (alloc_pages l 0 s).1

  -- The entry is zero: a new page from `kmalloc(PAGE_SIZE)`.
  unfoldable pub demand_page : (a : VmAreaStruct) (addr pte : ℕ) → Memory → FaultResult
  demand_page a addr pte s =
      let t = s.tables in
      let (page, mm) = alloc_pages l 0 s.mm in
      elim page [
        | none ↦ unallocated
        | some p ↦
            let word = fill_page a addr (page_to_virt p) t.word in
            handled (record {
              tables = record {
                word = update word pte (mk_pte (page_to_virt p) a.vm_flags);
                taken = t.taken + 1;
              };
              mm = mm;
            })
      ]

  -- The entry shares its page: the process gets a copy of its own, or keeps the page if no one else
  -- has it.
  unfoldable pub copy_page : (a : VmAreaStruct) (pte : ℕ) → Memory → FaultResult
  copy_page a pte s =
      let t = s.tables in
      let old = virt_to_page (pte_to_virt (t.word pte)) in
      let (page, mm) = alloc_pages l 0 s.mm in
      let copied : FaultResult = elim page [
        | none ↦ unallocated
        | some p ↦
            let word = copy_words 512 (page_to_virt p) (page_to_virt old) t.word in
            handled (record {
              tables = record t { word = update word pte (mk_pte (page_to_virt p) a.vm_flags) };
              mm = put_page l old mm;
            })
      ] in
      if ltb 1 (s.mm.refcount old)
      then copied
      else handled (record s {
        tables = record t { word = update t.word pte (bit_or (t.word pte) page_write) };
      })

  unfoldable pub fault_in : (cause : ℕ) (a : VmAreaStruct) (addr pte : ℕ) → Memory → FaultResult
  fault_in cause a addr pte s =
      let entry = s.tables.word pte in
      if entry == 0
      then demand_page a addr pte s
      else if cause == exc_store_page_fault && bit_and entry page_write == 0
      then copy_page a pte s
      else unhandled

  -- What follows the walk, which has made `t` of the tables.
  unfoldable pub walked :
      (cause : ℕ) (a : VmAreaStruct) (addr pte : ℕ) (t : Tables) → Memory → FaultResult
  walked cause a addr pte t s = elim (kmalloc_times (t.taken - s.tables.taken) s.mm) [
    | none ↦ unallocated
    | some mm ↦ fault_in cause a addr pte (record { tables = t; mm = mm })
  ]

  -- `mm` is the address of the process's list of areas, `pgd` that of its page table. The new tables are
  -- the pages that `kmalloc` returns in turn.
  unfoldable pub do_page_fault :
      (fuel : ℕ) (mm pgd cause badaddr : ℕ) (areas : Areas) → Memory → Option FaultResult
  do_page_fault fuel mm pgd cause badaddr areas s =
      let addr = bit_and badaddr page_mask in
      let (pte, t) = pte_alloc_map (λ i. kmalloc_nth (i - s.tables.taken) s.mm) pgd addr s.tables in
      let paged = λ (a : VmAreaStruct).
        if access_error cause a then segmentation_fault else walked cause a addr pte t s in
      elim (find_vma fuel mm badaddr areas) [
        | none ↦ none
        | some none ↦ some segmentation_fault
        | some (some vma) ↦ some (paged (areas.area vma))
      ]
