-- ===== src/Vm/Copy.antt =====
-- `copy_page_range` and `dup_mmap` of src/vm.c: a process's memory is shared with its child. The calls
-- of `kmalloc` are run on the allocator. The addresses that they return are given: `pages 0`, `pages 1`,
-- … for pages, and `vmas 0`, `vmas 1`, … for areas; none is null.
pub mod Dup
pub mod Entry
pub mod Lists
pub mod Loop
pub mod Range
pub mod Shared
pub mod Walk
use Prim.Native.Nat.{bit_and, bit_or}
use osc_riscv.Base.{
  ℕ, zero, suc, ◌+◌, ◌-◌, ◌*◌, ◌/◌, ◌%◌, ◌^◌, Option, none, some, ltb, ◌==◌, not, ◌&&◌,
  if◌then◌else◌, update,
}
use osc_riscv.Ring.{Ptr, list_add_tail, list_is_head}
use osc_riscv.Mm.Defs.{Layout, Mm, get_page, page_size}
use osc_riscv.Mm.Kmalloc.{kmalloc, virt_to_page}
use osc_riscv.Vm.{
  Tables, Areas, VmAreaStruct, pte_to_virt, pte_entry, virt_to_phys, clear_words, page_write,
  page_present,
}
use osc_riscv.Vm.Fault.{Memory}

-- `entry & ~PAGE_WRITE`
abbrev pub deny_write : ℕ → ℕ
deny_write w = bit_and w (2 ^ 64 - 1 - page_write)

-- `sizeof(struct vm_area_struct)`
abbrev pub vm_area_size : ℕ
vm_area_size = 56

-- The allocator behind a call of `kmalloc`.
unfoldable pub kmalloc_behind : Layout → (size : ℕ) → Mm → Mm
kmalloc_behind l size s = elim (kmalloc l l.kmem_cache size s) [ none ↦ s | some r ↦ r.1 ]

module _ (l : Layout) (pages : ℕ → ℕ) where
  -- The body of the `if` in the loop over the levels, for the entries at the addresses `src` and `dst`.
  unfoldable pub fill_copy : (level src dst : ℕ) → Memory → Memory
  fill_copy level src dst s =
      let t = s.tables in
      let page = pages t.taken in
      let word = clear_words 512 page t.word in
      let word = update word dst (bit_or (virt_to_phys page / 2 ^ 2) page_present) in
      let denied = update word src (deny_write (word src)) in
      let shared = update denied dst (denied src) in
      let mm = kmalloc_behind l page_size s.mm in
      if level == 0
      then record {
        tables = record { word = shared; taken = t.taken + 1 };
        mm = get_page l (virt_to_page (pte_to_virt (shared src))) mm;
      }
      else record { tables = record { word = word; taken = t.taken + 1 }; mm = mm }

  unfoldable pub copy_entry : (level src dst : ℕ) → Memory → Memory
  copy_entry level src dst s =
      if not (s.tables.word src == 0) && s.tables.word dst == 0
      then fill_copy level src dst s
      else s

  -- The loop over the levels, from a level down; the tables it reads behind the last entry are not used.
  unfoldable pub copy_levels : (level src_pt dst_pt addr : ℕ) → Memory → Memory
  copy_levels zero src_pt dst_pt addr s =
      copy_entry 0 (pte_entry src_pt addr 0) (pte_entry dst_pt addr 0) s
  copy_levels (suc level) src_pt dst_pt addr s =
      let src = pte_entry src_pt addr (suc level) in
      let dst = pte_entry dst_pt addr (suc level) in
      let s = copy_entry (suc level) src dst s in
      copy_levels level (pte_to_virt (s.tables.word src)) (pte_to_virt (s.tables.word dst)) addr s

  -- The loop over the addresses: `none` is out of fuel.
  unfoldable pub copy_loop : (fuel src_pgd dst_pgd addr end : ℕ) → Memory → Option Memory
  copy_loop zero src_pgd dst_pgd addr end s = none
  copy_loop (suc fuel) src_pgd dst_pgd addr end s =
      let rest =
        copy_loop fuel src_pgd dst_pgd ((addr + page_size) % 2 ^ 64) end
          (copy_levels 2 src_pgd dst_pgd addr s) in
      if ltb addr end then rest else some s

  -- `pgd mm` is the page table of a process.
  unfoldable pub copy_page_range :
      (fuel : ℕ) (pgd : Ptr → ℕ) (dst_vma src_vma : VmAreaStruct) → Memory → Option Memory
  copy_page_range fuel pgd dst_vma src_vma s =
      copy_loop fuel (pgd src_vma.vm_mm) (pgd dst_vma.vm_mm) src_vma.vm_start src_vma.vm_end s

  -- The body of the loop over the areas, for the area at `pos` and its copy at `vma`.
  unfoldable pub dup_area :
      (fuel : ℕ) (pgd : Ptr → ℕ) (mm pos vma : Ptr) → Areas × Memory → Option (Areas × Memory)
  dup_area fuel pgd mm pos vma (areas, s) =
      let a = record (areas.area pos) { vm_mm = mm } in
      let area = update areas.area vma a in
      let s = record s { mm = kmalloc_behind l vm_area_size s.mm } in
      elim (copy_page_range fuel pgd a (area pos) s) [
        | none ↦ none
        | some s' ↦ some (record { area = area; links = list_add_tail vma mm areas.links }, s')
      ]

  -- The loop over the areas; the next one is read after the body.
  unfoldable pub dup_loop :
      (fuel range_fuel : ℕ) (pgd : Ptr → ℕ) (vmas : ℕ → Ptr) (mm pos oldmm : Ptr) (i : ℕ)
      → Areas × Memory
      → Option (Areas × Memory)
  dup_loop zero range_fuel pgd vmas mm pos oldmm i s = none
  dup_loop (suc fuel) range_fuel pgd vmas mm pos oldmm i s =
      let rest : Option (Areas × Memory) = elim (dup_area range_fuel pgd mm pos (vmas i) s) [
        | none ↦ none
        | some s' ↦ dup_loop fuel range_fuel pgd vmas mm (s'.0.links.next pos) oldmm (i + 1) s'
      ] in
      if list_is_head pos oldmm then some s else rest

  -- `mm` and `oldmm` are the lists of the child and of the parent.
  unfoldable pub dup_mmap :
      (fuel range_fuel : ℕ) (pgd : Ptr → ℕ) (vmas : ℕ → Ptr) (mm oldmm : Ptr)
      → Areas × Memory
      → Option (Areas × Memory)
  dup_mmap fuel range_fuel pgd vmas mm oldmm s =
      dup_loop fuel range_fuel pgd vmas mm (s.0.links.next oldmm) oldmm 0 s
