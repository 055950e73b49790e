-- ===== src/Vm.antt =====
-- src/vm.c and include/vm.h: page-table entries, the walk over the tables, and the areas of a
-- process. An address is a 64-bit word; `kmalloc` gives the addresses `pages 0`, `pages 1`, …
pub mod Copy
pub mod Fault
pub mod Forest
pub mod Find
pub mod Entries
mod Examples
use Prim.Native.Nat.{bit_and, bit_or}
use osc_riscv.Base.{
  ℕ, zero, suc, ◌+◌, ◌-◌, ◌*◌, ◌/◌, ◌%◌, ◌^◌, Bool, Option, none, some, ltb, leb, ◌==◌, not, ◌&&◌,
  if◌then◌else◌, update,
}
use osc_riscv.Ring.{Ptr, Links, list_for_each, list_add_tail}
use osc_riscv.Mm.Defs.{page_size}

abbrev pub page_offset : ℕ
page_offset = 0xffffffc000000000

abbrev pub virt_to_phys : ℕ → ℕ
virt_to_phys x = (x + 2 ^ 64 - page_offset) % 2 ^ 64

abbrev pub phys_to_virt : ℕ → ℕ
phys_to_virt x = (x + page_offset) % 2 ^ 64

abbrev pub page_present : ℕ
page_present = 2 ^ 0

abbrev pub page_read : ℕ
page_read = 2 ^ 1

abbrev pub page_write : ℕ
page_write = 2 ^ 2

abbrev pub page_exec : ℕ
page_exec = 2 ^ 3

abbrev pub page_user : ℕ
page_user = 2 ^ 4

abbrev pub page_accessed : ℕ
page_accessed = 2 ^ 6

abbrev pub page_dirty : ℕ
page_dirty = 2 ^ 7

abbrev pub vm_read : ℕ
vm_read = 1

abbrev pub vm_write : ℕ
vm_write = 2

abbrev pub vm_exec : ℕ
vm_exec = 4

-- `~0x3ff` in 64 bits.
abbrev pub entry_mask : ℕ
entry_mask = 2 ^ 64 - 2 ^ 10

unfoldable pub pte_to_virt : ℕ → ℕ
pte_to_virt pte = phys_to_virt (bit_and pte entry_mask * 2 ^ 2 % 2 ^ 64)

-- `if (vm_flags & flag) page_prot |= bit;`
abbrev pub grant : (flags flag bit prot : ℕ) → ℕ
grant flags flag bit prot = if bit_and flags flag == 0 then prot else bit_or prot bit

unfoldable pub mk_pte : (page_addr vm_flags : ℕ) → ℕ
mk_pte page_addr vm_flags =
    let prot = bit_or (bit_or (bit_or page_dirty page_accessed) page_user) page_present in
    let prot = grant vm_flags vm_read page_read prot in
    let prot = grant vm_flags vm_write page_write prot in
    let prot = grant vm_flags vm_exec page_exec prot in bit_or (virt_to_phys page_addr / 2 ^ 2) prot

-- The words of the page tables, by address, and the number of pages that have been allocated.
pub record Tables : Type 0 where
  pub word : ℕ → ℕ
  pub taken : ℕ

-- `memset(page, 0, PAGE_SIZE)`, with `n` words left.
unfoldable pub clear_words : (n addr : ℕ) → (ℕ → ℕ) → ℕ → ℕ
clear_words zero addr word = word
clear_words (suc n) addr word = clear_words n (addr + 8) (update word addr 0)

-- `memcpy` of `n` words, with the addresses of whole words.
unfoldable pub copy_words : ℕ → (dst src : ℕ) → (ℕ → ℕ) → ℕ → ℕ
copy_words zero dst src word = word
copy_words (suc n) dst src word = copy_words n (dst + 8) (src + 8) (update word dst (word src))

-- `&pte[idx]` for the index that the address has on a level.
unfoldable pub pte_entry : (pte va level : ℕ) → ℕ
pte_entry pte va level = pte + 8 * (va / 2 ^ (12 + 9 * level) % 2 ^ 9)

module _ (pages : ℕ → ℕ) where
  -- An entry that is zero is made to point to a new table.
  unfoldable pub fill_entry : (entry : ℕ) → Tables → Tables
  fill_entry entry t =
      let page = pages t.taken in
      let word = clear_words 512 page t.word in
      if t.word entry == 0
      then record {
        word = update word entry (bit_or (virt_to_phys page / 2 ^ 2) page_present);
        taken = t.taken + 1;
      }
      else t

  -- The loop of `pagewalk` and of `pte_alloc_map` from a level down to the entry of level 0.
  unfoldable pub walk_loop : (level pte va : ℕ) → Tables → ℕ × Tables
  walk_loop zero pte va t = (pte_entry pte va 0, t)
  walk_loop (suc level) pte va t =
      let entry = pte_entry pte va (suc level) in
      let t = fill_entry entry t in walk_loop level (pte_to_virt (t.word entry)) va t

  unfoldable pub pte_alloc_map : (pgd addr : ℕ) → Tables → ℕ × Tables
  pte_alloc_map pgd addr t = walk_loop 2 pgd addr t

  unfoldable pub pagewalk : (pgd va pa prot : ℕ) → Tables → Tables
  pagewalk pgd va pa prot t =
      let (entry, t) = walk_loop 2 pgd va t in
      record t { word = update t.word entry (bit_or (pa / 2 ^ 2) prot) }

  -- The loop of `map_pages`, with `n` pages left.
  unfoldable pub map_loop : (n pgd va pa prot : ℕ) → Tables → Tables
  map_loop zero pgd va pa prot t = t
  map_loop (suc n) pgd va pa prot t =
      map_loop n pgd ((va + page_size) % 2 ^ 64) ((pa + page_size) % 2 ^ 64) prot
        (pagewalk pgd va pa prot t)

  -- The counter is an `int` that goes up to the first multiple of a page's size that is not below
  -- `size`: `none` is a size for which it overflows.
  unfoldable pub map_pages : (pgd va size pa prot : ℕ) → Tables → Option Tables
  unfolding map_loop
  map_pages pgd va size pa prot t =
      if leb size (2 ^ 31 - page_size)
      then some (map_loop ((size + page_size - 1) / page_size) pgd va pa prot t)
      else none

pub record VmAreaStruct : Type 0 where
  pub vm_start : ℕ
  pub vm_end : ℕ
  pub vm_mm : Ptr
  pub vm_flags : ℕ
  pub vm_file : ℕ

-- The areas, each by the address of its `list` member, and the lists.
pub record Areas : Type 0 where
  pub links : Links
  pub area : Ptr → VmAreaStruct

-- `vma` is what `kmalloc` returns, `mm` the process's `mm_struct`, known by the address of its list.
unfoldable pub vm_mmap : (vma mm file addr len prot : ℕ) → Areas → Areas
vm_mmap vma mm file addr len prot s =
    let a : VmAreaStruct = record {
      vm_start = addr;
      vm_end = (addr + len) % 2 ^ 64;
      vm_mm = mm;
      vm_flags = prot;
      vm_file = file;
    } in
    record { area = update s.area vma a; links = list_add_tail vma mm s.links }

-- `vma->vm_start <= addr && addr < vma->vm_end`
abbrev pub in_area : ℕ → VmAreaStruct → Bool
in_area addr a = leb a.vm_start addr && ltb addr a.vm_end

-- The inner `none` is the null pointer.
unfoldable pub find_vma : (fuel : ℕ) (mm : Ptr) (addr : ℕ) → Areas → Option (Option Ptr)
find_vma fuel mm addr s = list_for_each (λ pos. in_area addr (s.area pos)) fuel mm s.links

abbrev pub exc_inst_page_fault : ℕ
exc_inst_page_fault = 12

abbrev pub exc_load_page_fault : ℕ
exc_load_page_fault = 13

abbrev pub exc_store_page_fault : ℕ
exc_store_page_fault = 15

-- Whether the result is not zero; an unknown cause prints a message and is let through.
unfoldable pub access_error : (cause : ℕ) → VmAreaStruct → Bool
access_error cause a =
    if cause == exc_inst_page_fault
    then bit_and a.vm_flags vm_exec == 0
    else if cause == exc_load_page_fault
    then bit_and a.vm_flags (bit_or vm_read vm_write) == 0
    else cause == exc_store_page_fault && bit_and a.vm_flags vm_write == 0
