-- ===== src/Vm/Copy/Dup.antt =====
-- `dup_mmap` of src/vm.c: the child gets a copy of each of its parent's areas, and shares its pages.
use osc_riscv.Base.{
  ℕ, zero, suc, ◌+◌, ◌-◌, ◌*◌, ◌/◌, ◌^◌, ◌<◌, ◌≤◌, ◌≡◌, ◌≢◌, ◌⊎◌, inl, inr, ◌∙◌, some, arith, List,
  [], ◌∷◌, ◌++◌, All, Bool-cases, ltb, ltb→lt, ltb→le,
}
use osc_riscv.Ring.{Ptr}
use osc_riscv.Mm.Defs.{Layout, page_size}
use osc_riscv.Vm.{VmAreaStruct}
use osc_riscv.Vm.Forest.{Untouched, Forest, page_number, leaf}
use osc_riscv.Vm.Forest.Walk.{IsPaged}
use osc_riscv.Vm.Forest.Range.{ranged, ranged_out}
use osc_riscv.Vm.Fault.{Memory}
use osc_riscv.Vm.Copy.{deny_write}
use osc_riscv.Vm.Copy.Entry.{Under}
use osc_riscv.Vm.Copy.Shared.{shared, owned, Counts}

-- The pages of an area: the first one, and their number.
abbrev pub first_in : VmAreaStruct → ℕ
first_in a = a.vm_start / page_size

abbrev pub pages_in : VmAreaStruct → ℕ
pages_in a = (a.vm_end - a.vm_start + page_size - 1) / page_size

unfoldable pub pages_total : List VmAreaStruct → ℕ
pages_total [] = 0
pages_total (a ∷ olds) = pages_in a + pages_total olds

-- An area of the user's half, of the process `oldmm`, with fewer pages than the fuel.
abbrev pub IsUserArea : (oldmm : Ptr) (fuel : ℕ) → VmAreaStruct → Type 0
IsUserArea oldmm fuel a =
    (a.vm_mm ≡ oldmm)
    × (pages_in a < fuel)
    × (a.vm_start ≤ a.vm_end)
    × (a.vm_start + page_size * pages_in a ≤ 2 ^ 38)

-- No page lies in two areas.
abbrev pub PagesApart : VmAreaStruct → VmAreaStruct → Type 0
PagesApart a b = (first_in a + pages_in a ≤ first_in b) ⊎ (first_in b + pages_in b ≤ first_in a)

abbrev pub AreasApart : List VmAreaStruct → Type 0
AreasApart [] = Unit
AreasApart (a ∷ olds) = All (PagesApart a) olds × AreasApart olds

-- The process has no page of an area.
abbrev pub IsBlank : (child : ℕ) (entry : ℕ → ℕ) → VmAreaStruct → Type 0
IsBlank child entry a = (i : ℕ) → i < pages_in a → entry (page_number child a.vm_start + i) ≡ 0

-- The entries after the pages of areas have been shared, and the pages that have got an owner more.
unfoldable pub shared_areas : (parent child : ℕ) → List VmAreaStruct → (ℕ → ℕ) → ℕ → ℕ
shared_areas parent child [] entry = entry
shared_areas parent child (a ∷ olds) entry =
    shared_areas parent child olds
      (shared (pages_in a) (page_number parent a.vm_start) (page_number child a.vm_start) entry)

unfoldable pub owned_areas : (parent child : ℕ) → List VmAreaStruct → (ℕ → ℕ) → List ℕ
owned_areas parent child [] entry = []
owned_areas parent child (a ∷ olds) entry =
    owned (pages_in a) (page_number parent a.vm_start) entry
    ++ owned_areas parent child olds
        (shared (pages_in a) (page_number parent a.vm_start) (page_number child a.vm_start) entry)

-- An area for the process `mm`.
abbrev pub for_process : (mm : Ptr) → VmAreaStruct → VmAreaStruct
for_process mm a = record a { vm_mm = mm }

-- The addresses of `n` new areas.
unfoldable pub news : (vmas : ℕ → Ptr) (i n : ℕ) → List Ptr
news vmas i zero = []
news vmas i (suc n) = vmas i ∷ news vmas (i + 1) n

-- The pages of areas are shared.
pub record SharedAreas (l : Layout) (frames : ℕ → ℕ) (limit k parent child : ℕ)
    (olds : List VmAreaStruct) (forest : Forest) (s s' : Memory) : Type 0 where
  pub forest' : Forest
  pub paged : IsPaged frames limit k forest' s'.tables
  pub under : Under parent child forest'
  pub leaves :
      (u : ℕ)
      → leaf forest' s'.tables.word u ≡ shared_areas parent child olds (leaf forest s.tables.word) u
  pub kept : (level x g : ℕ) → forest level x ≡ some g → forest' level x ≡ some g
  pub others : Untouched frames limit forest s.tables forest' s'.tables
  pub count : Counts l (owned_areas parent child olds (leaf forest s.tables.word)) s.mm s'.mm

-- Pages of one area stay blank when those of another are shared.
pub IsBlank-shared :
    (parent child : ℕ) (oldmm fuel : ℕ) (a b : VmAreaStruct) (entry : ℕ → ℕ)
    → parent ≢ child
    → IsUserArea oldmm fuel a
    → IsUserArea oldmm fuel b
    → PagesApart a b
    → IsBlank child entry b
    → IsBlank child
        (shared (pages_in a) (page_number parent a.vm_start) (page_number child a.vm_start) entry)
        b
IsBlank-shared parent child oldmm fuel a b entry ne ha hb o h i lt =
    let u = page_number child b.vm_start + i in
    let new : ℕ → ℕ = λ i. deny_write (entry (page_number parent a.vm_start + i)) in
    let v = page_number parent a.vm_start in
    let v' = page_number child a.vm_start in
    let n = pages_in a in
    let out : (u < v) ⊎ (v + n ≤ u) = elim (Bool-cases (ltb child parent)) [
      | inl less ↦ let less = ltb→lt child parent less in inl (omega (arith, less, lt, ha.3, hb.3))
      | inr more ↦
          let more : parent < child = omega (arith, ltb→le child parent more, ne) in
          inr (omega (arith, more, lt, ha.3, hb.3))
    ] in
    let out' : (u < v') ⊎ (v' + n ≤ u) = elim o [
      | inl below ↦ inr (omega (arith, below, lt, ha.3, hb.3))
      | inr above ↦ inl (omega (arith, above, lt, ha.3, hb.3))
    ] in
    ranged_out n v new (ranged n v' new entry) u out ∙ ranged_out n v' new entry u out' ∙ h i lt
