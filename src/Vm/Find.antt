-- ===== src/Vm/Find.antt =====
-- The areas of a process: `vm_mmap` and `find_vma` of src/vm.c.
use osc_riscv.Base.{
  ℕ, ◌<◌, ◌≤◌, ◌≡◌, inl, inr, refl, ap, List, [], ◌∷◌, ◌++◌, All, Bool-cases, Option, none, some,
  arith, length,
}
use osc_riscv.Ring.{Ptr}
use osc_riscv.Ring.Chain.{IsRing}
use osc_riscv.Ring.Each.{find?, list_for_each-find?}
use osc_riscv.Vm.{Areas, VmAreaStruct, find_vma, in_area}

-- The address lies in the area.
abbrev pub InArea : ℕ → VmAreaStruct → Type 0
InArea addr a = (a.vm_start ≤ addr) × (addr < a.vm_end)

-- `r` is the first of the areas `xs` that the address lies in, or nothing if it lies in none.
abbrev pub FirstArea : (Ptr → VmAreaStruct) → ℕ → List Ptr → Option Ptr → Type 0
FirstArea area addr xs none = All (λ p. ¬ InArea addr (area p)) xs
FirstArea area addr xs (some x) =
    (front : List Ptr) × (back : List Ptr) × (xs ≡ front ++ x ∷ back)
    × InArea addr (area x)
    × All (λ p. ¬ InArea addr (area p)) front

find?-FirstArea :
    (area : Ptr → VmAreaStruct) (addr : ℕ) (xs : List Ptr)
    → FirstArea area addr xs (find? (λ pos. in_area addr (area pos)) xs)
unfolding find?
find?-FirstArea area addr [] = tt
find?-FirstArea area addr (x ∷ xs) = elim (Bool-cases (in_area addr (area x))) [
  | inl e ↦ rw e ([], xs, refl, (ground arith, ground arith), tt)
  | inr e ↦
      let out : ¬ InArea addr (area x) = λ i. ground arith in
      rw e (later (find? (λ pos. in_area addr (area pos)) xs) out (find?-FirstArea area addr xs))
]
  where
    later :
        (r : Option Ptr)
        → ¬ InArea addr (area x)
        → FirstArea area addr xs r
        → FirstArea area addr (x ∷ xs) r
    later none out f = (out, f)
    later (some y) out (front, back, whole, i, f) =
        (x ∷ front, back, ap (λ t. x ∷ t) whole, i, (out, f))

-- `find_vma` ends, and returns the first area of the list that the address lies in, or the null
-- pointer if it lies in none.
pub find_vma-FirstArea :
    (fuel : ℕ) (mm : Ptr) (addr : ℕ) (s : Areas) (xs : List Ptr)
    → IsRing s.links mm xs
    → length xs < fuel
    → (r : Option Ptr) × (find_vma fuel mm addr s ≡ some r) × FirstArea s.area addr xs r
unfolding find_vma
find_vma-FirstArea fuel mm addr s xs r h = (
  find? (λ pos. in_area addr (s.area pos)) xs,
  list_for_each-find? s.links (λ pos. in_area addr (s.area pos)) mm fuel xs r h,
  find?-FirstArea s.area addr xs,
)
