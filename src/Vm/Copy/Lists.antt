-- ===== src/Vm/Copy/Lists.antt =====
-- The lists of areas that `dup_mmap` of src/vm.c goes through and makes.
use osc_riscv.Base.{
  ◌≡◌, inl, inr, refl, ap₂, ◌∙◌, false, arith, ◌==◌, List, [], ◌∷◌, ◌++◌, map, ◌∈◌, ◌∉◌, Distinct,
  Distinct-delete, not-mem-append_left, has, has-append, update, Bool-cases, ==_refl,
}
use mathlib.Core.List.{append_assoc}
use osc_riscv.Ring.{Ptr, Links, list_add_tail}
use osc_riscv.Ring.Chain.{IsRing, IsRing-frame}
use osc_riscv.Ring.Add.{list_add_tail-IsRing, list_add_tail-SameOutside}
use osc_riscv.Ring.Walk.{first_or}
use osc_riscv.Vm.{VmAreaStruct, Areas}
use osc_riscv.Vm.Copy.Dup.{for_process}

-- The new area changes none of the others.
pub map-update :
    (area : Ptr → VmAreaStruct) (y : Ptr) (a : VmAreaStruct) (xs : List Ptr)
    → y ∉ xs
    → map (update area y a) xs ≡ map area xs
map-update area y a [] out = refl
map-update area y a (x ∷ xs) out =
    let ne : (x == y) ≡ false = ground (arith, out) in
    ap₂ (λ b bs. b ∷ bs) (rw ne refl) (map-update area y a xs (ground (arith, out)))

-- The list of `mm` has got the areas `ys`, which are those of `olds`; the parent's list `xs` and every
-- other area is as it was.
pub record Copies (oldmm mm : Ptr) (xs made ys : List Ptr) (olds : List VmAreaStruct) (s s' : Areas)
    : Type 0 where
  pub parent_list : IsRing s'.links oldmm xs
  pub child_list : IsRing s'.links mm (made ++ ys)
  pub areas : map s'.area ys ≡ map (for_process mm) olds
  pub others : (p : Ptr) → p ∉ ys → s'.area p ≡ s.area p

-- The addresses that are used for the child's list are not in the parent's.
abbrev pub ApartLists : (oldmm mm : Ptr) (xs made ys : List Ptr) → Type 0
ApartLists oldmm mm xs made ys = (a : Ptr) → a ∈ oldmm ∷ xs → a ∉ mm ∷ made ++ ys

-- One area more in the child's list.
pub Copies-cons :
    (oldmm mm : Ptr) (xs made ys : List Ptr) (y : Ptr) (a : VmAreaStruct) (olds : List VmAreaStruct)
    (s s1 s' : Areas)
    → y ∉ ys
    → (s1.area ≡ update s.area y (for_process mm a))
    → Copies oldmm mm xs (made ++ y ∷ []) ys olds s1 s'
    → Copies oldmm mm xs made (y ∷ ys) (a ∷ olds) s s'
Copies-cons oldmm mm xs made ys y a olds s s1 s' out e h = record {
  parent_list = h.parent_list;
  child_list = rw (append_assoc made (y ∷ []) ys) at h.child_list;
  areas = ap₂ (λ b bs. b ∷ bs) (h.others y out ∙ rw (e, ==_refl y) refl) h.areas;
  others = λ p not_new.
      let ne : (p == y) ≡ false = ground (arith, not_new) in
      h.others p (ground (arith, not_new)) ∙ rw (e, ne) refl;
}

-- A new area's address is not in the parent's list.
pub new_out :
    (oldmm mm : Ptr) (xs made ys : List Ptr) (y : Ptr)
    → ApartLists oldmm mm xs made (y ∷ ys)
    → y ∉ oldmm ∷ xs
new_out oldmm mm xs made ys y apart = elim (Bool-cases (has y (oldmm ∷ xs))) [
  | inl i ↦ absurd (let o = apart y i in ground (arith, o, has-append y made (y ∷ ys), ==_refl y))
  | inr o ↦ o
]

pub first_entry :
    (m : Links) (head : Ptr) (xs : List Ptr) → IsRing m head xs → m.next head ≡ first_or xs head
first_entry m head [] r = r.chain.0
first_entry m head (x ∷ xs) r = r.chain.0

-- The rings after an area has been added to the child's.
pub add_area :
    (m : Links) (oldmm mm y : Ptr) (xs made ys : List Ptr)
    → IsRing m oldmm xs
    → IsRing m mm made
    → ApartLists oldmm mm xs made (y ∷ ys)
    → Distinct (mm ∷ made ++ y ∷ ys)
    → IsRing (list_add_tail y mm m) oldmm xs × IsRing (list_add_tail y mm m) mm (made ++ y ∷ [])
add_area m oldmm mm y xs made ys r r' apart d = (
  IsRing-frame m (list_add_tail y mm m) oldmm xs (mm ∷ y ∷ made)
      (list_add_tail-SameOutside m y mm made r')
      (λ a i. ground (arith, apart a i, has-append a made (y ∷ ys))) r,
  list_add_tail-IsRing m y mm made r'
      (not-mem-append_left y (mm ∷ made) ys (Distinct-delete y (mm ∷ made) ys d).1),
)
