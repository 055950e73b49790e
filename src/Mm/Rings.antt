-- ===== src/Mm/Rings.antt =====
-- The lists of free blocks in memory: `free_area[o]` threads the pages that `free o` names, and the
-- lists of different orders share no page.
use osc_riscv.Base.{
  ==_refl, ne_of_==, ℕ, ◌≤◌, ◌≡◌, ◌≢◌, refl, sym, subst, ap, ◌∙◌, List, [], ◌∷◌, ◌++◌, map, ◌∈◌,
  ◌∉◌, has, arith, ◌==◌, update, Bool-cases, inl, inr, eq_of_==, mem_split, erase,
  erase-append_self,
}
use mathlib.Core.List.{map-append}
use osc_riscv.Ring.{Ptr, Links, list_add, list_del_init}
use osc_riscv.Ring.Chain.{IsRing, SameOutside, IsRing-frame}
use osc_riscv.Ring.Add.{list_add-IsRing, list_add-SameOutside}
use osc_riscv.Ring.Del.{list_del_init-IsRing, list_del_init-SameOutside}
use osc_riscv.Mm.Defs.{Layout, area, page_list, page_entry, buddy_max_order}

module _ (l : Layout) where
  pub has-page_list : (q : ℕ) (xs : List ℕ) → has (page_list l q) (map (page_list l) xs) ≡ has q xs
  has-page_list q [] = refl
  has-page_list q (x ∷ xs) = ground (arith, has-page_list q xs)

  pub area-out : (o : ℕ) (xs : List ℕ) → o ≤ buddy_max_order → area l o ∉ map (page_list l) xs
  area-out o [] h = refl
  area-out o (x ∷ xs) h = ground (arith, l.behind, area-out o xs h)

  area_ne : (o i : ℕ) → o ≢ i → area l o ≢ area l i
  area_ne o i ne e = ne (omega arith)

  page_of_mem :
      (a : Ptr) (xs : List ℕ) → a ∈ map (page_list l) xs → (q : ℕ) × (a ≡ page_list l q) × (q ∈ xs)
  page_of_mem a [] i = absurd (ground arith)
  page_of_mem a (x ∷ xs) i = elim (Bool-cases (a == page_list l x)) [
    | inl e ↦ (x, eq_of_== a (page_list l x) e, ground arith)
    | inr ne ↦ let (q, e, j) = page_of_mem a xs (ground arith) in (q, e, ground arith)
  ]

  pub page_entry-page_list : (q : ℕ) → page_entry l (page_list l q) ≡ q
  page_entry-page_list q = omega arith

  abbrev pub Rings : Links → (ℕ → List ℕ) → Type 0
  Rings m free = (o : ℕ) → o ≤ buddy_max_order → IsRing m (area l o) (map (page_list l) (free o))

-- No page heads two free blocks of different orders.
abbrev pub Apart : (ℕ → List ℕ) → Type 0
Apart free =
    (o i q : ℕ) → o ≤ buddy_max_order → i ≤ buddy_max_order → o ≢ i → q ∈ free o → q ∉ free i

module _ (l : Layout) (m m' : Links) where
  pub IsRing-other :
      (o i : ℕ) (xs ys : List ℕ)
      → o ≤ buddy_max_order
      → i ≤ buddy_max_order
      → o ≢ i
      → SameOutside (area l i ∷ map (page_list l) ys) m m'
      → ((q : ℕ) → q ∈ xs → q ∉ ys)
      → IsRing m (area l o) (map (page_list l) xs)
      → IsRing m' (area l o) (map (page_list l) xs)
  IsRing-other o i xs ys ho hi ne same apart =
      IsRing-frame m m' (area l o) (map (page_list l) xs) (area l i ∷ map (page_list l) ys) same out
    where
      page_out : (q : ℕ) → q ∈ xs → page_list l q ∉ area l i ∷ map (page_list l) ys
      page_out q j = ground (arith, l.behind, has-page_list l q ys, apart q j)

      head_out : area l o ∉ area l i ∷ map (page_list l) ys
      head_out = ground (arith, area-out l o ys ho)

      out : (a : Ptr) → a ∈ area l o ∷ map (page_list l) xs → a ∉ area l i ∷ map (page_list l) ys
      out a j = elim (Bool-cases (a == area l o)) [
        | inl e ↦
            subst (λ t. t ∉ area l i ∷ map (page_list l) ys) (sym (eq_of_== a (area l o) e))
              head_out
        | inr n ↦
            let (q, e, k) = page_of_mem l a xs (ground arith) in
            subst (λ t. t ∉ area l i ∷ map (page_list l) ys) (sym e) (page_out q k)
      ]

module _ (l : Layout) (m : Links) (free : ℕ → List ℕ) (rings : Rings l m free)
    (apart : Apart free) where
  -- A page that heads no free block may be put at the front of a list.
  pub Rings-list_add :
      (i b : ℕ)
      → i ≤ buddy_max_order
      → ((o : ℕ) → o ≤ buddy_max_order → b ∉ free o)
      → Rings l (list_add (page_list l b) (area l i) m) (update free i (b ∷ free i))
  Rings-list_add i b hi fresh o ho = elim (Bool-cases (o == i)) [
    | inl e ↦
        rw (eq_of_== o i e, ==_refl i)
          (list_add-IsRing m (page_list l b) (area l i) (map (page_list l) (free i)) (rings i hi)
            new)
    | inr ne ↦ rw ne (
        IsRing-other l m (list_add (page_list l b) (area l i) m) o i (free o) (b ∷ free i) ho hi
          (ne_of_== o i ne)
          (list_add-SameOutside m (page_list l b) (area l i) (map (page_list l) (free i))
            (rings i hi))
          (λ q j. ground (arith, fresh o ho, apart o i q ho hi (ne_of_== o i ne) j)) (rings o ho))
  ]
    where
      new : page_list l b ∉ area l i ∷ map (page_list l) (free i)
      new = ground (arith, l.behind, has-page_list l b (free i), fresh i hi)

  -- A page that heads a free block may be taken out of its list.
  pub Rings-list_del_init :
      (i b : ℕ)
      → i ≤ buddy_max_order
      → b ∈ free i
      → Rings l (list_del_init (page_list l b) m) (update free i (erase b (free i)))
  Rings-list_del_init i b hi j o ho =
      let (front, back, e, out) = mem_split b (free i) j in
      let whole : IsRing m (area l i)
          (map (page_list l) front ++ page_list l b ∷ map (page_list l) back) =
        rw (← map-append (page_list l) front (b ∷ back), ← e) (rings i hi) in
      let cut : erase b (free i) ≡ front ++ back =
        ap (erase b) e ∙ erase-append_self b front back out in
      elim (Bool-cases (o == i)) [
        | inl e' ↦
            rw (eq_of_== o i e', ==_refl i, cut, map-append (page_list l) front back)
              (list_del_init-IsRing m (area l i) (page_list l b) (map (page_list l) front)
                (map (page_list l) back) whole)
        | inr ne ↦ rw ne (
            IsRing-other l m (list_del_init (page_list l b) m) o i (free o) (front ++ b ∷ back) ho
              hi (ne_of_== o i ne)
              (rw (map-append (page_list l) front (b ∷ back)) (
                list_del_init-SameOutside m (area l i) (page_list l b) (map (page_list l) front)
                  (map (page_list l) back) whole))
              (λ q k. rw (← e) (apart o i q ho hi (ne_of_== o i ne) k)) (rings o ho))
      ]
