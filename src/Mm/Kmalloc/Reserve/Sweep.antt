-- ===== src/Mm/Kmalloc/Reserve/Sweep.antt =====
-- The loops of `reserve_memory` of src/mm.c.
use osc_riscv.Base.{
  ℕ, zero, suc, ◌+◌, ◌*◌, ◌^◌, ◌<◌, ◌≤◌, ◌≡◌, inl, inr, refl, false, sym, ap, ◌∙◌, some, List, [],
  ◌∷◌, ◌++◌, ◌∈◌, ◌∉◌, arith, ◌==◌, map, erase, All, length, has-append, erase-append_self,
  Distinct-delete, not-mem-append_left,
}
use mathlib.Core.List.{append_assoc, append-nil, map-append}
use osc_riscv.Ring.{each_safe_loop, list_for_each_safe}
use osc_riscv.Ring.Chain.{IsRing}
use osc_riscv.Ring.Walk.{first_or, next-first_or}
use osc_riscv.Mm.Defs.{Layout, Mm, area, page_list, buddy_max_order, page_size}
use osc_riscv.Mm.Rings.{has-page_list}
use osc_riscv.Mm.Invariant.{Block, IsBuddySystem}
use osc_riscv.Mm.Kmalloc.{reserve_block}
use osc_riscv.Mm.Kmalloc.Reserve.{IsOutside, IsInside, TakenOut, reserve_block-TakenOut}
use osc_riscv.Mm.Kmalloc.Reserve.Weight.{weight}

pub All-append {ℓ} :
    {A : Type 0} (P : A → Type ℓ) (xs ys : List A) → All P xs → All P ys → All P (xs ++ ys)
All-append P [] ys h i = i
All-append P (x ∷ xs) ys h i = (h.0, All-append P xs ys h.1 i)

module _ (l : Layout) (a b k : ℕ) (hk : k ≤ buddy_max_order) where
  -- The list of order `k` has been gone through, from a state with `n` blocks to look at.
  pub record Swept (s' : Mm) (free : ℕ → List ℕ) (live : List Block) (n : ℕ) : Type 0 where
    pub free' : ℕ → List ℕ
    pub new : List Block
    pub system : IsBuddySystem l s' free' (new ++ live)
    pub outside : All (λ q. IsOutside (a * page_size) (b * page_size) q k) (free' k)
    pub above : (o : ℕ) → k < o → free' o ≡ free o
    pub lighter : weight k free' ≤ weight k free + n * 2 ^ k
    pub inside : All (IsInside (a * page_size) (b * page_size)) new

  Swept-more :
      (s' : Mm) (free : ℕ → List ℕ) (live : List Block) (n : ℕ)
      → Swept s' free live n
      → Swept s' free live (suc n)
  Swept-more s' free live n w = record {
    free' = w.free';
    new = w.new;
    system = w.system;
    outside = w.outside;
    above = w.above;
    lighter = omega (arith, w.lighter);
    inside = w.inside;
  }

  Swept-TakenOut :
      (s1 s' : Mm) (free : ℕ → List ℕ) (live : List Block) (q n : ℕ)
      → (t : TakenOut l (a * page_size) (b * page_size) k q s1 free live)
      → Swept s' t.free' (t.new ++ live) n
      → Swept s' free live (suc n)
  Swept-TakenOut s1 s' free live q n t w = record {
    free' = w.free';
    new = w.new ++ t.new;
    system = rw (append_assoc w.new t.new live) w.system;
    outside = w.outside;
    above = λ o lt. w.above o lt ∙ t.above o lt;
    lighter = omega (arith, w.lighter, t.lighter);
    inside = All-append (IsInside (a * page_size) (b * page_size)) w.new t.new w.inside t.inside;
  }

  -- An entry stands once in the list.
  entry_once :
      (s : Mm) (free : ℕ → List ℕ) (live : List Block) (done xs : List ℕ) (x : ℕ)
      → IsBuddySystem l s free live
      → free k ≡ done ++ x ∷ xs
      → x ∉ done
  entry_once s free live done xs x h e =
      let ring : IsRing s.links (area l k)
          (map (page_list l) done ++ page_list l x ∷ map (page_list l) xs) =
        rw (← map-append (page_list l) done (x ∷ xs), ← e) (h.rings k hk) in
      let out =
        not-mem-append_left (page_list l x) (map (page_list l) done) (map (page_list l) xs)
          (Distinct-delete (page_list l x) (map (page_list l) done) (map (page_list l) xs)
            ring.distinct).1 in
      ground (arith, has-page_list l x done, out)

  sweep_loop-Swept :
      (fuel : ℕ) (done rest : List ℕ) (s : Mm) (free : ℕ → List ℕ) (live : List Block)
      → IsBuddySystem l s free live
      → free k ≡ done ++ rest
      → All (λ q. IsOutside (a * page_size) (b * page_size) q k) done
      → length rest < fuel
      → let pos = first_or (map (page_list l) rest) (area l k) in
        (s' : Mm) × (each_safe_loop
            (λ (s : Mm). s.links)
            (reserve_block l k (a * page_size) (b * page_size))
            fuel
            pos
            (s.links.next pos)
            (area l k)
            s
          ≡ some s')
        × Swept s' free live (length rest)
  unfolding each_safe_loop
  sweep_loop-Swept zero done rest s free live h e out lt = absurd (omega arith)
  sweep_loop-Swept (suc fuel) done [] s free live h e out lt = (
    s,
    ground arith,
    record {
      free' = free;
      new = [];
      system = h;
      outside = rw (e, append-nil) out;
      above = λ o lt'. refl;
      lighter = omega arith;
      inside = tt;
    },
  )
  sweep_loop-Swept (suc fuel) done (x ∷ xs) s free live h e out lt =
      let going : (page_list l x == area l k) ≡ false = ground (arith, l.behind, hk) in
      let j : x ∈ free k = rw e (ground (arith, has-append x done (x ∷ xs))) in
      let ring : IsRing s.links (area l k)
          (map (page_list l) done ++ page_list l x ∷ map (page_list l) xs) =
        rw (← map-append (page_list l) done (x ∷ xs), ← e) (h.rings k hk) in
      let next =
        next-first_or s.links (area l k) (map (page_list l) done) (page_list l x)
          (map (page_list l) xs) ring in
      elim (reserve_block-TakenOut l a b h x k hk j) [
        | inl (same, outside) ↦
            let (s', ended, w) =
              sweep_loop-Swept fuel (done ++ x ∷ []) xs s free live h
                (e ∙ sym (append_assoc done (x ∷ []) xs))
                (All-append (λ q. IsOutside (a * page_size) (b * page_size) q k) done (x ∷ []) out
                  (outside, tt))
                (omega (arith, lt)) in
            (s', rw (going, next, same) ended, Swept-more s' free live (length xs) w)
        | inr t ↦
            let s1 = reserve_block l k (a * page_size) (b * page_size) (page_list l x) s in
            let once = entry_once s free live done xs x h e in
            let (s', ended, w) =
              sweep_loop-Swept fuel done xs s1 t.free' (t.new ++ live) t.system
                (t.here ∙ ap (erase x) e ∙ erase-append_self x done xs once) out
                (omega (arith, lt)) in
            (s', rw (going, next) ended, Swept-TakenOut s1 s' free live x (length xs) t w)
      ]

  -- The loop over the list of order `k` ends, and leaves the blocks outside the range on it.
  pub list_for_each_safe-Swept :
      (fuel : ℕ) (s : Mm) (free : ℕ → List ℕ) (live : List Block)
      → IsBuddySystem l s free live
      → length (free k) < fuel
      → (s' : Mm) × (list_for_each_safe
            (λ (s : Mm). s.links)
            (reserve_block l k (a * page_size) (b * page_size))
            fuel
            (area l k)
            s
          ≡ some s')
        × Swept s' free live (length (free k))
  unfolding list_for_each_safe
  list_for_each_safe-Swept fuel s free live h lt =
      rw (first_of (free k) (h.rings k hk))
        (sweep_loop-Swept fuel [] (free k) s free live h refl tt lt)
    where
      first_of :
          (xs : List ℕ)
          → IsRing s.links (area l k) (map (page_list l) xs)
          → s.links.next (area l k) ≡ first_or (map (page_list l) xs) (area l k)
      first_of [] r = r.chain.0
      first_of (x ∷ xs) r = r.chain.0
