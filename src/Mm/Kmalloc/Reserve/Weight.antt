-- ===== src/Mm/Kmalloc/Reserve/Weight.antt =====
-- How many pages the free blocks of src/mm.c have, which bounds the loops of `reserve_memory`.
use osc_riscv.Base.{
  ℕ, zero, suc, ◌+◌, ◌*◌, ◌^◌, ◌<◌, ◌≤◌, ◌≡◌, refl, List, [], ◌∷◌, ◌∈◌, length, arith, ◌==◌, update,
  erase, Bool-cases, inl, inr, eq_of_==, ==_refl,
}

-- The pages of the free blocks of the orders below `k`.
unfoldable pub weight : ℕ → (ℕ → List ℕ) → ℕ
weight zero free = 0
weight (suc k) free = length (free k) * 2 ^ k + weight k free

pub weight-update_out :
    (k i : ℕ) (free : ℕ → List ℕ) (qs : List ℕ)
    → k ≤ i
    → weight k (update free i qs) ≡ weight k free
unfolding weight
weight-update_out zero i free qs h = refl
weight-update_out (suc k) i free qs h = ground (arith, weight-update_out k i free qs (omega arith))

pub weight-update :
    (k i : ℕ) (free : ℕ → List ℕ) (qs : List ℕ)
    → i < k
    → weight k (update free i qs) + length (free i) * 2 ^ i ≡ weight k free + length qs * 2 ^ i
unfolding weight
weight-update zero i free qs h = absurd (omega arith)
weight-update (suc k) i free qs h = elim (Bool-cases (k == i)) [
  | inl e ↦
      rw (eq_of_== k i e, ==_refl i) (ground (arith, weight-update_out i i free qs (omega arith)))
  | inr ne ↦ rw ne (ground (arith, weight-update k i free qs (ground arith)))
]

pub length-erase : (q : ℕ) (qs : List ℕ) → q ∈ qs → length (erase q qs) + 1 ≡ length qs
length-erase q [] j = absurd (ground arith)
length-erase q (x ∷ qs) j = ground (arith, length-erase q qs)

pub weight-push :
    (k i : ℕ) (free : ℕ → List ℕ) (x : ℕ)
    → i < k
    → weight k (update free i (x ∷ free i)) ≡ weight k free + 2 ^ i
weight-push k i free x h = omega (arith, weight-update k i free (x ∷ free i) h)
