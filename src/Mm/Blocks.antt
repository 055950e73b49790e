-- ===== src/Mm/Blocks.antt =====
-- Blocks of pages: the pages that a block has, and how halves and buddies lie.
use Prim.Native.Nat.{bit_xor}
use osc_riscv.Base.{
  ℕ, zero, suc, ◌+◌, ◌*◌, ◌/◌, ◌%◌, ◌^◌, ◌≤◌, ◌<◌, ◌≡◌, ◌≢◌, refl, ap, List, [], ◌∷◌, ◌∈◌, arith,
  ◌==◌, ◌&&◌, ltb, leb, if◌then◌else◌, update, erase, Bool-cases, inl, inr, ◌⊎◌, eq_of_==, ==_refl,
}
use native.Mathlib.Nat.{pow-suc, one-le-pow, div-add-mod', mul-mod_left}
use osc_riscv.Base.Bits.{xor_set, xor_clear, mul-pow-suc}
use osc_riscv.Mm.Defs.{get_buddy, num_pages, buddy_max_order}

-- How often the page `p` stands in the block of order `o` at `q`: once or never.
abbrev pub covers : (o q p : ℕ) → ℕ
covers o q p = if leb q p && ltb p (q + 2 ^ o) then 1 else 0

unfoldable pub cover_list : ℕ → List ℕ → ℕ → ℕ
cover_list o [] p = 0
cover_list o (q ∷ qs) p = covers o q p + cover_list o qs p

-- The free blocks of the orders below `k`.
unfoldable pub cover_free : ℕ → (ℕ → List ℕ) → ℕ → ℕ
unfolding cover_list
cover_free zero free p = 0
cover_free (suc k) free p = cover_list k (free k) p + cover_free k free p

-- A block is aligned to its size and ends within the memory.
abbrev pub IsBlock : ℕ → ℕ → Type 0
IsBlock q o = (q % 2 ^ o ≡ 0) × (q + 2 ^ o ≤ num_pages)

pub cover_list-erase :
    (o q p : ℕ) (qs : List ℕ)
    → q ∈ qs
    → cover_list o (erase q qs) p + covers o q p ≡ cover_list o qs p
unfolding cover_list
cover_list-erase o q p [] i = absurd (ground arith)
cover_list-erase o q p (x ∷ qs) i = ground (arith, cover_list-erase o q p qs)

-- A page in one of the listed blocks is counted.
pub cover_list-mem : (o q p : ℕ) (qs : List ℕ) → q ∈ qs → covers o q p ≤ cover_list o qs p
cover_list-mem o q p qs i = omega (arith, cover_list-erase o q p qs i)

cover_free-update_out :
    (k i p : ℕ) (free : ℕ → List ℕ) (qs : List ℕ)
    → k ≤ i
    → cover_free k (update free i qs) p ≡ cover_free k free p
unfolding cover_free
cover_free-update_out zero i p free qs h = refl
cover_free-update_out (suc k) i p free qs h =
    ground (arith, cover_free-update_out k i p free qs (omega arith))

-- A new list for one order changes the count by the difference of the lists.
pub cover_free-update :
    (k i p : ℕ) (free : ℕ → List ℕ) (qs : List ℕ)
    → i < k
    → cover_free k (update free i qs) p + cover_list i (free i) p
      ≡ cover_free k free p + cover_list i qs p
unfolding cover_free
cover_free-update zero i p free qs h = absurd (omega arith)
cover_free-update (suc k) i p free qs h = elim (Bool-cases (k == i)) [
  | inl e ↦
      rw (eq_of_== k i e, ==_refl i)
        (ground (arith, cover_free-update_out i i p free qs (omega arith)))
  | inr ne ↦ rw ne (ground (arith, cover_free-update k i p free qs (ground arith)))
]

-- Each list is counted …
cover_free-list :
    (k i p : ℕ) (free : ℕ → List ℕ) → i < k → cover_list i (free i) p ≤ cover_free k free p
unfolding cover_free
cover_free-list zero i p free h = absurd (omega arith)
cover_free-list (suc k) i p free h = elim (Bool-cases (k == i)) [
  | inl e ↦ rw (eq_of_== k i e) (omega arith)
  | inr ne ↦ omega (arith, cover_free-list k i p free (ground arith))
]

-- … and two lists of different orders are both counted.
cover_free-lists :
    (k o i p : ℕ) (free : ℕ → List ℕ)
    → o < k
    → i < k
    → o ≢ i
    → cover_list o (free o) p + cover_list i (free i) p ≤ cover_free k free p
unfolding cover_free
cover_free-lists zero o i p free ho hi ne = absurd (omega arith)
cover_free-lists (suc k) o i p free ho hi ne = elim (Bool-cases (k == i)) [
  | inl e ↦
      let other = cover_free-list k o p free (ground arith) in
      rw (eq_of_== k i e) (omega (arith, rw (eq_of_== k i e) at other))
  | inr n ↦ elim (Bool-cases (k == o)) [
    | inl e ↦
        let other = cover_free-list k i p free (ground arith) in
        rw (eq_of_== k o e) (omega (arith, rw (eq_of_== k o e) at other))
    | inr n' ↦ omega (arith, cover_free-lists k o i p free (ground arith) (ground arith) ne)
  ]
]

pub cover_free-mem :
    (k i q p : ℕ) (free : ℕ → List ℕ) → i < k → q ∈ free i → covers i q p ≤ cover_free k free p
cover_free-mem k i q p free h j =
    omega (arith, cover_free-list k i p free h, cover_list-mem i q p (free i) j)

pub cover_free-two :
    (k o i q r p : ℕ) (free : ℕ → List ℕ)
    → o < k
    → i < k
    → o ≢ i
    → q ∈ free o
    → r ∈ free i
    → covers o q p + covers i r p ≤ cover_free k free p
cover_free-two k o i q r p free ho hi ne j j' = omega (
  arith,
  cover_free-lists k o i p free ho hi ne,
  cover_list-mem o q p (free o) j,
  cover_list-mem i r p (free i) j',
)

pub covers_self : (o q : ℕ) → covers o q q ≡ 1
covers_self o q = ground (arith, one-le-pow o 2)

-- An aligned block of the next order is its two halves.
pub covers_halves : (o q p : ℕ) → covers (suc o) q p ≡ covers o q p + covers o (q + 2 ^ o) p
covers_halves o q p = ground (arith, pow-suc 2 o, one-le-pow o 2)

-- An aligned number is an even or an odd multiple.
aligned_cases :
    (q o : ℕ) → q % 2 ^ o ≡ 0 → (h : ℕ) × ((q ≡ h * 2 ^ suc o) ⊎ (q ≡ h * 2 ^ suc o + 2 ^ o))
aligned_cases q o e =
    let c = q / 2 ^ o in
    let whole : c * 2 ^ o ≡ q = omega (arith, div-add-mod' q (2 ^ o)) in
    let halved : c ≡ 2 * (c / 2) + c % 2 = omega arith in
    let scaled : c * 2 ^ o ≡ (2 * (c / 2) + c % 2) * 2 ^ o = ap (λ (t : ℕ). t * 2 ^ o) halved in
    (
      c / 2,
      elim (Bool-cases (c % 2 == 0)) [
        | inl z ↦
            let even : (c % 2) * 2 ^ o ≡ 0 = rw (eq_of_== (c % 2) 0 z) (omega arith) in
            inl (omega (arith, whole, scaled, even, mul-pow-suc (c / 2) o))
        | inr n ↦
            let one : c % 2 ≡ 1 = ground arith in
            let odd : (c % 2) * 2 ^ o ≡ 2 ^ o = rw one (omega arith) in
            inr (omega (arith, whole, scaled, odd, mul-pow-suc (c / 2) o))
      ],
    )

-- The buddy of a block is the other half of the block of the next order that they make up.
abbrev pub IsBuddy : (q o b : ℕ) → Type 0
IsBuddy q o b = ((q % 2 ^ suc o ≡ 0) × (b ≡ q + 2 ^ o)) ⊎ ((b + 2 ^ o ≡ q) × (b % 2 ^ suc o ≡ 0))

pub get_buddy_cases : (q o : ℕ) → q % 2 ^ o ≡ 0 → IsBuddy q o (get_buddy q o)
unfolding get_buddy
get_buddy_cases q o e = by_half (aligned_cases q o e).0 (aligned_cases q o e).1
  where
    by_half :
        (h : ℕ)
        → (q ≡ h * 2 ^ suc o) ⊎ (q ≡ h * 2 ^ suc o + 2 ^ o)
        → IsBuddy q o (bit_xor q (2 ^ o))
    by_half h (inl even) = inl (rw even (mul-mod_left h (2 ^ suc o)), rw even (xor_set o h))
    by_half h (inr odd) =
        let down : bit_xor q (2 ^ o) ≡ h * 2 ^ suc o = rw odd (xor_clear o h) in
        inr (omega (arith, down, odd), rw down (mul-mod_left h (2 ^ suc o)))

-- An aligned number of a block that begins in the memory: the block ends there, since the number of
-- pages is a multiple of the largest block.
pub block_fits :
    (o q : ℕ) → o ≤ buddy_max_order → q % 2 ^ o ≡ 0 → q < num_pages → q + 2 ^ o ≤ num_pages
block_fits zero q le e lt = omega arith
block_fits (suc zero) q le e lt = omega arith
block_fits (suc (suc zero)) q le e lt = omega arith
block_fits (suc (suc (suc zero))) q le e lt = omega arith
block_fits (suc (suc (suc (suc zero)))) q le e lt = omega arith
block_fits (suc (suc (suc (suc (suc zero))))) q le e lt = omega arith
block_fits (suc (suc (suc (suc (suc (suc zero)))))) q le e lt = omega arith
block_fits (suc (suc (suc (suc (suc (suc (suc zero))))))) q le e lt = omega arith
block_fits (suc (suc (suc (suc (suc (suc (suc (suc zero)))))))) q le e lt = omega arith
block_fits (suc (suc (suc (suc (suc (suc (suc (suc (suc zero))))))))) q le e lt = omega arith
block_fits (suc (suc (suc (suc (suc (suc (suc (suc (suc (suc zero)))))))))) q le e lt = omega arith
block_fits (suc (suc (suc (suc (suc (suc (suc (suc (suc (suc (suc o))))))))))) q le e lt =
    absurd (omega arith)
