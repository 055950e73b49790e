-- ===== src/Mm/Merge.antt =====
-- `free_pages` of src/mm.c: when a block meets its buddy.
use osc_riscv.Base.{
  ℕ, zero, suc, ◌+◌, ◌*◌, ◌/◌, ◌%◌, ◌^◌, ◌≤◌, ◌<◌, ◌≡◌, ap, sym, subst, ◌∙◌, List, [], ◌∷◌, ◌∈◌,
  arith, ◌==◌, Bool-cases, inl, inr, ◌⊎◌, All, leb, eq_of_==,
}
use native.Mathlib.Nat.{
  one-le-pow, pow-suc, div-add-mod', div-lt_iff_lt-mul, mul-le-mul_right, add-mod_right,
}
use osc_riscv.Mm.Defs.{Layout, Mm, num_pages, buddy_max_order}
use osc_riscv.Mm.Alloc.{aligned_down, aligned_half}
use osc_riscv.Mm.Blocks.{
  covers, cover_list, cover_free, IsBlock, IsBuddy, covers_self, cover_free-mem, block_fits,
}
use osc_riscv.Mm.Invariant.{Block, cover_live, IsLive, Holds, head_in_memory}

-- A page that the lists count stands in one of their blocks.
cover_list-block :
    (o p : ℕ) (qs : List ℕ) → 1 ≤ cover_list o qs p → (q : ℕ) × (q ∈ qs) × (covers o q p ≡ 1)
unfolding cover_list
cover_list-block o p [] h = absurd (omega arith)
cover_list-block o p (x ∷ qs) h = elim (Bool-cases (covers o x p == 1)) [
  | inl e ↦ (x, ground arith, ground arith)
  | inr ne ↦ let (q, j, e) = cover_list-block o p qs (ground arith) in (q, ground arith, e)
]

cover_free-block :
    (k p : ℕ) (free : ℕ → List ℕ)
    → 1 ≤ cover_free k free p
    → (o : ℕ) × (q : ℕ) × (o < k) × (q ∈ free o) × (covers o q p ≡ 1)
unfolding cover_free
cover_free-block zero p free h = absurd (omega arith)
cover_free-block (suc k) p free h = elim (Bool-cases (leb 1 (cover_list k (free k) p))) [
  | inl e ↦
      let (q, j, c) = cover_list-block k p (free k) (ground arith) in (k, q, omega arith, j, c)
  | inr ne ↦
      let (o, q, lt, j, c) = cover_free-block k p free (ground arith) in (o, q, omega arith, j, c)
]

cover_live-block :
    (s : Mm) (p : ℕ) (bs : List Block)
    → All (IsLive s) bs
    → 1 ≤ cover_live bs p
    → (o : ℕ) × (q : ℕ) × IsLive s (q, o)
      × (covers o q p ≡ 1)
      × ((x : ℕ) → covers o q x ≤ cover_live bs x)
unfolding cover_live
cover_live-block s p [] ok h = absurd (omega arith)
cover_live-block s p ((x, n) ∷ bs) ok h = elim (Bool-cases (covers n x p == 1)) [
  | inl e ↦ (n, x, ok.0, ground arith, λ y. omega arith)
  | inr ne ↦
      let (o, q, live, c, le) = cover_live-block s p bs ok.1 (ground arith) in
      (o, q, live, c, λ y. omega (arith, le y))
]

-- Two multiples of one number, nearer than it: not above.
multiple_le : (M a b : ℕ) → 1 ≤ M → a % M ≡ 0 → b % M ≡ 0 → a < b + M → a ≤ b
multiple_le M a b pos ea eb lt =
    let whole : a / M * M ≡ a = omega (arith, div-add-mod' a M) in
    let whole' : b / M * M ≡ b = omega (arith, div-add-mod' b M) in
    let small : a / M < b / M + 1 = (div-lt_iff_lt-mul pos).1 (omega (arith, whole')) in
    let scaled : a / M * M ≤ b / M * M = mul-le-mul_right M (omega arith) in
    omega (arith, scaled, whole, whole')

aligned_le : (k n q : ℕ) → k ≤ n → q % 2 ^ n ≡ 0 → q % 2 ^ k ≡ 0
aligned_le zero zero q le e = e
aligned_le (suc k) zero q le e = absurd (omega arith)
aligned_le k (suc n) q le e = elim (Bool-cases (k == suc n)) [
  | inl same ↦ rw (eq_of_== k (suc n) same) e
  | inr ne ↦ aligned_le k n q (ground arith) (aligned_down q n e)
]

buddy-aligned : (q o b : ℕ) → q % 2 ^ o ≡ 0 → IsBuddy q o b → b % 2 ^ o ≡ 0
buddy-aligned q o b e (inl (even, up)) = rw up (aligned_half q o even)
buddy-aligned q o b e (inr (down, odd)) = aligned_down b o odd

-- A larger aligned block that has one half of a block has all of it.
covers_base :
    (o o' base q' b q : ℕ)
    → suc o ≤ o'
    → base % 2 ^ suc o ≡ 0
    → q' % 2 ^ o' ≡ 0
    → covers o' q' b ≡ 1
    → base ≤ b
    → b < base + 2 ^ suc o
    → base ≤ q
    → q < base + 2 ^ suc o
    → covers o' q' q ≡ 1
covers_base o o' base q' b q le eb eq c lo hi lo' hi' =
    let M = 2 ^ suc o in
    let pos : 1 ≤ M = one-le-pow (suc o) 2 (omega arith) in
    let front : q' ≤ base =
      multiple_le M q' base pos (aligned_le (suc o) o' q' le eq) eb (ground arith) in
    let back : base + M ≤ q' + 2 ^ o' =
      multiple_le M (base + M) (q' + 2 ^ o') pos (rw add-mod_right eb)
        (aligned_le (suc o) o' (q' + 2 ^ o') le (rw add-mod_right eq)) (ground arith) in
    ground arith

-- An aligned block that has the first page of a buddy is a block at that page, of no larger order,
-- or it has the block whose buddy this is.
buddy_block :
    (q o b q' o' : ℕ)
    → q % 2 ^ o ≡ 0
    → IsBuddy q o b
    → q' % 2 ^ o' ≡ 0
    → covers o' q' b ≡ 1
    → (q' ≡ b) ⊎ (covers o' q' q ≡ 1)
buddy_block q o b q' o' e buddy e' c = elim (Bool-cases (leb o' o)) [
  | inl le ↦
      let back : b ≤ q' =
        multiple_le (2 ^ o') b q' (one-le-pow o' 2 (omega arith))
          (aligned_le o' o b (ground arith) (buddy-aligned q o b e buddy)) e' (ground arith) in
      inl (ground arith)
  | inr gt ↦ inr (elim buddy [
    | inl (even, up) ↦
        covers_base o o' q q' b q (ground arith) even e' c (omega arith)
          (omega (arith, pow-suc 2 o, one-le-pow o 2 (omega arith))) (omega arith)
          (omega (arith, one-le-pow (suc o) 2 (omega arith)))
    | inr (down, odd) ↦
        covers_base o o' b q' b q (ground arith) odd e' c (omega arith)
          (omega (arith, one-le-pow (suc o) 2 (omega arith))) (omega arith)
          (omega (arith, pow-suc 2 o, one-le-pow o 2 (omega arith)))
  ])
]

module _ {l : Layout} {s : Mm} {free : ℕ → List ℕ} {live : List Block} (q o : ℕ)
    (h : Holds l s free live (covers o q)) (block : IsBlock q o) (ho : o < buddy_max_order) where
  -- The buddy lies in the memory, and the block at hand does not have it.
  pub buddy_in_memory : (b : ℕ) → IsBuddy q o b → (b < num_pages) × (covers o q b ≡ 0)
  buddy_in_memory b (inl (even, up)) =
      let fits : q + 2 ^ suc o ≤ num_pages =
        block_fits (suc o) q (omega arith) even (head_in_memory q o block) in
      (omega (arith, fits, pow-suc 2 o, one-le-pow o 2 (omega arith)), ground arith)
  buddy_in_memory b (inr (down, odd)) = (
    omega (arith, block.1, one-le-pow o 2 (omega arith)),
    ground (arith, one-le-pow o 2 (omega arith)),
  )

  -- If the buddy's page says that it heads an unused block of the same order, it stands in the list
  -- of that order.
  pub buddy-mem : (b : ℕ) → IsBuddy q o b → s.used b ≡ 0 → s.order b ≡ o → b ∈ free o
  buddy-mem b buddy used order =
      let (lt, out) = buddy_in_memory b buddy in
      let mine : covers o q q ≡ 1 = covers_self o q in
      let only = h.cover q (head_in_memory q o block) in
      elim (Bool-cases (leb 1 (cover_free 11 free b))) [
        | inl some_free ↦
            let (o', q', lt', j, c) = cover_free-block 11 b free (ground arith) in
            let ok = h.free_ok o' q' (omega arith) j in
            elim (buddy_block q o b q' o' block.0 buddy ok.0.0 c) [
              | inl e ↦
                  let same : o' ≡ o = sym ok.1 ∙ ap s.order e ∙ order in
                  subst (λ x. b ∈ free x) same (subst (λ x. x ∈ free o') e j)
              | inr both ↦
                  absurd (omega (arith, only, mine, both, cover_free-mem 11 o' q' q free lt' j))
            ]
        | inr none_free ↦
            let (o', q', ok, c, le) =
              cover_live-block s b live h.live_ok (ground (arith, h.cover b lt, out)) in
            elim (buddy_block q o b q' o' block.0 buddy ok.0.0 c) [
              | inl e ↦ absurd (omega (arith, ap s.used e, ok, used))
              | inr both ↦ absurd (omega (arith, only, mine, both, le q))
            ]
      ]
