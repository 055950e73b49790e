-- ===== src/Mm/Kmalloc/Reserve.antt =====
-- `reserve_memory` of src/mm.c: what it does to one free block.
pub mod Sweep
pub mod Weight
use osc_riscv.Base.{
  ℕ, zero, suc, ◌+◌, ◌-◌, ◌*◌, ◌/◌, ◌%◌, ◌^◌, ◌<◌, ◌≤◌, ◌≡◌, ◌≢◌, ◌⊎◌, inl, inr, refl, true, false,
  List, [], ◌∷◌, ◌++◌, ◌∈◌, arith, ◌==◌, leb, ◌&&◌, ◌||◌, if◌then◌else◌, update, erase, Bool,
  Bool-cases, All, ==_refl, ==_false, length, ne_of_==, eq_of_==,
}
use native.Mathlib.Nat.{pow-suc, one-le-pow}
use osc_riscv.Ring.{Ptr, list_add, list_del_init}
use osc_riscv.Mm.Defs.{
  Layout, Mm, area, page_list, page_entry, get_buddy, buddy_max_order, num_pages, page_size,
}
use osc_riscv.Mm.Rings.{Rings-list_del_init, page_entry-page_list}
use osc_riscv.Mm.Blocks.{
  covers, IsBlock, cover_free-update, cover_list-erase, covers_halves, covers_self,
}
use osc_riscv.Mm.Invariant.{
  Block, Holds, IsBuddySystem, head_in_memory, IsLive-frame, Holds-Apart, mem_take, rest-not_free,
  rest-not_live, cover_live_cons,
}
use osc_riscv.Mm.Alloc.{split_state, give-Holds, upper-IsBlock, get_buddy-upper, aligned_down}
use osc_riscv.Mm.Kmalloc.{reserve_block}
use osc_riscv.Mm.Kmalloc.Reserve.Weight.{weight, weight-update_out, weight-push}

-- The bytes of a block lie outside the range from `start` to `end`, or all inside it.
abbrev pub IsOutside : (start end q o : ℕ) → Type 0
IsOutside start end q o = (end ≤ q * page_size) ⊎ (q * page_size + page_size * 2 ^ o ≤ start)

abbrev pub IsInside : (start end : ℕ) → Block → Type 0
IsInside start end (q, o) = (start ≤ q * page_size) × (q * page_size + page_size * 2 ^ o ≤ end)

-- The block at `q` has left its list.
abbrev unlisted : Layout → ℕ → Mm → Mm
unlisted l q s = record s { links = list_del_init (page_list l q) s.links }

-- The block at `q` is handed out.
abbrev kept : ℕ → ℕ → Mm → Mm
kept k q s = record s { order = update s.order q k; used = update s.used q 1 }

module _ {l : Layout} {s : Mm} {free : ℕ → List ℕ} {live : List Block} (k q : ℕ) where
  unlisted-Holds :
      IsBuddySystem l s free live
      → k ≤ buddy_max_order
      → q ∈ free k
      → Holds l (unlisted l q s) (update free k (erase q (free k))) live (covers k q)
  unlisted-Holds h hk j = record {
    rings = Rings-list_del_init l s.links free h.rings (Holds-Apart h) k q hk j;
    cover = λ p lt. omega (
      arith,
      h.cover p lt,
      cover_free-update 11 k p free (erase q (free k)) (omega (arith, hk)),
      cover_list-erase k q p (free k) j,
    );
    free_ok = λ o p ho i. h.free_ok o p ho (mem_take free k q o p i);
    live_ok = h.live_ok;
  }

  kept-Holds :
      Holds l s free live (covers k q)
      → IsBlock q k
      → k ≤ buddy_max_order
      → IsBuddySystem l (kept k q s) free ((q, k) ∷ live)
  kept-Holds h b hk =
      let lt = head_in_memory q k b in
      let fresh = rest-not_free h q lt (covers_self k q) in
      record {
        rings = h.rings;
        cover = λ p lt'. omega (arith, h.cover p lt', cover_live_cons q k live p);
        free_ok = λ o p ho j. elim (Bool-cases (p == q)) [
          | inl same ↦ absurd (ground (arith, fresh o ho, eq_of_== p q same))
          | inr other ↦ rw other (h.free_ok o p ho j)
        ];
        live_ok = (
          (b, hk, rw (==_refl q) refl, rw (==_refl q) refl),
          IsLive-frame s (kept k q s) q live (λ p ne. ground arith)
              (rest-not_live h q lt (covers_self k q)) h.live_ok,
        );
      }

-- The halves of the block at `q` of order `suc i` are free.
abbrev halved_free : (ℕ → List ℕ) → ℕ → ℕ → ℕ → List ℕ
halved_free free i q =
    let free1 = update free (suc i) (erase q (free (suc i))) in
    let free2 = update free1 i (q ∷ free1 i) in update free2 i ((q + 2 ^ i) ∷ free2 i)

halved-Holds :
    (l : Layout) (s : Mm) (free : ℕ → List ℕ) (live : List Block) (i q : ℕ)
    → IsBuddySystem l s free live
    → i < buddy_max_order
    → q ∈ free (suc i)
    → IsBuddySystem l
        (split_state l i (q + 2 ^ i) (split_state l i q (unlisted l q s)))
        (halved_free free i q)
        live
halved-Holds l s free live i q h hi j =
    let b = (h.free_ok (suc i) q (omega (arith, hi)) j).0 in
    let lower : IsBlock q i = (aligned_down q i b.0, omega (arith, b.1, pow-suc 2 i)) in
    let out = unlisted-Holds (suc i) q h (omega (arith, hi)) j in
    give-Holds i (q + 2 ^ i) (λ p. 0)
      (give-Holds i q (covers i (q + 2 ^ i)) out lower (omega (arith, hi))
        (λ p. omega (arith, covers_halves i q p)))
      (upper-IsBlock i q b) (omega (arith, hi)) (λ p. omega arith)

-- A round at the block `q` of order `k` has taken it out of its list: it has handed blocks out, or put
-- blocks of smaller orders on their lists.
pub record TakenOut (l : Layout) (start end k q : ℕ) (s' : Mm) (free : ℕ → List ℕ)
    (live : List Block) : Type 0 where
  pub free' : ℕ → List ℕ
  pub new : List Block
  pub system : IsBuddySystem l s' free' (new ++ live)
  pub here : free' k ≡ erase q (free k)
  pub above : (o : ℕ) → k < o → free' o ≡ free o
  pub lighter : weight k free' ≤ weight k free + 2 ^ k
  pub inside : All (IsInside start end) new

weight-halved :
    (i q : ℕ) (free : ℕ → List ℕ)
    → weight (suc i) (halved_free free i q) ≡ weight (suc i) free + 2 ^ suc i
weight-halved i q free =
    let free1 = update free (suc i) (erase q (free (suc i))) in
    let free2 = update free1 i (q ∷ free1 i) in
    omega (
      arith,
      weight-push (suc i) i free2 (q + 2 ^ i) (omega arith),
      weight-push (suc i) i free1 q (omega arith),
      weight-update_out (suc i) (suc i) free (erase q (free (suc i))) (omega arith),
      pow-suc 2 i,
    )

-- The bounds of the range are multiples of a page.
module _ (l : Layout) (a b : ℕ) {s : Mm} {free : ℕ → List ℕ} {live : List Block}
    (h : IsBuddySystem l s free live) (q : ℕ) where
  kept-TakenOut :
      (k : ℕ)
      → k ≤ buddy_max_order
      → q ∈ free k
      → IsInside (a * page_size) (b * page_size) (q, k)
      → TakenOut l (a * page_size) (b * page_size) k q (kept k q (unlisted l q s)) free live
  kept-TakenOut k hk j inside = record {
    free' = update free k (erase q (free k));
    new = (q, k) ∷ [];
    system = kept-Holds k q (unlisted-Holds k q h hk j) (h.free_ok k q hk j).0 hk;
    here = rw (==_refl k) refl;
    above = λ o lt. rw (==_false o k (λ e. absurd (omega (arith, e, lt)))) refl;
    lighter = omega (arith, weight-update_out k k free (erase q (free k)) (omega arith));
    inside = (inside, tt);
  }

  halved-TakenOut :
      (i : ℕ)
      → i < buddy_max_order
      → q ∈ free (suc i)
      → TakenOut l
          (a * page_size)
          (b * page_size)
          (suc i)
          q
          (split_state l i (q + 2 ^ i) (split_state l i q (unlisted l q s)))
          free
          live
  halved-TakenOut i hi j = record {
    free' = halved_free free i q;
    new = [];
    system = halved-Holds l s free live i q h hi j;
    here = rw (==_false (suc i) i (λ e. absurd (omega (arith, e))), ==_refl (suc i)) refl;
    above = λ o lt.
        rw
          (
            ==_false o i (λ e. absurd (omega (arith, e, lt))),
            ==_false o (suc i) (λ e. absurd (omega (arith, e, lt))),
          )
          refl;
    lighter = omega (arith, weight-halved i q free);
    inside = tt;
  }

  -- One round leaves a block outside the range alone, and takes every other out of its list.
  pub reserve_block-TakenOut :
      (k : ℕ)
      → k ≤ buddy_max_order
      → q ∈ free k
      → let s' = reserve_block l k (a * page_size) (b * page_size) (page_list l q) s in
        ((s' ≡ s) × IsOutside (a * page_size) (b * page_size) q k)
        ⊎ TakenOut l (a * page_size) (b * page_size) k q s' free live
  unfolding reserve_block
  reserve_block-TakenOut zero hk j =
      rw (page_entry-page_list l q)
        (elim (Bool-cases (
          leb (b * page_size) (q * page_size)
          || leb (q * page_size + page_size * 2 ^ 0) (a * page_size))) [
            | inl out ↦ rw out (inl (refl, ground arith))
            | inr hit ↦
                let inside : (leb (a * page_size) (q * page_size)
                      && leb (q * page_size + page_size * 2 ^ 0) (b * page_size))
                    ≡ true =
                  ground arith in
                rw (hit, inside) (inr (kept-TakenOut 0 hk j (ground arith)))
          ])
  reserve_block-TakenOut (suc i) hk j =
      let back : suc i - 1 ≡ i = omega arith in
      let buddy = get_buddy-upper q i (h.free_ok (suc i) q hk j).0.0 in
      rw (page_entry-page_list l q, back, buddy)
        (elim (Bool-cases (
          leb (b * page_size) (q * page_size)
          || leb (q * page_size + page_size * 2 ^ suc i) (a * page_size))) [
            | inl out ↦ rw out (inl (refl, ground arith))
            | inr hit ↦
                elim (Bool-cases (
                  leb (a * page_size) (q * page_size)
                  && leb (q * page_size + page_size * 2 ^ suc i) (b * page_size))) [
                    | inl inside ↦
                        rw (hit, inside) (inr (kept-TakenOut (suc i) hk j (ground arith)))
                    | inr half ↦ rw (hit, half) (inr (halved-TakenOut i (omega (arith, hk)) j))
                  ]
          ])
