-- ===== src/Mm/Alloc.antt =====
-- `alloc_pages` of src/mm.c.
use osc_riscv.Base.{
  ℕ, zero, suc, ◌+◌, ◌*◌, ◌/◌, ◌%◌, ◌^◌, ◌≤◌, ◌≡◌, refl, List, ◌∷◌, ◌∉◌, arith, inl, inr, update,
  ==_refl, ==_false,
}
use native.Mathlib.Nat.{one-le-pow, pow-suc, div-add-mod', mul-mod_left, add-mod_right}
use osc_riscv.Ring.{list_add}
use osc_riscv.Base.Bits.{xor_set, mul-pow-suc}
use osc_riscv.Mm.Defs.{Layout, Mm, area, page_list, buddy_max_order, get_buddy, split_loop}
use osc_riscv.Mm.Rings.{Rings-list_add}
use osc_riscv.Mm.Blocks.{covers, cover_list, IsBlock, cover_free-update, covers_halves, covers_self}
use osc_riscv.Mm.Invariant.{
  Block, Holds, head_in_memory, IsLive-frame, Holds-Apart, rest-not_free, rest-not_live, mem_put,
}

pub get_buddy-upper : (q i : ℕ) → q % 2 ^ suc i ≡ 0 → get_buddy q i ≡ q + 2 ^ i
unfolding get_buddy
get_buddy-upper q i e =
    let whole : q ≡ q / 2 ^ suc i * 2 ^ suc i = omega (arith, div-add-mod' q (2 ^ suc i)) in
    rw whole (xor_set i (q / 2 ^ suc i))

pub aligned_down : (q i : ℕ) → q % 2 ^ suc i ≡ 0 → q % 2 ^ i ≡ 0
aligned_down q i e =
    let half = q / 2 ^ suc i in
    let whole : q ≡ 2 * half * 2 ^ i =
      omega (arith, div-add-mod' q (2 ^ suc i), mul-pow-suc half i) in
    rw whole (mul-mod_left (2 * half) (2 ^ i))

pub aligned_half : (q i : ℕ) → q % 2 ^ suc i ≡ 0 → (q + 2 ^ i) % 2 ^ i ≡ 0
aligned_half q i e = rw add-mod_right (aligned_down q i e)

-- One round of the split, for the buddy `x` of order `i`.
abbrev pub split_state : Layout → ℕ → ℕ → Mm → Mm
split_state l i x s = record s {
  order = update s.order x i;
  links = list_add (page_list l x) (area l i) s.links;
}

-- A block `x` of order `i` at hand becomes free: `rest'` is what is still at hand.
module _ {l : Layout} {s : Mm} {free : ℕ → List ℕ} {live : List Block} {rest : ℕ → ℕ} (i x : ℕ)
    (rest' : ℕ → ℕ) (h : Holds l s free live rest) (b : IsBlock x i) (hi : i ≤ buddy_max_order)
    (parts : (p : ℕ) → rest p ≡ rest' p + covers i x p) where
  give_at_hand : rest x ≡ 1
  give_at_hand = omega (arith, h.cover x (head_in_memory x i b), parts x, covers_self i x)

  give_fresh : (o : ℕ) → o ≤ buddy_max_order → x ∉ free o
  give_fresh = rest-not_free h x (head_in_memory x i b) give_at_hand

  pub give-Holds : Holds l (split_state l i x s) (update free i (x ∷ free i)) live rest'
  unfolding cover_list
  give-Holds = record {
    rings = Rings-list_add l s.links free h.rings (Holds-Apart h) i x hi give_fresh;
    cover = λ p lt. omega (
      arith,
      h.cover p lt,
      cover_free-update 11 i p free (x ∷ free i) (omega (arith, hi)),
      parts p,
    );
    free_ok = λ o p ho j. elim (mem_put free i x o p (give_fresh o ho) j) [
      | inl (e, e') ↦ rw (e, e', ==_refl x) (b, refl)
      | inr (there, ne) ↦ rw (==_false p x ne) (h.free_ok o p ho there)
    ];
    live_ok =
        IsLive-frame s (split_state l i x s) x live (λ p ne. ground arith)
          (rest-not_live h x (head_in_memory x i b) give_at_hand) h.live_ok;
  }

pub upper-IsBlock : (i q : ℕ) → IsBlock q (suc i) → IsBlock (q + 2 ^ i) i
upper-IsBlock i q b = (aligned_half q i b.0, omega (arith, b.1, pow-suc 2 i))

-- The fields of the page `q` are those that it had.
abbrev pub SamePage : ℕ → Mm → Mm → Type 0
SamePage q s s' = (s'.order q ≡ s.order q) × (s'.used q ≡ s.used q) × (s'.refcount q ≡ s.refcount q)

-- Splitting down to `order` leaves the front of the block at hand.
pub split_loop-Holds :
    (l : Layout) (k order q : ℕ) (s : Mm) (free : ℕ → List ℕ) (live : List Block)
    → Holds l s free live (covers (order + k) q)
    → IsBlock q (order + k)
    → order + k ≤ buddy_max_order
    → (free' : ℕ → List ℕ) × Holds l (split_loop l k order q s) free' live (covers order q)
      × IsBlock q order
      × SamePage q s (split_loop l k order q s)
unfolding split_loop
split_loop-Holds l zero order q s free live h b le =
    let e : order + 0 ≡ order = omega arith in (free, rw e at h, rw e at b, (refl, refl, refl))
split_loop-Holds l (suc k) order q s free live h b le =
    let i = order + k in
    let e : order + suc k ≡ suc i = omega arith in
    let b' : IsBlock q (suc i) = rw e at b in
    let buddy : get_buddy q i ≡ q + 2 ^ i = get_buddy-upper q i b'.0 in
    let half : IsBlock q i = (aligned_down q i b'.0, omega (arith, b'.1, pow-suc 2 i)) in
    let (free', h', b'', same) =
      split_loop-Holds l k order q (split_state l i (q + 2 ^ i) s)
        (update free i ((q + 2 ^ i) ∷ free i)) live
        (give-Holds i (q + 2 ^ i) (covers i q) (rw e at h) (upper-IsBlock i q b') (omega arith)
          (λ p. covers_halves i q p))
        half (omega arith) in
    rw buddy (free', h', b'', ground (arith, one-le-pow i 2))
