-- ===== src/Mm/Free.antt =====
-- `free_pages` of src/mm.c.
use osc_riscv.Base.{
  ℕ, zero, suc, ◌+◌, ◌-◌, ◌≤◌, ◌<◌, ◌≡◌, refl, List, [], ◌∷◌, ◌++◌, ◌∈◌, arith, ◌==◌, if◌then◌else◌,
  Bool-cases, inl, inr, All, update, ltb, not, ◌||◌, erase, ==_refl, ==_false, Bool,
}
use native.Mathlib.Nat.{one-le-pow, pow-suc}
use osc_riscv.Ring.{list_del_init}
use osc_riscv.Mm.Defs.{
  Layout, Mm, page_list, get_buddy, buddy_max_order, merge_loop, put_block, free_pages,
}
use osc_riscv.Mm.Rings.{Rings-list_add, Rings-list_del_init}
use osc_riscv.Mm.Blocks.{
  covers, cover_list, IsBlock, IsBuddy, covers_self, covers_halves, cover_free-update,
  cover_list-erase, get_buddy_cases, block_fits,
}
use osc_riscv.Mm.Invariant.{
  Block, cover_live, IsLive, Holds, IsBuddySystem, head_in_memory, IsLive-frame, Holds-Apart,
  mem_put, mem_take, rest-not_free, rest-not_live,
}
use osc_riscv.Mm.Merge.{buddy-mem}

-- The block that a block and its buddy make up.
abbrev joined : ℕ → ℕ → ℕ
joined q b = if ltb b q then b else q

joined-IsBlock :
    (q o b : ℕ) → o < buddy_max_order → IsBlock q o → IsBuddy q o b → IsBlock (joined q b) (suc o)
joined-IsBlock q o b ho block (inl (even, up)) =
    let front : joined q b ≡ q = ground arith in
    rw front (even, block_fits (suc o) q (omega arith) even (head_in_memory q o block))
joined-IsBlock q o b ho block (inr (down, odd)) =
    let front : joined q b ≡ b = ground (arith, one-le-pow o 2) in
    rw front (odd, omega (arith, block.1, pow-suc 2 o))

joined-covers :
    (q o b p : ℕ) → IsBuddy q o b → covers (suc o) (joined q b) p ≡ covers o q p + covers o b p
joined-covers q o b p (inl (even, up)) =
    let front : joined q b ≡ q = ground arith in rw (front, up) (covers_halves o q p)
joined-covers q o b p (inr (down, odd)) =
    let front : joined q b ≡ b = ground (arith, one-le-pow o 2) in
    rw (front, ← down) (omega (arith, covers_halves o b p))

-- The state in which the page `b` has left its list.
abbrev unlinked : Layout → ℕ → Mm → Mm
unlinked l b s = record s { links = list_del_init (page_list l b) s.links }

module _ {l : Layout} {s : Mm} {free : ℕ → List ℕ} {live : List Block} (q o : ℕ)
    (h : Holds l s free live (covers o q)) (block : IsBlock q o) where
  merge-Holds :
      (b : ℕ)
      → o < buddy_max_order
      → IsBuddy q o b
      → b ∈ free o
      → Holds l
          (unlinked l b s)
          (update free o (erase b (free o)))
          live
          (covers (suc o) (joined q b))
  merge-Holds b ho buddy j = record {
    rings = Rings-list_del_init l s.links free h.rings (Holds-Apart h) o b (omega arith) j;
    cover = λ p lt. omega (
      arith,
      h.cover p lt,
      cover_free-update 11 o p free (erase b (free o)) (omega arith),
      cover_list-erase o b p (free o) j,
      joined-covers q o b p buddy,
    );
    free_ok = λ i p hi k. h.free_ok i p hi (mem_take free o b i p k);
    live_ok = h.live_ok;
  }

  -- The block at hand becomes free.
  put_block-Holds :
      o ≤ buddy_max_order → IsBuddySystem l (put_block l q o s) (update free o (q ∷ free o)) live
  unfolding put_block cover_list
  put_block-Holds ho =
      let fresh = rest-not_free h q (head_in_memory q o block) (covers_self o q) in
      record {
        rings = Rings-list_add l s.links free h.rings (Holds-Apart h) o q ho fresh;
        cover = λ p lt.
            omega (arith, h.cover p lt, cover_free-update 11 o p free (q ∷ free o) (omega arith));
        free_ok = λ i p hi j. elim (mem_put free o q i p (fresh i hi) j) [
          | inl (e, e') ↦ rw (e, e', ==_refl q) (block, refl)
          | inr (there, ne) ↦ rw (==_false p q ne) (h.free_ok i p hi there)
        ];
        live_ok =
            IsLive-frame s (put_block l q o s) q live (λ p ne. ground arith)
              (rest-not_live h q (head_in_memory q o block) (covers_self o q)) h.live_ok;
      }

-- The block that the merging leaves at hand.
abbrev Merged : Layout → List Block → ℕ × ℕ × Mm → Type 0
Merged l live (c, o, s) =
    (free : ℕ → List ℕ) × Holds l s free live (covers o c) × IsBlock c o × (o ≤ buddy_max_order)

merge_loop-Merged :
    (l : Layout) (k q o : ℕ) (s : Mm) (free : ℕ → List ℕ) (live : List Block)
    → Holds l s free live (covers o q)
    → IsBlock q o
    → o + k ≤ buddy_max_order
    → Merged l live (merge_loop l k q o s)
unfolding merge_loop
merge_loop-Merged l zero q o s free live h block le = (free, h, block, omega arith)
merge_loop-Merged l (suc k) q o s free live h block le =
    let b = get_buddy q o in
    let buddy : IsBuddy q o b = get_buddy_cases q o block.0 in
    let stop : Bool = not (s.used b == 0) || not (s.order b == o) in
    elim (Bool-cases stop) [
      | inl e ↦ rw e (free, h, block, omega arith)
      | inr e ↦
          let j : b ∈ free o =
            buddy-mem q o h block (omega arith) b buddy (ground arith) (ground arith) in
          let next : o + 1 ≡ suc o = omega arith in
          rw (e, next)
            (merge_loop-Merged l k (joined q b) (suc o) (unlinked l b s)
              (update free o (erase b (free o))) live
              (merge-Holds q o h block b (omega arith) buddy j)
              (joined-IsBlock q o b (omega arith) block buddy) (omega arith))
    ]

cover_live-append :
    (q o p : ℕ) (cs bs : List Block)
    → cover_live (cs ++ (q, o) ∷ bs) p ≡ cover_live (cs ++ bs) p + covers o q p
unfolding cover_live
cover_live-append q o p [] bs = omega arith
cover_live-append q o p (a ∷ cs) bs = omega (arith, cover_live-append q o p cs bs)

All-split :
    (s : Mm) (b : Block) (cs bs : List Block)
    → All (IsLive s) (cs ++ b ∷ bs)
    → IsLive s b × All (IsLive s) (cs ++ bs)
All-split s b [] bs h = (h.0, h.1)
All-split s b (a ∷ cs) bs h = let rest = All-split s b cs bs h.1 in (rest.0, (h.0, rest.1))

-- `free_pages` of a live block gives up just that block: the others stay live, every page still
-- stands in exactly one block, and the free blocks, merged with their buddies as the loop finds
-- them, are threaded by the lists of their orders.
pub free_pages-Holds :
    {l : Layout} {s : Mm} {free : ℕ → List ℕ} (cs bs : List Block) (q o : ℕ)
    → IsBuddySystem l s free (cs ++ (q, o) ∷ bs)
    → (free' : ℕ → List ℕ) × IsBuddySystem l (free_pages l q s) free' (cs ++ bs)
unfolding free_pages
free_pages-Holds {l} {s} {free} cs bs q o h =
    let (mine, others) = All-split s (q, o) cs bs h.live_ok in
    let at_hand : Holds l s free (cs ++ bs) (covers o q) = record {
      rings = h.rings;
      cover = λ p lt. omega (arith, h.cover p lt, cover_live-append q o p cs bs);
      free_ok = h.free_ok;
      live_ok = others;
    } in
    let (free', h', block, le) =
      merge_loop-Merged l (buddy_max_order - o) q o s free (cs ++ bs) at_hand mine.0
        (omega (arith, mine.1)) in
    let (current, order, s') = merge_loop l (buddy_max_order - o) q o s in
    rw mine.2
      (update free' order (current ∷ free' order), put_block-Holds current order h' block le)
