-- ===== src/Vm/Copy/Walk.antt =====
-- One page of `copy_page_range` in src/vm.c: what its walk does to the entries of the pages.
use osc_riscv.Base.{
  ℕ, zero, suc, ◌+◌, ◌*◌, ◌/◌, ◌%◌, ◌^◌, ◌<◌, ◌≤◌, ◌≡◌, ◌≢◌, inl, inr, refl, sym, ap, ◌∙◌, false,
  none, some, arith, ◌==◌, ◌||◌, [], ◌∷◌, if◌then◌else◌, update, Bool-cases, Option-cases, ==_refl,
  ==_false, eq_of_==, ne_of_==,
}
use native.Mathlib.Nat.{mod-lt}
use osc_riscv.Mm.Defs.{Layout, get_page, page_size}
use osc_riscv.Mm.Kmalloc.{virt_to_page}
use osc_riscv.Vm.{pte_to_virt, pte_entry, fill_entry, clear_words}
use osc_riscv.Vm.Forest.{frame_at, slot, Forest, IsUser, Leads, leaf}
use osc_riscv.Vm.Forest.Grow.{leaf-some, Leads-zero, Leads-congr, clear_words_out, entry_of}
use osc_riscv.Vm.Forest.Walk.{IsPaged, IsPaged-fewer, pages_of, page_of, fill_entry-Stepped}
use osc_riscv.Vm.Forest.Congr.{IsForest-congr, leaf-congr, slot_outside, IsFresh-next}
use osc_riscv.Vm.Forest.Map.{set_leaf-IsForest, leaf-set_leaf, other_slot}
use osc_riscv.Vm.Fault.{Memory}
use osc_riscv.Vm.Copy.Shared.{Counts-kmalloc, Counts-get, Counts-then, Counts-same}
use osc_riscv.Vm.Copy.{deny_write, kmalloc_behind, fill_copy, copy_entry, copy_levels}
use osc_riscv.Vm.Copy.Entry.{
  Shared, Shared-none, Shared-Stepped, Under, width, twin, twin_step, Under-Stepped, leaf-out,
  copy_entry-fill, copy_levels-same,
}

update_here : (word : ℕ → ℕ) (a w : ℕ) → update word a w a ≡ w
update_here word a w = rw (==_refl a) refl

update_other : (word : ℕ → ℕ) (a w b : ℕ) → (b == a) ≡ false → update word a w b ≡ word b
update_other word a w b ne = rw ne refl

-- Of the three writes to two places, the first is lost.
last_write :
    (u v v' d e w : ℕ)
    → (if u == v' then d else if u == v then d else if u == v' then e else w)
      ≡ (if u == v || u == v' then d else w)
last_write u v v' d e w = ground arith

-- The parent's entry is not zero, and the child's is.
module _ (l : Layout) (frames : ℕ → ℕ) (limit k parent child v v' f g : ℕ) (forest : Forest)
    (s : Memory) (p : IsPaged frames limit (suc k) forest s.tables)
    (there : forest 0 (v / 512) ≡ some f) (there' : forest 0 (v' / 512) ≡ some g)
    (ne : v ≢ v') where
  fill_copy-Shared :
      Under parent child forest
      → leaf forest s.tables.word v ≢ 0
      → Shared l frames limit k parent child v v' forest s
          (fill_copy l (pages_of frames) 0 (slot f (v % 512)) (slot g (v' % 512)) s)
  unfolding fill_copy
  fill_copy-Shared under used =
      let t = s.tables in
      let n = frames t.taken in
      let src = slot f (v % 512) in
      let dst = slot g (v' % 512) in
      let word0 = clear_words 512 (frame_at n) t.word in
      let same = λ (level x c j : ℕ) (q : forest level x ≡ some c) (small : j < 512).
        clear_words_out 512 (frame_at n) t.word (slot c j) (
          slot_outside c n j small (λ e.
            p.fresh.unused t.taken level x (omega arith) (omega (arith, p.room))
              (q ∙ ap some e))) in
      let h0 = IsForest-congr forest t.word word0 same p.tables in
      let e1 = entry_of n in
      let word1 = update word0 dst e1 in
      let h1 = set_leaf-IsForest forest word0 h0 v' g e1 there' in
      let apart : (src == dst) ≡ false =
        ==_false src dst (other_slot forest word0 h0 v' g e1 there' v f ne there) in
      let w : word1 src ≡ leaf forest t.word v =
        update_other word0 dst e1 src apart
        ∙ same 0 (v / 512) f (v % 512) there (omega arith)
        ∙ sym (leaf-some forest t.word v f there) in
      let d = deny_write (word1 src) in
      let word2 = update word1 src d in
      let h2 = set_leaf-IsForest forest word1 h1 v f d there in
      let h3 = set_leaf-IsForest forest word2 h2 v' g (word2 src) there' in
      let denied : word2 src ≡ deny_write (leaf forest t.word v) =
        update_here word1 src d ∙ ap deny_write w in
      let kept_src : update word2 dst (word2 src) src ≡ deny_write (leaf forest t.word v) =
        update_other word2 dst (word2 src) src apart ∙ denied in
      record {
        forest' = forest;
        paged = record {
          tables = h3;
          fresh = IsFresh-next forest frames limit t.taken p.fresh;
          room = omega (arith, p.room);
        };
        under = under;
        leaves = λ u.
            leaf-set_leaf forest word2 h2 v' g (word2 src) there' u
            ∙ rw
                (
                  denied,
                  leaf-set_leaf forest word1 h1 v f d there u,
                  ap deny_write w,
                  leaf-set_leaf forest word0 h0 v' g e1 there' u,
                  leaf-congr forest t.word word0 same u,
                )
                (last_write u v v' (deny_write (leaf forest t.word v)) e1 (leaf forest t.word u));
        kept = λ level x c q. q;
        others = λ a stray.
            let out = stray.0 t.taken (omega arith) (omega (arith, p.room)) in
            let off_src = ==_false a src (stray.1 0 (v / 512) f (v % 512) there (omega arith)) in
            let off_dst = ==_false a dst (stray.1 0 (v' / 512) g (v' % 512) there' (omega arith)) in
            (
              update_other word2 dst (word2 src) a off_dst
                  ∙ update_other word1 src d a off_src
                  ∙ update_other word0 dst e1 a off_dst
                  ∙ clear_words_out 512 (frame_at n) t.word a out,
              ((λ i le below. stray.0 i (omega (arith, le)) below), stray.1),
            );
        count =
            let mm1 = kmalloc_behind l page_size s.mm in
            let page : ℕ → ℕ = λ a. virt_to_page (pte_to_virt a) in
            let got = page (update word2 dst (word2 src) src) in
            let d' = page (deny_write (leaf forest t.word v)) in
            rw (==_false (leaf forest t.word v) 0 used) (
              Counts-then l [] (d' ∷ []) s.mm mm1 (get_page l got mm1)
                (Counts-kmalloc l page_size s.mm)
                (Counts-same l (got ∷ []) (d' ∷ []) mm1 (get_page l got mm1)
                  (ap (λ a. page a ∷ []) kept_src) (Counts-get l got mm1)));
      }

  -- The walk has come to the entries of the pages.
  copy_entry-Shared :
      (src dst : ℕ)
      → src ≡ slot f (v % 512)
      → dst ≡ slot g (v' % 512)
      → Under parent child forest
      → leaf forest s.tables.word v' ≡ 0
      → Shared l frames limit k parent child v v' forest s
          (copy_entry l (pages_of frames) 0 src dst s)
  unfolding copy_entry
  copy_entry-Shared src dst at at' under empty =
      let dst_zero : s.tables.word (slot g (v' % 512)) ≡ 0 =
        sym (leaf-some forest s.tables.word v' g there') ∙ empty in
      let lookup = leaf-some forest s.tables.word v f there in
      let room = IsPaged-fewer frames limit (suc k) k forest s.tables p (omega arith) in
      elim (Bool-cases (s.tables.word (slot f (v % 512)) == 0)) [
        | inl e ↦
            let none_here = lookup ∙ eq_of_== (s.tables.word (slot f (v % 512))) 0 e in
            rw (at, e)
              (Shared-none l frames limit k parent child v v' forest s room under none_here empty)
        | inr e ↦
            let used : leaf forest s.tables.word v ≢ 0 =
              λ z. ne_of_== (s.tables.word (slot f (v % 512))) 0 e (sym lookup ∙ z) in
            rw (at, at', e, dst_zero) (fill_copy-Shared under used)
      ]

-- The walk of one page, from the tables of a level down.
module _ (l : Layout) (frames : ℕ → ℕ) (limit k parent child va : ℕ)
    (user : (level : ℕ) → IsUser level (va / 2 ^ (12 + 9 * level) % 2 ^ 9))
    (ne : parent ≢ child) where
  abbrev Goal : (level x y f g : ℕ) (forest : Forest) (s : Memory) → Type 0
  Goal level x y f g forest s =
      Shared l frames limit k parent child (page_of level x va) (page_of level y va) forest s
        (copy_levels l (pages_of frames) level (frame_at f) (frame_at g) va s)

  -- Neither process has a table behind its entry.
  copy_levels-none :
      (level x y f g : ℕ) (forest : Forest) (s : Memory)
      → IsPaged frames limit k forest s.tables
      → Under parent child forest
      → forest (suc level) x ≡ some f
      → forest (suc level) y ≡ some g
      → let idx = va / 2 ^ (12 + 9 * suc level) % 2 ^ 9 in
        forest level (x * 512 + idx) ≡ none
        → forest level (y * 512 + idx) ≡ none
        → level < 2
        → Goal (suc level) x y f g forest s
  unfolding copy_levels copy_entry page_of pte_entry
  copy_levels-none level x y f g forest s p under here here' out out' low =
      let idx = va / 2 ^ (12 + 9 * suc level) % 2 ^ 9 in
      let src =
        Leads-zero (forest level (x * 512 + idx)) (s.tables.word (slot f idx))
          (p.tables.leads level x f idx here (user (suc level))) out in
      let dst =
        Leads-zero (forest level (y * 512 + idx)) (s.tables.word (slot g idx))
          (p.tables.leads level y g idx here' (user (suc level))) out' in
      rw (src, dst, src, copy_levels-same l (pages_of frames) level (pte_to_virt 0) va s)
        (Shared-none l frames limit k parent child (page_of level (x * 512 + idx) va)
          (page_of level (y * 512 + idx) va) forest s p under
          (leaf-out forest s.tables.word va level (x * 512 + idx) p.tables (omega (arith, low)) out)
          (leaf-out forest s.tables.word va level (y * 512 + idx) p.tables (omega (arith, low))
            out'))

  pub copy_levels-Shared :
      (level x y f g : ℕ) (forest : Forest) (s : Memory)
      → level ≤ 2
      → x ≡ twin parent level y
      → y / width level ≡ child
      → IsPaged frames limit (suc level + k) forest s.tables
      → Under parent child forest
      → forest level x ≡ some f
      → forest level y ≡ some g
      → leaf forest s.tables.word (page_of level y va) ≡ 0
      → Goal level x y f g forest s
  unfolding copy_levels page_of pte_entry
  copy_levels-Shared zero x y f g forest s low tw under_child p under here here' empty =
      let idx = va / 2 ^ (12 + 9 * 0) % 2 ^ 9 in
      let x0 : (x * 512 + idx) / 512 ≡ x = omega arith in
      let y0 : (y * 512 + idx) / 512 ≡ y = omega arith in
      let other : x * 512 + idx ≢ y * 512 + idx = λ e. ne (omega (arith, e, tw, under_child)) in
      let room =
        IsPaged-fewer frames limit (suc zero + k) (suc k) forest s.tables p (omega arith) in
      copy_entry-Shared l frames limit k parent child (x * 512 + idx) (y * 512 + idx) f g forest s
        room (rw x0 here) (rw y0 here') other (slot f idx) (slot g idx) (omega arith) (omega arith)
        under empty
  copy_levels-Shared (suc level) x y f g forest s low tw under_child p under here here' empty =
      let idx = va / 2 ^ (12 + 9 * suc level) % 2 ^ 9 in
      let step =
        twin_step parent child level y idx (omega (arith, low))
          (mod-lt (va / 2 ^ (12 + 9 * suc level)) (omega arith)) under_child in
      let tw' : x * 512 + idx ≡ twin parent level (y * 512 + idx) =
        ap (λ x. x * 512 + idx) tw ∙ sym step.1 in
      elim (Option-cases (forest level (x * 512 + idx))) [
        | inl out ↦
            let room =
              IsPaged-fewer frames limit (suc (suc level) + k) k forest s.tables p (omega arith) in
            copy_levels-none level x y f g forest s room under here here' out
              (under level (y * 512 + idx) step.0 (rw (← tw') out)) (omega (arith, low))
        | inr (c, there) ↦
            let used = (p.tables.leads level x f idx here (user (suc level))) in
            let lead : Leads (some c) (s.tables.word (slot f idx)) =
              Leads-congr (some c) (forest level (x * 512 + idx)) (s.tables.word (slot f idx))
                (s.tables.word (slot f idx)) (sym there) refl used in
            let room =
              IsPaged-fewer frames limit (suc (suc level) + k) (suc (suc level + k)) forest s.tables
                p (omega arith) in
            let st =
              fill_entry-Stepped frames limit (suc level + k) level y g idx forest s.tables room
                here' (user (suc level)) (omega (arith, low)) in
            let t' = fill_entry (pages_of frames) (slot g idx) s.tables in
            let filled =
              copy_entry-fill l (pages_of frames) level (slot f idx) (slot g idx) s lead.0 in
            let there' = st.kept level (x * 512 + idx) c there in
            let lead' : Leads (some c) (t'.word (slot f idx)) =
              Leads-congr (some c) (st.forest' level (x * 512 + idx)) (t'.word (slot f idx))
                (t'.word (slot f idx)) (sym there') refl
                (st.paged.tables.leads level x f idx (st.kept (suc level) x f here)
                  (user (suc level))) in
            let under' =
              Under-Stepped parent child frames limit (suc level + k) level (y * 512 + idx) c forest
                s.tables (slot g idx) t' st under (rw (← tw') there) in
            let rest =
              copy_levels-Shared level (x * 512 + idx) (y * 512 + idx) c st.child st.forest'
                (record { tables = t'; mm = filled.0 }) (omega (arith, low)) tw' step.0 st.paged
                under' there' st.there (st.same (page_of level (y * 512 + idx) va) ∙ empty) in
            rw (filled.1, lead'.1, st.leads)
              (Shared-Stepped l frames limit k parent child (page_of level (x * 512 + idx) va)
                (page_of level (y * 512 + idx) va) forest s (suc level + k) level (y * 512 + idx)
                (slot g idx) t' filled.0
                (copy_levels l (pages_of frames) level (frame_at c) (frame_at st.child) va
                  (record { tables = t'; mm = filled.0 }))
                st filled.2 rest)
      ]
