-- ===== src/Vm/Forest/Map.antt =====
-- `pagewalk`, `map_pages` and `pte_alloc_map` of src/vm.c as operations on a map from virtual pages to
-- entries.
use Prim.Native.Nat.{bit_or}
use osc_riscv.Base.{
  ℕ, suc, ◌+◌, ◌*◌, ◌/◌, ◌%◌, ◌^◌, ◌<◌, ◌≡◌, ◌≢◌, inl, inr, refl, sym, subst, ◌∙◌, some, arith,
  ◌==◌, if◌then◌else◌, update, Bool-cases, Option-cases, ==_refl, ==_false, eq_of_==, ne_of_==,
}
use native.Mathlib.Nat.{mod-lt}
use osc_riscv.Vm.{Tables, walk_loop, pte_alloc_map, pagewalk}
use osc_riscv.Vm.Forest.{frame_at, slot, Forest, IsUser, IsForest, page_number, leaf}
use osc_riscv.Vm.Forest.Grow.{slot_ne, leaf-none, leaf-some, Leads-congr}
use osc_riscv.Vm.Forest.Walk.{
  IsPaged, pages_of, page_of, page_of-page_number, Walked, walk_loop-Walked,
}

-- A word is written into the entry of the virtual page `v`.
module _ (forest : Forest) (word : ℕ → ℕ) (h : IsForest forest word) (v table w : ℕ)
    (there : forest 0 (v / 512) ≡ some table) where
  table_ne : (level x g : ℕ) → forest (suc level) x ≡ some g → g ≢ table
  table_ne level x g e same =
      let e' : forest (suc level) x ≡ some table = rw (← same) e in
      absurd (omega (arith, (h.apart (suc level) x 0 (v / 512) table e' there).0))

  pub set_leaf-IsForest : IsForest forest (update word (slot table (v % 512)) w)
  set_leaf-IsForest = record {
    leads = λ level x g idx e u.
        let other = slot_ne g table idx (v % 512) u.0 (omega arith) (inl (table_ne level x g e)) in
        Leads-congr (forest level (x * 512 + idx)) (forest level (x * 512 + idx))
          (update word (slot table (v % 512)) w (slot g idx)) (word (slot g idx)) refl
          (rw (==_false (slot g idx) (slot table (v % 512)) other) refl)
          (h.leads level x g idx e u);
    closed = h.closed;
    apart = h.apart;
  }

  pub other_slot :
      (v' g : ℕ) → v' ≢ v → forest 0 (v' / 512) ≡ some g → slot g (v' % 512) ≢ slot table (v % 512)
  other_slot v' g ne e = elim (Bool-cases (g == table)) [
    | inl same ↦
        let e' : forest 0 (v' / 512) ≡ some table = rw (← eq_of_== g table same) e in
        let place = (h.apart 0 (v' / 512) 0 (v / 512) table e' there).1 in
        slot_ne g table (v' % 512) (v % 512) (omega arith) (omega arith)
          (inr (λ k. ne (omega (arith, k, place))))
    | inr other ↦
        slot_ne g table (v' % 512) (v % 512) (omega arith) (omega arith)
          (inl (ne_of_== g table other))
  ]

  pub leaf-set_leaf :
      (v' : ℕ)
      → leaf forest (update word (slot table (v % 512)) w) v'
        ≡ (if v' == v then w else leaf forest word v')
  leaf-set_leaf v' = elim (Bool-cases (v' == v)) [
    | inl same ↦
        let e : forest 0 (v' / 512) ≡ some table = rw (eq_of_== v' v same) there in
        let at : slot table (v' % 512) ≡ slot table (v % 512) = rw (eq_of_== v' v same) refl in
        leaf-some forest (update word (slot table (v % 512)) w) v' table e
        ∙ rw (same, at, ==_refl (slot table (v % 512))) refl
    | inr other ↦ rw other (elim (Option-cases (forest 0 (v' / 512))) [
      | inl e ↦
          leaf-none forest (update word (slot table (v % 512)) w) v' e
          ∙ sym (leaf-none forest word v' e)
      | inr (g, e) ↦
          let ne = other_slot v' g (ne_of_== v' v other) e in
          leaf-some forest (update word (slot table (v % 512)) w) v' g e
          ∙ rw (==_false (slot g (v' % 512)) (slot table (v % 512)) ne) refl
          ∙ sym (leaf-some forest word v' g e)
    ])
  ]

-- An address of the user's half.
pub IsUser-index :
    (va : ℕ) → va < 2 ^ 38 → (level : ℕ) → IsUser level (va / 2 ^ (12 + 9 * level) % 2 ^ 9)
IsUser-index va h level =
    (mod-lt (va / 2 ^ (12 + 9 * level)) (omega arith), λ e. rw e (omega (arith, h)))

-- The tables lead each virtual page to the entry that `entry` gives it.
pub record Maps (frames : ℕ → ℕ) (limit k : ℕ) (forest : Forest) (entry : ℕ → ℕ) (t' : Tables)
    : Type 0 where
  pub forest' : Forest
  pub paged : IsPaged frames limit k forest' t'
  pub leaves : (v : ℕ) → leaf forest' t'.word v ≡ entry v
  pub kept : (level x g : ℕ) → forest level x ≡ some g → forest' level x ≡ some g

module _ (frames : ℕ → ℕ) (limit process root : ℕ) (forest : Forest) (t : Tables)
    (owned : forest 2 process ≡ some root) where
  -- `pagewalk` of an address of a process's user half maps the virtual page, and changes the entry of
  -- no other page, of this process or another. The tables of all processes stand in frames of their
  -- own, and there are two fresh frames.
  pub pagewalk-Maps :
      (k va pa prot : ℕ)
      → IsPaged frames limit (2 + k) forest t
      → va < 2 ^ 38
      → Maps frames limit k forest
          (λ v.
            if v == page_number process va then bit_or (pa / 2 ^ 2) prot else leaf forest t.word v)
          (pagewalk (pages_of frames) (frame_at root) va pa prot t)
  unfolding pagewalk
  pagewalk-Maps k va pa prot p user =
      let w =
        walk_loop-Walked frames limit k va (IsUser-index va user) 2 process root forest t p owned
          (omega arith) in
      let v = page_of 2 process va in
      let word = (walk_loop (pages_of frames) 2 (frame_at root) va t).1.word in
      let leaf' =
        leaf-set_leaf w.forest' word w.paged.tables v w.table (bit_or (pa / 2 ^ 2) prot) w.there in
      rw w.entry_at (record {
        forest' = w.forest';
        paged = record {
          tables =
              set_leaf-IsForest w.forest' word w.paged.tables v w.table (bit_or (pa / 2 ^ 2) prot)
                w.there;
          fresh = w.paged.fresh;
          room = w.paged.room;
        };
        leaves = λ v'. leaf' v' ∙ rw (page_of-page_number process va, w.same v') refl;
        kept = w.kept;
      })

  -- `pte_alloc_map` of an address of a process's user half changes no page's entry, and returns the
  -- place where the entry of the address's page stands.
  pub pte_alloc_map-Walked :
      (k va : ℕ)
      → IsPaged frames limit (2 + k) forest t
      → va < 2 ^ 38
      → let r = pte_alloc_map (pages_of frames) (frame_at root) va t in
        Walked frames limit k (page_number process va) forest t r.0 r.1
  unfolding pte_alloc_map
  pte_alloc_map-Walked k va p user =
      let r = walk_loop (pages_of frames) 2 (frame_at root) va t in
      subst (λ v. Walked frames limit k v forest t r.0 r.1) (page_of-page_number process va)
        (walk_loop-Walked frames limit k va (IsUser-index va user) 2 process root forest t p owned
          (omega arith))
