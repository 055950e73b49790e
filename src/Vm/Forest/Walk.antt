-- ===== src/Vm/Forest/Walk.antt =====
-- The walk over the page tables in src/vm.c, on a forest of tables.
use osc_riscv.Base.{
  ℕ, zero, suc, ◌+◌, ◌*◌, ◌/◌, ◌%◌, ◌^◌, ◌<◌, ◌≤◌, ◌≡◌, ◌⊎◌, inl, inr, refl, sym, ap, ◌∙◌, none,
  some, arith, Option-cases, ==_false,
}
use osc_riscv.Vm.{Tables, pte_entry, fill_entry, walk_loop, pte_to_virt}
use osc_riscv.Vm.Forest.Grow.{
  clear_words_out, Leads-present, Leads-zero, Leads-congr, some_inj, some_ne_none, grown_new,
  grown_cases, filled, filled_here, grown-IsForest, leaf-grown,
}
use osc_riscv.Vm.Forest.{
  Untouched, frame_at, slot, Forest, IsUser, Leads, IsForest, page_number, leaf, IsFresh, grown,
}

-- The tables of all processes stand in the memory, with fresh frames for `n` more.
pub record IsPaged (frames : ℕ → ℕ) (limit n : ℕ) (forest : Forest) (t : Tables) : Type 0 where
  pub tables : IsForest forest t.word
  pub fresh : IsFresh forest frames limit t.taken
  pub room : t.taken + n ≤ limit

pub IsPaged-fewer :
    (frames : ℕ → ℕ) (limit n m : ℕ) (forest : Forest) (t : Tables)
    → IsPaged frames limit n forest t
    → m ≤ n
    → IsPaged frames limit m forest t
IsPaged-fewer frames limit n m forest t p le = record {
  tables = p.tables;
  fresh = p.fresh;
  room = omega (arith, p.room, le);
}

abbrev pub pages_of : (ℕ → ℕ) → ℕ → ℕ
pages_of frames i = frame_at (frames i)

-- One level of a walk: the entry leads to a table, which was there or is new.
pub record Stepped (frames : ℕ → ℕ) (limit k level y : ℕ) (forest : Forest) (t : Tables) (at : ℕ)
    (t' : Tables) : Type 0 where
  pub forest' : Forest
  pub paged : IsPaged frames limit k forest' t'
  pub child : ℕ
  pub there : forest' level y ≡ some child
  pub leads : pte_to_virt (t'.word at) ≡ frame_at child
  pub same : (v : ℕ) → leaf forest' t'.word v ≡ leaf forest t.word v
  pub kept : (level' x' g : ℕ) → forest level' x' ≡ some g → forest' level' x' ≡ some g
  pub only :
      (level' x' : ℕ) → (forest' level' x' ≡ forest level' x') ⊎ ((level' ≡ level) × (x' ≡ y))
  pub others : Untouched frames limit forest t forest' t'

module _ (frames : ℕ → ℕ) (limit : ℕ) where
  grown-IsFresh :
      (level y : ℕ) (forest : Forest) (taken : ℕ)
      → IsFresh forest frames limit taken
      → taken < limit
      → IsFresh (grown level y (frames taken) forest) frames limit (taken + 1)
  grown-IsFresh level y forest taken h lt = record {
    small = h.small;
    once = h.once;
    unused = λ i level' x' le lt' there.
        elim (grown_cases level y (frames taken) forest level' x') [
          | inl (_, _, new) ↦
              let same =
                h.once (i) taken lt' lt (some_inj (frames i) (frames taken) (sym there ∙ new)) in
              absurd (omega (arith, same, le))
          | inr (_, old) ↦ h.unused i level' x' (omega (arith, le)) lt' (sym old ∙ there)
        ];
  }

  fill_empty-Untouched :
      (level x f idx : ℕ) (forest : Forest) (t : Tables)
      → t.taken < limit
      → forest (suc level) x ≡ some f
      → IsUser (suc level) idx
      → Untouched frames limit forest t
          (grown level (x * 512 + idx) (frames t.taken) forest)
          (record { word = filled t f idx (frames t.taken); taken = t.taken + 1 })
  fill_empty-Untouched level x f idx forest t lt here user a stray =
      let out = stray.0 t.taken (omega arith) lt in
      (
        rw (==_false a (slot f idx) (stray.1 (suc level) x f idx here user.0))
            (clear_words_out 512 (frame_at (frames t.taken)) t.word a out),
        (
          λ i le below. stray.0 i (omega (arith, le)) below,
          λ level' x' g j there small same.
              elim (grown_cases level (x * 512 + idx) (frames t.taken) forest level' x') [
                | inl (_, _, new) ↦
                    let frame : g ≡ frames t.taken =
                      some_inj g (frames t.taken) (sym there ∙ new) in
                    elim out [
                      | inl low ↦ absurd (omega (arith, low, same, frame))
                      | inr high ↦ absurd (omega (arith, high, same, frame, small))
                    ]
                | inr (_, old) ↦ stray.1 level' x' g j (sym old ∙ there) small same
              ],
        ),
      )

  fill_empty-Stepped :
      (k level x f idx : ℕ) (forest : Forest) (t : Tables)
      → IsPaged frames limit (suc k) forest t
      → forest (suc level) x ≡ some f
      → IsUser (suc level) idx
      → level < 2
      → forest level (x * 512 + idx) ≡ none
      → Stepped frames limit k level
          (x * 512 + idx)
          forest
          t
          (slot f idx)
          (record { word = filled t f idx (frames t.taken); taken = t.taken + 1 })
  fill_empty-Stepped k level x f idx forest t p here user low e =
      let n = frames t.taken in
      let small = p.fresh.small t.taken (omega (arith, p.room)) in
      let unused = λ (l y : ℕ). p.fresh.unused t.taken l y (omega arith) (omega (arith, p.room)) in
      let h = p.tables in
      let lead = Leads-present n small in
      record {
        forest' = grown level (x * 512 + idx) n forest;
        paged = record {
          tables = grown-IsForest forest t level x f idx n h here user low e small unused;
          fresh =
              grown-IsFresh level (x * 512 + idx) forest t.taken p.fresh (omega (arith, p.room));
          room = omega (arith, p.room);
        };
        child = n;
        there = grown_new level (x * 512 + idx) n forest;
        leads =
            ap pte_to_virt (filled_here forest t level x f idx n h here user low e small unused)
            ∙ lead.1;
        same = leaf-grown forest t level x f idx n h here user low e small unused;
        kept = λ level' x' g q. elim (grown_cases level (x * 512 + idx) n forest level' x') [
          | inl (d, d', _) ↦
              let gone : forest level' x' ≡ none = rw (d, d') e in
              absurd (some_ne_none g (sym q ∙ gone))
          | inr (_, old) ↦ old ∙ q
        ];
        only = λ level' x'. elim (grown_cases level (x * 512 + idx) n forest level' x') [
          | inl (d, d', _) ↦ inr (d, d')
          | inr (_, old) ↦ inl old
        ];
        others = fill_empty-Untouched level x f idx forest t (omega (arith, p.room)) here user;
      }

  pub fill_entry-Stepped :
      (k level x f idx : ℕ) (forest : Forest) (t : Tables)
      → IsPaged frames limit (suc k) forest t
      → forest (suc level) x ≡ some f
      → IsUser (suc level) idx
      → level < 2
      → Stepped frames limit k level
          (x * 512 + idx)
          forest
          t
          (slot f idx)
          (fill_entry (pages_of frames) (slot f idx) t)
  unfolding fill_entry
  fill_entry-Stepped k level x f idx forest t p here user low =
      elim (Option-cases (forest level (x * 512 + idx))) [
        | inl e ↦
            let zero_word : t.word (slot f idx) ≡ 0 =
              Leads-zero (forest level (x * 512 + idx)) (t.word (slot f idx))
                (p.tables.leads level x f idx here user) e in
            rw zero_word (fill_empty-Stepped k level x f idx forest t p here user low e)
        | inr (c, e) ↦
            let lead : Leads (some c) (t.word (slot f idx)) =
              Leads-congr (some c) (forest level (x * 512 + idx)) (t.word (slot f idx))
                (t.word (slot f idx)) (sym e) refl (p.tables.leads level x f idx here user) in
            rw (==_false (t.word (slot f idx)) 0 lead.0) (record {
              forest' = forest;
              paged = record { tables = p.tables; fresh = p.fresh; room = omega (arith, p.room) };
              child = c;
              there = e;
              leads = lead.1;
              same = λ v. refl;
              kept = λ level' x' g q. q;
              only = λ level' x'. inl refl;
              others = λ a stray. (refl, stray);
            })
      ]

-- The virtual page that a walk from a table of a level comes to.
unfoldable pub page_of : (level x va : ℕ) → ℕ
page_of zero x va = x * 512 + va / 2 ^ (12 + 9 * 0) % 2 ^ 9
page_of (suc level) x va = page_of level (x * 512 + va / 2 ^ (12 + 9 * suc level) % 2 ^ 9) va

pub page_of-page_number : (process va : ℕ) → page_of 2 process va ≡ page_number process va
unfolding page_of
page_of-page_number process va = omega arith

-- A walk has come to the entry of the virtual page `v`.
pub record Walked (frames : ℕ → ℕ) (limit k v : ℕ) (forest : Forest) (t : Tables) (entry : ℕ)
    (t' : Tables) : Type 0 where
  pub forest' : Forest
  pub paged : IsPaged frames limit k forest' t'
  pub table : ℕ
  pub there : forest' 0 (v / 512) ≡ some table
  pub entry_at : entry ≡ slot table (v % 512)
  pub same : (v' : ℕ) → leaf forest' t'.word v' ≡ leaf forest t.word v'
  pub kept : (level' x' g : ℕ) → forest level' x' ≡ some g → forest' level' x' ≡ some g

Walked-Stepped :
    (frames : ℕ → ℕ) (limit k k' v level y : ℕ) (forest : Forest) (t : Tables) (at : ℕ)
    (t' : Tables) (entry : ℕ) (t'' : Tables) (s : Stepped frames limit k' level y forest t at t')
    → Walked frames limit k v s.forest' t' entry t''
    → Walked frames limit k v forest t entry t''
Walked-Stepped frames limit k k' v level y forest t at t' entry t'' s w = record {
  forest' = w.forest';
  paged = w.paged;
  table = w.table;
  there = w.there;
  entry_at = w.entry_at;
  same = λ v'. w.same v' ∙ s.same v';
  kept = λ level' x' g e. w.kept level' x' g (s.kept level' x' g e);
}

module _ (frames : ℕ → ℕ) (limit k va : ℕ)
    (user : (level : ℕ) → IsUser level (va / 2 ^ (12 + 9 * level) % 2 ^ 9)) where
  pub walk_loop-Walked :
      (level x f : ℕ) (forest : Forest) (t : Tables)
      → IsPaged frames limit (level + k) forest t
      → forest level x ≡ some f
      → level ≤ 2
      → let r = walk_loop (pages_of frames) level (frame_at f) va t in
        Walked frames limit k (page_of level x va) forest t r.0 r.1
  unfolding walk_loop pte_entry page_of
  walk_loop-Walked zero x f forest t p here low =
      let idx = va / 2 ^ (12 + 9 * 0) % 2 ^ 9 in
      let prefix : (x * 512 + idx) / 512 ≡ x = omega arith in
      record {
        forest' = forest;
        paged = record { tables = p.tables; fresh = p.fresh; room = omega (arith, p.room) };
        table = f;
        there = rw prefix here;
        entry_at = omega arith;
        same = λ v'. refl;
        kept = λ level' x' g e. e;
      }
  walk_loop-Walked (suc level) x f forest t p here low =
      let idx = va / 2 ^ (12 + 9 * suc level) % 2 ^ 9 in
      let room : IsPaged frames limit (suc (level + k)) forest t = record {
        tables = p.tables;
        fresh = p.fresh;
        room = omega (arith, p.room);
      } in
      let s =
        fill_entry-Stepped frames limit (level + k) level x f idx forest t room here
          (user (suc level)) (omega (arith, low)) in
      let t' = fill_entry (pages_of frames) (slot f idx) t in
      let w =
        walk_loop-Walked level (x * 512 + idx) s.child s.forest' t' s.paged s.there
          (omega (arith, low)) in
      let stepped : walk_loop (pages_of frames) (suc level) (frame_at f) va t
          ≡ walk_loop (pages_of frames) level (frame_at s.child) va t' =
        ap (λ (p : ℕ). walk_loop (pages_of frames) level p va t') s.leads in
      rw stepped (
        Walked-Stepped frames limit k (level + k) (page_of level (x * 512 + idx) va) level
          (x * 512 + idx) forest t (slot f idx) t'
          (walk_loop (pages_of frames) level (frame_at s.child) va t').0
          (walk_loop (pages_of frames) level (frame_at s.child) va t').1 s w)
