-- ===== src/Vm/Copy/Entry.antt =====
-- One page of `copy_page_range` in src/vm.c: the walk over the tables of the parent and of the child.
use osc_riscv.Base.{
  ℕ, zero, suc, ◌+◌, ◌-◌, ◌*◌, ◌/◌, ◌%◌, ◌^◌, ◌<◌, ◌≤◌, ◌≡◌, ◌≢◌, inl, inr, refl, sym, ◌∙◌, false,
  none, some, arith, ap, [], ◌==◌, ◌||◌, if◌then◌else◌, Bool-cases, Option-cases, ==_false,
  eq_of_==,
}
use native.Mathlib.Nat.{mod-lt}
use osc_riscv.Mm.Defs.{Layout, Mm, page_size}
use osc_riscv.Vm.{Tables, pte_to_virt, pte_entry, fill_entry}
use osc_riscv.Vm.Forest.Congr.{Untouched-then}
use osc_riscv.Vm.Forest.{Untouched, Forest, IsForest, leaf}
use osc_riscv.Vm.Forest.Grow.{leaf-none, some_ne_none}
use osc_riscv.Vm.Forest.Walk.{IsPaged, page_of, Stepped}
use osc_riscv.Vm.Fault.{Memory}
use osc_riscv.Vm.Copy.{deny_write, kmalloc_behind, fill_copy, copy_entry, copy_levels}
use osc_riscv.Vm.Copy.Shared.{
  page_owned, Counts, Counts-none, Counts-kmalloc, Counts-then, Counts-same,
}

-- The number of tables of a process on a level.
abbrev pub width : ℕ → ℕ
width level = 512 ^ (2 - level)

-- The parent's table in the place of the child's table `y`.
abbrev pub twin : (parent level y : ℕ) → ℕ
twin parent level y = parent * width level + y % width level

-- The child has no table where the parent has none.
abbrev pub Under : (parent child : ℕ) → Forest → Type 0
Under parent child forest =
    (level y : ℕ)
    → y / width level ≡ child
    → forest level (twin parent level y) ≡ none
    → forest level y ≡ none

-- The virtual page `v` is shared: both processes have the parent's entry, which denies writing.
pub record Shared (l : Layout) (frames : ℕ → ℕ) (limit k parent child v v' : ℕ) (forest : Forest)
    (s s' : Memory) : Type 0 where
  pub forest' : Forest
  pub paged : IsPaged frames limit k forest' s'.tables
  pub under : Under parent child forest'
  pub leaves :
      (u : ℕ)
      → leaf forest' s'.tables.word u ≡ (
          if u == v || u == v'
          then deny_write (leaf forest s.tables.word v)
          else leaf forest s.tables.word u)
  pub kept : (level x g : ℕ) → forest level x ≡ some g → forest' level x ≡ some g
  pub others : Untouched frames limit forest s.tables forest' s'.tables
  pub count : Counts l (page_owned (leaf forest s.tables.word v)) s.mm s'.mm

-- Nothing is done for two tables at one address, as there are behind two entries that are zero.
pub copy_levels-same :
    (l : Layout) (pages : ℕ → ℕ) (level pt addr : ℕ) (s : Memory)
    → copy_levels l pages level pt pt addr s ≡ s
unfolding copy_levels copy_entry
copy_levels-same l pages zero pt addr s =
    elim (Bool-cases (s.tables.word (pte_entry pt addr 0) == 0)) [
      | inl e ↦ rw e refl
      | inr e ↦ rw e refl
    ]
copy_levels-same l pages (suc level) pt addr s =
    elim (Bool-cases (s.tables.word (pte_entry pt addr (suc level)) == 0)) [
      | inl e ↦ rw e (
          copy_levels-same l pages level
            (pte_to_virt (s.tables.word (pte_entry pt addr (suc level)))) addr s)
      | inr e ↦ rw e (
          copy_levels-same l pages level
            (pte_to_virt (s.tables.word (pte_entry pt addr (suc level)))) addr s)
    ]

-- The child gets a table where the parent has one.
pub copy_entry-fill :
    (l : Layout) (pages : ℕ → ℕ) (level src dst : ℕ) (s : Memory)
    → s.tables.word src ≢ 0
    → (mm : Mm) × (copy_entry l pages (suc level) src dst s
        ≡ (record { tables = fill_entry pages dst s.tables; mm = mm }))
      × Counts l [] s.mm mm
unfolding copy_entry fill_copy fill_entry
copy_entry-fill l pages level src dst s ne =
    let upper : (suc level == 0) ≡ false =
      ==_false (suc level) 0 (λ e. absurd (omega (arith, e))) in
    elim (Bool-cases (s.tables.word dst == 0)) [
      | inl e ↦ (
        kmalloc_behind l page_size s.mm,
        rw (==_false (s.tables.word src) 0 ne, e, upper) refl,
        Counts-kmalloc l page_size s.mm,
      )
      | inr e ↦ (s.mm, rw (==_false (s.tables.word src) 0 ne, e) refl, Counts-none l s.mm)
    ]

-- A page that has no table has no entry.
pub leaf-out :
    (forest : Forest) (word : ℕ → ℕ) (va level x : ℕ)
    → IsForest forest word
    → level ≤ 2
    → forest level x ≡ none
    → leaf forest word (page_of level x va) ≡ 0
unfolding page_of
leaf-out forest word va zero x h low e =
    let idx = va / 2 ^ (12 + 9 * 0) % 2 ^ 9 in
    let prefix : (x * 512 + idx) / 512 ≡ x = omega arith in
    leaf-none forest word (x * 512 + idx) (rw prefix e)
leaf-out forest word va (suc level) x h low e =
    let idx = va / 2 ^ (12 + 9 * suc level) % 2 ^ 9 in
    leaf-out forest word va level (x * 512 + idx) h (omega (arith, low)) (
      h.closed level x idx (omega (arith, low)) e
        (mod-lt (va / 2 ^ (12 + 9 * suc level)) (omega arith)))

pub twin_step :
    (parent child level y idx : ℕ)
    → level < 2
    → idx < 512
    → y / width (suc level) ≡ child
    → ((y * 512 + idx) / width level ≡ child)
      × (twin parent level (y * 512 + idx) ≡ twin parent (suc level) y * 512 + idx)
twin_step parent child zero y idx h lt e = (omega arith, omega arith)
twin_step parent child (suc zero) y idx h lt e = (omega arith, omega arith)
twin_step parent child (suc (suc level)) y idx h lt e = absurd (omega arith)

pub none_of_kept :
    (forest forest' : Forest) (level x : ℕ)
    → ((g : ℕ) → forest level x ≡ some g → forest' level x ≡ some g)
    → forest' level x ≡ none
    → forest level x ≡ none
none_of_kept forest forest' level x kept out = elim (Option-cases (forest level x)) [
  | inl e ↦ e
  | inr (g, e) ↦ absurd (some_ne_none g (sym (kept g e) ∙ out))
]

-- A table that is added to the child where the parent has one.
pub Under-Stepped :
    (parent child : ℕ) (frames : ℕ → ℕ) (limit k level y c : ℕ) (forest : Forest) (t : Tables)
    (at : ℕ) (t' : Tables) (s : Stepped frames limit k level y forest t at t')
    → Under parent child forest
    → forest level (twin parent level y) ≡ some c
    → Under parent child s.forest'
Under-Stepped parent child frames limit k level y c forest t at t' s h there level' y' e out =
    let gone =
      none_of_kept forest s.forest' level' (twin parent level' y')
        (λ g q. s.kept level' (twin parent level' y') g q) out in
    elim (s.only level' y') [
      | inl old ↦ old ∙ h level' y' e gone
      | inr (d, d') ↦
          let gone' : forest level (twin parent level y) ≡ none = rw (← d, ← d') gone in
          absurd (some_ne_none c (sym there ∙ gone'))
    ]

module _ (l : Layout) (frames : ℕ → ℕ) (limit k parent child v v' : ℕ) (forest : Forest)
    (s : Memory) where
  -- The parent has no entry for the page.
  pub Shared-none :
      IsPaged frames limit k forest s.tables
      → Under parent child forest
      → leaf forest s.tables.word v ≡ 0
      → leaf forest s.tables.word v' ≡ 0
      → Shared l frames limit k parent child v v' forest s s
  Shared-none p under e e' = record {
    forest' = forest;
    paged = p;
    under = under;
    leaves = λ u. elim (Bool-cases (u == v)) [
      | inl at ↦ rw (at, e, eq_of_== u v at, e) refl
      | inr other ↦ elim (Bool-cases (u == v')) [
        | inl at ↦ rw (other, at, e, eq_of_== u v' at, e') refl
        | inr other' ↦ rw (other, other') refl
      ]
    ];
    kept = λ level x g q. q;
    others = λ a stray. (refl, stray);
    count = rw e (Counts-none l s.mm);
  }

  pub Shared-Stepped :
      (k' level y at : ℕ) (t' : Tables) (mm : Mm) (s' : Memory)
      (st : Stepped frames limit k' level y forest s.tables at t')
      → Counts l [] s.mm mm
      → Shared l frames limit k parent child v v' st.forest' (record { tables = t'; mm = mm }) s'
      → Shared l frames limit k parent child v v' forest s s'
  Shared-Stepped k' level y at t' mm s' st calls h = record {
    forest' = h.forest';
    paged = h.paged;
    under = h.under;
    leaves = λ u. h.leaves u ∙ rw (st.same u, st.same v) refl;
    kept = λ level' x g q. h.kept level' x g (st.kept level' x g q);
    others =
        Untouched-then frames limit forest s.tables st.forest' t' h.forest' s'.tables st.others
          h.others;
    count = Counts-then l [] (page_owned (leaf forest s.tables.word v)) s.mm mm s'.mm calls (
        Counts-same l (page_owned (leaf st.forest' t'.word v))
          (page_owned (leaf forest s.tables.word v)) mm s'.mm (ap page_owned (st.same v)) h.count);
  }

-- A table that is added to the parent.
pub Under-parent :
    (parent child : ℕ) (frames : ℕ → ℕ) (limit k level y : ℕ) (forest : Forest) (t : Tables)
    (at : ℕ) (t' : Tables) (s : Stepped frames limit k level y forest t at t')
    → parent ≢ child
    → y / width level ≡ parent
    → Under parent child forest
    → Under parent child s.forest'
Under-parent parent child frames limit k level y forest t at t' s ne own h level' y' e out =
    let gone =
      none_of_kept forest s.forest' level' (twin parent level' y')
        (λ g q. s.kept level' (twin parent level' y') g q) out in
    elim (s.only level' y') [
      | inl old ↦ old ∙ h level' y' e gone
      | inr (d, d') ↦
          let e' : y / width level ≡ child = rw (← d, ← d') e in absurd (ne (sym own ∙ e'))
    ]
