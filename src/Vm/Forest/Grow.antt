-- ===== src/Vm/Forest/Grow.antt =====
-- A table is added to a forest of page tables of src/vm.c.
use Prim.Native.Nat.{bit_and, bit_or}
use osc_riscv.Base.{
  ℕ, zero, suc, ◌+◌, ◌*◌, ◌/◌, ◌%◌, ◌^◌, ◌<◌, ◌≤◌, ◌≡◌, ◌≢◌, ◌⊎◌, inl, inr, refl, sym, ap, ◌∙◌,
  Option, none, some, arith, ◌==◌, update, Bool-cases, Option-cases, ==_refl, ==_false, eq_of_==,
  ne_of_==,
}
use native.Mathlib.Nat.{add-zero}
use osc_riscv.Base.Bits.{and_round, or_fields}
use osc_riscv.Vm.{Tables, clear_words, pte_to_virt, virt_to_phys, page_present, entry_mask}
use osc_riscv.Vm.Forest.{frame_at, slot, Forest, IsUser, Leads, IsForest, leaf, grown}

pub clear_words_out :
    (n addr : ℕ) (word : ℕ → ℕ) (a : ℕ)
    → (a < addr) ⊎ (addr + 8 * n ≤ a)
    → clear_words n addr word a ≡ word a
unfolding clear_words
clear_words_out zero addr word a o = refl
clear_words_out (suc n) addr word a o =
    ground (arith, clear_words_out n (addr + 8) (update word addr 0) a (ground arith))

pub clear_words_in :
    (n addr : ℕ) (word : ℕ → ℕ) (j : ℕ) → j < n → clear_words n addr word (addr + 8 * j) ≡ 0
unfolding clear_words
clear_words_in zero addr word j lt = absurd (omega arith)
clear_words_in (suc n) addr word zero lt = ground (
  arith,
  add-zero addr,
  clear_words_out n (addr + 8) (update word addr 0) addr (inl (omega arith)),
)
clear_words_in (suc n) addr word (suc j) lt =
    let shift : addr + 8 * suc j ≡ addr + 8 + 8 * j = omega arith in
    rw shift (clear_words_in n (addr + 8) (update word addr 0) j (omega arith))

-- The entry that a walk makes for a new table leads to it.
pub Leads-present :
    (f : ℕ) → f < 2 ^ 26 → Leads (some f) (bit_or (virt_to_phys (frame_at f) / 2 ^ 2) page_present)
unfolding pte_to_virt
Leads-present f h =
    let frame : virt_to_phys (frame_at f) / 2 ^ 2 ≡ f * 2 ^ 10 = omega (arith, h) in
    let entry : bit_or (f * 2 ^ 10) page_present ≡ f * 2 ^ 10 + 1 =
      or_fields 10 f 1 (omega arith) in
    let cut : bit_and (f * 2 ^ 10 + 1) entry_mask ≡ f * 2 ^ 10 =
      and_round 10 54 (f * 2 ^ 10 + 1) (omega (arith, h)) ∙ omega arith in
    rw (frame, entry, cut) (λ e. absurd (omega (arith, e)), omega (arith, h))

-- Entries of different frames, or of different indices, are different words.
pub slot_ne : (f g i j : ℕ) → i < 512 → j < 512 → (f ≢ g) ⊎ (i ≢ j) → slot f i ≢ slot g j
slot_ne f g i j hi hj (inl ne) e = ne (omega (arith, e, hi, hj))
slot_ne f g i j hi hj (inr ne) e = ne (omega (arith, e, hi, hj))

pub Leads-zero : (t : Option ℕ) (w : ℕ) → Leads t w → t ≡ none → w ≡ 0
Leads-zero none w h e = h
Leads-zero (some c) w h e = cc

pub some_inj : (a b : ℕ) → some a ≡ some b → a ≡ b
some_inj a b e = cc

pub some_ne_none : (a : ℕ) → some a ≢ none
some_ne_none a e = cc

pub Leads-congr : (t t' : Option ℕ) (w w' : ℕ) → t ≡ t' → w ≡ w' → Leads t' w' → Leads t w
Leads-congr t t' w w' e e' h = rw (e, e') h

pub leaf-none :
    (forest : Forest) (word : ℕ → ℕ) (v : ℕ) → forest 0 (v / 512) ≡ none → leaf forest word v ≡ 0
unfolding leaf
leaf-none forest word v e = rw (leaf, e) refl

pub leaf-some :
    (forest : Forest) (word : ℕ → ℕ) (v f : ℕ)
    → forest 0 (v / 512) ≡ some f
    → leaf forest word v ≡ word (slot f (v % 512))
unfolding leaf
leaf-some forest word v f e = rw (leaf, e) refl

pub grown_new : (level y n : ℕ) (forest : Forest) → grown level y n forest level y ≡ some n
grown_new level y n forest = rw (==_refl level, ==_refl y) refl

-- Where the forest has grown: at the new place, or not.
pub grown_cases :
    (level y n : ℕ) (forest : Forest) (level' x : ℕ)
    → ((level' ≡ level) × (x ≡ y) × (grown level y n forest level' x ≡ some n))
      ⊎ (((level' ≢ level) ⊎ (x ≢ y)) × (grown level y n forest level' x ≡ forest level' x))
grown_cases level y n forest level' x = elim (Bool-cases (level' == level)) [
  | inl e ↦ elim (Bool-cases (x == y)) [
    | inl e' ↦ inl (eq_of_== level' level e, eq_of_== x y e', rw (e, e') refl)
    | inr ne ↦ inr (inr (ne_of_== x y ne), rw (e, ne) refl)
  ]
  | inr ne ↦ inr (inl (ne_of_== level' level ne), rw ne refl)
]

-- The entry that leads to the frame `n`, and the words after a table in it has been put behind an
-- entry.
abbrev pub entry_of : ℕ → ℕ
entry_of n = bit_or (virt_to_phys (frame_at n) / 2 ^ 2) page_present

abbrev pub filled : Tables → (f idx n : ℕ) → ℕ → ℕ
filled t f idx n = update (clear_words 512 (frame_at n) t.word) (slot f idx) (entry_of n)

-- A table is put behind the entry `idx`, which is zero, of the table in the frame `f`.
module _ (forest : Forest) (t : Tables) (level x f idx n : ℕ) (h : IsForest forest t.word)
    (here : forest (suc level) x ≡ some f) (user : IsUser (suc level) idx) (low : level < 2)
    (empty : forest level (x * 512 + idx) ≡ none) (small : n < 2 ^ 26)
    (unused : (level x : ℕ) → forest level x ≢ some n) where
  f_ne : f ≢ n
  f_ne e = unused (suc level) x (rw (← e) here)

  filled_new : (j : ℕ) → j < 512 → (filled t f idx n) (slot n j) ≡ 0
  filled_new j lt =
      rw (==_false (slot n j) (slot f idx) (slot_ne n f j idx lt user.0 (inl (λ e. f_ne (sym e)))))
        (clear_words_in 512 (frame_at n) t.word j lt)

  filled_old :
      (g j : ℕ)
      → j < 512
      → g ≢ n
      → (g ≢ f) ⊎ (j ≢ idx)
      → (filled t f idx n) (slot g j) ≡ t.word (slot g j)
  filled_old g j lt ne o =
      rw (==_false (slot g j) (slot f idx) (slot_ne g f j idx lt user.0 o))
        (clear_words_out 512 (frame_at n) t.word (slot g j) (ground arith))

  pub filled_here : (filled t f idx n) (slot f idx) ≡ (entry_of n)
  filled_here = rw (==_refl (slot f idx)) refl

  old_ne : (level' x' g : ℕ) → forest level' x' ≡ some g → g ≢ n
  old_ne level' x' g there e = unused level' x' (rw (← e) there)

  one_frame : (level' x' g : ℕ) → level' ≡ suc level → x' ≡ x → forest level' x' ≡ some g → g ≡ f
  one_frame level' x' g e e' there =
      let there' : forest (suc level) x ≡ some g = rw (← e, ← e') there in cc

  Leads-old :
      (level' x' g j : ℕ)
      → forest (suc level') x' ≡ some g
      → IsUser (suc level') j
      → Leads
          (grown level (x * 512 + idx) n forest level' (x' * 512 + j))
          ((filled t f idx n) (slot g j))
  Leads-old level' x' g j there u =
      elim (grown_cases level (x * 512 + idx) n forest level' (x' * 512 + j)) [
        | inl (e, e', new) ↦
            let same : x' ≡ x = omega (arith, e', u.0, user.0) in
            let same' : j ≡ idx = omega (arith, e', same) in
            let frame : g ≡ f = one_frame (suc level') x' g (ap suc e) same there in
            let at : slot g j ≡ slot f idx = omega (arith, frame, same') in
            Leads-congr (grown level (x * 512 + idx) n forest level' (x' * 512 + j)) (some n)
              ((filled t f idx n) (slot g j)) (entry_of n) new
              (ap (filled t f idx n) at ∙ filled_here) (Leads-present n small)
        | inr (ne, old) ↦
            let other : (g ≢ f) ⊎ (j ≢ idx) = elim (Bool-cases (g == f)) [
              | inl e ↦
                  let there' : forest (suc level') x' ≡ some f = rw (← eq_of_== g f e) there in
                  let place = h.apart (suc level') x' (suc level) x f there' here in
                  inr (λ e'. elim ne [
                    | inl k ↦ k (omega (arith, place.0))
                    | inr k ↦ k (omega (arith, place.1, e'))
                  ])
              | inr k ↦ inl (ne_of_== g f k)
            ] in
            Leads-congr (grown level (x * 512 + idx) n forest level' (x' * 512 + j))
              (forest level' (x' * 512 + j)) ((filled t f idx n) (slot g j)) (t.word (slot g j)) old
              (filled_old g j u.0 (old_ne (suc level') x' g there) other)
              (h.leads level' x' g j there u)
      ]

  -- The entries of the new table are zero.
  Leads-new :
      (level' j : ℕ)
      → suc level' ≡ level
      → j < 512
      → Leads
          (grown level (x * 512 + idx) n forest level' ((x * 512 + idx) * 512 + j))
          ((filled t f idx n) (slot n j))
  Leads-new level' j e lt =
      elim (grown_cases level (x * 512 + idx) n forest level' ((x * 512 + idx) * 512 + j)) [
        | inl (e', _, new) ↦ absurd (omega (arith, e, e'))
        | inr (ne, old) ↦
            let none_here : forest level' ((x * 512 + idx) * 512 + j) ≡ none =
              h.closed level' (x * 512 + idx) j (omega (arith, e, low)) (rw e empty) lt in
            Leads-congr (grown level (x * 512 + idx) n forest level' ((x * 512 + idx) * 512 + j))
              none ((filled t f idx n) (slot n j)) 0 (old ∙ none_here) (filled_new j lt) refl
      ]

  unused_old :
      (level' x' g : ℕ)
      → grown level (x * 512 + idx) n forest level' x' ≡ forest level' x'
      → grown level (x * 512 + idx) n forest level' x' ≡ some g
      → g ≢ n
  unused_old level' x' g old there = old_ne level' x' g (sym old ∙ there)

  grown-closed :
      (level' x' j : ℕ)
      → level' < 2
      → grown level (x * 512 + idx) n forest (suc level') x' ≡ none
      → j < 512
      → grown level (x * 512 + idx) n forest level' (x' * 512 + j) ≡ none
  grown-closed level' x' j below out lt =
      elim (grown_cases level (x * 512 + idx) n forest (suc level') x') [
        | inl (e, e', new) ↦ absurd (some_ne_none n (sym new ∙ out))
        | inr (ne, old) ↦ elim (grown_cases level (x * 512 + idx) n forest level' (x' * 512 + j)) [
          | inl (e, e', new) ↦
              let same : x' ≡ x = omega (arith, e', lt, user.0) in
              let gone : forest (suc level) x ≡ none = rw (← same, ← e) (sym old ∙ out) in
              absurd (some_ne_none f (sym here ∙ gone))
          | inr (ne', old') ↦ old' ∙ h.closed level' x' j below (sym old ∙ out) lt
        ]
      ]

  grown-apart :
      (level' x' level'' x'' g : ℕ)
      → grown level (x * 512 + idx) n forest level' x' ≡ some g
      → grown level (x * 512 + idx) n forest level'' x'' ≡ some g
      → (level' ≡ level'') × (x' ≡ x'')
  grown-apart level' x' level'' x'' g a b =
      elim (grown_cases level (x * 512 + idx) n forest level' x') [
        | inl (e, e', new) ↦ elim (grown_cases level (x * 512 + idx) n forest level'' x'') [
          | inl (d, d', _) ↦ (omega (arith, e, d), omega (arith, e', d'))
          | inr (_, old) ↦ absurd (unused_old level'' x'' g old b (some_inj g n (sym a ∙ new)))
        ]
        | inr (_, old) ↦ elim (grown_cases level (x * 512 + idx) n forest level'' x'') [
          | inl (_, _, new) ↦ absurd (unused_old level' x' g old a (some_inj g n (sym b ∙ new)))
          | inr (_, old') ↦ h.apart level' x' level'' x'' g (sym old ∙ a) (sym old' ∙ b)
        ]
      ]

  pub grown-IsForest : IsForest (grown level (x * 512 + idx) n forest) (filled t f idx n)
  grown-IsForest = record {
    leads = λ level' x' g j there u.
        elim (grown_cases level (x * 512 + idx) n forest (suc level') x') [
          | inl (e, e', new) ↦
              let frame : g ≡ n = some_inj g n (sym there ∙ new) in
              rw (e', frame) (Leads-new level' j e u.0)
          | inr (ne, old) ↦ Leads-old level' x' g j (sym old ∙ there) u
        ];
    closed = grown-closed;
    apart = grown-apart;
  }

  leaf_ne : (g y : ℕ) → forest 0 y ≡ some g → g ≢ f
  leaf_ne g y e same =
      let there : forest 0 y ≡ some f = rw (← same) e in
      absurd (omega (arith, (h.apart 0 y (suc level) x f there here).0))

  -- Every virtual page has the entry that it had.
  pub leaf-grown :
      (v : ℕ)
      → leaf (grown level (x * 512 + idx) n forest) (filled t f idx n) v ≡ leaf forest t.word v
  leaf-grown v =
      let forest' = grown level (x * 512 + idx) n forest in
      elim (grown_cases level (x * 512 + idx) n forest 0 (v / 512)) [
        | inl (e, e', new) ↦
            let gone : forest 0 (v / 512) ≡ none = rw (e', e) empty in
            leaf-some forest' (filled t f idx n) v n new
            ∙ filled_new (v % 512) (omega arith)
            ∙ sym (leaf-none forest t.word v gone)
        | inr (ne, old) ↦ elim (Option-cases (forest 0 (v / 512))) [
          | inl e ↦
              leaf-none forest' (filled t f idx n) v (old ∙ e) ∙ sym (leaf-none forest t.word v e)
          | inr (g, e) ↦
              leaf-some forest' (filled t f idx n) v g (old ∙ e)
              ∙ filled_old g (v % 512) (omega arith) (old_ne 0 (v / 512) g e)
                  (inl (λ same. leaf_ne g (v / 512) e same))
              ∙ sym (leaf-some forest t.word v g e)
        ]
      ]
