-- ===== src/Vm/Forest/Congr.antt =====
-- Writes beside the page tables of src/vm.c.
use osc_riscv.Base.{
  ℕ, suc, ◌+◌, ◌*◌, ◌/◌, ◌%◌, ◌<◌, ◌≤◌, ◌≡◌, ◌≢◌, ◌⊎◌, inl, inr, refl, sym, ◌∙◌, some, arith, ltb,
  Bool-cases, Option-cases, ltb→lt, ltb→le,
}
use osc_riscv.Vm.{Tables}
use osc_riscv.Vm.Forest.{Untouched, frame_at, slot, Forest, IsForest, IsFresh, leaf}
use osc_riscv.Vm.Forest.Grow.{leaf-none, leaf-some, Leads-congr}

-- The memory is changed, but not in the tables.
module _ (forest : Forest) (word word' : ℕ → ℕ)
    (same : (level x g j : ℕ)
      → forest level x ≡ some g
      → j < 512
      → word' (slot g j) ≡ word (slot g j)) where
  pub IsForest-congr : IsForest forest word → IsForest forest word'
  IsForest-congr h = record {
    leads = λ level x g j there u.
        let lead = forest level (x * 512 + j) in
        Leads-congr lead lead (word' (slot g j)) (word (slot g j)) refl
          (same (suc level) x g j there u.0) (h.leads level x g j there u);
    closed = h.closed;
    apart = h.apart;
  }

  pub leaf-congr : (v : ℕ) → leaf forest word' v ≡ leaf forest word v
  leaf-congr v = elim (Option-cases (forest 0 (v / 512))) [
    | inl e ↦ leaf-none forest word' v e ∙ sym (leaf-none forest word v e)
    | inr (g, e) ↦
        leaf-some forest word' v g e
        ∙ same 0 (v / 512) g (v % 512) e (omega arith)
        ∙ sym (leaf-some forest word v g e)
  ]

pub slot_outside :
    (g f j : ℕ) → j < 512 → g ≢ f → (slot g j < frame_at f) ⊎ (frame_at f + 8 * 512 ≤ slot g j)
slot_outside g f j small ne = elim (Bool-cases (ltb g f)) [
  | inl lt ↦ let lt = ltb→lt g f lt in inl (omega (arith, lt, small))
  | inr ge ↦
      let le = ltb→le g f ge in
      let lt : f < g = omega (arith, le, ne) in inr (omega (arith, lt, small))
]

-- What two steps leave as it is.
pub Untouched-then :
    (frames : ℕ → ℕ) (limit : ℕ) (forest : Forest) (t : Tables) (forest' : Forest) (t' : Tables)
    (forest'' : Forest) (t'' : Tables)
    → Untouched frames limit forest t forest' t'
    → Untouched frames limit forest' t' forest'' t''
    → Untouched frames limit forest t forest'' t''
Untouched-then frames limit forest t forest' t' forest'' t'' h h' a stray =
    let one = h a stray in let two = h' a one.1 in (two.0 ∙ one.0, two.1)

-- A frame is used, but not for a table.
pub IsFresh-next :
    (forest : Forest) (frames : ℕ → ℕ) (limit taken : ℕ)
    → IsFresh forest frames limit taken
    → IsFresh forest frames limit (taken + 1)
IsFresh-next forest frames limit taken h = record {
  small = h.small;
  once = h.once;
  unused = λ i level x le. h.unused i level x (omega (arith, le));
}
