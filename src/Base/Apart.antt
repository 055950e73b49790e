-- ===== src/Base/Apart.antt =====
-- Lists of numbers in which none stands twice.
use mathlib.Core.Path.{◌≡◌, refl, sym, ap, ◌∙◌}
use mathlib.Core.Bool.{false≢true}
use mathlib.Core.List.{List, [], ◌∷◌, ◌++◌}
use mathlib.Core.Logic.{inl, inr, ◌≢◌}
use native.Mathlib.Omega.{arith}
use Prim.Native.Nat.{ℕ}
use osc_riscv.Base.Lists.{Distinct, ◌∈◌, ◌∉◌, has-append, All}
use osc_riscv.Base.Tests.{◌==◌, Bool-cases, eq_of_==}

pub Distinct-parts : (xs ys : List ℕ) → Distinct (xs ++ ys) → Distinct xs × Distinct ys
Distinct-parts [] ys d = (tt, d)
Distinct-parts (x ∷ xs) ys d =
    let rest = Distinct-parts xs ys d.1 in ((ground (arith, has-append x xs ys), rest.0), rest.1)

pub Distinct-apart : (xs ys : List ℕ) → Distinct (xs ++ ys) → (a : ℕ) → a ∈ xs → a ∉ ys
Distinct-apart [] ys d a i = absurd (ground arith)
Distinct-apart (x ∷ xs) ys d a i =
    ground (arith, has-append x xs ys, has-append a xs ys, Distinct-apart xs ys d.1 a)

pub Distinct-insert :
    (a : ℕ) (xs ys : List ℕ) → Distinct (xs ++ ys) → a ∉ xs ++ ys → Distinct (xs ++ a ∷ ys)
Distinct-insert a [] ys d out = (out, d)
Distinct-insert a (x ∷ xs) ys d out = (
  ground (arith, has-append x xs (a ∷ ys), has-append x xs ys),
  Distinct-insert a xs ys d.1 (ground arith),
)

pub Distinct-delete :
    (a : ℕ) (xs ys : List ℕ) → Distinct (xs ++ a ∷ ys) → Distinct (xs ++ ys) × (a ∉ xs ++ ys)
Distinct-delete a [] ys d = (d.1, d.0)
Distinct-delete a (x ∷ xs) ys d =
    let rest = Distinct-delete a xs ys d.1 in
    (
      (ground (arith, has-append x xs (a ∷ ys), has-append x xs ys), rest.0),
      ground (arith, has-append x xs (a ∷ ys), rest.1),
    )

-- A number that stands in a list divides it.
pub mem_split :
    (a : ℕ) (xs : List ℕ)
    → a ∈ xs
    → (front : List ℕ) × (back : List ℕ) × (xs ≡ front ++ a ∷ back) × (a ∉ front)
mem_split a [] i = absurd (ground arith)
mem_split a (x ∷ xs) i = elim (Bool-cases (a == x)) [
  | inl e ↦ ([], xs, ap (λ t. t ∷ xs) (sym (eq_of_== a x e)), refl)
  | inr ne ↦
      let (front, back, e, out) = mem_split a xs (ground arith) in
      (x ∷ front, back, ap (λ t. x ∷ t) e, ground arith)
]

pub ne_of_mem : (p q : ℕ) (xs : List ℕ) → p ∈ xs → q ∉ xs → p ≢ q
ne_of_mem p q xs j out e = false≢true (sym out ∙ (rw e at j))

-- What holds of all holds of each.
pub All-mem {ℓ} : (P : ℕ → Type ℓ) (a : ℕ) (xs : List ℕ) → a ∈ xs → All P xs → P a
All-mem P a [] j h = absurd (ground arith)
All-mem P a (x ∷ xs) j h = elim (Bool-cases (a == x)) [
  | inl e ↦ rw (eq_of_== a x e) h.0
  | inr ne ↦ All-mem P a xs (ground arith) h.1
]
