-- ===== src/Base/Lists.antt =====
-- Lists measured, indexed and searched by native numbers.
use Prim.Native.Nat.{ℕ, zero, suc, ◌+◌}
use mathlib.Core.Path.{◌≡◌, refl}
use mathlib.Core.Bool.{Bool, true, false, ◌||◌}
use mathlib.Core.List.{List, [], ◌∷◌, ◌++◌}
use mathlib.Core.Option.{Option, none, some}
use native.Mathlib.Omega.{arith}
use osc_riscv.Base.Tests.{◌==◌, if◌then◌else◌}

module _ {ℓ} {A : Type ℓ} where
  abbrev pub length : List A → ℕ
  length [] = 0
  length (x ∷ xs) = suc (length xs)

  abbrev pub get_elem? : List A → ℕ → Option A
  get_elem? [] i = none
  get_elem? (x ∷ xs) zero = some x
  get_elem? (x ∷ xs) (suc i) = get_elem? xs i

  -- A write out of bounds changes nothing.
  abbrev pub set : List A → ℕ → A → List A
  set [] i v = []
  set (x ∷ xs) zero v = v ∷ xs
  set (x ∷ xs) (suc i) v = x ∷ set xs i v

  pub length-append : (xs ys : List A) → length (xs ++ ys) ≡ length xs + length ys
  length-append [] ys = omega arith
  length-append (x ∷ xs) ys = omega (arith, length-append xs ys)

-- Whether a number stands in a list of numbers.
abbrev pub has : ℕ → List ℕ → Bool
has a [] = false
has a (x ∷ xs) = (a == x) || has a xs

-- The list without the first occurrence of a number.
abbrev pub erase : ℕ → List ℕ → List ℕ
erase a [] = []
erase a (x ∷ xs) = if a == x then xs else x ∷ erase a xs

infix 40 ◌∈◌ ◌∉◌
abbrev pub ◌∈◌ : ℕ → List ℕ → Type 0
a ∈ xs = has a xs ≡ true

abbrev pub ◌∉◌ : ℕ → List ℕ → Type 0
a ∉ xs = has a xs ≡ false

-- No number stands twice.
abbrev pub Distinct : List ℕ → Type 0
Distinct [] = Unit
Distinct (x ∷ xs) = (x ∉ xs) × Distinct xs

-- A predicate on every element.
abbrev pub All {ℓ κ} : {A : Type ℓ} → (A → Type κ) → List A → Type κ
All P [] = Unit
All P (x ∷ xs) = P x × All P xs

-- A function with its value at one point changed.
module _ {ℓ} {A : Type ℓ} where
  abbrev pub update : (ℕ → A) → ℕ → A → ℕ → A
  update f a v x = if x == a then v else f x

pub has-append : (a : ℕ) (xs ys : List ℕ) → has a (xs ++ ys) ≡ (has a xs || has a ys)
has-append a [] ys = refl
has-append a (x ∷ xs) ys = ground (arith, has-append a xs ys)

pub not-mem-append : (a : ℕ) (xs ys : List ℕ) → a ∉ xs → a ∉ ys → a ∉ xs ++ ys
not-mem-append a xs ys p q = ground (arith, has-append a xs ys)

pub not-mem-append_left : (a : ℕ) (xs ys : List ℕ) → a ∉ xs ++ ys → a ∉ xs
not-mem-append_left a xs ys p = ground (arith, has-append a xs ys)

pub not-mem-append_right : (a : ℕ) (xs ys : List ℕ) → a ∉ xs ++ ys → a ∉ ys
not-mem-append_right a xs ys p = ground (arith, has-append a xs ys)

pub erase_of_not_mem : (a : ℕ) (xs : List ℕ) → a ∉ xs → erase a xs ≡ xs
erase_of_not_mem a [] h = refl
erase_of_not_mem a (x ∷ xs) h = ground (arith, erase_of_not_mem a xs)

pub erase-append_self : (a : ℕ) (xs ys : List ℕ) → a ∉ xs → erase a (xs ++ a ∷ ys) ≡ xs ++ ys
erase-append_self a [] ys h = ground arith
erase-append_self a (x ∷ xs) ys h = ground (arith, erase-append_self a xs ys)
