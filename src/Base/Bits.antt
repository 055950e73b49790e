-- ===== src/Base/Bits.antt =====
-- The bitwise operators of C on numbers: the equation for the lowest digit, then the operations
-- with powers of two and their masks.
use Prim.Native.Nat.{
  ℕ, zero, suc, ◌+◌, ◌-◌, ◌*◌, ◌/◌, ◌%◌, ◌^◌, ◌≤◌, ◌<◌, min, max, digits, differ, bit_and, bit_or,
  bit_xor, bit_and-bitwise, bit_or-bitwise, bit_xor-bitwise,
}
use mathlib.Core.Path.{◌≡◌, refl, ap}
use native.Mathlib.Omega.{arith}
use native.Mathlib.Nat.{pow-suc, one-le-pow, mod-eq_of_lt, div-add-mod', div-lt_iff_lt-mul}

-- Two counts of digits that are both enough give one number.
digits_enough :
    (z : ℕ → ℕ) (f : ℕ → ℕ → ℕ) (a b n m : ℕ) → a ≤ n → a ≤ m → digits z f n a b ≡ digits z f m a b
digits_enough z f zero b zero zero p q = refl
digits_enough z f zero b zero (suc m) p q = refl
digits_enough z f zero b (suc n) zero p q = refl
digits_enough z f zero b (suc n) (suc m) p q = refl
digits_enough z f (suc a) b zero m p q = absurd (omega arith)
digits_enough z f (suc a) b (suc n) zero p q = absurd (omega arith)
digits_enough z f (suc a) b (suc n) (suc m) p q =
    ap (λ t. t * 2 + f (suc a % 2) (b % 2))
      (digits_enough z f (suc a / 2) (b / 2) n m (omega arith) (omega arith))

lowest_digit :
    (z : ℕ → ℕ) (f : ℕ → ℕ → ℕ) (a b : ℕ)
    → digits z f (suc a) (suc a) b
      ≡ digits z f (suc a / 2) (suc a / 2) (b / 2) * 2 + f (suc a % 2) (b % 2)
lowest_digit z f a b =
    ap (λ t. t * 2 + f (suc a % 2) (b % 2))
      (digits_enough z f (suc a / 2) (b / 2) a (suc a / 2) (omega arith) (omega arith))

pub and_digit : (a b : ℕ) → bit_and a b ≡ bit_and (a / 2) (b / 2) * 2 + min (a % 2) (b % 2)
and_digit zero b = omega (arith, bit_and-bitwise 0 b, bit_and-bitwise 0 (b / 2))
and_digit (suc a) b = omega (
  arith,
  bit_and-bitwise (suc a) b,
  bit_and-bitwise (suc a / 2) (b / 2),
  lowest_digit (λ y. 0) min a b,
)

pub or_digit : (a b : ℕ) → bit_or a b ≡ bit_or (a / 2) (b / 2) * 2 + max (a % 2) (b % 2)
or_digit zero b = omega (arith, bit_or-bitwise 0 b, bit_or-bitwise 0 (b / 2))
or_digit (suc a) b = omega (
  arith,
  bit_or-bitwise (suc a) b,
  bit_or-bitwise (suc a / 2) (b / 2),
  lowest_digit (λ y. y) max a b,
)

pub xor_digit : (a b : ℕ) → bit_xor a b ≡ bit_xor (a / 2) (b / 2) * 2 + differ (a % 2) (b % 2)
xor_digit zero b = omega (arith, bit_xor-bitwise 0 b, bit_xor-bitwise 0 (b / 2))
xor_digit (suc a) b = omega (
  arith,
  bit_xor-bitwise (suc a) b,
  bit_xor-bitwise (suc a / 2) (b / 2),
  lowest_digit (λ y. y) differ a b,
)

differ-zero : (d : ℕ) → differ d 0 ≡ d
differ-zero zero = refl
differ-zero (suc d) = refl

-- With zero on the right, by as many rounds as the number has digits.
xor-zero_rounds : (n a : ℕ) → a ≤ n → bit_xor a 0 ≡ a
xor-zero_rounds n zero h = refl
xor-zero_rounds zero (suc a) h = absurd (omega arith)
xor-zero_rounds (suc n) (suc a) h = ground (
  arith,
  xor_digit (suc a) 0,
  differ-zero (suc a % 2),
  xor-zero_rounds n (suc a / 2) (omega arith),
)

or-zero_rounds : (n a : ℕ) → a ≤ n → bit_or a 0 ≡ a
or-zero_rounds n zero h = refl
or-zero_rounds zero (suc a) h = absurd (omega arith)
or-zero_rounds (suc n) (suc a) h =
    omega (arith, or_digit (suc a) 0, or-zero_rounds n (suc a / 2) (omega arith))

and-zero_rounds : (n a : ℕ) → a ≤ n → bit_and a 0 ≡ 0
and-zero_rounds n zero h = refl
and-zero_rounds zero (suc a) h = absurd (omega arith)
and-zero_rounds (suc n) (suc a) h =
    omega (arith, and_digit (suc a) 0, and-zero_rounds n (suc a / 2) (omega arith))

pub xor-zero : (a : ℕ) → bit_xor a 0 ≡ a
xor-zero a = xor-zero_rounds a a (omega arith)

pub or-zero : (a : ℕ) → bit_or a 0 ≡ a
or-zero a = or-zero_rounds a a (omega arith)

pub and-zero : (a : ℕ) → bit_and a 0 ≡ 0
and-zero a = and-zero_rounds a a (omega arith)

pub mul-pow-suc : (q k : ℕ) → q * 2 ^ suc k ≡ 2 * (q * 2 ^ k)
mul-pow-suc q k = omega (arith, ap (λ (t : ℕ). q * t) (pow-suc 2 k))

-- Flipping the digit above an aligned number's zeros: it is set if it was clear …
pub xor_set : (k h : ℕ) → bit_xor (h * 2 ^ suc k) (2 ^ k) ≡ h * 2 ^ suc k + 2 ^ k
xor_set zero h = ground (arith, xor_digit (h * 2) 1, xor-zero h)
xor_set (suc k) h = ground (
  arith,
  xor_digit (h * 2 ^ suc (suc k)) (2 ^ suc k),
  mul-pow-suc h (suc k),
  pow-suc 2 k,
  xor_set k h,
)

-- … and cleared if it was set.
pub xor_clear : (k h : ℕ) → bit_xor (h * 2 ^ suc k + 2 ^ k) (2 ^ k) ≡ h * 2 ^ suc k
xor_clear zero h = ground (arith, xor_digit (h * 2 + 1) 1, xor-zero h)
xor_clear (suc k) h = ground (
  arith,
  xor_digit (h * 2 ^ suc (suc k) + 2 ^ suc k) (2 ^ suc k),
  mul-pow-suc h (suc k),
  pow-suc 2 k,
  xor_clear k h,
)

-- Fields that do not overlap: `|` is a sum.
pub or_fields : (k q r : ℕ) → r < 2 ^ k → bit_or (q * 2 ^ k) r ≡ q * 2 ^ k + r
or_fields zero q r h = ground (arith, or-zero q)
or_fields (suc k) q r h = ground (
  arith,
  or_digit (q * 2 ^ suc k) r,
  mul-pow-suc q k,
  pow-suc 2 k,
  or_fields k q (r / 2) (omega (arith, pow-suc 2 k)),
)

-- A mask whose low digits are clear clears those digits.
pub and_high : (k q m r : ℕ) → r < 2 ^ k → bit_and (q * 2 ^ k + r) (m * 2 ^ k) ≡ bit_and q m * 2 ^ k
and_high zero q m r h = ground (arith)
and_high (suc k) q m r h = ground (
  arith,
  and_digit (q * 2 ^ suc k + r) (m * 2 ^ suc k),
  mul-pow-suc q k,
  mul-pow-suc m k,
  mul-pow-suc (bit_and q m) k,
  pow-suc 2 k,
  and_high k q m (r / 2) (omega (arith, pow-suc 2 k)),
)

-- A mask of ones is a remainder.
pub and_ones : (k q r : ℕ) → r < 2 ^ k → bit_and (q * 2 ^ k + r) (2 ^ k - 1) ≡ r
and_ones zero q r h = ground (arith, and-zero (q * 1 + r))
and_ones (suc k) q r h = ground (
  arith,
  and_digit (q * 2 ^ suc k + r) (2 ^ suc k - 1),
  mul-pow-suc q k,
  pow-suc 2 k,
  one-le-pow k 2,
  and_ones k q (r / 2) (omega (arith, pow-suc 2 k)),
)

pub and_mod : (k a : ℕ) → bit_and a (2 ^ k - 1) ≡ a % 2 ^ k
and_mod k a = ground (arith, one-le-pow k 2, and_ones k (a / 2 ^ k) (a % 2 ^ k))

-- `a & ~(2 ^ k - 1)` in a word of `k + j` digits rounds down.
pub and_round :
    (k j a : ℕ) → a < 2 ^ j * 2 ^ k → bit_and a ((2 ^ j - 1) * 2 ^ k) ≡ a / 2 ^ k * 2 ^ k
and_round k j a h =
    let small : a / 2 ^ k < 2 ^ j = (div-lt_iff_lt-mul (one-le-pow k 2 (omega arith))).1 h in
    ground (
      arith,
      one-le-pow k 2,
      and_high k (a / 2 ^ k) (2 ^ j - 1) (a % 2 ^ k),
      and_mod j (a / 2 ^ k),
      mod-eq_of_lt small,
      div-add-mod' a (2 ^ k),
    )

absorb_rounds : (n m x : ℕ) → m ≤ n → bit_and (bit_or x m) m ≡ m
absorb_rounds n zero x h = and-zero (bit_or x 0)
absorb_rounds zero (suc m) x h = absurd (omega arith)
absorb_rounds (suc n) (suc m) x h =
    let upper : bit_or x (suc m) / 2 ≡ bit_or (x / 2) (suc m / 2) =
      omega (arith, or_digit x (suc m)) in
    omega (
      arith,
      and_digit (bit_or x (suc m)) (suc m),
      or_digit x (suc m),
      ap (λ t. bit_and t (suc m / 2)) upper,
      absorb_rounds n (suc m / 2) (x / 2) (omega arith),
    )

-- Bits that have been set are found set.
pub and_or_self : (x m : ℕ) → bit_and (bit_or x m) m ≡ m
and_or_self x m = absorb_rounds m m x (omega arith)
