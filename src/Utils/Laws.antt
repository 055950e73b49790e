-- ===== src/Utils/Laws.antt =====
-- What src/utils.c computes.
use Prim.Native.Nat.{bit_and, bit_or, bit_or-bitwise}
use osc_riscv.Base.{ℕ, ◌+◌, ◌-◌, ◌*◌, ◌/◌, ◌%◌, ◌^◌, ◌<◌, ◌≤◌, ◌≡◌, ap, ◌∙◌, arith}
use osc_riscv.Base.Bits.{and_high, and_mod, and_round, or_fields}
use osc_riscv.Utils.{align, be2le, not32}
use native.Mathlib.Nat.{
  one-le-pow, mul-sub, mul_comm, div-lt_iff_lt-mul, mul-le-mul_right, mul-mod_left, div-add-mod',
  mod-lt,
}

mask_high : (k j : ℕ) → 2 ^ j * 2 ^ k ≡ 2 ^ 32 → (2 ^ j - 1) * 2 ^ k ≡ 2 ^ 32 - 2 ^ k
mask_high k j w =
    omega
      (arith, w, mul-sub (2 ^ k) (2 ^ j) 1, mul_comm (2 ^ k) (2 ^ j - 1), mul_comm (2 ^ k) (2 ^ j))

-- Rounding up to a power of two, as arithmetic.
pub align-round :
    (k j n : ℕ)
    → 2 ^ j * 2 ^ k ≡ 2 ^ 32
    → n + 2 ^ k ≤ 2 ^ 32
    → align n (2 ^ k) ≡ (n + 2 ^ k - 1) / 2 ^ k * 2 ^ k
unfolding align
align-round k j n w h =
    let positive : 1 ≤ 2 ^ k = one-le-pow k 2 (omega arith) in
    let up : (n + 2 ^ k + 2 ^ 32 - 1) % 2 ^ 32 ≡ n + 2 ^ k - 1 = omega (arith, positive) in
    let mask : not32 ((2 ^ k + 2 ^ 32 - 1) % 2 ^ 32) ≡ (2 ^ j - 1) * 2 ^ k =
      omega (arith, positive, mask_high k j w) in
    rw (up, mask) (and_round k j (n + 2 ^ k - 1) (omega (arith, w, positive)))

-- `align` to a power of two returns the least multiple of it that is not below the number, if the
-- addition fits the word.
pub align-least :
    (k j n : ℕ)
    → 2 ^ j * 2 ^ k ≡ 2 ^ 32
    → n + 2 ^ k ≤ 2 ^ 32
    → (align n (2 ^ k) % 2 ^ k ≡ 0)
      × (n ≤ align n (2 ^ k))
      × ((a : ℕ) → a % 2 ^ k ≡ 0 → n ≤ a → align n (2 ^ k) ≤ a)
align-least k j n w h =
    let positive : 1 ≤ 2 ^ k = one-le-pow k 2 (omega arith) in
    rw (align-round k j n w h) (
      mul-mod_left ((n + 2 ^ k - 1) / 2 ^ k) (2 ^ k),
      omega
          (arith, positive, div-add-mod' (n + 2 ^ k - 1) (2 ^ k), mod-lt (n + 2 ^ k - 1) positive),
      λ a e le. below a e le positive,
    )
  where
    below : (a : ℕ) → a % 2 ^ k ≡ 0 → n ≤ a → 1 ≤ 2 ^ k → (n + 2 ^ k - 1) / 2 ^ k * 2 ^ k ≤ a
    below a e le positive =
        let whole : a / 2 ^ k * 2 ^ k ≡ a = omega (arith, div-add-mod' a (2 ^ k)) in
        let small : (n + 2 ^ k - 1) / 2 ^ k < a / 2 ^ k + 1 =
          (div-lt_iff_lt-mul positive).1 (omega (arith, whole, positive)) in
        let scaled : (n + 2 ^ k - 1) / 2 ^ k * 2 ^ k ≤ a / 2 ^ k * 2 ^ k =
          mul-le-mul_right (2 ^ k) (omega arith) in
        omega (arith, scaled, whole)

-- A word from its four bytes, the lowest first.
abbrev pub word_of : ℕ → ℕ → ℕ → ℕ → ℕ
word_of a b c d = a + b * 2 ^ 8 + c * 2 ^ 16 + d * 2 ^ 24

-- A mask of eight ones at digit `k` cuts one byte out.
byte_mask : (k x : ℕ) → bit_and x (255 * 2 ^ k) ≡ x / 2 ^ k % 256 * 2 ^ k
byte_mask k x = ground (
  arith,
  one-le-pow k 2,
  mod-lt x (one-le-pow k 2 (omega arith)),
  div-add-mod' x (2 ^ k),
  and_high k (x / 2 ^ k) 255 (x % 2 ^ k),
  and_mod 8 (x / 2 ^ k),
)

-- The four masked parts, put together.
be2le-parts :
    (a b c d : ℕ)
    → a < 256
    → b < 256
    → c < 256
    → d < 256
    → bit_or (bit_or (bit_or (bit_or 0 (a * 2 ^ 24)) (b * 2 ^ 16)) (c * 2 ^ 8)) d ≡ word_of d c b a
be2le-parts a b c d ha hb hc hd =
    let first : bit_or 0 (a * 2 ^ 24) ≡ a * 2 ^ 24 = bit_or-bitwise 0 (a * 2 ^ 24) in
    let second : bit_or (a * 2 ^ 24) (b * 2 ^ 16) ≡ (a * 2 ^ 8 + b) * 2 ^ 16 =
      omega (arith, or_fields 24 a (b * 2 ^ 16) (omega arith)) in
    let third : bit_or ((a * 2 ^ 8 + b) * 2 ^ 16) (c * 2 ^ 8)
        ≡ (a * 2 ^ 16 + b * 2 ^ 8 + c) * 2 ^ 8 =
      omega (arith, or_fields 16 (a * 2 ^ 8 + b) (c * 2 ^ 8) (omega arith)) in
    rw (first, second, third)
      (omega (arith, or_fields 8 (a * 2 ^ 16 + b * 2 ^ 8 + c) d (omega arith)))

-- `be2le` reverses the four bytes of a word.
pub be2le_bytes :
    (a b c d : ℕ)
    → a < 256
    → b < 256
    → c < 256
    → d < 256
    → be2le (word_of a b c d) ≡ word_of d c b a
unfolding be2le
be2le_bytes a b c d ha hb hc hd =
    let x = word_of a b c d in
    let m0 : bit_and x 0xFF * 2 ^ 24 % 2 ^ 32 ≡ a * 2 ^ 24 = omega (arith, byte_mask 0 x) in
    let m1 : bit_and x 0xFF00 * 2 ^ 8 % 2 ^ 32 ≡ b * 2 ^ 16 = omega (arith, byte_mask 8 x) in
    let m2 : bit_and x 0xFF0000 / 2 ^ 8 ≡ c * 2 ^ 8 = omega (arith, byte_mask 16 x) in
    let m3 : bit_and x 0xFF000000 / 2 ^ 24 ≡ d = omega (arith, byte_mask 24 x) in
    rw (m0, m1, m2, m3) (be2le-parts a b c d ha hb hc hd)

-- Applied twice, `be2le` gives a word back.
pub be2le_twice : (x : ℕ) → x < 2 ^ 32 → be2le (be2le x) ≡ x
be2le_twice x h =
    let a = x % 256 in
    let b = x / 2 ^ 8 % 256 in
    let c = x / 2 ^ 16 % 256 in
    let d = x / 2 ^ 24 in
    let bytes : x ≡ word_of a b c d = omega arith in
    rw (bytes) (
      ap be2le (be2le_bytes a b c d (omega arith) (omega arith) (omega arith) (omega arith))
      ∙ be2le_bytes d c b a (omega arith) (omega arith) (omega arith) (omega arith))
