-- ===== src/Utils/Hex.antt =====
-- `hextoi` of src/utils.c reads what a hexadecimal printer writes.
use osc_riscv.Base.{
  ℕ, zero, suc, ◌+◌, ◌*◌, ◌/◌, ◌%◌, ◌^◌, ◌<◌, ◌≡◌, refl, ap, ◌∙◌, List, [], ◌∷◌, ◌++◌, arith, ltb,
  if◌then◌else◌, length, length-append,
}
use native.Mathlib.Nat.{pow-suc}
use osc_riscv.Utils.{hex_digit, hextoi_loop, hextoi}

-- The character of a digit: `0` to `9`, then `A` to `F`.
abbrev pub hex_char : ℕ → ℕ
hex_char d = if ltb d 10 then d + b'0' else d + 55

-- The memory holds the characters of these digits at `s`.
abbrev pub HexAt : (m : ℕ → ℕ) → ℕ → List ℕ → Type 0
HexAt m s [] = Unit
HexAt m s (d ∷ ds) = (m s ≡ hex_char d) × (d < 16) × HexAt m (s + 1) ds

-- The `n` lowest hexadecimal digits of a number, the highest of them first.
abbrev pub to_hex : ℕ → ℕ → List ℕ
to_hex zero v = []
to_hex (suc n) v = to_hex n (v / 16) ++ v % 16 ∷ []

of_hex : ℕ → List ℕ → ℕ
of_hex r [] = r
of_hex r (d ∷ ds) = of_hex (r * 16 + d) ds

hex_digit_lem :
    (r d : ℕ)
    → d < 16
    → hex_digit (r % 2 ^ 32 * 2 ^ 4 % 2 ^ 32) (hex_char d) ≡ (r * 16 + d) % 2 ^ 32
unfolding hex_digit
hex_digit_lem r d h = ground arith

hextoi_loop-of_hex :
    (m : ℕ → ℕ) (ds : List ℕ) (s r : ℕ)
    → HexAt m s ds
    → hextoi_loop m s (length ds) (r % 2 ^ 32) ≡ of_hex r ds % 2 ^ 32
unfolding hextoi_loop of_hex
hextoi_loop-of_hex m [] s r h = refl
hextoi_loop-of_hex m (d ∷ ds) s r h =
    let first : hex_digit (r % 2 ^ 32 * 2 ^ 4 % 2 ^ 32) (m s) ≡ (r * 16 + d) % 2 ^ 32 =
      rw h.0 (hex_digit_lem r d h.1) in
    ap (hextoi_loop m (s + 1) (length ds)) first ∙ hextoi_loop-of_hex m ds (s + 1) (r * 16 + d) h.2

of_hex-append : (ds : List ℕ) (r d : ℕ) → of_hex r (ds ++ d ∷ []) ≡ of_hex r ds * 16 + d
unfolding of_hex
of_hex-append [] r d = refl
of_hex-append (x ∷ ds) r d = of_hex-append ds (r * 16 + x) d

of_hex-to_hex : (n v : ℕ) → v < 16 ^ n → of_hex 0 (to_hex n v) ≡ v
unfolding of_hex
of_hex-to_hex zero v h = omega arith
of_hex-to_hex (suc n) v h = omega (
  arith,
  of_hex-append (to_hex n (v / 16)) 0 (v % 16),
  of_hex-to_hex n (v / 16) (omega (arith, pow-suc 16 n)),
)

length-to_hex : (n v : ℕ) → length (to_hex n v) ≡ n
length-to_hex zero v = refl
length-to_hex (suc n) v =
    omega (arith, length-append (to_hex n (v / 16)) (v % 16 ∷ []), length-to_hex n (v / 16))

-- `hextoi` gives back every number of up to `n` hexadecimal digits, modulo the word, from its `n`
-- digits in capitals.
pub hextoi-to_hex :
    (m : ℕ → ℕ) (s n v : ℕ) → v < 16 ^ n → HexAt m s (to_hex n v) → hextoi m s n ≡ v % 2 ^ 32
unfolding hextoi
hextoi-to_hex m s n v h at =
    rw (← length-to_hex n v)
      (hextoi_loop-of_hex m (to_hex n v) s 0 at ∙ ap (λ (t : ℕ). t % 2 ^ 32) (of_hex-to_hex n v h))
