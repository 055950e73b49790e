-- ===== src/Utils.antt =====
-- src/utils.c. An `int` or `u32` is its bit pattern, a number below 2 ^ 32.
mod Examples
pub mod Hex
pub mod Laws
use Prim.Native.Nat.{bit_and, bit_or}
use osc_riscv.Base.{ℕ, zero, suc, ◌+◌, ◌-◌, ◌*◌, ◌/◌, ◌%◌, ◌^◌, leb, if◌then◌else◌}

-- One digit: `*s - 'A' + 10` or `*s - '0'`, added with the wrap-around of the width. The second test
-- of the source, `*s >= 0`, holds of every `char`.
hex_digit : ℕ → ℕ → ℕ
hex_digit r c =
    if leb b'A' c
    then (r + (c + 2 ^ 32 - b'A' + 10)) % 2 ^ 32
    else (r + (c + 2 ^ 32 - b'0')) % 2 ^ 32

hextoi_loop : (m : ℕ → ℕ) → (s n r : ℕ) → ℕ
unfolding hex_digit
hextoi_loop m s zero r = r
hextoi_loop m s (suc n) r = hextoi_loop m (s + 1) n (hex_digit (r * 2 ^ 4 % 2 ^ 32) (m s))

-- `hextoi` of the `n` characters that the memory holds at `s`.
unfoldable pub hextoi : (m : ℕ → ℕ) → (s n : ℕ) → ℕ
unfolding hextoi_loop
hextoi m s n = hextoi_loop m s n 0

-- `~x` in 32 bits.
abbrev pub not32 : ℕ → ℕ
not32 x = 2 ^ 32 - 1 - x % 2 ^ 32

-- The sum wraps around, where the addition of two `int`s that crosses 2 ^ 31 is undefined in C.
unfoldable pub align : (n byte : ℕ) → ℕ
align n byte = bit_and ((n + byte + 2 ^ 32 - 1) % 2 ^ 32) (not32 ((byte + 2 ^ 32 - 1) % 2 ^ 32))

unfoldable pub be2le : ℕ → ℕ
be2le input =
    let result : ℕ = 0 in
    let result = bit_or result (bit_and input 0xFF * 2 ^ 24 % 2 ^ 32) in
    let result = bit_or result (bit_and input 0xFF00 * 2 ^ 8 % 2 ^ 32) in
    let result = bit_or result (bit_and input 0xFF0000 / 2 ^ 8) in
    bit_or result (bit_and input 0xFF000000 / 2 ^ 24)
