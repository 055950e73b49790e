-- ===== src/Utils/Examples.antt =====
-- The theorems on src/utils.c, applied to some numbers.
use osc_riscv.Base.{ℕ, ◌≡◌, ◌^◌, ◌≤◌, ◌%◌, ◌==◌, if◌then◌else◌, arith}
use osc_riscv.Utils.{align, hextoi}
use osc_riscv.Utils.Laws.{align-least}
use osc_riscv.Utils.Hex.{hextoi-to_hex}

align-least_example :
    (align 4097 (2 ^ 12) % 2 ^ 12 ≡ 0)
    × (4097 ≤ align 4097 (2 ^ 12))
    × ((a : ℕ) → a % 2 ^ 12 ≡ 0 → 4097 ≤ a → align 4097 (2 ^ 12) ≤ a)
align-least_example = align-least 12 20 4097 (omega arith) (omega arith)

-- "1F" at the address 5.
abbrev text : ℕ → ℕ
text a = if a == 5 then 49 else 70

hextoi-to_hex_example : hextoi text 5 2 ≡ 31
hextoi-to_hex_example = hextoi-to_hex text 5 2 31 (omega arith) (ground arith)
