-- ===== src/Text/Examples.antt =====
-- The theorems on src/string.c, applied to two strings in a small memory.
use osc_riscv.Base.{ℕ, ◌≡◌, [], ◌∷◌, arith, List, inr, if◌then◌else◌, ◌==◌}
use osc_riscv.Text.{Mem, CString, memcpy, strncpy}
use osc_riscv.Text.Copy.{strncpy-memcpy}

-- "ab" at the addresses 10 and 20.
abbrev text : Mem
text a =
    if a == 10
    then 97
    else if a == 11
    then 98
    else if a == 20
    then 97
    else if a == 21
    then 98
    else 0

abbrev ab : List ℕ
ab = 97 ∷ 98 ∷ []

text_10 : CString text 10 ab
text_10 = ground arith

text_20 : CString text 20 ab
text_20 = ground arith

strncpy-memcpy_example :
    ((strncpy 30 10 9 text).0 ≡ 33) × ((strncpy 30 10 9 text).1 ≡ (memcpy 30 10 3 text).1)
strncpy-memcpy_example = strncpy-memcpy 9 30 10 text ab text_10 (inr (omega arith))
