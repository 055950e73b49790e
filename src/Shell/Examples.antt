-- ===== src/Shell/Examples.antt =====
-- The theorems on src/shell.c, applied to a short line.
use osc_riscv.Base.{ℕ, ◌≡◌, refl, [], ◌∷◌, List, some, true, inr, arith}
use osc_riscv.Text.{Mem, CString}
use osc_riscv.Shell.{Editor, read_user_input}
use osc_riscv.Shell.Line.{typed, fits, read_user_input-typed, read_user_input-Outside}

-- "lx", a delete, "s", a carriage return, and a key of the next line.
abbrev keys : List ℕ
keys = 108 ∷ 120 ∷ 127 ∷ 115 ∷ 13 ∷ 99 ∷ []

abbrev blank : Mem
blank a = 0

keys-typed : typed [] keys ≡ some (108 ∷ 115 ∷ [], 99 ∷ [])
unfolding typed
keys-typed = refl

keys_fit : fits 256 [] keys ≡ true
unfolding fits
keys_fit = refl

abbrev edited : Editor
edited = (read_user_input-typed 4096 keys blank [] (108 ∷ 115 ∷ []) (99 ∷ []) keys-typed).0

edited_lem : read_user_input 4096 keys blank [] ≡ some (edited, 99 ∷ [])
edited_lem = (read_user_input-typed 4096 keys blank [] (108 ∷ 115 ∷ []) (99 ∷ []) keys-typed).1

read_user_input-typed_example :
    (s' : Editor) × (read_user_input 4096 keys blank [] ≡ some (s', 99 ∷ []))
    × CString s'.mem 4096 (108 ∷ 115 ∷ [])
read_user_input-typed_example =
    read_user_input-typed 4096 keys blank [] (108 ∷ 115 ∷ []) (99 ∷ []) keys-typed

read_user_input-Outside_example : edited.mem 4352 ≡ 0
read_user_input-Outside_example =
    read_user_input-Outside 4096 keys blank [] edited (99 ∷ []) keys_fit edited_lem 4352
      (inr (omega arith))
