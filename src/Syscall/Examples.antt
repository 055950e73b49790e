-- ===== src/Syscall/Examples.antt =====
-- The theorem on src/syscall.c, applied to a line of two keys.
use osc_riscv.Base.{ℕ, ◌≡◌, [], ◌∷◌, some, arith, map}
use osc_riscv.Text.{Mem}
use osc_riscv.Text.Copy.{Outside}
use osc_riscv.Printk.{uart_puts}
use osc_riscv.Shell.{uart_getc}
use osc_riscv.Syscall.{sys_read, sys_write}
use osc_riscv.Syscall.Echo.{sys_write-sys_read}

abbrev blank : Mem
blank a = 0

sys_write-sys_read_example :
    (m' : Mem) × (sys_read 4096 2 (104 ∷ 13 ∷ 7 ∷ []) blank ≡ some (2, m', 7 ∷ []))
    × (sys_write 4096 2 m' [] ≡ (2, uart_puts (map uart_getc (104 ∷ 13 ∷ [])) []))
    × ((a : ℕ) → Outside a 4096 2 → m' a ≡ 0)
sys_write-sys_read_example = sys_write-sys_read 4096 (104 ∷ 13 ∷ []) (7 ∷ []) blank [] (omega arith)
