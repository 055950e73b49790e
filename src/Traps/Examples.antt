-- ===== src/Traps/Examples.antt =====
-- The theorem on src/traps.c, applied to a process that writes two characters.
use osc_riscv.Base.{
  ℕ, ◌+◌, ◌%◌, ◌^◌, ◌≡◌, ◌≢◌, ◌==◌, ◌<◌, refl, [], ◌∷◌, some, arith, if◌then◌else◌,
}
use osc_riscv.Regs
use osc_riscv.Regs.{PtRegs}
use osc_riscv.Printk.{uart_puts}
use osc_riscv.Mm.Examples.{layout}
use osc_riscv.Syscall.Fork.Examples.{before, fresh}
use osc_riscv.Traps.{Env, TrapState, returned, do_traps}
use osc_riscv.Traps.Call.{do_traps-sys_write}

abbrev env : Env
env = record {
  layout = layout;
  pages = λ i. 0;
  vmas = λ i. 20 + i;
  fuel = 2;
  range_fuel = 2;
  runqueue = 50;
  pg_dir = 0;
  ret_from_exception = 4096;
  fresh = fresh;
  regs_at = 0;
  sigreturn = 0;
}

-- `write("hi", 2)` at 4096.
abbrev regs : PtRegs
regs i =
    if i == Regs.cause
    then 8
    else if i == Regs.a7
    then 2
    else if i == Regs.a0
    then 4096
    else if i == Regs.a1
    then 2
    else 100

abbrev system : TrapState
system = record {
  machine = before;
  user = λ a. if a == 4096 then 104 else if a == 4097 then 105 else 0;
  keys = [];
  out = [];
}

plain : (a : ℕ) → system.user a < 2 ^ 8
plain a = ground arith

do_traps-sys_write_example :
    (regs' : PtRegs) × (s' : TrapState) × (do_traps env regs system ≡ some (returned regs' s'))
    × (regs' Regs.epc ≡ (100 + 4) % 2 ^ 64)
    × (regs' Regs.a0 ≡ 2)
    × ((i : ℕ) → i ≢ Regs.epc → i ≢ Regs.a0 → regs' i ≡ regs i)
    × (s'.out ≡ uart_puts (104 ∷ 105 ∷ []) [])
    × ((a : ℕ) → s'.user a ≡ system.user a)
    × (s'.machine.kernel ≡ before.kernel)
do_traps-sys_write_example =
    do_traps-sys_write env regs system (104 ∷ 105 ∷ []) refl refl refl (omega arith)
      (refl, (refl, tt)) refl plain
