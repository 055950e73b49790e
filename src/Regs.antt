-- ===== src/Regs.antt =====
-- `struct pt_regs` of include/traps.h, the registers that a trap saves: the member at byte `8 * i` of
-- the structure is `r i`. The names are the indices of the members that the modelled code uses, as
-- include/asm.h gives their offsets.
use osc_riscv.Base.{ℕ}

abbrev pub PtRegs : Type 0
PtRegs = ℕ → ℕ

abbrev pub epc : ℕ
epc = 0

abbrev pub ra : ℕ
ra = 1

abbrev pub sp : ℕ
sp = 2

abbrev pub a0 : ℕ
a0 = 10

abbrev pub a1 : ℕ
a1 = 11

abbrev pub a7 : ℕ
a7 = 17

abbrev pub status : ℕ
status = 32

abbrev pub badaddr : ℕ
badaddr = 33

abbrev pub cause : ℕ
cause = 34

-- The number of 64-bit members.
abbrev pub pt_regs_words : ℕ
pt_regs_words = 36
