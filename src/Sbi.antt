-- ===== src/Sbi.antt =====
-- src/sbi.c: the calls of the firmware. The firmware is a function of the registers a0 to a7 and of
-- its state, and gives back a0 and a1; a call may write memory, which is part of that state.
use osc_riscv.Base.{ℕ, ◌%◌, ◌^◌, List, [], ◌∷◌, ◌==◌, not, if◌then◌else◌, widen}

-- The first register has the error, the second the value.
pub record Sbiret : Type 0 where
  pub error : ℕ
  pub value : ℕ

abbrev pub sbi_ext_putchar : ℕ
sbi_ext_putchar = 0x1

abbrev pub sbi_ext_getchar : ℕ
sbi_ext_getchar = 0x2

abbrev pub sbi_ext_base : ℕ
sbi_ext_base = 0x10

abbrev pub sbi_ext_base_probe : ℕ
sbi_ext_base_probe = 3

abbrev pub sbi_ext_time : ℕ
sbi_ext_time = 0x54494d45

abbrev pub sbi_ext_srst : ℕ
sbi_ext_srst = 0x53525354

abbrev pub sbi_ext_dbcn : ℕ
sbi_ext_dbcn = 0x4442434e

module _ {F : Type 0} (firmware : List ℕ → F → Sbiret × F) where
  -- The extension and the function are of type `int`.
  unfoldable pub sbi_ecall : (ext fid arg0 arg1 arg2 arg3 arg4 arg5 : ℕ) → F → Sbiret × F
  sbi_ecall ext fid arg0 arg1 arg2 arg3 arg4 arg5 s =
      firmware (arg0 ∷ arg1 ∷ arg2 ∷ arg3 ∷ arg4 ∷ arg5 ∷ widen fid ∷ widen ext ∷ []) s

  unfoldable pub sbi_console_putchar : (ch : ℕ) → F → F
  sbi_console_putchar ch s = (sbi_ecall sbi_ext_putchar 0 (widen ch) 0 0 0 0 0 s).1

  -- An `int`, as 32 bits.
  unfoldable pub sbi_console_getchar : F → ℕ × F
  sbi_console_getchar s =
      let (ret, s) = sbi_ecall sbi_ext_getchar 0 0 0 0 0 0 0 s in (ret.error % 2 ^ 32, s)

  unfoldable pub sbi_probe_extension : (extid : ℕ) → F → ℕ × F
  sbi_probe_extension extid s =
      let (ret, s) = sbi_ecall sbi_ext_base sbi_ext_base_probe (widen extid) 0 0 0 0 0 s in
      (if ret.error == 0 then if not (ret.value == 0) then ret.value % 2 ^ 32 else 0 else 0, s)

  unfoldable pub sbi_set_timer : (stime_value : ℕ) → F → Sbiret × F
  sbi_set_timer stime_value s = sbi_ecall sbi_ext_time 0 stime_value 0 0 0 0 0 s

  unfoldable pub sbi_system_reset : (type reason : ℕ) → F → Sbiret × F
  sbi_system_reset type reason s = sbi_ecall sbi_ext_srst 0 type reason 0 0 0 0 s

  -- `ret.error ? ret.error : ret.value`, as an `int`.
  unfoldable pub error_or_value : Sbiret → ℕ
  error_or_value ret = (if not (ret.error == 0) then ret.error else ret.value) % 2 ^ 32

  unfoldable pub sbi_debug_console_write : (bytes size : ℕ) → F → ℕ × F
  sbi_debug_console_write bytes size s =
      let (ret, s) = sbi_ecall sbi_ext_dbcn 0 size bytes 0 0 0 0 s in (error_or_value ret, s)

  unfoldable pub sbi_debug_console_read : (bytes size : ℕ) → F → ℕ × F
  sbi_debug_console_read bytes size s =
      let (ret, s) = sbi_ecall sbi_ext_dbcn 1 size bytes 0 0 0 0 s in (error_or_value ret, s)
