-- ===== src/Shell.antt =====
-- src/shell.c: the line editor. The bytes that the UART receives are given as a list; a `char` is
-- unsigned on RISC-V.
pub mod Line
mod Examples
use osc_riscv.Base.{
  ℕ, zero, suc, ◌+◌, ◌-◌, Option, none, some, leb, ltb, ◌==◌, ◌&&◌, if◌then◌else◌, List, [], ◌∷◌,
  update,
}
use osc_riscv.Text.{Ptr, Mem}
use osc_riscv.Printk.{Output, uart_putc}

abbrev pub shell_buf_size : ℕ
shell_buf_size = 256

-- `uart_getc` of the byte in the receive register.
unfoldable pub uart_getc : ℕ → ℕ
uart_getc c = if c == 13 then 10 else c

-- The local `idx` of `read_user_input`, the memory and the output.
pub record Editor : Type 0 where
  pub idx : ℕ
  pub mem : Mem
  pub out : Output

-- What a key does that does not end the line. A backspace clears the byte behind the last character.
unfoldable pub edit_key : (buf : Ptr) → (c : ℕ) → Editor → Editor
edit_key buf c s =
    if leb 32 c && leb c 126
    then record { idx = s.idx + 1; mem = update s.mem (buf + s.idx) c; out = uart_putc c s.out }
    else if c == 127 && ltb 0 s.idx
    then record {
      idx = s.idx - 1;
      mem = update s.mem (buf + s.idx) 0;
      out = uart_putc 8 (uart_putc 32 (uart_putc 8 s.out));
    }
    else s

-- The loop, with the bytes that are still to come behind the line; `none` waits for more of them.
unfoldable pub read_loop : (buf : Ptr) → List ℕ → Editor → Option (Editor × List ℕ)
unfolding uart_getc edit_key
read_loop buf [] s = none
read_loop buf (k ∷ keys) s =
    let c = uart_getc k in
    let rest = read_loop buf keys (edit_key buf c s) in
    if c == 10
    then some (record s { mem = update s.mem (buf + s.idx) 0; out = uart_putc c s.out }, keys)
    else rest

unfoldable pub read_user_input : (buf : Ptr) → List ℕ → Mem → Output → Option (Editor × List ℕ)
unfolding read_loop
read_user_input buf keys m out = read_loop buf keys (record { idx = 0; mem = m; out = out })
