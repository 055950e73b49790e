-- ===== src/Printk.antt =====
-- src/printk.c and the output of src/uart.c. A word is its bit pattern; the output is the list of the
-- bytes that are written to the transmitter, each after the device has reported that it is ready.
mod Examples
pub mod Format
pub mod Number
use osc_riscv.Base.{
  ℕ, zero, suc, ◌+◌, ◌-◌, ◌*◌, ◌/◌, ◌%◌, ◌^◌, Bool, Option, none, some, ◌==◌, ◌&&◌, ltb, leb,
  if◌then◌else◌, List, [], ◌∷◌, ◌++◌, length,
}

abbrev pub Output : Type 0
Output = List ℕ

-- A line feed goes out behind a carriage return.
unfoldable pub uart_putc : ℕ → Output → Output
uart_putc c out = if c == 10 then out ++ 13 ∷ 10 ∷ [] else out ++ c ∷ []

unfoldable pub uart_puts : List ℕ → Output → Output
unfolding uart_putc
uart_puts [] out = out
uart_puts (c ∷ s) out = uart_puts s (uart_putc c out)

-- `digits[n]` for `n` below 16.
abbrev pub digit : ℕ → ℕ
digit n = if ltb n 10 then n + 48 else n + 87

-- The rounds of `uart_hex`, from the digit `n - 1` down.
hex_loop : ℕ → ℕ → Output → Output
unfolding uart_putc
hex_loop zero h out = out
hex_loop (suc n) h out =
    let d = h / 2 ^ (4 * n) % 16 in
    hex_loop n h (uart_putc (if ltb 9 d then d + 0x37 else d + 48) out)

unfoldable pub uart_hex : ℕ → Output → Output
unfolding hex_loop uart_puts
uart_hex h out = hex_loop 8 h (uart_puts (48 ∷ 120 ∷ []) out)

abbrev pub buf_size : ℕ
buf_size = 16

-- `buf[i++] = c`, where the bytes written so far are kept with the last in front: `none` is a write
-- behind the end of the array.
abbrev pub store : ℕ → List ℕ → Option (List ℕ)
store c buf = if ltb (length buf) buf_size then some (c ∷ buf) else none

infixl 5 ◌>>=◌
abbrev pub ◌>>=◌ : {A B : Type 0} → Option A → (A → Option B) → Option B
none >>= k = none
some a >>= k = k a

-- The `do … while` loop; it makes at most 64 rounds, one for each bit.
unfoldable pub digit_loop : ℕ → (x base : ℕ) → List ℕ → Option (List ℕ)
digit_loop zero x base buf = none
digit_loop (suc fuel) x base buf = store (digit (x % base)) buf >>= λ buf'.
    let rest = digit_loop fuel (x / base) base buf' in if x / base == 0 then some buf' else rest

-- `while (--i >= 0) uart_putc(buf[i]);`: the bytes go out from the last.
unfoldable pub put_all : List ℕ → Output → Output
unfolding uart_putc
put_all [] out = out
put_all (c ∷ buf) out = put_all buf (uart_putc c out)

-- `xx` is a `long long` by its pattern; `none` is a write outside `buf`.
unfoldable pub printint : (xx base : ℕ) → (sign : Bool) → Output → Option Output
unfolding digit_loop put_all
printint xx base sign out =
    let negative = sign && leb (2 ^ 63) xx in
    let x = if negative then (2 ^ 64 - xx) % 2 ^ 64 else xx in
    digit_loop 64 x base [] >>= λ buf.
    (if negative then store 45 buf else some buf) >>= λ buf. some (put_all buf out)

-- The rounds of `printptr`, with `n` of them left.
ptr_loop : ℕ → ℕ → Output → Output
unfolding uart_putc
ptr_loop zero x out = out
ptr_loop (suc n) x out = ptr_loop n (x * 2 ^ 4 % 2 ^ 64) (uart_putc (digit (x / 2 ^ 60)) out)

unfoldable pub printptr : ℕ → Output → Output
unfolding ptr_loop uart_puts
printptr x out = ptr_loop 16 x (uart_puts (48 ∷ 120 ∷ []) out)
