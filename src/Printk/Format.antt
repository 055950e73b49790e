-- ===== src/Printk/Format.antt =====
-- `vprintk` of src/printk.c: the loop over the format string, given as its bytes without the zero.
-- The arguments are the words that `va_arg` takes, and `str` gives the string at an address.
pub mod Pieces
use osc_riscv.Base.{
  ℕ, zero, suc, ◌+◌, ◌-◌, ◌%◌, ◌^◌, Bool, true, false, Option, none, some, ◌==◌, ◌&&◌, ltb,
  if◌then◌else◌, List, [], ◌∷◌, length, widen,
}
use osc_riscv.Printk.{Output, uart_putc, uart_puts, printint, printptr, ◌>>=◌}

-- `!memcmp(fmt, s, n)` for the `n` bytes of a literal: no byte of it is zero.
abbrev pub starts : List ℕ → List ℕ → Bool
starts fmt [] = true
starts [] (c ∷ s) = false
starts (a ∷ fmt) (c ∷ s) = a == c && starts fmt s

abbrev pub drop : ℕ → List ℕ → List ℕ
drop zero fmt = fmt
drop (suc n) [] = []
drop (suc n) (c ∷ fmt) = drop n fmt

-- What the loop goes on with: the format, the arguments, the output.
abbrev pub Going : Type 0
Going = List ℕ × List ℕ × Output

-- A conversion that takes one argument; there is none left where the result is `none`.
abbrev pub take_arg : (ℕ → Output → Option Output) → List ℕ → List ℕ → Output → Option Going
take_arg put fmt [] out = none
take_arg put fmt (w ∷ args) out = put w out >>= λ out'. some (fmt, args, out')

abbrev pub null_text : List ℕ
null_text = 40 ∷ 110 ∷ 117 ∷ 108 ∷ 108 ∷ 41 ∷ []

module _ (str : ℕ → List ℕ) where
  abbrev pub put_string : ℕ → Output → Option Output
  put_string p out = some (uart_puts (if p == 0 then null_text else str p) out)

  -- What follows a `%`. `printint` returns `none` where it writes outside its buffer.
  unfoldable pub convert : List ℕ → List ℕ → Output → Option Going
  convert fmt args out =
      if starts fmt (100 ∷ [])
      then take_arg (λ w. printint (widen w) 10 true) (drop 1 fmt) args out
      else if starts fmt (108 ∷ 100 ∷ [])
      then take_arg (λ w. printint w 10 true) (drop 2 fmt) args out
      else if starts fmt (117 ∷ [])
      then take_arg (λ w. printint (widen w) 10 false) (drop 1 fmt) args out
      else if starts fmt (108 ∷ 117 ∷ [])
      then take_arg (λ w. printint w 10 false) (drop 2 fmt) args out
      else if starts fmt (120 ∷ [])
      then take_arg (λ w. printint (widen w) 16 false) (drop 1 fmt) args out
      else if starts fmt (108 ∷ 120 ∷ [])
      then take_arg (λ w. printint w 16 false) (drop 2 fmt) args out
      else if starts fmt (99 ∷ [])
      then take_arg (λ w out. some (uart_putc (w % 256) out)) (drop 1 fmt) args out
      else if starts fmt (115 ∷ [])
      then take_arg put_string (drop 1 fmt) args out
      else if starts fmt (112 ∷ [])
      then take_arg (λ w out. some (printptr w out)) (drop 1 fmt) args out
      else if starts fmt (37 ∷ [])
      then some (fmt, args, uart_putc 37 out)
      else some (fmt, args, out)

  -- A round reads one character at least, so that the format's length is enough fuel.
  unfoldable pub format_loop : ℕ → List ℕ → List ℕ → Output → Option Output
  unfolding convert
  format_loop zero fmt args out = none
  format_loop (suc fuel) [] args out = some out
  format_loop (suc fuel) (c ∷ fmt) args out =
      let plain = some (fmt, args, uart_putc c out) in
      (if c == 37 then convert fmt args out else plain) >>= λ (fmt', args', out').
      format_loop fuel fmt' args' out'

  unfoldable pub vprintk : List ℕ → List ℕ → Output → Option Output
  unfolding format_loop
  vprintk fmt args out = format_loop (length fmt + 1) fmt args out
