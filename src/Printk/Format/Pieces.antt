-- ===== src/Printk/Format/Pieces.antt =====
-- A format string as the pieces that it is meant as, and what `vprintk` makes of it.
use osc_riscv.Base.{
  ℕ, zero, suc, ◌+◌, ◌<◌, ◌%◌, ◌≡◌, ◌≢◌, refl, true, false, Option, none, some, List, [], ◌∷◌,
  length, All, arith, ==_false, widen,
}
use osc_riscv.Printk.{Output, uart_putc, printint, printptr, ◌>>=◌}
use osc_riscv.Printk.Format.{put_string, format_loop, vprintk, convert}

pub data Piece : Type 0 where
  plain : ℕ → Piece
  decimal long_decimal unsigned long_unsigned hex long_hex character text pointer : Piece

-- How a piece is written.
unfoldable pub spelled : Piece → List ℕ → List ℕ
spelled (plain c) fmt = c ∷ fmt
spelled decimal fmt = 37 ∷ 100 ∷ fmt
spelled long_decimal fmt = 37 ∷ 108 ∷ 100 ∷ fmt
spelled unsigned fmt = 37 ∷ 117 ∷ fmt
spelled long_unsigned fmt = 37 ∷ 108 ∷ 117 ∷ fmt
spelled hex fmt = 37 ∷ 120 ∷ fmt
spelled long_hex fmt = 37 ∷ 108 ∷ 120 ∷ fmt
spelled character fmt = 37 ∷ 99 ∷ fmt
spelled text fmt = 37 ∷ 115 ∷ fmt
spelled pointer fmt = 37 ∷ 112 ∷ fmt

unfoldable pub format_of : List Piece → List ℕ
unfolding spelled
format_of [] = []
format_of (p ∷ ps) = spelled p (format_of ps)

-- What a piece prints of an argument.
unfoldable pub put_arg : (ℕ → List ℕ) → Piece → ℕ → Output → Option Output
put_arg str (plain c) w out = some out
put_arg str decimal w out = printint (widen w) 10 true out
put_arg str long_decimal w out = printint w 10 true out
put_arg str unsigned w out = printint (widen w) 10 false out
put_arg str long_unsigned w out = printint w 10 false out
put_arg str hex w out = printint (widen w) 16 false out
put_arg str long_hex w out = printint w 16 false out
put_arg str character w out = some (uart_putc (w % 256) out)
put_arg str text w out = put_string str w out
put_arg str pointer w out = some (printptr w out)

-- The pieces print one after the other, each but a plain character with the next argument.
unfoldable pub put_pieces : (ℕ → List ℕ) → List Piece → List ℕ → Output → Option Output
unfolding put_arg
put_pieces str [] args out = some out
put_pieces str (plain c ∷ ps) args out = put_pieces str ps args (uart_putc c out)
put_pieces str (p ∷ ps) [] out = none
put_pieces str (p ∷ ps) (w ∷ args) out = put_arg str p w out >>= λ out'. put_pieces str ps args out'

-- A plain character is no percent sign.
abbrev pub IsPlain : Piece → Type 0
IsPlain (plain c) = c ≢ 37
IsPlain _ = Unit

module _ (str : ℕ → List ℕ) where
  -- A conversion prints its argument, and the loop goes on behind it.
  resume :
      (fuel : ℕ) (fmt args : List ℕ) (m : Option Output) (k : Output → Option Output)
      → ((out : Output) → format_loop str fuel fmt args out ≡ k out)
      → ((m >>= λ out. some (fmt, args, out)) >>= λ (fmt', args', out').
          format_loop str fuel fmt' args' out')
        ≡ (m >>= k)
  resume fuel fmt args none k h = refl
  resume fuel fmt args (some out) k h = h out

  format_loop-pieces :
      (fuel : ℕ) (ps : List Piece) (args : List ℕ) (out : Output)
      → All IsPlain ps
      → length (format_of ps) < fuel
      → format_loop str fuel (format_of ps) args out ≡ put_pieces str ps args out
  unfolding format_loop convert format_of put_pieces spelled put_arg
  format_loop-pieces zero ps args out h lt = absurd (omega arith)
  format_loop-pieces (suc fuel) [] args out h lt = refl
  format_loop-pieces (suc fuel) (plain c ∷ ps) args out h lt =
      rw (==_false c 37 h.0) (format_loop-pieces fuel ps args (uart_putc c out) h.1 (omega arith))
  format_loop-pieces (suc fuel) (decimal ∷ ps) [] out h lt = refl
  format_loop-pieces (suc fuel) (decimal ∷ ps) (w ∷ args) out h lt =
      resume fuel (format_of ps) args (put_arg str decimal w out) (put_pieces str ps args)
        (λ out'. format_loop-pieces fuel ps args out' h.1 (omega arith))
  format_loop-pieces (suc fuel) (long_decimal ∷ ps) [] out h lt = refl
  format_loop-pieces (suc fuel) (long_decimal ∷ ps) (w ∷ args) out h lt =
      resume fuel (format_of ps) args (put_arg str long_decimal w out) (put_pieces str ps args)
        (λ out'. format_loop-pieces fuel ps args out' h.1 (omega arith))
  format_loop-pieces (suc fuel) (unsigned ∷ ps) [] out h lt = refl
  format_loop-pieces (suc fuel) (unsigned ∷ ps) (w ∷ args) out h lt =
      resume fuel (format_of ps) args (put_arg str unsigned w out) (put_pieces str ps args)
        (λ out'. format_loop-pieces fuel ps args out' h.1 (omega arith))
  format_loop-pieces (suc fuel) (long_unsigned ∷ ps) [] out h lt = refl
  format_loop-pieces (suc fuel) (long_unsigned ∷ ps) (w ∷ args) out h lt =
      resume fuel (format_of ps) args (put_arg str long_unsigned w out) (put_pieces str ps args)
        (λ out'. format_loop-pieces fuel ps args out' h.1 (omega arith))
  format_loop-pieces (suc fuel) (hex ∷ ps) [] out h lt = refl
  format_loop-pieces (suc fuel) (hex ∷ ps) (w ∷ args) out h lt =
      resume fuel (format_of ps) args (put_arg str hex w out) (put_pieces str ps args)
        (λ out'. format_loop-pieces fuel ps args out' h.1 (omega arith))
  format_loop-pieces (suc fuel) (long_hex ∷ ps) [] out h lt = refl
  format_loop-pieces (suc fuel) (long_hex ∷ ps) (w ∷ args) out h lt =
      resume fuel (format_of ps) args (put_arg str long_hex w out) (put_pieces str ps args)
        (λ out'. format_loop-pieces fuel ps args out' h.1 (omega arith))
  format_loop-pieces (suc fuel) (character ∷ ps) [] out h lt = refl
  format_loop-pieces (suc fuel) (character ∷ ps) (w ∷ args) out h lt =
      resume fuel (format_of ps) args (put_arg str character w out) (put_pieces str ps args)
        (λ out'. format_loop-pieces fuel ps args out' h.1 (omega arith))
  format_loop-pieces (suc fuel) (text ∷ ps) [] out h lt = refl
  format_loop-pieces (suc fuel) (text ∷ ps) (w ∷ args) out h lt =
      resume fuel (format_of ps) args (put_arg str text w out) (put_pieces str ps args)
        (λ out'. format_loop-pieces fuel ps args out' h.1 (omega arith))
  format_loop-pieces (suc fuel) (pointer ∷ ps) [] out h lt = refl
  format_loop-pieces (suc fuel) (pointer ∷ ps) (w ∷ args) out h lt =
      resume fuel (format_of ps) args (put_arg str pointer w out) (put_pieces str ps args)
        (λ out'. format_loop-pieces fuel ps args out' h.1 (omega arith))

-- `vprintk` of the spelling of some pieces ends and prints the pieces in their order, each but the
-- plain characters with the next argument; it stops where `printint` writes outside its buffer or the
-- arguments run out.
pub vprintk-pieces :
    (str : ℕ → List ℕ) (ps : List Piece) (args : List ℕ) (out : Output)
    → All IsPlain ps
    → vprintk str (format_of ps) args out ≡ put_pieces str ps args out
unfolding vprintk
vprintk-pieces str ps args out h =
    format_loop-pieces str (length (format_of ps) + 1) ps args out h (omega arith)
