-- ===== src/Printk/Examples.antt =====
-- The theorems on src/printk.c, applied to a number.
use osc_riscv.Base.{
  ◌⊎◌, refl, ℕ, ◌≡◌, false, [], ◌∷◌, ◌++◌, List, some, none, ◌^◌, ◌-◌, true, ◌<◌, ◌≤◌, arith,
}
use osc_riscv.Printk.{printint, digit_loop, put_all, uart_putc}
use osc_riscv.Printk.Format.{vprintk}
use osc_riscv.Printk.Format.Pieces.{decimal, plain, text, format_of, put_pieces, vprintk-pieces}
use osc_riscv.Printk.Number.{value, printint-unsigned}

printint-unsigned_example :
    ((1234 < 10 ^ 16)
      × ((buf : List ℕ) × (printint 1234 10 false (36 ∷ []) ≡ some (36 ∷ [] ++ buf))
          × (value 10 0 buf ≡ 1234)))
    ⊎ ((10 ^ 16 ≤ 1234) × (printint 1234 10 false (36 ∷ []) ≡ none))
printint-unsigned_example =
    printint-unsigned 10 1234 (36 ∷ []) (omega arith) (omega arith) (omega arith)

printint_negative : printint (2 ^ 64 - 57) 10 true [] ≡ some (45 ∷ 53 ∷ 55 ∷ [])
unfolding printint digit_loop put_all uart_putc
printint_negative = refl

-- "%d:%s\n"
vprintk-pieces_example :
    vprintk
      (λ p. 104 ∷ 105 ∷ [])
      (format_of (decimal ∷ plain 58 ∷ text ∷ plain 10 ∷ []))
      (7 ∷ 4096 ∷ [])
      []
    ≡ put_pieces
        (λ p. 104 ∷ 105 ∷ [])
        (decimal ∷ plain 58 ∷ text ∷ plain 10 ∷ [])
        (7 ∷ 4096 ∷ [])
        []
vprintk-pieces_example =
    vprintk-pieces (λ p. 104 ∷ 105 ∷ []) (decimal ∷ plain 58 ∷ text ∷ plain 10 ∷ []) (7 ∷ 4096 ∷ [])
      [] (tt, (λ e. ground arith, (tt, (λ e. ground arith, tt))))
