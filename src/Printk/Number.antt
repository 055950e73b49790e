-- ===== src/Printk/Number.antt =====
-- The numbers that `printint` of src/printk.c prints.
use osc_riscv.Base.{
  ℕ, zero, suc, ◌+◌, ◌-◌, ◌*◌, ◌/◌, ◌%◌, ◌^◌, ◌<◌, ◌≤◌, ◌≡◌, ◌≢◌, refl, ap, sym, ◌∙◌, true, false,
  Option, none, some, ◌==◌, ltb, if◌then◌else◌, List, [], ◌∷◌, ◌++◌, length, arith, Bool-cases, ◌⊎◌,
  inl, inr, All, ==_false, eq_of_==, ne_of_==,
}
use native.Mathlib.Nat.{
  pow-zero, pow-suc, mul_comm, div-lt_iff_lt-mul, div-add-mod', mod-lt, mul-le-mul_right,
  one-le-pow,
}
use mathlib.Core.List.{append_assoc, append-nil}
use osc_riscv.Printk.{digit, digit_loop, buf_size, printint, put_all, uart_putc, Output}

-- The value of a character.
abbrev pub digit_value : ℕ → ℕ
digit_value c = if ltb c 58 then c - 48 else c - 87

-- The value of some characters behind a number that has been read, the most significant first.
unfoldable pub value : (base acc : ℕ) → List ℕ → ℕ
value base acc [] = acc
value base acc (c ∷ cs) = value base (acc * base + digit_value c) cs

digit-value : (d : ℕ) → d < 16 → (digit_value (digit d) ≡ d) × (digit d ≢ 10)
digit-value d h = (ground arith, λ e. ground arith)

-- What a round leaves of a number and of the fuel.
div_step : (base x n : ℕ) → 1 ≤ base → x < base ^ suc n → x / base < base ^ n
div_step base x n h lt =
    (div-lt_iff_lt-mul h).1 (omega (arith, pow-suc base n, mul_comm base (base ^ n)))

div_fuel : (base x f : ℕ) → 2 ≤ base → x < 2 ^ suc f → x / base < 2 ^ f
div_fuel base x f h lt =
    (div-lt_iff_lt-mul (omega (arith, h))).1
      (omega (arith, pow-suc 2 f, mul-le-mul_right (2 ^ f) h, mul_comm base (2 ^ f)))

div_large : (base x n : ℕ) → 1 ≤ base → base ^ suc n ≤ x → base ^ n ≤ x / base
div_large base x n h le = elim (Bool-cases (ltb (x / base) (base ^ n))) [
  | inl e ↦
      let small : x < base ^ n * base = (div-lt_iff_lt-mul h).0 (ground arith) in
      absurd (omega (arith, pow-suc base n, small))
  | inr e ↦ ground arith
]

-- The bytes that the loop leaves: they print as they are, and read as a number.
abbrev pub Printed : (base v : ℕ) (buf : List ℕ) → Option (List ℕ) → Type 0
Printed base v buf r =
    (buf' : List ℕ) × (r ≡ some buf')
    × (value base 0 buf' ≡ value base v buf)
    × All (λ c. c ≢ 10) buf'

module _ (base : ℕ) (two : 2 ≤ base) (sixteen : base ≤ 16) where
  this_digit : (x : ℕ) → (digit_value (digit (x % base)) ≡ x % base) × (digit (x % base) ≢ 10)
  this_digit x =
      let below : x % base < base = mod-lt x (omega (arith, two)) in
      digit-value (x % base) (omega (arith, below, sixteen))

  digit_loop_step :
      (fuel x : ℕ) (buf : List ℕ)
      → length buf < buf_size
      → All (λ c. c ≢ 10) buf
      → (x / base ≢ 0
          → Printed base
              (x / base)
              (digit (x % base) ∷ buf)
              (digit_loop fuel (x / base) base (digit (x % base) ∷ buf)))
      → Printed base x buf (digit_loop (suc fuel) x base buf)
  unfolding digit_loop value
  digit_loop_step fuel x buf room plain rest =
      let mine = this_digit x in
      let whole : x / base * base + x % base ≡ x = div-add-mod' x base in
      let fits : ltb (length buf) buf_size ≡ true = ground arith in
      let read : value base (x / base) (digit (x % base) ∷ buf) ≡ value base x buf =
        ap (λ v. value base v buf) (rw mine.0 whole) in
      elim (Bool-cases (x / base == 0)) [
        | inl e ↦
            let last : x / base ≡ 0 = eq_of_== (x / base) 0 e in
            rw (fits, e) (digit (x % base) ∷ buf, refl, rw last at read, (mine.1, plain))
        | inr e ↦
            let (buf', done, num, plain') = rest (ne_of_== (x / base) 0 e) in
            rw (fits, e) (buf', done, num ∙ read, plain')
      ]

  -- The digits of the numbers below `base ^ n` fit the `n` bytes that are left of the buffer …
  digit_loop-value :
      (fuel x : ℕ) (buf : List ℕ) (n : ℕ)
      → x < 2 ^ suc fuel
      → length buf + suc n ≡ buf_size
      → x < base ^ suc n
      → All (λ c. c ≢ 10) buf
      → Printed base x buf (digit_loop (suc fuel) x base buf)
  digit_loop-value zero x buf n f room small plain =
      digit_loop_step zero x buf (omega (arith, room)) plain
        (λ more. absurd (more (omega (arith, div_fuel base x 0 two f))))
  digit_loop-value (suc fuel) x buf zero f room small plain =
      digit_loop_step (suc fuel) x buf (omega (arith, room)) plain (λ more.
        absurd (more (omega (arith, pow-zero base, div_step base x 0 (omega (arith, two)) small))))
  digit_loop-value (suc fuel) x buf (suc n) f room small plain =
      digit_loop_step (suc fuel) x buf (omega (arith, room)) plain (λ more.
        digit_loop-value fuel (x / base) (digit (x % base) ∷ buf) n
          (div_fuel base x (suc fuel) two f) (omega (arith, room))
          (div_step base x (suc n) (omega (arith, two)) small) ((this_digit x).1, plain))

  -- … and the others do not.
  digit_loop-overflow :
      (fuel x : ℕ) (buf : List ℕ) (n : ℕ)
      → x < 2 ^ fuel
      → length buf + n ≡ buf_size
      → base ^ n ≤ x
      → digit_loop fuel x base buf ≡ none
  unfolding digit_loop
  digit_loop-overflow zero x buf n f room large =
      absurd (omega (arith, one-le-pow n base (omega (arith, two))))
  digit_loop-overflow (suc fuel) x buf zero f room large =
      let full : ltb (length buf) buf_size ≡ false = ground arith in rw full refl
  digit_loop-overflow (suc fuel) x buf (suc n) f room large =
      let fits : ltb (length buf) buf_size ≡ true = ground arith in
      let left = div_large base x n (omega (arith, two)) large in
      let more : (x / base == 0) ≡ false =
        ==_false (x / base) 0
          (λ e. absurd (omega (arith, e, left, one-le-pow n base (omega (arith, two))))) in
      rw (fits, more)
        (digit_loop-overflow fuel (x / base) (digit (x % base) ∷ buf) n (div_fuel base x fuel two f)
          (omega (arith, room)) left)

put_all-append : (buf out : Output) → All (λ c. c ≢ 10) buf → put_all buf out ≡ out ++ buf
unfolding put_all uart_putc
put_all-append [] out plain = sym (append-nil out)
put_all-append (c ∷ buf) out plain =
    rw (==_false c 10 plain.0)
      (put_all-append buf (out ++ c ∷ []) plain.1 ∙ append_assoc out (c ∷ []) buf)

-- Without a sign, `printint` in a base from 2 to 16 prints the digits of a number that has at most 16
-- of them in the base; for every larger number it writes behind the end of its buffer.
pub printint-unsigned :
    (base x : ℕ) (out : Output)
    → 2 ≤ base
    → base ≤ 16
    → x < 2 ^ 64
    → ((x < base ^ 16)
        × ((buf : List ℕ) × (printint x base false out ≡ some (out ++ buf))
            × (value base 0 buf ≡ x)))
      ⊎ ((base ^ 16 ≤ x) × (printint x base false out ≡ none))
unfolding printint value
printint-unsigned base x out two sixteen word = elim (Bool-cases (ltb x (base ^ 16))) [
  | inl e ↦
      let small : x < base ^ 16 = ground arith in
      let (buf, done, num, plain) =
        digit_loop-value base two sixteen 63 x [] 15 word refl small tt in
      inl (small, (buf, rw done (ap some (put_all-append buf out plain)), num))
  | inr e ↦
      let large : base ^ 16 ≤ x = ground arith in
      inr (large, rw (digit_loop-overflow base two sixteen 64 x [] 16 word refl large) refl)
]
