-- ===== src/Text/Tokens.antt =====
-- `strchr` and `strtok` of src/string.c on strings without the characters looked for.
use osc_riscv.Base.{
  ℕ, zero, suc, ◌+◌, ◌<◌, ◌≡◌, ◌≢◌, ◌∉◌, refl, some, false, true, List, [], ◌∷◌, length, All, arith,
  ◌==◌, ==_false,
}
use native.Mathlib.Nat.{add-zero, mod-eq_of_lt}
use osc_riscv.Text.{
  Ptr, Mem, CString, null, Tok, strchr, strchr_loop, strtok, strtok_scan, strtok_at, strtok_cut,
}

module _ (m : Mem) where
  strchr_loop-null :
      (fuel s ch : ℕ) (xs : List ℕ)
      → CString m s xs
      → ch ≢ 0
      → ch ∉ xs
      → length xs < fuel
      → strchr_loop fuel s ch m ≡ some null
  unfolding strchr_loop
  strchr_loop-null zero s ch xs c nz out h = absurd (omega arith)
  strchr_loop-null (suc fuel) s ch [] c nz out h = ground arith
  strchr_loop-null (suc fuel) s ch (x ∷ xs) c nz out h =
      ground (arith, strchr_loop-null fuel (s + 1) ch xs)

  -- `strchr` finds no character that the string does not have.
  pub strchr-null :
      (fuel s ch : ℕ) (xs : List ℕ)
      → CString m s xs
      → (ch ≢ 0) × (ch < 256)
      → ch ∉ xs
      → length xs < fuel
      → strchr fuel s ch m ≡ some null
  unfolding strchr
  strchr-null fuel s ch xs c (nz, small) out h =
      rw (mod-eq_of_lt small) (strchr_loop-null fuel s ch xs c nz out h)

  CString-end : (s : Ptr) (xs : List ℕ) → CString m s xs → m (s + length xs) ≡ 0
  CString-end s [] c = rw (add-zero s) c
  CString-end s (x ∷ xs) c =
      let shift : s + suc (length xs) ≡ s + 1 + length xs = omega arith in
      rw shift (CString-end (s + 1) xs c.2)

  -- The characters of a word, none of which is a delimiter.
  abbrev pub IsWord : List ℕ → List ℕ → Type 0
  IsWord d = All (λ x. (x < 256) × (x ∉ d))

  module _ (delim : Ptr) (d : List ℕ) (cd : CString m delim d) where
    scan-end :
        (fuel p : ℕ) (xs : List ℕ)
        → CString m p xs
        → IsWord d xs
        → length xs + length d < fuel
        → strtok_scan false fuel p delim m ≡ some (p + length xs)
    unfolding strtok_scan
    scan-end zero p xs c w h = absurd (omega arith)
    scan-end (suc fuel) p [] c w h = ground (arith, add-zero p)
    scan-end (suc fuel) p (x ∷ xs) c w h =
        let shift : p + 1 + length xs ≡ p + suc (length xs) = omega arith in
        let some_char : (x == 0) ≡ false = ==_false x 0 c.1 in
        rw
          (
            c.0,
            some_char,
            strchr-null (suc fuel) delim x d cd (c.1, w.0.0) w.0.1 (omega (arith, h)),
            scan-end fuel (p + 1) xs c.2 w.1 (omega (arith, h)),
            shift,
          )
          refl

    scan-start :
        (fuel p : ℕ) (x : ℕ) (xs : List ℕ)
        → CString m p (x ∷ xs)
        → IsWord d (x ∷ xs)
        → length d < fuel
        → strtok_scan true fuel p delim m ≡ some p
    unfolding strtok_scan
    scan-start zero p x xs c w h = absurd (omega arith)
    scan-start (suc fuel) p x xs c w h =
        let some_char : (x == 0) ≡ false = ==_false x 0 c.1 in
        rw
          (
            c.0,
            some_char,
            strchr-null (suc fuel) delim x d cd (c.1, w.0.0) w.0.1 (omega (arith, h)),
          )
          refl

-- The first token of a string that is one word is the string, and the memory is not changed.
pub strtok-word :
    (fuel s delim : ℕ) (t : Tok) (d : List ℕ) (x : ℕ) (xs : List ℕ)
    → CString t.mem s (x ∷ xs)
    → CString t.mem delim d
    → IsWord t.mem d (x ∷ xs)
    → s ≢ 0
    → length (x ∷ xs) + length d < fuel
    → strtok fuel s delim t ≡ some (s, record t { next = null })
unfolding strtok strtok_at strtok_cut
strtok-word fuel s delim t d x xs c cd w nz h =
    let some_char : (x == 0) ≡ false = ==_false x 0 c.1 in
    rw
      (
        ==_false s 0 nz,
        scan-start t.mem delim d cd fuel s x xs c w (omega (arith, h)),
        c.0,
        some_char,
        scan-end t.mem delim d cd fuel s (x ∷ xs) c w h,
        CString-end t.mem s (x ∷ xs) c,
        ==_false s 0 nz,
      )
      refl
