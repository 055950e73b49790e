-- ===== src/Initrd/Cat.antt =====
-- `initrd_cat` of src/initrd.c, and the search for a file, on an archive.
use osc_riscv.Base.{
  ℕ, zero, suc, ◌+◌, ◌<◌, ◌≡◌, ◌≢◌, inl, inr, refl, ap, true, false, Bool, Bool-cases, Option, none,
  some, List, [], ◌∷◌, ◌++◌, length, arith, ◌==◌, ◌&&◌, if◌then◌else◌, ==_false,
}
use osc_riscv.Text.{Ptr, Mem, CString, null, memcmp}
use osc_riscv.Text.Compare.{diff}
use osc_riscv.Printk.{Output, uart_puts}
use osc_riscv.Initrd.{
  cpio_size, is_zero, namesize, copied, find_loop, initrd_cat, cat_found, not_found,
}
use osc_riscv.Initrd.Archive.{
  Entry, IsHeader, IsArchive, Bytes, body_at, next_at, namesize-header, filesize-header,
  headsize-header, initrd_get_next_hdr-header, next_ne_null, initrd_get_next_hdr-trailer,
}

-- Whether two texts are the same.
unfoldable pub same_text : List ℕ → List ℕ → Bool
same_text [] [] = true
same_text [] (y ∷ ys) = false
same_text (x ∷ xs) [] = false
same_text (x ∷ xs) (y ∷ ys) = x == y && same_text xs ys

-- `strcmp` of two strings is zero if they are the same.
pub is_zero-diff :
    (m : Mem) (s t : Ptr) (xs ys : List ℕ)
    → CString m s xs
    → CString m t ys
    → is_zero (diff xs ys) ≡ same_text xs ys
unfolding diff same_text
is_zero-diff m s t [] [] c d = refl
is_zero-diff m s t [] (y ∷ ys) c d = ground (arith, d)
is_zero-diff m s t (x ∷ xs) [] c d = ground (arith, c)
is_zero-diff m s t (x ∷ xs) (y ∷ ys) c d = ground (arith, is_zero-diff m (s + 1) (t + 1) xs ys)

-- What there is of a file in front of its first zero byte.
unfoldable pub up_to_zero : List ℕ → List ℕ
up_to_zero [] = []
up_to_zero (c ∷ s) = if c == 0 then [] else c ∷ up_to_zero s

-- The first file of a name.
unfoldable pub lookup : List ℕ → List Entry → Option Entry
unfolding same_text
lookup t [] = none
lookup t (e ∷ es) = if same_text e.name t then some e else lookup t es

copied-Bytes :
    (m : Mem) (p : Ptr) (xs : List ℕ) → Bytes m p xs → copied (length xs) m p ≡ up_to_zero xs
unfolding copied up_to_zero
copied-Bytes m p [] b = refl
copied-Bytes m p (x ∷ xs) b = ground (arith, copied-Bytes m (p + 1) xs)

-- `memcmp` over a string and its zero compares it with another string.
memcmp-same_text :
    (m : Mem) (s t : Ptr) (xs ys : List ℕ)
    → CString m s xs
    → CString m t ys
    → is_zero (memcmp s t (length xs + 1) m) ≡ same_text xs ys
unfolding memcmp same_text
memcmp-same_text m s t [] [] c d = ground arith
memcmp-same_text m s t [] (y ∷ ys) c d = ground arith
memcmp-same_text m s t (x ∷ xs) [] c d = ground arith
memcmp-same_text m s t (x ∷ xs) (y ∷ ys) c d =
    ground (arith, memcmp-same_text m (s + 1) (t + 1) xs ys)

-- The search comes to the header of a file, or to none.
abbrev pub Finds : Mem → Option Entry → Option Ptr → Type 0
Finds m none none = Unit
Finds m none (some p) = ⊥
Finds m (some e) none = ⊥
Finds m (some e) (some p) = IsHeader m p e

module _ (m : Mem) (target : Ptr) (t : List ℕ) (c : CString m target t) where
  pub find_loop-Finds :
      (fuel : ℕ) (p : Ptr) (es : List Entry)
      → IsArchive m p es
      → length es < fuel
      → (r : Option Ptr) × (find_loop fuel m p target ≡ some r) × Finds m (lookup t es) r
  unfolding find_loop lookup
  find_loop-Finds zero p es a h = absurd (omega arith)
  find_loop-Finds (suc fuel) p [] a h = (none, rw (initrd_get_next_hdr-trailer m p a) refl, tt)
  find_loop-Finds (suc fuel) p (e ∷ es) a h =
      let test : is_zero (memcmp (p + cpio_size) target (namesize m p) m) ≡ same_text e.name t =
        rw (namesize-header m p e a.0)
          (memcmp-same_text m (p + cpio_size) target e.name t a.0.name c) in
      elim (Bool-cases (same_text e.name t)) [
        | inl same ↦ (some p, rw (next_ne_null m p e a.0, test, same) refl, rw same a.0)
        | inr other ↦
            let (r, done, f) = find_loop-Finds fuel (p + next_at e) es a.1 (omega arith) in
            (
              r,
              rw (next_ne_null m p e a.0, initrd_get_next_hdr-header m p e a.0, test, other) done,
              rw other f,
            )
      ]

-- What `initrd_cat` should print: the first file of the name, up to its first zero byte, or that
-- there is none.
unfoldable pub file_text : List ℕ → Option Entry → List ℕ
file_text t none = not_found t
file_text t (some e) = up_to_zero e.body ++ 10 ∷ []

cat_found-file_text :
    (m : Mem) (t : List ℕ) (out : Output) (o : Option Entry) (r : Option Ptr)
    → Finds m o r
    → cat_found r t m out ≡ uart_puts (file_text t o) out
unfolding cat_found file_text
cat_found-file_text m t out none none f = refl
cat_found-file_text m t out none (some p) f = elim f [ ]
cat_found-file_text m t out (some e) none f = elim f [ ]
cat_found-file_text m t out (some e) (some p) f =
    rw
      (
        headsize-header m p e f,
        filesize-header m p e f,
        copied-Bytes m (p + body_at e) e.body f.body,
      )
      refl

-- `initrd_cat` ends on an archive with fewer files than the fuel, and prints the first file whose name
-- is the target's, up to its first zero byte, or that there is none.
pub initrd_cat-file_text :
    (fuel : ℕ) (base target : Ptr) (t : List ℕ) (m : Mem) (es : List Entry) (out : Output)
    → target ≢ null
    → CString m target t
    → IsArchive m base es
    → length es < fuel
    → initrd_cat fuel base target t m out ≡ some (uart_puts (file_text t (lookup t es)) out)
unfolding initrd_cat
initrd_cat-file_text fuel base target t m es out ne c a h =
    let (r, done, f) = find_loop-Finds m target t c fuel base es a h in
    rw (==_false target null ne, done) (ap some (cat_found-file_text m t out (lookup t es) r f))
