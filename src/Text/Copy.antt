-- ===== src/Text/Copy.antt =====
-- `memcpy`, `memset` and `strncpy` of src/string.c.
use osc_riscv.Base.{
  ℕ, zero, suc, ◌+◌, ◌%◌, ◌<◌, ◌≤◌, ◌≡◌, ◌⊎◌, refl, List, [], ◌∷◌, arith, length, false, ◌==◌,
  update, inl, ◌∙◌,
}
use native.Mathlib.Nat.{add-zero}
use Prim.Native.Nat.{min}
use osc_riscv.Text.{Mem, CString, memcpy, memcpy_loop, memset, memset_loop, strncpy}

-- The address lies outside the `n` bytes at `d`.
abbrev pub Outside : ℕ → ℕ → ℕ → Type 0
Outside a d n = (a < d) ⊎ (d + n ≤ a)

-- Copying upwards reads no byte that it has written.
abbrev pub CopiesUp : (dst src n : ℕ) → Type 0
CopiesUp dst src n = (dst ≤ src) ⊎ (src + n ≤ dst)

memcpy_loop-Outside : (n d s a : ℕ) (m : Mem) → Outside a d n → memcpy_loop d s n m a ≡ m a
unfolding memcpy_loop
memcpy_loop-Outside zero d s a m o = refl
memcpy_loop-Outside (suc n) d s a m o =
    ground (arith, memcpy_loop-Outside n (d + 1) (s + 1) a (update m d (m s)) (ground arith))

memcpy_loop_inside :
    (n d s : ℕ) (m : Mem) (i : ℕ) → CopiesUp d s n → i < n → memcpy_loop d s n m (d + i) ≡ m (s + i)
unfolding memcpy_loop
memcpy_loop_inside zero d s m i up lt = absurd (omega arith)
memcpy_loop_inside (suc n) d s m zero up lt = ground (
  arith,
  add-zero d,
  add-zero s,
  memcpy_loop-Outside n (d + 1) (s + 1) d (update m d (m s)) (inl (omega arith)),
)
memcpy_loop_inside (suc n) d s m (suc i) up lt =
    let shift : d + suc i ≡ d + 1 + i = omega arith in
    let shift' : s + suc i ≡ s + 1 + i = omega arith in
    rw (shift, shift')
      (memcpy_loop_inside n (d + 1) (s + 1) (update m d (m s)) i (ground arith) (omega arith)
        ∙ ground arith)

-- `memcpy` copies every byte, changes no other and returns the destination.
pub memcpy_lem :
    (dst src n : ℕ) (m : Mem)
    → CopiesUp dst src n
    → ((memcpy dst src n m).0 ≡ dst)
      × ((i : ℕ) → i < n → (memcpy dst src n m).1 (dst + i) ≡ m (src + i))
      × ((a : ℕ) → Outside a dst n → (memcpy dst src n m).1 a ≡ m a)
unfolding memcpy
memcpy_lem dst src n m up = (
  refl,
  λ i lt. memcpy_loop_inside n dst src m i up lt,
  λ a o. memcpy_loop-Outside n dst src a m o,
)

memset_loop_lem :
    (n p c a : ℕ) (m : Mem)
    → (Outside a p n → memset_loop p c n m a ≡ m a)
      × (p ≤ a → a < p + n → memset_loop p c n m a ≡ c % 256)
unfolding memset_loop
memset_loop_lem zero p c a m = (λ o. refl, λ lo hi. absurd (omega arith))
memset_loop_lem (suc n) p c a m =
    let rest = memset_loop_lem n (p + 1) c a (update m p (c % 256)) in
    (λ o. ground (arith, rest.0 (ground arith)), λ lo hi. ground (arith, rest.0, rest.1))

-- `memset` fills the `n` bytes with the low byte of `c`, changes no other and returns its pointer.
pub memset_lem :
    (s c n : ℕ) (m : Mem)
    → ((memset s c n m).0 ≡ s)
      × ((a : ℕ) → s ≤ a → a < s + n → (memset s c n m).1 a ≡ c % 256)
      × ((a : ℕ) → Outside a s n → (memset s c n m).1 a ≡ m a)
unfolding memset
memset_lem s c n m = (refl, λ a. (memset_loop_lem n s c a m).1, λ a. (memset_loop_lem n s c a m).0)

-- A string is not changed by a write outside it and its terminating zero.
pub CString-update :
    (m : Mem) (s d c : ℕ) (xs : List ℕ)
    → Outside d s (length xs + 1)
    → CString m s xs
    → CString (update m d c) s xs
CString-update m s d c [] o h = ground arith
CString-update m s d c (x ∷ xs) o h =
    (ground arith, h.1, CString-update m (s + 1) d c xs (ground arith) h.2)

-- `strncpy` copies the string with its terminating zero, but at most `n` bytes: that many bytes are
-- copied as `memcpy` does, and the result points behind the last of them.
pub strncpy-memcpy :
    (n dst src : ℕ) (m : Mem) (xs : List ℕ)
    → CString m src xs
    → CopiesUp dst src (length xs + 1)
    → let k = min n (length xs + 1) in
      ((strncpy dst src n m).0 ≡ dst + k) × ((strncpy dst src n m).1 ≡ (memcpy dst src k m).1)
unfolding strncpy memcpy
strncpy-memcpy zero dst src m xs c up =
    let none_left : min 0 (length xs + 1) ≡ 0 = omega arith in (omega arith, rw none_left)
strncpy-memcpy (suc n) dst src m [] c up =
    let one : min (suc n) (0 + 1) ≡ 1 = omega arith in rw (one, c) (refl, refl)
strncpy-memcpy (suc n) dst src m (x ∷ xs) c up =
    let more : min (suc n) (suc (length xs) + 1) ≡ suc (min n (length xs + 1)) = omega arith in
    let rest =
      strncpy-memcpy n (dst + 1) (src + 1) (update m dst (m src)) xs
        (CString-update m (src + 1) dst (m src) xs (ground arith) c.2) (ground arith) in
    let going : (m src == 0) ≡ false = ground arith in
    rw (more, going) (omega (arith, rest.0), rest.1)
