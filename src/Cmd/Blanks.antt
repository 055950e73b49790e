-- ===== src/Cmd/Blanks.antt =====
-- The spaces before and behind a word in a line of src/cmd.c.
use osc_riscv.Base.{
  ℕ, zero, suc, ◌+◌, ◌<◌, ◌≤◌, ◌≡◌, ◌≢◌, ◌∙◌, refl, ap, sym, some, List, [], ◌∷◌, ◌++◌, length, All,
  arith, ==_false, ltb, leb, ◌&&◌, if◌then◌else◌, update,
}
use native.Mathlib.Nat.{add-zero}
use osc_riscv.Text.{Mem, CString}
use osc_riscv.Cmd.{skip_spaces, trim_end}

-- A line of spaces and a word.
unfoldable pub spaced : ℕ → List ℕ → List ℕ
spaced zero w = w
spaced (suc n) w = 32 ∷ spaced n w

-- The characters are none of the spaces.
abbrev pub IsPlain : List ℕ → Type 0
IsPlain = All (λ x. (x < 256) × (x ≢ 32))

-- The first character is no space.
abbrev pub Stops : List ℕ → Type 0
Stops [] = Unit
Stops (x ∷ w) = x ≢ 32

pub skip_spaces-spaced :
    (fuel n p : ℕ) (w : List ℕ) (m : Mem)
    → CString m p (spaced n w)
    → Stops w
    → n < fuel
    → (skip_spaces fuel p m ≡ some (p + n)) × CString m (p + n) w
unfolding skip_spaces spaced
skip_spaces-spaced zero n p w m c h lt = absurd (omega arith)
skip_spaces-spaced (suc fuel) zero p [] m c h lt = rw (add-zero p) (rw c refl, c)
skip_spaces-spaced (suc fuel) zero p (x ∷ w) m c h lt =
    rw (add-zero p, c.0, ==_false x 32 h) (refl, (refl, c.1, c.2))
skip_spaces-spaced (suc fuel) (suc n) p w m c h lt =
    let shift : p + suc n ≡ p + 1 + n = omega arith in
    rw (shift, c.0) (skip_spaces-spaced fuel n (p + 1) w m c.2 h (omega (arith, lt)))

-- The last character of a word is no space.
last_plain :
    (p : ℕ) (x : ℕ) (w : List ℕ) (m : Mem)
    → CString m p (x ∷ w)
    → IsPlain (x ∷ w)
    → m (p + length w) ≢ 32
last_plain p x [] m c h e = h.0.1 (sym c.0 ∙ (rw (add-zero p) at e))
last_plain p x (y ∷ w) m c h e =
    let shift : p + suc (length w) ≡ p + 1 + length w = omega arith in
    last_plain (p + 1) y w m c.2 h.1 (rw shift at e)

pub trim_end-word :
    (p : ℕ) (x : ℕ) (w : List ℕ) (m : Mem)
    → CString m p (x ∷ w)
    → IsPlain (x ∷ w)
    → trim_end (length w) p m ≡ m
unfolding trim_end
trim_end-word p x [] m c h = refl
trim_end-word p x (y ∷ w) m c h =
    rw (==_false (m (p + suc (length w))) 32 (last_plain p x (y ∷ w) m c h)) refl

-- Spaces behind spaces.
pub spaced-spaced : (n k : ℕ) → spaced n (spaced k []) ≡ spaced (n + k) []
unfolding spaced
spaced-spaced zero k = ap (λ i. spaced i []) (omega arith)
spaced-spaced (suc n) k =
    let shift : suc n + k ≡ suc (n + k) = omega arith in
    ap (λ t. 32 ∷ t) (spaced-spaced n k) ∙ ap (λ i. spaced i []) (sym shift)

-- The memory after the `k` bytes behind `q` have been cleared.
pub trimmed : (k q : ℕ) → Mem → Mem
trimmed zero q m = m
trimmed (suc k) q m = trimmed k q (update m (q + suc k) 0)

pub trimmed_at :
    (k q : ℕ) (m : Mem) (a : ℕ) → trimmed k q m a ≡ (if ltb q a && leb a (q + k) then 0 else m a)
unfolding trimmed
trimmed_at zero q m a = ground arith
trimmed_at (suc k) q m a = ground (arith, trimmed_at k q (update m (q + suc k) 0) a)

pub trim_end-trimmed :
    (k j p : ℕ) (m : Mem)
    → ((i : ℕ) → i < k → m (p + j + 1 + i) ≡ 32)
    → trim_end (j + k) p m ≡ trim_end j p (trimmed k (p + j) m)
unfolding trim_end trimmed
trim_end-trimmed zero j p m h = let at : j + 0 ≡ j = omega arith in ap (λ i. trim_end i p m) at
trim_end-trimmed (suc k) j p m h =
    let at : j + suc k ≡ suc (j + k) = omega arith in
    let place : p + suc (j + k) ≡ p + j + suc k = omega arith in
    let last : m (p + j + suc k) ≡ 32 = ap m (omega arith) ∙ h k (omega arith) in
    ap (λ i. trim_end i p m) at
    ∙ rw (place, last)
        (trim_end-trimmed k j p (update m (p + j + suc k) 0) (λ i lt.
          let ne = ==_false (p + j + 1 + i) (p + j + suc k) (λ e. absurd (omega (arith, e, lt))) in
          rw ne (h i (omega (arith, lt)))))

pub spaces_behind :
    (xs : List ℕ) (k p : ℕ) (m : Mem)
    → CString m p (xs ++ spaced k [])
    → (i : ℕ) → i < k
    → m (p + length xs + i) ≡ 32
unfolding spaced
spaces_behind [] zero p m c i lt = absurd (omega arith)
spaces_behind [] (suc k) p m c zero lt = ap m (omega arith) ∙ c.0
spaces_behind [] (suc k) p m c (suc i) lt =
    ap m (omega arith) ∙ spaces_behind [] k (p + 1) m c.2 i (omega (arith, lt))
spaces_behind (x ∷ xs) k p m c i lt = ap m (omega arith) ∙ spaces_behind xs k (p + 1) m c.2 i lt

pub CString-trimmed :
    (xs : List ℕ) (k p q : ℕ) (m : Mem)
    → CString m p (xs ++ spaced k [])
    → q + 1 ≡ p + length xs
    → CString (trimmed k q m) p xs
unfolding spaced
CString-trimmed [] zero p q m c e = rw (trimmed_at zero q m p) (ground (arith, c, e))
CString-trimmed [] (suc k) p q m c e = rw (trimmed_at (suc k) q m p) (ground (arith, e))
CString-trimmed (x ∷ xs) k p q m c e = (
  rw (trimmed_at k q m p) (ground (arith, c.0, e)),
  c.1,
  CString-trimmed xs k (p + 1) q m c.2 (omega (arith, e)),
)

-- A string in bytes that two memories share.
pub CString-off :
    (m m' : Mem) (p : ℕ) (xs : List ℕ)
    → ((a : ℕ) → p ≤ a → a ≤ p + length xs → m' a ≡ m a)
    → CString m p xs
    → CString m' p xs
CString-off m m' p [] h c = h p (omega arith) (omega arith) ∙ c
CString-off m m' p (x ∷ xs) h c = (
  h p (omega arith) (omega arith) ∙ c.0,
  c.1,
  CString-off m m' (p + 1) xs (λ a le le'. h a (omega (arith, le)) (omega (arith, le'))) c.2,
)

pub length-line : (w : List ℕ) (k : ℕ) → length (w ++ spaced k []) ≡ length w + k
unfolding spaced
length-line [] zero = omega arith
length-line [] (suc k) = omega (arith, length-line [] k)
length-line (x ∷ w) k = omega (arith, length-line w k)
