-- ===== src/Text/Compare.antt =====
-- `strcmp`, `memcmp` and `strlen` of src/string.c.
use osc_riscv.Base.{
  ℕ, zero, suc, ◌+◌, ◌<◌, ◌≡◌, ◌↔◌, refl, List, [], ◌∷◌, some, ℤ, pos, sub_ℕ, arith, length, ◌==◌,
  if◌then◌else◌, sub_ℕ-eq-zero,
}
use native.Mathlib.Nat.{add-zero}
use osc_riscv.Text.{Ptr, Mem, CString, strcmp, memcmp, strlen, strlen_loop}

add_step : (s i : ℕ) → s + suc i ≡ s + 1 + i
add_step s i = omega arith

-- The order of two strings: the difference at the first place where they differ, the end of a
-- string counting as zero.
unfoldable pub diff : List ℕ → List ℕ → ℤ
diff [] [] = pos 0
diff [] (y ∷ ys) = sub_ℕ 0 y
diff (x ∷ xs) [] = sub_ℕ x 0
diff (x ∷ xs) (y ∷ ys) = let rest = diff xs ys in if x == y then rest else sub_ℕ x y

pub strcmp-diff :
    (m : Mem) (fuel : ℕ) (s1 s2 : Ptr) (xs ys : List ℕ)
    → CString m s1 xs
    → CString m s2 ys
    → length xs < fuel
    → strcmp fuel s1 s2 m ≡ some (diff xs ys)
unfolding strcmp diff
strcmp-diff m zero s1 s2 xs ys c d h = absurd (omega arith)
strcmp-diff m (suc fuel) s1 s2 [] [] c d h = ground arith
strcmp-diff m (suc fuel) s1 s2 [] (y ∷ ys) c d h = ground arith
strcmp-diff m (suc fuel) s1 s2 (x ∷ xs) [] c d h = ground arith
strcmp-diff m (suc fuel) s1 s2 (x ∷ xs) (y ∷ ys) c d h =
    ground (arith, strcmp-diff m fuel (s1 + 1) (s2 + 1) xs ys)

-- On strings without zeros the difference is zero exactly for equal strings.
diff-zero :
    (m : Mem) (s1 s2 : Ptr) (xs ys : List ℕ)
    → CString m s1 xs
    → CString m s2 ys
    → diff xs ys ≡ pos 0
    → xs ≡ ys
unfolding diff
diff-zero m s1 s2 [] [] c d h = refl
diff-zero m s1 s2 [] (y ∷ ys) c d h = ground (arith, sub_ℕ-eq-zero 0 y)
diff-zero m s1 s2 (x ∷ xs) [] c d h = ground (arith, sub_ℕ-eq-zero x 0)
diff-zero m s1 s2 (x ∷ xs) (y ∷ ys) c d h =
    ground (arith, sub_ℕ-eq-zero x y, diff-zero m (s1 + 1) (s2 + 1) xs ys c.2 d.2)

diff_self : (xs : List ℕ) → diff xs xs ≡ pos 0
unfolding diff
diff_self [] = refl
diff_self (x ∷ xs) = ground (arith, diff_self xs)

module _ (m : Mem) where
  -- `strcmp` ends on two strings, and returns zero exactly if they are equal.
  pub strcmp-zero_iff :
      (fuel : ℕ) (s1 s2 : Ptr) (xs ys : List ℕ)
      → CString m s1 xs
      → CString m s2 ys
      → length xs < fuel
      → (r : ℤ) × (strcmp fuel s1 s2 m ≡ some r) × ((r ≡ pos 0) ↔ (xs ≡ ys))
  strcmp-zero_iff fuel s1 s2 xs ys c d h = (
    diff xs ys,
    strcmp-diff m fuel s1 s2 xs ys c d h,
    (λ e. diff-zero m s1 s2 xs ys c d e, λ e. rw (← e) (diff_self xs)),
  )

  memcmp-agree :
      (n s1 s2 : ℕ) → memcmp s1 s2 n m ≡ pos 0 → (i : ℕ) → i < n → m (s1 + i) ≡ m (s2 + i)
  unfolding memcmp
  memcmp-agree zero s1 s2 h i lt = absurd (omega arith)
  memcmp-agree (suc n) s1 s2 h zero lt =
      ground (arith, add-zero s1, add-zero s2, sub_ℕ-eq-zero (m s1) (m s2))
  memcmp-agree (suc n) s1 s2 h (suc i) lt =
      rw (add_step s1 i, add_step s2 i)
        (ground (
          arith,
          sub_ℕ-eq-zero (m s1) (m s2),
          memcmp-agree n (s1 + 1) (s2 + 1) (ground (arith, sub_ℕ-eq-zero (m s1) (m s2))) i,
        ))

  memcmp_of_agree :
      (n s1 s2 : ℕ) → ((i : ℕ) → i < n → m (s1 + i) ≡ m (s2 + i)) → memcmp s1 s2 n m ≡ pos 0
  unfolding memcmp
  memcmp_of_agree zero s1 s2 h = refl
  memcmp_of_agree (suc n) s1 s2 h =
      let first : m s1 ≡ m s2 = rw (add-zero, add-zero) at (h 0 (omega arith)) in
      ground (
        arith,
        first,
        memcmp_of_agree n (s1 + 1) (s2 + 1)
            (λ i lt. rw (← add_step s1 i, ← add_step s2 i) (h (suc i) (omega arith))),
      )

  -- `memcmp` returns zero exactly if the two blocks agree at every byte.
  pub memcmp-zero_iff :
      (s1 s2 n : ℕ) → (memcmp s1 s2 n m ≡ pos 0) ↔ ((i : ℕ) → i < n → m (s1 + i) ≡ m (s2 + i))
  memcmp-zero_iff s1 s2 n = (memcmp-agree n s1 s2, memcmp_of_agree n s1 s2)

  strlen_loop-length :
      (fuel s len : ℕ) (xs : List ℕ)
      → CString m s xs
      → length xs < fuel
      → strlen_loop fuel s len m ≡ some (len + length xs)
  unfolding strlen_loop
  strlen_loop-length zero s len xs c h = absurd (omega arith)
  strlen_loop-length (suc fuel) s len [] c h = ground arith
  strlen_loop-length (suc fuel) s len (x ∷ xs) c h =
      ground (arith, strlen_loop-length fuel (s + 1) (len + 1) xs)

  -- `strlen` ends on a string, and counts the bytes before the zero.
  pub strlen-length :
      (fuel s : ℕ) (xs : List ℕ)
      → CString m s xs
      → length xs < fuel
      → strlen fuel s m ≡ some (length xs)
  unfolding strlen
  strlen-length fuel s xs c h = ground (arith, strlen_loop-length fuel s 0 xs)
