-- ===== src/Text.antt =====
-- src/string.c, on a memory of bytes. A `char` is unsigned on RISC-V, so a byte is its value.
-- A loop that a terminating zero ends runs on fuel, and `none` means that the fuel ran out. Lengths
-- of type `int` are not negative here.
pub mod Compare
pub mod Copy
pub mod Tokens
mod Examples
use osc_riscv.Base.{
  ℕ, zero, suc, ◌+◌, ◌-◌, ◌%◌, Bool, true, false, Option, none, some, ◌==◌, not, ◌&&◌, ltb,
  if◌then◌else◌, update, ℤ, pos, sub_ℕ, List, [], ◌∷◌, ◌≡◌, ◌≢◌,
}

abbrev pub Ptr : Type 0
Ptr = ℕ

abbrev pub Mem : Type 0
Mem = Ptr → ℕ

abbrev pub null : Ptr
null = 0

infixl 5 ◌>>=◌
abbrev pub ◌>>=◌ : {A B : Type 0} → Option A → (A → Option B) → Option B
none >>= k = none
some a >>= k = k a

unfoldable pub strcmp : ℕ → (s1 s2 : Ptr) → Mem → Option ℤ
strcmp zero s1 s2 m = none
strcmp (suc fuel) s1 s2 m =
    let rest = strcmp fuel (s1 + 1) (s2 + 1) m in
    if not (m s1 == 0) && (m s1 == m s2) then rest else some (sub_ℕ (m s1) (m s2))

unfoldable pub memcmp : (s1 s2 : Ptr) → ℕ → Mem → ℤ
memcmp a b zero m = pos 0
memcmp a b (suc n) m =
    let rest = memcmp (a + 1) (b + 1) n m in if m a == m b then rest else sub_ℕ (m a) (m b)

-- The result is the pointer behind the last byte written, and the memory.
unfoldable pub strncpy : (dst src : Ptr) → ℕ → Mem → Ptr × Mem
strncpy dst src zero m = (dst, m)
strncpy dst src (suc n) m =
    let c = m src in
    let m' = update m dst c in
    let rest = strncpy (dst + 1) (src + 1) n m' in if c == 0 then (dst + 1, m') else rest

memset_loop : (p : Ptr) → ℕ → ℕ → Mem → Mem
memset_loop p c zero m = m
memset_loop p c (suc n) m = memset_loop (p + 1) c n (update m p (c % 256))

unfoldable pub memset : (s : Ptr) → ℕ → ℕ → Mem → Ptr × Mem
unfolding memset_loop
memset s c n m = (s, memset_loop s c n m)

strlen_loop : ℕ → (s : Ptr) → ℕ → Mem → Option ℕ
strlen_loop zero s len m = none
strlen_loop (suc fuel) s len m =
    let rest = strlen_loop fuel (s + 1) (len + 1) m in if m s == 0 then some len else rest

unfoldable pub strlen : ℕ → (s : Ptr) → Mem → Option ℕ
unfolding strlen_loop
strlen fuel s m = strlen_loop fuel s 0 m

strchr_loop : ℕ → (s : Ptr) → ℕ → Mem → Option Ptr
strchr_loop zero s ch m = none
strchr_loop (suc fuel) s ch m =
    let rest = strchr_loop fuel (s + 1) ch m in
    let ended = if ch == 0 then s else null in
    if m s == 0 then some ended else if m s == ch then some s else rest

unfoldable pub strchr : ℕ → (s : Ptr) → ℕ → Mem → Option Ptr
unfolding strchr_loop
strchr fuel s c m = strchr_loop fuel s (c % 256) m

-- `while (*start && strchr(delim, *start)) start++;`, and with `delims` false
-- `while (*end && !strchr(delim, *end)) end++;`.
strtok_scan : Bool → ℕ → (p delim : Ptr) → Mem → Option Ptr
unfolding strchr
strtok_scan delims zero p delim m = none
strtok_scan delims (suc fuel) p delim m =
    let rest = strtok_scan delims fuel (p + 1) delim m in
    let inside = λ (r : Ptr). if delims then not (r == null) else r == null in
    if m p == 0
    then some p
    else (strchr (suc fuel) delim (m p) m >>= λ r. if inside r then rest else some p)

-- The static `next` of `strtok`, and the memory.
pub record Tok : Type 0 where
  pub next : Ptr
  pub mem : Mem

-- The end of a token: it is cut off by a zero, and the next call goes on behind it.
strtok_cut : (start end : Ptr) → Tok → Ptr × Tok
strtok_cut start end t =
    if t.mem end == 0
    then (start, record t { next = null })
    else (start, record t { next = end + 1; mem = update t.mem end 0 })

strtok_at : ℕ → (start delim : Ptr) → Tok → Option (Ptr × Tok)
unfolding strtok_scan strtok_cut
strtok_at fuel start delim t =
    if t.mem start == 0
    then some (null, record t { next = null })
    else (strtok_scan false fuel start delim t.mem >>= λ end. some (strtok_cut start end t))

unfoldable pub strtok : ℕ → (s delim : Ptr) → Tok → Option (Ptr × Tok)
unfolding strtok_at
strtok fuel s delim t =
    let from = if s == null then t.next else s in
    if from == null
    then some (null, record t { next = from })
    else (strtok_scan true fuel from delim t.mem >>= λ start.
        strtok_at fuel start delim (record t { next = from }))

memcpy_loop : (d s : Ptr) → ℕ → Mem → Mem
memcpy_loop d s zero m = m
memcpy_loop d s (suc n) m = memcpy_loop (d + 1) (s + 1) n (update m d (m s))

unfoldable pub memcpy : (dst src : Ptr) → ℕ → Mem → Ptr × Mem
unfolding memcpy_loop
memcpy dst src n m = (dst, memcpy_loop dst src n m)

-- The bytes of a string without its terminating zero.
abbrev pub CString : Mem → Ptr → List ℕ → Type 0
CString m s [] = m s ≡ 0
CString m s (x ∷ xs) = (m s ≡ x) × (x ≢ 0) × CString m (s + 1) xs
