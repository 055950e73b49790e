-- ===== src/Cmd/Word.antt =====
-- A line of src/cmd.c with at most one word: which command `exec_command` calls.
use osc_riscv.Base.{
  ℕ, suc, ◌+◌, ◌-◌, ◌<◌, ◌≤◌, ◌≡◌, ◌≢◌, ◌⊎◌, inl, inr, ◌∙◌, ◌∉◌, refl, ap, subst, Option, some,
  none, false, List, [], ◌∷◌, ◌++◌, length, All, arith, ◌==◌, ==_false, ltb, leb, ◌&&◌,
  if◌then◌else◌,
}
use osc_riscv.Ring.{Ptr}
use osc_riscv.Ring.Chain.{IsRing}
use osc_riscv.Ring.Each.{find?, list_for_each-find?}
use osc_riscv.Text.{Mem, CString, null, Tok}
use osc_riscv.Text.Compare.{strcmp-diff, strlen-length}
use osc_riscv.Text.Tokens.{strchr-null, strtok-word, IsWord}
use osc_riscv.Printk.{Output, uart_puts}
use osc_riscv.Initrd.Walk.{copied-CString}
use osc_riscv.Initrd.Cat.{same_text, is_zero-diff}
use osc_riscv.Cmd.{
  Commands, Executed, refused, called, trim_end, has_name, no_command, run_command, run_line,
  exec_command,
}
use osc_riscv.Cmd.Blanks.{
  spaced, IsPlain, skip_spaces-spaced, trim_end-word, spaced-spaced, trimmed, trimmed_at,
  trim_end-trimmed, spaces_behind, CString-trimmed, CString-off, length-line,
}

-- The commands' names, by the commands' nodes.
abbrev pub Named : ℕ → (names : Ptr → List ℕ) → Commands → Mem → List Ptr → Type 0
Named fuel names s m =
    All (λ pos. CString m (s.command pos).name (names pos) × (length (names pos) < fuel))

-- A string of a length lies outside a line.
abbrev pub IsOff : (input total p len : ℕ) → Type 0
IsOff input total p len = (p + len < input) ⊎ (input + total < p)

abbrev pub NamesOff : (input total : ℕ) (names : Ptr → List ℕ) → Commands → List Ptr → Type 0
NamesOff input total names s =
    All (λ pos. IsOff input total (s.command pos).name (length (names pos)))

CString-kept :
    (m : Mem) (k q p : ℕ) (xs : List ℕ)
    → (p + length xs ≤ q) ⊎ (q + k < p)
    → CString m p xs
    → CString (trimmed k q m) p xs
CString-kept m k q p xs o c =
    CString-off m (trimmed k q m) p xs (λ a le le'. trimmed_at k q m a ∙ ground (arith, o, le, le'))
      c

IsOff-behind :
    (input n x : ℕ) (w : List ℕ) (k p len : ℕ)
    → IsOff input (n + length (x ∷ w) + k) p len
    → (p + len ≤ input + n + length w) ⊎ (input + n + length w + k < p)
IsOff-behind input n x w k p len o = elim o [
  | inl lt ↦ inl (omega (arith, lt))
  | inr lt ↦ inr (omega (arith, lt))
]

Named-kept :
    (fuel : ℕ) (names : Ptr → List ℕ) (s : Commands) (m : Mem) (k q input total : ℕ)
    (nodes : List Ptr)
    → input ≤ q
    → q + k ≤ input + total
    → NamesOff input total names s nodes
    → Named fuel names s m nodes
    → Named fuel names s (trimmed k q m) nodes
Named-kept fuel names s m k q input total [] lo hi o h = tt
Named-kept fuel names s m k q input total (x ∷ xs) lo hi o h =
    let p = (s.command x).name in
    let out : (p + length (names x) ≤ q) ⊎ (q + k < p) = elim o.0 [
      | inl lt ↦ inl (omega (arith, lt, lo))
      | inr lt ↦ inr (omega (arith, lt, hi))
    ] in
    (
      (CString-kept m k q p (names x) out h.0.0, h.0.1),
      Named-kept fuel names s m k q input total xs lo hi o.1 h.1,
    )

-- The memory behind a line: the `k` spaces from `first` on are cleared, if there is a word before them.
unfoldable pub cleared : (w : List ℕ) (k first : ℕ) → Mem → Mem
cleared [] k first m a = m a
cleared (x ∷ w) k first m a = if leb first a && ltb a (first + k) then 0 else m a

has_name-same_text :
    (fuel : ℕ) (name command : Ptr) (m : Mem) (xs w : List ℕ)
    → CString m name xs
    → CString m command w
    → length xs < fuel
    → has_name fuel name command m ≡ same_text xs w
unfolding has_name
has_name-same_text fuel name command m xs w c d lt =
    rw (has_name, strcmp-diff m fuel name command xs w c d lt)
      (is_zero-diff m name command xs w c d)

find?-names :
    (fuel : ℕ) (names : Ptr → List ℕ) (s : Commands) (m : Mem) (command : Ptr) (w : List ℕ)
    (nodes : List Ptr)
    → CString m command w
    → Named fuel names s m nodes
    → find? (λ pos. has_name fuel (s.command pos).name command m) nodes
      ≡ find? (λ pos. same_text (names pos) w) nodes
unfolding find?
find?-names fuel names s m command w [] c h = refl
find?-names fuel names s m command w (x ∷ xs) c h =
    rw
      (
        find?,
        has_name-same_text fuel (s.command x).name command m (names x) w h.0.0 c h.0.1,
        find?-names fuel names s m command w xs c h.1,
      )
      refl

Option_cases : (r : Option Ptr) → (r ≡ none) ⊎ ((p : Ptr) × (r ≡ some p))
Option_cases none = inl refl
Option_cases (some p) = inr (p, refl)

-- What a word should do: the first command of that name is called without arguments, an unknown word
-- is named, and nothing happens on a blank line.
unfoldable pub outcome :
    (names : Ptr → List ℕ) → Commands → List Ptr → (w : List ℕ) → Output → Executed
outcome names s nodes [] out = refused out
outcome names s nodes (x ∷ w) out = elim (find? (λ pos. same_text (names pos) (x ∷ w)) nodes) [
  | none ↦ refused (uart_puts ((x ∷ w) ++ no_command) out)
  | some pos ↦ called (s.command pos).func null
]

IsWord-IsPlain : (m : Mem) (w : List ℕ) → IsPlain w → IsWord m (32 ∷ []) w
IsWord-IsPlain m [] h = tt
IsWord-IsPlain m (x ∷ w) h = ((h.0.0, ground (arith, h.0.1)), IsWord-IsPlain m w h.1)

no_space : (w : List ℕ) → IsPlain w → 32 ∉ w
no_space [] h = refl
no_space (x ∷ w) h = ground (arith, no_space w, h)

module _ (fuel : ℕ) (commands delim : Ptr) (s : Commands) (names : Ptr → List ℕ) (nodes : List Ptr)
    (ring : IsRing s.links commands nodes) (few : length nodes < fuel) where
  run_command-outcome :
      (command x : ℕ) (w : List ℕ) (m : Mem) (out : Output)
      → CString m command (x ∷ w)
      → Named fuel names s m nodes
      → length w + 2 < fuel
      → run_command fuel commands command null m out s ≡ some (outcome names s nodes (x ∷ w) out)
  unfolding run_command outcome
  run_command-outcome command x w m out c named lt =
      let search =
        list_for_each-find? s.links (λ pos. has_name fuel (s.command pos).name command m) commands
          fuel nodes ring few
        ∙ ap some (find?-names fuel names s m command (x ∷ w) nodes c named) in
      let text = copied-CString (length (x ∷ w)) m command (x ∷ w) c (omega arith) in
      let len = strlen-length m fuel command (x ∷ w) c (omega (arith, lt)) in
      elim (Option_cases (find? (λ pos. same_text (names pos) (x ∷ w)) nodes)) [
        | inl e ↦ rw (search, outcome, e, len, text) refl
        | inr (p, e) ↦ rw (search, outcome, e) refl
      ]

  run_line-outcome :
      (input x : ℕ) (w : List ℕ) (t : Tok) (out : Output)
      → CString t.mem input (x ∷ w)
      → IsPlain (x ∷ w)
      → CString t.mem delim (32 ∷ [])
      → input ≢ 0
      → Named fuel names s t.mem nodes
      → length w + 2 < fuel
      → run_line fuel commands delim input t out s
        ≡ some (outcome names s nodes (x ∷ w) out, record t { next = null })
  unfolding run_line
  run_line-outcome input x w t out c h d nz named lt =
      let no_args =
        strchr-null t.mem fuel input 32 (x ∷ w) c (λ e. absurd (omega (arith, e)), omega arith)
          (no_space (x ∷ w) h) (omega (arith, lt)) in
      let token =
        strtok-word fuel input delim t (32 ∷ []) x w c d (IsWord-IsPlain t.mem (x ∷ w) h) nz
          (omega (arith, lt)) in
      rw (no_args, token, run_command-outcome input x w t.mem out c named lt) refl

  -- On a line of any number of spaces, at most one word, and any number of spaces behind it,
  -- `exec_command` ends: it calls the first command of the list that has the word for its name, without
  -- arguments; prints that there is none; or does nothing on a blank line. The spaces behind a word are
  -- cleared, and no other byte is changed. The names and the delimiter lie outside the line, and the fuel
  -- is above the lengths of the line, of the names and of the list.
  pub exec_command-outcome :
      (n k input : ℕ) (w : List ℕ) (t : Tok) (out : Output)
      → CString t.mem input (spaced n (w ++ spaced k []))
      → IsPlain w
      → CString t.mem delim (32 ∷ [])
      → IsOff input (n + length w + k) delim 1
      → input ≢ 0
      → Named fuel names s t.mem nodes
      → NamesOff input (n + length w + k) names s nodes
      → n + length w + k + 1 < fuel
      → (t' : Tok) × (exec_command fuel commands delim input t out s
          ≡ some (outcome names s nodes w out, t'))
        × ((a : ℕ) → t'.mem a ≡ cleared w k (input + n + length w) t.mem a)
  unfolding exec_command outcome trim_end cleared
  exec_command-outcome n k input [] t out c h d off nz named offs lt =
      let c' : CString t.mem input (spaced (n + k) []) =
        subst (λ xs. CString t.mem input xs) (spaced-spaced n k) c in
      let (skip, rest) = skip_spaces-spaced fuel (n + k) input [] t.mem c' tt (omega (arith, lt)) in
      let len = strlen-length t.mem fuel (input + (n + k)) [] rest (omega (arith, lt)) in
      (t, rw (skip, len, len) refl, λ a. refl)
  exec_command-outcome n k input (x ∷ w) t out c h d off nz named offs lt =
      let line = (x ∷ w) ++ spaced k [] in
      let (skip, rest) = skip_spaces-spaced fuel n input line t.mem c h.0.1 (omega (arith, lt)) in
      let p = input + n in
      let q = p + length w in
      let m' = trimmed k q t.mem in
      let t1 : Tok = record t { mem = m' } in
      let all : length (w ++ spaced k []) ≡ length w + k = length-line w k in
      let len = strlen-length t.mem fuel p line rest (omega (arith, lt, all)) in
      let last : suc (length (w ++ spaced k [])) - 1 ≡ length w + k = omega (arith, all) in
      let word : CString m' p (x ∷ w) = CString-trimmed (x ∷ w) k p q t.mem rest (omega arith) in
      let cut : trim_end (length w + k) p t.mem ≡ m' =
        trim_end-trimmed k (length w) p t.mem
          (λ i lt'. ap t.mem (omega arith) ∙ spaces_behind (x ∷ w) k p t.mem rest i lt')
        ∙ trim_end-word p x w m' word h in
      let len' = strlen-length m' fuel p (x ∷ w) word (omega (arith, lt)) in
      let some_char : (suc (length w) == 0) ≡ false =
        ==_false (suc (length w)) 0 (λ e. absurd (omega (arith, e))) in
      let delim' =
        CString-kept t.mem k q delim (32 ∷ []) (IsOff-behind input n x w k delim 1 off) d in
      let named' =
        Named-kept fuel names s t.mem k q input (n + length (x ∷ w) + k) nodes (omega arith)
          (omega arith) offs named in
      (
        record t1 { next = null },
        rw (skip, len, last, cut, len', some_char)
            (run_line-outcome p x w t1 out word h delim' (λ e. nz (omega (arith, e))) named'
              (omega (arith, lt))),
        λ a. trimmed_at k q t.mem a ∙ ground arith,
      )
