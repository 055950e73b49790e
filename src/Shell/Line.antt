-- ===== src/Shell/Line.antt =====
-- The line that the editor of src/shell.c leaves in its buffer.
use osc_riscv.Base.{
  ℕ, ◌+◌, ◌<◌, ◌≤◌, ◌≡◌, ◌≢◌, refl, subst, ◌∙◌, Bool, true, Option, none, some, leb, ltb, ◌==◌,
  ◌&&◌, if◌then◌else◌, List, [], ◌∷◌, length, update, arith, Bool-cases, inl, inr,
}
use native.Mathlib.Nat.{add-zero}
use osc_riscv.Text.{Ptr, Mem, CString}
use osc_riscv.Text.Copy.{Outside}
use osc_riscv.Printk.{Output, uart_putc}
use osc_riscv.Shell.{Editor, uart_getc, edit_key, read_loop, read_user_input, shell_buf_size}

-- A line under edition, the last character first: a printable character is put in front, a delete
-- takes one away, every other key does nothing.
unfoldable pub type_key : ℕ → List ℕ → List ℕ
type_key c [] = if leb 32 c && leb c 126 then c ∷ [] else []
type_key c (x ∷ line) =
    if leb 32 c && leb c 126 then c ∷ x ∷ line else if c == 127 then line else x ∷ line

-- A reversed line in front of a list.
unfoldable pub forwards : List ℕ → List ℕ → List ℕ
forwards [] ys = ys
forwards (x ∷ line) ys = forwards line (x ∷ ys)

-- The line that some keys type, and the keys behind its newline.
unfoldable pub typed : List ℕ → List ℕ → Option (List ℕ × List ℕ)
unfolding uart_getc type_key forwards
typed line [] = none
typed line (k ∷ keys) =
    let c = uart_getc k in
    let rest = typed (type_key c line) keys in
    if c == 10 then some (forwards line [], keys) else rest

-- At no key the line has `n` characters or more.
unfoldable pub fits : (n : ℕ) → List ℕ → List ℕ → Bool
unfolding uart_getc type_key
fits n line [] = ltb (length line) n
fits n line (k ∷ keys) =
    let c = uart_getc k in
    let rest = fits n (type_key c line) keys in
    ltb (length line) n && (if c == 10 then true else rest)

-- The bytes of a reversed line stand in the buffer.
abbrev pub Stored : Mem → Ptr → List ℕ → Type 0
Stored m buf [] = Unit
Stored m buf (c ∷ line) = (m (buf + length line) ≡ c) × (c ≢ 0) × Stored m buf line

Stored-update :
    (m : Mem) (buf i v : ℕ) (line : List ℕ)
    → length line ≤ i
    → Stored m buf line
    → Stored (update m (buf + i) v) buf line
Stored-update m buf i v [] le h = tt
Stored-update m buf i v (c ∷ line) le h =
    (ground arith, h.1, Stored-update m buf i v line (omega arith) h.2)

CString-forwards :
    (m : Mem) (buf : Ptr) (line ys : List ℕ)
    → Stored m buf line
    → CString m (buf + length line) ys
    → CString m buf (forwards line ys)
unfolding forwards
CString-forwards m buf [] ys h c = subst (λ p. CString m p ys) (add-zero buf) c
CString-forwards m buf (x ∷ line) ys h c =
    CString-forwards m buf line (x ∷ ys) h.2 (h.0, h.1, subst (λ p. CString m p ys) (omega arith) c)

-- The editor holds the reversed line.
abbrev pub Holding : Ptr → Editor → List ℕ → Type 0
Holding buf s line = (s.idx ≡ length line) × Stored s.mem buf line

Holding-edit_key :
    (buf : Ptr) (c : ℕ) (s : Editor) (line : List ℕ)
    → Holding buf s line
    → Holding buf (edit_key buf c s) (type_key c line)
unfolding edit_key type_key
Holding-edit_key buf c s [] h = ground arith
Holding-edit_key buf c s (x ∷ line) h =
    ground (arith, Stored-update s.mem buf s.idx c (x ∷ line), Stored-update s.mem buf s.idx 0 line)

edit_key-Outside :
    (buf : Ptr) (c n : ℕ) (s : Editor) (line : List ℕ)
    → Holding buf s line
    → length line < n
    → (a : ℕ) → Outside a buf n
    → (edit_key buf c s).mem a ≡ s.mem a
unfolding edit_key
edit_key-Outside buf c n s line h lt a o = ground (arith, h.0)

module _ (buf : Ptr) where
  read_loop-typed :
      (keys : List ℕ) (s : Editor) (line text rest : List ℕ)
      → Holding buf s line
      → typed line keys ≡ some (text, rest)
      → (s' : Editor) × (read_loop buf keys s ≡ some (s', rest)) × CString s'.mem buf text
  unfolding read_loop typed
  read_loop-typed [] s line text rest h e = absurd (ground arith)
  read_loop-typed (k ∷ keys) s line text rest h e = elim (Bool-cases (uart_getc k == 10)) [
    | inl ends ↦
        let same : some (forwards line [], keys) ≡ some (text, rest) = rw ends at e in
        let line_is : forwards line [] ≡ text = ground arith in
        let rest_is : keys ≡ rest = ground arith in
        let m = update s.mem (buf + s.idx) 0 in
        let kept = Stored-update s.mem buf s.idx 0 line (omega (arith, h.0)) h.1 in
        let ended : m (buf + length line) ≡ 0 = ground (arith, h.0) in
        (
          record s { mem = m; out = uart_putc (uart_getc k) s.out },
          rw (ends, rest_is) refl,
          subst (λ t. CString m buf t) line_is (CString-forwards m buf line [] kept ended),
        )
    | inr more ↦ rw more (
        read_loop-typed keys (edit_key buf (uart_getc k) s) (type_key (uart_getc k) line) text rest
          (Holding-edit_key buf (uart_getc k) s line h) (rw more at e))
  ]

  read_loop-Outside :
      (keys : List ℕ) (n : ℕ) (s s' : Editor) (line rest : List ℕ)
      → Holding buf s line
      → fits n line keys ≡ true
      → read_loop buf keys s ≡ some (s', rest)
      → (a : ℕ) → Outside a buf n
      → s'.mem a ≡ s.mem a
  unfolding read_loop fits
  read_loop-Outside [] n s s' line rest h f e a o = absurd (ground arith)
  read_loop-Outside (k ∷ keys) n s s' line rest h f e a o = elim (Bool-cases (uart_getc k == 10)) [
    | inl ends ↦ ground (arith, h.0)
    | inr more ↦
        let next : fits n (type_key (uart_getc k) line) keys ≡ true = ground (arith, more) in
        let later =
          read_loop-Outside keys n (edit_key buf (uart_getc k) s) s' (type_key (uart_getc k) line)
            rest (Holding-edit_key buf (uart_getc k) s line h) next (rw more at e) a o in
        later ∙ edit_key-Outside buf (uart_getc k) n s line h (ground (arith, f)) a o
  ]

-- `read_user_input` ends with the first newline, and leaves the line that the keys have typed as a
-- string in its buffer, whatever its length is; the keys behind the newline are still to be read.
pub read_user_input-typed :
    (buf : Ptr) (keys : List ℕ) (m : Mem) (out : Output) (text rest : List ℕ)
    → typed [] keys ≡ some (text, rest)
    → (s' : Editor) × (read_user_input buf keys m out ≡ some (s', rest)) × CString s'.mem buf text
unfolding read_user_input
read_user_input-typed buf keys m out text rest e =
    read_loop-typed buf keys (record { idx = 0; mem = m; out = out }) [] text rest (refl, tt) e

-- While the line stays shorter than the buffer, `read_user_input` writes nothing outside it.
pub read_user_input-Outside :
    (buf : Ptr) (keys : List ℕ) (m : Mem) (out : Output) (s' : Editor) (rest : List ℕ)
    → fits shell_buf_size [] keys ≡ true
    → read_user_input buf keys m out ≡ some (s', rest)
    → (a : ℕ) → Outside a buf shell_buf_size
    → s'.mem a ≡ m a
unfolding read_user_input
read_user_input-Outside buf keys m out s' rest f e =
    read_loop-Outside buf keys shell_buf_size (record { idx = 0; mem = m; out = out }) s' [] rest
      (refl, tt) f e
