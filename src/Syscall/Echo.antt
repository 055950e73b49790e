-- ===== src/Syscall/Echo.antt =====
-- What `sys_read` of src/syscall.c stores, and what `sys_write` prints of it.
use osc_riscv.Base.{
  ℕ, ◌+◌, ◌^◌, ◌<◌, ◌≡◌, refl, ◌∙◌, some, List, [], ◌∷◌, ◌++◌, length, map, arith, lt→ltb, update,
  inl, ==_refl,
}
use osc_riscv.Text.{Ptr, Mem}
use osc_riscv.Printk.{Output, uart_puts, uart_putc}
use osc_riscv.Shell.{uart_getc}
use osc_riscv.Initrd.Archive.{Bytes}
use osc_riscv.Text.Copy.{Outside}
use osc_riscv.Syscall.{read_keys, sys_read, write_bytes, sys_write}

read_keys-Bytes :
    (p : Ptr) (line rest : List ℕ) (m : Mem)
    → (m' : Mem) × (read_keys (length line) p (line ++ rest) m ≡ some (m', rest))
      × Bytes m' p (map uart_getc line)
      × ((a : ℕ) → Outside a p (length line) → m' a ≡ m a)
unfolding read_keys
read_keys-Bytes p [] rest m = (m, refl, tt, λ a o. refl)
read_keys-Bytes p (k ∷ line) rest m =
    let (m', read, bytes, kept) = read_keys-Bytes (p + 1) line rest (update m p (uart_getc k)) in
    let first : m' p ≡ uart_getc k = kept p (inl (omega arith)) ∙ rw (==_refl p) refl in
    (m', read, (first, bytes), λ a o. kept a (ground arith) ∙ ground arith)

pub write_bytes-Bytes :
    (p : Ptr) (xs : List ℕ) (m : Mem) (out : Output)
    → Bytes m p xs
    → write_bytes (length xs) p m out ≡ uart_puts xs out
unfolding write_bytes uart_puts
write_bytes-Bytes p [] m out b = refl
write_bytes-Bytes p (x ∷ xs) m out b =
    rw (write_bytes, b.0) (write_bytes-Bytes (p + 1) xs m (uart_putc x out) b.1)

length-map : (xs : List ℕ) → length (map uart_getc xs) ≡ length xs
length-map [] = refl
length-map (x ∷ xs) = omega (arith, length-map xs)

-- `sys_read` of as many characters as a line of keys has, fewer than 2 ^ 31, returns their number,
-- leaves the keys behind the line, and changes no byte outside the buffer; `sys_write` of that many
-- characters of the buffer then prints the line, a carriage return as a newline.
pub sys_write-sys_read :
    (buf : Ptr) (line rest : List ℕ) (m : Mem) (out : Output)
    → length line < 2 ^ 31
    → (m' : Mem) × (sys_read buf (length line) (line ++ rest) m ≡ some (length line, m', rest))
      × (sys_write buf (length line) m' out ≡ (length line, uart_puts (map uart_getc line) out))
      × ((a : ℕ) → Outside a buf (length line) → m' a ≡ m a)
unfolding sys_read sys_write
sys_write-sys_read buf line rest m out small =
    let (m', read, bytes, kept) = read_keys-Bytes buf line rest m in
    let fits = lt→ltb (length line) (2 ^ 63) (omega (arith, small)) in
    let printed : write_bytes (length line) buf m' out ≡ uart_puts (map uart_getc line) out =
      rw (← length-map line) (write_bytes-Bytes buf (map uart_getc line) m' out bytes) in
    (m', rw (fits, read) refl, rw (fits, printed) refl, kept)
