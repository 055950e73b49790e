-- ===== src/Initrd.antt =====
-- src/initrd.c: the cpio archive in memory. The memory is one of bytes, and an address a 64-bit word.
-- A loop over the archive runs on fuel, and `none` means that the fuel ran out.
mod Examples
pub mod Archive
pub mod Cat
pub mod Exec
pub mod Walk
use osc_riscv.Base.{
  ℕ, zero, suc, ◌+◌, ◌%◌, ◌^◌, Bool, true, Option, none, some, ◌==◌, ◌&&◌, false, if◌then◌else◌,
  List, [], ◌∷◌, ◌++◌, widen, pos, ℤ,
}
use osc_riscv.Text.{Ptr, Mem, null, memcmp}
use osc_riscv.Utils.{hextoi, align}
use osc_riscv.Printk.{Output, uart_puts}

-- `sizeof(struct cpio_t)`, and where its members `filesize` and `namesize` stand.
abbrev pub cpio_size : ℕ
cpio_size = 110

abbrev pub filesize_at : ℕ
filesize_at = 54

abbrev pub namesize_at : ℕ
namesize_at = 94

-- `!memcmp(p, s, n)` for the `n` bytes of a literal.
abbrev pub same_bytes : Mem → Ptr → List ℕ → Bool
same_bytes m p [] = true
same_bytes m p (c ∷ s) = m p == c && same_bytes m (p + 1) s

abbrev pub is_zero : ℤ → Bool
is_zero (pos n) = n == 0
is_zero _ = false

-- "TRAILER!!!"
abbrev pub trailer : List ℕ
trailer = 84 ∷ 82 ∷ 65 ∷ 73 ∷ 76 ∷ 69 ∷ 82 ∷ 33 ∷ 33 ∷ 33 ∷ []

unfoldable pub namesize : Mem → Ptr → ℕ
namesize m ptr = hextoi m (ptr + namesize_at) 8

unfoldable pub filesize : Mem → Ptr → ℕ
filesize m ptr = hextoi m (ptr + filesize_at) 8

unfoldable pub headsize : Mem → Ptr → ℕ
unfolding namesize
headsize m ptr = align ((cpio_size + namesize m ptr) % 2 ^ 32) 4

unfoldable pub initrd_get_next_hdr : Mem → Ptr → Ptr
unfolding headsize filesize
initrd_get_next_hdr m ptr =
    if same_bytes m (ptr + cpio_size) trailer
    then null
    else (ptr + widen (headsize m ptr) + widen (align (filesize m ptr) 4)) % 2 ^ 64

-- The bytes that `strncpy` copies of a string into an array of `n`, without the zero.
unfoldable pub copied : (n : ℕ) → Mem → Ptr → List ℕ
copied zero m p = []
copied (suc n) m p = let rest = copied n m (p + 1) in if m p == 0 then [] else m p ∷ rest

-- The loop of `initrd_list`: `printk("%s\n", pathname)` for each header. A name of `namesize` bytes
-- without a zero is not the end of a string, and is not told apart here.
unfoldable pub list_loop : ℕ → Mem → Ptr → Output → Option Output
unfolding namesize copied
list_loop zero m ptr out = none
list_loop (suc fuel) m ptr out =
    let rest =
      list_loop fuel m (initrd_get_next_hdr m ptr)
        (uart_puts (copied (namesize m ptr) m (ptr + cpio_size) ++ 10 ∷ []) out) in
    if initrd_get_next_hdr m ptr == null then some out else rest

unfoldable pub initrd_list : ℕ → (base : Ptr) → Mem → Output → Option Output
unfolding list_loop
initrd_list fuel base m out = list_loop fuel m base out

-- The search of `initrd_cat` and `initrd_exec`; the inner `none` is an archive without the file.
unfoldable pub find_loop : ℕ → Mem → (ptr target : Ptr) → Option (Option Ptr)
unfolding namesize
find_loop zero m ptr target = none
find_loop (suc fuel) m ptr target =
    let rest = find_loop fuel m (initrd_get_next_hdr m ptr) target in
    if initrd_get_next_hdr m ptr == null
    then some none
    else if is_zero (memcmp (ptr + cpio_size) target (namesize m ptr) m)
    then some (some ptr)
    else rest

-- "cat: " and " not found\n"
abbrev pub not_found : List ℕ → List ℕ
not_found name =
    (99 ∷ 97 ∷ 116 ∷ 58 ∷ 32 ∷ [])
    ++ name
    ++ (32 ∷ 110 ∷ 111 ∷ 116 ∷ 32 ∷ 102 ∷ 111 ∷ 117 ∷ 110 ∷ 100 ∷ 10 ∷ [])

-- What is printed of the header that the search has found.
unfoldable pub cat_found : Option Ptr → (name : List ℕ) → Mem → Output → Output
unfolding copied filesize headsize
cat_found none name m out = uart_puts (not_found name) out
cat_found (some ptr) name m out =
    uart_puts (copied (filesize m ptr) m (ptr + widen (headsize m ptr)) ++ 10 ∷ []) out

-- `name` is the string at `target`.
unfoldable pub initrd_cat : ℕ → (base target : Ptr) → (name : List ℕ) → Mem → Output → Option Output
unfolding find_loop cat_found
initrd_cat fuel base target name m out =
    let found = find_loop fuel m base target in
    let printed : Option Output = elim found [
      | none ↦ none
      | some place ↦ some (cat_found place name m out)
    ] in
    if target == null then some out else printed
