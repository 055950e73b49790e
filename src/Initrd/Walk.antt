-- ===== src/Initrd/Walk.antt =====
-- `initrd_list` and the search for a file of src/initrd.c, on an archive.
use osc_riscv.Base.{
  ℕ, zero, suc, ◌+◌, ◌<◌, ◌≤◌, ◌≡◌, refl, some, List, [], ◌∷◌, ◌++◌, length, arith,
}
use osc_riscv.Text.{Ptr, Mem, CString}
use osc_riscv.Printk.{Output, uart_puts}
use osc_riscv.Initrd.{cpio_size, copied, list_loop, initrd_list}
use osc_riscv.Initrd.Archive.{
  Entry, IsArchive, next_at, namesize-header, initrd_get_next_hdr-header, next_ne_null,
  initrd_get_next_hdr-trailer,
}

-- A string is copied whole if there is room for it.
pub copied-CString :
    (n : ℕ) (m : Mem) (p : Ptr) (xs : List ℕ) → CString m p xs → length xs ≤ n → copied n m p ≡ xs
unfolding copied
copied-CString zero m p [] c h = refl
copied-CString zero m p (x ∷ xs) c h = absurd (omega arith)
copied-CString (suc n) m p [] c h = ground arith
copied-CString (suc n) m p (x ∷ xs) c h = ground (arith, copied-CString n m (p + 1) xs)

-- What `initrd_list` should print: the names, each on a line.
unfoldable pub put_names : List Entry → Output → Output
put_names [] out = out
put_names (e ∷ es) out = put_names es (uart_puts (e.name ++ 10 ∷ []) out)

list_loop-names :
    (fuel : ℕ) (m : Mem) (p : Ptr) (es : List Entry) (out : Output)
    → IsArchive m p es
    → length es < fuel
    → list_loop fuel m p out ≡ some (put_names es out)
unfolding list_loop put_names
list_loop-names zero m p es out a h = absurd (omega arith)
list_loop-names (suc fuel) m p [] out a h = rw (initrd_get_next_hdr-trailer m p a) refl
list_loop-names (suc fuel) m p (e ∷ es) out a h =
    let name = copied-CString (length e.name + 1) m (p + cpio_size) e.name a.0.name (omega arith) in
    rw
      (
        next_ne_null m p e a.0,
        initrd_get_next_hdr-header m p e a.0,
        namesize-header m p e a.0,
        name,
      )
      (list_loop-names fuel m (p + next_at e) es (uart_puts (e.name ++ 10 ∷ []) out) a.1
        (omega arith))

-- `initrd_list` ends on an archive with fewer files than the fuel, and prints their names in order.
pub initrd_list-names :
    (fuel : ℕ) (base : Ptr) (m : Mem) (es : List Entry) (out : Output)
    → IsArchive m base es
    → length es < fuel
    → initrd_list fuel base m out ≡ some (put_names es out)
unfolding initrd_list
initrd_list-names fuel base m es out a h = list_loop-names fuel m base es out a h
