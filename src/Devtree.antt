-- ===== src/Devtree.antt =====
-- `fdt_traverse` of src/devtree.c: the walk over the flattened device tree in a memory of bytes, up to
-- a property of a given name. An address is a 64-bit word; strings are read on fuel `chars`, and the
-- loop runs on fuel: `none` means that one of them ran out.
pub mod Tree
pub mod Walk
mod Examples
use osc_riscv.Base.{
  ℕ, zero, suc, ◌+◌, ◌*◌, ◌%◌, ◌^◌, Option, none, some, ◌==◌, ltb, if◌then◌else◌, List, [], ◌∷◌,
  ◌++◌, widen,
}
use osc_riscv.Text.{Ptr, Mem, strcmp, strlen, ◌>>=◌}
use osc_riscv.Utils.{align, be2le}
use osc_riscv.Utils.Laws.{word_of}
use osc_riscv.Printk.{Output, uart_puts}
use osc_riscv.Initrd.{copied, is_zero}

abbrev pub fdt_begin_node : ℕ
fdt_begin_node = 1

abbrev pub fdt_end_node : ℕ
fdt_end_node = 2

abbrev pub fdt_prop : ℕ
fdt_prop = 3

abbrev pub fdt_nop : ℕ
fdt_nop = 4

abbrev pub fdt_end : ℕ
fdt_end = 9

abbrev pub fdt_magic : ℕ
fdt_magic = 0xd00dfeed

-- Where the header's members stand.
abbrev pub off_dt_struct_at : ℕ
off_dt_struct_at = 8

abbrev pub off_dt_strings_at : ℕ
off_dt_strings_at = 12

abbrev pub size_dt_struct_at : ℕ
size_dt_struct_at = 36

-- `be2le(*(u32 *)p)`: the processor reads the lowest byte first.
unfoldable pub fdt_u32 : Mem → Ptr → ℕ
fdt_u32 m p = be2le (word_of (m p) (m (p + 1)) (m (p + 2)) (m (p + 3)))

-- "[INFO] Node: " and a newline
abbrev pub node_line : List ℕ → List ℕ
node_line name =
    (91 ∷ 73 ∷ 78 ∷ 70 ∷ 79 ∷ 93 ∷ 32 ∷ 78 ∷ 111 ∷ 100 ∷ 101 ∷ 58 ∷ 32 ∷ []) ++ name ++ (10 ∷ [])

-- "[ERROR] FDT header magic does not match!\n"
abbrev pub no_magic : List ℕ
no_magic =
    91 ∷ 69 ∷ 82 ∷ 82 ∷ 79 ∷ 82 ∷ 93 ∷ 32 ∷ 70 ∷ 68 ∷ 84 ∷ 32 ∷ 104 ∷ 101 ∷ 97 ∷ 100 ∷ 101 ∷ 114
    ∷ 32 ∷ 109 ∷ 97 ∷ 103 ∷ 105 ∷ 99 ∷ 32 ∷ 100 ∷ 111 ∷ 101 ∷ 115 ∷ 32 ∷ 110 ∷ 111 ∷ 116 ∷ 32 ∷ 109
    ∷ 97 ∷ 116 ∷ 99 ∷ 104 ∷ 33 ∷ 10 ∷ []

module _ (chars : ℕ) (m : Mem) (strings target : Ptr) where
  -- One token, whose bytes begin at `p - 4`. The walk goes on at an address, or returns.
  unfoldable pub fdt_token : (token : ℕ) (p : Ptr) → Output → Option (Option Ptr × Output)
  fdt_token token p out =
      if token == fdt_begin_node
      then (strlen chars p m >>= λ n. some (
        some ((p + widen (align ((n + 1) % 2 ^ 32) 4)) % 2 ^ 64),
        uart_puts (node_line (copied n m p)) out,
      ))
      else if token == fdt_prop
      then (strcmp chars ((strings + fdt_u32 m (p + 4)) % 2 ^ 64) target m >>= λ r.
          if is_zero r
          then some (none, out)
          else some (some ((p + widen ((8 + align (fdt_u32 m p) 4) % 2 ^ 32)) % 2 ^ 64), out))
      else some (some p, out)

  -- The loop `while (p < dt_struct + struct_size)`.
  unfoldable pub fdt_loop : ℕ → (stop p : Ptr) → Output → Option Output
  unfolding fdt_token
  fdt_loop zero stop p out = none
  fdt_loop (suc fuel) stop p out =
      let rest : Option Output = elim (fdt_token (fdt_u32 m p) ((p + 4) % 2 ^ 64) out) [
        | none ↦ none
        | some (none, out') ↦ some out'
        | some (some q, out') ↦ fdt_loop fuel stop q out'
      ] in
      if ltb p stop then rest else some out

-- The call of the callback is commented out in the source.
unfoldable pub fdt_traverse : (fuel chars : ℕ) (base target : Ptr) → Mem → Output → Option Output
unfolding fdt_loop
fdt_traverse fuel chars base target m out =
    let dt_struct = (base + fdt_u32 m (base + off_dt_struct_at)) % 2 ^ 64 in
    let dt_strings = (base + fdt_u32 m (base + off_dt_strings_at)) % 2 ^ 64 in
    let struct_size = fdt_u32 m (base + size_dt_struct_at) in
    let walked =
      fdt_loop chars m dt_strings target fuel ((dt_struct + struct_size) % 2 ^ 64) dt_struct out in
    if fdt_u32 m base == fdt_magic then walked else some (uart_puts no_magic out)
