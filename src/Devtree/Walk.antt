-- ===== src/Devtree/Walk.antt =====
-- The walk of src/devtree.c over a device tree.
use osc_riscv.Base.{
  ℕ, zero, suc, ◌+◌, ◌%◌, ◌^◌, ◌<◌, ◌≤◌, ◌≡◌, refl, ◌∙◌, inl, inr, false, Bool-cases, none, some,
  List, [], ◌∷◌, length, All, arith, ltb, lt→ltb, if◌then◌else◌, widen, widen_small,
}
use osc_riscv.Text.{Ptr, Mem, CString}
use osc_riscv.Text.Compare.{strcmp-diff, strlen-length}
use osc_riscv.Printk.{Output, uart_puts}
use osc_riscv.Initrd.Archive.{round4, align4}
use osc_riscv.Initrd.Walk.{copied-CString}
use osc_riscv.Initrd.Cat.{same_text, is_zero-diff}
use osc_riscv.Devtree.{
  node_line, fdt_token, fdt_loop, fdt_traverse, off_dt_struct_at, off_dt_strings_at,
  size_dt_struct_at, fdt_begin_node, fdt_end_node, fdt_prop, fdt_nop, fdt_end, fdt_magic,
}
use osc_riscv.Devtree.Tree.{
  U32At, Item, begin_node, end_node, property, nop, end, fdt_u32-U32At, item_size, IsProperty,
  IsStruct, IsTree,
}

lt_irrefl : (n : ℕ) → ltb n n ≡ false
lt_irrefl n = ground arith

-- What the walk should print: the nodes' names, up to the first property of the name.
unfoldable pub put_nodes : (name : List ℕ) → List Item → Output → Output
put_nodes t [] out = out
put_nodes t (begin_node name ∷ xs) out = put_nodes t xs (uart_puts (node_line name) out)
put_nodes t (property name value ∷ xs) out =
    let rest = put_nodes t xs out in if same_text name t then out else rest
put_nodes t (_ ∷ xs) out = put_nodes t xs out

-- The names in the tree are shorter than the fuel for strings.
abbrev pub ShortNames : (chars : ℕ) → List Item → Type 0
ShortNames chars = All (λ (x : Item). elim x [
  | begin_node name ↦ length name < chars
  | property name value ↦ length name < chars
  | _ ↦ 0 < chars
])

module _ (chars : ℕ) (m : Mem) (strings target : Ptr) (t : List ℕ) (c : CString m target t) where
  fdt_token-begin_node :
      (p : Ptr) (name : List ℕ) (out : Output)
      → CString m p name
      → length name < chars
      → length name < 2 ^ 30
      → p + round4 (length name + 1) < 2 ^ 64
      → fdt_token chars m strings target fdt_begin_node p out
        ≡ some (some (p + round4 (length name + 1)), uart_puts (node_line name) out)
  unfolding fdt_token
  fdt_token-begin_node p name out text h small near =
      let plain : (length name + 1) % 2 ^ 32 ≡ length name + 1 = omega (arith, small) in
      let rounded = align4 (length name + 1) (omega (arith, small)) in
      let wide : widen (round4 (length name + 1)) ≡ round4 (length name + 1) =
        widen_small (round4 (length name + 1)) (omega (arith, small)) in
      let next : (p + round4 (length name + 1)) % 2 ^ 64 ≡ p + round4 (length name + 1) =
        omega (arith, near) in
      let whole = copied-CString (length name) m p name text (omega arith) in
      rw (strlen-length m chars p name text h, plain, rounded, wide, next, whole) refl

  fdt_token-property :
      (p : Ptr) (name value : List ℕ) (out : Output)
      → IsProperty m strings p name value
      → length name < chars
      → length value < 2 ^ 30
      → p + (12 + round4 (length value)) < 2 ^ 64
      → fdt_token chars m strings target fdt_prop (p + 4) out ≡ (
          if same_text name t
          then some (none, out)
          else some (some (p + (12 + round4 (length value))), out))
  unfolding fdt_token
  fdt_token-property p name value out h short small near =
      let there : p + 4 + 4 ≡ p + 8 = omega arith in
      let at : (strings + h.offset) % 2 ^ 64 ≡ strings + h.offset = omega (arith, h.near) in
      let len = fdt_u32-U32At m (p + 4) (length value) h.len in
      let off = fdt_u32-U32At m (p + 8) h.offset h.nameoff in
      let rounded = align4 (length value) (omega (arith, small)) in
      let plain : (8 + round4 (length value)) % 2 ^ 32 ≡ 8 + round4 (length value) =
        omega (arith, small) in
      let wide : widen (8 + round4 (length value)) ≡ 8 + round4 (length value) =
        widen_small (8 + round4 (length value)) (omega (arith, small)) in
      let next : (p + 4 + (8 + round4 (length value))) % 2 ^ 64 ≡ p + (12 + round4 (length value)) =
        omega (arith, near) in
      rw
        (
          there,
          off,
          at,
          strcmp-diff m chars (strings + h.offset) target name t h.text c short,
          is_zero-diff m (strings + h.offset) target name t h.text c,
          len,
          rounded,
          plain,
          wide,
          next,
        )
        refl

  -- One round, at a token.
  fdt_loop-token :
      (fuel : ℕ) (stop p token : ℕ) (out : Output)
      → U32At m p token
      → p + 4 ≤ stop
      → stop < 2 ^ 64
      → fdt_loop chars m strings target (suc fuel) stop p out
        ≡ (elim (fdt_token chars m strings target token (p + 4) out) [
          | none ↦ none
          | some (none, out') ↦ some out'
          | some (some q, out') ↦ fdt_loop chars m strings target fuel stop q out'
        ])
  unfolding fdt_loop
  fdt_loop-token fuel stop p token out item le near =
      let wide : (p + 4) % 2 ^ 64 ≡ p + 4 = omega (arith, le, near) in
      rw (lt→ltb p stop (omega (arith, le)), fdt_u32-U32At m p token item, wide) refl

  fdt_loop-end :
      (fuel stop p : ℕ) (out : Output)
      → p ≡ stop
      → fdt_loop chars m strings target (suc fuel) stop p out ≡ some out
  unfolding fdt_loop
  fdt_loop-end fuel stop p out e = rw (e, lt_irrefl stop) refl

  fdt_loop-nodes :
      (fuel : ℕ) (stop p : Ptr) (xs : List Item) (out : Output)
      → IsStruct m strings stop p xs
      → stop < 2 ^ 64
      → ShortNames chars xs
      → length xs < fuel
      → fdt_loop chars m strings target fuel stop p out ≡ some (put_nodes t xs out)
  unfolding put_nodes item_size fdt_token
  fdt_loop-nodes zero stop p xs out a near short h = absurd (omega arith)
  fdt_loop-nodes (suc fuel) stop p [] out a near short h = fdt_loop-end fuel stop p out a
  fdt_loop-nodes (suc fuel) stop p (begin_node name ∷ xs) out (item, le, rest) near short h =
      let size : p + 4 + round4 (length name + 1) ≡ p + (4 + round4 (length name + 1)) =
        omega arith in
      fdt_loop-token fuel stop p fdt_begin_node out item.0 (omega (arith, le)) near
      ∙ rw
          (
            fdt_token-begin_node (p + 4) name out item.1 short.0 item.2 (omega (arith, le, near)),
            size,
          )
          (fdt_loop-nodes fuel stop (p + (4 + round4 (length name + 1))) xs
            (uart_puts (node_line name) out) rest near short.1 (omega (arith, h)))
  fdt_loop-nodes (suc fuel) stop p (property name value ∷ xs) out (item, le, rest) near short h =
      let loop = fdt_loop-token fuel stop p fdt_prop out item.0 (omega (arith, le)) near in
      let token =
        fdt_token-property p name value out item.1 short.0 item.2 (omega (arith, le, near)) in
      elim (Bool-cases (same_text name t)) [
        | inl same ↦ rw (loop, token, same) refl
        | inr other ↦
            rw (loop, token, other)
              (fdt_loop-nodes fuel stop (p + (12 + round4 (length value))) xs out rest near short.1
                (omega (arith, h)))
      ]
  fdt_loop-nodes (suc fuel) stop p (end_node ∷ xs) out (item, le, rest) near short h =
      fdt_loop-token fuel stop p fdt_end_node out item le near
      ∙ fdt_loop-nodes fuel stop (p + 4) xs out rest near short.1 (omega (arith, h))
  fdt_loop-nodes (suc fuel) stop p (nop ∷ xs) out (item, le, rest) near short h =
      fdt_loop-token fuel stop p fdt_nop out item le near
      ∙ fdt_loop-nodes fuel stop (p + 4) xs out rest near short.1 (omega (arith, h))
  fdt_loop-nodes (suc fuel) stop p (end ∷ xs) out (item, le, rest) near short h =
      fdt_loop-token fuel stop p fdt_end out item le near
      ∙ fdt_loop-nodes fuel stop (p + 4) xs out rest near short.1 (omega (arith, h))

-- On a device tree with fewer tokens than the fuel, and with names shorter than the fuel for strings,
-- `fdt_traverse` ends; it prints the names of the nodes in order, up to the first property that has
-- the name asked for.
pub fdt_traverse-nodes :
    (fuel chars : ℕ) (base target : Ptr) (t : List ℕ) (m : Mem) (items : List Item) (out : Output)
    → CString m target t
    → IsTree m base items
    → ShortNames chars items
    → length items < fuel
    → fdt_traverse fuel chars base target m out ≡ some (put_nodes t items out)
unfolding fdt_traverse
fdt_traverse-nodes fuel chars base target t m items out c h short lt =
    let first : (base + h.struct_off) % 2 ^ 64 ≡ base + h.struct_off = omega (arith, h.near) in
    let names : (base + h.strings_off) % 2 ^ 64 ≡ base + h.strings_off = omega (arith, h.near) in
    let stop : (base + h.struct_off + h.size) % 2 ^ 64 ≡ base + h.struct_off + h.size =
      omega (arith, h.near) in
    rw
      (
        fdt_u32-U32At m base fdt_magic h.magic,
        fdt_u32-U32At m (base + off_dt_struct_at) h.struct_off h.off_dt_struct,
        fdt_u32-U32At m (base + off_dt_strings_at) h.strings_off h.off_dt_strings,
        fdt_u32-U32At m (base + size_dt_struct_at) h.size h.size_dt_struct,
        first,
        names,
        stop,
      )
      (fdt_loop-nodes chars m (base + h.strings_off) target t c fuel (base + h.struct_off + h.size)
        (base + h.struct_off) items out h.items_at (omega (arith, h.near)) short lt)
