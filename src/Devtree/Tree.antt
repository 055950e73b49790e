-- ===== src/Devtree/Tree.antt =====
-- What a flattened device tree holds, and what src/devtree.c reads of it.
use osc_riscv.Base.{ℕ, ◌+◌, ◌/◌, ◌%◌, ◌^◌, ◌<◌, ◌≤◌, ◌≡◌, List, [], ◌∷◌, length, arith}
use osc_riscv.Text.{Ptr, Mem, CString}
use osc_riscv.Utils.Laws.{be2le_bytes}
use osc_riscv.Initrd.Archive.{round4, Bytes}
use osc_riscv.Devtree.{
  fdt_begin_node, fdt_end_node, fdt_prop, fdt_nop, fdt_end, fdt_magic, off_dt_struct_at,
  off_dt_strings_at, size_dt_struct_at, fdt_u32,
}

-- A token of the structure block.
pub data Item : Type 0 where
  begin_node : (name : List ℕ) → Item
  end_node : Item
  property : (name value : List ℕ) → Item
  nop : Item
  end : Item

-- A number stands in four bytes, the highest first.
abbrev pub U32At : Mem → Ptr → ℕ → Type 0
U32At m p v =
    (v < 2 ^ 32)
    × (m p ≡ v / 2 ^ 24)
    × (m (p + 1) ≡ v / 2 ^ 16 % 256)
    × (m (p + 2) ≡ v / 2 ^ 8 % 256)
    × (m (p + 3) ≡ v % 256)

pub fdt_u32-U32At : (m : Mem) (p : Ptr) (v : ℕ) → U32At m p v → fdt_u32 m p ≡ v
unfolding fdt_u32
fdt_u32-U32At m p v (small, a, b, c, d) =
    rw
      (
        a,
        b,
        c,
        d,
        be2le_bytes (v / 2 ^ 24) (v / 2 ^ 16 % 256) (v / 2 ^ 8 % 256) (v % 256)
            (omega (arith, small)) (omega arith) (omega arith) (omega arith),
      )
      (omega (arith, small))

-- The bytes that a token takes.
unfoldable pub item_size : Item → ℕ
item_size (begin_node name) = 4 + round4 (length name + 1)
item_size (property name value) = 12 + round4 (length value)
item_size _ = 4

-- A property's name stands in the strings block, at an offset.
pub record IsProperty (m : Mem) (strings p : Ptr) (name value : List ℕ) : Type 0 where
  pub offset : ℕ
  pub len : U32At m (p + 4) (length value)
  pub nameoff : U32At m (p + 8) offset
  pub near : strings + offset < 2 ^ 64
  pub text : CString m (strings + offset) name
  pub bytes : Bytes m (p + 12) value

-- A token stands at `p`.
abbrev pub IsItem : Mem → (strings p : Ptr) → Item → Type 0
IsItem m strings p (begin_node name) =
    U32At m p fdt_begin_node × CString m (p + 4) name × (length name < 2 ^ 30)
IsItem m strings p end_node = U32At m p fdt_end_node
IsItem m strings p (property name value) =
    U32At m p fdt_prop × IsProperty m strings p name value × (length value < 2 ^ 30)
IsItem m strings p nop = U32At m p fdt_nop
IsItem m strings p end = U32At m p fdt_end

-- The tokens stand one behind the other from `p` to `stop`.
abbrev pub IsStruct : Mem → (strings stop p : Ptr) → List Item → Type 0
IsStruct m strings stop p [] = p ≡ stop
IsStruct m strings stop p (x ∷ xs) =
    IsItem m strings p x × (p + item_size x ≤ stop) × IsStruct m strings stop (p + item_size x) xs

-- A device tree stands at `base`.
pub record IsTree (m : Mem) (base : Ptr) (items : List Item) : Type 0 where
  pub struct_off : ℕ
  pub strings_off : ℕ
  pub size : ℕ
  pub near : (base + struct_off + size < 2 ^ 64) × (base + strings_off < 2 ^ 64)
  pub magic : U32At m base fdt_magic
  pub off_dt_struct : U32At m (base + off_dt_struct_at) struct_off
  pub off_dt_strings : U32At m (base + off_dt_strings_at) strings_off
  pub size_dt_struct : U32At m (base + size_dt_struct_at) size
  pub items_at :
      IsStruct m (base + strings_off) (base + struct_off + size) (base + struct_off) items
