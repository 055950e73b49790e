-- ===== src/Devtree/Examples.antt =====
-- The theorem on src/devtree.c, applied to a tree of one node with one property.
use osc_riscv.Base.{◌≡◌, refl, [], ◌∷◌, List, some, arith, ◌==◌, if◌then◌else◌}
use osc_riscv.Text.{Mem}
use osc_riscv.Devtree.{fdt_traverse}
use osc_riscv.Devtree.Tree.{Item, begin_node, end_node, property, IsTree}
use osc_riscv.Devtree.Walk.{put_nodes, fdt_traverse-nodes}

-- The node "a" with the property "r" of the bytes 7 and 8; the text "r" at 8192.
abbrev memory : Mem
memory a =
    if a == 4096
    then 208
    else if a == 4097
    then 13
    else if a == 4098
    then 254
    else if a == 4099
    then 237
    else if a == 4107
    then 40
    else if a == 4111
    then 100
    else if a == 4135
    then 28
    else if a == 4139
    then 1
    else if a == 4140
    then 97
    else if a == 4147
    then 3
    else if a == 4151
    then 2
    else if a == 4156
    then 7
    else if a == 4157
    then 8
    else if a == 4163
    then 2
    else if a == 4196
    then 114
    else if a == 8192
    then 114
    else 0

abbrev items : List Item
items = begin_node (97 ∷ []) ∷ property (114 ∷ []) (7 ∷ 8 ∷ []) ∷ end_node ∷ []

tree : IsTree memory 4096 items
unfolding osc_riscv.Devtree.Tree.item_size
tree = record {
  struct_off = 40;
  strings_off = 100;
  size = 28;
  near = (omega arith, omega arith);
  magic = ground arith;
  off_dt_struct = ground arith;
  off_dt_strings = ground arith;
  size_dt_struct = ground arith;
  items_at = (
    (ground arith, ground arith, ground arith),
    omega arith,
    (
      (
        ground arith,
        record {
          offset = 0;
          len = ground arith;
          nameoff = ground arith;
          near = omega arith;
          text = ground arith;
          bytes = ground arith;
        },
        ground arith,
      ),
      omega arith,
      (ground arith, omega arith, refl),
    ),
  );
}

fdt_traverse-nodes_example :
    fdt_traverse 4 2 4096 8192 memory [] ≡ some (put_nodes (114 ∷ []) items [])
fdt_traverse-nodes_example =
    fdt_traverse-nodes 4 2 4096 8192 (114 ∷ []) memory items [] (ground arith) tree
      (omega arith, (omega arith, (omega arith, tt))) (omega arith)
