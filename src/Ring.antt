-- ===== src/Ring.antt =====
-- include/list.h: circular doubly linked lists that are threaded through the structures they link.
-- A `struct list_head` is a pointer; the memory holds the `prev` and `next` word of each.
pub mod Add
pub mod Chain
pub mod Del
pub mod Each
mod Examples
pub mod Walk
use osc_riscv.Base.{ℕ, zero, suc, Bool, Option, none, some, ◌==◌, if◌then◌else◌, update, ◌+◌}

abbrev pub Ptr : Type 0
Ptr = ℕ

pub record Links : Type 0 where
  pub prev : Ptr → Ptr
  pub next : Ptr → Ptr

-- `p->prev = q` and `p->next = q`.
abbrev pub set_prev : Ptr → Ptr → Links → Links
set_prev p q m = record m { prev = update m.prev p q }

abbrev pub set_next : Ptr → Ptr → Links → Links
set_next p q m = record m { next = update m.next p q }

unfoldable pub init_list_head : Ptr → Links → Links
init_list_head head m = let m = set_next head head m in set_prev head head m

-- `__list_add`
unfoldable pub list_add_between : (node prev next : Ptr) → Links → Links
list_add_between node prev next m =
    let m = set_prev next node m in
    let m = set_next node next m in let m = set_prev node prev m in set_next prev node m

unfoldable pub list_add : (node head : Ptr) → Links → Links
unfolding list_add_between
list_add node head m = list_add_between node head (m.next head) m

unfoldable pub list_add_tail : (node head : Ptr) → Links → Links
unfolding list_add_between
list_add_tail node head m = list_add_between node (m.prev head) head m

-- `__list_del`
unfoldable pub list_del_between : (prev next : Ptr) → Links → Links
list_del_between prev next m = let m = set_prev next prev m in set_next prev next m

unfoldable pub list_del_init : Ptr → Links → Links
unfolding list_del_between init_list_head
list_del_init entry m =
    let m = list_del_between (m.prev entry) (m.next entry) m in init_list_head entry m

unfoldable pub list_is_last : (list head : Ptr) → Links → Bool
list_is_last list head m = m.next list == head

unfoldable pub list_is_head : (list head : Ptr) → Bool
list_is_head list head = list == head

unfoldable pub list_empty : Ptr → Links → Bool
list_empty head m = m.next head == head

-- The cursors are pointers to the `list_head` members: `list_entry` only changes their type.
unfoldable pub list_first_entry : Ptr → Links → Ptr
list_first_entry head m = m.next head

unfoldable pub list_next_entry : Ptr → Links → Ptr
list_next_entry pos m = m.next pos

unfoldable pub list_next_entry_circular : (pos head : Ptr) → Links → Ptr
unfolding list_is_last list_first_entry list_next_entry
list_next_entry_circular pos head m =
    if list_is_last pos head m then list_first_entry head m else list_next_entry pos m

-- The loop of `list_count_nodes` from the cursor `pos`; `none` means that the fuel ran out.
unfoldable pub count_nodes_loop : ℕ → (pos head : Ptr) → ℕ → Links → Option ℕ
unfolding list_is_head
count_nodes_loop zero pos head count m = none
count_nodes_loop (suc fuel) pos head count m =
    let rest = count_nodes_loop fuel (m.next pos) head (count + 1) m in
    if list_is_head pos head then some count else rest

unfoldable pub list_count_nodes : ℕ → Ptr → Links → Option ℕ
unfolding count_nodes_loop
list_count_nodes fuel head m = count_nodes_loop fuel (m.next head) head 0 m

-- The loop of `list_for_each` from the cursor `pos`, with a body that returns at the first entry that
-- passes the test. The inner `none` is a loop that comes to its end, the outer that the fuel ran out.
unfoldable pub each_loop : (Ptr → Bool) → ℕ → (pos head : Ptr) → Links → Option (Option Ptr)
unfolding list_is_head
each_loop test zero pos head m = none
each_loop test (suc fuel) pos head m =
    let rest = each_loop test fuel (m.next pos) head m in
    if list_is_head pos head then some none else if test pos then some (some pos) else rest

unfoldable pub list_for_each : (Ptr → Bool) → ℕ → (head : Ptr) → Links → Option (Option Ptr)
unfolding each_loop
list_for_each test fuel head m = each_loop test fuel (m.next head) head m

-- The loop of `list_for_each_safe`: the body may take the entry at the cursor out of the list.
unfoldable pub each_safe_loop {ℓ} :
    {S : Type ℓ} → (S → Links) → (Ptr → S → S) → ℕ → (pos n head : Ptr) → S → Option S
unfolding list_is_head
each_safe_loop links body zero pos n head s = none
each_safe_loop links body (suc fuel) pos n head s =
    let s' = body pos s in
    let rest = each_safe_loop links body fuel n ((links s').next n) head s' in
    if list_is_head pos head then some s else rest

unfoldable pub list_for_each_safe {ℓ} :
    {S : Type ℓ} → (S → Links) → (Ptr → S → S) → ℕ → (head : Ptr) → S → Option S
unfolding each_safe_loop
list_for_each_safe links body fuel head s =
    let pos = (links s).next head in each_safe_loop links body fuel pos ((links s).next pos) head s
