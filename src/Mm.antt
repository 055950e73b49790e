-- ===== src/Mm.antt =====
-- src/mm.c and include/mm.h: the buddy allocator over `mem_map`. A `struct page *` into `mem_map` is
-- the index of its page. The lists of free blocks are those of include/list.h, threaded through the
-- pages' `list` members.
pub mod Counts
pub mod Defs
pub mod Blocks
pub mod Invariant
pub mod Kmalloc
pub mod Alloc
pub mod Merge
pub mod Examples
pub mod Free
pub mod Rings
pub mod Take
pub use Defs.*
