-- ===== src/Mm/Kmalloc/Caches.antt =====
-- The object caches: what `kmem_cache_alloc` and `kmem_cache_free` take out and put in.
use osc_riscv.Base.{ℕ, ◌≡◌, refl, List, [], ◌∷◌, ◌++◌, ◌∉◌, some}
use osc_riscv.Ring.{Ptr, list_del_init}
use osc_riscv.Ring.Chain.{IsRing}
use osc_riscv.Ring.Add.{list_add_tail-IsRing}
use osc_riscv.Ring.Del.{list_del_init-IsRing}
use osc_riscv.Ring.Walk.{list_empty-ring, list_first_entry-ring}
use osc_riscv.Mm.Defs.{Layout, Mm}
use osc_riscv.Mm.Kmalloc.{cache, kmem_cache_alloc, kmem_cache_free, take_object, virt_to_page}

-- A cache is a queue: of a cache that has objects, `kmem_cache_alloc` returns the first and leaves the
-- others; and an object that `kmem_cache_free` gives back to its page's cache becomes the last.
pub kmem_cache-queue :
    (l : Layout) (caches : Ptr) (index obj : ℕ) (objs : List ℕ) (s : Mm) (ptr : ℕ)
    → IsRing s.links (cache l caches index) (obj ∷ objs)
    → s.cacheidx (virt_to_page ptr) ≡ index
    → ptr ∉ cache l caches index ∷ obj ∷ objs
    → ((s' : Mm) × (kmem_cache_alloc l caches index s ≡ some (obj, s'))
        × IsRing s'.links (cache l caches index) objs)
      × IsRing
          (kmem_cache_free l caches ptr s).links
          (cache l caches index)
          (obj ∷ objs ++ ptr ∷ [])
unfolding kmem_cache_alloc kmem_cache_free take_object
kmem_cache-queue l caches index obj objs s ptr r home out =
    let full = list_empty-ring s.links (cache l caches index) (obj ∷ objs) r in
    let first = list_first_entry-ring s.links (cache l caches index) obj objs r in
    (
      (
        record s { links = list_del_init obj s.links },
        rw (full, first) refl,
        list_del_init-IsRing s.links (cache l caches index) obj [] objs r,
      ),
      rw home (list_add_tail-IsRing s.links ptr (cache l caches index) (obj ∷ objs) r out),
    )
