-- ===== src/Initrd/Exec/Mapped.antt =====
-- The lists of areas of a process that src/initrd.c starts.
use osc_riscv.Base.{ℕ, List, [], ◌∷◌, ◌++◌, ◌∈◌, ◌∉◌, arith}
use osc_riscv.Ring.{Ptr, Links, list_add_tail, init_list_head}
use osc_riscv.Ring.Chain.{IsRing, IsRing-frame}
use osc_riscv.Ring.Add.{
  list_add_tail-IsRing, list_add_tail-SameOutside, init_list_head-IsRing, init_list_head-frame,
}
use osc_riscv.Sched.{Kernel, Fresh, kthread_create}
use osc_riscv.Sched.Create.{IsThreads}
use osc_riscv.Vm.{vm_mmap}
use osc_riscv.Initrd.Exec.{Processes, mmap_into}

-- A node put at the end of one list leaves another list alone.
pub list_add_tail-frame :
    (m : Links) (node head head' : Ptr) (xs ys : List Ptr)
    → IsRing m head xs
    → ((a : Ptr) → a ∈ head' ∷ ys → a ∉ head ∷ node ∷ xs)
    → IsRing m head' ys
    → IsRing (list_add_tail node head m) head' ys
list_add_tail-frame m node head head' xs ys r apart r' =
    IsRing-frame m (list_add_tail node head m) head' ys (head ∷ node ∷ xs)
      (list_add_tail-SameOutside m node head xs r) apart r'

module _ (runqueue : Ptr) (pg_dir : ℕ) (fresh : Fresh) (threadfn : ℕ) (k : Kernel) (xs : List Ptr)
    (h : IsThreads runqueue k xs) (out : fresh.task ∉ runqueue ∷ xs)
    (out' : fresh.mmap ∉ runqueue ∷ fresh.task ∷ xs) where
  -- The new task has no areas yet.
  pub kthread_create-mmap :
      IsRing (kthread_create runqueue pg_dir fresh threadfn k).1.links fresh.mmap []
  unfolding kthread_create
  kthread_create-mmap =
      list_add_tail-frame (init_list_head fresh.mmap k.links) fresh.task runqueue fresh.mmap xs []
        (init_list_head-frame k.links fresh.mmap runqueue xs (ground arith) h.ring)
        (λ a j. ground arith) (init_list_head-IsRing k.links fresh.mmap)

-- An area put at the end of a process's list.
pub mmap_into-IsThreads :
    (runqueue vma mm file addr len prot : ℕ) (s : Processes) (xs ys : List Ptr)
    → IsThreads runqueue s.kernel xs
    → IsRing s.kernel.links mm ys
    → vma ∉ mm ∷ ys
    → ((a : Ptr) → a ∈ runqueue ∷ xs → a ∉ mm ∷ vma ∷ ys)
    → IsThreads runqueue (mmap_into vma mm file addr len prot s).kernel xs
      × IsRing (mmap_into vma mm file addr len prot s).kernel.links mm (ys ++ vma ∷ [])
unfolding vm_mmap
mmap_into-IsThreads runqueue vma mm file addr len prot s xs ys h r out apart = (
  record {
    ring = list_add_tail-frame s.kernel.links vma mm runqueue ys xs r apart h.ring;
    given = h.given;
    distinct = h.distinct;
  },
  list_add_tail-IsRing s.kernel.links vma mm ys r out,
)
