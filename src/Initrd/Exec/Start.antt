-- ===== src/Initrd/Exec/Start.antt =====
-- What `initrd_exec` of src/initrd.c starts.
use Prim.Native.Nat.{bit_and, bit_or}
use osc_riscv.Base.{
  ℕ, ◌+◌, ◌-◌, ◌*◌, ◌/◌, ◌%◌, ◌^◌, ◌<◌, ◌≡◌, ◌≢◌, refl, ap, ◌∙◌, Option, none, List, [], ◌∷◌, ◌++◌,
  ◌∈◌, ◌∉◌, length, some, arith, ==_refl, ==_false, widen, widen_small, ne_of_mem, has-append,
}
use osc_riscv.Ring.{Ptr}
use osc_riscv.Ring.Chain.{IsRing}
use osc_riscv.Text.{Mem, CString, null}
use osc_riscv.Printk.{Output}
use osc_riscv.Initrd.Cat.{lookup, Finds, find_loop-Finds}
use osc_riscv.Utils.{align}
use osc_riscv.Utils.Laws.{align-round}
use osc_riscv.Mm.Defs.{page_size}
use osc_riscv.Sched.{Kernel, Fresh, kthread_create, switch_mm}
use osc_riscv.Sched.Create.{IsThreads, IsThreads-same, kthread_create-IsThreads}
use osc_riscv.Vm.{vm_mmap, vm_read, vm_write, vm_exec}
use osc_riscv.Initrd.{headsize, filesize}
use osc_riscv.Initrd.Archive.{Entry, IsHeader, IsArchive, body_at, headsize-header, filesize-header}
use osc_riscv.Initrd.Exec.{
  Processes, Entered, entered, enter_file, start_file, initrd_exec, mmap_into, user_stack, user_sp,
}
use osc_riscv.Initrd.Exec.Mapped.{kthread_create-mmap, mmap_into-IsThreads}

-- A body's size rounded up to pages.
abbrev pub pages_of : ℕ → ℕ
pages_of n = (n + 4095) / 4096 * 4096

align_page : (n : ℕ) → n < 2 ^ 30 → widen (align n page_size) ≡ pages_of n
align_page n h =
    let rounded : align n page_size ≡ pages_of n =
      align-round 12 20 n (omega arith) (omega (arith, h))
      ∙ ap (λ (t : ℕ). t / 4096 * 4096) (omega arith) in
    rw rounded (widen_small (pages_of n) (omega (arith, h)))

-- The process that has been entered: it has two areas, the file's bytes from address 0 on, readable
-- and executable, and four pages of stack, whose end is the stack pointer.
pub record Started (runqueue : Ptr) (xs : List Ptr) (task mm vma vma' file len : ℕ) (t : Entered)
    (s : Processes) : Type 0 where
  pub sscratch : t.sscratch ≡ task
  pub sepc : t.sepc ≡ 0
  pub sp : t.sp ≡ user_stack + page_size * 4
  pub threads : IsThreads runqueue s.kernel xs
  pub areas : IsRing s.kernel.links mm (vma ∷ vma' ∷ [])
  pub code :
      s.area vma ≡ record { vm_start = 0; vm_end = len; vm_mm = mm; vm_flags = 5; vm_file = file }
  pub stack :
      s.area vma'
      ≡ record { vm_start = user_stack; vm_end = user_sp; vm_mm = mm; vm_flags = 3; vm_file = 0 }

apart2 : (a b c : ℕ) (xs : List ℕ) → a ∈ xs → b ∉ xs → c ∉ xs → a ∉ b ∷ c ∷ []
apart2 a b c xs j o o' = ground (arith, ne_of_mem a b xs j o, ne_of_mem a c xs j o')

apart3 : (a b c d : ℕ) (xs : List ℕ) → a ∈ xs → b ∉ xs → c ∉ xs → d ∉ xs → a ∉ b ∷ c ∷ d ∷ []
apart3 a b c d xs j o o' o'' =
    ground (arith, ne_of_mem a b xs j o, ne_of_mem a c xs j o', ne_of_mem a d xs j o'')

switched_ring :
    (pgd : ℕ) (k : Kernel) (head : Ptr) (xs : List Ptr)
    → IsRing k.links head xs
    → IsRing (switch_mm pgd 8 k).links head xs
unfolding switch_mm
switched_ring pgd k head xs r = r

switched-IsThreads :
    (pgd : ℕ) (k : Kernel) (runqueue : Ptr) (xs : List Ptr)
    → IsThreads runqueue k xs
    → IsThreads runqueue (switch_mm pgd 8 k) xs
unfolding switch_mm
switched-IsThreads pgd k runqueue xs h =
    IsThreads-same runqueue k (switch_mm pgd 8 k) xs refl refl (λ p. refl) h

two_areas :
    (vma vma' mm file len : ℕ) (s : Processes)
    → vma ≢ vma'
    → len < 2 ^ 64
    → let s1 = mmap_into vma mm file 0 len (bit_or vm_read vm_exec) s in
      let s2 = mmap_into vma' mm 0 user_stack (page_size * 4) (bit_or vm_read vm_write) s1 in
      (s2.area vma
        ≡ record { vm_start = 0; vm_end = len; vm_mm = mm; vm_flags = 5; vm_file = file })
      × (s2.area vma' ≡ record {
        vm_start = user_stack;
        vm_end = user_sp;
        vm_mm = mm;
        vm_flags = 3;
        vm_file = 0;
      })
unfolding vm_mmap
two_areas vma vma' mm file len s ne lt =
    let whole : (0 + len) % 2 ^ 64 ≡ len = omega arith in
    (rw (==_false vma vma' ne, ==_refl vma, whole) refl, rw (==_refl vma') refl)

enter_file-Started :
    (runqueue sstatus task mm pgd vma vma' file len : ℕ) (s : Processes) (xs : List Ptr)
    → IsThreads runqueue s.kernel xs
    → IsRing s.kernel.links mm []
    → mm ∉ runqueue ∷ xs
    → vma ∉ mm ∷ runqueue ∷ xs
    → vma' ∉ vma ∷ mm ∷ runqueue ∷ xs
    → len < 2 ^ 64
    → (t : Entered) × (s' : Processes) × (enter_file sstatus task mm pgd vma vma' file len s
        ≡ entered t s')
      × Started runqueue xs task mm vma vma' file len t s'
unfolding enter_file
enter_file-Started runqueue sstatus task mm pgd vma vma' file len s xs h r o o' o'' lt =
    let s1 = mmap_into vma mm file 0 len (bit_or vm_read vm_exec) s in
    let one =
      mmap_into-IsThreads runqueue vma mm file 0 len (bit_or vm_read vm_exec) s xs [] h r
        (ground arith) (λ a j. apart2 a mm vma (runqueue ∷ xs) j o (ground arith)) in
    let s2 = mmap_into vma' mm 0 user_stack (page_size * 4) (bit_or vm_read vm_write) s1 in
    let two =
      mmap_into-IsThreads runqueue vma' mm 0 user_stack (page_size * 4) (bit_or vm_read vm_write) s1
        xs (vma ∷ []) one.0 one.1 (ground arith)
        (λ a j. apart3 a mm vma' vma (runqueue ∷ xs) j o (ground arith) (ground arith)) in
    (
      record {
        sscratch = task;
        sp = user_sp;
        sepc = 0;
        sstatus = bit_and sstatus (2 ^ 64 - 1 - 2 ^ 8);
      },
      record s2 { kernel = switch_mm pgd 8 s2.kernel },
      refl,
      record {
        sscratch = refl;
        sepc = refl;
        sp = refl;
        threads = switched-IsThreads pgd s2.kernel runqueue xs two.0;
        areas = (switched_ring pgd s2.kernel mm (vma ∷ vma' ∷ []) two.1);
        code = (two_areas vma vma' mm file len s (ground arith) lt).0;
        stack = (two_areas vma vma' mm file len s (ground arith) lt).1;
      },
    )

created_task :
    (runqueue : Ptr) (pg_dir : ℕ) (fresh : Fresh) (k : Kernel)
    → ((kthread_create runqueue pg_dir fresh 0 k).0 ≡ fresh.task)
      × (((kthread_create runqueue pg_dir fresh 0 k).1.task fresh.task).mm.mmap ≡ fresh.mmap)
unfolding kthread_create
created_task runqueue pg_dir fresh k = (refl, rw (==_refl fresh.task) refl)

start_file-Started :
    (runqueue : Ptr) (pg_dir sstatus : ℕ) (fresh : Fresh) (vma vma' : Ptr) (m : Mem) (p : Ptr)
    (s : Processes) (xs : List Ptr) (e : Entry)
    → IsThreads runqueue s.kernel xs
    → fresh.task ∉ runqueue ∷ xs
    → fresh.mmap ∉ runqueue ∷ fresh.task ∷ xs
    → vma ∉ fresh.mmap ∷ runqueue ∷ fresh.task ∷ xs
    → vma' ∉ vma ∷ fresh.mmap ∷ runqueue ∷ fresh.task ∷ xs
    → IsHeader m p e
    → (t : Entered) × (s' : Processes) × (start_file runqueue pg_dir sstatus fresh vma vma' m p s
        ≡ entered t s')
      × Started runqueue
          (xs ++ fresh.task ∷ [])
          fresh.task
          fresh.mmap
          vma
          vma'
          (p + body_at e)
          (pages_of (length e.body))
          t
          s'
unfolding start_file
start_file-Started runqueue pg_dir sstatus fresh vma vma' m p s xs e h o o1 o2 o3 d =
    let k = (kthread_create runqueue pg_dir fresh 0 s.kernel).1 in
    let (made, mm) = created_task runqueue pg_dir fresh s.kernel in
    let file : (p + widen (headsize m p)) % 2 ^ 64 ≡ p + body_at e =
      omega (arith, headsize-header m p e d, d.small) in
    let len : widen (align (filesize m p) page_size) ≡ pages_of (length e.body) =
      rw (filesize-header m p e d) (align_page (length e.body) (omega (arith, d.small))) in
    let threads : IsThreads runqueue k (xs ++ fresh.task ∷ []) =
      rw made at
        (kthread_create-IsThreads runqueue pg_dir fresh 0 s.kernel xs h o (ground arith)).0 in
    rw (made, mm, file, len)
      (enter_file-Started runqueue sstatus fresh.task fresh.mmap (k.task fresh.task).mm.pgd vma vma'
        (p + body_at e) (pages_of (length e.body)) (record s { kernel = k }) (xs ++ fresh.task ∷ [])
        threads (kthread_create-mmap runqueue pg_dir fresh 0 s.kernel xs h o o1)
        (ground (arith, has-append fresh.mmap xs (fresh.task ∷ [])))
        (ground (arith, has-append vma xs (fresh.task ∷ [])))
        (ground (arith, has-append vma' xs (fresh.task ∷ []))) (omega (arith, d.small)))

-- What the start of a process needs of the addresses that `kmalloc` returns.
pub record IsFresh (runqueue : Ptr) (xs : List Ptr) (fresh : Fresh) (vma vma' : Ptr) : Type 0 where
  pub task : fresh.task ∉ runqueue ∷ xs
  pub mmap : fresh.mmap ∉ runqueue ∷ fresh.task ∷ xs
  pub area : vma ∉ fresh.mmap ∷ runqueue ∷ fresh.task ∷ xs
  pub area' : vma' ∉ vma ∷ fresh.mmap ∷ runqueue ∷ fresh.task ∷ xs

-- On an archive with fewer files than the fuel, `initrd_exec` of a name that a file has starts the first
-- such file as a new task at the end of the run queue, with an area for the file's bytes, rounded up
-- to pages, and one for its stack.
pub initrd_exec-Started :
    (fuel : ℕ) (runqueue : Ptr) (pg_dir sstatus : ℕ) (fresh : Fresh) (vma vma' base target : Ptr)
    (t : List ℕ) (m : Mem) (out : Output) (s : Processes) (xs : List Ptr) (es : List Entry)
    (e : Entry)
    → target ≢ null
    → CString m target t
    → IsArchive m base es
    → length es < fuel
    → lookup t es ≡ some e
    → IsThreads runqueue s.kernel xs
    → IsFresh runqueue xs fresh vma vma'
    → (p : Ptr) × (enter : Entered) × (s' : Processes) × (initrd_exec fuel runqueue pg_dir sstatus
          fresh vma vma' base target t m out s
        ≡ some (entered enter s'))
      × IsHeader m p e
      × Started runqueue
          (xs ++ fresh.task ∷ [])
          fresh.task
          fresh.mmap
          vma
          vma'
          (p + body_at e)
          (pages_of (length e.body))
          enter
          s'
unfolding initrd_exec
initrd_exec-Started fuel runqueue pg_dir sstatus fresh vma vma' base target t m out s xs es e ne c a
      lt found h f =
    let (r, done, at) = find_loop-Finds m target t c fuel base es a lt in
    let (p, there, d) = header r (rw found at at) in
    let (enter, s', started, good) =
      start_file-Started runqueue pg_dir sstatus fresh vma vma' m p s xs e h f.task f.mmap f.area
        f.area' d in
    (p, enter, s', rw (==_false target null ne, done, there) (ap some started), d, good)
  where
    header : (r : Option Ptr) → Finds m (some e) r → (p : Ptr) × (r ≡ some p) × IsHeader m p e
    header none g = elim g [ ]
    header (some p) g = (p, refl, g)
