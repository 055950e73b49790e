-- ===== src/Initrd/Examples.antt =====
-- The theorems on src/initrd.c, applied to an archive of one file.
use osc_riscv.Base.{◌+◌, ◌≡◌, refl, [], ◌∷◌, ◌++◌, some, arith, ltb, if◌then◌else◌, ◌==◌}
use osc_riscv.Text.{Mem}
use osc_riscv.Printk.{uart_puts}
use osc_riscv.Initrd.{initrd_list, initrd_cat}
use osc_riscv.Initrd.Archive.{Entry, IsHeader, IsArchive}
use osc_riscv.Ring.{Ptr}
use osc_riscv.Sched.Examples.{kernel, tasks, kernel-IsThreads, fresh}
use osc_riscv.Initrd.Exec.{Processes, Entered, entered, initrd_exec}
use osc_riscv.Initrd.Exec.Start.{Started, initrd_exec-Started}
use osc_riscv.Initrd.Cat.{same_text}
use osc_riscv.Initrd.Walk.{put_names, initrd_list-names}
use osc_riscv.Initrd.Cat.{lookup, file_text, initrd_cat-file_text}

-- The file "a" with the bytes "hi" at 4096, the trailer at 4212, and the text "a" at 8192.
abbrev memory : Mem
memory a =
    if a == 4096 + 61
    then 50
    else if a == 4096 + 101
    then 50
    else if a == 4096 + 110
    then 97
    else if a == 4096 + 112
    then 104
    else if a == 4096 + 113
    then 105
    else if a == 4212 + 110
    then 84
    else if a == 4212 + 111
    then 82
    else if a == 4212 + 112
    then 65
    else if a == 4212 + 113
    then 73
    else if a == 4212 + 114
    then 76
    else if a == 4212 + 115
    then 69
    else if a == 4212 + 116
    then 82
    else if ltb a (4212 + 117)
    then (if ltb a 4206 then 48 else 0)
    else if ltb a (4212 + 120)
    then 33
    else if a == 8192
    then 97
    else 0

abbrev file : Entry
file = record { name = 97 ∷ []; body = 104 ∷ 105 ∷ [] }

archive : IsArchive memory 4096 (file ∷ [])
archive = (
  record {
    small = (omega arith, omega arith, omega arith);
    names = ground arith;
    files = ground arith;
    name = ground arith;
    body = ground arith;
    no_trailer = refl;
  },
  refl,
)

initrd_list-names_example : initrd_list 2 4096 memory [] ≡ some (put_names (file ∷ []) [])
initrd_list-names_example = initrd_list-names 2 4096 memory (file ∷ []) [] archive (omega arith)

initrd_cat-file_text_example :
    initrd_cat 2 4096 8192 (97 ∷ []) memory []
    ≡ some (uart_puts (file_text (97 ∷ []) (lookup (97 ∷ []) (file ∷ []))) [])
initrd_cat-file_text_example =
    initrd_cat-file_text 2 4096 8192 (97 ∷ []) memory (file ∷ []) [] (λ e. ground arith)
      (ground arith) archive (omega arith)

abbrev processes : Processes
processes = record {
  kernel = kernel;
  area = λ p. record { vm_start = 0; vm_end = 0; vm_mm = 0; vm_flags = 0; vm_file = 0 };
}

initrd_exec-Started_example :
    (p : Ptr) × (enter : Entered) × (s' : Processes) × (initrd_exec 2 1 0 256 fresh 7 8 4096 8192
        (97 ∷ [])
        memory
        []
        processes
      ≡ some (entered enter s'))
    × IsHeader memory p file
    × Started 1 (tasks ++ 5 ∷ []) 5 6 7 8 (p + 112) 4096 enter s'
unfolding lookup same_text
initrd_exec-Started_example =
    initrd_exec-Started 2 1 0 256 fresh 7 8 4096 8192 (97 ∷ []) memory [] processes tasks
      (file ∷ []) file (λ e. ground arith) (ground arith) archive (omega arith) refl
      kernel-IsThreads (record { task = refl; mmap = refl; area = refl; area' = refl })
