-- ===== src/Vm/Copy/Range.antt =====
-- `copy_page_range` of src/vm.c: the pages of an area are shared with the child.
use osc_riscv.Base.{
  ℕ, zero, suc, ◌+◌, ◌-◌, ◌*◌, ◌/◌, ◌%◌, ◌^◌, ◌<◌, ◌≤◌, ◌≡◌, ◌≢◌, inl, inr, refl, sym, ap, subst,
  ◌∙◌, true, false, some, arith, ltb, Bool-cases, ltb→lt, ltb→le, lt→ltb,
}
use osc_riscv.Mm.Defs.{Layout, page_size}
use osc_riscv.Vm.{VmAreaStruct}
use osc_riscv.Vm.Forest.Congr.{Untouched-then}
use osc_riscv.Vm.Forest.{Untouched, frame_at, Forest, page_number, leaf}
use osc_riscv.Vm.Forest.Walk.{IsPaged, IsPaged-fewer, pages_of, page_of, page_of-page_number}
use osc_riscv.Vm.Forest.Map.{IsUser-index}
use osc_riscv.Vm.Forest.Range.{ranged, ranged_zero, next_page}
use osc_riscv.Vm.Fault.{Memory}
use osc_riscv.Vm.Copy.{deny_write, copy_levels, copy_loop, copy_page_range}
use osc_riscv.Vm.Copy.Entry.{Shared, Under}
use osc_riscv.Vm.Copy.Walk.{copy_levels-Shared}
use osc_riscv.Vm.Copy.Shared.{
  shared, owned, owned-congr, page_owned, Counts, Counts-none, Counts-then, Counts-same, one_shared,
  Apart, one_shared-above, shared_suc, one_shared-child, shared-congr,
}

-- `n` pages are shared, from `v` and `v'` on.
pub record SharedRange (l : Layout) (frames : ℕ → ℕ) (limit k parent child n v v' : ℕ)
    (forest : Forest) (s s' : Memory) : Type 0 where
  pub forest' : Forest
  pub paged : IsPaged frames limit k forest' s'.tables
  pub under : Under parent child forest'
  pub leaves : (u : ℕ) → leaf forest' s'.tables.word u ≡ shared n v v' (leaf forest s.tables.word) u
  pub kept : (level x g : ℕ) → forest level x ≡ some g → forest' level x ≡ some g
  pub others : Untouched frames limit forest s.tables forest' s'.tables
  pub count : Counts l (owned n v (leaf forest s.tables.word)) s.mm s'.mm

module _ (l : Layout) (frames : ℕ → ℕ) (limit k parent child f g : ℕ) (ne : parent ≢ child) where
  page-Shared :
      (k' va : ℕ) (forest : Forest) (s : Memory)
      → forest 2 parent ≡ some f
      → forest 2 child ≡ some g
      → va < 2 ^ 38
      → IsPaged frames limit (3 + k') forest s.tables
      → Under parent child forest
      → leaf forest s.tables.word (page_number child va) ≡ 0
      → Shared l frames limit k' parent child
          (page_number parent va)
          (page_number child va)
          forest
          s
          (copy_levels l (pages_of frames) 2 (frame_at f) (frame_at g) va s)
  page-Shared k' va forest s here here' user p under empty =
      let s' = copy_levels l (pages_of frames) 2 (frame_at f) (frame_at g) va s in
      let pv = page_of-page_number parent va in
      let cv = page_of-page_number child va in
      subst (λ v. Shared l frames limit k' parent child v (page_number child va) forest s s') pv
        (subst (λ v'. Shared l frames limit k' parent child (page_of 2 parent va) v' forest s s') cv
          (copy_levels-Shared l frames limit k' parent child va (IsUser-index va user) ne 2 parent
            child f g forest s (omega arith) (omega arith) (omega arith) p under here here'
            (ap (leaf forest s.tables.word) cv ∙ empty)))

  copy_loop-SharedRange :
      (n fuel va end : ℕ) (forest : Forest) (s : Memory)
      → n < fuel
      → forest 2 parent ≡ some f
      → forest 2 child ≡ some g
      → end ≤ va + page_size * n
      → va + page_size * n < end + page_size
      → va + page_size * n ≤ 2 ^ 38
      → IsPaged frames limit (3 * n + k) forest s.tables
      → Under parent child forest
      → ((i : ℕ) → i < n → leaf forest s.tables.word (page_number child va + i) ≡ 0)
      → (s' : Memory) × (copy_loop l (pages_of frames) fuel (frame_at f) (frame_at g) va end s
          ≡ some s')
        × SharedRange l frames limit k parent child n
            (page_number parent va)
            (page_number child va)
            forest
            s
            s'
  unfolding copy_loop owned
  copy_loop-SharedRange n zero va end forest s more here here' low high user p under empty =
      absurd (omega arith)
  copy_loop-SharedRange zero (suc fuel) va end forest s more here here' low high user p under
        empty =
      let done : ltb va end ≡ false = ground (arith, low) in
      let v = page_number parent va in
      let v' = page_number child va in
      let e = leaf forest s.tables.word in
      let new : ℕ → ℕ = λ i. deny_write (e (v + i)) in
      (
        s,
        rw done refl,
        record {
          forest' = forest;
          paged = IsPaged-fewer frames limit (3 * 0 + k) k forest s.tables p (omega arith);
          under = under;
          leaves = λ u. sym (ranged_zero v new (ranged 0 v' new e) u ∙ ranged_zero v' new e u);
          kept = λ level x c q. q;
          others = λ a stray. (refl, stray);
          count = Counts-none l s.mm;
        },
      )
  copy_loop-SharedRange (suc n) (suc fuel) va end forest s more here here' low high user p under
        empty =
      let v = page_number parent va in
      let v' = page_number child va in
      let e = leaf forest s.tables.word in
      let before : ltb va end ≡ true = lt→ltb va end (omega (arith, high)) in
      let room =
        IsPaged-fewer frames limit (3 * suc n + k) (3 + (3 * n + k)) forest s.tables p
          (omega arith) in
      let here_empty : e v' ≡ 0 = subst (λ a. e a ≡ 0) (omega arith) (empty 0 (omega arith)) in
      let m =
        page-Shared (3 * n + k) va forest s here here' (omega (arith, user)) room under
          here_empty in
      let s1 = copy_levels l (pages_of frames) 2 (frame_at f) (frame_at g) va s in
      let e1 = leaf m.forest' s1.tables.word in
      let apart : Apart (suc n) v v' = elim (Bool-cases (ltb parent child)) [
        | inl lt ↦ let lt = ltb→lt parent child lt in inl (omega (arith, lt, user))
        | inr ge ↦
            let lt : child < parent = omega (arith, ltb→le parent child ge, ne) in
            inr (omega (arith, lt, user))
      ] in
      let va' : (va + page_size) % 2 ^ 64 ≡ va + page_size = omega (arith, user) in
      let at = next_page parent va (omega (arith, user)) in
      let at' = next_page child va (omega (arith, user)) in
      let rest =
        copy_loop-SharedRange n fuel (va + page_size) end m.forest' s1 (omega (arith, more))
          (m.kept 2 parent f here) (m.kept 2 child g here') (omega (arith, low))
          (omega (arith, high)) (omega (arith, user)) m.paged m.under
          (λ i lt.
            m.leaves (page_number child (va + page_size) + i)
            ∙ one_shared-child n v v' e i apart lt (page_number child (va + page_size) + i)
                (ap (λ a. a + i) at')
            ∙ empty (suc i) (omega (arith, lt))) in
      let sh = rest.2 in
      (
        rest.0,
        rw before (
            ap (λ a. copy_loop l (pages_of frames) fuel (frame_at f) (frame_at g) a end s1) va'
            ∙ rest.1),
        record {
          forest' = sh.forest';
          paged = sh.paged;
          under = sh.under;
          leaves = λ u.
              sh.leaves u
              ∙ shared-congr n e1 (one_shared v v' e) (page_number parent (va + page_size)) (v + 1)
                  (page_number child (va + page_size)) (v' + 1) u at at' m.leaves
              ∙ shared_suc n v v' e u apart;
          kept = λ level x c q. sh.kept level x c (m.kept level x c q);
          others =
              Untouched-then frames limit forest s.tables m.forest' s1.tables sh.forest'
                rest.0.tables m.others sh.others;
          count =
              Counts-then l (page_owned (e v)) (owned n (v + 1) e) s.mm s1.mm rest.0.mm m.count (
                Counts-same l (owned n (page_number parent (va + page_size)) e1) (owned n (v + 1) e)
                  s1.mm rest.0.mm
                  (ap (λ a. owned n a e1) at
                    ∙ owned-congr n (v + 1) e1 e (λ i lt.
                      m.leaves (v + 1 + i)
                      ∙ one_shared-above n v v' e i apart lt
                      ∙ ap e (omega arith)))
                  sh.count);
        },
      )

  -- The pages of an area that lies in the parent's user half, of which the child has none: with fuel
  -- above their number, `copy_page_range` returns. The child's entries are those of the parent, both
  -- without the right to write, and each page that there is has one owner more; no other page's entry
  -- changes. The child has tables only where the parent has, and there are three fresh frames for each
  -- page.
  pub copy_page_range-SharedRange :
      (n fuel : ℕ) (pgd : ℕ → ℕ) (dst src : VmAreaStruct) (forest : Forest) (s : Memory)
      → n ≡ (src.vm_end - src.vm_start + page_size - 1) / page_size
      → n < fuel
      → pgd src.vm_mm ≡ frame_at f
      → pgd dst.vm_mm ≡ frame_at g
      → forest 2 parent ≡ some f
      → forest 2 child ≡ some g
      → src.vm_start ≤ src.vm_end
      → src.vm_start + page_size * n ≤ 2 ^ 38
      → IsPaged frames limit (3 * n + k) forest s.tables
      → Under parent child forest
      → ((i : ℕ) → i < n → leaf forest s.tables.word (page_number child src.vm_start + i) ≡ 0)
      → (s' : Memory) × (copy_page_range l (pages_of frames) fuel pgd dst src s ≡ some s')
        × SharedRange l frames limit k parent child n
            (page_number parent src.vm_start)
            (page_number child src.vm_start)
            forest
            s
            s'
  unfolding copy_page_range
  copy_page_range-SharedRange n fuel pgd dst src forest s size more at at' here here' order user p
        under empty =
      rw (at, at')
        (copy_loop-SharedRange n fuel src.vm_start src.vm_end forest s more here here'
          (omega (arith, size, order)) (omega (arith, size, order)) user p under empty)
