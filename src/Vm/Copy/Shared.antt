-- ===== src/Vm/Copy/Shared.antt =====
-- The entries of the pages that `copy_page_range` of src/vm.c has shared.
use osc_riscv.Base.{
  ℕ, zero, suc, ◌+◌, ◌<◌, ◌≤◌, ◌≡◌, ◌≢◌, ◌⊎◌, inl, inr, refl, ap, ap₂, subst, List, [], ◌∷◌, ◌++◌,
  ◌∙◌, arith, ◌==◌, ◌||◌, if◌then◌else◌, Bool-cases, ==_false, eq_of_==,
}
use osc_riscv.Mm.Defs.{Layout, Mm, get_page}
use osc_riscv.Mm.Kmalloc.{virt_to_page}
use osc_riscv.Vm.{pte_to_virt}
use osc_riscv.Vm.Forest.Range.{ranged, ranged-suc, ranged_congr, ranged_out}
use osc_riscv.Vm.Copy.{deny_write, kmalloc_behind}

-- The entries after `n` pages have been shared: from `v` on those of the parent, from `v'` on those of
-- the child.
abbrev pub shared : (n v v' : ℕ) → (ℕ → ℕ) → ℕ → ℕ
shared n v v' entry =
    let new : ℕ → ℕ = λ i. deny_write (entry (v + i)) in ranged n v new (ranged n v' new entry)

-- The page to which a shared entry leads, if there is one.
abbrev pub page_owned : (entry : ℕ) → List ℕ
page_owned entry = if entry == 0 then [] else virt_to_page (pte_to_virt (deny_write entry)) ∷ []

-- The pages to which the entries from `v` on lead.
unfoldable pub owned : (n v : ℕ) → (ℕ → ℕ) → List ℕ
owned zero v entry = []
owned (suc n) v entry = page_owned (entry v) ++ owned n (v + 1) entry

pub owned-congr :
    (n v : ℕ) (entry entry' : ℕ → ℕ)
    → ((i : ℕ) → i < n → entry (v + i) ≡ entry' (v + i))
    → owned n v entry ≡ owned n v entry'
unfolding owned
owned-congr zero v entry entry' h = refl
owned-congr (suc n) v entry entry' h =
    let start : entry v ≡ entry' v =
      subst (λ a. entry a ≡ entry' a) (omega arith) (h 0 (omega arith)) in
    ap₂ (λ a b. page_owned a ++ b) start
      (owned-congr n (v + 1) entry entry'
        (λ i lt. subst (λ a. entry a ≡ entry' a) (omega arith) (h (suc i) (omega arith))))

-- A call that the code makes of the allocator.
pub data Call : Type 0 where
  kmalloc_call : (size : ℕ) → Call
  get_call : (page : ℕ) → Call

unfoldable pub run_calls : Layout → List Call → Mm → Mm
run_calls l [] mm = mm
run_calls l (kmalloc_call size ∷ cs) mm = run_calls l cs (kmalloc_behind l size mm)
run_calls l (get_call page ∷ cs) mm = run_calls l cs (get_page l page mm)

-- The pages that get an owner more, in order.
unfoldable pub gets : List Call → List ℕ
gets [] = []
gets (kmalloc_call size ∷ cs) = gets cs
gets (get_call page ∷ cs) = page ∷ gets cs

-- The allocator goes from `mm` to `mm'` by calls of `kmalloc` and one `get_page` for each of the pages.
pub record Counts (l : Layout) (pages : List ℕ) (mm mm' : Mm) : Type 0 where
  pub calls : List Call
  pub runs : run_calls l calls mm ≡ mm'
  pub pages_got : gets calls ≡ pages

run_calls-append :
    (l : Layout) (cs ds : List Call) (mm : Mm)
    → run_calls l (cs ++ ds) mm ≡ run_calls l ds (run_calls l cs mm)
unfolding run_calls
run_calls-append l [] ds mm = refl
run_calls-append l (kmalloc_call size ∷ cs) ds mm =
    run_calls-append l cs ds (kmalloc_behind l size mm)
run_calls-append l (get_call page ∷ cs) ds mm = run_calls-append l cs ds (get_page l page mm)

gets-append : (cs ds : List Call) → gets (cs ++ ds) ≡ gets cs ++ gets ds
unfolding gets
gets-append [] ds = refl
gets-append (kmalloc_call size ∷ cs) ds = gets-append cs ds
gets-append (get_call page ∷ cs) ds = ap (λ ps. page ∷ ps) (gets-append cs ds)

module _ (l : Layout) where
  pub Counts-none : (mm : Mm) → Counts l [] mm mm
  unfolding run_calls gets
  Counts-none mm = record { calls = []; runs = refl; pages_got = refl }

  pub Counts-kmalloc : (size : ℕ) (mm : Mm) → Counts l [] mm (kmalloc_behind l size mm)
  unfolding run_calls gets
  Counts-kmalloc size mm = record { calls = kmalloc_call size ∷ []; runs = refl; pages_got = refl }

  pub Counts-get : (page : ℕ) (mm : Mm) → Counts l (page ∷ []) mm (get_page l page mm)
  unfolding run_calls gets
  Counts-get page mm = record { calls = get_call page ∷ []; runs = refl; pages_got = refl }

  pub Counts-then :
      (ps qs : List ℕ) (a b c : Mm) → Counts l ps a b → Counts l qs b c → Counts l (ps ++ qs) a c
  Counts-then ps qs a b c x y = record {
    calls = x.calls ++ y.calls;
    runs = run_calls-append l x.calls y.calls a ∙ ap (λ m. run_calls l y.calls m) x.runs ∙ y.runs;
    pages_got = gets-append x.calls y.calls ∙ ap₂ (λ s t. s ++ t) x.pages_got y.pages_got;
  }

  pub Counts-same : (ps qs : List ℕ) (a b : Mm) → ps ≡ qs → Counts l ps a b → Counts l qs a b
  Counts-same ps qs a b e x = record { calls = x.calls; runs = x.runs; pages_got = x.pages_got ∙ e }

-- The entries after one page.
abbrev pub one_shared : (v v' : ℕ) → (ℕ → ℕ) → ℕ → ℕ
one_shared v v' entry u = if u == v || u == v' then deny_write (entry v) else entry u

abbrev pub Apart : (n v v' : ℕ) → Type 0
Apart n v v' = (v + n ≤ v') ⊎ (v' + n ≤ v)

pub two_ranged-suc :
    (n v v' : ℕ) (new entry : ℕ → ℕ) (u : ℕ)
    → Apart (suc n) v v'
    → ranged n
        (v + 1)
        (λ i. new (i + 1))
        (ranged n (v' + 1) (λ i. new (i + 1)) (λ u. if u == v || u == v' then new 0 else entry u))
        u
      ≡ ranged (suc n) v new (ranged (suc n) v' new entry) u
two_ranged-suc n v v' new entry u o =
    let e' : ℕ → ℕ = λ u. if u == v || u == v' then new 0 else entry u in
    let inner : ℕ → ℕ = ranged (suc n) v' new entry in
    let at : ranged n (v' + 1) (λ i. new (i + 1)) e' u ≡ (if u == v then new 0 else inner u) =
      elim (Bool-cases (u == v)) [
        | inl e ↦
            let same = eq_of_== u v e in
            let out : (u < v' + 1) ⊎ (v' + 1 + n ≤ u) = elim o [
              | inl le ↦ inl (omega (arith, le, same))
              | inr le ↦ inr (omega (arith, le, same))
            ] in
            rw e (ranged_out n (v' + 1) (λ i. new (i + 1)) e' u out ∙ rw e refl)
        | inr e ↦ rw e (
            ranged_congr n (v' + 1) (λ i. new (i + 1)) (λ i. new (i + 1)) e'
              (λ u. if u == v' then new 0 else entry u) u (λ i lt. refl) (rw e refl)
            ∙ ranged-suc n v' new entry u)
      ] in
    ranged_congr n (v + 1) (λ i. new (i + 1)) (λ i. new (i + 1))
      (ranged n (v' + 1) (λ i. new (i + 1)) e') (λ u. if u == v then new 0 else inner u) u
      (λ i lt. refl) at
    ∙ ranged-suc n v new inner u

pub one_shared-above :
    (n v v' : ℕ) (entry : ℕ → ℕ) (i : ℕ)
    → Apart (suc n) v v'
    → i < n
    → one_shared v v' entry (v + 1 + i) ≡ entry (v + (i + 1))
one_shared-above n v v' entry i o lt =
    let ne : v + 1 + i ≢ v' = λ e. elim o [
      | inl le ↦ absurd (omega (arith, le, e, lt))
      | inr le ↦ absurd (omega (arith, le, e, lt))
    ] in
    rw (==_false (v + 1 + i) v (λ e. absurd (omega (arith, e))), ==_false (v + 1 + i) v' ne)
      (ap entry (omega arith))

pub shared_suc :
    (n v v' : ℕ) (entry : ℕ → ℕ) (u : ℕ)
    → Apart (suc n) v v'
    → shared n (v + 1) (v' + 1) (one_shared v v' entry) u ≡ shared (suc n) v v' entry u
shared_suc n v v' entry u o =
    let new : ℕ → ℕ = λ i. deny_write (entry (v + i)) in
    let new' : ℕ → ℕ = λ i. deny_write (one_shared v v' entry (v + 1 + i)) in
    let same = λ (i : ℕ) (lt : i < n). ap deny_write (one_shared-above n v v' entry i o lt) in
    let start : deny_write (entry v) ≡ new 0 = ap (λ a. deny_write (entry a)) (omega arith) in
    ranged_congr n (v + 1) new' (λ i. new (i + 1)) (ranged n (v' + 1) new' (one_shared v v' entry))
      (ranged n (v' + 1) (λ i. new (i + 1)) (λ u. if u == v || u == v' then new 0 else entry u)) u
      same
      (ranged_congr n (v' + 1) new' (λ i. new (i + 1)) (one_shared v v' entry)
        (λ u. if u == v || u == v' then new 0 else entry u) u same
        (ap (λ a. if u == v || u == v' then a else entry u) start))
    ∙ two_ranged-suc n v v' new entry u o

pub one_shared-child :
    (n v v' : ℕ) (entry : ℕ → ℕ) (i : ℕ)
    → Apart (suc n) v v'
    → i < n
    → (u : ℕ) → u ≡ v' + 1 + i
    → one_shared v v' entry u ≡ entry (v' + suc i)
one_shared-child n v v' entry i o lt u at =
    let ne : u ≢ v = λ e. elim o [
      | inl le ↦ absurd (omega (arith, le, e, lt, at))
      | inr le ↦ absurd (omega (arith, le, e, lt, at))
    ] in
    rw (==_false u v ne, ==_false u v' (λ e. absurd (omega (arith, e, at))))
      (ap entry (omega (arith, at)))

pub shared-congr :
    (n : ℕ) (entry entry' : ℕ → ℕ) (v w v' w' u : ℕ)
    → v ≡ w
    → v' ≡ w'
    → ((u : ℕ) → entry u ≡ entry' u)
    → shared n v v' entry u ≡ shared n w w' entry' u
shared-congr n entry entry' v w v' w' u at at' h =
    rw (at, at')
      (ranged_congr n w (λ i. deny_write (entry (w + i))) (λ i. deny_write (entry' (w + i)))
        (ranged n w' (λ i. deny_write (entry (w + i))) entry)
        (ranged n w' (λ i. deny_write (entry' (w + i))) entry') u
        (λ i lt. ap deny_write (h (w + i)))
        (ranged_congr n w' (λ i. deny_write (entry (w + i))) (λ i. deny_write (entry' (w + i)))
          entry entry' u (λ i lt. ap deny_write (h (w + i))) (h u)))
