-- ===== src/Vm/Forest/Range.antt =====
-- `map_pages` of src/vm.c as an operation on a map from virtual pages to entries.
use Prim.Native.Nat.{bit_or}
use osc_riscv.Base.{
  ℕ, zero, suc, ◌+◌, ◌-◌, ◌*◌, ◌/◌, ◌%◌, ◌^◌, ◌<◌, ◌≤◌, ◌≡◌, ◌⊎◌, inl, inr, sym, ap, ◌∙◌, some,
  arith, ◌==◌, ltb, leb, ◌&&◌, if◌then◌else◌, ltb→lt, true, Bool-cases, eq_of_==, ne_of_==,
}
use osc_riscv.Mm.Defs.{page_size}
use osc_riscv.Vm.{Tables, pagewalk, map_loop, map_pages}
use osc_riscv.Vm.Forest.{frame_at, Forest, page_number, leaf}
use osc_riscv.Vm.Forest.Walk.{IsPaged, pages_of}
use osc_riscv.Vm.Forest.Map.{Maps, pagewalk-Maps}

-- `entry`, but for the `n` pages from `first` on, of which the `i`-th has `new i`.
unfoldable pub ranged : (n first : ℕ) (new entry : ℕ → ℕ) → ℕ → ℕ
ranged n first new entry v = if leb first v && ltb v (first + n) then new (v - first) else entry v

pub ranged-suc :
    (n first : ℕ) (new entry : ℕ → ℕ) (v : ℕ)
    → ranged n (first + 1) (λ i. new (i + 1)) (λ v. if v == first then new 0 else entry v) v
      ≡ ranged (suc n) first new entry v
unfolding ranged
ranged-suc n first new entry v = elim (Bool-cases (v == first)) [
  | inl same ↦
      let e = eq_of_== v first same in
      let start : v - first ≡ 0 = omega (arith, e) in ground (arith, e, ap new start)
  | inr other ↦
      let ne = ne_of_== v first other in
      elim (Bool-cases (ltb first v)) [
        | inl lt ↦
            let step : v - (first + 1) + 1 ≡ v - first = omega (arith, ltb→lt first v lt) in
            ground (arith, ne, ap new step)
        | inr le ↦ ground (arith, ne)
      ]
]

pub ranged_zero : (first : ℕ) (new entry : ℕ → ℕ) (v : ℕ) → ranged 0 first new entry v ≡ entry v
unfolding ranged
ranged_zero first new entry v = ground arith

pub ranged_congr :
    (n first : ℕ) (new new' entry entry' : ℕ → ℕ) (v : ℕ)
    → ((i : ℕ) → i < n → new i ≡ new' i)
    → entry v ≡ entry' v
    → ranged n first new entry v ≡ ranged n first new' entry' v
unfolding ranged
ranged_congr n first new new' entry entry' v h h' =
    elim (Bool-cases (leb first v && ltb v (first + n))) [
      | inl at ↦ rw at (h (v - first) (ground arith))
      | inr away ↦ rw away h'
    ]

pub ranged_out :
    (n first : ℕ) (new entry : ℕ → ℕ) (v : ℕ)
    → (v < first) ⊎ (first + n ≤ v)
    → ranged n first new entry v ≡ entry v
unfolding ranged
ranged_out n first new entry v o = ground (arith, o)

-- The entry that maps the `i`-th page of a range to the memory from `pa` on.
abbrev pub page_entry : (pa prot i : ℕ) → ℕ
page_entry pa prot i = bit_or ((pa + page_size * i) / 2 ^ 2) prot

pub next_page :
    (process va : ℕ)
    → va + page_size ≤ 2 ^ 38
    → page_number process (va + page_size) ≡ page_number process va + 1
next_page process va h = omega (arith, h)

module _ (frames : ℕ → ℕ) (limit process root : ℕ) where
  map_loop-Maps :
      (n k va pa prot : ℕ) (forest : Forest) (t : Tables)
      → forest 2 process ≡ some root
      → IsPaged frames limit (2 * n + k) forest t
      → va + page_size * n ≤ 2 ^ 38
      → pa + page_size * n < 2 ^ 64
      → Maps frames limit k forest
          (ranged n (page_number process va) (page_entry pa prot) (leaf forest t.word))
          (map_loop (pages_of frames) n (frame_at root) va pa prot t)
  unfolding map_loop
  map_loop-Maps zero k va pa prot forest t owned p user mem = record {
    forest' = forest;
    paged = record { tables = p.tables; fresh = p.fresh; room = omega (arith, p.room) };
    leaves =
        λ v. sym (ranged_zero (page_number process va) (page_entry pa prot) (leaf forest t.word) v);
    kept = λ level x g e. e;
  }
  map_loop-Maps (suc n) k va pa prot forest t owned p user mem =
      let room : IsPaged frames limit (2 + (2 * n + k)) forest t = record {
        tables = p.tables;
        fresh = p.fresh;
        room = omega (arith, p.room);
      } in
      let m =
        pagewalk-Maps frames limit process root forest t owned (2 * n + k) va pa prot room
          (omega (arith, user)) in
      let t' = pagewalk (pages_of frames) (frame_at root) va pa prot t in
      let va' : (va + page_size) % 2 ^ 64 ≡ va + page_size = omega (arith, user) in
      let pa' : (pa + page_size) % 2 ^ 64 ≡ pa + page_size = omega (arith, mem) in
      let rest =
        map_loop-Maps n k (va + page_size) (pa + page_size) prot m.forest' t'
          (m.kept 2 process root owned) m.paged (omega (arith, user)) (omega (arith, mem)) in
      let start : pa ≡ pa + page_size * 0 = omega arith in
      let at = next_page process va (omega (arith, user)) in
      rw (va', pa')
        (record {
          forest' = rest.forest';
          paged = rest.paged;
          leaves = λ v.
              rest.leaves v
              ∙ rw at (
                  ranged_congr n (page_number process va + 1) (page_entry (pa + page_size) prot)
                    (λ i. page_entry pa prot (i + 1)) (leaf m.forest' t'.word)
                    (λ v.
                      if v == page_number process va
                      then page_entry pa prot 0
                      else leaf forest t.word v)
                    v (λ i lt. ap (λ a. bit_or (a / 2 ^ 2) prot) (omega arith))
                    (m.leaves v
                      ∙ ap
                          (λ a.
                            if v == page_number process va
                            then bit_or (a / 2 ^ 2) prot
                            else leaf forest t.word v)
                          start))
              ∙ ranged-suc n (page_number process va) (page_entry pa prot) (leaf forest t.word) v;
          kept = λ level x g e. rest.kept level x g (m.kept level x g e);
        })

  -- `map_pages` of a range of at most 2 ^ 31 - 2 ^ 12 bytes of a process's user half ends, its counter
  -- does not overflow, and it maps each page of the range to its page of memory, and changes the entry
  -- of no other page, of this process or another. The tables of all processes stand in frames of their
  -- own, and there are two fresh frames for each page.
  pub map_pages-Maps :
      (k va size pa prot : ℕ) (forest : Forest) (t : Tables)
      → forest 2 process ≡ some root
      → IsPaged frames limit (2 * ((size + page_size - 1) / page_size) + k) forest t
      → size ≤ 2 ^ 31 - page_size
      → va + page_size * ((size + page_size - 1) / page_size) ≤ 2 ^ 38
      → pa + page_size * ((size + page_size - 1) / page_size) < 2 ^ 64
      → (t' : Tables) × (map_pages (pages_of frames) (frame_at root) va size pa prot t ≡ some t')
        × Maps frames limit k forest
            (ranged
              ((size + page_size - 1) / page_size)
              (page_number process va)
              (page_entry pa prot)
              (leaf forest t.word))
            t'
  unfolding map_pages
  map_pages-Maps k va size pa prot forest t owned p bound user mem =
      let n = (size + page_size - 1) / page_size in
      let fits : leb size (2 ^ 31 - page_size) ≡ true = ground (arith, bound) in
      (
        map_loop (pages_of frames) n (frame_at root) va pa prot t,
        rw fits,
        map_loop-Maps n k va pa prot forest t owned p user mem,
      )
