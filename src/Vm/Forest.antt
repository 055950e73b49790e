-- ===== src/Vm/Forest.antt =====
-- What the page tables of src/vm.c hold: the tables of all processes, as a map from virtual pages to
-- entries. Frame `f` is the page at `frame_at f`.
pub mod Congr
pub mod Examples
pub mod Grow
pub mod Map
pub mod Range
pub mod Walk
use osc_riscv.Base.{
  ℕ, zero, suc, ◌+◌, ◌*◌, ◌/◌, ◌%◌, ◌^◌, ◌<◌, ◌≤◌, ◌≡◌, ◌≢◌, ◌⊎◌, Option, none, some, ◌==◌, ◌&&◌,
  if◌then◌else◌,
}
use osc_riscv.Mm.Defs.{page_size}
use osc_riscv.Vm.{Tables, page_offset, pte_to_virt}

abbrev pub frame_at : ℕ → ℕ
frame_at f = page_offset + page_size * f

-- The address of an entry of the table in the frame `f`.
abbrev pub slot : (f idx : ℕ) → ℕ
slot f idx = frame_at f + 8 * idx

-- The frame of the table of each level and prefix. On level 2 the prefix is the process's number; the
-- prefix of a table that an entry leads to is that of the entry's table, followed by the index.
abbrev pub Forest : Type 0
Forest = (level prefix : ℕ) → Option ℕ

-- The entries of the user's half: on level 2 those of the first 2 ^ 38 addresses.
abbrev pub IsUser : (level idx : ℕ) → Type 0
IsUser level idx = (idx < 512) × ((level ≡ 2) → idx < 256)

-- An entry is zero and there is no table behind it, or it leads to the table behind it.
abbrev pub Leads : Option ℕ → ℕ → Type 0
Leads none word = word ≡ 0
Leads (some c) word = (word ≢ 0) × (pte_to_virt word ≡ frame_at c)

-- The tables of a forest stand in the memory, each in a frame of its own.
pub record IsForest (forest : Forest) (word : ℕ → ℕ) : Type 0 where
  pub leads :
      (level x f idx : ℕ)
      → forest (suc level) x ≡ some f
      → IsUser (suc level) idx
      → Leads (forest level (x * 512 + idx)) (word (slot f idx))
  pub closed :
      (level x idx : ℕ)
      → level < 2
      → forest (suc level) x ≡ none
      → idx < 512
      → forest level (x * 512 + idx) ≡ none
  pub apart :
      (level x level' x' f : ℕ)
      → forest level x ≡ some f
      → forest level' x' ≡ some f
      → (level ≡ level') × (x ≡ x')

-- The virtual page of an address: the process's number, and the 27 bits of the page.
abbrev pub page_number : (process va : ℕ) → ℕ
page_number process va = process * 2 ^ 27 + va / 2 ^ 12 % 2 ^ 27

-- The entry of a virtual page, zero if it has no table.
unfoldable pub leaf : Forest → (word : ℕ → ℕ) → (v : ℕ) → ℕ
leaf forest word v = elim (forest 0 (v / 512)) [ none ↦ 0 | some f ↦ word (slot f (v % 512)) ]

-- The frames `frames i` for `i` from `taken` on, up to `limit`, are free for new tables.
pub record IsFresh (forest : Forest) (frames : ℕ → ℕ) (limit taken : ℕ) : Type 0 where
  pub small : (i : ℕ) → i < limit → frames i < 2 ^ 26
  pub once : (i j : ℕ) → i < limit → j < limit → frames i ≡ frames j → i ≡ j
  pub unused : (i level x : ℕ) → taken ≤ i → i < limit → forest level x ≢ some (frames i)

-- A word that is neither in a page that is free for a new table, nor an entry.
abbrev pub IsStray : (forest : Forest) (frames : ℕ → ℕ) (limit taken : ℕ) (a : ℕ) → Type 0
IsStray forest frames limit taken a =
    ((i : ℕ)
      → taken ≤ i
      → i < limit
      → (a < frame_at (frames i)) ⊎ (frame_at (frames i) + page_size ≤ a))
    × ((level x g j : ℕ) → forest level x ≡ some g → j < 512 → a ≢ slot g j)

-- Such a word is left as it is.
abbrev pub Untouched :
    (frames : ℕ → ℕ) (limit : ℕ) (forest : Forest) (t : Tables) (forest' : Forest) (t' : Tables)
    → Type 0
Untouched frames limit forest t forest' t' =
    (a : ℕ)
    → IsStray forest frames limit t.taken a
    → (t'.word a ≡ t.word a) × IsStray forest' frames limit t'.taken a

-- The forest with a table more.
abbrev pub grown : (level x f : ℕ) → Forest → Forest
grown level x f forest level' x' = if level' == level && x' == x then some f else forest level' x'
