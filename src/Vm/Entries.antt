-- ===== src/Vm/Entries.antt =====
-- The page-table entries of src/vm.c.
use Prim.Native.Nat.{bit_and, bit_or}
use osc_riscv.Base.{
  ℕ, ◌+◌, ◌*◌, ◌/◌, ◌^◌, ◌<◌, ◌≤◌, ◌≡◌, ◌≢◌, ◌∙◌, arith, ◌==◌, if◌then◌else◌, Bool, true, false,
}
use osc_riscv.Base.Bits.{or_fields, and_round}
use osc_riscv.Mm.Defs.{page_size}
use osc_riscv.Vm.{mk_pte, pte_to_virt, page_offset, virt_to_phys, entry_mask}

-- The ten low bits of an entry, from whether an area may not be read, written and executed.
flag_bits : (r w x : Bool) → ℕ
flag_bits r w x =
    let prot : ℕ = 0xd1 in
    let prot = if r then prot else bit_or prot 2 in
    let prot = if w then prot else bit_or prot 4 in if x then prot else bit_or prot 8

flag_bits_small : (r w x : Bool) → (flag_bits r w x < 2 ^ 10) × (1 ≤ flag_bits r w x)
unfolding flag_bits
flag_bits_small true true true = (omega arith, omega arith)
flag_bits_small true true false = (omega arith, omega arith)
flag_bits_small true false true = (omega arith, omega arith)
flag_bits_small true false false = (omega arith, omega arith)
flag_bits_small false true true = (omega arith, omega arith)
flag_bits_small false true false = (omega arith, omega arith)
flag_bits_small false false true = (omega arith, omega arith)
flag_bits_small false false false = (omega arith, omega arith)

abbrev prot_bits : ℕ → ℕ
prot_bits flags = flag_bits (bit_and flags 1 == 0) (bit_and flags 2 == 0) (bit_and flags 4 == 0)

prot_bits_small : (flags : ℕ) → (prot_bits flags < 2 ^ 10) × (1 ≤ prot_bits flags)
prot_bits_small flags =
    flag_bits_small (bit_and flags 1 == 0) (bit_and flags 2 == 0) (bit_and flags 4 == 0)

-- The entry of the page frame `n`: the frame's number above the ten bits.
mk_pte-fields :
    (n flags : ℕ)
    → n < 2 ^ 26
    → mk_pte (page_offset + page_size * n) flags ≡ n * 2 ^ 10 + prot_bits flags
unfolding mk_pte flag_bits
mk_pte-fields n flags h =
    let frame : virt_to_phys (page_offset + page_size * n) / 2 ^ 2 ≡ n * 2 ^ 10 = omega arith in
    rw frame (or_fields 10 n (prot_bits flags) (prot_bits_small flags).0)

-- The entry that `mk_pte` makes of a kernel page leads `pte_to_virt` back to the page, whatever the
-- flags are, and is not zero.
pub pte_to_virt-mk_pte :
    (n flags : ℕ)
    → n < 2 ^ 26
    → (pte_to_virt (mk_pte (page_offset + page_size * n) flags) ≡ page_offset + page_size * n)
      × (mk_pte (page_offset + page_size * n) flags ≢ 0)
unfolding pte_to_virt
pte_to_virt-mk_pte n flags h =
    let p = prot_bits flags in
    let small = prot_bits_small flags in
    let cut : bit_and (n * 2 ^ 10 + p) entry_mask ≡ n * 2 ^ 10 =
      and_round 10 54 (n * 2 ^ 10 + p) (omega (arith, small.0)) ∙ omega (arith, small.0) in
    rw (mk_pte-fields n flags h) (rw cut (omega arith), λ e. absurd (omega (arith, e, small.1)))
