-- ===== src/Initrd/Archive.antt =====
-- What an archive holds, and the walk of src/initrd.c from header to header.
use osc_riscv.Base.{
  ℕ, ◌+◌, ◌*◌, ◌/◌, ◌%◌, ◌^◌, ◌<◌, ◌≤◌, ◌≡◌, refl, ap, ◌∙◌, true, false, List, [], ◌∷◌, length,
  arith, ◌==◌, widen, widen_small, ==_false,
}
use osc_riscv.Text.{Ptr, Mem, CString, null}
use osc_riscv.Utils.{align}
use osc_riscv.Utils.Laws.{align-round}
use osc_riscv.Utils.Hex.{HexAt, to_hex, hextoi-to_hex}
use osc_riscv.Initrd.{
  cpio_size, filesize_at, namesize_at, same_bytes, trailer, namesize, filesize, headsize,
  initrd_get_next_hdr,
}

-- A file of the archive.
pub record Entry : Type 0 where
  pub name : List ℕ
  pub body : List ℕ

-- The next multiple of 4.
abbrev pub round4 : ℕ → ℕ
round4 n = (n + 3) / 4 * 4

-- Where a file's bytes begin, and where the next header does, behind the header.
abbrev pub body_at : Entry → ℕ
body_at e = round4 (cpio_size + (length e.name + 1))

abbrev pub next_at : Entry → ℕ
next_at e = body_at e + round4 (length e.body)

-- The bytes stand in the memory, one after the other.
abbrev pub Bytes : Mem → Ptr → List ℕ → Type 0
Bytes m p [] = Unit
Bytes m p (c ∷ s) = (m p ≡ c) × Bytes m (p + 1) s

-- The header of a file that is not the last stands at `p`, with its name and its bytes.
pub record IsHeader (m : Mem) (p : Ptr) (e : Entry) : Type 0 where
  pub small : (length e.name < 2 ^ 30) × (length e.body < 2 ^ 30) × (p + 2 ^ 32 < 2 ^ 64)
  pub names : HexAt m (p + namesize_at) (to_hex 8 (length e.name + 1))
  pub files : HexAt m (p + filesize_at) (to_hex 8 (length e.body))
  pub name : CString m (p + cpio_size) e.name
  pub body : Bytes m (p + body_at e) e.body
  pub no_trailer : same_bytes m (p + cpio_size) trailer ≡ false

-- The archive at `p`: its files, and the trailer behind them.
abbrev pub IsArchive : Mem → Ptr → List Entry → Type 0
IsArchive m p [] = same_bytes m (p + cpio_size) trailer ≡ true
IsArchive m p (e ∷ es) = IsHeader m p e × IsArchive m (p + next_at e) es

pub align4 : (n : ℕ) → n + 4 ≤ 2 ^ 32 → align n 4 ≡ round4 n
align4 n h = align-round 2 30 n (omega arith) h ∙ ap (λ (t : ℕ). t / 4 * 4) (omega arith)

module _ (m : Mem) (p : Ptr) (e : Entry) (h : IsHeader m p e) where
  pub namesize-header : namesize m p ≡ length e.name + 1
  unfolding namesize
  namesize-header =
      hextoi-to_hex m (p + namesize_at) 8 (length e.name + 1) (omega (arith, h.small)) h.names
      ∙ omega (arith, h.small)

  pub filesize-header : filesize m p ≡ length e.body
  unfolding filesize
  filesize-header =
      hextoi-to_hex m (p + filesize_at) 8 (length e.body) (omega (arith, h.small)) h.files
      ∙ omega (arith, h.small)

  pub headsize-header : widen (headsize m p) ≡ body_at e
  unfolding headsize
  headsize-header =
      let size : (cpio_size + namesize m p) % 2 ^ 32 ≡ cpio_size + (length e.name + 1) =
        omega (arith, namesize-header, h.small) in
      let head : align (cpio_size + (length e.name + 1)) 4 ≡ body_at e =
        align4 (cpio_size + (length e.name + 1)) (omega (arith, h.small)) in
      rw (size, head) (widen_small (body_at e) (omega (arith, h.small)))

  -- The next header of a file that is not the last.
  pub initrd_get_next_hdr-header : initrd_get_next_hdr m p ≡ p + next_at e
  unfolding initrd_get_next_hdr
  initrd_get_next_hdr-header =
      let rounded : align (length e.body) 4 ≡ round4 (length e.body) =
        align4 (length e.body) (omega (arith, h.small)) in
      let wide : widen (align (filesize m p) 4) ≡ round4 (length e.body) =
        rw (filesize-header, rounded)
          (widen_small (round4 (length e.body)) (omega (arith, h.small))) in
      rw (h.no_trailer, headsize-header, wide) (omega (arith, h.small))

  pub next_ne_null : (initrd_get_next_hdr m p == null) ≡ false
  next_ne_null =
      rw initrd_get_next_hdr-header (==_false (p + next_at e) null (λ z. absurd (omega (arith, z))))

-- Behind the trailer there is none.
pub initrd_get_next_hdr-trailer :
    (m : Mem) (p : Ptr) → IsArchive m p [] → initrd_get_next_hdr m p ≡ null
unfolding initrd_get_next_hdr
initrd_get_next_hdr-trailer m p a = rw a refl
