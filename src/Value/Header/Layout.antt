-- ===== src/Value/Header/Layout.antt =====
-- The header's fields in the buffer.
use vex_lua.Base.{
  ℕ, ◌+◌, ◌%◌, ◌≤◌, ◌<◌, ◌≡◌, ◌^◌, refl, ok, List, length, get_or, arith, leb, guard, Bool, true,
  some, get_elem?, ap, subst,
}
use vex_lua.Base.Bytes.{read_le_congr}
use vex_lua.Base.Slots.{Slot, write_slots, Fits, length-write_slots, read_slot, get_or-write_slots}
use vex_lua.Value.Header.{
  CommonHeader, buffer_too_small, validate, header_slots, read_common_header, write_common_header,
}

-- The fields fit their widths.
pub record IsHeader (h : CommonHeader) : Type 0 where
  pub kind_fits : h.kind < 2 ^ 16
  pub mark_fits : h.mark < 2 ^ 8
  pub flags_fits : h.flags < 2 ^ 8
  pub size_fits : h.size_bytes < 2 ^ 32
  pub version_fits : h.version < 2 ^ 32
  pub aux_fits : h.aux < 2 ^ 32

-- `Validate` accepts exactly the headers with a kind and a size that holds the header and is
-- aligned.
pub validate_iff :
    (h : CommonHeader)
    → (validate h ≡ ok tt → (0 < h.kind) × (16 ≤ h.size_bytes) × (h.size_bytes % 16 ≡ 0))
      × (0 < h.kind → 16 ≤ h.size_bytes → h.size_bytes % 16 ≡ 0 → validate h ≡ ok tt)
unfolding validate
validate_iff h = (λ e. ground arith, λ a b c. ground arith)

pub header-Fits :
    (h : CommonHeader) (size : ℕ) → IsHeader h → 16 ≤ size → Fits 0 size (header_slots h)
header-Fits h size v n = omega arith

pub guard-true : {E : Type 0} (b : Bool) (e : E) → b ≡ true → guard b e ≡ ok tt
guard-true b e h = rw h

header_ext :
    {a b : CommonHeader}
    → a.kind ≡ b.kind
    → a.mark ≡ b.mark
    → a.flags ≡ b.flags
    → a.size_bytes ≡ b.size_bytes
    → a.version ≡ b.version
    → a.aux ≡ b.aux
    → a ≡ b
header_ext p q r s t u = ground arith

-- The header depends on the first sixteen bytes.
pub read_common_header_congr :
    (a b : List ℕ)
    → 16 ≤ length a
    → 16 ≤ length b
    → ((j : ℕ) → j < 16 → get_or a j 0 ≡ get_or b j 0)
    → read_common_header a ≡ read_common_header b
unfolding read_common_header
read_common_header_congr a b n n' same =
    let at = λ (k off : ℕ) (hi : off + k ≤ 16).
      read_le_congr k a b off λ j lo below. same j (omega (arith, below, hi)) in
    rw
      (
        guard-true (leb 16 (length a)) (buffer_too_small (length a)) (ground (arith, n)),
        guard-true (leb 16 (length b)) (buffer_too_small (length b)) (ground (arith, n')),
      )
      (ap ok (
        header_ext (at 2 0 (omega arith)) (at 1 2 (omega arith)) (at 1 3 (omega arith))
          (at 4 4 (omega arith)) (at 4 8 (omega arith)) (at 4 12 (omega arith))))

pub header_back :
    (buf : List ℕ) (h : CommonHeader)
    → IsHeader h
    → 16 ≤ length buf
    → read_common_header (write_slots buf (header_slots h)) ≡ ok h
unfolding read_common_header
header_back buf h v n =
    let at = λ (i : ℕ) (s : Slot) (e : get_elem? (header_slots h) i ≡ some s).
      read_slot 0 buf (header_slots h) i s (header-Fits h (length buf) v n) e in
    rw (guard-true _ _ enough) (
      ap ok (
        header_ext (at 0 _ refl) (at 1 _ refl) (at 2 _ refl) (at 3 _ refl) (at 4 _ refl)
          (at 5 _ refl)))
  where
    enough : leb 16 (length (write_slots buf (header_slots h))) ≡ true
    enough = rw (length-write_slots buf (header_slots h)) (ground arith)

-- A header that `WriteCommonHeader` accepts is read back as it is; the buffer keeps its length
-- and every byte past the header.
pub read-write_common_header :
    (buf out : List ℕ) (h : CommonHeader)
    → IsHeader h
    → write_common_header buf h ≡ ok out
    → (read_common_header out ≡ ok h)
      × (length out ≡ length buf)
      × ((j : ℕ) → 16 ≤ j → get_or out j 0 ≡ get_or buf j 0)
unfolding write_common_header
read-write_common_header buf out h v e =
    let n : 16 ≤ length buf = ground arith in
    let made : write_slots buf (header_slots h) ≡ out = ground arith in
    subst
      (λ b.
        (read_common_header b ≡ ok h)
        × (length b ≡ length buf)
        × ((j : ℕ) → 16 ≤ j → get_or b j 0 ≡ get_or buf j 0))
      made
      (
        header_back buf h v n,
        length-write_slots buf (header_slots h),
        λ j p. get_or-write_slots buf (header_slots h) j (omega arith),
      )
