-- ===== src/Heap/Headers.antt =====
-- Headers in the heap are read back as they were written.
use vex_lua.Base.{
  ℕ, ◌+◌, ◌^◌, ◌%◌, ◌≤◌, ◌<◌, ◌≡◌, refl, ap, subst, ◌∙◌, sym, List, ◌⊎◌, inr, not, length, get_or,
  Result, ok, err, >>=-eq-ok, guard, ltb, leb, ◌==◌, ◌>>=◌, arith, ok_injective,
}
use vex_lua.Base.Bytes.{read_le-lt}
use vex_lua.Base.Slots.{write_slots, length-write_slots}
use vex_lua.Value.Header.{
  CommonHeader, HeaderError, header_slots, read_common_header, write_common_header, validate,
  buffer_too_small,
}
use vex_lua.Value.Header.Layout.{IsHeader, read-write_common_header}
use vex_lua.Heap.{Heap, Platform, zero_offset, out_of_range, offset_overflow, exceeds_reservation}
use vex_lua.Heap.Memory.{load, store, length-load, load-store, store_else, load_congr}
use vex_lua.Heap.Pages.{find_page, ensure_committed, arena_bytes}
use vex_lua.Heap.Access.{of_header, present, resolve, header_at_offset, write_header}
use vex_lua.Heap.Invariant.{frontier, IsHeap}
use vex_lua.Heap.Kept.{moved-IsSpan}
use vex_lua.Heap.Resolve.{resolve_lem, write_slots_bytes, load_bytes, store_bytes}

-- The heap with other bytes.
abbrev pub with_memory : Heap → (ℕ → ℕ) → Heap
with_memory h memory = record h { memory = memory }

arena_bytes-other :
    (h : Heap) (memory : ℕ → ℕ) (offset : ℕ) (bytes : List ℕ)
    → arena_bytes h.native h.memory offset 16 ≡ ok bytes
    → arena_bytes h.native memory offset 16 ≡ ok (load memory offset 16)
unfolding arena_bytes
arena_bytes-other h memory offset bytes eq =
    let (u, ordered, rest) =
      >>=-eq-ok (guard (not (ltb ((offset + 16) % 2 ^ 64) offset)) (offset_overflow offset)) _ eq in
    let (u', reserved, last) =
      >>=-eq-ok
        (guard (leb ((offset + 16) % 2 ^ 64) h.native.reserved_size) (exceeds_reservation offset)) _
        rest in
    rw (ordered, reserved) refl

-- What resolves, resolves whatever the bytes are.
resolve-other :
    (p : Platform) (h : Heap) (memory : ℕ → ℕ) (offset : ℕ) (bytes : List ℕ)
    → resolve p h offset 16 ≡ ok bytes
    → resolve p (with_memory h memory) offset 16 ≡ ok (load memory offset 16)
unfolding resolve
resolve-other p h memory offset bytes eq =
    let (u, some_offset, rest) = >>=-eq-ok (guard (not (offset == 0)) zero_offset) _ eq in
    let (found, in_page, rest') =
      >>=-eq-ok (present (find_page h.pages offset 16) (out_of_range offset)) _ rest in
    let (u', committed, read) =
      >>=-eq-ok (ensure_committed p h.native ((offset + 16) % 2 ^ 64)) _ rest' in
    rw (resolve, some_offset, in_page, committed) (arena_bytes-other h memory offset bytes read)

pub of_header-ok : {A : Type 0} (r : Result HeaderError A) {a : A} → of_header r ≡ ok a → r ≡ ok a
of_header-ok (ok x) eq = ground (arith, eq)
of_header-ok (err e) eq = cc

-- The written bytes of a header are as many as there were, and bytes.
pub write_common_header_bytes :
    (buf out : List ℕ) (hd : CommonHeader)
    → ((j : ℕ) → get_or buf j 0 < 256)
    → write_common_header buf hd ≡ ok out
    → (length out ≡ length buf) × ((j : ℕ) → get_or out j 0 < 256)
unfolding write_common_header
write_common_header_bytes buf out hd bytes eq =
    let (u, enough, rest) =
      >>=-eq-ok (guard (leb 16 (length buf)) (buffer_too_small (length buf))) _ eq in
    let (u', valid, last) = >>=-eq-ok (validate hd) _ rest in
    let made : write_slots buf (header_slots hd) ≡ out = ok_injective last in
    subst (λ b. (length b ≡ length buf) × ((j : ℕ) → get_or b j 0 < 256)) made
      (length-write_slots buf (header_slots hd), write_slots_bytes buf (header_slots hd) bytes)

-- The parts of a write of a header.
pub record IsWritten (h h' : Heap) (offset : ℕ) (header : CommonHeader) (written : List ℕ)
    : Type 0 where
  pub wrote : write_common_header (load h.memory offset 16) header ≡ ok written
  pub made : with_memory h (store h.memory offset written) ≡ h'
  pub below : offset + 16 ≤ frontier h
  pub sixteen : length written ≡ 16
  pub bytes : (j : ℕ) → get_or written j 0 < 256

pub write_header-parts :
    (p : Platform) (h h' : Heap) (offset : ℕ) (header : CommonHeader)
    → IsHeap h
    → h.next_page + 16 < 2 ^ 64
    → write_header p h offset header ≡ ok h'
    → (written : List ℕ) × IsWritten h h' offset header written
      × (resolve p h offset 16 ≡ ok (load h.memory offset 16))
unfolding write_header
write_header-parts p h h' offset header v small eq =
    let (bytes, resolved, rest) = >>=-eq-ok (resolve p h offset 16) _ eq in
    let (written, wrote, last) = >>=-eq-ok (of_header (write_common_header bytes header)) _ rest in
    let (loaded, covered, below) = resolve_lem p h offset 16 bytes v small resolved in
    let wrote' =
      subst (λ b. write_common_header b header ≡ ok written) loaded (of_header-ok _ wrote) in
    let (len, small) =
      write_common_header_bytes (load h.memory offset 16) written header
        (load_bytes h.memory offset 16 v.are_bytes) wrote' in
    (
      written,
      record {
        wrote = wrote';
        made = ok_injective last;
        below = below;
        sixteen = len ∙ length-load h.memory offset 16;
        bytes = small;
      },
      subst (λ b. resolve p h offset 16 ≡ ok b) loaded resolved,
    )

-- Bytes written below the frontier keep the heap well formed.
pub stored-IsHeap :
    (h : Heap) (offset : ℕ) (written : List ℕ)
    → IsHeap h
    → offset + length written ≤ frontier h
    → ((j : ℕ) → get_or written j 0 < 256)
    → IsHeap (with_memory h (store h.memory offset written))
stored-IsHeap h offset written v below bytes = record {
  spans = λ k s eq.
      moved-IsSpan h (with_memory h (store h.memory offset written)) k s (omega arith) (λ c. c)
        (v.spans k s eq);
  apart = v.apart;
  are_pages = v.are_pages;
  frontier_below = v.frontier_below;
  next_aligned = v.next_aligned;
  next_positive = v.next_positive;
  next_word = v.next_word;
  size_aligned = v.size_aligned;
  clean = λ j past.
      store_else h.memory offset written j (inr (omega (arith, below, past))) ∙ v.clean j past;
  are_bytes = store_bytes h.memory offset written v.are_bytes bytes;
}

header_at_ok :
    (p : Platform) (h : Heap) (offset : ℕ) (header : CommonHeader) (bytes : List ℕ)
    → resolve p h offset 16 ≡ ok bytes
    → of_header (read_common_header bytes) ≡ ok header
    → header_at_offset p h offset ≡ ok header
unfolding header_at_offset
header_at_ok p h offset header bytes resolved read =
    ap (λ r. r >>= λ b. of_header (read_common_header b)) resolved ∙ read

header_at-stored :
    (p : Platform) (h : Heap) (offset : ℕ) (header : CommonHeader) (written : List ℕ)
    → IsHeader header
    → resolve p h offset 16 ≡ ok (load h.memory offset 16)
    → length written ≡ 16
    → write_common_header (load h.memory offset 16) header ≡ ok written
    → header_at_offset p (with_memory h (store h.memory offset written)) offset ≡ ok header
header_at-stored p h offset header written fits resolved len wrote =
    let memory = store h.memory offset written in
    let back = read-write_common_header (load h.memory offset 16) written header fits wrote in
    let loaded : load memory offset 16 ≡ written =
      subst (λ n. load memory offset n ≡ written) len (load-store h.memory offset written) in
    header_at_ok p (with_memory h memory) offset header written
      (resolve-other p h memory offset _ resolved ∙ ap ok loaded) (ap of_header back.0)

header_at-other :
    (p : Platform) (h : Heap) (offset at : ℕ) (header : CommonHeader) (written : List ℕ)
    → IsHeap h
    → h.next_page + 16 < 2 ^ 64
    → length written ≡ 16
    → (at + 16 ≤ offset) ⊎ (offset + 16 ≤ at)
    → header_at_offset p h at ≡ ok header
    → header_at_offset p (with_memory h (store h.memory offset written)) at ≡ ok header
unfolding header_at_offset
header_at-other p h offset at header written v small len apart eq =
    let memory = store h.memory offset written in
    let (bytes, resolved, read) = >>=-eq-ok (resolve p h at 16) _ eq in
    let (loaded, covered, below) = resolve_lem p h at 16 bytes v small resolved in
    let same : load memory at 16 ≡ bytes =
      load_congr memory h.memory at 16
        (λ j lo hi. store_else h.memory offset written j (ground (arith, apart, len, lo, hi)))
      ∙ sym loaded in
    header_at_ok p (with_memory h memory) at header bytes
      (resolve-other p h memory at bytes resolved ∙ ap ok same) read

-- `WriteHeader`, where it succeeds and the header's fields fit: the header is read back, a header
-- that does not overlap it stays, only the memory has changed, and the heap stays well formed.
pub write_header_lem :
    (p : Platform) (h h' : Heap) (offset : ℕ) (header : CommonHeader)
    → IsHeap h
    → h.next_page + 16 < 2 ^ 64
    → IsHeader header
    → write_header p h offset header ≡ ok h'
    → IsHeap h'
      × (header_at_offset p h' offset ≡ ok header)
      × (h' ≡ with_memory h h'.memory)
      × ((at : ℕ) (other : CommonHeader)
          → (at + 16 ≤ offset) ⊎ (offset + 16 ≤ at)
          → header_at_offset p h at ≡ ok other
          → header_at_offset p h' at ≡ ok other)
write_header_lem p h h' offset header v small fits eq =
    let (written, w, resolved) = write_header-parts p h h' offset header v small eq in
    (
      subst IsHeap w.made
          (stored-IsHeap h offset written v (omega (arith, w.below, w.sixteen)) w.bytes),
      subst (λ x. header_at_offset p x offset ≡ ok header) w.made
          (header_at-stored p h offset header written fits resolved w.sixteen w.wrote),
      subst (λ x. x ≡ with_memory h x.memory) w.made refl,
      λ at other apart there.
          subst (λ x. header_at_offset p x at ≡ ok other) w.made
            (header_at-other p h offset at other written v small w.sixteen apart there),
    )

pub read_common_header-IsHeader :
    (buf : List ℕ) (header : CommonHeader)
    → ((j : ℕ) → get_or buf j 0 < 256)
    → read_common_header buf ≡ ok header
    → IsHeader header
unfolding read_common_header
read_common_header-IsHeader buf header bytes eq =
    let (u, enough, last) =
      >>=-eq-ok (guard (leb 16 (length buf)) (buffer_too_small (length buf))) _ eq in
    subst IsHeader (ok_injective last) (record {
      kind_fits = read_le-lt 2 buf 0 bytes;
      mark_fits = read_le-lt 1 buf 2 bytes;
      flags_fits = read_le-lt 1 buf 3 bytes;
      size_fits = read_le-lt 4 buf 4 bytes;
      version_fits = read_le-lt 4 buf 8 bytes;
      aux_fits = read_le-lt 4 buf 12 bytes;
    })

-- A header that is read from the heap has fields that fit.
pub header_at_offset-IsHeader :
    (p : Platform) (h : Heap) (offset : ℕ) (header : CommonHeader)
    → IsHeap h
    → h.next_page + 16 < 2 ^ 64
    → header_at_offset p h offset ≡ ok header
    → IsHeader header
unfolding header_at_offset
header_at_offset-IsHeader p h offset header v small eq =
    let (bytes, resolved, read) = >>=-eq-ok (resolve p h offset 16) _ eq in
    let (loaded, covered, below) = resolve_lem p h offset 16 bytes v small resolved in
    read_common_header-IsHeader bytes header
      (subst (λ b. (j : ℕ) → get_or b j 0 < 256) (sym loaded)
        (load_bytes h.memory offset 16 v.are_bytes))
      (of_header-ok (read_common_header bytes) read)
