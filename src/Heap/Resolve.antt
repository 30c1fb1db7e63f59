-- ===== src/Heap/Resolve.antt =====
-- What `Resolve` gives, and headers that are written and read back.
use vex_lua.Base.{
  ℕ, suc, zero, ◌+◌, ◌-◌, ◌/◌, ◌^◌, ◌%◌, ◌≤◌, ◌<◌, ◌≡◌, ap, ◌∙◌, sym, List, [], ◌∷◌, Option, none,
  some, All, inl, inr, not, Bool-cases, ==_iff, get_or, set, ok, >>=-eq-ok, guard, ltb, leb, ◌==◌,
  if◌then◌else◌, arith, ok_injective,
}
use vex_lua.Base.Bytes.{write_le}
use vex_lua.Base.Slots.{Slot, write_slots}
use vex_lua.Heap.{
  Heap, HeapError, Platform, Page, out_of_range, offset_overflow, exceeds_reservation, zero_offset,
}
use vex_lua.Heap.Memory.{load, store}
use vex_lua.Heap.Pages.{find_page, has_range, ensure_committed, arena_bytes}
use vex_lua.Heap.Access.{resolve, present}
use vex_lua.Heap.Invariant.{frontier, IsPage, IsHeap, Covers}

find_page-Covers :
    (pages : List Page) (offset size next given : ℕ) (found : Page × ℕ)
    → All (IsPage next given) pages
    → next + size < 2 ^ 64
    → find_page pages offset size ≡ some found
    → Covers pages offset size
unfolding find_page
find_page-Covers [] offset size next given found all small eq = cc
find_page-Covers (p ∷ pages) offset size next given found all small eq =
    elim (Bool-cases (has_range p offset size)) [
      | inl here ↦ inl (ground (arith, here, all.0.used_fits, all.0.before_next))
      | inr past ↦ inr (
          find_page-Covers pages offset size next given found all.1 small
            (rw (find_page, past) at eq))
    ]

Covers-below :
    (pages : List Page) (offset size next given : ℕ)
    → All (IsPage next given) pages
    → Covers pages offset size
    → offset + size ≤ given
Covers-below [] offset size next given all c = absurd c
Covers-below (p ∷ pages) offset size next given all (inl here) =
    omega (arith, here, all.0.given_below)
Covers-below (p ∷ pages) offset size next given all (inr later) =
    Covers-below pages offset size next given all.1 later

pub present-some :
    {A : Type 0} (e : HeapError) {a : A} (o : Option A) → present o e ≡ ok a → o ≡ some a
present-some e none eq = cc
present-some e (some b) eq = ground (arith, eq)

arena_bytes-load :
    (h : Heap) (offset size : ℕ) (bytes : List ℕ)
    → arena_bytes h.native h.memory offset size ≡ ok bytes
    → bytes ≡ load h.memory offset size
unfolding arena_bytes load
arena_bytes-load h offset size bytes eq = elim (Bool-cases (size == 0)) [
  | inl none_left ↦
      (let zero_bytes : size ≡ 0 = (==_iff size 0).0 none_left in
        sym (ok_injective (rw (arena_bytes, none_left) at eq))
        ∙ sym (ap (load h.memory offset) zero_bytes))
  | inr some_left ↦
      (let (u, ordered, rest) =
          >>=-eq-ok (guard (not (ltb ((offset + size) % 2 ^ 64) offset)) (offset_overflow offset)) _
            (rw (arena_bytes, some_left) at eq) in
        let (u', reserved, last) =
          >>=-eq-ok
            (guard (leb ((offset + size) % 2 ^ 64) h.native.reserved_size)
              (exceeds_reservation offset))
            _ rest in
        sym (ok_injective last))
]

-- `Resolve` gives the bytes of a range that one page has given out.
pub resolve_lem :
    (p : Platform) (h : Heap) (offset size : ℕ) (bytes : List ℕ)
    → IsHeap h
    → h.next_page + size < 2 ^ 64
    → resolve p h offset size ≡ ok bytes
    → (bytes ≡ load h.memory offset size)
      × Covers h.pages offset size
      × (offset + size ≤ frontier h)
unfolding resolve
resolve_lem p h offset size bytes v small eq =
    let (u, some_offset, rest) = >>=-eq-ok (guard (not (offset == 0)) zero_offset) _ eq in
    let (found, in_page, rest') =
      >>=-eq-ok (present (find_page h.pages offset size) (out_of_range offset)) _ rest in
    let (u', committed, read) =
      >>=-eq-ok
        (if size == 0 then ok tt else ensure_committed p h.native ((offset + size) % 2 ^ 64)) _
        rest' in
    let covered =
      find_page-Covers h.pages offset size h.next_page (frontier h) found v.are_pages small
        (present-some _ _ in_page) in
    (
      arena_bytes-load h offset size bytes read,
      covered,
      Covers-below h.pages offset size h.next_page (frontier h) v.are_pages covered,
    )

set_bytes :
    (buf : List ℕ) (i v : ℕ)
    → ((j : ℕ) → get_or buf j 0 < 256)
    → v < 256
    → (j : ℕ) → get_or (set buf i v) j 0 < 256
set_bytes [] i v bytes small j = bytes j
set_bytes (b ∷ buf) zero v bytes small zero = small
set_bytes (b ∷ buf) zero v bytes small (suc j) = bytes (suc j)
set_bytes (b ∷ buf) (suc i) v bytes small zero = bytes 0
set_bytes (b ∷ buf) (suc i) v bytes small (suc j) = set_bytes buf i v (λ k. bytes (suc k)) small j

write_le_bytes :
    (k : ℕ) (buf : List ℕ) (off v : ℕ)
    → ((j : ℕ) → get_or buf j 0 < 256)
    → (j : ℕ) → get_or (write_le k buf off v) j 0 < 256
unfolding write_le
write_le_bytes zero buf off v bytes = bytes
write_le_bytes (suc k) buf off v bytes =
    write_le_bytes k (set buf off (v % 256)) (off + 1) (v / 256)
      (set_bytes buf off (v % 256) bytes (omega arith))

pub write_slots_bytes :
    (buf : List ℕ) (ss : List Slot)
    → ((j : ℕ) → get_or buf j 0 < 256)
    → (j : ℕ) → get_or (write_slots buf ss) j 0 < 256
unfolding write_slots
write_slots_bytes buf [] bytes = bytes
write_slots_bytes buf (s ∷ ss) bytes =
    write_slots_bytes (write_le s.width buf s.at s.val) ss
      (write_le_bytes s.width buf s.at s.val bytes)

pub load_bytes :
    (memory : ℕ → ℕ) (offset size : ℕ)
    → ((j : ℕ) → memory j < 256)
    → (j : ℕ) → get_or (load memory offset size) j 0 < 256
unfolding load
load_bytes memory offset zero bytes j = omega arith
load_bytes memory offset (suc size) bytes zero = bytes offset
load_bytes memory offset (suc size) bytes (suc j) = load_bytes memory (offset + 1) size bytes j

pub store_bytes :
    (memory : ℕ → ℕ) (offset : ℕ) (buf : List ℕ)
    → ((j : ℕ) → memory j < 256)
    → ((j : ℕ) → get_or buf j 0 < 256)
    → (j : ℕ) → store memory offset buf j < 256
unfolding store
store_bytes memory offset buf bytes bytes' j = ground (arith, bytes j, bytes' (j - offset))
