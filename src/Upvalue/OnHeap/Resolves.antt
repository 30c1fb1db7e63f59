-- ===== src/Upvalue/OnHeap/Resolves.antt =====
-- What a page has given out inside the reservation resolves, where the platform commits it.
use vex_lua.Base.{
  ℕ, ◌+◌, ◌^◌, ◌-◌, ◌%◌, ◌≤◌, ◌<◌, ◌≡◌, refl, ◌∙◌, sym, List, [], ◌∷◌, some, All, inl, inr, true,
  false, Bool-cases, get_or, ltb, leb, ◌==◌, ok, arith,
}
use vex_lua.Base.Bytes.{read_le}
use vex_lua.Value.Header.{read_common_header}
use vex_lua.Heap.{Heap, Platform, Page}
use vex_lua.Heap.Memory.{load, get_or-load}
use vex_lua.Heap.Pages.{find_page, has_range}
use vex_lua.Heap.Access.{resolve}
use vex_lua.Heap.Invariant.{frontier, IsPage, Covers}
use vex_lua.Heap.Running.{Runs}

-- The platform commits what it has reserved.
abbrev pub Commits : Platform → Type 0
Commits p = (n : ℕ) → p.commits n ≡ true

Covers-found :
    (pages : List Page) (offset size size' next given : ℕ)
    → All (IsPage next given) pages
    → next < 2 ^ 64
    → size' ≤ size
    → Covers pages offset size
    → (found : Page × ℕ) × (find_page pages offset size' ≡ some found)
unfolding find_page
Covers-found [] offset size size' next given all small le c = absurd c
Covers-found (page ∷ pages) offset size size' next given all small le c =
    elim (Bool-cases (has_range page offset size')) [
      | inl here ↦ ((page, offset - page.start), rw (find_page, here) refl)
      | inr past ↦
          rw (find_page, past)
            (Covers-found pages offset size size' next given all.1 small le
              (later c past all.0.used_fits all.0.before_next))
    ]
  where
    later :
        Covers (page ∷ pages) offset size
        → has_range page offset size' ≡ false
        → page.used ≤ page.size
        → page.start + page.size ≤ next
        → Covers pages offset size
    later (inl here) past fits before = absurd (ground (arith, here, past, fits, before, le, small))
    later (inr c) past fits before = c

pub resolve_covered :
    (p : Platform) (h : Heap) (offset size size' : ℕ)
    → Commits p
    → Runs h
    → Covers h.pages offset size
    → size' ≤ size
    → 0 < size'
    → 0 < offset
    → offset + size' ≤ h.native.reserved_size
    → resolve p h offset size' ≡ ok (load h.memory offset size')
unfolding resolve
resolve_covered p h offset size size' commits r covered le positive after reserved =
    let (found, at) =
      Covers-found h.pages offset size size' h.next_page (frontier h) r.is_heap.are_pages
        r.is_heap.next_word le covered in
    let word : (offset + size') % 2 ^ 64 ≡ offset + size' =
      omega (arith, reserved, r.reserve_small) in
    let some_size : (size' == 0) ≡ false = ground (arith, positive) in
    let sum : (offset + size' == 0) ≡ false = ground (arith, positive) in
    let inside : leb (offset + size') h.native.reserved_size ≡ true = ground (arith, reserved) in
    let ordered : ltb (offset + size') offset ≡ false = ground arith in
    let some_offset : (offset == 0) ≡ false = ground (arith, after) in
    rw (resolve, some_offset, at, some_size, word, sum, inside, commits (offset + size'), ordered)
      refl

-- The header of an object is the one at its start.
pub header-of-load :
    (memory : ℕ → ℕ) (offset : ℕ)
    → read_common_header (load memory offset 64) ≡ read_common_header (load memory offset 16)
unfolding load read_common_header read_le
header-of-load memory offset = refl

-- Bytes that agree from a place on.
pub get_or-load_congr :
    (a b : ℕ → ℕ) (offset size lo : ℕ)
    → ((j : ℕ) → offset + lo ≤ j → j < offset + size → a j ≡ b j)
    → (j : ℕ) → lo ≤ j
    → j < size
    → get_or (load a offset size) j 0 ≡ get_or (load b offset size) j 0
get_or-load_congr a b offset size lo same j p q =
    get_or-load a offset size j q
    ∙ same (offset + j) (omega (arith, p)) (omega (arith, q))
    ∙ sym (get_or-load b offset size j q)
