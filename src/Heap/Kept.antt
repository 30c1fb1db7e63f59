-- ===== src/Heap/Kept.antt =====
-- The heap stays well formed under the operations on spans.
use vex_lua.Base.{
  ℕ, ◌+◌, ◌^◌, ◌%◌, ◌≤◌, ◌<◌, ◌≡◌, refl, ap, ◌∙◌, [], ◌∷◌, ◌++◌, some, ◌⊎◌, inl, inr, true, false,
  Bool-cases, Option-cases, leb→le, ltb, leb, arith,
}
use vex_lua.Heap.{Heap, Page, AllocationSpan}
use vex_lua.Heap.Pages.{last_page, remaining, current_page, fresh_page, new_page, page_for}
use vex_lua.Heap.Invariant.{
  frontier, end_of, IsSpan, IsHeap, Covers, align_up-16, last_page-append, Covers-append,
  All-append, last-IsPage,
}

-- The heap is well formed, and the page is its last one, with room for the size.
pub record IsPlaced (h : Heap) (size : ℕ) (placed : Heap × Page) : Type 0 where
  pub is_heap : IsHeap (placed.0)
  pub is_last : last_page placed.0.pages ≡ some (placed.1)
  pub has_room : placed.1.used + size ≤ placed.1.size
  pub same_spans : placed.0.allocations ≡ h.allocations
  pub same_memory : placed.0.memory ≡ h.memory
  pub same_native : placed.0.native ≡ h.native
  pub same_base : placed.0.base ≡ h.base
  pub same_size : placed.0.page_size ≡ h.page_size
  pub next_bound :
      (placed.0.next_page ≤ h.next_page)
      ⊎ (placed.0.next_page ≤ placed.1.start + placed.1.used + size + h.page_size)
  pub not_before : frontier h ≤ placed.1.start + placed.1.used

fresh-IsPage :
    (h : Heap) (n : ℕ)
    → IsHeap h
    → n % 16 ≡ 0
    → h.next_page + h.page_size + n + 64 ≤ 2 ^ 64
    → ((fresh_page h n).start ≡ h.next_page)
      × (n ≤ (fresh_page h n).size)
      × ((fresh_page h n).size % 16 ≡ 0)
      × (h.next_page + (fresh_page h n).size + 16 < 2 ^ 64)
      × ((fresh_page h n).size ≤ n + h.page_size)
unfolding fresh_page
fresh-IsPage h n v aligned room = ground (
  arith,
  align_up-16 h.next_page (omega arith),
  align_up-16 n (omega arith),
  v.next_aligned,
  v.size_aligned,
  aligned,
  room,
)

-- The heap with one more page.
abbrev with_page : Heap → Page → Heap
with_page h page = record h {
  pages = h.pages ++ page ∷ [];
  next_page = (page.start + page.size) % 2 ^ 64;
}

pub moved-IsSpan :
    (h h' : Heap) (offset : ℕ) (span : AllocationSpan)
    → frontier h ≤ frontier h'
    → (Covers h.pages offset span.size → Covers h'.pages offset span.size)
    → IsSpan h offset span
    → IsSpan h' offset span
moved-IsSpan h h' offset span later covers v = record {
  at_start = v.at_start;
  aligned = v.aligned;
  size_aligned = v.size_aligned;
  some_bytes = v.some_bytes;
  not_zero = v.not_zero;
  below = omega (arith, v.below, later);
  covered = covers v.covered;
}

with_page-IsPlaced :
    (h : Heap) (page : Page) (n : ℕ)
    → IsHeap h
    → page.start ≡ h.next_page
    → page.used ≡ 0
    → page.size % 16 ≡ 0
    → n ≤ page.size
    → h.next_page + page.size + 16 < 2 ^ 64
    → page.size ≤ n + h.page_size
    → IsPlaced h n (with_page h page, page)
with_page-IsPlaced h page n v start used aligned enough small bound =
    let last = last_page-append h.pages page in
    let at : end_of (last_page (h.pages ++ page ∷ [])) ≡ h.next_page =
      ap end_of last ∙ omega (arith, start, used) in
    let wraps : (page.start + page.size) % 2 ^ 64 ≡ h.next_page + page.size =
      omega (arith, start, small) in
    record {
      is_heap = record {
        spans = λ offset span eq.
            moved-IsSpan h (with_page h page) offset span (omega (arith, at, v.frontier_below))
              (Covers-append h.pages page offset span.size) (v.spans offset span eq);
        apart = v.apart;
        are_pages =
            All-append h.pages page h.next_page _ (frontier h) _ v.are_pages (omega (arith, wraps))
              (omega (arith, at, v.frontier_below))
              (record {
                start_aligned = omega (arith, start, v.next_aligned);
                used_aligned = omega (arith, used);
                not_zero = omega (arith, start, v.next_positive);
                used_fits = omega (arith, used);
                before_next = omega (arith, start, wraps);
                given_below = omega (arith, at, start, used);
              });
        frontier_below = omega (arith, at, wraps);
        next_aligned = omega (arith, wraps, v.next_aligned, aligned);
        next_positive = omega (arith, wraps, v.next_positive);
        next_word = omega (arith, wraps, small);
        size_aligned = v.size_aligned;
        are_bytes = v.are_bytes;
        clean = λ j past. v.clean j (omega (arith, past, at, v.frontier_below));
      };
      is_last = last;
      has_room = omega (arith, used, enough);
      same_spans = refl;
      same_memory = refl;
      same_native = refl;
      same_base = refl;
      same_size = refl;
      next_bound = inr (omega (arith, wraps, start, used, bound));
      not_before = omega (arith, start, used, v.frontier_below);
    }

new_page-IsPlaced :
    (h : Heap) (n : ℕ)
    → IsHeap h
    → n % 16 ≡ 0
    → h.next_page + h.page_size + n + 64 ≤ 2 ^ 64
    → IsPlaced h n (new_page h n, fresh_page h n)
unfolding new_page fresh_page
new_page-IsPlaced h n v aligned room =
    let (start, enough, size_aligned, small, bound) = fresh-IsPage h n v aligned room in
    with_page-IsPlaced h (fresh_page h n) n v start refl size_aligned enough small bound

current-IsPlaced :
    (h : Heap) (page : Page) (n : ℕ)
    → IsHeap h
    → last_page h.pages ≡ some page
    → n ≤ remaining page
    → IsPlaced h n (h, page)
unfolding remaining
current-IsPlaced h page n v last room =
    let p = last-IsPage h.pages page h.next_page (frontier h) v.are_pages last in
    record {
      is_heap = v;
      is_last = last;
      has_room = omega (arith, room, p.used_fits, p.before_next, v.next_word);
      same_spans = refl;
      same_memory = refl;
      same_native = refl;
      same_base = refl;
      same_size = refl;
      next_bound = inl (omega arith);
      not_before = omega (arith, ap end_of last);
    }

not_lt : (a n : ℕ) → leb n a ≡ true → ltb a n ≡ false
not_lt a n h = ground arith

-- The page that an allocation takes is the last one and has room, and the heap stays well formed.
pub page_for-IsPlaced :
    (h : Heap) (n : ℕ)
    → IsHeap h
    → n % 16 ≡ 0
    → h.next_page + h.page_size + n + 64 ≤ 2 ^ 64
    → IsPlaced h n (page_for h n)
unfolding page_for current_page
page_for-IsPlaced h n v aligned room =
    let fresh = new_page-IsPlaced h n v aligned room in
    elim (Option-cases (last_page h.pages)) [
      | inl empty ↦ rw (page_for, current_page, empty) fresh
      | inr (page, last) ↦
          rw (page_for, current_page, last)
            (elim (Bool-cases (leb n (remaining page))) [
              | inl room_left ↦
                  rw (room_left, not_lt (remaining page) n room_left)
                    (current-IsPlaced h page n v last (leb→le n (remaining page) room_left))
              | inr full ↦ rw full fresh
            ])
    ]
