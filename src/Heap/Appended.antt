-- ===== src/Heap/Appended.antt =====
-- A new span at the end of the last page keeps the heap well formed.
use vex_lua.Base.{ℕ, ◌+◌, ◌%◌, ◌≤◌, ◌<◌, ◌≡◌, refl, ap, subst, sym, some, ◌⊎◌, inl, inr, arith}
use vex_lua.Heap.{Heap, Page, AllocationSpan, SpanMetadata}
use vex_lua.Heap.Pages.{last_page}
use vex_lua.Heap.Span.{with_span, live_metadata}
use vex_lua.Heap.Invariant.{
  frontier, end_of, IsSpan, IsHeap, insert-cases, last_page-use_last, Covers-use_last, Covers-new,
  All-use_last, last-IsPage,
}
use vex_lua.Heap.Kept.{moved-IsSpan}

-- The span that `allocSpan` enters.
abbrev pub new_span : Heap → ℕ → ℕ → SpanMetadata → AllocationSpan
new_span h offset size m = record {
  start = offset;
  size = size;
  metadata = live_metadata h m offset size;
}

-- What an appended span needs of the last page.
pub record HasRoom (h : Heap) (page : Page) (n : ℕ) : Type 0 where
  pub is_heap : IsHeap h
  pub is_last : last_page h.pages ≡ some page
  pub has_room : page.used + n ≤ page.size
  pub aligned : n % 16 ≡ 0
  pub positive : 0 < n

pub frontier-with_span :
    (h : Heap) (page : Page) (n : ℕ) (m : SpanMetadata)
    → HasRoom h page n
    → (frontier h ≡ page.start + page.used)
      × (frontier (with_span h (page.start + page.used) n m) ≡ page.start + page.used + n)
unfolding with_span
frontier-with_span h page n m r =
    let p = last-IsPage h.pages page h.next_page (frontier h) r.is_heap.are_pages r.is_last in
    let grew = ap end_of (last_page-use_last h.pages page n r.is_last) in
    (
      ap end_of r.is_last,
      omega (arith, grew, p.used_fits, p.before_next, r.is_heap.next_word, r.has_room),
    )

new-IsSpan :
    (h : Heap) (page : Page) (n : ℕ) (m : SpanMetadata)
    → HasRoom h page n
    → IsSpan
        (with_span h (page.start + page.used) n m)
        (page.start + page.used)
        (new_span h (page.start + page.used) n m)
unfolding with_span
new-IsSpan h page n m r =
    let p = last-IsPage h.pages page h.next_page (frontier h) r.is_heap.are_pages r.is_last in
    let (before, after) = frontier-with_span h page n m r in
    record {
      at_start = refl;
      aligned = omega (arith, p.start_aligned, p.used_aligned);
      size_aligned = r.aligned;
      some_bytes = r.positive;
      not_zero = omega (arith, p.not_zero);
      below = omega (arith, after);
      covered =
          Covers-new h.pages page n h.next_page (frontier h) r.is_heap.are_pages r.is_last
            r.is_heap.next_word r.has_room;
    }

-- Every span of the new heap is the new one, or one of the old ones that ends where it starts.
with_span-cases :
    (h : Heap) (page : Page) (n : ℕ) (m : SpanMetadata) (offset : ℕ) (span : AllocationSpan)
    → HasRoom h page n
    → (with_span h (page.start + page.used) n m).allocations offset ≡ some span
    → ((offset ≡ page.start + page.used) × (new_span h (page.start + page.used) n m ≡ span))
      ⊎ ((h.allocations offset ≡ some span) × (offset + span.size ≤ page.start + page.used))
unfolding with_span
with_span-cases h page n m offset span r eq =
    elim (insert-cases (page.start + page.used) _ h.allocations offset span eq) [
      | inl new ↦ inl new
      | inr (ne, old) ↦
          inr (old, omega (arith, (r.is_heap.spans offset span old).below, ap end_of r.is_last))
    ]

pub with_span-IsHeap :
    (h : Heap) (page : Page) (n : ℕ) (m : SpanMetadata)
    → HasRoom h page n
    → IsHeap (with_span h (page.start + page.used) n m)
unfolding with_span
with_span-IsHeap h page n m r =
    let v = r.is_heap in
    let p = last-IsPage h.pages page h.next_page (frontier h) v.are_pages r.is_last in
    let h' = with_span h (page.start + page.used) n m in
    let (before, after) = frontier-with_span h page n m r in
    let cases = λ (offset : ℕ) (span : AllocationSpan). with_span-cases h page n m offset span r in
    record {
      spans = λ offset span eq. elim (cases offset span eq) [
        | inl (at, same) ↦ subst (IsSpan h' offset) same (
            subst (λ o. IsSpan h' o (new_span h (page.start + page.used) n m)) (sym at)
              (new-IsSpan h page n m r))
        | inr (old, ends) ↦
            moved-IsSpan h h' offset span (omega (arith, before, after))
              (Covers-use_last h.pages page n h.next_page (frontier h) offset span.size v.are_pages
                r.is_last v.next_word r.has_room)
              (v.spans offset span old)
      ];
      apart = λ j k s t ej ek lt. elim (cases j s ej) [
        | inl (at, same) ↦ elim (cases k t ek) [
          | inl (at', same') ↦ absurd (omega (arith, at, at', lt))
          | inr (old, ends) ↦ absurd (omega (arith, at, ends, lt))
        ]
        | inr (old, ends) ↦ elim (cases k t ek) [
          | inl (at, same) ↦ omega (arith, at, ends)
          | inr (old', ends') ↦ v.apart j k s t old old' lt
        ]
      ];
      are_pages =
          All-use_last h.pages page n h.next_page (frontier h) (frontier h') v.are_pages r.is_last
            v.next_word r.has_room r.aligned (omega (arith, before, after)) (omega (arith, after));
      frontier_below = omega (arith, after, p.before_next, r.has_room);
      next_aligned = v.next_aligned;
      next_positive = v.next_positive;
      next_word = v.next_word;
      size_aligned = v.size_aligned;
      are_bytes = v.are_bytes;
      clean = λ j past. v.clean j (omega (arith, past, before, after));
    }
