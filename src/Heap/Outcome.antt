-- ===== src/Heap/Outcome.antt =====
-- What an allocation gives, and what a failed one leaves.
use vex_lua.Base.{
  ℕ, ◌+◌, ◌^◌, ◌%◌, ◌≤◌, ◌<◌, ◌≡◌, ◌≢◌, refl, subst, sym, List, Option, none, not, some, inl, inr,
  Result, ok, Option-cases, Result-cases, >>=-eq-ok, guard, ◌==◌, arith,
}
use vex_lua.Heap.{Heap, HeapError, Platform, Page, Allocation, SpanMetadata, align_up, zero_size}
use vex_lua.Heap.Pages.{ensure_committed}
use vex_lua.Heap.Span.{
  with_span, with_reused, append_span, reuse_free_span, alloc_span, placed_at, best_free,
  committed_bytes, checked_reuse, validate_span_metadata,
}
use vex_lua.Heap.Invariant.{frontier, IsHeap, align_up-16, last-IsPage}
use vex_lua.Heap.Kept.{IsPlaced, page_for-IsPlaced}
use vex_lua.Heap.Appended.{HasRoom, with_span-IsHeap}
use vex_lua.Heap.Reused.{with_reused-IsHeap}
use vex_lua.Heap.Best.{IsCandidate, IsBest, best_free-IsBest}
use vex_lua.Heap.Fresh.{IsFresh, IsOutcome, arena_bytes-Reserved, reused-IsFresh, placed-IsFresh}

committed_bytes-Reserved :
    (p : Platform) (h : Heap) (offset size : ℕ) (bytes : List ℕ)
    → 0 < size
    → offset + size < 2 ^ 64
    → committed_bytes p h offset size ≡ ok bytes
    → offset + size ≤ h.native.reserved_size
unfolding committed_bytes
committed_bytes-Reserved p h offset size bytes positive small eq =
    let (u, done, read) = >>=-eq-ok (ensure_committed p h.native ((offset + size) % 2 ^ 64)) _ eq in
    arena_bytes-Reserved h.native h.memory offset size bytes positive small read

append_span-IsOutcome :
    (p : Platform) (h h₁ : Heap) (page : Page) (size n : ℕ) (m : SpanMetadata)
    → IsPlaced h n (h₁, page)
    → size ≤ n
    → n % 16 ≡ 0
    → 0 < n
    → IsOutcome h size (append_span p h₁ page n m)
unfolding append_span
append_span-IsOutcome p h h₁ page size n m placed enough aligned positive =
    let v = placed.is_heap in
    let q = last-IsPage h₁.pages page h₁.next_page (frontier h₁) v.are_pages placed.is_last in
    let r : HasRoom h₁ page n = record {
      is_heap = v;
      is_last = placed.is_last;
      has_room = placed.has_room;
      aligned = aligned;
      positive = positive;
    } in
    let small : page.start + page.used + n < 2 ^ 64 =
      omega (arith, placed.has_room, q.before_next, v.next_word) in
    let at : (page.start + page.used) % 2 ^ 64 ≡ page.start + page.used = omega (arith, small) in
    elim (Result-cases (committed_bytes p h₁ ((page.start + page.used) % 2 ^ 64) n)) [
      | inl (e, failed) ↦ rw (append_span, failed) (v, placed.same_spans, placed.same_memory)
      | inr (bytes, read) ↦
          (let there = subst (λ o. committed_bytes p h₁ o n ≡ ok bytes) at read in
            let fresh =
              placed-IsFresh h h₁ page size n m placed r enough
                (committed_bytes-Reserved p h₁ _ n bytes positive small there) in
            rw (append_span, read)
              (subst
                (λ o.
                  IsHeap (with_span h₁ o n m)
                  × IsFresh h (with_span h₁ o n m) size (placed_at h₁ o n))
                (sym at) (with_span-IsHeap h₁ page n m r, fresh)))
    ]

pub option_clash :
    {x : Heap × Allocation}
    → ◌≡◌ {A = Result HeapError (Option (Heap × Allocation))} (ok none) (ok (some x))
    → ⊥
option_clash eq = cc

pub some_inj :
    {h h' : Heap} {a a' : Allocation}
    → ◌≡◌ {A = Result HeapError (Option (Heap × Allocation))}
        (ok (some (h, a)))
        (ok (some (h', a')))
    → (h ≡ h') × (a ≡ a')
some_inj eq = (cc, cc)

reuse_free_span-IsFresh :
    (p : Platform) (h h' : Heap) (size n : ℕ) (m : SpanMetadata) (a : Allocation)
    → IsHeap h
    → size ≤ n
    → reuse_free_span p h n m ≡ ok (some (h', a))
    → IsHeap h' × IsFresh h h' size a
unfolding reuse_free_span
reuse_free_span-IsFresh p h h' size n m a v enough eq =
    elim (Option-cases (best_free h.allocations (p.order h.allocations) n none)) [
      | inl empty ↦ absurd (option_clash (rw (reuse_free_span, empty) at eq))
      | inr ((offset, span), found) ↦
          let c : IsCandidate h.allocations n offset span =
            subst (IsBest h.allocations n) found
              (best_free-IsBest h.allocations (p.order h.allocations) n none tt) in
          let s = v.spans offset span c.here in
          let (bytes, read, last) =
            >>=-eq-ok (committed_bytes p h span.start span.size) _
              (rw (reuse_free_span, found) at eq) in
          let reserved =
            committed_bytes-Reserved p h span.start span.size bytes s.some_bytes
              (omega (arith, s.at_start, s.below, v.frontier_below, v.next_word)) read in
          let (same, same') = some_inj last in
          let c' : IsCandidate h.allocations size offset span = record {
            here = c.here;
            free = c.free;
            room = omega (arith, enough, c.room);
          } in
          (
            subst IsHeap same (with_reused-IsHeap h offset span m v c.here),
            subst (λ x. IsFresh h x size a) same
                (subst (λ y. IsFresh h (with_reused h offset span m) size y) same'
                  (reused-IsFresh h size offset span m v c' reserved)),
          )
    ]

checked_reuse-reuse :
    (p : Platform) (h : Heap) (size : ℕ) (m : SpanMetadata) (out : Option (Heap × Allocation))
    → checked_reuse p h size m ≡ ok out
    → (size ≢ 0) × (reuse_free_span p h (align_up size 16) m ≡ ok out)
unfolding checked_reuse
checked_reuse-reuse p h size m out eq =
    let (u, nonzero, rest) = >>=-eq-ok (guard (not (size == 0)) zero_size) _ eq in
    let (u', valid, last) = >>=-eq-ok (validate_span_metadata p h m) _ rest in
    (ground (arith, nonzero), last)

-- `allocSpan`, on every branch and with a size that does not wrap: an allocation is fresh, and after
-- an error the spans and the memory are as they were. The heap is well formed either way.
pub alloc_span-IsOutcome :
    (p : Platform) (h : Heap) (size : ℕ) (m : SpanMetadata)
    → IsHeap h
    → h.next_page + h.page_size + size + 96 ≤ 2 ^ 64
    → IsOutcome h size (alloc_span p h size m)
unfolding alloc_span
alloc_span-IsOutcome p h size m v room =
    let (enough, close, aligned) = align_up-16 size (omega (arith, room)) in
    elim (Result-cases (checked_reuse p h size m)) [
      | inl (e, failed) ↦ rw (alloc_span, failed) (v, refl, refl)
      | inr (some (h', a), found) ↦
          rw (alloc_span, found)
            (reuse_free_span-IsFresh p h h' size _ m a v enough
              (checked_reuse-reuse p h size m _ found).1)
      | inr (none, full) ↦
          rw (alloc_span, full)
            (append_span-IsOutcome p h _ _ size (align_up size 16) m
              (page_for-IsPlaced h (align_up size 16) v aligned (omega (arith, close, room))) enough
              aligned (omega (arith, enough, (checked_reuse-reuse p h size m none full).0)))
    ]
