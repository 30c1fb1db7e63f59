-- ===== src/Heap/Freed.antt =====
-- A span that is given back.
use vex_lua.Base.{
  ℕ, ◌+◌, ◌≤◌, ◌<◌, ◌≡◌, ◌≢◌, refl, subst, some, ◌⊎◌, inl, inr, true, false, not, Bool-cases, ok,
  >>=-eq-ok, guard, ◌==◌, arith, ok_injective,
}
use vex_lua.Heap.{Heap, AllocationSpan, is_free, zero_offset, unknown_span}
use vex_lua.Heap.Memory.{clear_zero, clear_else}
use vex_lua.Heap.Pages.{arena_bytes}
use vex_lua.Heap.Access.{present}
use vex_lua.Heap.Lifetime.{free_span, with_freed}
use vex_lua.Heap.Invariant.{IsHeap, insert_self, insert_ne}
use vex_lua.Heap.Reused.{with_freed-IsHeap}
use vex_lua.Heap.Resolve.{present-some}

-- The span is free afterwards, and the other spans and their bytes are as they were.
pub record IsFreed (h h' : Heap) (offset : ℕ) (span : AllocationSpan) : Type 0 where
  pub was : h.allocations offset ≡ some span
  pub now :
      (s : AllocationSpan) × (h'.allocations offset ≡ some s)
      × (is_free s.metadata.state ≡ true)
      × (s.size ≡ span.size)
  pub other_spans : (k : ℕ) → k ≢ offset → h'.allocations k ≡ h.allocations k
  pub other_bytes : (j : ℕ) → (j < offset) ⊎ (offset + span.size ≤ j) → h'.memory j ≡ h.memory j
  pub cleared :
      is_free span.metadata.state ≡ false
      → (j : ℕ) → (offset ≤ j) × (j < offset + span.size)
      → h'.memory j ≡ 0
  pub same_next : h'.next_page ≡ h.next_page
  pub same_native : h'.native ≡ h.native
  pub same_size : h'.page_size ≡ h.page_size

with_freed-IsFreed :
    (h : Heap) (offset : ℕ) (span : AllocationSpan)
    → IsHeap h
    → h.allocations offset ≡ some span
    → IsFreed h (with_freed h offset span) offset span
unfolding with_freed
with_freed-IsFreed h offset span v there =
    let s = v.spans offset span there in
    record {
      was = there;
      now = (_, insert_self offset _ h.allocations, refl, refl);
      other_spans = λ k ne. insert_ne offset _ h.allocations k ne;
      other_bytes =
          λ j out. clear_else h.memory span.start span.size j (ground (arith, s.at_start, out));
      cleared = λ used j inside.
          clear_zero h.memory span.start span.size j (omega (arith, s.at_start, inside));
      same_next = refl;
      same_native = refl;
      same_size = refl;
    }

-- A span that is free already is left alone.
free_again :
    (h : Heap) (offset : ℕ) (span : AllocationSpan)
    → offset ≢ 0
    → h.allocations offset ≡ some span
    → is_free span.metadata.state ≡ true
    → free_span h offset ≡ ok h
unfolding free_span
free_again h offset span some_offset there free =
    let nonzero : not (offset == 0) ≡ true = ground (arith, some_offset) in
    rw (free_span, nonzero, there, free) refl

-- `FreeSpan`, where it succeeds: the span is free and, if it was in use, all zero; every other span
-- and byte is as it was; the heap stays well formed; and freeing the span again changes nothing.
pub free_span_lem :
    (h h' : Heap) (offset : ℕ)
    → IsHeap h
    → free_span h offset ≡ ok h'
    → IsHeap h'
      × ((span : AllocationSpan) × IsFreed h h' offset span)
      × (free_span h' offset ≡ ok h')
unfolding free_span
free_span_lem h h' offset v eq =
    let (u, nonzero, rest) = >>=-eq-ok (guard (not (offset == 0)) zero_offset) _ eq in
    let some_offset : offset ≢ 0 = ground (arith, nonzero) in
    let (span, found, rest') =
      >>=-eq-ok (present (h.allocations offset) (unknown_span offset)) _ rest in
    let there = present-some (unknown_span offset) (h.allocations offset) found in
    elim (Bool-cases (is_free span.metadata.state)) [
      | inl free ↦
          (let same : h ≡ h' = ok_injective (rw free at rest') in
            (
              subst IsHeap same v,
              (
                span,
                subst (λ x. IsFreed h x offset span) same
                    (record {
                      was = there;
                      now = (span, there, free, refl);
                      other_spans = λ k ne. refl;
                      other_bytes = λ j out. refl;
                      cleared = λ used j inside. absurd (clash span free used);
                      same_next = refl;
                      same_native = refl;
                      same_size = refl;
                    }),
              ),
              subst (λ x. free_span x offset ≡ ok x) same
                  (free_again h offset span some_offset there free),
            ))
      | inr used ↦
          (let (bytes, read, last) =
              >>=-eq-ok (arena_bytes h.native h.memory span.start span.size) _ (rw used at rest') in
            let same = ok_injective last in
            let freed = with_freed-IsFreed h offset span v there in
            let (s, now, free, size) = freed.now in
            (
              subst IsHeap same (with_freed-IsHeap h offset span v there),
              (span, subst (λ x. IsFreed h x offset span) same freed),
              subst (λ x. free_span x offset ≡ ok x) same
                  (free_again (with_freed h offset span) offset s some_offset now free),
            ))
    ]
  where
    clash :
        (x : AllocationSpan)
        → is_free x.metadata.state ≡ true
        → is_free x.metadata.state ≡ false
        → ⊥
    clash x a b = cc
