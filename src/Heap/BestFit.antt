-- ===== src/Heap/BestFit.antt =====
-- A free span is taken again, and the smallest that fits.
use vex_lua.Base.{
  ℕ, ◌≤◌, ◌≡◌, ◌≢◌, refl, subst, Among, Option, none, some, inl, inr, Option-cases, Result, ok,
  >>=-eq-ok,
}
use vex_lua.Heap.{Heap, HeapError, Platform, Allocation, AllocationSpan, SpanMetadata}
use vex_lua.Heap.Span.{best_free, committed_bytes, reuse_free_span}
use vex_lua.Heap.Best.{IsCandidate, IsBest, AtMost, best_free-IsBest, best_free-best}
use vex_lua.Heap.Outcome.{some_inj}

-- The candidate that an allocation of `n` bytes takes, no larger than a given number of bytes.
abbrev pub Taken : Heap → ℕ → ℕ → Allocation → Type 0
Taken h n bound a =
    (s : AllocationSpan) × IsCandidate h.allocations n a.offset s
    × (a.size ≡ s.size)
    × (a.size ≤ bound)

found_clash :
    {x : Heap × Allocation}
    → ◌≡◌ {A = Result HeapError (Option (Heap × Allocation))} (ok (some x)) (ok none)
    → ⊥
found_clash eq = cc

-- Where a free span with room for the size is among the keys that the walk of the map visits, a free
-- span is taken: one with room, and with no more bytes than that one. Only the arena may refuse it.
pub reuse_free_span-best :
    (p : Platform) (h : Heap) (n : ℕ) (m : SpanMetadata) (offset : ℕ) (span : AllocationSpan)
    → Among (p.order h.allocations) offset
    → IsCandidate h.allocations n offset span
    → (reuse_free_span p h n m ≢ ok none)
      × ((h' : Heap) (a : Allocation)
          → reuse_free_span p h n m ≡ ok (some (h', a))
          → Taken h n span.size a)
unfolding reuse_free_span
reuse_free_span-best p h n m offset span visited c =
    elim (Option-cases (best_free h.allocations (p.order h.allocations) n none)) [
      | inl empty ↦ absurd (
          subst (λ o. AtMost o span.size) empty
            (best_free-best h.allocations (p.order h.allocations) n none offset span visited c))
      | inr ((o, s), found) ↦
          (let best : IsCandidate h.allocations n o s =
              subst (IsBest h.allocations n) found
                (best_free-IsBest h.allocations (p.order h.allocations) n none tt) in
            let small : s.size ≤ span.size =
              subst (λ x. AtMost x span.size) found
                (best_free-best h.allocations (p.order h.allocations) n none offset span visited
                  c) in
            (
              (λ eq.
                  let (bytes, read, last) =
                    >>=-eq-ok (committed_bytes p h s.start s.size) _
                      (rw (reuse_free_span, found) at eq) in
                  found_clash last),
              λ h' a eq.
                  let (bytes, read, last) =
                    >>=-eq-ok (committed_bytes p h s.start s.size) _
                      (rw (reuse_free_span, found) at eq) in
                  subst (Taken h n span.size) (some_inj last).1 (s, best, refl, small),
            ))
    ]
