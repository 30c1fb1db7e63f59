-- ===== src/Heap/Reused.antt =====
-- Taking a free span again, and giving one back, keep the heap well formed.
use vex_lua.Base.{ℕ, ◌≤◌, ◌<◌, ◌≡◌, refl, ap, subst, ◌∙◌, sym, some, inl, inr, arith}
use vex_lua.Heap.{Heap, AllocationSpan, SpanMetadata, GcController, insert}
use vex_lua.Heap.Memory.{clear, clear_else}
use vex_lua.Heap.Span.{with_reused}
use vex_lua.Heap.Lifetime.{with_freed, with_owner}
use vex_lua.Heap.Invariant.{frontier, IsHeap, Covers, insert-cases}

-- The heap with another description of one span, with some memory cleared, and with other counters.
abbrev relabelled : Heap → ℕ → AllocationSpan → (ℕ → ℕ) → GcController → Heap
relabelled h offset span memory gc = record h {
  allocations = insert offset span h.allocations;
  memory = memory;
  gc = gc;
}

relabelled-old :
    (h : Heap) (offset : ℕ) (old span : AllocationSpan) (k : ℕ) (s : AllocationSpan)
    → h.allocations offset ≡ some old
    → span.start ≡ old.start
    → span.size ≡ old.size
    → insert offset span h.allocations k ≡ some s
    → (o : AllocationSpan) × (h.allocations k ≡ some o) × (s.start ≡ o.start) × (s.size ≡ o.size)
relabelled-old h offset old span k s there start size eq =
    elim (insert-cases offset span h.allocations k s eq) [
      | inl (at, same) ↦ (
        old,
        ap h.allocations at ∙ there,
        sym (ap (λ x. x.start) same) ∙ start,
        sym (ap (λ x. x.size) same) ∙ size,
      )
      | inr (ne, kept) ↦ (s, kept, refl, refl)
    ]

relabelled-IsHeap :
    (h : Heap) (offset : ℕ) (old span : AllocationSpan) (memory : ℕ → ℕ) (gc : GcController)
    → IsHeap h
    → h.allocations offset ≡ some old
    → span.start ≡ old.start
    → span.size ≡ old.size
    → ((j : ℕ) → frontier h ≤ j → memory j ≡ h.memory j)
    → ((j : ℕ) → memory j < 256)
    → IsHeap (relabelled h offset span memory gc)
relabelled-IsHeap h offset old span memory gc v there start size kept below =
    let from = λ (k : ℕ) (s : AllocationSpan) (eq : insert offset span h.allocations k ≡ some s).
      relabelled-old h offset old span k s there start size eq in
    record {
      spans = λ k s eq.
          let (o, was, same_start, same_size) = from k s eq in
          let w = v.spans k o was in
          record {
            at_start = same_start ∙ w.at_start;
            aligned = w.aligned;
            size_aligned = omega (arith, same_size, w.size_aligned);
            some_bytes = omega (arith, same_size, w.some_bytes);
            not_zero = w.not_zero;
            below = omega (arith, same_size, w.below);
            covered = subst (Covers h.pages k) (sym same_size) w.covered;
          };
      apart = λ j k s t ej ek lt.
          let (o, was, _, same_size) = from j s ej in
          let (o', was', _, _) = from k t ek in
          omega (arith, same_size, v.apart j k o o' was was' lt);
      are_pages = v.are_pages;
      frontier_below = v.frontier_below;
      next_aligned = v.next_aligned;
      next_positive = v.next_positive;
      next_word = v.next_word;
      size_aligned = v.size_aligned;
      are_bytes = below;
      clean = λ j past. kept j past ∙ v.clean j past;
    }

cleared_past :
    (h : Heap) (offset : ℕ) (span : AllocationSpan)
    → IsHeap h
    → h.allocations offset ≡ some span
    → (j : ℕ) → frontier h ≤ j
    → clear h.memory span.start span.size j ≡ h.memory j
cleared_past h offset span v there j past =
    let s = v.spans offset span there in
    clear_else h.memory span.start span.size j (inr (omega (arith, s.at_start, s.below, past)))

cleared_bytes :
    (h : Heap) (span : AllocationSpan)
    → IsHeap h
    → (j : ℕ) → clear h.memory span.start span.size j < 256
unfolding clear
cleared_bytes h span v j = ground (arith, v.are_bytes j)

pub with_reused-IsHeap :
    (h : Heap) (offset : ℕ) (span : AllocationSpan) (m : SpanMetadata)
    → IsHeap h
    → h.allocations offset ≡ some span
    → IsHeap (with_reused h offset span m)
unfolding with_reused
with_reused-IsHeap h offset span m v there =
    relabelled-IsHeap h offset span _ _ _ v there refl refl (cleared_past h offset span v there)
      (cleared_bytes h span v)

pub with_freed-IsHeap :
    (h : Heap) (offset : ℕ) (span : AllocationSpan)
    → IsHeap h
    → h.allocations offset ≡ some span
    → IsHeap (with_freed h offset span)
unfolding with_freed
with_freed-IsHeap h offset span v there =
    relabelled-IsHeap h offset span _ _ _ v there refl refl (cleared_past h offset span v there)
      (cleared_bytes h span v)

pub with_owner-IsHeap :
    (h : Heap) (offset owner : ℕ) (span : AllocationSpan)
    → IsHeap h
    → h.allocations offset ≡ some span
    → IsHeap (record h { allocations = insert offset (with_owner span owner) h.allocations })
unfolding with_owner
with_owner-IsHeap h offset owner span v there =
    relabelled-IsHeap h offset span _ _ _ v there refl refl (λ j past. refl) v.are_bytes
