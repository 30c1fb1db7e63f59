-- ===== src/Heap/Span.antt =====
-- internal/runtime/heap/heap.go and span.go: spans are allocated, reused, freed and walked.
-- A failed allocation leaves what it has changed: `allocSpan` returns the heap beside its result.
use vex_lua.Base.{
  ℕ, ◌+◌, ◌^◌, ◌%◌, Bool, true, false, not, ◌&&◌, List, [], ◌∷◌, ◌++◌, Option, none, some, ltb, leb,
  ◌==◌, if◌then◌else◌, Result, ok, err, ◌>>=◌, ◌>>◌, guard,
}
use vex_lua.Value.TValue.{object_alignment}
use vex_lua.Heap.{
  Heap, HeapError, Platform, Page, Allocation, AllocationSpan, SpanMetadata, SpanState,
  kind_invalid, kind_object, kind_payload, state_invalid, state_live, layout_none, is_free,
  is_object, insert, align_up, zero_size, no_layout, bad_kind, state_unset, unknown_owner,
  owner_not_object,
}
use vex_lua.Heap.Memory.{clear}
use vex_lua.Heap.Pages.{page_for, use_last, ensure_committed, arena_bytes}
use vex_lua.Heap.Controller.{add_live}
use vex_lua.Heap.Access.{present, header_at_offset}

unfoldable pub validate_span_owner : Platform → Heap → ℕ → Result HeapError (Unit {0})
unfolding header_at_offset
validate_span_owner p h owner = if owner == 0 then ok tt else (do
  span ← present (h.allocations owner) (unknown_owner owner)
  guard (is_object span.metadata.kind) (owner_not_object owner)
  header ← header_at_offset p h owner
  ok tt)

abbrev state_set : SpanState → Bool
state_set state_invalid = false
state_set other = true

-- The owner that `validateSpanMetadata` asks about, where the kind and the layout agree.
abbrev pub checked_owner : SpanMetadata → Result HeapError ℕ
checked_owner m = elim m.kind [
  | kind_object ↦ ok 0
  | kind_payload ↦ if m.layout == layout_none then err no_layout else ok m.owner
  | kind_invalid ↦ err bad_kind
]

unfoldable pub validate_span_metadata : Platform → Heap → SpanMetadata → Result HeapError (Unit {0})
unfolding validate_span_owner
validate_span_metadata p h m = do
  owner ← checked_owner m
  guard (state_set m.state) state_unset
  validate_span_owner p h owner

abbrev pub fits : AllocationSpan → ℕ → Bool
fits span size = is_free span.metadata.state && leb size span.size

-- The best of the free spans that a walk of the map has met so far, and the one it meets.
abbrev pub better :
    Option AllocationSpan → ℕ → Option (ℕ × AllocationSpan) → ℕ → Option (ℕ × AllocationSpan)
better none offset best size = best
better (some span) offset none size = if fits span size then some (offset, span) else none
better (some span) offset (some (o, b)) size =
    if fits span size && ltb span.size b.size then some (offset, span) else some (o, b)

unfoldable pub best_free :
    (ℕ → Option AllocationSpan)
    → List ℕ
    → ℕ
    → Option (ℕ × AllocationSpan)
    → Option (ℕ × AllocationSpan)
best_free allocations [] size best = best
best_free allocations (offset ∷ order) size best =
    best_free allocations order size (better (allocations offset) offset best size)

abbrev pub live_metadata : Heap → SpanMetadata → ℕ → ℕ → SpanMetadata
live_metadata h m start size = record m { size = size; address = (h.base + start) % 2 ^ 64 }

-- The heap once a free span is taken again.
unfoldable pub with_reused : Heap → ℕ → AllocationSpan → SpanMetadata → Heap
unfolding insert clear add_live
with_reused h offset span m = record h {
  allocations =
      insert offset
        (record span {
          metadata = record (live_metadata h m span.start span.size) { state = state_live };
        })
        h.allocations;
  memory = clear h.memory span.start span.size;
  gc = add_live h.gc span.size;
}

abbrev pub reused_at : Heap → ℕ → AllocationSpan → Allocation
reused_at h offset span = record {
  offset = offset;
  address = (h.base + span.start) % 2 ^ 64;
  size = span.size;
}

-- The bytes of a range, once the arena has committed up to its end.
unfoldable pub committed_bytes : Platform → Heap → ℕ → ℕ → Result HeapError (List ℕ)
unfolding ensure_committed arena_bytes
committed_bytes p h offset size = do
  ensure_committed p h.native ((offset + size) % 2 ^ 64)
  arena_bytes h.native h.memory offset size

unfoldable pub reuse_free_span :
    Platform → Heap → ℕ → SpanMetadata → Result HeapError (Option (Heap × Allocation))
unfolding best_free committed_bytes with_reused
reuse_free_span p h size m = elim (best_free h.allocations (p.order h.allocations) size none) [
  | none ↦ ok none
  | some (offset, span) ↦ (do
    bytes ← committed_bytes p h span.start span.size
    ok (some (with_reused h offset span m, reused_at h offset span)))
]

-- The heap once a new span stands at the end of its last page.
unfoldable pub with_span : Heap → ℕ → ℕ → SpanMetadata → Heap
unfolding use_last insert add_live
with_span h offset size m = record h {
  pages = use_last h.pages size;
  allocations =
      insert offset
        (record { start = offset; size = size; metadata = live_metadata h m offset size })
        h.allocations;
  span_order = h.span_order ++ offset ∷ [];
  gc = add_live h.gc size;
}

abbrev pub placed_at : Heap → ℕ → ℕ → Allocation
placed_at h offset size = record {
  offset = offset;
  address = (h.base + offset) % 2 ^ 64;
  size = size;
}

-- `allocSpan` from the choice of the page on.
unfoldable pub append_span :
    Platform → Heap → Page → ℕ → SpanMetadata → Heap × Result HeapError Allocation
unfolding committed_bytes with_span
append_span p h page size m =
    let offset = (page.start + page.used) % 2 ^ 64 in
    elim (committed_bytes p h offset size) [
      | err e ↦ (h, err e)
      | ok bytes ↦ (with_span h offset size m, ok (placed_at h offset size))
    ]

-- `allocSpan` up to the choice of the page.
unfoldable pub checked_reuse :
    Platform → Heap → ℕ → SpanMetadata → Result HeapError (Option (Heap × Allocation))
unfolding validate_span_metadata reuse_free_span align_up
checked_reuse p h size m = do
  guard (not (size == 0)) zero_size
  validate_span_metadata p h m
  reuse_free_span p h (align_up size object_alignment) m

unfoldable pub alloc_span : Platform → Heap → ℕ → SpanMetadata → Heap × Result HeapError Allocation
unfolding checked_reuse page_for append_span align_up
alloc_span p h size m = elim (checked_reuse p h size m) [
  | err e ↦ (h, err e)
  | ok (some (h', allocation)) ↦ (h', ok allocation)
  | ok none ↦
      (let aligned = align_up size object_alignment in
        let (h', page) = page_for h aligned in append_span p h' page aligned m)
]
