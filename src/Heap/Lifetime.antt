-- ===== src/Heap/Lifetime.antt =====
-- internal/runtime/heap/heap.go and span.go: what the rest of the runtime calls on spans.
use vex_lua.Base.{
  ℕ, zero, suc, ◌+◌, ◌^◌, ◌%◌, ◌-◌, Bool, true, false, not, ◌&&◌, ◌||◌, length, get_or, Option,
  none, some, ltb, leb, ◌==◌, if◌then◌else◌, Result, ok, err, ◌>>=◌, ◌>>◌, guard,
}
use vex_lua.Base.Int.{ℤ, pos_part}
use vex_lua.Value.TValue.{object_alignment}
use vex_lua.Value.Header.{CommonHeader, common_header_size, write_common_header}
use vex_lua.Heap.{
  Heap, HeapError, Platform, Allocation, AllocationSpan, SpanMetadata, kind_object, kind_payload,
  state_live, state_free, layout_none, layout_opaque, is_free, is_payload, insert, align_up,
  zero_offset, no_layout, unknown_span, not_payload,
}
use vex_lua.Heap.Memory.{load, store, clear}
use vex_lua.Heap.Pages.{arena_bytes}
use vex_lua.Heap.Controller.{sub_live}
use vex_lua.Heap.Access.{of_header, present}
use vex_lua.Heap.Span.{alloc_span, validate_span_owner}

abbrev pub live_span : SpanMetadata
live_span = record {
  kind = kind_payload;
  state = state_live;
  layout = layout_opaque;
  owner = 0;
  size = 0;
  address = 0;
}

-- `Alloc`
unfoldable pub alloc : Platform → Heap → ℕ → Heap × Result HeapError Allocation
unfolding alloc_span
alloc p h size = alloc_span p h size live_span

unfoldable pub alloc_payload : Platform → Heap → ℕ → ℕ → ℕ → Heap × Result HeapError Allocation
unfolding alloc_span
alloc_payload p h size layout owner =
    if layout == layout_none
    then (h, err no_layout)
    else alloc_span p h size (record live_span { layout = layout; owner = owner })

-- The header that `AllocObject` writes.
unfoldable pub sized_header : Heap → CommonHeader → CommonHeader
unfolding align_up
sized_header h header =
    let grown =
      if ltb header.size_bytes common_header_size then common_header_size else header.size_bytes in
    record header {
      size_bytes = align_up grown object_alignment % 2 ^ 32;
      mark = if header.mark == 0 then h.gc.current_white else header.mark;
    }

abbrev pub headed : Heap → Allocation → CommonHeader → Heap × Result HeapError Allocation
headed h allocation header =
    elim (of_header
      (write_common_header (load h.memory allocation.offset allocation.size) header)) [
        | err e ↦ (h, err e)
        | ok written ↦
            (record h { memory = store h.memory allocation.offset written }, ok allocation)
      ]

unfoldable pub alloc_object : Platform → Heap → CommonHeader → Heap × Result HeapError Allocation
unfolding sized_header alloc_span write_common_header load store
alloc_object p h header =
    let sized = sized_header h header in
    let (h', allocated) =
      alloc_span p h sized.size_bytes
        (record live_span { kind = kind_object; layout = layout_none }) in
    elim allocated [ err e ↦ (h', err e) | ok allocation ↦ headed h' allocation sized ]

unfoldable pub span_metadata : Heap → ℕ → Result HeapError SpanMetadata
span_metadata h offset = do
  guard (not (offset == 0)) zero_offset
  span ← present (h.allocations offset) (unknown_span offset)
  ok span.metadata

unfoldable pub with_owner : AllocationSpan → ℕ → AllocationSpan
with_owner span owner = record span { metadata = record (span.metadata) { owner = owner } }

unfoldable pub set_span_owner : Platform → Heap → ℕ → ℕ → Result HeapError Heap
unfolding validate_span_owner insert with_owner
set_span_owner p h offset owner = do
  guard (not (offset == 0)) zero_offset
  span ← present (h.allocations offset) (unknown_span offset)
  guard (is_payload span.metadata.kind) (not_payload offset)
  validate_span_owner p h owner
  ok (record h { allocations = insert offset (with_owner span owner) h.allocations })

-- The heap once a span is given back and its bytes are cleared.
unfoldable pub with_freed : Heap → ℕ → AllocationSpan → Heap
unfolding insert clear sub_live
with_freed h offset span = record h {
  allocations =
      insert offset
        (record span { metadata = record (span.metadata) { state = state_free; owner = 0 } })
        h.allocations;
  gc = sub_live h.gc span.size;
  memory = clear h.memory span.start span.size;
}

unfoldable pub free_span : Heap → ℕ → Result HeapError Heap
unfolding arena_bytes with_freed
free_span h offset = do
  guard (not (offset == 0)) zero_offset
  span ← present (h.allocations offset) (unknown_span offset)
  (if is_free span.metadata.state then ok h else (do
    bytes ← arena_bytes h.native h.memory span.start span.size
    ok (with_freed h offset span)))

-- The callback of a walk, with what it has done to the heap and to a state of its own.
abbrev pub Visit : Type 0 → Type 0
Visit S = Heap → S → ℕ → SpanMetadata → (Heap × S) × Option HeapError

-- The cursor, whether the walk is done, the states, and the error that stopped it.
pub record Walked (S : Type 0) : Type 0 where
  pub cursor : ℕ
  pub done : Bool
  pub heap : Heap
  pub seen : S
  pub error : Option HeapError

-- `scanned` plus a span's bytes, one for an empty span.
abbrev pub scan : ℕ → SpanMetadata → ℕ
scan scanned m = (scanned + (if m.size == 0 then 1 else m.size)) % 2 ^ 64

-- The loop of `WalkSpansChunk`, with the spans that are left before the limit.
unfoldable pub walk_from : {S : Type 0} → Visit S → ℕ → ℕ → ℕ → ℕ → Heap → S → Walked S
walk_from visit budget zero index scanned h s = record {
  cursor = index;
  done = true;
  heap = h;
  seen = s;
  error = none;
}
walk_from visit budget (suc left) index scanned h s =
    let offset = get_or h.span_order index 0 in
    elim (h.allocations offset) [
      | none ↦ record {
        cursor = index;
        done = false;
        heap = h;
        seen = s;
        error = some (unknown_span offset);
      }
      | some span ↦
          (let ((h', s'), failed) = visit h s offset span.metadata in
            elim failed [
              | some e ↦ record {
                cursor = index;
                done = false;
                heap = h';
                seen = s';
                error = some e;
              }
              | none ↦ elim (not (budget == 0) && leb budget (scan scanned span.metadata)) [
                | true ↦ record {
                  cursor = index + 1;
                  done = left == 0;
                  heap = h';
                  seen = s';
                  error = none;
                }
                | false ↦ walk_from visit budget left (index + 1) (scan scanned span.metadata) h' s'
              ]
            ])
    ]

-- A limit that is not positive, or past the spans, stands for all of them.
abbrev pub walk_limit : Heap → ℤ → ℕ
walk_limit h limit =
    if pos_part limit == 0 || ltb (length h.span_order) (pos_part limit)
    then length h.span_order
    else pos_part limit

unfoldable pub walk_spans_chunk : {S : Type 0} → Visit S → ℤ → ℤ → ℕ → Heap → S → Walked S
unfolding walk_from
walk_spans_chunk visit cursor limit budget h s =
    if leb (walk_limit h limit) (pos_part cursor)
    then record { cursor = walk_limit h limit; done = true; heap = h; seen = s; error = none }
    else walk_from visit budget (walk_limit h limit - pos_part cursor) (pos_part cursor) 0 h s

-- `WalkSpans`
unfoldable pub walk_spans : {S : Type 0} → Visit S → Heap → S → (Heap × S) × Option HeapError
unfolding walk_spans_chunk
walk_spans visit h s =
    let walked = walk_spans_chunk visit (ℤ.pos 0) (ℤ.pos (length h.span_order)) 0 h s in
    ((walked.heap, walked.seen), walked.error)
