-- ===== src/Heap/Tests.antt =====
-- Runs of the heap, and instances of its laws.
mod Marking
use vex_lua.Base.{
  ℕ, ◌+◌, ◌^◌, ◌≤◌, ◌<◌, ◌≡◌, ◌≢◌, refl, sym, ap, true, false, Bool, List, [], ◌∷◌, Among, Option,
  none, some, Result, ok, err, ◌⊎◌, inl, inr, arith, get_or, replicate,
}
use vex_lua.Base.Bits.{and_not}
use vex_lua.Base.Bytes.{read_le, write_le}
use vex_lua.Base.Slots.{write_slots}
use vex_lua.Base.Int.{ℤ, pos}
use vex_lua.Value.TValue.{heap_ref}
use vex_lua.Value.Header.{
  CommonHeader, validate, read_common_header, write_common_header, has, with_bits, without,
  mark_white0, mark_black,
}
use vex_lua.Value.Header.Layout.{IsHeader}
use vex_lua.Value.Address.{encode_heap_ref44, decode_heap_ref44, encode_heap_off64}
use vex_lua.Heap.{
  Heap, HeapError, Platform, Allocation, AllocationSpan, SpanMetadata, GcController, insert,
  align_up, gc_phase_mark, is_free, exhausted, kind_payload, state_free,
}
use vex_lua.Heap.Memory.{load, store, clear}
use vex_lua.Heap.Pages.{
  remaining, current_page, fresh_page, new_page, page_for, use_last, find_page, ensure_committed,
  arena_bytes, new_native_arena, new_heap, empty_heap,
}
use vex_lua.Heap.Controller.{
  new_gc_controller, reset_queues, set_gc_phase, rearm_threshold, gc_target_reached,
  append_unique_ref, flip_current_white, add_live, sub_live,
}
use vex_lua.Heap.Access.{
  resolve, address_for_offset, offset_from, offset_for_address, header_at_offset, write_header,
  validate_object_address, encode_heap_ref, decode_heap_ref, ref_for_offset,
}
use vex_lua.Heap.Span.{
  validate_span_owner, validate_span_metadata, best_free, committed_bytes, with_reused,
  reuse_free_span, with_span, append_span, checked_reuse, alloc_span,
}
use vex_lua.Heap.Lifetime.{
  live_span, alloc, alloc_payload, sized_header, alloc_object, free_span, with_freed, walk_from,
  walk_spans_chunk, Visit, Walked,
}
use vex_lua.Heap.Barrier.{grayed, requeued, shade_parent, barrier, write_barrier_by_offset, marking}
use vex_lua.Heap.Invariant.{IsHeap}
use vex_lua.Heap.Fresh.{IsOutcome}
use vex_lua.Heap.Outcome.{alloc_span-IsOutcome}
use vex_lua.Heap.Best.{IsCandidate}
use vex_lua.Heap.BestFit.{reuse_free_span-best, Taken}
use vex_lua.Heap.Freed.{free_span_lem, IsFreed}
use vex_lua.Heap.Running.{Runs, alloc_span-Runs, alloc_object-Runs, free_span-Runs}
use vex_lua.Heap.Made.{new_heap-Runs}

program : Unit {0}
unfolding and_not read_le write_le write_slots heap_ref validate read_common_header
    write_common_header has with_bits without encode_heap_ref44 decode_heap_ref44 encode_heap_off64
    insert align_up load store clear remaining current_page fresh_page new_page page_for use_last
    find_page ensure_committed arena_bytes new_native_arena new_heap new_gc_controller reset_queues
    set_gc_phase rearm_threshold gc_target_reached append_unique_ref flip_current_white add_live
    sub_live resolve address_for_offset offset_from offset_for_address header_at_offset write_header
    validate_object_address encode_heap_ref decode_heap_ref ref_for_offset validate_span_owner
    validate_span_metadata best_free committed_bytes with_reused reuse_free_span with_span
    append_span checked_reuse alloc_span alloc alloc_payload sized_header alloc_object free_span
    with_freed walk_from walk_spans_chunk grayed requeued shade_parent barrier
    write_barrier_by_offset
program = tt

abbrev pub platform : Platform
platform = record {
  os_page_size = some 4096;
  reserve = λ size. some 0x7f0000000000;
  commits = λ size. true;
  order = λ spans. 16 ∷ 64 ∷ 128 ∷ [];
}

abbrev pub heap_of : Result HeapError Heap → Heap → Heap
heap_of (ok h) d = h
heap_of (err e) d = d

abbrev pub empty : Heap
empty =
    empty_heap 0x100000000000 256
      (record { native_base = 0x7f0000000000; reserved_size = 0x40000000; page_size = 4096 })

made : new_heap platform 0 256 ≡ ok empty
unfolding program
made = refl

pub empty-Runs : Runs empty
empty-Runs = new_heap-Runs platform 0 256 4096 empty refl (omega arith) (omega arith) made

-- 40 and 50 bytes, of which the first are given back.
abbrev one_span : Heap
one_span = (alloc_span platform empty 40 live_span).0

abbrev pub two_spans : Heap
two_spans = (alloc_span platform one_span 50 live_span).0

abbrev one_free : Heap
one_free = heap_of (free_span two_spans 16) two_spans

offsets :
    ((alloc_span platform empty 40 live_span).1
      ≡ ok (record { offset = 16; address = 0x100000000010; size = 48 }))
    × ((alloc_span platform one_span 50 live_span).1
        ≡ ok (record { offset = 64; address = 0x100000000040; size = 64 }))
    × ((alloc_span platform one_free 20 live_span).1
        ≡ ok (record { offset = 16; address = 0x100000000010; size = 48 }))
unfolding program
offsets = (refl, refl, refl)

one_span-Runs : Runs one_span
unfolding program
one_span-Runs =
    (alloc_span-Runs platform empty one_span 40 live_span
      (record { offset = 16; address = 0x100000000010; size = 48 }) empty-Runs (omega arith) refl).0

two_spans-Runs : Runs two_spans
unfolding program
two_spans-Runs =
    (alloc_span-Runs platform one_span two_spans 50 live_span
      (record { offset = 64; address = 0x100000000040; size = 64 }) one_span-Runs (omega arith)
      refl).0

freed : free_span two_spans 16 ≡ ok one_free
unfolding program
freed = refl

one_free-Runs : Runs one_free
one_free-Runs = free_span-Runs two_spans one_free 16 two_spans-Runs freed

new_heap-Runs_example : Runs empty
new_heap-Runs_example =
    new_heap-Runs platform 0 256 4096 empty refl (omega arith) (omega arith) made

alloc_span-IsOutcome_example : IsOutcome one_free 20 (alloc_span platform one_free 20 live_span)
unfolding program
alloc_span-IsOutcome_example =
    alloc_span-IsOutcome platform one_free 20 live_span one_free-Runs.is_heap (omega arith)

free_span_lem_example :
    IsHeap one_free
    × ((span : AllocationSpan) × IsFreed two_spans one_free 16 span)
    × (free_span one_free 16 ≡ ok one_free)
free_span_lem_example = free_span_lem two_spans one_free 16 two_spans-Runs.is_heap freed

abbrev free_entry : AllocationSpan
free_entry = record {
  start = 16;
  size = 48;
  metadata = record {
    kind = kind_payload;
    state = state_free;
    layout = 1;
    owner = 0;
    size = 48;
    address = 0x100000000010;
  };
}

reuse_free_span-best_example :
    (reuse_free_span platform one_free 32 live_span ≢ ok none)
    × ((h' : Heap) (a : Allocation)
        → reuse_free_span platform one_free 32 live_span ≡ ok (some (h', a))
        → Taken one_free 32 48 a)
unfolding program
reuse_free_span-best_example =
    reuse_free_span-best platform one_free 32 live_span 16 free_entry (inl refl)
      (record { here = refl; free = refl; room = omega arith })
