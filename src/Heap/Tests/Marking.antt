-- ===== src/Heap/Tests/Marking.antt =====
-- Runs of the barrier, the walk and the trigger, and instances of their laws.
use vex_lua.Base.{
  ℕ, ◌+◌, ◌-◌, ◌^◌, ◌≤◌, ◌<◌, ◌≡◌, refl, true, false, Among, none, ok, err, ◌⊎◌, arith,
}
use vex_lua.Base.Bits.{and_not}
use vex_lua.Base.Bytes.{read_le, write_le}
use vex_lua.Base.Slots.{write_slots}
use vex_lua.Base.Int.{pos}
use vex_lua.Value.TValue.{heap_ref}
use vex_lua.Value.Header.{
  CommonHeader, validate, read_common_header, write_common_header, has, with_bits, without,
  mark_white0, mark_black,
}
use vex_lua.Value.Header.Layout.{IsHeader}
use vex_lua.Value.Address.{encode_heap_ref44, decode_heap_ref44, encode_heap_off64}
use vex_lua.Heap.{Heap, GcController, insert, align_up, gc_phase_mark, exhausted}
use vex_lua.Heap.Memory.{load, store, clear}
use vex_lua.Heap.Pages.{
  remaining, current_page, fresh_page, new_page, page_for, use_last, find_page, ensure_committed,
  arena_bytes, new_native_arena, new_heap,
}
use vex_lua.Heap.Controller.{
  new_gc_controller, reset_queues, set_gc_phase, rearm_threshold, gc_target_reached,
  append_unique_ref, flip_current_white, add_live, sub_live,
}
use vex_lua.Heap.Access.{
  resolve, address_for_offset, offset_from, offset_for_address, header_at_offset, write_header,
  validate_object_address, encode_heap_ref, decode_heap_ref, ref_for_offset,
}
use vex_lua.Heap.Span.{
  validate_span_owner, validate_span_metadata, best_free, committed_bytes, with_reused,
  reuse_free_span, with_span, append_span, checked_reuse, alloc_span,
}
use vex_lua.Heap.Lifetime.{
  live_span, alloc, alloc_payload, sized_header, alloc_object, free_span, with_freed, walk_from,
  walk_spans_chunk, Visit, Walked,
}
use vex_lua.Heap.Barrier.{grayed, requeued, shade_parent, barrier, write_barrier_by_offset}
use vex_lua.Heap.Invariant.{IsHeap}
use vex_lua.Heap.Running.{Runs, alloc_object-Runs}
use vex_lua.Heap.Lifetime.{walk_limit}
use vex_lua.Heap.Headers.{write_header_lem, with_memory}
use vex_lua.Heap.Queues.{rearm_threshold_lem}
use vex_lua.Heap.TriColour.{with_gc, with_gc-IsHeap, IsGray, barrier_lem}
use vex_lua.Heap.Walk.{HasEnded, walk_spans_chunk_lem}
use vex_lua.Heap.Exhausted.{alloc_span-exhausted}
use vex_lua.Heap.Tests.{platform, empty, empty-Runs, heap_of, two_spans}

program : Unit {0}
unfolding and_not read_le write_le write_slots heap_ref validate read_common_header
    write_common_header has with_bits without encode_heap_ref44 decode_heap_ref44 encode_heap_off64
    insert align_up load store clear remaining current_page fresh_page new_page page_for use_last
    find_page ensure_committed arena_bytes new_native_arena new_heap new_gc_controller reset_queues
    set_gc_phase rearm_threshold gc_target_reached append_unique_ref flip_current_white add_live
    sub_live resolve address_for_offset offset_from offset_for_address header_at_offset write_header
    validate_object_address encode_heap_ref decode_heap_ref ref_for_offset validate_span_owner
    validate_span_metadata best_free committed_bytes with_reused reuse_free_span with_span
    append_span checked_reuse alloc_span alloc alloc_payload sized_header alloc_object free_span
    with_freed walk_from walk_spans_chunk grayed requeued shade_parent barrier
    write_barrier_by_offset
program = tt

-- Two objects of the kind 2, of which the first is made black while the collector marks.
abbrev object_header : CommonHeader
object_header = record { kind = 2; mark = 0; flags = 0; size_bytes = 32; version = 1; aux = 0 }

abbrev one_object : Heap
one_object = (alloc_object platform empty object_header).0

abbrev two_objects : Heap
two_objects = (alloc_object platform one_object object_header).0

abbrev black_header : CommonHeader
black_header = record object_header { mark = mark_black }

abbrev blackened : Heap
blackened = heap_of (write_header platform two_objects 16 black_header) two_objects

abbrev marking_heap : Heap
marking_heap = with_gc blackened (set_gc_phase blackened.gc gc_phase_mark)

one_object-Runs : Runs one_object
unfolding program
one_object-Runs =
    alloc_object-Runs platform empty one_object object_header
      (record { offset = 16; address = 0x100000000010; size = 32 }) empty-Runs refl

two_objects-Runs : Runs two_objects
unfolding program
two_objects-Runs =
    alloc_object-Runs platform one_object two_objects object_header
      (record { offset = 48; address = 0x100000000030; size = 32 }) one_object-Runs refl

written : write_header platform two_objects 16 black_header ≡ ok blackened
unfolding program
written = refl

black_fits : IsHeader black_header
black_fits = record {
  kind_fits = omega arith;
  mark_fits = omega arith;
  flags_fits = omega arith;
  size_fits = omega arith;
  version_fits = omega arith;
  aux_fits = omega arith;
}

write_header_lem_example :
    IsHeap blackened
    × (header_at_offset platform blackened 16 ≡ ok black_header)
    × (blackened ≡ with_memory two_objects blackened.memory)
    × ((at : ℕ) (other : CommonHeader)
        → (at + 16 ≤ 16) ⊎ (16 + 16 ≤ at)
        → header_at_offset platform two_objects at ≡ ok other
        → header_at_offset platform blackened at ≡ ok other)
unfolding program
write_header_lem_example =
    write_header_lem platform two_objects blackened 16 black_header two_objects-Runs.is_heap
      (omega arith) black_fits written

abbrev shaded : Heap
shaded = heap_of (barrier platform marking_heap 16 1 3) marking_heap

barrier_lem_example :
    IsHeap shaded
    × ((after : CommonHeader)
        → header_at_offset platform shaded 16 ≡ ok after
        → (has after.mark mark_black ≡ false)
          ⊎ (has mark_white0 marking_heap.gc.current_white ≡ false))
    × ((shaded ≡ marking_heap)
        ⊎ (((after : CommonHeader) × (header_at_offset platform shaded 16 ≡ ok after)
              × IsGray after)
            × Among shaded.gc.gray_again 1
            × Among shaded.gc.remembered 1))
unfolding program
barrier_lem_example =
    barrier_lem platform marking_heap shaded 16 1 3
      (with_gc-IsHeap blackened (set_gc_phase blackened.gc gc_phase_mark)
        write_header_lem_example.0)
      (omega arith) refl refl 0x100000000030 48 (record object_header { mark = mark_white0 }) refl
      refl refl

-- A walk with a budget of 48 bytes stops after the first of two spans.
abbrev counting : Visit ℕ
counting h seen offset m = ((h, seen + 1), none)

abbrev chunk : Walked ℕ
chunk = walk_spans_chunk counting (pos 0) (pos 2) 48 two_spans 0

-- The second chunk ends the walk.
last_chunk :
    (chunk.done ≡ false)
    × (chunk.seen ≡ 1)
    × ((walk_spans_chunk counting (pos chunk.cursor) (pos 2) 48 chunk.heap chunk.seen).done ≡ true)
unfolding program
last_chunk = (refl, refl, refl)

walk_spans_chunk_lem_example :
    (chunk.done ≡ false
      → chunk.error ≡ none
      → (0 < chunk.cursor)
        × (chunk.cursor < walk_limit two_spans (pos 2))
        × (walk_spans_chunk counting (pos 0) (pos 2) 0 two_spans 0
            ≡ walk_spans_chunk counting (pos chunk.cursor) (pos 2) 0 chunk.heap chunk.seen))
    × (HasEnded chunk → walk_spans_chunk counting (pos 0) (pos 2) 0 two_spans 0 ≡ chunk)
unfolding program
walk_spans_chunk_lem_example =
    walk_spans_chunk_lem counting 0 48 (pos 2) two_spans 0 (λ h s offset m. refl)

abbrev rearmed : GcController
rearmed = rearm_threshold two_spans.gc

rearm_threshold_lem_example :
    (gc_target_reached (record rearmed { live_bytes = 1136 }) ≡ true
      → (0 < two_spans.gc.threshold)
        × ((two_spans.gc.live_bytes + two_spans.gc.threshold ≤ 1136) ⊎ (1136 ≡ 2 ^ 64 - 1)))
    × (0 < two_spans.gc.threshold
        → two_spans.gc.live_bytes + two_spans.gc.threshold ≤ 1136
        → gc_target_reached (record rearmed { live_bytes = 1136 }) ≡ true)
    × (0 < two_spans.gc.threshold → two_spans.gc.live_bytes ≤ rearmed.next_trigger)
    × (two_spans.gc.threshold ≡ 0 → rearmed.next_trigger ≡ 0)
unfolding program
rearm_threshold_lem_example =
    rearm_threshold_lem two_spans.gc (omega arith) (omega arith) 1136 (omega arith)

-- Two allocations past the reservation, with a small one between them: the second one's page starts
-- where the arena has ended.
abbrev refused : Heap
refused = (alloc_span platform empty (2 ^ 31) live_span).0

abbrev refused_again : Heap
refused_again =
    (alloc_span platform (alloc_span platform refused 16 live_span).0 (2 ^ 31) live_span).0

alloc_span-exhausted_example :
    alloc_span platform refused_again 16 live_span
    ≡ (refused_again, err (exhausted (2 ^ 31 + 16 + align_up 16 16)))
unfolding program
alloc_span-exhausted_example =
    alloc_span-exhausted platform refused_again
      (record { start = 2 ^ 31 + 16; size = 2 ^ 31; used = 0 }) 16 live_span
      (record { is_last = refl; beyond = omega arith; fits = omega arith; word = omega arith })
      (omega arith) (omega arith) refl
