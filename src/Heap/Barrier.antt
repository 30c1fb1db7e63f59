-- ===== src/Heap/Barrier.antt =====
-- internal/runtime/heap/gc_controller.go: the write barrier.
use vex_lua.Base.{ℕ, Bool, not, ◌||◌, bit_or, none, some, ◌==◌, if◌then◌else◌, Result, ok, ◌>>=◌}
use vex_lua.Value.TValue.{heap_ref}
use vex_lua.Value.Header.{
  CommonHeader, has, with_bits, without, mark_gray, mark_black, mark_remembered,
}
use vex_lua.Heap.{Heap, HeapError, Platform, GcController, GcPhase}
use vex_lua.Heap.Controller.{is_mark, is_atomic, is_pause, append_unique_ref}
use vex_lua.Heap.Access.{
  header_at_offset, decode_heap_ref, offset_for_address, write_header, ref_for_offset,
}

abbrev pub marking : GcPhase → Bool
marking phase = is_mark phase || is_atomic phase

-- A black parent is grey again, and remembered.
unfoldable pub grayed : CommonHeader → CommonHeader
unfolding with_bits without
grayed header = record header {
  mark = without (with_bits header.mark (bit_or mark_gray mark_remembered)) mark_black;
}

unfoldable pub requeued : GcController → ℕ → GcController
unfolding append_unique_ref
requeued gc ref = record gc {
  gray_again = append_unique_ref gc.gray_again ref;
  remembered = append_unique_ref gc.remembered ref;
}

-- `writeBarrier` once the parent is known to be black.
unfoldable pub shade_parent : Platform → Heap → ℕ → CommonHeader → ℕ → ℕ → Result HeapError Heap
unfolding decode_heap_ref offset_for_address header_at_offset has grayed write_header requeued
shade_parent p h parent header parent_ref child_ref = do
  child_address ← decode_heap_ref p h child_ref
  child ← offset_for_address p h child_address
  child_header ← header_at_offset p h child
  (if not (has child_header.mark h.gc.current_white) then ok h else (do
    h' ← write_header p h parent (grayed header)
    ok (record h' { gc = requeued h'.gc parent_ref })))

unfoldable pub barrier : Platform → Heap → ℕ → ℕ → ℕ → Result HeapError Heap
unfolding header_at_offset has shade_parent
barrier p h parent parent_ref child_ref = if not (marking h.gc.phase) then ok h else (do
  header ← header_at_offset p h parent
  (if not (has header.mark mark_black)
      then ok h
      else shade_parent p h parent header parent_ref child_ref))

unfoldable pub write_barrier : Platform → Heap → ℕ → ℕ → Result HeapError Heap
unfolding decode_heap_ref offset_for_address barrier
write_barrier p h parent_ref child_ref = if parent_ref == 0 || child_ref == 0 then ok h else (do
  parent_address ← decode_heap_ref p h parent_ref
  parent ← offset_for_address p h parent_address
  barrier p h parent parent_ref child_ref)

unfoldable pub write_barrier_by_offset : Platform → Heap → ℕ → ℕ → Result HeapError Heap
unfolding ref_for_offset barrier
write_barrier_by_offset p h parent child_ref =
    if parent == 0 || child_ref == 0
    then ok h
    else (do parent_ref ← ref_for_offset p h parent; barrier p h parent parent_ref child_ref)

unfoldable pub write_barrier_value_by_offset : Platform → Heap → ℕ → ℕ → Result HeapError Heap
unfolding heap_ref write_barrier_by_offset
write_barrier_value_by_offset p h parent slot_value = elim (heap_ref slot_value) [
  | none ↦ ok h
  | some child_ref ↦ if child_ref == 0 then ok h else write_barrier_by_offset p h parent child_ref
]

unfoldable pub remember_weak_owner_by_offset : Platform → Heap → ℕ → Result HeapError Heap
unfolding ref_for_offset append_unique_ref
remember_weak_owner_by_offset p h offset = if offset == 0 || is_pause h.gc.phase then ok h else (do
  ref ← ref_for_offset p h offset
  ok (record h { gc = record (h.gc) { weak = append_unique_ref h.gc.weak ref } }))
