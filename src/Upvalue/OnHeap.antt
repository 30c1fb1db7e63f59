-- ===== src/Upvalue/OnHeap.antt =====
-- internal/runtime/upvalue/manager.go on internal/runtime/heap: upvalue objects in the heap.
-- After an error of the heap the manager's callers go on with no heap, as with no thread.
pub mod Resolves
pub mod Found
pub mod Kept
pub mod Written
pub mod Barred
pub mod Made
pub mod Fresh
pub mod Steps
pub mod Laws
use vex_lua.Base.{
  ℕ, ◌+◌, ◌≤◌, ◌<◌, ◌≡◌, Bool, true, List, length, some, Result, ok, err, ◌>>=◌, ◌>>◌, guard,
  Result-cases,
}
use vex_lua.Base.Bytes.{read_le}
use vex_lua.Value.Header.{CommonHeader}
use vex_lua.Heap.{Heap, HeapError, Platform, Allocation, AllocationSpan, is_live, is_object}
use vex_lua.Heap.Memory.{load, store}
use vex_lua.Heap.Access.{decode_heap_ref, encode_heap_ref, offset_for_address, resolve}
use vex_lua.Heap.Lifetime.{alloc_object}
use vex_lua.Heap.Barrier.{write_barrier_value_by_offset}
use vex_lua.Table.Layout.{LayoutError}
use vex_lua.Upvalue.Object.{Node, UpvalueError, object_failed}
use vex_lua.Upvalue.Layout.{
  upvalue_size, kind_upvalue, upvalue_header, read_upvalue, write_upvalue, fits_words,
}

abbrev pub of_heap {ℓ} : {A : Type ℓ} → Result HeapError A → Result UpvalueError A
of_heap (ok a) = ok a
of_heap (err e) = err object_failed

abbrev pub of_layout {ℓ} : {A : Type ℓ} → Result LayoutError A → Result UpvalueError A
of_layout (ok a) = ok a
of_layout (err e) = err object_failed

-- The heap with other bytes at an offset.
abbrev pub with_bytes : Heap → ℕ → List ℕ → Heap
with_bytes h offset bytes = record h { memory = store h.memory offset bytes }

module _ (p : Platform) where
  unfoldable pub object_bytes : Heap → ℕ → Result HeapError (ℕ × List ℕ)
  unfolding decode_heap_ref offset_for_address resolve
  object_bytes h ref = do
    address ← decode_heap_ref p h ref
    offset ← offset_for_address p h address
    bytes ← resolve p h offset upvalue_size
    ok (offset, bytes)

  -- `Manager.Object`
  unfoldable pub object_at : Heap → ℕ → Result UpvalueError (CommonHeader × Node)
  unfolding object_bytes read_upvalue
  object_at h ref = do
    (offset, bytes) ← of_heap (object_bytes h ref)
    of_layout (read_upvalue bytes)

  -- `Manager.writeObject`, with the common header apart.
  unfoldable pub write_at : Heap → ℕ → CommonHeader → Node → Result UpvalueError Heap
  unfolding object_bytes write_upvalue
  write_at h ref common node = do
    (offset, bytes) ← of_heap (object_bytes h ref)
    written ← of_layout (write_upvalue bytes common node)
    ok (with_bytes h offset written)

  -- `Manager.allocObject` once the heap has given the object.
  unfoldable pub made_at : Heap → Allocation → CommonHeader → Node → Result UpvalueError (Heap × ℕ)
  unfolding write_upvalue encode_heap_ref load
  made_at h allocation common node = do
    written ←
        of_layout (write_upvalue (load h.memory allocation.offset allocation.size) common node)
    ref ← of_heap (encode_heap_ref p (with_bytes h allocation.offset written) allocation.address)
    ok (with_bytes h allocation.offset written, ref)

  unfoldable pub alloc_at : Heap → CommonHeader → Node → Result UpvalueError (Heap × ℕ)
  unfolding alloc_object made_at
  alloc_at h common node =
      let (h', allocated) = alloc_object p h common in
      elim allocated [
        | err e ↦ err object_failed
        | ok allocation ↦ made_at h' allocation common node
      ]

  -- The manager reads an object and writes it back with other fields.
  unfoldable pub rewrite_at : Heap → ℕ → Node → Result UpvalueError Heap
  unfolding object_at write_at
  rewrite_at h ref node = do
    guard (fits_words node) object_failed
    (common, old) ← object_at h ref
    write_at h ref common node

  unfoldable pub make_at : Heap → Node → Result UpvalueError (Heap × ℕ)
  unfolding alloc_at
  make_at h node = do guard (fits_words node) object_failed; alloc_at h upvalue_header node

  -- The barrier at the offset that `writeObject` returns.
  unfoldable pub barrier_at : Heap → ℕ → ℕ → Result UpvalueError Heap
  unfolding object_bytes write_barrier_value_by_offset
  barrier_at h ref value = do
    (offset, bytes) ← of_heap (object_bytes h ref)
    of_heap (write_barrier_value_by_offset p h offset value)

-- The kind that the bytes at an offset hold.
abbrev pub kind_at : (ℕ → ℕ) → ℕ → ℕ
kind_at memory offset = read_le 2 (load memory offset 16) 0

-- The spans of upvalue objects have room for one.
abbrev pub HasRoom : Heap → Type 0
HasRoom h =
    (offset : ℕ) (span : AllocationSpan)
    → h.allocations offset ≡ some span
    → is_live span.metadata.state ≡ true
    → is_object span.metadata.kind ≡ true
    → kind_at h.memory offset ≡ kind_upvalue
    → 64 ≤ span.size
