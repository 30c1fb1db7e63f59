-- ===== src/Table/OnHeap/Laws.antt =====
-- internal/runtime/table on internal/runtime/heap: what the heap's operations do for the table store.
use vex_lua.Base.{ℕ, ◌≡◌, ok}
use vex_lua.Heap.{Heap, Platform, Allocation, AllocationSpan}
use vex_lua.Heap.Access.{encode_heap_ref}
use vex_lua.Heap.Lifetime.{alloc_object, alloc_payload, free_span}
use vex_lua.Heap.Barrier.{write_barrier_value_by_offset, remember_weak_owner_by_offset}
use vex_lua.Heap.Freed.{IsFreed}
use vex_lua.Heap.Running.{IsObjectMade}
use vex_lua.Heap.Running.Barriers.{Shades}
use vex_lua.Heap.Fresh.{IsFresh}
use vex_lua.Table.Store.{HeapOps}
use vex_lua.Table.OnHeap.{Running, table_header}

-- What the operations that the store calls do to the heap, where they succeed.
pub record Operates (p : Platform) (ops : HeapOps Running) : Type 0 where
  pub payload :
      (h h' : Running) (size layout owner offset : ℕ)
      → ops.alloc_payload h size layout owner ≡ ok (h', offset)
      → (a : Allocation) × IsFresh (h.0) (h'.0) size a × (a.offset ≡ offset)
  pub object :
      (h h' : Running) (size ref offset : ℕ)
      → ops.alloc_object h size ≡ ok (h', (ref, offset))
      → (a : Allocation) × IsObjectMade (h.0) (h'.0) (table_header size) a
        × (encode_heap_ref p (h'.0) a.address ≡ ok ref)
        × (a.offset ≡ offset)
  pub freed :
      (h h' : Running) (offset : ℕ)
      → ops.free_span h offset ≡ ok h'
      → (span : AllocationSpan) × IsFreed (h.0) (h'.0) offset span
  pub shaded :
      (h h' : Running) (owner value : ℕ)
      → ops.write_barrier h owner value ≡ ok h'
      → (write_barrier_value_by_offset p (h.0) owner value ≡ ok (h'.0))
        × Shades p (h.0) (h'.0) owner
  pub remembered :
      (h h' : Running) (owner : ℕ)
      → ops.remember_weak h owner ≡ ok h'
      → remember_weak_owner_by_offset p (h.0) owner ≡ ok (h'.0)
