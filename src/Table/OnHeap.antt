-- ===== src/Table/OnHeap.antt =====
-- internal/runtime/table on internal/runtime/heap: what the table store calls on its heap.
-- The strings, and the conversion of a number outside an integer's range, stay parameters.
mod Laws
mod Tests
use vex_lua.Base.{
  ℕ, ◌+◌, ◌^◌, ◌≤◌, ◌<◌, ◌≡◌, ◌≢◌, refl, ap, subst, ◌∙◌, sym, List, Bool, true, false, ◌⊎◌, leb,
  if◌then◌else◌, Result, ok, err, ◌>>=◌, ◌>>◌, >>=-eq-ok, arith, Bool-cases, leb→le, inl, inr,
}
use vex_lua.Value.Header.{CommonHeader}
use vex_lua.Heap.{Heap, HeapError, Platform, Allocation, AllocationSpan}
use vex_lua.Heap.Access.{header_at_offset, encode_heap_ref}
use vex_lua.Heap.Lifetime.{alloc_object, alloc_payload, free_span, live_span}
use vex_lua.Heap.Barrier.{write_barrier_value_by_offset, remember_weak_owner_by_offset}
use vex_lua.Heap.Freed.{IsFreed, free_span_lem}
use vex_lua.Heap.Running.{
  Runs, IsObjectMade, alloc_object-IsObjectMade, alloc_payload-Runs, alloc_object-Runs,
  free_span-Runs,
}
use vex_lua.Heap.Running.Barriers.{
  Shades, write_barrier_value_by_offset-Shades, write_barrier_value_by_offset-Runs,
  remember_weak-Runs,
}
use vex_lua.Heap.Fresh.{IsFresh}
use vex_lua.Table.Layout.{kind_table}
use vex_lua.Table.Find.{Error, heap_failed}
use vex_lua.Table.Store.{HeapOps}
use vex_lua.Table.Store.Invariant.{HeapLaws}

-- A heap that has met no error.
abbrev pub Running : Type 0
Running = (h : Heap) × Runs h

-- A step that changes the heap, with the proof that the heap still runs.
unfoldable pub stepped :
    (r : Result HeapError Heap) → ((h : Heap) → r ≡ ok h → Runs h) → Result Error Running
stepped (err e) runs = err heap_failed
stepped (ok h) runs = ok (h, runs h refl)

unfoldable pub allocated :
    (r : Heap × Result HeapError Allocation)
    → ((h : Heap) (a : Allocation) → r ≡ (h, ok a) → Runs h)
    → Result Error (Running × Allocation)
allocated (h, err e) runs = err heap_failed
allocated (h, ok a) runs = ok ((h, runs h a refl), a)

abbrev pub of_heap {ℓ} : {A : Type ℓ} → Result HeapError A → Result Error A
of_heap (err e) = err heap_failed
of_heap (ok a) = ok a

-- The header of a new table.
abbrev pub table_header : ℕ → CommonHeader
table_header size = record {
  kind = kind_table;
  mark = 0;
  flags = 0;
  size_bytes = size;
  version = 1;
  aux = 0;
}

module _ (p : Platform) where
  unfoldable pub object_on : Running → ℕ → Result Error (Running × (ℕ × ℕ))
  unfolding alloc_object allocated encode_heap_ref
  object_on (h, r) size = do
    ((h', r'), a) ←
        allocated (alloc_object p h (table_header size))
          λ h' a eq. alloc_object-Runs p h h' (table_header size) a r eq
    ref ← of_heap (encode_heap_ref p h' a.address)
    ok ((h', r'), (ref, a.offset))

  -- A table asks for less than 2 ^ 62 bytes: its counts of slots are below 2 ^ 32.
  unfoldable pub payload_within :
      Running
      → (size layout owner : ℕ) → (leb size (2 ^ 62) ≡ true) ⊎ (leb size (2 ^ 62) ≡ false)
      → Result Error (Running × ℕ)
  unfolding alloc_payload allocated
  payload_within (h, r) size layout owner (inr large) = err heap_failed
  payload_within (h, r) size layout owner (inl small) = do
    (h', a) ← allocated (alloc_payload p h size layout owner) λ h' a eq.
        (alloc_payload-Runs p h h' size layout owner a r (leb→le size (2 ^ 62) small) eq).0
    ok (h', a.offset)

  abbrev pub payload_on : Running → ℕ → ℕ → ℕ → Result Error (Running × ℕ)
  payload_on h size layout owner =
      payload_within h size layout owner (Bool-cases (leb size (2 ^ 62)))

  unfoldable pub barrier_on : Running → ℕ → ℕ → Result Error Running
  unfolding write_barrier_value_by_offset stepped
  barrier_on (h, r) owner value =
      stepped (write_barrier_value_by_offset p h owner value)
        λ h' eq. write_barrier_value_by_offset-Runs p h h' owner value r eq

  unfoldable pub remember_on : Running → ℕ → Result Error Running
  unfolding remember_weak_owner_by_offset stepped
  remember_on (h, r) owner =
      stepped (remember_weak_owner_by_offset p h owner)
        λ h' eq. remember_weak-Runs p h h' owner r eq

  unfoldable pub mark_on : Running → ℕ → Result Error ℕ
  unfolding header_at_offset
  mark_on (h, r) owner = do header ← of_heap (header_at_offset p h owner); ok header.mark

unfoldable pub free_on : Running → ℕ → Result Error Running
unfolding free_span stepped
free_on (h, r) offset = stepped (free_span h offset) λ h' eq. free_span-Runs h h' offset r eq

-- The strings of the runtime, which the table store reads by their references.
pub record Strings : Type 0 where
  pub hash_of : ℕ → Result Error ℕ
  pub text_of : ℕ → Result Error (List ℕ)
  pub convert : ℕ → ℕ

-- What `table.Store` calls on its `heap.Heap`.
unfoldable pub heap_ops : Platform → Strings → HeapOps Running
unfolding object_on payload_within barrier_on remember_on mark_on free_on
heap_ops p strings = record {
  alloc_object = object_on p;
  alloc_payload = payload_on p;
  write_barrier = barrier_on p;
  remember_weak = remember_on p;
  free_span = free_on;
  header_mark = mark_on p;
  string_hash = strings.hash_of;
  string_text = strings.text_of;
  convert = strings.convert;
}
