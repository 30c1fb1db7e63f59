-- ===== src/Upvalue/OnHeap/Laws.antt =====
-- The heap offers what the upvalue manager asks of it.
mod Tests
use vex_lua.Base.{
  ℕ, ◌+◌, ◌*◌, ◌≤◌, ◌≡◌, ◌≢◌, refl, ap, subst, ◌∙◌, sym, ◌⊎◌, inl, inr, Bool, true, false, List,
  Result, ok, err, Result-cases, >>=-eq-ok, guard, ◌>>=◌, ◌>>◌, arith, ok_injective,
}
use vex_lua.Value.Header.{CommonHeader}
use vex_lua.Heap.{Heap, HeapError, Platform, Allocation, AllocationSpan}
use vex_lua.Heap.Access.{encode_heap_ref}
use vex_lua.Heap.Barrier.{grayed, write_barrier_value_by_offset}
use vex_lua.Heap.Lifetime.{alloc_object}
use vex_lua.Heap.Running.{Runs}
use vex_lua.Heap.Running.Barriers.{write_barrier_value_by_offset-Shades}
use vex_lua.Table.Layout.{LayoutError}
use vex_lua.Upvalue.Object.{Node, UpvalueError, object_failed, out_of_steps}
use vex_lua.Upvalue.Layout.{read_upvalue, write_upvalue, upvalue_header, fits_words}
use vex_lua.Upvalue.Manager.{ObjectOps}
use vex_lua.Upvalue.Opened.{ObjectLaws}
use vex_lua.Upvalue.Closing.{bind_ends}
use vex_lua.Upvalue.OnHeap.{
  of_heap, of_layout, with_bytes, object_bytes, object_at, write_at, rewrite_at, made_at, alloc_at,
  make_at, barrier_at, HasRoom,
}
use vex_lua.Upvalue.OnHeap.Resolves.{Commits}
use vex_lua.Upvalue.OnHeap.Found.{IsPlace, place_offset, object_bytes-IsPlace}
use vex_lua.Upvalue.OnHeap.Kept.{IsUpvalue, object_at-IsUpvalue, object_at-there, of_heap-ok}
use vex_lua.Upvalue.OnHeap.Written.{
  rewrite_at-IsRewritten, rewritten-Runs, rewritten-HasRoom, rewritten_self, rewritten-other,
}
use vex_lua.Upvalue.OnHeap.Barred.{IsMarked, grayed-IsMarked, marked-HasRoom, marked-IsUpvalue}
use vex_lua.Upvalue.OnHeap.Made.{IsMade, make_at-IsMade}
use vex_lua.Upvalue.OnHeap.Fresh.{made_at-Runs, made-HasRoom, made-other, made_self}
use vex_lua.Upvalue.OnHeap.Steps.{
  UpvalueHeap, stepped, stepped-ok, stepped_ref-ok, barrier_at-IsBarred, barred-IsUpvalue,
  heap_objects,
}

of_heap_ends : {A : Type 0} (m : Result HeapError A) → of_heap m ≢ err out_of_steps
of_heap_ends (ok a) eq = cc
of_heap_ends (err e) eq = cc

of_layout_ends : {A : Type 0} (m : Result LayoutError A) → of_layout m ≢ err out_of_steps
of_layout_ends (ok a) eq = cc
of_layout_ends (err e) eq = cc

stepped_ends :
    (m : Result UpvalueError Heap) (keeps : (h : Heap) → m ≡ ok h → Runs h × HasRoom h)
    → m ≢ err out_of_steps
    → stepped m keeps ≢ err out_of_steps
unfolding stepped
stepped_ends (ok h) keeps ends = λ eq. cc
stepped_ends (err e) keeps ends = λ eq. ends (same_error eq)
  where
    same_error :
        {e : UpvalueError}
        → ◌≡◌ {A = Result UpvalueError UpvalueHeap} (err e) (err out_of_steps)
        → ◌≡◌ {A = Result UpvalueError Heap} (err e) (err out_of_steps)
    same_error eq = cc

guard_ends : (b : Bool) → guard b object_failed ≢ err out_of_steps
guard_ends true eq = cc
guard_ends false eq = cc

module _ (p : Platform) where
  object_at_ends : (h : Heap) (ref : ℕ) → object_at p h ref ≢ err out_of_steps
  unfolding object_at
  object_at_ends h ref =
      bind_ends (of_heap (object_bytes p h ref)) _ (of_heap_ends _)
        (λ (offset, bytes). of_layout_ends (read_upvalue bytes))

  rewrite_at_ends : (h : Heap) (ref : ℕ) (node : Node) → rewrite_at p h ref node ≢ err out_of_steps
  unfolding rewrite_at write_at
  rewrite_at_ends h ref node =
      bind_ends (guard (fits_words node) object_failed) _ (guard_ends (fits_words node)) (λ u.
        bind_ends (object_at p h ref) _ (object_at_ends h ref) (λ (common, old).
          bind_ends (of_heap (object_bytes p h ref)) _ (of_heap_ends _) (λ (offset, bytes).
            bind_ends (of_layout (write_upvalue bytes common node)) _ (of_layout_ends _)
              (λ written eq. cc))))

  barrier_at_ends : (h : Heap) (ref value : ℕ) → barrier_at p h ref value ≢ err out_of_steps
  unfolding barrier_at
  barrier_at_ends h ref value =
      bind_ends (of_heap (object_bytes p h ref)) _ (of_heap_ends _)
        (λ (offset, bytes). of_heap_ends (write_barrier_value_by_offset p h offset value))

  object-IsUpvalue :
      (h : UpvalueHeap) (ref : ℕ) (node : Node)
      → (heap_objects p).object h ref ≡ ok node
      → (offset : ℕ) × ((span : AllocationSpan) × ((header : CommonHeader) × IsUpvalue
              (h.0)
              ref
              offset
              span
              header
              node))
  unfolding heap_objects
  object-IsUpvalue (h, r, room) ref node eq =
      let ((header, n), read, last) = >>=-eq-ok (object_at p h ref) _ eq in
      let same : n ≡ node = ok_injective last in
      let (offset, (span, v)) =
        object_at-IsUpvalue p h ref header node r (read ∙ ap (λ x. ok (header, x)) same) in
      (offset, (span, (header, v)))

  object-there :
      (h : UpvalueHeap) (ref offset : ℕ) (span : AllocationSpan) (header : CommonHeader)
      (node : Node)
      → Commits p
      → IsUpvalue (h.0) ref offset span header node
      → (heap_objects p).object h ref ≡ ok node
  unfolding heap_objects
  object-there (h, r, room) ref offset span header node commits v =
      ap (λ m. m >>= λ (common, n). ok n)
        (object_at-there p h ref offset span header node commits r room v)

  made_law :
      (h h' : UpvalueHeap) (ref : ℕ) (node : Node)
      → Commits p
      → (heap_objects p).alloc_object h node ≡ ok (h', ref)
      → (ref ≢ 0)
        × ((heap_objects p).object h' ref ≡ ok node)
        × ((q : ℕ) (n : Node)
            → (heap_objects p).object h q ≡ ok n
            → (q ≢ ref) × ((heap_objects p).object h' q ≡ ok n))
  unfolding heap_objects
  made_law (h, r, room) h' ref node commits eq =
      let (m, encoded) =
        make_at-IsMade p h (h'.0) ref node r (stepped_ref-ok (make_at p h node) _ h' ref eq) in
      let (span, (header, v)) = made_self h (h'.0) ref node r room m p encoded in
      (
        (λ nil. omega (arith, nil, place_offset v.place, v.place.some_offset)),
        object-there h' ref m.allocation.offset span header node commits v,
        (λ q n at.
            let (o, (s, (hd, w))) = object-IsUpvalue (h, r, room) q n at in
            let (away, w') = made-other h (h'.0) ref node r room m q o s hd n w in
            (
              (λ same. away (omega (arith, place_offset w.place, place_offset v.place, same))),
              object-there h' q o s hd n commits w',
            )),
      )

  -- On a platform that commits what it has reserved, the heap keeps the laws of upvalue objects that
  -- the theorems on open lists ask for: an object that is written is read back and every other
  -- object stays; a new object has a reference of its own other than 0; the write barrier leaves
  -- every object's fields; and none of these runs out of steps. Heaps are those that have met no
  -- error and in which every upvalue object has room in its span, which each operation keeps.
  pub heap-ObjectLaws : Commits p → ObjectLaws (heap_objects p)
  unfolding heap_objects
  heap-ObjectLaws commits = record {
    written = λ (h, r, room) h' ref node eq.
        let w =
          rewrite_at-IsRewritten p h (h'.0) ref node r
            (stepped-ok (rewrite_at p h ref node) _ h' eq) in
        object-there h' ref w.offset w.span w.header node commits
          (rewritten_self h ref node r room w);
    unwritten = λ (h, r, room) h' ref node q n eq ne at.
        let w =
          rewrite_at-IsRewritten p h (h'.0) ref node r
            (stepped-ok (rewrite_at p h ref node) _ h' eq) in
        let (o, (s, (hd, v))) = object-IsUpvalue (h, r, room) q n at in
        object-there h' q o s hd n commits (rewritten-other h ref node r room q w ne v);
    made = λ h h' ref node eq. made_law h h' ref node commits eq;
    unmoved = λ (h, r, room) h' ref value q n eq at.
        let barred =
          barrier_at-IsBarred p h (h'.0) ref value r
            (stepped-ok (barrier_at p h ref value) _ h' eq) in
        let (o, (s, (hd, v))) = object-IsUpvalue (h, r, room) q n at in
        let (hd', v') = barred-IsUpvalue h (h'.0) ref q o s hd n r room barred v in
        object-there h' q o s hd' n commits v';
    read_ends = λ (h, r, room) ref.
        bind_ends (object_at p h ref) _ (object_at_ends h ref) (λ (common, node) eq. cc);
    write_ends = λ (h, r, room) ref node.
        stepped_ends (rewrite_at p h ref node) _ (rewrite_at_ends h ref node);
    barrier_ends = λ (h, r, room) ref value.
        stepped_ends (barrier_at p h ref value) _ (barrier_at_ends h ref value);
  }
