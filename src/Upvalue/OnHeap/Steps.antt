-- ===== src/Upvalue/OnHeap/Steps.antt =====
-- The steps of the heap that the upvalue manager makes, on heaps that keep their invariant.
use vex_lua.Base.{
  ℕ, ◌≡◌, refl, ap, subst, ◌⊎◌, inl, inr, Result, ok, err, >>=-eq-ok, ◌>>=◌, ok_injective,
}
use vex_lua.Value.Header.{CommonHeader}
use vex_lua.Heap.{Heap, Platform, AllocationSpan}
use vex_lua.Heap.Barrier.{grayed, write_barrier_value_by_offset}
use vex_lua.Heap.Running.{Runs}
use vex_lua.Heap.Running.Barriers.{write_barrier_value_by_offset-Shades}
use vex_lua.Upvalue.Object.{Node, UpvalueError}
use vex_lua.Upvalue.Manager.{ObjectOps}
use vex_lua.Upvalue.OnHeap.{
  of_heap, object_bytes, object_at, rewrite_at, make_at, barrier_at, HasRoom,
}
use vex_lua.Upvalue.OnHeap.Found.{IsPlace, object_bytes-IsPlace}
use vex_lua.Upvalue.OnHeap.Kept.{IsUpvalue, of_heap-ok}
use vex_lua.Upvalue.OnHeap.Written.{rewrite_at-IsRewritten, rewritten-Runs, rewritten-HasRoom}
use vex_lua.Upvalue.OnHeap.Barred.{IsMarked, grayed-IsMarked, marked-HasRoom, marked-IsUpvalue}
use vex_lua.Upvalue.OnHeap.Made.{make_at-IsMade}
use vex_lua.Upvalue.OnHeap.Fresh.{made_at-Runs, made-HasRoom}

-- A heap that has met no error, in which upvalue objects have room.
abbrev pub UpvalueHeap : Type 0
UpvalueHeap = (h : Heap) × Runs h × HasRoom h

unfoldable pub stepped :
    (m : Result UpvalueError Heap)
    → ((h : Heap) → m ≡ ok h → Runs h × HasRoom h)
    → Result UpvalueError UpvalueHeap
stepped (err e) keeps = err e
stepped (ok h) keeps = ok (h, (keeps h refl).0, (keeps h refl).1)

unfoldable pub stepped_ref :
    (m : Result UpvalueError (Heap × ℕ))
    → ((h : Heap) (ref : ℕ) → m ≡ ok (h, ref) → Runs h × HasRoom h)
    → Result UpvalueError (UpvalueHeap × ℕ)
stepped_ref (err e) keeps = err e
stepped_ref (ok (h, ref)) keeps = ok ((h, (keeps h ref refl).0, (keeps h ref refl).1), ref)

pub stepped-ok :
    (m : Result UpvalueError Heap) (keeps : (h : Heap) → m ≡ ok h → Runs h × HasRoom h)
    (h' : UpvalueHeap)
    → stepped m keeps ≡ ok h'
    → m ≡ ok (h'.0)
unfolding stepped
stepped-ok (err e) keeps h' eq = cc
stepped-ok (ok h) keeps h' eq = ap (λ x. ok (x.0)) (ok_injective eq)

pub stepped_ref-ok :
    (m : Result UpvalueError (Heap × ℕ))
    (keeps : (h : Heap) (ref : ℕ) → m ≡ ok (h, ref) → Runs h × HasRoom h) (h' : UpvalueHeap)
    (ref : ℕ)
    → stepped_ref m keeps ≡ ok (h', ref)
    → m ≡ ok (h'.0, ref)
unfolding stepped_ref
stepped_ref-ok (err e) keeps h' ref eq = cc
stepped_ref-ok (ok (h, r)) keeps h' ref eq =
    ap (λ (x : UpvalueHeap × ℕ). ok (x.0.0, x.1)) (ok_injective eq)

-- A barrier leaves the heap, or marks the object at the offset.
abbrev pub IsBarred : Heap → Heap → ℕ → Type 0
IsBarred h h' ref =
    (h ≡ h')
    ⊎ ((parent : ℕ) × ((span : AllocationSpan) × ((old : CommonHeader) × ((header : CommonHeader)
              × ((header' : CommonHeader) × IsPlace h ref parent span old
                  × IsMarked h h' parent header header')))))

pub barrier_at-IsBarred :
    (p : Platform) (h h' : Heap) (ref value : ℕ)
    → Runs h
    → barrier_at p h ref value ≡ ok h'
    → IsBarred h h' ref
unfolding barrier_at
barrier_at-IsBarred p h h' ref value r eq =
    let ((parent, bytes), found, last) = >>=-eq-ok (of_heap (object_bytes p h ref)) _ eq in
    let (loaded, below, (span, (old, place))) =
      object_bytes-IsPlace p h r ref parent bytes (of_heap-ok (object_bytes p h ref) found) in
    elim (write_barrier_value_by_offset-Shades p h h' parent value
      (of_heap-ok (write_barrier_value_by_offset p h parent value) last)) [
        | inl same ↦ inl same
        | inr (header, there, (h₁, wrote, (parent_ref, made))) ↦ inr (
          parent,
          (
            span,
            (
              old,
              (
                header,
                (
                  grayed header,
                  place,
                  subst (λ x. IsMarked h x parent header (grayed header)) made
                      (grayed-IsMarked p h h₁ parent parent_ref header r there wrote),
                ),
              ),
            ),
          ),
        )
      ]

pub barred-Keeps :
    (h h' : Heap) (ref : ℕ) → Runs h → HasRoom h → IsBarred h h' ref → Runs h' × HasRoom h'
barred-Keeps h h' ref r room (inl same) = (subst Runs same r, subst HasRoom same room)
barred-Keeps h h' ref r room (inr (parent, (span, (old, (header, (header', place, m)))))) =
    (m.runs, marked-HasRoom h h' ref parent span old header header' r room place m)

pub barred-IsUpvalue :
    (h h' : Heap) (ref q offset : ℕ) (s : AllocationSpan) (hd : CommonHeader) (node : Node)
    → Runs h
    → HasRoom h
    → IsBarred h h' ref
    → IsUpvalue h q offset s hd node
    → (hd' : CommonHeader) × IsUpvalue h' q offset s hd' node
barred-IsUpvalue h h' ref q offset s hd node r room (inl same) v =
    (hd, subst (λ x. IsUpvalue x q offset s hd node) same v)
barred-IsUpvalue h h' ref q offset s hd node r room
      (inr (parent, (span, (old, (header, (header', place, m)))))) v =
    marked-IsUpvalue h h' ref parent span old header header' r room place m q offset s hd node v

module _ (p : Platform) where
  pub rewrite-Keeps :
      (h h' : Heap) (ref : ℕ) (node : Node)
      → Runs h
      → HasRoom h
      → rewrite_at p h ref node ≡ ok h'
      → Runs h' × HasRoom h'
  rewrite-Keeps h h' ref node r room eq =
      let w = rewrite_at-IsRewritten p h h' ref node r eq in
      (rewritten-Runs h ref node r room w, rewritten-HasRoom h ref node r room w)

  pub make-Keeps :
      (h h' : Heap) (ref : ℕ) (node : Node)
      → Runs h
      → HasRoom h
      → make_at p h node ≡ ok (h', ref)
      → Runs h' × HasRoom h'
  make-Keeps h h' ref node r room eq =
      let (m, encoded) = make_at-IsMade p h h' ref node r eq in
      (made_at-Runs h h' ref node r room m, made-HasRoom h h' ref node r room m)

  -- What the upvalue manager calls on its heap.
  unfoldable pub heap_objects : ObjectOps UpvalueHeap
  unfolding object_at rewrite_at make_at barrier_at stepped stepped_ref
  heap_objects = record {
    object = λ (h, r, room) ref. (do (common, node) ← object_at p h ref; ok node);
    write_object = λ (h, r, room) ref node.
        stepped (rewrite_at p h ref node) (λ h' eq. rewrite-Keeps h h' ref node r room eq);
    alloc_object = λ (h, r, room) node.
        stepped_ref (make_at p h node) (λ h' ref eq. make-Keeps h h' ref node r room eq);
    write_barrier = λ (h, r, room) ref value.
        stepped (barrier_at p h ref value)
          (λ h' eq. barred-Keeps h h' ref r room (barrier_at-IsBarred p h h' ref value r eq));
  }
