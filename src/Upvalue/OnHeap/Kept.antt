-- ===== src/Upvalue/OnHeap/Kept.antt =====
-- Upvalue objects that stay through a change of the heap.
use vex_lua.Base.{
  ℕ, ◌+◌, ◌≤◌, ◌<◌, ◌≡◌, ◌≢◌, ap, subst, ◌∙◌, sym, ◌⊎◌, inl, inr, length, leb, Result, ok, err,
  >>=-eq-ok, guard, arith, ok_injective,
}
use vex_lua.Value.Header.{CommonHeader, read_common_header, validate, buffer_too_small}
use vex_lua.Value.Address.{decode_heap_ref44, encode_heap_off64}
use vex_lua.Heap.{Heap, HeapError, Platform, AllocationSpan}
use vex_lua.Heap.Memory.{load, length-load, load_congr}
use vex_lua.Heap.Fresh.{apart_ne}
use vex_lua.Heap.Running.{Runs}
use vex_lua.Table.Layout.{LayoutError}
use vex_lua.Upvalue.Object.{Node}
use vex_lua.Upvalue.Layout.{kind_upvalue, node_of, read_upvalue}
use vex_lua.Upvalue.Layout.RoundTrip.{read_upvalue-parts, read_upvalue-inv, node_of_congr}
use vex_lua.Upvalue.OnHeap.{of_heap, of_layout, object_bytes, object_at, HasRoom, kind_at}
use vex_lua.Upvalue.OnHeap.Resolves.{Commits, header-of-load, get_or-load_congr}
use vex_lua.Upvalue.OnHeap.Found.{
  IsPlace, place_offset, object_bytes-IsPlace, place-object_bytes, bind_ok,
}

-- An upvalue object under a reference.
pub record IsUpvalue (h : Heap) (ref offset : ℕ) (span : AllocationSpan) (header : CommonHeader)
    (node : Node) : Type 0 where
  pub place : IsPlace h ref offset span header
  pub kind : header.kind ≡ kind_upvalue
  pub fields : node_of (load h.memory offset 64) ≡ node

pub kind_at-header :
    (memory : ℕ → ℕ) (offset : ℕ) (header : CommonHeader)
    → read_common_header (load memory offset 16) ≡ ok header
    → kind_at memory offset ≡ header.kind
unfolding read_common_header
kind_at-header memory offset header eq =
    let bytes = load memory offset 16 in
    let (u, enough, last) =
      >>=-eq-ok (guard (leb 16 (length bytes)) (buffer_too_small (length bytes))) _ eq in
    ap (λ x. x.kind) (ok_injective last)

pub span_room :
    {h : Heap} {ref offset : ℕ} {span : AllocationSpan} {header : CommonHeader} {node : Node}
    → HasRoom h
    → IsUpvalue h ref offset span header node
    → 64 ≤ span.size
span_room {h} {ref} {offset} {span} {header} {node} room v =
    room offset span v.place.entered v.place.live v.place.object
      (kind_at-header h.memory offset header v.place.header_there ∙ v.kind)

pub of_heap-ok : {A : Type 0} (r : Result HeapError A) {a : A} → of_heap r ≡ ok a → r ≡ ok a
of_heap-ok (ok x) eq = ground (arith, eq)
of_heap-ok (err e) eq = cc

pub of_layout-ok : {A : Type 0} (r : Result LayoutError A) {a : A} → of_layout r ≡ ok a → r ≡ ok a
of_layout-ok (ok x) eq = ground (arith, eq)
of_layout-ok (err e) eq = cc

pub object_at-IsUpvalue :
    (p : Platform) (h : Heap) (ref : ℕ) (header : CommonHeader) (node : Node)
    → Runs h
    → object_at p h ref ≡ ok (header, node)
    → (offset : ℕ) × ((span : AllocationSpan) × IsUpvalue h ref offset span header node)
unfolding object_at
object_at-IsUpvalue p h ref header node r eq =
    let ((offset, bytes), found, last) = >>=-eq-ok (of_heap (object_bytes p h ref)) _ eq in
    let (loaded, below, (span, (header', place))) =
      object_bytes-IsPlace p h r ref offset bytes (of_heap-ok (object_bytes p h ref) found) in
    let (there, kind, fields) =
      read_upvalue-inv bytes header node (of_layout-ok (read_upvalue bytes) last) in
    let same : header' ≡ header = ok_injective (
      sym place.header_there
      ∙ sym (header-of-load h.memory offset)
      ∙ ap read_common_header (sym loaded)
      ∙ there) in
    (
      offset,
      (
        span,
        record {
          place = subst (IsPlace h ref offset span) same place;
          kind = kind;
          fields = ap node_of (sym loaded) ∙ fields;
        },
      ),
    )

pub object_at-there :
    (p : Platform) (h : Heap) (ref offset : ℕ) (span : AllocationSpan) (header : CommonHeader)
    (node : Node)
    → Commits p
    → Runs h
    → HasRoom h
    → IsUpvalue h ref offset span header node
    → object_at p h ref ≡ ok (header, node)
unfolding object_at
object_at-there p h ref offset span header node commits r room v =
    let bytes = load h.memory offset 64 in
    let there =
      place-object_bytes p commits h r ref offset span header v.place (span_room room v) in
    bind_ok (of_heap (object_bytes p h ref)) _ (ap of_heap there)
    ∙ ap of_layout (
        read_upvalue-parts bytes header (omega (arith, length-load h.memory offset 64))
          (header-of-load h.memory offset ∙ v.place.header_there) v.kind)
    ∙ ap (λ n. ok (header, n)) v.fields

-- The object in another heap, with the header that is there.
pub headed-IsUpvalue :
    (h h' : Heap) (ref offset : ℕ) (span : AllocationSpan) (header header' : CommonHeader)
    (node : Node)
    → h'.base ≡ h.base
    → h'.native ≡ h.native
    → h'.allocations offset ≡ h.allocations offset
    → read_common_header (load h'.memory offset 16) ≡ ok header'
    → validate header' ≡ ok tt
    → header'.kind ≡ kind_upvalue
    → ((j : ℕ) → offset + 16 ≤ j → j < offset + 64 → h'.memory j ≡ h.memory j)
    → IsUpvalue h ref offset span header node
    → IsUpvalue h' ref offset span header' node
headed-IsUpvalue h h' ref offset span header header' node base native spans there valid kind same
      v =
    record {
      place = record {
        address = v.place.address;
        decoded = ap (λ b. decode_heap_ref44 b ref) base ∙ v.place.decoded;
        aligned = v.place.aligned;
        encoded = ap (λ b. encode_heap_off64 b v.place.address) base ∙ v.place.encoded;
        some_offset = v.place.some_offset;
        entered = spans ∙ v.place.entered;
        live = v.place.live;
        object = v.place.object;
        reserved = omega (arith, ap (λ a. a.reserved_size) native, v.place.reserved);
        header_there = there;
        valid = valid;
      };
      kind = kind;
      fields =
          node_of_congr (load h'.memory offset 64) (load h.memory offset 64)
            (get_or-load_congr h'.memory h.memory offset 64 16 same)
          ∙ v.fields;
    }

-- The object stays where its span and its bytes do.
pub same-IsUpvalue :
    (h h' : Heap) (ref offset : ℕ) (span : AllocationSpan) (header : CommonHeader) (node : Node)
    → h'.base ≡ h.base
    → h'.native ≡ h.native
    → h'.allocations offset ≡ h.allocations offset
    → ((j : ℕ) → offset ≤ j → j < offset + 64 → h'.memory j ≡ h.memory j)
    → IsUpvalue h ref offset span header node
    → IsUpvalue h' ref offset span header node
same-IsUpvalue h h' ref offset span header node base native spans same v =
    headed-IsUpvalue h h' ref offset span header header node base native spans
      (ap read_common_header
          (load_congr h'.memory h.memory offset 16 λ j lo hi. same j lo (omega (arith, hi)))
        ∙ v.place.header_there)
      v.place.valid v.kind (λ j lo hi. same j (omega (arith, lo)) hi) v

-- Objects under different references have no byte in common.
pub objects_apart :
    {h : Heap} {ref ref' offset offset' : ℕ} {span span' : AllocationSpan}
    {header header' : CommonHeader} {node node' : Node}
    → Runs h
    → HasRoom h
    → IsUpvalue h ref offset span header node
    → IsUpvalue h ref' offset' span' header' node'
    → ref ≢ ref'
    → (offset + 64 ≤ offset') ⊎ (offset' + 64 ≤ offset)
objects_apart {h} {ref} {ref'} {offset} {offset'} {span} {span'} r room v v' ne =
    let away : offset ≢ offset' =
      λ same. ne (omega (arith, place_offset v.place, place_offset v'.place, same)) in
    elim (apart_ne h offset offset' span span' r.is_heap v.place.entered v'.place.entered away) [
      | inl before ↦ inl (omega (arith, before, span_room room v))
      | inr after ↦ inr (omega (arith, after, span_room room v'))
    ]
