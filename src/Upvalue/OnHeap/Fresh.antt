-- ===== src/Upvalue/OnHeap/Fresh.antt =====
-- A heap with a new upvalue object: it is well formed, and the other upvalues are as before.
use vex_lua.Base.{
  ℕ, ◌+◌, ◌^◌, ◌%◌, ◌≤◌, ◌<◌, ◌≡◌, ◌≢◌, refl, ap, subst, ◌∙◌, sym, ◌⊎◌, inl, inr, true, false,
  length, get_or, some, ◌==◌, ==_iff, Bool-cases, ok, arith, ok_injective,
}
use vex_lua.Value.Header.{CommonHeader, read_common_header}
use vex_lua.Value.Header.Layout.{read_common_header_congr}
use vex_lua.Value.Address.RoundTrip.{decode-encode_heap_ref44}
use vex_lua.Heap.{Heap, Platform, AllocationSpan, is_live, is_free}
use vex_lua.Heap.Memory.{load, length-load, store_else, store_at, get_or-load}
use vex_lua.Heap.Access.{encode_heap_ref}
use vex_lua.Heap.Headers.{stored-IsHeap, read_common_header-IsHeader}
use vex_lua.Heap.Resolve.{load_bytes}
use vex_lua.Heap.Invariant.{frontier}
use vex_lua.Heap.Running.{Runs, moved-Runs, made-length, made-Runs}
use vex_lua.Table.Layout.{with_mark_of}
use vex_lua.Upvalue.Object.{Node}
use vex_lua.Upvalue.Layout.{upvalue_header}
use vex_lua.Upvalue.Layout.RoundTrip.{IsStored, write_upvalue-IsStored, node_of_congr}
use vex_lua.Upvalue.OnHeap.{with_bytes, HasRoom}
use vex_lua.Upvalue.OnHeap.Found.{offset_for_address-parts, validate_object_address-parts}
use vex_lua.Upvalue.OnHeap.Kept.{IsUpvalue, span_room, same-IsUpvalue}
use vex_lua.Upvalue.OnHeap.Written.{write_upvalue_bytes, room_kept, kind_same}
use vex_lua.Upvalue.OnHeap.Made.{
  sized_upvalue, marked-IsHeader, marked-kind, encode_heap_ref-parts, valid-offset,
  offset_of_address, IsMade,
}

module _ (h h' : Heap) (ref : ℕ) (node : Node) (r : Runs h) (room : HasRoom h)
    (m : IsMade h h' ref node) where
  size_enough : 64 ≤ m.allocation.size
  size_enough = omega (arith, m.object.fresh.enough, sized_upvalue h)

  written_bytes : (length m.written ≡ m.allocation.size) × ((j : ℕ) → get_or m.written j 0 < 256)
  written_bytes =
      let (len, small) =
        write_upvalue_bytes (load m.headed.memory m.allocation.offset m.allocation.size) m.written
          upvalue_header node
          (load_bytes m.headed.memory m.allocation.offset m.allocation.size
            (made-Runs m.object).is_heap.are_bytes)
          m.wrote in
      (len ∙ length-load m.headed.memory m.allocation.offset m.allocation.size, small)

  headed-below : m.allocation.offset + m.allocation.size ≤ frontier m.headed
  headed-below =
      subst (λ x. m.allocation.offset + m.allocation.size ≤ frontier x) m.object.made
        m.object.fresh.below

  pub made_at-Runs : Runs h'
  made_at-Runs = subst Runs m.made (
      moved-Runs m.headed (with_bytes m.headed m.allocation.offset m.written) refl refl refl
        (stored-IsHeap m.headed m.allocation.offset m.written (made-Runs m.object).is_heap
          (omega (arith, headed-below, written_bytes.0)) written_bytes.1)
        (made-Runs m.object))

  made_else :
      (j : ℕ)
      → (j < m.allocation.offset) ⊎ (m.allocation.offset + m.allocation.size ≤ j)
      → h'.memory j ≡ h.memory j
  made_else j out =
      let (len, small) = made-length m.object in
      ap (λ x. x.memory j) (sym m.made)
      ∙ store_else m.headed.memory m.allocation.offset m.written j
          (ground (arith, out, written_bytes.0))
      ∙ ap (λ x. x.memory j) (sym m.object.made)
      ∙ store_else m.object.before.memory m.allocation.offset m.object.written j
          (ground (arith, out, len))
      ∙ m.object.fresh.other_bytes j out

  made_spans : h'.allocations ≡ m.object.before.allocations
  made_spans = ap (λ x. x.allocations) (sym m.made) ∙ ap (λ x. x.allocations) (sym m.object.made)

  same_base : h'.base ≡ h.base
  same_base =
      ap (λ x. x.base) (sym m.made)
      ∙ ap (λ x. x.base) (sym m.object.made)
      ∙ m.object.fresh.same_base

  same_native : h'.native ≡ h.native
  same_native =
      ap (λ x. x.native) (sym m.made)
      ∙ ap (λ x. x.native) (sym m.object.made)
      ∙ m.object.fresh.same_native

  -- A live span of the heap before lies apart from the new one.
  live_apart :
      (offset : ℕ) (span : AllocationSpan)
      → h.allocations offset ≡ some span
      → is_live span.metadata.state ≡ true
      → (offset + span.size ≤ m.allocation.offset)
        ⊎ (m.allocation.offset + m.allocation.size ≤ offset)
  live_apart offset span there live = m.object.fresh.apart offset span there (not_free span live)
    where
      not_free :
          (s : AllocationSpan) → is_live s.metadata.state ≡ true → is_free s.metadata.state ≡ false
      not_free s live = ground (arith, live)

  pub made-HasRoom : HasRoom h'
  made-HasRoom = room_kept h h' room λ offset span there live.
      elim (Bool-cases (offset == m.allocation.offset)) [
        | inl here ↦ inl (enough offset span there ((==_iff offset m.allocation.offset).0 here))
        | inr away ↦
            (let was : h.allocations offset ≡ some span =
                sym (m.object.fresh.other_spans offset (ground (arith, away)))
                ∙ ap (λ a. a offset) (sym made_spans)
                ∙ there in
              let v = r.is_heap.spans offset span was in
              inr (
                was,
                kind_same h h' offset (λ j lo hi.
                    made_else j (elim (live_apart offset span was live) [
                      | inl before ↦ inl (omega (arith, before, hi, v.some_bytes, v.size_aligned))
                      | inr after ↦ inr (omega (arith, after, lo))
                    ])),
              ))
      ]
    where
      some_span : {a b : AllocationSpan} → some a ≡ some b → a ≡ b
      some_span eq = cc

      enough :
          (offset : ℕ) (span : AllocationSpan)
          → h'.allocations offset ≡ some span
          → offset ≡ m.allocation.offset
          → 64 ≤ span.size
      enough offset span there e =
          let (s, entered, size) = m.object.fresh.entered in
          let same : s ≡ span = some_span (
            sym entered
            ∙ ap m.object.before.allocations (sym e)
            ∙ ap (λ a. a offset) (sym made_spans)
            ∙ there) in
          omega (arith, ap (λ x. x.size) same, size, size_enough)

  pub made-other :
      (q offset : ℕ) (span : AllocationSpan) (header : CommonHeader) (other : Node)
      → IsUpvalue h q offset span header other
      → (offset ≢ m.allocation.offset) × IsUpvalue h' q offset span header other
  made-other q offset span header other v =
      let apart = live_apart offset span v.place.entered v.place.live in
      let enough = span_room room v in
      let away : offset ≢ m.allocation.offset =
        λ same. ground (arith, apart, same, enough, size_enough) in
      (
        away,
        same-IsUpvalue h h' q offset span header other same_base same_native
            (ap (λ a. a offset) made_spans ∙ m.object.fresh.other_spans offset away)
            (λ j lo hi. made_else j (elim apart [
              | inl before ↦ inl (omega (arith, before, hi, enough))
              | inr after ↦ inr (omega (arith, after, lo))
            ]))
            v,
      )

  made-IsStored :
      IsStored
        (load m.headed.memory m.allocation.offset m.allocation.size)
        m.written
        (with_mark_of
          (read_common_header (load m.headed.memory m.allocation.offset m.allocation.size))
          upvalue_header)
        node
  made-IsStored =
      let buf = load m.headed.memory m.allocation.offset m.allocation.size in
      write_upvalue-IsStored buf m.written upvalue_header node m.fits
        (marked-IsHeader (read_common_header buf) λ c eq.
          read_common_header-IsHeader buf c
            (load_bytes m.headed.memory m.allocation.offset m.allocation.size
              (made-Runs m.object).is_heap.are_bytes)
            eq)
        m.wrote

  -- The new object's bytes are the ones written.
  made_bytes :
      (n : ℕ)
      → n ≤ 64
      → (j : ℕ) → j < n
      → get_or (load h'.memory m.allocation.offset n) j 0 ≡ get_or m.written j 0
  made_bytes n le j below =
      get_or-load h'.memory m.allocation.offset n j below
      ∙ ap (λ x. x.memory (m.allocation.offset + j)) (sym m.made)
      ∙ store_at m.headed.memory m.allocation.offset m.written j
          (omega (arith, below, le, written_bytes.0, size_enough))

  pub made_self :
      (p : Platform)
      → encode_heap_ref p h' m.allocation.address ≡ ok ref
      → (span : AllocationSpan) × ((header : CommonHeader) × IsUpvalue h' ref m.allocation.offset
            span header node)
  made_self p eq =
      let address = m.allocation.address in
      let placed : address ≡ (h'.base + m.allocation.offset) % 2 ^ 64 =
        m.object.fresh.address ∙ ap (λ b. (b + m.allocation.offset) % 2 ^ 64) (sym same_base) in
      let (valid, encoded) = encode_heap_ref-parts p h' address ref eq in
      let (o, found) = valid-offset p h' address valid in
      let (off, nonzero) = offset_for_address-parts p h' made_at-Runs address o found in
      let same : o ≡ m.allocation.offset =
        offset_of_address h'.base m.allocation.offset address o placed
          (omega (arith, m.object.fresh.in_arena, size_enough, r.reserve_small)) off nonzero in
      let (aligned, (span, entered, live, object), (header, there, ok_header)) =
        validate_object_address-parts p h' made_at-Runs address m.allocation.offset
          (found ∙ ap ok same) valid in
      let (positive, small, decoded) =
        decode-encode_heap_ref44 h'.base address ref (omega (arith, placed)) encoded in
      let buf = load h'.memory m.allocation.offset 16 in
      let marked =
        with_mark_of
          (read_common_header (load m.headed.memory m.allocation.offset m.allocation.size))
          upvalue_header in
      let same_header : header ≡ marked = ok_injective (
        sym there
        ∙ read_common_header_congr buf m.written
            (omega (arith, length-load h'.memory m.allocation.offset 16))
            (omega (arith, written_bytes.0, size_enough)) (made_bytes 16 (omega arith))
        ∙ made-IsStored.header) in
      (
        span,
        (
          header,
          record {
            place = record {
              address = address;
              decoded = decoded;
              aligned = aligned;
              encoded = off ∙ ap ok same;
              some_offset = m.object.fresh.not_zero;
              entered = entered;
              live = live;
              object = object;
              reserved = omega (
                arith,
                m.object.fresh.in_arena,
                size_enough,
                ap (λ a. a.reserved_size) same_native,
              );
              header_there = there;
              valid = ok_header;
            };
            kind =
                ap (λ x. x.kind) same_header
                ∙ marked-kind (
                    read_common_header
                      (load m.headed.memory m.allocation.offset m.allocation.size));
            fields =
                node_of_congr (load h'.memory m.allocation.offset 64) m.written
                  (λ j lo hi. made_bytes 64 (omega arith) j hi)
                ∙ made-IsStored.fields;
          },
        ),
      )
