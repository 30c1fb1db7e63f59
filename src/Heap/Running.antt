-- ===== src/Heap/Running.antt =====
-- A heap as a program that has met no error sees it: well formed, with room before its words wrap.
pub mod Barriers
use vex_lua.Base.{
  ℕ, ◌+◌, ◌^◌, ◌%◌, ◌≤◌, ◌<◌, ◌≡◌, ◌≢◌, refl, ap, subst, ◌∙◌, sym, Option, none, some, ◌⊎◌, inl,
  inr, Bool, true, false, not, ◌||◌, List, length, get_or, Bool-cases, Option-cases, Result-cases,
  Result, ok, err, >>=-eq-ok, guard, ◌==◌, if◌then◌else◌, arith, ◌>>=◌, ◌>>◌,
}
use vex_lua.Value.TValue.{heap_ref}
use vex_lua.Value.Header.{CommonHeader, write_common_header, has, mark_black}
use vex_lua.Value.Header.Layout.{IsHeader}
use vex_lua.Heap.{
  Heap, HeapError, Platform, GcController, Allocation, SpanMetadata, layout_none, kind_object,
}
use vex_lua.Heap.Access.{
  of_header, header_at_offset, decode_heap_ref, offset_for_address, write_header, ref_for_offset,
}
use vex_lua.Heap.Controller.{is_pause}
use vex_lua.Heap.Span.{alloc_span}
use vex_lua.Heap.Lifetime.{alloc_object, alloc_payload, free_span, headed, live_span, sized_header}
use vex_lua.Heap.Barrier.{
  barrier, shade_parent, grayed, requeued, marking, write_barrier_by_offset,
  write_barrier_value_by_offset, remember_weak_owner_by_offset,
}
use vex_lua.Heap.Memory.{load, store, length-load}
use vex_lua.Heap.Resolve.{load_bytes}
use vex_lua.Heap.Invariant.{IsHeap, frontier}
use vex_lua.Heap.Headers.{
  write_header_lem, header_at_offset-IsHeader, with_memory, stored-IsHeap,
  write_common_header_bytes, of_header-ok,
}
use vex_lua.Heap.Fresh.{IsFresh, IsOutcome}
use vex_lua.Heap.Outcome.{alloc_span-IsOutcome}
use vex_lua.Heap.Freed.{free_span_lem, IsFreed}
use vex_lua.Heap.TriColour.{with_gc, with_gc-IsHeap, grayed-IsHeader}

pub record Runs (h : Heap) : Type 0 where
  pub is_heap : IsHeap h
  pub next_small : h.next_page ≤ h.native.reserved_size + h.page_size
  pub reserve_small : h.native.reserved_size + h.page_size ≤ 2 ^ 61

-- A heap whose pages and arena are another's.
pub moved-Runs :
    (h h' : Heap)
    → h'.next_page ≡ h.next_page
    → h'.native ≡ h.native
    → h'.page_size ≡ h.page_size
    → IsHeap h'
    → Runs h
    → Runs h'
moved-Runs h h' next native size v r =
    let reserved = ap (λ a. a.reserved_size) native in
    record {
      is_heap = v;
      next_small = omega (arith, next, reserved, size, r.next_small);
      reserve_small = omega (arith, reserved, size, r.reserve_small);
    }

pub word_room : (h : Heap) → Runs h → h.next_page + 16 < 2 ^ 64
word_room h r = omega (arith, r.next_small, r.reserve_small)

pub alloc_span-Runs :
    (p : Platform) (h h' : Heap) (size : ℕ) (m : SpanMetadata) (a : Allocation)
    → Runs h
    → size ≤ 2 ^ 62
    → alloc_span p h size m ≡ (h', ok a)
    → Runs h' × IsFresh h h' size a
alloc_span-Runs p h h' size m a r small eq =
    let outcome =
      alloc_span-IsOutcome p h size m r.is_heap
        (omega (arith, r.next_small, r.reserve_small, small)) in
    let (v, f) = subst (IsOutcome h size) eq outcome in
    let reserved = ap (λ x. x.reserved_size) f.same_native in
    (
      record {
        is_heap = v;
        next_small = elim f.next_bound [
          | inl old ↦ omega (arith, old, r.next_small, reserved, f.same_size)
          | inr new ↦ omega (arith, new, reserved, f.same_size)
        ];
        reserve_small = omega (arith, reserved, f.same_size, r.reserve_small);
      },
      f,
    )

sized_small : (h : Heap) (header : CommonHeader) → (sized_header h header).size_bytes ≤ 2 ^ 62
unfolding sized_header
sized_small h header = omega arith

no_error :
    {x y : Heap} {e : HeapError} {c : Allocation}
    → ◌≡◌ {A = Heap × Result HeapError Allocation} (x, err e) (y, ok c)
    → ⊥
no_error eq = cc

pub alloc_payload-Runs :
    (p : Platform) (h h' : Heap) (size layout owner : ℕ) (a : Allocation)
    → Runs h
    → size ≤ 2 ^ 62
    → alloc_payload p h size layout owner ≡ (h', ok a)
    → Runs h' × IsFresh h h' size a
unfolding alloc_payload
alloc_payload-Runs p h h' size layout owner a r small eq =
    elim (Bool-cases (layout == layout_none)) [
      | inl missing ↦ absurd (no_error (rw (alloc_payload, missing) at eq))
      | inr there ↦
          alloc_span-Runs p h h' size (record live_span { layout = layout; owner = owner }) a r
            small (rw (alloc_payload, there) at eq)
    ]

-- An object's allocation is fresh but for the header that is written at its start.
pub record IsObjectMade (h h' : Heap) (header : CommonHeader) (a : Allocation) : Type 0 where
  pub before : Heap
  pub runs : Runs before
  pub fresh : IsFresh h before (sized_header h header).size_bytes a
  pub written : List ℕ
  pub wrote :
      write_common_header (load before.memory a.offset a.size) (sized_header h header) ≡ ok written
  pub made : record before { memory = store before.memory a.offset written } ≡ h'

headed-parts :
    (h h' : Heap) (a b : Allocation) (header : CommonHeader)
    → headed h a header ≡ (h', ok b)
    → (a ≡ b)
      × ((written : List ℕ) × (write_common_header (load h.memory a.offset a.size) header
            ≡ ok written)
          × (record h { memory = store h.memory a.offset written } ≡ h'))
headed-parts h h' a b header eq =
    let bytes = load h.memory a.offset a.size in
    elim (Result-cases (of_header (write_common_header bytes header))) [
      | inl (e, failed) ↦ absurd (no_error (rw (headed, failed) at eq))
      | inr (written, wrote) ↦
          (let (same, same') = both (rw (headed, wrote) at eq) in
            (same', (written, of_header-ok (write_common_header bytes header) wrote, same)))
    ]
  where
    both :
        {x y : Heap} {c d : Allocation}
        → ◌≡◌ {A = Heap × Result HeapError Allocation} (x, ok c) (y, ok d)
        → (x ≡ y) × (c ≡ d)
    both eq = (cc, cc)

pub alloc_object-IsObjectMade :
    (p : Platform) (h h' : Heap) (header : CommonHeader) (a : Allocation)
    → Runs h
    → alloc_object p h header ≡ (h', ok a)
    → IsObjectMade h h' header a
unfolding alloc_object
alloc_object-IsObjectMade p h h' header a r eq =
    let sized = sized_header h header in
    let m = record live_span { kind = kind_object; layout = layout_none } in
    elim (Result-cases (alloc_span p h sized.size_bytes m).1) [
      | inl (e, failed) ↦ absurd (no_error (rw (alloc_object, failed) at eq))
      | inr (b, allocated) ↦
          (let h₁ = (alloc_span p h sized.size_bytes m).0 in
            let (r₁, f) =
              alloc_span-Runs p h h₁ sized.size_bytes m b r (sized_small h header)
                (ap (λ x. (h₁, x)) allocated) in
            let (same, parts) = headed-parts h₁ h' b a sized (rw (alloc_object, allocated) at eq) in
            let (written, wrote, made) =
              subst
                (λ x.
                  (written : List ℕ) × (write_common_header (load h₁.memory x.offset x.size) sized
                    ≡ ok written)
                  × (record h₁ { memory = store h₁.memory x.offset written } ≡ h'))
                same parts in
            record {
              before = h₁;
              runs = r₁;
              fresh = subst (IsFresh h h₁ sized.size_bytes) same f;
              written = written;
              wrote = wrote;
              made = made;
            })
    ]

pub made-length :
    {h h' : Heap} {header : CommonHeader} {a : Allocation} (m : IsObjectMade h h' header a)
    → (length m.written ≡ a.size) × ((j : ℕ) → get_or m.written j 0 < 256)
made-length {h} {h'} {header} {a} m =
    let (len, small) =
      write_common_header_bytes (load m.before.memory a.offset a.size) m.written
        (sized_header h header)
        (load_bytes m.before.memory a.offset a.size m.runs.is_heap.are_bytes) m.wrote in
    (len ∙ length-load m.before.memory a.offset a.size, small)

pub made-Runs :
    {h h' : Heap} {header : CommonHeader} {a : Allocation} → IsObjectMade h h' header a → Runs h'
made-Runs {h} {h'} {header} {a} m =
    let (len, small) = made-length m in
    subst Runs m.made (
      moved-Runs m.before (record (m.before) { memory = store m.before.memory a.offset m.written })
        refl refl refl
        (stored-IsHeap m.before a.offset m.written m.runs.is_heap
          (omega (arith, m.fresh.below, len)) small)
        m.runs)

pub alloc_object-Runs :
    (p : Platform) (h h' : Heap) (header : CommonHeader) (a : Allocation)
    → Runs h
    → alloc_object p h header ≡ (h', ok a)
    → Runs h'
alloc_object-Runs p h h' header a r eq = made-Runs (alloc_object-IsObjectMade p h h' header a r eq)

pub free_span-Runs : (h h' : Heap) (offset : ℕ) → Runs h → free_span h offset ≡ ok h' → Runs h'
free_span-Runs h h' offset r eq =
    let (v, (span, f), _) = free_span_lem h h' offset r.is_heap eq in
    moved-Runs h h' f.same_next f.same_native f.same_size v r
