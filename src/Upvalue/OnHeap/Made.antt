-- ===== src/Upvalue/OnHeap/Made.antt =====
-- A new upvalue object, and what it leaves of the others.
use vex_lua.Base.{
  ℕ, ◌+◌, ◌^◌, ◌%◌, ◌<◌, ◌≡◌, ◌≢◌, refl, ap, ◌∙◌, sym, inl, inr, List, ◌==◌, Bool-cases, Result, ok,
  err, Result-cases, >>=-eq-ok, guard, arith, ok_pair, guard_passed,
}
use vex_lua.Value.TValue.{object_alignment}
use vex_lua.Value.Header.{CommonHeader, HeaderError}
use vex_lua.Value.Header.Layout.{IsHeader}
use vex_lua.Value.Address.{encode_heap_ref44, encode_heap_off64}
use vex_lua.Heap.{Heap, Platform, Allocation}
use vex_lua.Heap.Memory.{load}
use vex_lua.Heap.Access.{encode_heap_ref, offset_for_address, validate_object_address}
use vex_lua.Heap.Lifetime.{alloc_object, sized_header}
use vex_lua.Heap.Running.{Runs, IsObjectMade, alloc_object-IsObjectMade}
use vex_lua.Table.Layout.{with_mark_of}
use vex_lua.Upvalue.Object.{Node, UpvalueError, object_failed}
use vex_lua.Upvalue.Layout.{kind_upvalue, upvalue_header, write_upvalue, FitsWords, fits_words}
use vex_lua.Upvalue.Layout.RoundTrip.{fits_words-FitsWords}
use vex_lua.Upvalue.OnHeap.{of_heap, of_layout, with_bytes, made_at, alloc_at, make_at}
use vex_lua.Upvalue.OnHeap.Found.{of_address-ok}
use vex_lua.Upvalue.OnHeap.Kept.{of_heap-ok, of_layout-ok}

pub sized_upvalue : (h : Heap) → (sized_header h upvalue_header).size_bytes ≡ 64
unfolding sized_header
sized_upvalue h = refl

pub marked-IsHeader :
    (current : Result HeaderError CommonHeader)
    → ((c : CommonHeader) → current ≡ ok c → IsHeader c)
    → IsHeader (with_mark_of current upvalue_header)
marked-IsHeader (err e) fits = omega arith
marked-IsHeader (ok c) fits = elim (Bool-cases (c.kind == kind_upvalue)) [
  | inl same ↦ rw same (record {
    kind_fits = omega arith;
    mark_fits = (fits c refl).mark_fits;
    flags_fits = omega arith;
    size_fits = omega arith;
    version_fits = omega arith;
    aux_fits = omega arith;
  })
  | inr other ↦ rw other (omega arith)
]

pub marked-kind :
    (current : Result HeaderError CommonHeader)
    → (with_mark_of current upvalue_header).kind ≡ kind_upvalue
marked-kind (err e) = refl
marked-kind (ok c) = elim (Bool-cases (c.kind == kind_upvalue)) [
  | inl same ↦ rw same refl
  | inr other ↦ rw other refl
]

-- The parts of a reference that was encoded.
pub encode_heap_ref-parts :
    (p : Platform) (h : Heap) (address ref : ℕ)
    → encode_heap_ref p h address ≡ ok ref
    → (validate_object_address p h address ≡ ok tt) × (encode_heap_ref44 h.base address ≡ ok ref)
unfolding encode_heap_ref
encode_heap_ref-parts p h address ref eq =
    let (u, valid, last) = >>=-eq-ok (validate_object_address p h address) _ eq in
    (valid, of_address-ok (encode_heap_ref44 h.base address) last)

pub valid-offset :
    (p : Platform) (h : Heap) (address : ℕ)
    → validate_object_address p h address ≡ ok tt
    → (offset : ℕ) × (offset_for_address p h address ≡ ok offset)
unfolding validate_object_address
valid-offset p h address eq =
    let (u, aligned, rest) = >>=-eq-ok (guard (address % object_alignment == 0) _) _ eq in
    let (offset, found, rest') = >>=-eq-ok (offset_for_address p h address) _ rest in
    (offset, found)

pub offset_of_address :
    (base at address offset : ℕ)
    → address ≡ (base + at) % 2 ^ 64
    → at < 2 ^ 62
    → encode_heap_off64 base address ≡ ok offset
    → offset ≢ 0
    → offset ≡ at
unfolding encode_heap_off64
offset_of_address base at address offset made small eq nonzero =
    ground (arith, made, small, eq, nonzero)

-- The parts of a new object.
pub record IsMade (h h' : Heap) (ref : ℕ) (node : Node) : Type 0 where
  pub allocation : Allocation
  pub headed : Heap
  pub object : IsObjectMade h headed upvalue_header allocation
  pub written : List ℕ
  pub wrote :
      write_upvalue (load headed.memory allocation.offset allocation.size) upvalue_header node
      ≡ ok written
  pub made : with_bytes headed allocation.offset written ≡ h'
  pub fits : FitsWords node

pub make_at-IsMade :
    (p : Platform) (h h' : Heap) (ref : ℕ) (node : Node)
    → Runs h
    → make_at p h node ≡ ok (h', ref)
    → (m : IsMade h h' ref node) × (encode_heap_ref p h' m.allocation.address ≡ ok ref)
unfolding make_at alloc_at made_at
make_at-IsMade p h h' ref node r eq =
    let (u, fit, rest) = >>=-eq-ok (guard (fits_words node) object_failed) _ eq in
    elim (Result-cases (alloc_object p h upvalue_header).1) [
      | inl (e, failed) ↦ absurd (no_error (rw (alloc_at, failed) at rest))
      | inr (a, allocated) ↦
          (let h₁ = (alloc_object p h upvalue_header).0 in
            let rest' = rw (alloc_at, allocated) at rest in
            let (written, wrote, rest₂) =
              >>=-eq-ok
                (of_layout (write_upvalue (load h₁.memory a.offset a.size) upvalue_header node)) _
                rest' in
            let (ref', encoded, last) =
              >>=-eq-ok (of_heap (encode_heap_ref p (with_bytes h₁ a.offset written) a.address)) _
                rest₂ in
            let (same, same_ref) = ok_pair last in
            (
              record {
                allocation = a;
                headed = h₁;
                object =
                    alloc_object-IsObjectMade p h h₁ upvalue_header a r
                      (ap (λ x. (h₁, x)) allocated);
                written = written;
                wrote = of_layout-ok _ wrote;
                made = same;
                fits = fits_words-FitsWords node (guard_passed _ _ fit);
              },
              ap (λ x. encode_heap_ref p x a.address) (sym same)
                  ∙ of_heap-ok _ encoded
                  ∙ ap ok same_ref,
            ))
    ]
  where
    no_error :
        {e : UpvalueError} {x : Heap × ℕ}
        → ◌≡◌ {A = Result UpvalueError (Heap × ℕ)} (err e) (ok x)
        → ⊥
    no_error eq = cc
