-- ===== src/Upvalue/OnHeap/Found.antt =====
-- Where an upvalue object stands in the heap, as its reference leads to it.
use vex_lua.Base.{
  ℕ, ◌+◌, ◌*◌, ◌^◌, ◌%◌, ◌≤◌, ◌<◌, ◌≡◌, ◌≢◌, ap, subst, ◌∙◌, sym, true, not, List, some, ◌==◌,
  Result, ok, err, >>=-eq-ok, guard, ◌>>=◌, arith, ok_injective, ok_pair, guard_passed,
}
use vex_lua.Value.TValue.{object_alignment}
use vex_lua.Value.Header.{CommonHeader, read_common_header, validate}
use vex_lua.Value.Header.Layout.{guard-true}
use vex_lua.Value.Address.{AddressError, decode_heap_ref44, encode_heap_off64}
use vex_lua.Heap.{
  Heap, Platform, AllocationSpan, is_live, is_object, zero_offset, out_of_range, not_heap_memory,
  misaligned_address, not_start, not_live, not_object,
}
use vex_lua.Heap.Memory.{load}
use vex_lua.Heap.Pages.{find_page, ensure_committed}
use vex_lua.Heap.Access.{
  of_header, of_address, present, resolve, decode_heap_ref, offset_for_address,
  validate_object_address, header_at_offset,
}
use vex_lua.Heap.Resolve.{resolve_lem, present-some}
use vex_lua.Heap.Headers.{of_header-ok}
use vex_lua.Heap.Fresh.{arena_bytes-Reserved}
use vex_lua.Heap.Invariant.{frontier}
use vex_lua.Heap.Running.{Runs, word_room}
use vex_lua.Upvalue.OnHeap.{object_bytes}
use vex_lua.Upvalue.OnHeap.Resolves.{Commits, resolve_covered}

pub bind_ok :
    {E A B : Type 0} (m : Result E A) (f : A → Result E B) {a : A} → m ≡ ok a → (m >>= f) ≡ f a
bind_ok m f eq = ap (λ x. x >>= f) eq

pub of_address-ok :
    {A : Type 0} (r : Result AddressError A) {a : A} → of_address r ≡ ok a → r ≡ ok a
of_address-ok (ok x) eq = ground (arith, eq)
of_address-ok (err e) eq = cc

-- A live object span that the reference leads to, with its header.
pub record IsPlace (h : Heap) (ref offset : ℕ) (span : AllocationSpan) (header : CommonHeader)
    : Type 0 where
  pub address : ℕ
  pub decoded : decode_heap_ref44 h.base ref ≡ ok address
  pub aligned : (address % object_alignment == 0) ≡ true
  pub encoded : encode_heap_off64 h.base address ≡ ok offset
  pub some_offset : 16 ≤ offset
  pub entered : h.allocations offset ≡ some span
  pub live : is_live span.metadata.state ≡ true
  pub object : is_object span.metadata.kind ≡ true
  pub reserved : offset + 64 ≤ h.native.reserved_size
  pub header_there : read_common_header (load h.memory offset 16) ≡ ok header
  pub valid : validate header ≡ ok tt

-- The offset of a reference is 16 times it.
pub place_offset :
    {h : Heap} {ref offset : ℕ} {span : AllocationSpan} {header : CommonHeader}
    → IsPlace h ref offset span header
    → offset ≡ ref * 16
unfolding decode_heap_ref44 encode_heap_off64
place_offset v = ground (arith, v.decoded, v.encoded, v.some_offset)

module _ (p : Platform) (h : Heap) (r : Runs h) where
  pub offset_for_address-parts :
      (address offset : ℕ)
      → offset_for_address p h address ≡ ok offset
      → (encode_heap_off64 h.base address ≡ ok offset) × (offset ≢ 0)
  unfolding offset_for_address
  offset_for_address-parts address offset eq =
      let (o, encoded, rest) = >>=-eq-ok (of_address (encode_heap_off64 h.base address)) _ eq in
      let (u, nonzero, rest') = >>=-eq-ok (guard (not (o == 0)) (not_heap_memory address)) _ rest in
      let (bytes, read, last) = >>=-eq-ok (resolve p h o 1) _ rest' in
      let same : o ≡ offset = ok_injective last in
      (
        of_address-ok (encode_heap_off64 h.base address) encoded ∙ ap ok same,
        ground (arith, guard_passed _ _ nonzero, same),
      )

  resolve-Reserved :
      (offset : ℕ) (bytes : List ℕ)
      → offset + 64 < 2 ^ 64
      → resolve p h offset 64 ≡ ok bytes
      → offset + 64 ≤ h.native.reserved_size
  unfolding resolve
  resolve-Reserved offset bytes small eq =
      let (u, some_offset, rest) = >>=-eq-ok (guard (not (offset == 0)) zero_offset) _ eq in
      let (found, in_page, rest') =
        >>=-eq-ok (present (find_page h.pages offset 64) (out_of_range offset)) _ rest in
      let (u', committed, read) =
        >>=-eq-ok (ensure_committed p h.native ((offset + 64) % 2 ^ 64)) _ rest' in
      arena_bytes-Reserved h.native h.memory offset 64 bytes (omega arith) small read

  pub header_at_offset-load :
      (offset : ℕ) (header : CommonHeader)
      → header_at_offset p h offset ≡ ok header
      → read_common_header (load h.memory offset 16) ≡ ok header
  unfolding header_at_offset
  header_at_offset-load offset header eq =
      let (bytes, read, last) = >>=-eq-ok (resolve p h offset 16) _ eq in
      subst (λ b. read_common_header b ≡ ok header)
        (resolve_lem p h offset 16 bytes r.is_heap (word_room h r) read).0
        (of_header-ok (read_common_header bytes) last)

  pub validate_object_address-parts :
      (address offset : ℕ)
      → offset_for_address p h address ≡ ok offset
      → validate_object_address p h address ≡ ok tt
      → ((address % object_alignment == 0) ≡ true)
        × ((span : AllocationSpan) × (h.allocations offset ≡ some span)
            × (is_live span.metadata.state ≡ true)
            × (is_object span.metadata.kind ≡ true))
        × ((header : CommonHeader) × (read_common_header (load h.memory offset 16) ≡ ok header)
            × (validate header ≡ ok tt))
  unfolding validate_object_address
  validate_object_address-parts address offset at eq =
      let (u, aligned, rest) =
        >>=-eq-ok (guard (address % object_alignment == 0) (misaligned_address address)) _ eq in
      let (o, found, rest') = >>=-eq-ok (offset_for_address p h address) _ rest in
      let (span, entered, rest₃) =
        >>=-eq-ok (present (h.allocations o) (not_start address)) _ rest' in
      let (u', live, rest₄) =
        >>=-eq-ok (guard (is_live span.metadata.state) (not_live address)) _ rest₃ in
      let (u'', object, rest₅) =
        >>=-eq-ok (guard (is_object span.metadata.kind) (not_object address)) _ rest₄ in
      let (header, read, last) = >>=-eq-ok (header_at_offset p h o) _ rest₅ in
      let same : o ≡ offset = ok_injective (sym found ∙ at) in
      (
        guard_passed _ _ aligned,
        (
          span,
          ap h.allocations (sym same) ∙ present-some _ _ entered,
          guard_passed _ _ live,
          guard_passed _ _ object,
        ),
        (
          header,
          ap (λ k. read_common_header (load h.memory k 16)) (sym same)
              ∙ header_at_offset-load o header read,
          of_header-ok (validate header) last,
        ),
      )

  pub object_bytes-IsPlace :
      (ref offset : ℕ) (bytes : List ℕ)
      → object_bytes p h ref ≡ ok (offset, bytes)
      → (bytes ≡ load h.memory offset 64)
        × (offset + 64 ≤ frontier h)
        × ((span : AllocationSpan) × ((header : CommonHeader) × IsPlace h ref offset span header))
  unfolding object_bytes decode_heap_ref
  object_bytes-IsPlace ref offset bytes eq =
      let (address, decoded, rest) = >>=-eq-ok (decode_heap_ref p h ref) _ eq in
      let (a, decoded₁, rest₁) = >>=-eq-ok (of_address (decode_heap_ref44 h.base ref)) _ decoded in
      let (u, valid, done) = >>=-eq-ok (validate_object_address p h a) _ rest₁ in
      let same : a ≡ address = ok_injective done in
      let (o, at, rest₂) = >>=-eq-ok (offset_for_address p h address) _ rest in
      let (b, read, last) = >>=-eq-ok (resolve p h o 64) _ rest₂ in
      let (same_o, same_b) = ok_pair last in
      let (loaded, covered, below) =
        resolve_lem p h o 64 b r.is_heap (omega (arith, r.next_small, r.reserve_small)) read in
      let small : o + 64 < 2 ^ 64 =
        omega (arith, below, r.is_heap.frontier_below, r.next_small, r.reserve_small) in
      let (encoded, nonzero) = offset_for_address-parts address o at in
      let (aligned, (span, entered, live, object), (header, there, ok_header)) =
        validate_object_address-parts address o at
          (subst (λ x. validate_object_address p h x ≡ ok tt) same valid) in
      subst
        (λ k.
          (bytes ≡ load h.memory k 64)
          × (k + 64 ≤ frontier h)
          × ((s : AllocationSpan) × ((hd : CommonHeader) × IsPlace h ref k s hd)))
        same_o
        (
          sym same_b ∙ loaded,
          below,
          (
            span,
            (
              header,
              record {
                address = address;
                decoded = of_address-ok (decode_heap_ref44 h.base ref) decoded₁ ∙ ap ok same;
                aligned = aligned;
                encoded = encoded;
                some_offset = (r.is_heap.spans o span entered).not_zero;
                entered = entered;
                live = live;
                object = object;
                reserved = resolve-Reserved o b small read;
                header_there = there;
                valid = ok_header;
              },
            ),
          ),
        )

module _ (p : Platform) (commits : Commits p) (h : Heap) (r : Runs h) where
  offset_there :
      (ref offset : ℕ) (span : AllocationSpan) (header : CommonHeader)
      (v : IsPlace h ref offset span header)
      → resolve p h offset 1 ≡ ok (load h.memory offset 1)
      → offset_for_address p h v.address ≡ ok offset
  unfolding offset_for_address
  offset_there ref offset span header v resolved =
      bind_ok (of_address (encode_heap_off64 h.base v.address)) _ (ap of_address v.encoded)
      ∙ bind_ok (guard (not (offset == 0)) (not_heap_memory v.address)) _
          (guard-true _ _ (ground (arith, v.some_offset)))
      ∙ bind_ok (resolve p h offset 1) _ resolved

  address_valid :
      (ref offset : ℕ) (span : AllocationSpan) (header : CommonHeader)
      (v : IsPlace h ref offset span header)
      → offset_for_address p h v.address ≡ ok offset
      → resolve p h offset 16 ≡ ok (load h.memory offset 16)
      → validate_object_address p h v.address ≡ ok tt
  unfolding validate_object_address header_at_offset
  address_valid ref offset span header v at resolved =
      let read : header_at_offset p h offset ≡ ok header =
        bind_ok (resolve p h offset 16) _ resolved ∙ ap of_header v.header_there in
      bind_ok (guard (v.address % object_alignment == 0) (misaligned_address v.address)) _
        (guard-true _ _ v.aligned)
      ∙ bind_ok (offset_for_address p h v.address) _ at
      ∙ bind_ok (present (h.allocations offset) (not_start v.address)) _
          (ap (λ o. present o (not_start v.address)) v.entered)
      ∙ bind_ok (guard (is_live span.metadata.state) (not_live v.address)) _ (guard-true _ _ v.live)
      ∙ bind_ok (guard (is_object span.metadata.kind) (not_object v.address)) _
          (guard-true _ _ v.object)
      ∙ bind_ok (header_at_offset p h offset) _ read
      ∙ ap of_header v.valid

  -- The bytes of an object resolve from its place, if its span has room for them.
  pub place-object_bytes :
      (ref offset : ℕ) (span : AllocationSpan) (header : CommonHeader)
      → IsPlace h ref offset span header
      → 64 ≤ span.size
      → object_bytes p h ref ≡ ok (offset, load h.memory offset 64)
  unfolding object_bytes decode_heap_ref
  place-object_bytes ref offset span header v room =
      let resolved = λ (n : ℕ) (le : n ≤ 64) (positive : 0 < n).
        resolve_covered p h offset span.size n commits r
          (r.is_heap.spans offset span v.entered).covered (omega (arith, le, room)) positive
          (omega (arith, v.some_offset)) (omega (arith, le, v.reserved)) in
      let at = offset_there ref offset span header v (resolved 1 (omega arith) (omega arith)) in
      let valid =
        address_valid ref offset span header v at (resolved 16 (omega arith) (omega arith)) in
      let decoded : decode_heap_ref p h ref ≡ ok v.address =
        bind_ok (of_address (decode_heap_ref44 h.base ref)) _ (ap of_address v.decoded)
        ∙ bind_ok (validate_object_address p h v.address) _ valid in
      bind_ok (decode_heap_ref p h ref) _ decoded
      ∙ bind_ok (offset_for_address p h v.address) _ at
      ∙ bind_ok (resolve p h offset 64) _ (resolved 64 (omega arith) (omega arith))
