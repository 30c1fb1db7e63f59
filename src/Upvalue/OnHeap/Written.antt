-- ===== src/Upvalue/OnHeap/Written.antt =====
-- An upvalue object that is written back, and what that leaves of the heap.
use vex_lua.Base.{
  ℕ, ◌+◌, ◌≤◌, ◌<◌, ◌≡◌, ◌≢◌, refl, ap, subst, ◌∙◌, sym, ◌⊎◌, inl, inr, true, false, List, length,
  get_or, some, leb, ◌==◌, ==_iff, Bool-cases, ok, >>=-eq-ok, guard, arith, ok_injective,
  guard_passed,
}
use vex_lua.Base.Bytes.{read_le}
use vex_lua.Base.Slots.{length-write_slots}
use vex_lua.Value.Header.{CommonHeader, read_common_header, write_common_header}
use vex_lua.Value.Header.Layout.{IsHeader}
use vex_lua.Heap.{Heap, Platform, AllocationSpan, is_live}
use vex_lua.Heap.Memory.{load, store, length-load, load-store, store_else, load_congr}
use vex_lua.Heap.Resolve.{write_slots_bytes, load_bytes}
use vex_lua.Heap.Headers.{write_common_header_bytes, stored-IsHeap, read_common_header-IsHeader}
use vex_lua.Heap.Invariant.{frontier}
use vex_lua.Heap.Fresh.{apart_ne}
use vex_lua.Heap.Running.{Runs, moved-Runs}
use vex_lua.Table.Layout.{too_small, lift, with_mark_of}
use vex_lua.Table.Layout.RoundTrip.{lift-ok}
use vex_lua.Upvalue.Object.{Node, object_failed}
use vex_lua.Upvalue.Layout.{node_of, node_slots, write_upvalue, fits_words}
use vex_lua.Upvalue.Layout.RoundTrip.{IsStored, write_upvalue-IsStored, fits_words-FitsWords}
use vex_lua.Upvalue.OnHeap.{
  of_heap, of_layout, with_bytes, object_bytes, object_at, write_at, rewrite_at, HasRoom, kind_at,
}
use vex_lua.Upvalue.OnHeap.Resolves.{header-of-load}
use vex_lua.Upvalue.OnHeap.Found.{place_offset, object_bytes-IsPlace}
use vex_lua.Upvalue.OnHeap.Kept.{
  IsUpvalue, span_room, object_at-IsUpvalue, same-IsUpvalue, objects_apart, of_heap-ok,
  of_layout-ok,
}

pub write_upvalue_bytes :
    (buf out : List ℕ) (common : CommonHeader) (node : Node)
    → ((j : ℕ) → get_or buf j 0 < 256)
    → write_upvalue buf common node ≡ ok out
    → (length out ≡ length buf) × ((j : ℕ) → get_or out j 0 < 256)
unfolding write_upvalue
write_upvalue_bytes buf out common node bytes eq =
    let marked = with_mark_of (read_common_header buf) common in
    let (u, enough, rest) = >>=-eq-ok (guard (leb 64 (length buf)) (too_small (length buf))) _ eq in
    let (headed, wrote, last) = >>=-eq-ok (lift (write_common_header buf marked)) _ rest in
    let (len, small) =
      write_common_header_bytes buf headed marked bytes
        (lift-ok (write_common_header buf marked) wrote) in
    subst (λ b. (length b ≡ length buf) × ((j : ℕ) → get_or b j 0 < 256)) (ok_injective last)
      (
        length-write_slots headed (node_slots node) ∙ len,
        write_slots_bytes headed (node_slots node) small,
      )

-- Spans keep their room where their kinds stay.
pub room_kept :
    (h h' : Heap)
    → HasRoom h
    → ((offset : ℕ) (span : AllocationSpan)
        → h'.allocations offset ≡ some span
        → is_live span.metadata.state ≡ true
        → (64 ≤ span.size)
          ⊎ ((h.allocations offset ≡ some span)
              × (kind_at h'.memory offset ≡ kind_at h.memory offset)))
    → HasRoom h'
room_kept h h' room kept offset span there live object kind = elim (kept offset span there live) [
  | inl enough ↦ enough
  | inr (was, same) ↦ room offset span was live object (sym same ∙ kind)
]

pub kind_same :
    (h h' : Heap) (offset : ℕ)
    → ((j : ℕ) → offset ≤ j → j < offset + 16 → h'.memory j ≡ h.memory j)
    → kind_at h'.memory offset ≡ kind_at h.memory offset
kind_same h h' offset same = ap (λ b. read_le 2 b 0) (load_congr h'.memory h.memory offset 16 same)

-- The parts of a write back.
pub record IsRewritten (h h' : Heap) (ref : ℕ) (node : Node) : Type 0 where
  pub offset : ℕ
  pub span : AllocationSpan
  pub header : CommonHeader
  pub old : Node
  pub written : List ℕ
  pub was : IsUpvalue h ref offset span header old
  pub made : with_bytes h offset written ≡ h'
  pub stored : IsStored (load h.memory offset 64) written header node
  pub sixty_four : length written ≡ 64
  pub bytes : (j : ℕ) → get_or written j 0 < 256
  pub below : offset + 64 ≤ frontier h

own_mark :
    (buf : List ℕ) (header : CommonHeader)
    → read_common_header buf ≡ ok header
    → with_mark_of (read_common_header buf) header ≡ header
own_mark buf header eq =
    let same : (header.kind == header.kind) ≡ true = (==_iff _ _).1 refl in rw (eq, same) refl

pub rewrite_at-IsRewritten :
    (p : Platform) (h h' : Heap) (ref : ℕ) (node : Node)
    → Runs h
    → rewrite_at p h ref node ≡ ok h'
    → IsRewritten h h' ref node
unfolding rewrite_at write_at
rewrite_at-IsRewritten p h h' ref node r eq =
    let (u, fit, rest) = >>=-eq-ok (guard (fits_words node) object_failed) _ eq in
    let ((header, old), read, rest₁) = >>=-eq-ok (object_at p h ref) _ rest in
    let ((o, bytes), found, rest₂) = >>=-eq-ok (of_heap (object_bytes p h ref)) _ rest₁ in
    let (written, wrote, last) = >>=-eq-ok (of_layout (write_upvalue bytes header node)) _ rest₂ in
    let (offset, (span, was)) = object_at-IsUpvalue p h ref header old r read in
    let (loaded, below, (span', (header', place))) =
      object_bytes-IsPlace p h r ref o bytes (of_heap-ok (object_bytes p h ref) found) in
    let same : o ≡ offset = place_offset place ∙ sym (place_offset was.place) in
    let loaded' : bytes ≡ load h.memory offset 64 = loaded ∙ ap (λ k. load h.memory k 64) same in
    let buf = load h.memory offset 64 in
    let wrote' : write_upvalue buf header node ≡ ok written =
      subst (λ b. write_upvalue b header node ≡ ok written) loaded'
        (of_layout-ok (write_upvalue bytes header node) wrote) in
    let bytes_small = load_bytes h.memory offset 64 r.is_heap.are_bytes in
    let there : read_common_header buf ≡ ok header =
      header-of-load h.memory offset ∙ was.place.header_there in
    let mark = own_mark buf header there in
    let (len, small) = write_upvalue_bytes buf written header node bytes_small wrote' in
    record {
      offset = offset;
      span = span;
      header = header;
      old = old;
      written = written;
      was = was;
      made = ap (λ k. with_bytes h k written) (sym same) ∙ ok_injective last;
      stored =
          subst (λ x. IsStored buf written x node) mark
            (write_upvalue-IsStored buf written header node
              (fits_words-FitsWords node (guard_passed _ _ fit))
              (subst IsHeader (sym mark) (read_common_header-IsHeader buf header bytes_small there))
              wrote');
      sixty_four = len ∙ length-load h.memory offset 64;
      bytes = small;
      below = subst (λ k. k + 64 ≤ frontier h) same below;
    }

module _ (h : Heap) (ref : ℕ) (node : Node) (r : Runs h) (room : HasRoom h) where
  pub rewritten-Runs : {h' : Heap} → IsRewritten h h' ref node → Runs h'
  rewritten-Runs w = subst Runs w.made (
      moved-Runs h (with_bytes h w.offset w.written) refl refl refl
        (stored-IsHeap h w.offset w.written r.is_heap (omega (arith, w.below, w.sixty_four))
          w.bytes)
        r)

  else_same :
      {h' : Heap} (w : IsRewritten h h' ref node) (j : ℕ)
      → (j < w.offset) ⊎ (w.offset + 64 ≤ j)
      → (with_bytes h w.offset w.written).memory j ≡ h.memory j
  else_same w j out = store_else h.memory w.offset w.written j (ground (arith, out, w.sixty_four))

  pub rewritten-HasRoom : {h' : Heap} → IsRewritten h h' ref node → HasRoom h'
  rewritten-HasRoom w = subst HasRoom w.made (
      room_kept h (with_bytes h w.offset w.written) room λ offset span there live.
        elim (Bool-cases (offset == w.offset)) [
          | inl here ↦
              (let e = (==_iff offset w.offset).0 here in
                inl (
                  subst (λ s. 64 ≤ s.size)
                    (some_span (sym w.was.place.entered ∙ ap h.allocations (sym e) ∙ there))
                    (span_room room w.was)))
          | inr away ↦ inr (
            there,
            kind_same h (with_bytes h w.offset w.written) offset (other offset span w there away),
          )
        ])
    where
      some_span : {a b : AllocationSpan} → some a ≡ some b → a ≡ b
      some_span eq = cc

      other :
          {h' : Heap} (offset : ℕ) (span : AllocationSpan) (w : IsRewritten h h' ref node)
          → h.allocations offset ≡ some span
          → (offset == w.offset) ≡ false
          → (j : ℕ) → offset ≤ j
          → j < offset + 16
          → (with_bytes h w.offset w.written).memory j ≡ h.memory j
      other offset span w there away j lo hi =
          let s = r.is_heap.spans offset span there in
          let ne : offset ≢ w.offset = ground (arith, away) in
          else_same w j
            (elim (apart_ne h offset w.offset span w.span r.is_heap there w.was.place.entered ne) [
              | inl before ↦ inl (omega (arith, before, hi, s.some_bytes, s.size_aligned))
              | inr after ↦ inr (omega (arith, after, lo, span_room room w.was))
            ])

  -- The object is there with its new fields.
  pub rewritten_self :
      {h' : Heap} (w : IsRewritten h h' ref node) → IsUpvalue h' ref w.offset w.span w.header node
  rewritten_self w =
      let memory = store h.memory w.offset w.written in
      let loaded : load memory w.offset 64 ≡ w.written =
        subst (λ n. load memory w.offset n ≡ w.written) w.sixty_four
          (load-store h.memory w.offset w.written) in
      subst (λ x. IsUpvalue x ref w.offset w.span w.header node) w.made
        (record {
          place = record {
            address = w.was.place.address;
            decoded = w.was.place.decoded;
            aligned = w.was.place.aligned;
            encoded = w.was.place.encoded;
            some_offset = w.was.place.some_offset;
            entered = w.was.place.entered;
            live = w.was.place.live;
            object = w.was.place.object;
            reserved = w.was.place.reserved;
            header_there =
                sym (header-of-load memory w.offset)
                ∙ ap read_common_header loaded
                ∙ w.stored.header;
            valid = w.was.place.valid;
          };
          kind = w.was.kind;
          fields = ap node_of loaded ∙ w.stored.fields;
        })

  -- Every other object is as it was.
  pub rewritten-other :
      {h' : Heap} {offset : ℕ} {span : AllocationSpan} {header : CommonHeader} {other : Node}
      (r' : ℕ)
      → IsRewritten h h' ref node
      → r' ≢ ref
      → IsUpvalue h r' offset span header other
      → IsUpvalue h' r' offset span header other
  rewritten-other {h'} {offset} {span} {header} {other} r' w ne v =
      subst (λ x. IsUpvalue x r' offset span header other) w.made
        (same-IsUpvalue h (with_bytes h w.offset w.written) r' offset span header other refl refl
          refl
          (λ j lo hi. else_same w j (elim (objects_apart r room v w.was ne) [
            | inl before ↦ inl (omega (arith, before, hi))
            | inr after ↦ inr (omega (arith, after, lo))
          ]))
          v)
