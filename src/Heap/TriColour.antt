-- ===== src/Heap/TriColour.antt =====
-- The write barrier keeps black objects from pointing at white ones.
use vex_lua.Base.{
  ℕ, ◌+◌, ◌^◌, ◌<◌, ◌≡◌, refl, subst, ◌∙◌, sym, Among, ◌⊎◌, inl, inr, true, false, Bool-cases,
  ltb→lt, passes_below-true, passes_below, bit_or, Result, ok, >>=-eq-ok, ltb, arith, ok_injective,
}
use vex_lua.Base.Bits.{and_not}
use vex_lua.Value.Header.{
  CommonHeader, has, with_bits, without, mark_black, mark_gray, mark_remembered,
}
use vex_lua.Value.Header.Flags.{has-with_bits-without}
use vex_lua.Value.Header.Layout.{IsHeader}
use vex_lua.Heap.{Heap, HeapError, Platform, GcController}
use vex_lua.Heap.Access.{header_at_offset, decode_heap_ref, offset_for_address, write_header}
use vex_lua.Heap.Barrier.{barrier, shade_parent, grayed, requeued, marking}
use vex_lua.Heap.Invariant.{IsHeap}
use vex_lua.Heap.Kept.{moved-IsSpan}
use vex_lua.Heap.Headers.{write_header_lem, header_at_offset-IsHeader}
use vex_lua.Heap.Queues.{append_unique_ref_lem}

grayed_not_black : (header : CommonHeader) → has (grayed header).mark mark_black ≡ false
unfolding grayed has
grayed_not_black header = ground (
  arith,
  (has-with_bits-without (with_bits header.mark (bit_or mark_gray mark_remembered)) mark_black).1,
)

grayed_mark : (mark : ℕ) → mark < 2 ^ 8 → without (with_bits mark 36) 8 < 2 ^ 8
unfolding with_bits without and_not passes_below
grayed_mark mark small =
    ltb→lt _ _ (passes_below-true 256 (λ m. ltb (and_not (bit_or m 36) 8) 256) mark refl small)

grayed_mark_bits :
    (mark : ℕ)
    → mark < 2 ^ 8
    → (has (without (with_bits mark 36) 8) mark_gray ≡ true)
      × (has (without (with_bits mark 36) 8) mark_remembered ≡ true)
unfolding has with_bits without and_not passes_below
grayed_mark_bits mark small = (
  passes_below-true 256 (λ m. has (and_not (bit_or m 36) 8) mark_gray) mark refl small,
  passes_below-true 256 (λ m. has (and_not (bit_or m 36) 8) mark_remembered) mark refl small,
)

-- The marks of a header that say it is grey and remembered, and not black.
abbrev pub IsGray : CommonHeader → Type 0
IsGray header =
    (has header.mark mark_black ≡ false)
    × (has header.mark mark_gray ≡ true)
    × (has header.mark mark_remembered ≡ true)

pub grayed-IsGray : (header : CommonHeader) → IsHeader header → IsGray (grayed header)
unfolding grayed
grayed-IsGray header v =
    let (gray, remembered) = grayed_mark_bits header.mark v.mark_fits in
    (grayed_not_black header, gray, remembered)

pub grayed-IsHeader : (header : CommonHeader) → IsHeader header → IsHeader (grayed header)
unfolding grayed
grayed-IsHeader header v = record {
  kind_fits = v.kind_fits;
  mark_fits = grayed_mark header.mark v.mark_fits;
  flags_fits = v.flags_fits;
  size_fits = v.size_fits;
  version_fits = v.version_fits;
  aux_fits = v.aux_fits;
}

-- The parent is grey, remembered, and waits in both queues.
pub record IsShaded (p : Platform) (h' : Heap) (parent parent_ref : ℕ) (header : CommonHeader)
    : Type 0 where
  pub is_heap : IsHeap h'
  pub header_there : header_at_offset p h' parent ≡ ok (grayed header)
  pub gray : IsGray (grayed header)
  pub in_gray_again : Among h'.gc.gray_again parent_ref
  pub in_remembered : Among h'.gc.remembered parent_ref

-- The collector's state says nothing of spans and headers.
abbrev pub with_gc : Heap → GcController → Heap
with_gc h gc = record h { gc = gc }

pub with_gc-IsHeap : (h : Heap) (gc : GcController) → IsHeap h → IsHeap (with_gc h gc)
with_gc-IsHeap h gc v = record {
  spans = λ k s eq. moved-IsSpan h (with_gc h gc) k s (omega arith) (λ c. c) (v.spans k s eq);
  apart = v.apart;
  are_pages = v.are_pages;
  frontier_below = v.frontier_below;
  next_aligned = v.next_aligned;
  next_positive = v.next_positive;
  next_word = v.next_word;
  size_aligned = v.size_aligned;
  clean = v.clean;
  are_bytes = v.are_bytes;
}

with_gc-header :
    (p : Platform) (h : Heap) (gc : GcController) (offset : ℕ)
    → header_at_offset p (with_gc h gc) offset ≡ header_at_offset p h offset
unfolding header_at_offset
with_gc-header p h gc offset = refl

requeued-IsShaded :
    (p : Platform) (h h₁ : Heap) (parent parent_ref : ℕ) (header : CommonHeader)
    → IsHeap h
    → h.next_page + 16 < 2 ^ 64
    → IsHeader header
    → write_header p h parent (grayed header) ≡ ok h₁
    → IsShaded p (record h₁ { gc = requeued h₁.gc parent_ref }) parent parent_ref header
unfolding requeued
requeued-IsShaded p h h₁ parent parent_ref header v small fits wrote =
    let (v₁, there, same, others) =
      write_header_lem p h h₁ parent (grayed header) v small (grayed-IsHeader header fits) wrote in
    record {
      is_heap = with_gc-IsHeap h₁ (requeued h₁.gc parent_ref) v₁;
      header_there = with_gc-header p h₁ (requeued h₁.gc parent_ref) parent ∙ there;
      gray = grayed-IsGray header fits;
      in_gray_again =
          ((append_unique_ref_lem h₁.gc.gray_again parent_ref).0 parent_ref).1 (inr refl);
      in_remembered =
          ((append_unique_ref_lem h₁.gc.remembered parent_ref).0 parent_ref).1 (inr refl);
    }

shade_parent-cases :
    (p : Platform) (h h' : Heap) (parent parent_ref child_ref : ℕ) (header : CommonHeader)
    → IsHeap h
    → h.next_page + 16 < 2 ^ 64
    → IsHeader header
    → shade_parent p h parent header parent_ref child_ref ≡ ok h'
    → (child_address child : ℕ) (child_header : CommonHeader)
    → decode_heap_ref p h child_ref ≡ ok child_address
    → offset_for_address p h child_address ≡ ok child
    → header_at_offset p h child ≡ ok child_header
    → ((has child_header.mark h.gc.current_white ≡ false) × (h' ≡ h))
      ⊎ IsShaded p h' parent parent_ref header
unfolding shade_parent
shade_parent-cases p h h' parent parent_ref child_ref header v small fits eq child_address child
      child_header decoded at read =
    let rest = rw (shade_parent, decoded, at, read) at eq in
    elim (Bool-cases (has child_header.mark h.gc.current_white)) [
      | inr white ↦ inl (white, sym (ok_injective (rw white at rest)))
      | inl white ↦
          (let (h₁, wrote, last) =
              >>=-eq-ok (write_header p h parent (grayed header)) _ (rw white at rest) in
            inr (
              subst (λ x. IsShaded p x parent parent_ref header) (ok_injective last)
                (requeued-IsShaded p h h₁ parent parent_ref header v small fits wrote)))
    ]

-- What a barrier does while the collector marks: nothing, where the parent is not black or the child
-- is not white, and otherwise the parent is shaded.
barrier-cases :
    (p : Platform) (h h' : Heap) (parent parent_ref child_ref : ℕ)
    → IsHeap h
    → h.next_page + 16 < 2 ^ 64
    → marking h.gc.phase ≡ true
    → barrier p h parent parent_ref child_ref ≡ ok h'
    → (child_address child : ℕ) (child_header : CommonHeader)
    → decode_heap_ref p h child_ref ≡ ok child_address
    → offset_for_address p h child_address ≡ ok child
    → header_at_offset p h child ≡ ok child_header
    → (header : CommonHeader) × (header_at_offset p h parent ≡ ok header)
      × (((has header.mark mark_black ≡ false) × (h' ≡ h))
          ⊎ (((has child_header.mark h.gc.current_white ≡ false) × (h' ≡ h))
              ⊎ IsShaded p h' parent parent_ref header))
unfolding barrier
barrier-cases p h h' parent parent_ref child_ref v small marks eq child_address child child_header
      decoded at read =
    let (header, there, rest) =
      >>=-eq-ok (header_at_offset p h parent) _ (rw (barrier, marks) at eq) in
    (
      header,
      there,
      elim (Bool-cases (has header.mark mark_black)) [
        | inr white ↦ inl (white, sym (ok_injective (rw white at rest)))
        | inl black ↦ inr (
            shade_parent-cases p h h' parent parent_ref child_ref header v small
              (header_at_offset-IsHeader p h parent header v small there) (rw black at rest)
              child_address child child_header decoded at read)
      ],
    )

-- After the barrier of a store into an object, made while the collector marks, the parent is not
-- black or the child is not of the current white, and the heap is well formed. Either the barrier
-- changed nothing, or the parent's header says that it is grey and remembered and not black, and the
-- parent waits in both queues of the atomic phase.
pub barrier_lem :
    (p : Platform) (h h' : Heap) (parent parent_ref child_ref : ℕ)
    → IsHeap h
    → h.next_page + 16 < 2 ^ 64
    → marking h.gc.phase ≡ true
    → barrier p h parent parent_ref child_ref ≡ ok h'
    → (child_address child : ℕ) (child_header : CommonHeader)
    → decode_heap_ref p h child_ref ≡ ok child_address
    → offset_for_address p h child_address ≡ ok child
    → header_at_offset p h child ≡ ok child_header
    → IsHeap h'
      × ((after : CommonHeader)
          → header_at_offset p h' parent ≡ ok after
          → (has after.mark mark_black ≡ false)
            ⊎ (has child_header.mark h.gc.current_white ≡ false))
      × ((h' ≡ h)
          ⊎ (((after : CommonHeader) × (header_at_offset p h' parent ≡ ok after) × IsGray after)
              × Among h'.gc.gray_again parent_ref
              × Among h'.gc.remembered parent_ref))
barrier_lem p h h' parent parent_ref child_ref v small marks eq child_address child child_header
      decoded at read =
    let (header, there, cases) =
      barrier-cases p h h' parent parent_ref child_ref v small marks eq child_address child
        child_header decoded at read in
    elim cases [
      | inl (not_black, same) ↦ (
        subst IsHeap (sym same) v,
        (λ after now. inl (
            subst (λ x. has x.mark mark_black ≡ false)
              (same_header there (subst (λ x. header_at_offset p x parent ≡ ok after) same now))
              not_black)),
        inl same,
      )
      | inr (inl (not_white, same)) ↦
          (subst IsHeap (sym same) v, (λ after now. inr not_white), inl same)
      | inr (inr shaded) ↦ (
        shaded.is_heap,
        (λ after now. inl (
            subst (λ x. has x.mark mark_black ≡ false) (same_header shaded.header_there now)
              (grayed_not_black header))),
        inr (
          (grayed header, shaded.header_there, shaded.gray),
          shaded.in_gray_again,
          shaded.in_remembered,
        ),
      )
    ]
  where
    same_header :
        {r : Result HeapError CommonHeader} {a b : CommonHeader} → r ≡ ok a → r ≡ ok b → a ≡ b
    same_header p q = cc
