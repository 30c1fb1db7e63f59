-- ===== src/Upvalue/OnHeap/Barred.antt =====
-- The write barrier changes a mark at most: every upvalue object stays.
use vex_lua.Base.{
  ℕ, ◌+◌, ◌≤◌, ◌<◌, ◌≡◌, ◌≢◌, refl, ap, subst, ◌∙◌, sym, ◌⊎◌, inl, inr, false, some, ◌==◌, ==_iff,
  Bool-cases, ok, arith, ok_injective,
}
use vex_lua.Value.Header.{CommonHeader, read_common_header, validate}
use vex_lua.Heap.{Heap, Platform, AllocationSpan}
use vex_lua.Heap.Memory.{load, store_else}
use vex_lua.Heap.Access.{header_at_offset, write_header}
use vex_lua.Heap.Barrier.{grayed, requeued}
use vex_lua.Heap.Headers.{write_header_lem, write_header-parts, header_at_offset-IsHeader}
use vex_lua.Heap.Fresh.{apart_ne}
use vex_lua.Heap.TriColour.{with_gc, grayed-IsHeader}
use vex_lua.Heap.Running.{Runs, word_room, moved-Runs}
use vex_lua.Heap.Running.Barriers.{shaded-Runs}
use vex_lua.Upvalue.Object.{Node}
use vex_lua.Upvalue.OnHeap.{HasRoom, kind_at}
use vex_lua.Upvalue.OnHeap.Found.{IsPlace, header_at_offset-load}
use vex_lua.Upvalue.OnHeap.Kept.{
  IsUpvalue, span_room, headed-IsUpvalue, same-IsUpvalue, kind_at-header,
}
use vex_lua.Upvalue.OnHeap.Written.{room_kept, kind_same}

-- A heap with another header at an object, of the same kind.
pub record IsMarked (h h' : Heap) (parent : ℕ) (header header' : CommonHeader) : Type 0 where
  pub runs : Runs h'
  pub same_base : h'.base ≡ h.base
  pub same_native : h'.native ≡ h.native
  pub same_spans : h'.allocations ≡ h.allocations
  pub before : read_common_header (load h.memory parent 16) ≡ ok header
  pub after : read_common_header (load h'.memory parent 16) ≡ ok header'
  pub same_kind : header'.kind ≡ header.kind
  pub still_valid : validate header ≡ ok tt → validate header' ≡ ok tt
  pub other_bytes : (j : ℕ) → (j < parent) ⊎ (parent + 16 ≤ j) → h'.memory j ≡ h.memory j

pub grayed-IsMarked :
    (p : Platform) (h h₁ : Heap) (parent parent_ref : ℕ) (header : CommonHeader)
    → Runs h
    → header_at_offset p h parent ≡ ok header
    → write_header p h parent (grayed header) ≡ ok h₁
    → IsMarked h (with_gc h₁ (requeued h₁.gc parent_ref)) parent header (grayed header)
unfolding grayed validate
grayed-IsMarked p h h₁ parent parent_ref header r there wrote =
    let fits =
      grayed-IsHeader header
        (header_at_offset-IsHeader p h parent header r.is_heap (word_room h r) there) in
    let (v, back, same, others) =
      write_header_lem p h h₁ parent (grayed header) r.is_heap (word_room h r) fits wrote in
    let r₁ : Runs h₁ =
      moved-Runs h h₁ (ap (λ x. x.next_page) same) (ap (λ x. x.native) same)
        (ap (λ x. x.page_size) same) v r in
    let (written, w, resolved) =
      write_header-parts p h h₁ parent (grayed header) r.is_heap (word_room h r) wrote in
    record {
      runs = shaded-Runs p h h₁ parent parent_ref header r there wrote;
      same_base = ap (λ x. x.base) same;
      same_native = ap (λ x. x.native) same;
      same_spans = ap (λ x. x.allocations) same;
      before = header_at_offset-load p h r parent header there;
      after = header_at_offset-load p h₁ r₁ parent (grayed header) back;
      same_kind = refl;
      still_valid = λ e. e;
      other_bytes = λ j out.
          ap (λ x. x.memory j) (sym w.made)
          ∙ store_else h.memory parent written j (ground (arith, out, w.sixteen));
    }

module _ (h h' : Heap) (ref parent : ℕ) (span : AllocationSpan) (old header header' : CommonHeader)
    (r : Runs h) (room : HasRoom h) (at : IsPlace h ref parent span old)
    (m : IsMarked h h' parent header header') where
  apart_bytes :
      (offset : ℕ) (s : AllocationSpan)
      → h.allocations offset ≡ some s
      → (offset == parent) ≡ false
      → (n : ℕ) → n ≤ s.size
      → (j : ℕ) → offset ≤ j
      → j < offset + n
      → h'.memory j ≡ h.memory j
  apart_bytes offset s there away n le j lo hi =
      let v = r.is_heap.spans parent span at.entered in
      let ne : offset ≢ parent = ground (arith, away) in
      m.other_bytes j (elim (apart_ne h offset parent s span r.is_heap there at.entered ne) [
        | inl before ↦ inl (omega (arith, before, hi, le))
        | inr after ↦ inr (omega (arith, after, lo, v.some_bytes, v.size_aligned))
      ])

  pub marked-HasRoom : HasRoom h'
  marked-HasRoom = room_kept h h' room λ offset s there live.
      let was = sym (ap (λ a. a offset) m.same_spans) ∙ there in
      let v = r.is_heap.spans offset s was in
      inr (
        was,
        elim (Bool-cases (offset == parent)) [
          | inl here ↦
              subst (λ k. kind_at h'.memory k ≡ kind_at h.memory k)
                (sym ((==_iff offset parent).0 here))
                (kind_at-header h'.memory parent header' m.after
                  ∙ m.same_kind
                  ∙ sym (kind_at-header h.memory parent header m.before))
          | inr away ↦
              kind_same h h' offset
                (apart_bytes offset s was away 16 (omega (arith, v.some_bytes, v.size_aligned)))
        ],
      )

  pub marked-IsUpvalue :
      (q offset : ℕ) (s : AllocationSpan) (hd : CommonHeader) (node : Node)
      → IsUpvalue h q offset s hd node
      → (hd' : CommonHeader) × IsUpvalue h' q offset s hd' node
  marked-IsUpvalue q offset s hd node v = elim (Bool-cases (offset == parent)) [
    | inl here ↦
        (let e = (==_iff offset parent).0 here in
          let same : header ≡ hd = ok_injective (
            sym m.before
            ∙ ap (λ k. read_common_header (load h.memory k 16)) (sym e)
            ∙ v.place.header_there) in
          (
            header',
            headed-IsUpvalue h h' q offset s hd header' node m.same_base m.same_native
                (ap (λ a. a offset) m.same_spans)
                (ap (λ k. read_common_header (load h'.memory k 16)) e ∙ m.after)
                (m.still_valid (ap validate same ∙ v.place.valid))
                (m.same_kind ∙ ap (λ x. x.kind) same ∙ v.kind)
                (λ j lo hi. m.other_bytes j (inr (omega (arith, lo, e)))) v,
          ))
    | inr away ↦ (
      hd,
      same-IsUpvalue h h' q offset s hd node m.same_base m.same_native
          (ap (λ a. a offset) m.same_spans)
          (apart_bytes offset s v.place.entered away 64 (span_room room v)) v,
    )
  ]
