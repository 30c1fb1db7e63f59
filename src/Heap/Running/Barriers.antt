-- ===== src/Heap/Running/Barriers.antt =====
-- The write barriers keep a heap running.
use vex_lua.Base.{
  ℕ, ◌≡◌, refl, ap, subst, ◌⊎◌, inl, inr, Bool, true, false, ◌||◌, Bool-cases, Option-cases, Result,
  ok, >>=-eq-ok, ◌==◌, if◌then◌else◌, ok_injective,
}
use vex_lua.Value.TValue.{heap_ref}
use vex_lua.Value.Header.{CommonHeader, has, mark_black}
use vex_lua.Heap.{Heap, HeapError, Platform}
use vex_lua.Heap.Access.{
  header_at_offset, decode_heap_ref, offset_for_address, write_header, ref_for_offset,
}
use vex_lua.Heap.Controller.{is_pause}
use vex_lua.Heap.Barrier.{
  barrier, shade_parent, grayed, requeued, marking, write_barrier_by_offset,
  write_barrier_value_by_offset, remember_weak_owner_by_offset,
}
use vex_lua.Heap.Headers.{write_header_lem, header_at_offset-IsHeader}
use vex_lua.Heap.TriColour.{with_gc, with_gc-IsHeap, grayed-IsHeader}
use vex_lua.Heap.Running.{Runs, moved-Runs, word_room}

pub shaded-Runs :
    (p : Platform) (h h₁ : Heap) (parent parent_ref : ℕ) (header : CommonHeader)
    → Runs h
    → header_at_offset p h parent ≡ ok header
    → write_header p h parent (grayed header) ≡ ok h₁
    → Runs (with_gc h₁ (requeued h₁.gc parent_ref))
shaded-Runs p h h₁ parent parent_ref header r there wrote =
    let fits =
      grayed-IsHeader header
        (header_at_offset-IsHeader p h parent header r.is_heap (word_room h r) there) in
    let (v, back, same, others) =
      write_header_lem p h h₁ parent (grayed header) r.is_heap (word_room h r) fits wrote in
    moved-Runs h _ (ap (λ x. x.next_page) same) (ap (λ x. x.native) same)
      (ap (λ x. x.page_size) same) (with_gc-IsHeap h₁ (requeued h₁.gc parent_ref) v) r

-- What a barrier at a parent does: nothing, or the parent's header is grey and it waits in queues.
abbrev pub Shades : Platform → Heap → Heap → ℕ → Type 0
Shades p h h' parent =
    (h ≡ h')
    ⊎ ((header : CommonHeader) × (header_at_offset p h parent ≡ ok header)
        × ((h₁ : Heap) × (write_header p h parent (grayed header) ≡ ok h₁)
            × ((parent_ref : ℕ) × (with_gc h₁ (requeued h₁.gc parent_ref) ≡ h'))))

shade_parent-Shades :
    (p : Platform) (h h' : Heap) (parent parent_ref child_ref : ℕ) (header : CommonHeader)
    → header_at_offset p h parent ≡ ok header
    → shade_parent p h parent header parent_ref child_ref ≡ ok h'
    → Shades p h h' parent
unfolding shade_parent
shade_parent-Shades p h h' parent parent_ref child_ref header there eq =
    let (address, decoded, rest) = >>=-eq-ok (decode_heap_ref p h child_ref) _ eq in
    let (child, found, rest') = >>=-eq-ok (offset_for_address p h address) _ rest in
    let (child_header, read, last) = >>=-eq-ok (header_at_offset p h child) _ rest' in
    elim (Bool-cases (has child_header.mark h.gc.current_white)) [
      | inr dark ↦ inl (ok_injective (rw dark at last))
      | inl white ↦
          (let (h₁, wrote, done) =
              >>=-eq-ok (write_header p h parent (grayed header)) _ (rw white at last) in
            inr (header, there, (h₁, wrote, (parent_ref, ok_injective done))))
    ]

barrier-Shades :
    (p : Platform) (h h' : Heap) (parent parent_ref child_ref : ℕ)
    → barrier p h parent parent_ref child_ref ≡ ok h'
    → Shades p h h' parent
unfolding barrier
barrier-Shades p h h' parent parent_ref child_ref eq = elim (Bool-cases (marking h.gc.phase)) [
  | inr idle ↦ inl (ok_injective (rw (barrier, idle) at eq))
  | inl marks ↦
      (let (header, there, rest) =
          >>=-eq-ok (header_at_offset p h parent) _ (rw (barrier, marks) at eq) in
        elim (Bool-cases (has header.mark mark_black)) [
          | inr light ↦ inl (ok_injective (rw light at rest))
          | inl black ↦
              shade_parent-Shades p h h' parent parent_ref child_ref header there (rw black at rest)
        ])
]

write_barrier_by_offset-Shades :
    (p : Platform) (h h' : Heap) (parent child_ref : ℕ)
    → write_barrier_by_offset p h parent child_ref ≡ ok h'
    → Shades p h h' parent
unfolding write_barrier_by_offset
write_barrier_by_offset-Shades p h h' parent child_ref eq =
    elim (Bool-cases (parent == 0 || child_ref == 0)) [
      | inl nothing ↦ inl (ok_injective (rw (write_barrier_by_offset, nothing) at eq))
      | inr both ↦
          (let (parent_ref, encoded, rest) =
              >>=-eq-ok (ref_for_offset p h parent) _ (rw (write_barrier_by_offset, both) at eq) in
            barrier-Shades p h h' parent parent_ref child_ref rest)
    ]

either :
    {z : Heap} (b : Bool) (x y : Result HeapError Heap)
    → (if b then x else y) ≡ ok z
    → (x ≡ ok z) ⊎ (y ≡ ok z)
either true x y eq = inl eq
either false x y eq = inr eq

pub write_barrier_value_by_offset-Shades :
    (p : Platform) (h h' : Heap) (parent slot_value : ℕ)
    → write_barrier_value_by_offset p h parent slot_value ≡ ok h'
    → Shades p h h' parent
unfolding write_barrier_value_by_offset
write_barrier_value_by_offset-Shades p h h' parent slot_value eq =
    elim (Option-cases (heap_ref slot_value)) [
      | inl plain ↦ inl (ok_injective (rw (write_barrier_value_by_offset, plain) at eq))
      | inr (child_ref, child) ↦
          elim (either (child_ref == 0) _ _ (rw (write_barrier_value_by_offset, child) at eq)) [
            | inl same ↦ inl (ok_injective same)
            | inr rest ↦ write_barrier_by_offset-Shades p h h' parent child_ref rest
          ]
    ]

pub write_barrier_value_by_offset-Runs :
    (p : Platform) (h h' : Heap) (parent slot_value : ℕ)
    → Runs h
    → write_barrier_value_by_offset p h parent slot_value ≡ ok h'
    → Runs h'
write_barrier_value_by_offset-Runs p h h' parent slot_value r eq =
    elim (write_barrier_value_by_offset-Shades p h h' parent slot_value eq) [
      | inl same ↦ subst Runs same r
      | inr (header, there, (h₁, wrote, (parent_ref, made))) ↦
          subst Runs made (shaded-Runs p h h₁ parent parent_ref header r there wrote)
    ]

pub remember_weak-Runs :
    (p : Platform) (h h' : Heap) (offset : ℕ)
    → Runs h
    → remember_weak_owner_by_offset p h offset ≡ ok h'
    → Runs h'
unfolding remember_weak_owner_by_offset
remember_weak-Runs p h h' offset r eq = elim (Bool-cases (offset == 0 || is_pause h.gc.phase)) [
  | inl nothing ↦ subst Runs (ok_injective (rw (remember_weak_owner_by_offset, nothing) at eq)) r
  | inr both ↦
      (let (ref, encoded, rest) =
          >>=-eq-ok (ref_for_offset p h offset) _
            (rw (remember_weak_owner_by_offset, both) at eq) in
        subst Runs (ok_injective rest)
          (moved-Runs h _ refl refl refl (with_gc-IsHeap h _ r.is_heap) r))
]
