-- ===== src/Heap/Fresh.antt =====
-- What a fresh allocation is, in a free span and at the end of the last page.
use vex_lua.Base.{
  ℕ, ◌+◌, ◌^◌, ◌%◌, ◌≤◌, ◌<◌, ◌≡◌, ◌≢◌, refl, ap, ◌∙◌, sym, List, some, ◌⊎◌, inl, inr, true, false,
  Result, ok, err, Bool-cases, ltb→lt, ltb, arith,
}
use vex_lua.Heap.{Heap, HeapError, Page, Arena, Allocation, AllocationSpan, SpanMetadata, is_free}
use vex_lua.Heap.Memory.{clear_zero, clear_else}
use vex_lua.Heap.Pages.{arena_bytes}
use vex_lua.Heap.Span.{with_span, with_reused, reused_at, placed_at}
use vex_lua.Heap.Invariant.{frontier, end_of, IsHeap, insert_self, insert_ne, last-IsPage}
use vex_lua.Heap.Kept.{IsPlaced}
use vex_lua.Heap.Appended.{HasRoom, frontier-with_span}
use vex_lua.Heap.Best.{IsCandidate}

-- The allocation is aligned, has the bytes asked for, all zero and inside the arena, overlaps no
-- span in use, and nothing else has changed.
pub record IsFresh (h h' : Heap) (size : ℕ) (a : Allocation) : Type 0 where
  pub not_zero : 16 ≤ a.offset
  pub aligned : a.offset % 16 ≡ 0
  pub enough : size ≤ a.size
  pub address : a.address ≡ (h.base + a.offset) % 2 ^ 64
  pub in_arena : a.offset + a.size ≤ h.native.reserved_size
  pub zeroed : (j : ℕ) → (a.offset ≤ j) × (j < a.offset + a.size) → h'.memory j ≡ 0
  pub entered : (s : AllocationSpan) × (h'.allocations a.offset ≡ some s) × (s.size ≡ a.size)
  pub apart :
      (k : ℕ) (s : AllocationSpan)
      → h.allocations k ≡ some s
      → is_free s.metadata.state ≡ false
      → (k + s.size ≤ a.offset) ⊎ (a.offset + a.size ≤ k)
  pub other_spans : (k : ℕ) → k ≢ a.offset → h'.allocations k ≡ h.allocations k
  pub other_bytes : (j : ℕ) → (j < a.offset) ⊎ (a.offset + a.size ≤ j) → h'.memory j ≡ h.memory j
  pub same_base : h'.base ≡ h.base
  pub same_native : h'.native ≡ h.native
  pub same_size : h'.page_size ≡ h.page_size
  pub next_bound :
      (h'.next_page ≤ h.next_page) ⊎ (h'.next_page ≤ h.native.reserved_size + h.page_size)
  pub below : a.offset + a.size ≤ frontier h'

-- Of an allocation of `size` bytes: a fresh one, or an error that leaves the spans and the memory.
abbrev pub IsOutcome : Heap → ℕ → Heap × Result HeapError Allocation → Type 0
IsOutcome h size (h', err e) = IsHeap h' × (h'.allocations ≡ h.allocations) × (h'.memory ≡ h.memory)
IsOutcome h size (h', ok a) = IsHeap h' × IsFresh h h' size a

-- The arena gives out bytes that it has reserved.
pub arena_bytes-Reserved :
    (arena : Arena) (memory : ℕ → ℕ) (offset size : ℕ) (bytes : List ℕ)
    → 0 < size
    → offset + size < 2 ^ 64
    → arena_bytes arena memory offset size ≡ ok bytes
    → offset + size ≤ arena.reserved_size
unfolding arena_bytes
arena_bytes-Reserved arena memory offset size bytes positive small eq = ground (arith, eq, positive)

-- Spans under different offsets lie apart.
pub apart_ne :
    (h : Heap) (j k : ℕ) (s t : AllocationSpan)
    → IsHeap h
    → h.allocations j ≡ some s
    → h.allocations k ≡ some t
    → j ≢ k
    → (j + s.size ≤ k) ⊎ (k + t.size ≤ j)
apart_ne h j k s t v ej ek ne = elim (Bool-cases (ltb j k)) [
  | inl lt ↦ inl (v.apart j k s t ej ek (ltb→lt j k lt))
  | inr ge ↦ inr (v.apart k j t s ek ej (ground (arith, ge, ne)))
]

used_apart :
    {size : ℕ} (h : Heap) (offset k : ℕ) (span t : AllocationSpan)
    → IsHeap h
    → IsCandidate h.allocations size offset span
    → h.allocations k ≡ some t
    → is_free t.metadata.state ≡ false
    → (k + t.size ≤ offset) ⊎ (offset + span.size ≤ k)
used_apart h offset k span t v c there used = apart_ne h k offset t span v there c.here λ same.
    let eq : some span ≡ some t = sym c.here ∙ ap h.allocations (sym same) ∙ there in
    clash span t c.free used eq
  where
    clash :
        (x y : AllocationSpan)
        → is_free x.metadata.state ≡ true
        → is_free y.metadata.state ≡ false
        → some x ≡ some y
        → ⊥
    clash x y free used eq = cc

pub reused-IsFresh :
    (h : Heap) (size offset : ℕ) (span : AllocationSpan) (m : SpanMetadata)
    → IsHeap h
    → IsCandidate h.allocations size offset span
    → span.start + span.size ≤ h.native.reserved_size
    → IsFresh h (with_reused h offset span m) size (reused_at h offset span)
unfolding with_reused
reused-IsFresh h size offset span m v c reserved =
    let s = v.spans offset span c.here in
    record {
      not_zero = s.not_zero;
      aligned = s.aligned;
      enough = c.room;
      address = ap (λ x. (h.base + x) % 2 ^ 64) s.at_start;
      in_arena = omega (arith, s.at_start, reserved);
      zeroed = λ j inside.
          clear_zero h.memory span.start span.size j (omega (arith, s.at_start, inside));
      entered = (_, insert_self offset _ h.allocations, refl);
      apart = λ k t there used. used_apart h offset k span t v c there used;
      other_spans = λ k ne. insert_ne offset _ h.allocations k ne;
      other_bytes =
          λ j out. clear_else h.memory span.start span.size j (ground (arith, s.at_start, out));
      same_base = refl;
      same_native = refl;
      same_size = refl;
      next_bound = inl (omega arith);
      below = s.below;
    }

pub placed-IsFresh :
    (h h₁ : Heap) (page : Page) (size n : ℕ) (m : SpanMetadata)
    → IsPlaced h n (h₁, page)
    → HasRoom h₁ page n
    → size ≤ n
    → page.start + page.used + n ≤ h₁.native.reserved_size
    → IsFresh h
        (with_span h₁ (page.start + page.used) n m)
        size
        (placed_at h₁ (page.start + page.used) n)
unfolding with_span
placed-IsFresh h h₁ page size n m placed r enough reserved =
    let v = r.is_heap in
    let p = last-IsPage h₁.pages page h₁.next_page (frontier h₁) v.are_pages r.is_last in
    let at = ap end_of r.is_last in
    let native = ap (λ a. a.reserved_size) placed.same_native in
    let was = λ (k : ℕ). ap (λ a. a k) placed.same_spans in
    record {
      not_zero = omega (arith, p.not_zero);
      aligned = omega (arith, p.start_aligned, p.used_aligned);
      enough = enough;
      address = ap (λ b. (b + (page.start + page.used)) % 2 ^ 64) placed.same_base;
      in_arena = omega (arith, reserved, native);
      zeroed = λ j inside. v.clean j (omega (arith, at, inside));
      entered = (_, insert_self (page.start + page.used) _ h₁.allocations, refl);
      apart = λ k t there used. inl (omega (arith, (v.spans k t (was k ∙ there)).below, at));
      other_spans = λ k ne. insert_ne (page.start + page.used) _ h₁.allocations k ne ∙ was k;
      other_bytes = λ j out. ap (λ a. a j) placed.same_memory;
      same_base = placed.same_base;
      same_native = placed.same_native;
      same_size = placed.same_size;
      next_bound = elim placed.next_bound [
        | inl old ↦ inl old
        | inr new ↦ inr (omega (arith, new, reserved, native))
      ];
      below = omega (arith, (frontier-with_span h₁ page n m r).1);
    }
