-- ===== src/Heap/Walk.antt =====
-- Spans are walked in chunks as they are in one go.
use vex_lua.Base.{
  ℕ, zero, suc, ◌+◌, ◌-◌, ◌<◌, ◌≡◌, refl, ap, ◌∙◌, sym, Bool, true, false, not, ◌&&◌, ◌||◌, length,
  get_or, none, some, ◌⊎◌, subst, Bool-cases, Option-cases, inl, inr, ltb, leb, ◌==◌, if◌then◌else◌,
  arith,
}
use vex_lua.Base.Int.{ℤ, pos, pos_part}
use vex_lua.Heap.{Heap, HeapError, SpanMetadata}
use vex_lua.Heap.Lifetime.{Visit, Walked, scan, walk_from, walk_limit, walk_spans_chunk}

-- Without a budget, the bytes that were scanned do not matter.
walk_from_scanned :
    {S : Type 0} (visit : Visit S) (left index a b : ℕ) (h : Heap) (s : S)
    → walk_from visit 0 left index a h s ≡ walk_from visit 0 left index b h s
unfolding walk_from
walk_from_scanned visit zero index a b h s = refl
walk_from_scanned visit (suc left) index a b h s =
    elim (Option-cases (h.allocations (get_or h.span_order index 0))) [
      | inl unknown ↦ rw (walk_from, unknown) refl
      | inr (span, known) ↦
          elim (Option-cases (visit h s (get_or h.span_order index 0) span.metadata).1) [
            | inl fine ↦
                rw (walk_from, known, fine)
                  (walk_from_scanned visit left (index + 1) (scan a span.metadata)
                    (scan b span.metadata) _ _)
            | inr (e, failed) ↦ rw (walk_from, known, failed) refl
          ]
    ]

-- A visit that neither adds nor removes spans.
abbrev pub KeepsOrder : {S : Type 0} → Visit S → Type 0
KeepsOrder {S} visit =
    (h : Heap) (s : S) (offset : ℕ) (m : SpanMetadata)
    → ((visit h s offset m).0).0.span_order ≡ h.span_order

-- A chunk that stops before the end has gone on, and what it leaves is the rest of the walk.
abbrev Resumes : {S : Type 0} → Visit S → ℕ → ℕ → Heap → S → Walked S → Type 0
Resumes visit left index h s w =
    (index < w.cursor)
    × (w.cursor < index + left)
    × (w.heap.span_order ≡ h.span_order)
    × (walk_from visit 0 left index 0 h s
        ≡ walk_from visit 0 (index + left - w.cursor) w.cursor 0 w.heap w.seen)

abbrev Stops : {S : Type 0} → Visit S → ℕ → ℕ → Heap → S → Walked S → Type 0
Stops visit left index h s w = w.done ≡ false → w.error ≡ none → Resumes visit left index h s w

stopped :
    {S : Type 0} (visit : Visit S) (left index n : ℕ) (h : Heap) (s : S)
    → (left == 0) ≡ false
    → (index < index + 1)
      × (index + 1 < index + suc left)
      × (walk_from visit 0 left (index + 1) n h s
          ≡ walk_from visit 0 (index + suc left - (index + 1)) (index + 1) 0 h s)
stopped visit left index n h s more = (
  omega arith,
  ground (arith, more),
  walk_from_scanned visit left (index + 1) n 0 h s
      ∙ ap (λ k. walk_from visit 0 k (index + 1) 0 h s) (omega arith),
)

went_on :
    {S : Type 0} (visit : Visit S) (left index n : ℕ) (h h' : Heap) (s : S) (w : Walked S)
    → h'.span_order ≡ h.span_order
    → Resumes visit left (index + 1) h' s w
    → (index < w.cursor)
      × (w.cursor < index + suc left)
      × (w.heap.span_order ≡ h.span_order)
      × (walk_from visit 0 left (index + 1) n h' s
          ≡ walk_from visit 0 (index + suc left - w.cursor) w.cursor 0 w.heap w.seen)
went_on visit left index n h h' s w order (past, before, kept, rest) = (
  omega (arith, past),
  omega (arith, before),
  kept ∙ order,
  walk_from_scanned visit left (index + 1) n 0 h' s
      ∙ rest
      ∙ ap (λ k. walk_from visit 0 k w.cursor 0 w.heap w.seen) (omega arith),
)

walk_from-Stops :
    {S : Type 0} (visit : Visit S) (budget left index scanned : ℕ) (h : Heap) (s : S)
    → KeepsOrder visit
    → Stops visit left index h s (walk_from visit budget left index scanned h s)
unfolding walk_from
walk_from-Stops visit budget zero index scanned h s keeps = λ more fine. cc
walk_from-Stops visit budget (suc left) index scanned h s keeps =
    let offset = get_or h.span_order index 0 in
    elim (Option-cases (h.allocations offset)) [
      | inl unknown ↦ rw (walk_from, unknown) (λ more fine. cc)
      | inr (span, known) ↦ elim (Option-cases (visit h s offset span.metadata).1) [
        | inr (e, failed) ↦ rw (walk_from, known, failed) (λ more fine. cc)
        | inl fine ↦
            elim (Bool-cases (not (budget == 0) && leb budget (scan scanned span.metadata))) [
              | inl enough ↦
                  rw (walk_from, known, fine, enough)
                    (λ more _.
                      let (a, b, c) = stopped visit left index (scan 0 span.metadata) _ _ more in
                      (a, b, keeps h s offset span.metadata, c))
              | inr short ↦
                  rw (walk_from, known, fine, short)
                    (λ more none_failed.
                      let (h', s') = (visit h s offset span.metadata).0 in
                      let n = scan scanned span.metadata in
                      let w = walk_from visit budget left (index + 1) n h' s' in
                      went_on visit left index (scan 0 span.metadata) h h' s' w
                        (keeps h s offset span.metadata)
                        (walk_from-Stops visit budget left (index + 1) n h' s' keeps more
                          none_failed))
            ]
      ]
    ]

-- A walk that has reached the limit, or has met an error.
abbrev pub HasEnded : {S : Type 0} → Walked S → Type 0
HasEnded w = (w.done ≡ true) ⊎ ((e : HeapError) × (w.error ≡ some e))

-- What a chunk leaves that has used up its budget.
abbrev at_budget : {S : Type 0} → ℕ → ℕ → Heap → S → Walked S
at_budget left index h s = record {
  cursor = index;
  done = left == 0;
  heap = h;
  seen = s;
  error = none;
}

ended_at_budget :
    {S : Type 0} (visit : Visit S) (left index n : ℕ) (h : Heap) (s : S)
    → HasEnded (at_budget left index h s)
    → walk_from visit 0 left index n h s ≡ at_budget left index h s
unfolding walk_from
ended_at_budget visit zero index n h s ended = refl
ended_at_budget visit (suc left) index n h s (inl last) = absurd (ground (arith, last))
ended_at_budget visit (suc left) index n h s (inr (e, failed)) = cc

walk_from-HasEnded :
    {S : Type 0} (visit : Visit S) (budget left index scanned : ℕ) (h : Heap) (s : S)
    → HasEnded (walk_from visit budget left index scanned h s)
    → walk_from visit 0 left index 0 h s ≡ walk_from visit budget left index scanned h s
unfolding walk_from
walk_from-HasEnded visit budget zero index scanned h s = λ ended. refl
walk_from-HasEnded visit budget (suc left) index scanned h s =
    let offset = get_or h.span_order index 0 in
    elim (Option-cases (h.allocations offset)) [
      | inl unknown ↦ rw (walk_from, unknown) (λ ended. refl)
      | inr (span, known) ↦ elim (Option-cases (visit h s offset span.metadata).1) [
        | inr (e, failed) ↦ rw (walk_from, known, failed) (λ ended. refl)
        | inl fine ↦
            elim (Bool-cases (not (budget == 0) && leb budget (scan scanned span.metadata))) [
              | inl enough ↦
                  rw (walk_from, known, fine, enough)
                    (ended_at_budget visit left (index + 1) (scan 0 span.metadata) _ _)
              | inr short ↦
                  rw (walk_from, known, fine, short)
                    (λ ended.
                      walk_from_scanned visit left (index + 1) (scan 0 span.metadata) 0 _ _
                      ∙ walk_from-HasEnded visit budget left (index + 1)
                          (scan scanned span.metadata) _ _ ended)
            ]
      ]
    ]

-- A chunk inside the limit is its loop, and past the limit it is done.
chunk_inside :
    {S : Type 0} (visit : Visit S) (cursor budget bound : ℕ) (limit : ℤ) (h : Heap) (s : S)
    → walk_limit h limit ≡ bound
    → cursor < bound
    → walk_spans_chunk visit (pos cursor) limit budget h s
      ≡ walk_from visit budget (bound - cursor) cursor 0 h s
unfolding walk_spans_chunk
chunk_inside visit cursor budget bound limit h s same inside =
    let more : leb bound cursor ≡ false = ground (arith, inside) in
    rw (walk_spans_chunk, same, more) refl

chunk_past :
    {S : Type 0} (visit : Visit S) (cursor budget : ℕ) (limit : ℤ) (h : Heap) (s : S)
    → leb (walk_limit h limit) cursor ≡ true
    → (walk_spans_chunk visit (pos cursor) limit budget h s).done ≡ true
unfolding walk_spans_chunk
chunk_past visit cursor budget limit h s past = rw (walk_spans_chunk, past) refl

chunk_past_same :
    {S : Type 0} (visit : Visit S) (cursor budget : ℕ) (limit : ℤ) (h : Heap) (s : S)
    → leb (walk_limit h limit) cursor ≡ true
    → walk_spans_chunk visit (pos cursor) limit 0 h s
      ≡ walk_spans_chunk visit (pos cursor) limit budget h s
unfolding walk_spans_chunk
chunk_past_same visit cursor budget limit h s past = rw (walk_spans_chunk, past) refl

chunk_ended :
    {S : Type 0} (visit : Visit S) (cursor budget : ℕ) (limit : ℤ) (h : Heap) (s : S)
    → HasEnded (walk_spans_chunk visit (pos cursor) limit budget h s)
    → walk_spans_chunk visit (pos cursor) limit 0 h s
      ≡ walk_spans_chunk visit (pos cursor) limit budget h s
chunk_ended visit cursor budget limit h s ended =
    elim (Bool-cases (leb (walk_limit h limit) cursor)) [
      | inl past ↦ chunk_past_same visit cursor budget limit h s past
      | inr inside ↦
          (let bound = walk_limit h limit in
            let at_cursor : cursor < bound = ground (arith, inside) in
            let loop = chunk_inside visit cursor budget bound limit h s refl at_cursor in
            chunk_inside visit cursor 0 bound limit h s refl at_cursor
            ∙ walk_from-HasEnded visit budget (bound - cursor) cursor 0 h s
                (subst HasEnded loop ended)
            ∙ sym loop)
    ]

-- A chunk that the budget stops has gone on, and the rest of the walk is as it would have been.
chunk_stopped :
    {S : Type 0} (visit : Visit S) (cursor budget : ℕ) (limit : ℤ) (h : Heap) (s : S)
    → KeepsOrder visit
    → (walk_spans_chunk visit (pos cursor) limit budget h s).done ≡ false
    → (walk_spans_chunk visit (pos cursor) limit budget h s).error ≡ none
    → (cursor < (walk_spans_chunk visit (pos cursor) limit budget h s).cursor)
      × ((walk_spans_chunk visit (pos cursor) limit budget h s).cursor < walk_limit h limit)
      × (walk_spans_chunk visit (pos cursor) limit 0 h s
          ≡ walk_spans_chunk visit
              (pos (walk_spans_chunk visit (pos cursor) limit budget h s).cursor)
              limit
              0
              (walk_spans_chunk visit (pos cursor) limit budget h s).heap
              (walk_spans_chunk visit (pos cursor) limit budget h s).seen)
chunk_stopped visit cursor budget limit h s keeps =
    elim (Bool-cases (leb (walk_limit h limit) cursor)) [
      | inl past ↦
          (λ more fine. absurd (clash (chunk_past visit cursor budget limit h s past) more))
      | inr inside ↦
          (let bound = walk_limit h limit in
            let w = walk_from visit budget (bound - cursor) cursor 0 h s in
            let at_cursor : cursor < bound = ground (arith, inside) in
            rw (chunk_inside visit cursor budget bound limit h s refl at_cursor) (λ more fine.
              let (past, before, order, rest) =
                walk_from-Stops visit budget (bound - cursor) cursor 0 h s keeps more fine in
              let same =
                ap
                  (λ o.
                    if pos_part limit == 0 || ltb (length o) (pos_part limit)
                    then length o
                    else pos_part limit)
                  order in
              (
                past,
                omega (arith, before, at_cursor),
                chunk_inside visit cursor 0 bound limit h s refl at_cursor
                    ∙ rest
                    ∙ ap (λ k. walk_from visit 0 k w.cursor 0 w.heap w.seen)
                        (omega (arith, at_cursor))
                    ∙ sym (
                        chunk_inside visit w.cursor 0 bound limit w.heap w.seen same
                          (omega (arith, before, at_cursor))),
              )))
    ]
  where
    clash : {b : Bool} → b ≡ true → b ≡ false → ⊥
    clash p q = cc

-- For visits that neither add nor remove spans: a chunk that stops before the limit without an error
-- has gone past its cursor, and the walk from where it stopped, over what its visits left, ends as
-- the walk in one go would have. A chunk that says it is done, or that meets an error, has the result
-- of the walk in one go, with its cursor, its heap, what it has seen and its error.
pub walk_spans_chunk_lem :
    {S : Type 0} (visit : Visit S) (cursor budget : ℕ) (limit : ℤ) (h : Heap) (s : S)
    → KeepsOrder visit
    → ((walk_spans_chunk visit (pos cursor) limit budget h s).done ≡ false
        → (walk_spans_chunk visit (pos cursor) limit budget h s).error ≡ none
        → (cursor < (walk_spans_chunk visit (pos cursor) limit budget h s).cursor)
          × ((walk_spans_chunk visit (pos cursor) limit budget h s).cursor < walk_limit h limit)
          × (walk_spans_chunk visit (pos cursor) limit 0 h s
              ≡ walk_spans_chunk visit
                  (pos (walk_spans_chunk visit (pos cursor) limit budget h s).cursor)
                  limit
                  0
                  (walk_spans_chunk visit (pos cursor) limit budget h s).heap
                  (walk_spans_chunk visit (pos cursor) limit budget h s).seen))
      × (HasEnded (walk_spans_chunk visit (pos cursor) limit budget h s)
          → walk_spans_chunk visit (pos cursor) limit 0 h s
            ≡ walk_spans_chunk visit (pos cursor) limit budget h s)
walk_spans_chunk_lem visit cursor budget limit h s keeps =
    (chunk_stopped visit cursor budget limit h s keeps, chunk_ended visit cursor budget limit h s)
