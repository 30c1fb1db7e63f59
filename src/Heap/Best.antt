-- ===== src/Heap/Best.antt =====
-- The search for a free span: what it finds, and that it finds the best.
use vex_lua.Base.{
  ℕ, ◌≤◌, ◌<◌, ◌≡◌, refl, ◌∙◌, sym, ap, subst, Bool, true, ◌&&◌, List, [], ◌∷◌, Option, none, some,
  Among, inl, inr, Bool-cases, ltb, arith,
}
use vex_lua.Heap.{AllocationSpan, is_free}
use vex_lua.Heap.Span.{best_free, better, fits}

-- A free span of the map with room for the size.
pub record IsCandidate (m : ℕ → Option AllocationSpan) (size offset : ℕ) (span : AllocationSpan)
    : Type 0 where
  pub here : m offset ≡ some span
  pub free : is_free span.metadata.state ≡ true
  pub room : size ≤ span.size

-- The best so far is a candidate, if there is one.
abbrev pub IsBest : (ℕ → Option AllocationSpan) → ℕ → Option (ℕ × AllocationSpan) → Type 0
IsBest m size none = Unit {0}
IsBest m size (some (offset, span)) = IsCandidate m size offset span

fits-IsCandidate :
    (m : ℕ → Option AllocationSpan) (size offset : ℕ) (span : AllocationSpan)
    → m offset ≡ some span
    → fits span size ≡ true
    → IsCandidate m size offset span
fits-IsCandidate m size offset span here f = record {
  here = here;
  free = ground (arith, f);
  room = ground (arith, f);
}

better-IsBest :
    (m : ℕ → Option AllocationSpan) (size offset : ℕ) (found : Option AllocationSpan)
    (best : Option (ℕ × AllocationSpan))
    → m offset ≡ found
    → IsBest m size best
    → IsBest m size (better found offset best size)
better-IsBest m size offset none best eq v = v
better-IsBest m size offset (some span) none eq v = elim (Bool-cases (fits span size)) [
  | inl f ↦ rw f (fits-IsCandidate m size offset span eq f)
  | inr f ↦ rw f tt
]
better-IsBest m size offset (some span) (some (o, b)) eq v =
    elim (Bool-cases (fits span size && ltb span.size b.size)) [
      | inl f ↦ rw f (fits-IsCandidate m size offset span eq (ground (arith, f)))
      | inr f ↦ rw f v
    ]

pub best_free-IsBest :
    (m : ℕ → Option AllocationSpan) (order : List ℕ) (size : ℕ) (best : Option (ℕ × AllocationSpan))
    → IsBest m size best
    → IsBest m size (best_free m order size best)
unfolding best_free
best_free-IsBest m [] size best v = v
best_free-IsBest m (offset ∷ order) size best v =
    best_free-IsBest m order size (better (m offset) offset best size)
      (better-IsBest m size offset (m offset) best refl v)

-- The best so far has no more bytes than the span.
abbrev pub AtMost : Option (ℕ × AllocationSpan) → ℕ → Type 0
AtMost none size = ⊥
AtMost (some (o, b)) size = b.size ≤ size

lt_of : (b : Bool) (x y : ℕ) → (b && ltb x y) ≡ true → x < y
lt_of b x y h = ground (arith, h)

better-AtMost :
    (found : Option AllocationSpan) (offset size bound : ℕ) (best : Option (ℕ × AllocationSpan))
    → AtMost best bound
    → AtMost (better found offset best size) bound
better-AtMost none offset size bound best v = v
better-AtMost (some span) offset size bound none v = absurd v
better-AtMost (some span) offset size bound (some (o, b)) v =
    elim (Bool-cases (fits span size && ltb span.size b.size)) [
      | inl f ↦ rw f (omega (arith, v, lt_of (fits span size) span.size b.size f))
      | inr f ↦ rw f v
    ]

better-Candidate :
    (span : AllocationSpan) (offset size : ℕ) (best : Option (ℕ × AllocationSpan))
    → fits span size ≡ true
    → AtMost (better (some span) offset best size) span.size
better-Candidate span offset size none f = rw f (omega arith)
better-Candidate span offset size (some (o, b)) f = elim (Bool-cases (ltb span.size b.size)) [
  | inl lt ↦ rw (f, lt) (omega arith)
  | inr ge ↦ rw (f, ge) (ground (arith, ge))
]

best_free-AtMost :
    (m : ℕ → Option AllocationSpan) (order : List ℕ) (size bound : ℕ)
    (best : Option (ℕ × AllocationSpan))
    → AtMost best bound
    → AtMost (best_free m order size best) bound
unfolding best_free
best_free-AtMost m [] size bound best v = v
best_free-AtMost m (offset ∷ order) size bound best v =
    best_free-AtMost m order size bound (better (m offset) offset best size)
      (better-AtMost (m offset) offset size bound best v)

-- Whatever candidate the walk visits, it finds one with no more bytes.
pub best_free-best :
    (m : ℕ → Option AllocationSpan) (order : List ℕ) (size : ℕ) (best : Option (ℕ × AllocationSpan))
    (offset : ℕ) (span : AllocationSpan)
    → Among order offset
    → IsCandidate m size offset span
    → AtMost (best_free m order size best) span.size
unfolding best_free
best_free-best m [] size best offset span visit c = absurd visit
best_free-best m (o ∷ order) size best offset span (inl here) c =
    best_free-AtMost m order size span.size (better (m o) o best size) (
      subst (λ f. AtMost (better f o best size) span.size) (sym (ap m here ∙ c.here))
        (better-Candidate span o size best (ground (arith, c.free, c.room))))
best_free-best m (o ∷ order) size best offset span (inr later) c =
    best_free-best m order size (better (m o) o best size) offset span later c
