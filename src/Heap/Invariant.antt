-- ===== src/Heap/Invariant.antt =====
-- What holds of every heap, and the lemmas on its pages and its map of spans.
use vex_lua.Base.{
  ℕ, ◌+◌, ◌^◌, ◌%◌, ◌≤◌, ◌<◌, ◌≡◌, ◌≢◌, refl, ap, subst, List, [], ◌∷◌, ◌++◌, Option, none, some,
  All, ◌⊎◌, inl, inr, arith,
}
use vex_lua.Base.Bits.{and_not, bit_and_mask}
use vex_lua.Heap.{Heap, Page, AllocationSpan, insert, align_up}
use vex_lua.Heap.Pages.{last_page, use_last}

-- One past the last byte that the last page has given out.
abbrev pub end_of : Option Page → ℕ
end_of none = 0
end_of (some page) = page.start + page.used

abbrev pub frontier : Heap → ℕ
frontier h = end_of (last_page h.pages)

-- A page stands before the next one, and has given out no more than it holds, and nothing at
-- `given` or past it.
pub record IsPage (next_page given : ℕ) (page : Page) : Type 0 where
  pub start_aligned : page.start % 16 ≡ 0
  pub used_aligned : page.used % 16 ≡ 0
  pub not_zero : 16 ≤ page.start
  pub used_fits : page.used ≤ page.size
  pub before_next : page.start + page.size ≤ next_page
  pub given_below : page.start + page.used ≤ given

-- Some page has given out the range.
abbrev pub Covers : List Page → ℕ → ℕ → Type 0
Covers [] offset size = ⊥
Covers (page ∷ pages) offset size =
    ((page.start ≤ offset) × (offset + size ≤ page.start + page.used)) ⊎ Covers pages offset size

-- A span under its offset: aligned, not empty, below the frontier and inside a page.
pub record IsSpan (h : Heap) (offset : ℕ) (span : AllocationSpan) : Type 0 where
  pub at_start : span.start ≡ offset
  pub aligned : offset % 16 ≡ 0
  pub size_aligned : span.size % 16 ≡ 0
  pub some_bytes : 0 < span.size
  pub not_zero : 16 ≤ offset
  pub below : offset + span.size ≤ frontier h
  pub covered : Covers h.pages offset span.size

-- The heap's spans lie apart, in pages that stand before `nextPage`; memory that no page has given
-- out is zero.
pub record IsHeap (h : Heap) : Type 0 where
  pub spans :
      (offset : ℕ) (span : AllocationSpan) → h.allocations offset ≡ some span → IsSpan h offset span
  pub apart :
      (j k : ℕ) (s t : AllocationSpan)
      → h.allocations j ≡ some s
      → h.allocations k ≡ some t
      → j < k
      → j + s.size ≤ k
  pub are_pages : All (IsPage h.next_page (frontier h)) h.pages
  pub frontier_below : frontier h ≤ h.next_page
  pub next_aligned : h.next_page % 16 ≡ 0
  pub next_positive : 16 ≤ h.next_page
  pub next_word : h.next_page < 2 ^ 64
  pub size_aligned : h.page_size % 16 ≡ 0
  pub clean : (j : ℕ) → frontier h ≤ j → h.memory j ≡ 0
  pub are_bytes : (j : ℕ) → h.memory j < 256

-- On sizes that do not wrap, `alignUp` is the next multiple of 16.
pub align_up-16 :
    (v : ℕ)
    → v + 15 < 2 ^ 64
    → (v ≤ align_up v 16) × (align_up v 16 < v + 16) × (align_up v 16 % 16 ≡ 0)
unfolding align_up and_not
align_up-16 v small = omega (arith, bit_and_mask 4 ((v + 15) % 2 ^ 64))

-- What a map holds after an insertion.
pub insert-cases :
    {A : Type 0} (key : ℕ) (value : A) (m : ℕ → Option A) (k : ℕ) (found : A)
    → insert key value m k ≡ some found
    → ((k ≡ key) × (value ≡ found)) ⊎ ((k ≢ key) × (m k ≡ some found))
unfolding insert
insert-cases key value m k found eq = ground (arith, eq)

pub insert_self :
    {A : Type 0} (key : ℕ) (value : A) (m : ℕ → Option A) → insert key value m key ≡ some value
unfolding insert
insert_self key value m = ground arith

pub insert_ne :
    {A : Type 0} (key : ℕ) (value : A) (m : ℕ → Option A) (k : ℕ)
    → k ≢ key
    → insert key value m k ≡ m k
unfolding insert
insert_ne key value m k ne = ground arith

pub last_page-append :
    (pages : List Page) (page : Page) → last_page (pages ++ page ∷ []) ≡ some page
last_page-append [] page = refl
last_page-append (p ∷ []) page = refl
last_page-append (p ∷ q ∷ pages) page = last_page-append (q ∷ pages) page

-- The last page with more of it given out.
abbrev pub grown : Page → ℕ → Page
grown page size = record page { used = (page.used + size) % 2 ^ 64 }

only : (p page : Page) → last_page (p ∷ []) ≡ some page → p ≡ page
only p page eq = cc

last_page-cons :
    (p page : Page) (pages : List Page)
    → last_page pages ≡ some page
    → last_page (p ∷ pages) ≡ some page
last_page-cons p page [] eq = cc
last_page-cons p page (q ∷ pages) eq = eq

pub last_page-use_last :
    (pages : List Page) (page : Page) (size : ℕ)
    → last_page pages ≡ some page
    → last_page (use_last pages size) ≡ some (grown page size)
unfolding use_last
last_page-use_last [] page size eq = cc
last_page-use_last (p ∷ []) page size eq = ap (λ q. some (grown q size)) (only p page eq)
last_page-use_last (p ∷ q ∷ pages) page size eq =
    last_page-cons p (grown page size) (use_last (q ∷ pages) size)
      (last_page-use_last (q ∷ pages) page size eq)

pub Covers-append :
    (pages : List Page) (page : Page) (offset size : ℕ)
    → Covers pages offset size
    → Covers (pages ++ page ∷ []) offset size
Covers-append [] page offset size c = absurd c
Covers-append (p ∷ pages) page offset size (inl here) = inl here
Covers-append (p ∷ pages) page offset size (inr later) =
    inr (Covers-append pages page offset size later)

pub Covers-use_last :
    (pages : List Page) (page : Page) (n next given offset size : ℕ)
    → All (IsPage next given) pages
    → last_page pages ≡ some page
    → next < 2 ^ 64
    → page.used + n ≤ page.size
    → Covers pages offset size
    → Covers (use_last pages n) offset size
unfolding use_last
Covers-use_last [] page n next given offset size all eq small fits c = absurd c
Covers-use_last (p ∷ []) page n next given offset size all eq small fits (inl here) = inl (
    let same = only p page eq in
    omega (
      arith,
      all.0.used_fits,
      all.0.before_next,
      here,
      ap (λ q. q.size) same,
      ap (λ q. q.used) same,
    ))
Covers-use_last (p ∷ []) page n next given offset size all eq small fits (inr c) = absurd c
Covers-use_last (p ∷ q ∷ pages) page n next given offset size all eq small fits (inl here) =
    inl here
Covers-use_last (p ∷ q ∷ pages) page n next given offset size all eq small fits (inr later) =
    inr (Covers-use_last (q ∷ pages) page n next given offset size all.1 eq small fits later)

pub Covers-new :
    (pages : List Page) (page : Page) (n next given : ℕ)
    → All (IsPage next given) pages
    → last_page pages ≡ some page
    → next < 2 ^ 64
    → page.used + n ≤ page.size
    → Covers (use_last pages n) (page.start + page.used) n
unfolding use_last
Covers-new [] page n next given all eq small fits = cc
Covers-new (p ∷ []) page n next given all eq small fits = inl (
    let same = only p page eq in
    omega (
      arith,
      all.0.used_fits,
      all.0.before_next,
      ap (λ q. q.start) same,
      ap (λ q. q.used) same,
      ap (λ q. q.size) same,
    ))
Covers-new (p ∷ q ∷ pages) page n next given all eq small fits =
    inr (Covers-new (q ∷ pages) page n next given all.1 eq small fits)

pub page_later :
    (p : Page) (next next' given given' : ℕ)
    → next ≤ next'
    → given ≤ given'
    → IsPage next given p
    → IsPage next' given' p
page_later p next next' given given' le le' v = record {
  start_aligned = v.start_aligned;
  used_aligned = v.used_aligned;
  not_zero = v.not_zero;
  used_fits = v.used_fits;
  before_next = omega (arith, v.before_next, le);
  given_below = omega (arith, v.given_below, le');
}

pub All-use_last :
    (pages : List Page) (page : Page) (n next given given' : ℕ)
    → All (IsPage next given) pages
    → last_page pages ≡ some page
    → next < 2 ^ 64
    → page.used + n ≤ page.size
    → n % 16 ≡ 0
    → given ≤ given'
    → page.start + page.used + n ≤ given'
    → All (IsPage next given') (use_last pages n)
unfolding use_last
All-use_last [] page n next given given' all eq small fits aligned le here = cc
All-use_last (p ∷ []) page n next given given' all eq small fits aligned le here =
    let same = only p page eq in
    let start = ap (λ q. q.start) same in
    let used = ap (λ q. q.used) same in
    let size = ap (λ q. q.size) same in
    let (v, rest) = all in
    (
      record {
        start_aligned = v.start_aligned;
        used_aligned = omega (arith, v.used_aligned, v.used_fits, v.before_next, used, size);
        not_zero = v.not_zero;
        used_fits = omega (arith, v.used_fits, v.before_next, used, size);
        before_next = v.before_next;
        given_below = omega (arith, v.used_fits, v.before_next, start, used, size, here);
      },
      tt,
    )
All-use_last (p ∷ q ∷ pages) page n next given given' all eq small fits aligned le here = (
  page_later p next next given given' (omega arith) le all.0,
  All-use_last (q ∷ pages) page n next given given' all.1 eq small fits aligned le here,
)

pub All-append :
    (pages : List Page) (page : Page) (next next' given given' : ℕ)
    → All (IsPage next given) pages
    → next ≤ next'
    → given ≤ given'
    → IsPage next' given' page
    → All (IsPage next' given') (pages ++ page ∷ [])
All-append [] page next next' given given' all le le' v = (v, tt)
All-append (p ∷ pages) page next next' given given' all le le' v = (
  page_later p next next' given given' le le' all.0,
  All-append pages page next next' given given' all.1 le le' v,
)

pub last-IsPage :
    (pages : List Page) (page : Page) (next given : ℕ)
    → All (IsPage next given) pages
    → last_page pages ≡ some page
    → IsPage next given page
last-IsPage [] page next given all eq = cc
last-IsPage (p ∷ []) page next given all eq = subst (IsPage next given) (only p page eq) all.0
last-IsPage (p ∷ q ∷ pages) page next given all eq =
    last-IsPage (q ∷ pages) page next given all.1 eq
