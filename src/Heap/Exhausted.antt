-- ===== src/Heap/Exhausted.antt =====
-- An allocation that the arena cannot hold leaves a page that it cannot hold either.
use vex_lua.Base.{
  ℕ, ◌+◌, ◌^◌, ◌%◌, ◌≤◌, ◌<◌, ◌≡◌, refl, none, some, true, false, ok, err, leb, ltb, ◌==◌, arith,
}
use vex_lua.Heap.{Heap, Platform, Page, SpanMetadata, align_up, exhausted}
use vex_lua.Heap.Pages.{last_page, remaining, current_page, page_for, ensure_committed}
use vex_lua.Heap.Span.{alloc_span, append_span, checked_reuse, committed_bytes}

-- The last page starts so far out that the arena ends before the size from there.
pub record IsBeyond (h : Heap) (page : Page) : Type 0 where
  pub is_last : last_page h.pages ≡ some page
  pub beyond : h.native.reserved_size ≤ page.start + page.used
  pub fits : page.used ≤ page.size
  pub word : page.start + page.size < 2 ^ 64

page_for-last :
    (h : Heap) (page : Page) (n : ℕ)
    → last_page h.pages ≡ some page
    → n ≤ remaining page
    → page_for h n ≡ (h, page)
unfolding page_for current_page
page_for-last h page n last room =
    let here : leb n (remaining page) ≡ true = ground (arith, room) in
    let there : ltb (remaining page) n ≡ false = ground (arith, room) in
    rw (page_for, current_page, last, here, there) refl

append_span-exhausted :
    (p : Platform) (h : Heap) (page : Page) (n : ℕ) (m : SpanMetadata)
    → IsBeyond h page
    → 0 < n
    → n ≤ remaining page
    → append_span p h page n m ≡ (h, err (exhausted (page.start + page.used + n)))
unfolding append_span committed_bytes ensure_committed remaining
append_span-exhausted p h page n m b positive room =
    let small : page.start + page.used + n < 2 ^ 64 = omega (arith, b.fits, b.word, room) in
    let at : (page.start + page.used) % 2 ^ 64 ≡ page.start + page.used = omega (arith, small) in
    let end : (page.start + page.used + n) % 2 ^ 64 ≡ page.start + page.used + n =
      omega (arith, small) in
    let some_bytes : ((page.start + page.used + n) == 0) ≡ false = ground (arith, positive) in
    let past : leb (page.start + page.used + n) h.native.reserved_size ≡ false =
      ground (arith, b.beyond, positive) in
    rw (append_span, committed_bytes, ensure_committed, at, end, some_bytes, past) refl

-- Where the last page lies past the arena's end, an allocation that the page has room for, and for
-- which no free span is found, fails, and leaves the heap as it was: the page stays the last one, so
-- that the same holds of the next allocation.
pub alloc_span-exhausted :
    (p : Platform) (h : Heap) (page : Page) (size : ℕ) (m : SpanMetadata)
    → IsBeyond h page
    → 0 < align_up size 16
    → align_up size 16 ≤ remaining page
    → checked_reuse p h size m ≡ ok none
    → alloc_span p h size m ≡ (h, err (exhausted (page.start + page.used + align_up size 16)))
unfolding alloc_span
alloc_span-exhausted p h page size m b positive room full =
    rw (alloc_span, full, page_for-last h page (align_up size 16) b.is_last room)
      (append_span-exhausted p h page (align_up size 16) m b positive room)
