-- ===== src/Heap/Pages.antt =====
-- internal/runtime/heap/heap.go and native_arena.go: the pages, the arena and a new heap.
use vex_lua.Base.{
  ℕ, ◌+◌, ◌-◌, ◌^◌, ◌%◌, Bool, true, false, not, List, [], ◌∷◌, ◌++◌, Option, none, some, ltb, leb,
  ◌==◌, if◌then◌else◌, Result, ok, err, ◌>>=◌, ◌>>◌, guard,
}
use vex_lua.Value.TValue.{object_alignment}
use vex_lua.Heap.{
  Page, Arena, Heap, HeapError, Platform, align_up, default_heap_base, default_page_size,
  default_native_reserve_size, exhausted, commit_failed, offset_overflow, exceeds_reservation,
  page_too_small, no_page_size, reserve_failed,
}
use vex_lua.Heap.Memory.{load}
use vex_lua.Heap.Controller.{new_gc_controller}

unfoldable pub remaining : Page → ℕ
remaining page = (page.size + 2 ^ 64 - page.used) % 2 ^ 64

abbrev pub last_page : List Page → Option Page
last_page [] = none
last_page (page ∷ []) = some page
last_page (page ∷ next ∷ pages) = last_page (next ∷ pages)

unfoldable pub current_page : List Page → ℕ → Option Page
unfolding remaining
current_page pages size = elim (last_page pages) [
  | none ↦ none
  | some page ↦ if leb size (remaining page) then some page else none
]

-- The page that `newPage` appends.
unfoldable pub fresh_page : Heap → ℕ → Page
unfolding align_up
fresh_page h min_size = record {
  start = align_up h.next_page object_alignment;
  size = if ltb h.page_size min_size then align_up min_size object_alignment else h.page_size;
  used = 0;
}

unfoldable pub new_page : Heap → ℕ → Heap
unfolding fresh_page
new_page h min_size =
    let page = fresh_page h min_size in
    record h { pages = h.pages ++ page ∷ []; next_page = (page.start + page.size) % 2 ^ 64 }

-- The page that an allocation takes, which is the last one of the heap that results.
unfoldable pub page_for : Heap → ℕ → Heap × Page
unfolding current_page remaining new_page fresh_page
page_for h size = elim (current_page h.pages size) [
  | none ↦ (new_page h size, fresh_page h size)
  | some page ↦
      if ltb (remaining page) size then (new_page h size, fresh_page h size) else (h, page)
]

-- `page.used += size`, for the last page.
unfoldable pub use_last : List Page → ℕ → List Page
use_last [] size = []
use_last (page ∷ []) size = record page { used = (page.used + size) % 2 ^ 64 } ∷ []
use_last (page ∷ next ∷ pages) size = page ∷ use_last (next ∷ pages) size

abbrev pub has_range : Page → ℕ → ℕ → Bool
has_range page offset size =
    if ltb offset page.start
    then false
    else if ltb page.used (offset - page.start)
    then false
    else not (ltb page.used ((offset - page.start + size) % 2 ^ 64))

unfoldable pub find_page : List Page → ℕ → ℕ → Option (Page × ℕ)
find_page [] offset size = none
find_page (page ∷ pages) offset size = elim (has_range page offset size) [
  | true ↦ some (page, offset - page.start)
  | false ↦ find_page pages offset size
]

unfoldable pub ensure_committed : Platform → Arena → ℕ → Result HeapError (Unit {0})
ensure_committed p arena size = if size == 0 then ok tt else (do
  guard (leb size arena.reserved_size) (exhausted size)
  guard (p.commits size) (commit_failed size))

unfoldable pub arena_bytes : Arena → (ℕ → ℕ) → ℕ → ℕ → Result HeapError (List ℕ)
unfolding load
arena_bytes arena memory offset size = if size == 0 then ok [] else (do
  guard (not (ltb ((offset + size) % 2 ^ 64) offset)) (offset_overflow offset)
  guard (leb ((offset + size) % 2 ^ 64) arena.reserved_size) (exceeds_reservation offset)
  ok (load memory offset size))

abbrev pub from_option {ℓ} : {A : Type ℓ} → HeapError → Option A → Result HeapError A
from_option e none = err e
from_option e (some a) = ok a

unfoldable pub new_native_arena : Platform → ℕ → ℕ → Result HeapError Arena
unfolding align_up ensure_committed
new_native_arena p reserve_size initial_size = do
  page_size ← from_option no_page_size p.os_page_size
  let reserved =
      align_up (if ltb reserve_size initial_size then initial_size else reserve_size) page_size
  native_base ← from_option reserve_failed (p.reserve reserved)
  let arena : Arena = record {
    native_base = native_base;
    reserved_size = reserved;
    page_size = page_size;
  }
  ensure_committed p arena initial_size
  ok arena

-- A heap with no page.
abbrev pub empty_heap : ℕ → ℕ → Arena → Heap
empty_heap base page_size native = record {
  base = base;
  page_size = page_size;
  pages = [];
  allocations = λ k. none;
  span_order = [];
  next_page = object_alignment;
  native = native;
  gc = new_gc_controller page_size;
  memory = λ j. 0;
}

-- `New`
unfoldable pub new_heap : Platform → ℕ → ℕ → Result HeapError Heap
unfolding align_up new_gc_controller new_native_arena
new_heap p asked_base asked_size = do
  let base = if asked_base == 0 then default_heap_base else asked_base
  let size = if asked_size == 0 then default_page_size else asked_size
  guard (not (ltb size object_alignment)) (page_too_small size)
  let page_size = align_up size object_alignment
  native ←
      new_native_arena p
        (if ltb default_native_reserve_size page_size
          then page_size
          else default_native_reserve_size)
        object_alignment
  ok (empty_heap base page_size native)
