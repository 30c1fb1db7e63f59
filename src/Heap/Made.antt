-- ===== src/Heap/Made.antt =====
-- A new heap is well formed.
use vex_lua.Base.{
  sym, ℕ, ◌+◌, ◌^◌, ◌%◌, ◌≤◌, ◌≡◌, refl, ap, subst, some, not, ltb, ◌==◌, if◌then◌else◌, ok,
  >>=-eq-ok, guard, arith, ok_injective,
}
use vex_lua.Base.Bits.{and_not}
use vex_lua.Heap.{
  Heap, Platform, Arena, align_up, default_native_reserve_size, default_page_size, page_too_small,
  reserve_failed,
}
use vex_lua.Heap.Pages.{new_heap, empty_heap, new_native_arena, ensure_committed, from_option}
use vex_lua.Heap.Invariant.{align_up-16}
use vex_lua.Heap.Running.{Runs}

align_up-le : (v a : ℕ) → align_up v a ≤ v + a
unfolding align_up and_not
align_up-le v a = ground arith

empty_heap-Runs :
    (base page_size : ℕ) (native : Arena)
    → 16 ≤ page_size
    → page_size % 16 ≡ 0
    → native.reserved_size + page_size ≤ 2 ^ 61
    → Runs (empty_heap base page_size native)
empty_heap-Runs base page_size native large aligned small = record {
  is_heap = record {
    spans = λ offset span eq. cc;
    apart = λ j k s t ej ek lt. cc;
    are_pages = tt;
    frontier_below = omega arith;
    next_aligned = refl;
    next_positive = omega arith;
    next_word = omega arith;
    size_aligned = aligned;
    clean = λ j past. refl;
    are_bytes = λ j. omega arith;
  };
  next_small = omega (arith, large);
  reserve_small = small;
}

arena-small :
    (p : Platform) (reserve_size page : ℕ) (arena : Arena)
    → p.os_page_size ≡ some page
    → 16 ≤ reserve_size
    → new_native_arena p reserve_size 16 ≡ ok arena
    → arena.reserved_size ≤ reserve_size + page
unfolding new_native_arena
arena-small p reserve_size page arena known large eq =
    let reserved = align_up (if ltb reserve_size 16 then 16 else reserve_size) page in
    let (base, granted, rest) =
      >>=-eq-ok (from_option reserve_failed (p.reserve reserved)) _
        (rw (new_native_arena, known) at eq) in
    let arena' : Arena = record {
      native_base = base;
      reserved_size = reserved;
      page_size = page;
    } in
    let (u, committed, last) = >>=-eq-ok (ensure_committed p arena' 16) _ rest in
    let same = ap (λ x. x.reserved_size) (sym (ok_injective last)) in
    ground (arith, same, align_up-le (if ltb reserve_size 16 then 16 else reserve_size) page, large)

-- The heap that `New` returns is well formed and has room before its words wrap, for a page size of
-- at most 2 ^ 59 bytes and a platform whose own pages have at most 2 ^ 32.
pub new_heap-Runs :
    (p : Platform) (base size page : ℕ) (h : Heap)
    → p.os_page_size ≡ some page
    → page ≤ 2 ^ 32
    → size ≤ 2 ^ 59
    → new_heap p base size ≡ ok h
    → Runs h
unfolding new_heap
new_heap-Runs p base size page h known small bound eq =
    let asked = if size == 0 then default_page_size else size in
    let (u, large, rest) = >>=-eq-ok (guard (not (ltb asked 16)) (page_too_small asked)) _ eq in
    let size' = align_up asked 16 in
    let reserve_size =
      if ltb default_native_reserve_size size' then size' else default_native_reserve_size in
    let (native, made, last) = >>=-eq-ok (new_native_arena p reserve_size 16) _ rest in
    let asked_small : asked ≤ 2 ^ 59 = ground (arith, bound) in
    let asked_large : 16 ≤ asked = ground (arith, large) in
    let (above, below, aligned) = align_up-16 asked (omega (arith, asked_small)) in
    let reserve_large : 16 ≤ reserve_size = ground arith in
    let reserve_below : reserve_size ≤ 2 ^ 59 + 2 ^ 31 = ground (arith, below, asked_small) in
    subst Runs (ok_injective last) (
      empty_heap-Runs _ size' native (omega (arith, asked_large, above)) aligned (
        omega (
          arith,
          arena-small p reserve_size page native known reserve_large made,
          small,
          reserve_below,
          below,
          asked_small,
        )))
