-- ===== src/Upvalue/Tests.antt =====
-- A heap of upvalues as a function from references, and instances of the upvalue laws.
use vex_lua.Base.{
  ℕ, suc, ◌≤◌, ◌≡◌, ◌≢◌, ◌∙◌, sym, Option, some, none, refl, ap, List, [], ◌∷◌, true, false,
  Bool-cases, ==_iff, inl, inr, leb, ◌==◌, if◌then◌else◌, Result, ok, err, replicate, arith,
}
use vex_lua.State.Frame.{blank_frame}
use vex_lua.State.Thread.{ThreadState, slot_index, value_at_address, set_value_at_address}
use vex_lua.Upvalue.Object.{Node, UpvalueError, new_node, state_open, state_invalid, object_failed}
use vex_lua.Upvalue.Manager.{
  ObjectOps, between, find_from, set_next, set_previous, create_between, find_or_create_open,
  close_one, close_from, close_in_range, close_at_or_above, get, set_upvalue,
}
use vex_lua.Upvalue.Opened.{ObjectLaws, Open}
use vex_lua.Upvalue.Find.{IsSpot, find_from-IsSpot}
use vex_lua.Upvalue.Place.{insert}
use vex_lua.Upvalue.Create.{IsObtained, find_or_create_open-IsObtained}
use vex_lua.Upvalue.Shared.{changed, get-set_upvalue}
use vex_lua.Upvalue.Closing.{IsClosed, close_at_or_above-IsClosed}

program : Unit {0}
unfolding new_node slot_index value_at_address set_value_at_address find_from set_next set_previous
    create_between find_or_create_open close_one close_from close_in_range close_at_or_above get
    set_upvalue Open
program = tt

-- The highest reference in use, and the upvalue at each.
abbrev Store : Type 0
Store = ℕ × (ℕ → Node)

abbrev put : (ℕ → Node) → ℕ → Node → ℕ → Node
put f ref node r = if r == ref then node else f r

abbrev objects : ObjectOps Store
objects = record {
  object = λ (last, f) ref. if leb ref last then ok (f ref) else err object_failed;
  write_object =
      λ (last, f) ref node. if leb ref last then ok ((last, put f ref node)) else err object_failed;
  alloc_object = λ (last, f) node. ok ((suc last, put f (suc last) node), suc last);
  write_barrier = λ h ref value. ok h;
}

there :
    (last : ℕ) (f : ℕ → Node) (r : ℕ) (n : Node)
    → objects.object (last, f) r ≡ ok n
    → (leb r last ≡ true) × (f r ≡ n)
there last f r n eq = elim (Bool-cases (leb r last)) [
  | inl inside ↦ (inside, (let e = rw inside at eq in cc))
  | inr outside ↦ (let e = rw outside at eq in absurd cc)
]

wrote :
    (last : ℕ) (f : ℕ → Node) (r : ℕ) (n : Node) (h' : Store)
    → objects.write_object (last, f) r n ≡ ok h'
    → (leb r last ≡ true) × (h' ≡ (last, put f r n))
wrote last f r n h' eq = elim (Bool-cases (leb r last)) [
  | inl inside ↦ (inside, (let e = rw inside at eq in cc))
  | inr outside ↦ (let e = rw outside at eq in absurd cc)
]

put_self :
    (last : ℕ) (f : ℕ → Node) (r : ℕ) (n : Node)
    → leb r last ≡ true
    → objects.object (last, put f r n) r ≡ ok n
put_self last f r n inside =
    let same : (r == r) ≡ true = (==_iff r r).1 refl in rw (inside, same) refl

put_other :
    (last last' : ℕ) (f : ℕ → Node) (r q : ℕ) (n m : Node)
    → objects.object (last, f) q ≡ ok m
    → last ≤ last'
    → q ≢ r
    → objects.object (last', put f r n) q ≡ ok m
put_other last last' f r q n m eq le ne =
    let (inside, at) = there last f q m eq in
    let inside' : leb q last' ≡ true = ground (arith, inside, le) in
    let other : (q == r) ≡ false = ground (arith, ne) in rw (inside', other) (ap ok at)

made_apart :
    (last : ℕ) (f : ℕ → Node) (n : Node) (r : ℕ) (m : Node)
    → objects.object (last, f) r ≡ ok m
    → (r ≢ suc last) × (objects.object (suc last, put f (suc last) n) r ≡ ok m)
made_apart last f n r m eq =
    let (inside, at) = there last f r m eq in
    let ne : r ≢ suc last = λ e. ground (arith, inside, e) in
    (ne, put_other last (suc last) f (suc last) r n m eq (omega arith) ne)

objects-ObjectLaws : ObjectLaws objects
objects-ObjectLaws = record {
  written = λ (last, f) h' ref node eq.
      let (inside, same) = wrote last f ref node h' eq in rw same (put_self last f ref node inside);
  unwritten = λ (last, f) h' ref node r n eq ne at.
      let (inside, same) = wrote last f ref node h' eq in
      rw same (put_other last last f ref r node n at (omega arith) ne);
  made = λ (last, f) h' ref node eq.
      let same : (h' ≡ (suc last, put f (suc last) node)) × (ref ≡ suc last) = (cc, cc) in
      rw (same.0, same.1)
        (
          (λ e. omega (arith, e)),
          put_self (suc last) f (suc last) node (ground arith),
          made_apart last f node,
        );
  unmoved = λ h h' ref value r n eq at. let same : h ≡ h' = cc in rw (sym same) at;
  read_ends = λ (last, f) ref eq. elim (Bool-cases (leb ref last)) [
    | inl inside ↦ (let e = rw inside at eq in cc)
    | inr outside ↦ (let e = rw outside at eq in cc)
  ];
  write_ends = λ (last, f) ref node eq. elim (Bool-cases (leb ref last)) [
    | inl inside ↦ (let e = rw inside at eq in cc)
    | inr outside ↦ (let e = rw outside at eq in cc)
  ];
  barrier_ends = λ h ref value eq. cc;
}

abbrev upvalue : ℕ → ℕ → ℕ → Node
upvalue slot next prev = record (new_node state_open 1 slot) { next_open = next; prev_open = prev }

-- Upvalues 2 and 1, for the slots 2 and 0 of a stack of four.
abbrev two_open : Store
two_open =
    (2, put (put (λ r. new_node state_invalid 0 0) 1 (upvalue 0x1000 0 2)) 2 (upvalue 0x1010 1 0))

abbrev opened_thread : ThreadState
opened_thread = record {
  id = 1;
  stack_base = 0x1000;
  frame_base = 0x2000;
  stack = 11 ∷ 12 ∷ 13 ∷ 14 ∷ [];
  frames = replicate 1 blank_frame;
  current_frame = 0;
  open_upvalue_head = 2;
}

abbrev two_list : List (ℕ × ℕ)
two_list = (2, 0x1010) ∷ (1, 0x1000) ∷ []

two_open-Open : Open objects two_open 0 2 0x2000 two_list
unfolding program
two_open-Open = (
  refl,
  (λ e. omega (arith, e)),
  (
    upvalue 0x1010 1 0,
    refl,
    refl,
    refl,
    refl,
    omega arith,
    (
      refl,
      (λ e. omega (arith, e)),
      (upvalue 0x1000 0 2, refl, refl, refl, refl, omega arith, refl),
    ),
  ),
)

find_from-IsSpot_example : IsSpot two_list 0x1008 (find_from objects 3 two_open 0x1008 0 2)
unfolding program
find_from-IsSpot_example =
    find_from-IsSpot objects 3 two_open 0x1008 0 2 0x2000 two_list two_open-Open (omega arith)

a_spot : find_from objects 3 two_open 0x1008 0 2 ≡ ok (between 2 1)
unfolding program
a_spot = refl

close_at_or_above-IsClosed_example :
    IsClosed objects two_open opened_thread 0x1008 0x2000 two_list []
      (close_at_or_above objects 3 two_open opened_thread 0x1008)
unfolding program
close_at_or_above-IsClosed_example =
    close_at_or_above-IsClosed objects objects-ObjectLaws 3 two_open opened_thread 0x1008 0x2000
      two_list two_open-Open (omega arith) (omega arith)

abbrev closed_of : Result UpvalueError (Store × (ThreadState × List ℕ)) → List ℕ
closed_of (ok (h, (t, out))) = out
closed_of (err e) = 99 ∷ []

closed_two : closed_of (close_at_or_above objects 3 two_open opened_thread 0x1008) ≡ 2 ∷ []
unfolding program
closed_two = refl

abbrev heap_of : Result UpvalueError (Store × (ThreadState × ℕ)) → Store
heap_of (ok (h, (t, ref))) = h
heap_of (err e) = two_open

abbrev thread_of : Result UpvalueError (Store × (ThreadState × ℕ)) → ThreadState
thread_of (ok (h, (t, ref))) = t
thread_of (err e) = opened_thread

abbrev obtained : Result UpvalueError (Store × (ThreadState × ℕ))
obtained = find_or_create_open objects 3 two_open opened_thread 0x1008

find_or_create_open-IsObtained_example :
    IsObtained objects two_open
      (heap_of obtained)
      opened_thread
      (thread_of obtained)
      0x1008
      3
      0x2000
      two_list
unfolding program
find_or_create_open-IsObtained_example =
    find_or_create_open-IsObtained objects objects-ObjectLaws 3 two_open (heap_of obtained)
      opened_thread (thread_of obtained) 0x1008 3 0x2000 two_list two_open-Open (omega arith)
      (omega arith) refl

obtained_list : insert 3 0x1008 two_list ≡ (2, 0x1010) ∷ (3, 0x1008) ∷ (1, 0x1000) ∷ []
obtained_list = refl

abbrev one_thread : ℕ → Option ThreadState
one_thread id = if id == 1 then some opened_thread else none

one_thread_ids : (id : ℕ) (t : ThreadState) → one_thread id ≡ some t → t.id ≡ id
one_thread_ids id t eq = elim (Bool-cases (id == 1)) [
  | inl here ↦
      (let same : opened_thread ≡ t = (let e = rw here at eq in cc) in
        ap (λ x. x.id) (sym same) ∙ sym ((==_iff id 1).0 here))
  | inr away ↦ (let e = rw away at eq in absurd cc)
]

abbrev set_there : Result UpvalueError (Store × Option ThreadState)
set_there = set_upvalue objects one_thread two_open 2 77

abbrev set_thread : Result UpvalueError (Store × Option ThreadState) → Option ThreadState
set_thread (ok (h, t)) = t
set_thread (err e) = none

get-set_upvalue_example : get objects (changed one_thread (set_thread set_there)) two_open 2 ≡ ok 77
unfolding program
get-set_upvalue_example =
    get-set_upvalue objects objects-ObjectLaws one_thread two_open two_open (set_thread set_there) 2
      77 one_thread_ids refl
