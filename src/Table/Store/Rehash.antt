-- ===== src/Table/Store/Rehash.antt =====
-- `rehash` and the steps before a search: they leave a hash part with regions of the right size.
use vex_lua.Base.{
  ℕ, zero, suc, ◌+◌, ◌*◌, ◌%◌, ◌^◌, ◌<◌, ◌≤◌, ◌≡◌, ◌≢◌, refl, ap, sym, ◌∙◌, subst, Bool, true,
  false, not, ◌&&◌, ◌||◌, List, get_or, Option, none, some, set, ltb, ◌==◌, if◌then◌else◌, ok, err,
  arith, inl, inr, >>=-eq-ok, length-set, ok_injective,
}
use vex_lua.Table.Layout.{
  Object, Entry, min_hash_capacity, sync_layout_flags, is_nil_value, empty_entry,
}
use vex_lua.Table.Keys.{ctrl_fingerprint, normalize_hash_capacity, max_load}
use vex_lua.Table.Find.{duplicate_key}
use vex_lua.Table.Find.View.{probe_of}
use vex_lua.Table.Store.{HeapOps, Table, hash_regions, find_in}
use vex_lua.Table.Store.Grow.{
  at_least, put_entry, move_entry, rehash_loop, is_skipped, ensure_hash_capacity, rehash,
  start_rehash, end_rehash,
}
use vex_lua.Table.Store.Write.{first_hash_part, make_room}
use vex_lua.Table.Store.Invariant.{
  HeapLaws, HasHash, HashGrown, SameLayout, ok-second, bump_if_same, ensure_hash_lem,
}

module _ (base : Table) where
  -- Writing a cell keeps the sizes.
  pub cell_lem :
      (t : Table) (slot c : ℕ) (entry : Entry)
      → HashGrown base t
      → HashGrown base (record t { ctrl = set t.ctrl slot c; entries = set t.entries slot entry })
  cell_lem t slot c entry (sized, at, there, a, p, s) = (
    record {
      some_slot = sized.some_slot;
      ctrl_length = length-set t.ctrl slot c ∙ sized.ctrl_length;
      entries_length = length-set t.entries slot entry ∙ sized.entries_length;
    },
    at,
    there,
    a,
    p,
    s,
  )

  pub move_lem :
      (t t' : Table) (entry : Entry)
      → HashGrown base t
      → move_entry t entry ≡ ok t'
      → HashGrown base t'
  unfolding move_entry
  move_lem t t' entry g eq =
      let ((slot, found), f, rest) = >>=-eq-ok (find_in t (probe_of entry)) _ eq in
      go slot found rest
    where
      go :
          (slot : ℕ) (found : Option Entry)
          → elim found [ some _ ↦ err (duplicate_key slot) | none ↦ ok (put_entry t slot entry) ]
            ≡ ok t'
          → HashGrown base t'
      go slot (some x) h = cc
      go slot none h =
          subst (HashGrown base) (ok_injective h)
            (cell_lem t slot (ctrl_fingerprint entry.full_hash) entry g)

  pub round_lem :
      (t t₁ : Table) (entry : Entry) (b : Bool)
      → HashGrown base t
      → (if b then ok t else move_entry t entry) ≡ ok t₁
      → HashGrown base t₁
  round_lem t t₁ entry true g h = subst (HashGrown base) (ok_injective h) g
  round_lem t t₁ entry false g h = move_lem t t₁ entry g h

  pub loop_lem :
      (ctrl : List ℕ) (entries : List Entry) (n i : ℕ) (t t' : Table)
      → HashGrown base t
      → rehash_loop ctrl entries n i t ≡ ok t'
      → HashGrown base t'
  unfolding rehash_loop
  loop_lem ctrl entries zero i t t' g eq =
      subst (HashGrown base) (ok_injective {a = t} {b = t'} eq) g
  loop_lem ctrl entries (suc n) i t t' g eq =
      let entry = get_or entries i empty_entry in
      let skip = is_skipped (get_or ctrl i 0) || is_nil_value entry.value in
      let (t₁, moved, rest) = >>=-eq-ok (if skip then ok t else move_entry t entry) _ eq in
      loop_lem ctrl entries n (i + 1) t₁ t' (round_lem t t₁ entry skip g moved) rest

pub start_same : (o : Object) → SameLayout (start_rehash o) o
unfolding start_rehash
start_same o = ((refl, refl), (refl, refl, refl, refl))

pub end_same : (before o : Object) → SameLayout (end_rehash before o) o
unfolding end_rehash sync_layout_flags
end_same before o = bump_if_same _ _

pub object_lem :
    (base t : Table) (o : Object)
    → HashGrown base t
    → SameLayout o (t.object)
    → HashGrown base (record t { object = o })
object_lem base t o (sized, c, e, a, p, s) ((a₁, a₂), (h₁, h₂, h₃, h₄)) = (
  record {
    some_slot = omega (arith, sized.some_slot, h₁);
    ctrl_length = sized.ctrl_length ∙ ap (λ x. x + 1) (sym h₁);
    entries_length = sized.entries_length ∙ sym h₁;
  },
  (λ z. c (sym h₂ ∙ z)),
  (λ z. e (sym h₃ ∙ z)),
  (a₁ ∙ a.0, a₂ ∙ a.1),
  p,
  h₄ ∙ s,
)

pub at_least-ge : (a b : ℕ) → b ≤ at_least a b
at_least-ge a b = ground arith

pub minimum_lem : (capacity : ℕ) → 0 < at_least (normalize_hash_capacity min_hash_capacity) capacity
unfolding normalize_hash_capacity
minimum_lem capacity = ground arith

module _ {H : Type 0} (ops : HeapOps H) (laws : HeapLaws ops) (owner : ℕ) where
  -- Rehashing leaves regions of the right size, the array part and the seed.
  pub rehash_lem :
      (h h' : H) (t t' : Table) (minimum : ℕ)
      → 0 < t.object.hash_capacity
      → rehash ops owner h t minimum ≡ ok (h', t')
      → HashGrown t t'
  unfolding rehash
  rehash_lem h h' t t' minimum some_slot eq =
      let (old, o, rest) = >>=-eq-ok (hash_regions t) _ eq in
      let ((h₁, t₁), e, rest') = >>=-eq-ok (ensure_hash_capacity ops owner h t minimum) _ rest in
      let target = at_least-ge (normalize_hash_capacity minimum) t.object.hash_capacity in
      let grown = ensure_hash_lem ops laws owner h h₁ t t₁ minimum (omega (arith, target)) e in
      let started = record t₁ { object = start_rehash t₁.object } in
      let (t₂, moved, last) =
        >>=-eq-ok (rehash_loop old.ctrl old.entries old.capacity 0 started) _ rest' in
      let kept =
        loop_lem t old.ctrl old.entries old.capacity 0 started t₂
          (object_lem t t₁ (start_rehash t₁.object) grown (start_same t₁.object)) moved in
      subst (HashGrown t) (ok-second last)
        (object_lem t t₂ (end_rehash t.object t₂.object) kept (end_same t.object t₂.object))

  grown_trans : (a b c : Table) → HashGrown a b → HashGrown b c → HashGrown a c
  grown_trans a b c (s, d, e, (p₁, p₂), q, r) (s', d', e', (p₁', p₂'), q', r') =
      (s', d', e', (p₁' ∙ p₁, p₂' ∙ p₂), q' ∙ q, r' ∙ r)

  pub same_lem : (t : Table) → HasHash t → t.object.hash_capacity ≢ 0 → HashGrown t t
  same_lem t (inl none_there) some_there = absurd (some_there none_there)
  same_lem t (inr (sized, c, e)) some_there = (sized, c, e, (refl, refl), refl, refl)

  -- A table has a hash part once a value that is not nil is to be stored there.
  pub first_hash_part_lem :
      (h h' : H) (t t' : Table) (value : ℕ)
      → HasHash t
      → is_nil_value value ≡ false
      → first_hash_part ops owner h t value ≡ ok (h', t')
      → HashGrown t t'
  unfolding first_hash_part
  first_hash_part_lem h h' t t' value v full eq =
      go (t.object.hash_capacity == 0 && not (is_nil_value value)) refl eq
    where
      go :
          (b : Bool)
          → (t.object.hash_capacity == 0 && not (is_nil_value value)) ≡ b
          → (if b then ensure_hash_capacity ops owner h t min_hash_capacity else ok (h, t))
            ≡ ok (h', t')
          → HashGrown t t'
      go true test rest =
          ensure_hash_lem ops laws owner h h' t t' min_hash_capacity
            (minimum_lem t.object.hash_capacity) rest
      go false test rest =
          subst (HashGrown t) (ok-second rest) (same_lem t v (λ z. ground (arith, z, test)))

  pub make_room_lem :
      (h h' : H) (base t t' : Table) (value : ℕ)
      → HashGrown base t
      → make_room ops owner h t value ≡ ok (h', t')
      → HashGrown base t'
  unfolding make_room
  make_room_lem h h' base t t' value g eq =
      go
        (not (is_nil_value value)
          && ltb (max_load t.object.hash_capacity) ((t.object.hash_count + 1) % 2 ^ 32))
        eq
    where
      go :
          (b : Bool)
          → (if b then rehash ops owner h t (t.object.hash_capacity * 2 % 2 ^ 32) else ok (h, t))
            ≡ ok (h', t')
          → HashGrown base t'
      go true rest =
          grown_trans base t t' g
            (rehash_lem h h' t t' (t.object.hash_capacity * 2 % 2 ^ 32) (g.0.some_slot) rest)
      go false rest = subst (HashGrown base) (ok-second rest) g
