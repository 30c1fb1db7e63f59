-- ===== src/Table/Store/Beside.antt =====
-- `Set` of a key, and `Get` of another one.
use vex_lua.Base.{
  ◌>>=◌, ℕ, ◌≡◌, ◌≢◌, refl, ap, sym, ◌∙◌, subst, false, Option, none, some, ◌==◌, if◌then◌else◌, ok,
  arith, inl, inr, >>=-eq-ok, ok_injective, Bool-cases, Option-cases,
}
use vex_lua.Table.Layout.{Entry, is_nil_value}
use vex_lua.Table.Keys.{values_equal, array_index}
use vex_lua.Table.Find.{Probe}
use vex_lua.Table.Store.{HeapOps, Table, cells_of, find_in, probe_key, read_array_slot}
use vex_lua.Table.Store.Write.{check_key, make_room, set_in_hash, first_hash_part, set_hash_value}
use vex_lua.Table.Store.Read.{get_in_hash, present_value, get, from_array}
use vex_lua.Table.Store.Invariant.{HeapLaws, HasHash, HashGrown}
use vex_lua.Table.Store.Hash.{find_in_regions, get_found, probe_key-key, probe_key_congr}
use vex_lua.Table.Store.Rehash.{make_room_lem, same_lem}
use vex_lua.Table.Store.Moved.{entry_part, lookup, IsOrdered}
use vex_lua.Table.Store.Laws.{nil_word-nil}
use vex_lua.Table.Store.Others.{lookup-found}
use vex_lua.Table.Store.Spared.{set_in_hash-Spares, make_room-Keeps}
use vex_lua.Table.Store.Place.{set_hash_value_lem}
use vex_lua.Table.Store.Kept.{set_hash_nil, set_in_hash_nil}
use vex_lua.Table.Find.Write.{hit}

-- What `Get` finds in the hash part.
record IsHeld {H : Type 0} (ops : HeapOps H) (t : Table) (key value : ℕ) : Type 0 where
  some_slot : t.object.hash_capacity ≢ 0
  probe : Probe
  aux : ℕ
  slot : ℕ
  entry : Entry
  probed : probe_key ops t.object key ≡ ok (probe, aux)
  found : find_in t probe ≡ ok (slot, some entry)
  here : entry.value ≡ value
  full : is_nil_value value ≡ false

present_value-some :
    (r : ℕ × Option Entry) (value : ℕ)
    → present_value r ≡ some value
    → (s : ℕ) × (e : Entry) × (r ≡ (s, some e)) × (e.value ≡ value) × (is_nil_value value ≡ false)
present_value-some (s, some e) value h = elim (Bool-cases (is_nil_value e.value)) [
  | inl gone ↦ absurd (ground (arith, rw gone at h))
  | inr full ↦
      (let same : e.value ≡ value = ground (arith, rw full at h) in
        (s, e, refl, same, sym (ap is_nil_value same) ∙ full))
]
present_value-some (s, none) value h = cc

get_in_hash-IsHeld :
    {H : Type 0} (ops : HeapOps H) (t : Table) (key value : ℕ)
    → get_in_hash ops t key ≡ ok (some value)
    → IsHeld ops t key value
unfolding get_in_hash
get_in_hash-IsHeld ops t key value eq = elim (Bool-cases (t.object.hash_capacity == 0)) [
  | inl none_there ↦ absurd (ground (arith, rw (get_in_hash, none_there) at eq))
  | inr some_there ↦
      (let ((p, aux), k, rest) =
          >>=-eq-ok (probe_key ops t.object key) _ (rw (get_in_hash, some_there) at eq) in
        let (r, f, last) = >>=-eq-ok (find_in t p) _ rest in
        let (s, e, at, same, full) = present_value-some r value (ok_injective last) in
        record {
          some_slot = λ z. ground (arith, z, some_there);
          probe = p;
          aux = aux;
          slot = s;
          entry = e;
          probed = k;
          found = f ∙ ap ok at;
          here = same;
          full = full;
        })
]

-- A hash part whose regions are there has room made in it, and is written.
set_hash_value-some :
    {H : Type 0} (ops : HeapOps H) (owner : ℕ) (h : H) (t : Table) (key value : ℕ)
    → t.object.hash_capacity ≢ 0
    → set_hash_value ops owner h t key value
      ≡ (make_room ops owner h t value >>= λ x. set_in_hash ops owner (x.0) (x.1) key value)
unfolding set_hash_value first_hash_part
set_hash_value-some ops owner h t key value some_slot = ground (arith, some_slot)

module _ {H : Type 0} (ops : HeapOps H) (laws : HeapLaws ops) (owner : ℕ) where
  pub hash_grown :
      (h h' : H) (t t' : Table) (key value : ℕ)
      → HasHash t
      → t.object.hash_capacity ≢ 0
      → check_key key ≡ ok tt
      → set_hash_value ops owner h t key value ≡ ok (h', t')
      → HashGrown t t'
  hash_grown h h' t t' key value v some_slot c eq = elim (Bool-cases (is_nil_value value)) [
    | inr full ↦ (set_hash_value_lem ops laws owner h h' t t' key value v c full eq).0
    | inl gone ↦ elim (set_hash_nil ops owner h h' t t' key value gone eq) [
      | inl same ↦ subst (HashGrown t) same (same_lem ops laws owner t v some_slot)
      | inr (there, rest) ↦
          set_in_hash_nil ops owner h h' t t' key value (same_lem ops laws owner t v there) gone
            rest
    ]
  ]

  -- A value that the hash part has for another key stays.
  set_hash_value-lookup :
      (h h' : H) (t t' : Table) (key value : ℕ) (q : Probe) (e : Entry)
      → HasHash t
      → t.object.hash_capacity ≢ 0
      → IsOrdered (cells_of t)
      → check_key key ≡ ok tt
      → values_equal key q.key ≡ false
      → set_hash_value ops owner h t key value ≡ ok (h', t')
      → lookup (cells_of t) q ≡ some e
      → is_nil_value e.value ≡ false
      → IsOrdered (cells_of t') × (lookup (cells_of t') q ≡ some e)
  set_hash_value-lookup h h' t t' key value q e v some_slot ordered c different eq there full =
      let ((h₂, t₂), room, last) =
        >>=-eq-ok (make_room ops owner h t value) (λ x. set_in_hash ops owner (x.0) (x.1) key value)
          (sym (set_hash_value-some ops owner h t key value some_slot) ∙ eq) in
      let (ordered₂, keeps) = make_room-Keeps ops laws owner h h₂ t t₂ value ordered room in
      let g =
        make_room_lem ops laws owner h h₂ t t t₂ value (same_lem ops laws owner t v some_slot)
          room in
      let (ordered', same) =
        set_in_hash-Spares ops owner h₂ h' t t₂ t' key value q g ordered₂ c different last in
      (ordered', same ∙ keeps q e there full)

  pub get_in_hash-set_hash_value :
      (h h' : H) (t t' : Table) (key other value held : ℕ)
      → HasHash t
      → IsOrdered (cells_of t)
      → check_key key ≡ ok tt
      → values_equal key other ≡ false
      → set_hash_value ops owner h t key value ≡ ok (h', t')
      → get_in_hash ops t other ≡ ok (some held)
      → get_in_hash ops t' other ≡ ok (some held)
  get_in_hash-set_hash_value h h' t t' key other value held v ordered c different eq there =
      let b = get_in_hash-IsHeld ops t other held there in
      let g = hash_grown h h' t t' key value v b.some_slot c eq in
      let w = same_lem ops laws owner t v b.some_slot in
      let named = probe_key-key ops t.object other b.aux b.probe b.probed in
      let found = sym (find_in_regions t b.probe b.some_slot (w.1) (w.2)) ∙ b.found in
      let (ordered', here) =
        set_hash_value-lookup h h' t t' key value b.probe b.entry v b.some_slot ordered c
          (ap (values_equal key) named ∙ different) eq (ap (λ r. entry_part (hit r)) found)
          (ap is_nil_value b.here ∙ b.full) in
      let (s, at) = lookup-found (cells_of t') b.probe b.entry here in
      let some_slot : t'.object.hash_capacity ≢ 0 = λ z. omega (arith, z, g.0.some_slot) in
      get_found ops t' b.probe other b.aux s b.entry some_slot
        (probe_key_congr ops t'.object t.object other (g.5) ∙ b.probed)
        (find_in_regions t' b.probe some_slot (g.1) (g.2) ∙ at) (ap is_nil_value b.here ∙ b.full)
      ∙ ap (λ x. ok (some x)) b.here

-- What the array part has for a key, by its slot alone.
abbrev slot_part : ℕ → ℕ → Option (ℕ × ℕ)
slot_part j value = if is_nil_value value then none else some (j, value)

from_array-slot_part :
    (t : Table) (j : ℕ) → from_array t (some j) ≡ slot_part j (read_array_slot t j)
unfolding read_array_slot
from_array-slot_part t j = ground (arith, nil_word-nil)

pub from_array_congr :
    (t t' : Table) (index : Option ℕ)
    → ((j : ℕ) → index ≡ some j → read_array_slot t' j ≡ read_array_slot t j)
    → from_array t' index ≡ from_array t index
from_array_congr t t' none same = refl
from_array_congr t t' (some j) same =
    from_array-slot_part t' j ∙ ap (slot_part j) (same j refl) ∙ sym (from_array-slot_part t j)

pub get_congr :
    {H : Type 0} (ops : HeapOps H) (t t' : Table) (key held : ℕ)
    → from_array t' (array_index key) ≡ from_array t (array_index key)
    → (get_in_hash ops t key ≡ ok (some held) → get_in_hash ops t' key ≡ ok (some held))
    → get ops t key ≡ ok (some held)
    → get ops t' key ≡ ok (some held)
unfolding get
get_congr ops t t' key held same keeps eq =
    let (u, c, rest) = >>=-eq-ok (check_key key) _ eq in
    elim (Option-cases (from_array t (array_index key))) [
      | inr (x, at) ↦ rw (get, c, same, at) (rw at at rest)
      | inl gone ↦ rw (get, c, same, gone) (keeps (rw gone at rest))
    ]

pub held-some_slot :
    {H : Type 0} (ops : HeapOps H) (t : Table) (key held : ℕ)
    → get_in_hash ops t key ≡ ok (some held)
    → t.object.hash_capacity ≢ 0
held-some_slot ops t key held there = (get_in_hash-IsHeld ops t key held there).some_slot
