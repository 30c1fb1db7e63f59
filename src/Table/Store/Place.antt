-- ===== src/Table/Store/Place.antt =====
-- `setHashValue` and `Set`, with a value that is not nil: `Get` finds the value then.
use vex_lua.Base.{
  ℕ, ◌<◌, ◌≡◌, sym, ◌∙◌, subst, true, false, not, ◌&&◌, Option, none, some, ◌==◌, ok, arith, inl,
  inr, >>=-eq-ok, Option-cases,
}
use vex_lua.Table.Layout.{Entry, flag_weak_keys, flag_weak_values, is_nil_value}
use vex_lua.Table.Keys.{array_index, should_use_array_path}
use vex_lua.Table.Find.{Probe}
use vex_lua.Table.Store.{HeapOps, Table, find_in, probe_key}
use vex_lua.Table.Store.Write.{
  check_key, with_value, with_entry, entry_for, barrier_unless, remember_if_weak, update_found,
  add_entry, place, set_in_hash, set_hash_value, first_hash_part, make_room,
  is_version_sensitive_key, array_target, set_value, set_key,
}
use vex_lua.Table.Store.Read.{get_in_hash, get}
use vex_lua.Table.Store.Invariant.{HeapLaws, HasHash, IsTable, HashGrown, ok-second}
use vex_lua.Table.Store.Rehash.{first_hash_part_lem, make_room_lem}
use vex_lua.Table.Store.Hash.{Finds, value_lem, entry_lem}
use vex_lua.Table.Store.Step.{array_index-positive, get_in_hash_congr, set_key_lem}
use vex_lua.Table.Store.Laws.{get-set_key_array}

module _ {H : Type 0} (ops : HeapOps H) (owner : ℕ) where
  pub update_result :
      (h h' : H) (t t' : Table) (s : ℕ) (e : Entry) (key value : ℕ)
      → update_found ops owner h t s e key value ≡ ok (h', t')
      → with_value t s e value (not (e.value == value) && is_version_sensitive_key ops owner key)
        ≡ t'
  unfolding update_found
  update_result h h' t t' s e key value eq =
      let (h₁, b, rest) =
        >>=-eq-ok (barrier_unless ops owner h t.object flag_weak_values value) _ eq in
      let (h₂, r, last) = >>=-eq-ok (remember_if_weak ops owner h₁ t.object) _ rest in
      ok-second last

  pub add_result :
      (h h' : H) (t t' : Table) (s : ℕ) (e : Entry)
      → add_entry ops owner h t s e ≡ ok (h', t')
      → with_entry t s e ≡ t'
  unfolding add_entry
  add_result h h' t t' s e eq =
      let (h₁, b, rest) =
        >>=-eq-ok (barrier_unless ops owner h t.object flag_weak_keys e.key) _ eq in
      let (h₂, b', rest') =
        >>=-eq-ok (barrier_unless ops owner h₁ t.object flag_weak_values e.value) _ rest in
      let (h₃, r, last) = >>=-eq-ok (remember_if_weak ops owner h₂ t.object) _ rest' in
      ok-second last

  place_lem :
      (h h' : H) (base t t' : Table) (p : Probe) (aux key value : ℕ) (r : ℕ × Option Entry)
      → HashGrown base t
      → probe_key ops t.object key ≡ ok (p, aux)
      → check_key key ≡ ok tt
      → is_nil_value value ≡ false
      → find_in t p ≡ ok r
      → place ops owner h t p aux value r ≡ ok (h', t')
      → Finds ops base t' key value
  unfolding place
  place_lem h h' base t t' p aux key value (s, some e) g k c full f eq =
      subst (λ x. Finds ops base x key value)
        (update_result h h' t t' s e p.key value (ground (arith, full, eq)))
        (value_lem ops base t p aux key value g k c full s e
          (not (e.value == value) && is_version_sensitive_key ops owner p.key) f)
  place_lem h h' base t t' p aux key value (s, none) g k c full f eq =
      subst (λ x. Finds ops base x key value)
        (add_result h h' t t' s (entry_for p aux value) (ground (arith, full, eq)))
        (entry_lem ops base t p aux key value g k c full s f)

  set_in_hash_lem :
      (h h' : H) (base t t' : Table) (key value : ℕ)
      → HashGrown base t
      → check_key key ≡ ok tt
      → is_nil_value value ≡ false
      → set_in_hash ops owner h t key value ≡ ok (h', t')
      → Finds ops base t' key value
  unfolding set_in_hash
  set_in_hash_lem h h' base t t' key value g c full eq =
      let ((p, aux), k, rest) = >>=-eq-ok (probe_key ops t.object key) _ eq in
      let (r, f, last) = >>=-eq-ok (find_in t p) _ rest in
      place_lem h h' base t t' p aux key value r g k c full f last

module _ {H : Type 0} (ops : HeapOps H) (laws : HeapLaws ops) (owner : ℕ) where
  pub set_hash_value_lem :
      (h h' : H) (t t' : Table) (key value : ℕ)
      → HasHash t
      → check_key key ≡ ok tt
      → is_nil_value value ≡ false
      → set_hash_value ops owner h t key value ≡ ok (h', t')
      → Finds ops t t' key value
  unfolding set_hash_value
  set_hash_value_lem h h' t t' key value v c full eq =
      let ((h₁, t₁), first, rest) = >>=-eq-ok (first_hash_part ops owner h t value) _ eq in
      let g = first_hash_part_lem ops laws owner h h₁ t t₁ value v full first in
      let ((h₂, t₂), room, last) =
        >>=-eq-ok (make_room ops owner h₁ t₁ value)
          (λ x. set_in_hash ops owner (x.0) (x.1) key value)
          (ground (arith, g.0.some_slot, rest)) in
      set_in_hash_lem ops owner h₂ h' t t₂ t' key value
        (make_room_lem ops laws owner h₁ h₂ t t₁ t₂ value g room) c full last

  pub hash_path :
      (h : H) (t : Table) (key value : ℕ)
      → array_target t key value ≡ none
      → set_value ops owner h t key value ≡ set_hash_value ops owner h t key value
  unfolding set_value
  hash_path h t key value none_there = ground (arith, none_there)

  pub array_path :
      (t : Table) (key value i : ℕ)
      → array_target t key value ≡ some i
      → (array_index key ≡ some i) × (should_use_array_path t.object.array_cap i value ≡ true)
  array_path t key value i at = ground (arith, at)

  -- A key that goes to the hash part with a value is not an index of the array part.
  outside_lem :
      (t : Table) (key value i : ℕ)
      → is_nil_value value ≡ false
      → array_target t key value ≡ none
      → array_index key ≡ some i
      → t.object.array_cap < i
  unfolding should_use_array_path
  outside_lem t key value i full none_there at =
      ground (arith, none_there, at, array_index-positive key i)

  get_outside :
      (t : Table) (key : ℕ)
      → check_key key ≡ ok tt
      → ((i : ℕ) → array_index key ≡ some i → t.object.array_cap < i)
      → get ops t key ≡ get_in_hash ops t key
  unfolding get
  get_outside t key c past = elim (Option-cases (array_index key)) [
    | inl gone ↦ ground (arith, c, gone)
    | inr (i, at) ↦ ground (arith, c, at, past i at)
  ]

  -- For a table whose regions are as its object says, over a heap that never gives out offset 0:
  -- after a `Set` that succeeds of a key to a value that is not nil, `Get` of the key returns the
  -- value, whether it goes to the array part or to the hash part, and whether either has to grow
  -- for it.
  pub get-set_key :
      (h h' : H) (t t' : Table) (key value : ℕ)
      → IsTable t
      → is_nil_value value ≡ false
      → set_key ops owner h t key value ≡ ok (h', t')
      → get ops t' key ≡ ok (some value)
  get-set_key h h' t t' key value (va, vh) full eq =
      elim (Option-cases (array_target t key value)) [
        | inr (i, at) ↦
            (let (index, path) = array_path t key value i at in
              get-set_key_array ops laws owner h h' t t' key value i va index path full eq)
        | inl none_there ↦
            (let (h₁, u, c, s, ((array, hash), a, p, q)) =
                set_key_lem ops owner h h' t t' key value eq in
              let (g, found) =
                set_hash_value_lem h h₁ t u key value vh c full
                  (sym (hash_path h t key value none_there) ∙ s) in
              get_outside t' key c (λ i at.
                omega (arith, outside_lem t key value i full none_there at, array.0, g.3.0))
              ∙ get_in_hash_congr ops u t' key hash p q
              ∙ found)
      ]
