-- ===== src/Table/Store/Kept.antt =====
-- `Set` keeps the regions of a table in order.
use vex_lua.Base.{
  ℕ, ◌+◌, ◌-◌, ◌≡◌, ◌≢◌, refl, ap, sym, ◌∙◌, subst, true, Option, none, length, some, set, ◌==◌,
  if◌then◌else◌, ok, arith, inl, inr, ◌⊎◌, >>=-eq-ok, Bool-cases, Option-cases,
}
use vex_lua.Table.Layout.{Entry, empty_entry, ctrl_deleted, is_nil_value}
use vex_lua.Table.Find.{Probe}
use vex_lua.Table.Store.{HeapOps, Table, find_in, probe_key}
use vex_lua.Table.Store.Write.{
  check_key, with_count, without_entry, remember_if_weak, remove_found, place, set_in_hash,
  set_hash_value, first_hash_part, make_room, array_target, set_key,
}
use vex_lua.Table.Store.Invariant.{
  HeapLaws, HasHash, HasArray, IsTable, HashGrown, SameArray, SameHash, ok-second,
}
use vex_lua.Table.Store.Slot.{set_array_value_lem}
use vex_lua.Table.Store.Rehash.{cell_lem, object_lem, same_lem}
use vex_lua.Table.Store.Hash.{count_same}
use vex_lua.Table.Store.Step.{set_key_lem}
use vex_lua.Table.Store.Laws.{target_lem}
use vex_lua.Table.Store.Place.{set_hash_value_lem, hash_path, array_path}

-- A step that leaves the array part, and a hash part in order.
abbrev HashKept : Table → Table → Type 0
HashKept t t' = HasHash t' × SameArray (t'.object) (t.object) × (t'.array ≡ t.array)

removed_lem : (t : Table) (s : ℕ) → HashGrown t t → HashGrown t (without_entry t s)
unfolding without_entry
removed_lem t s g =
    object_lem t
      (record t { ctrl = set t.ctrl s ctrl_deleted; entries = set t.entries s empty_entry })
      (with_count t.object (if t.object.hash_count == 0 then 0 else t.object.hash_count - 1))
      (cell_lem t t s ctrl_deleted empty_entry g) (count_same t.object _)

grown_kept : (t t' : Table) → HashGrown t t' → HashKept t t'
grown_kept t t' (sized, c, e, a, p, s) = (inr (sized, c, e), a, p)

module _ {H : Type 0} (ops : HeapOps H) (owner : ℕ) where
  pub remove_result :
      (h h' : H) (t t' : Table) (s : ℕ)
      → remove_found ops owner h t s ≡ ok (h', t')
      → without_entry t s ≡ t'
  unfolding remove_found
  remove_result h h' t t' s eq =
      let (h₁, r, last) =
        >>=-eq-ok (remember_if_weak ops owner h (without_entry t s).object) _ eq in
      ok-second last

  place_nil :
      (h h' : H) (t t' : Table) (p : Probe) (aux value : ℕ) (r : ℕ × Option Entry)
      → HashGrown t t
      → is_nil_value value ≡ true
      → place ops owner h t p aux value r ≡ ok (h', t')
      → HashGrown t t'
  unfolding place
  place_nil h h' t t' p aux value (s, some e) g gone eq =
      subst (HashGrown t) (remove_result h h' t t' s (ground (arith, gone, eq))) (removed_lem t s g)
  place_nil h h' t t' p aux value (s, none) g gone eq =
      subst (HashGrown t) (ok-second {a = h} {c = h'} {b = t} {d = t'} (ground (arith, gone, eq))) g

  pub set_in_hash_nil :
      (h h' : H) (t t' : Table) (key value : ℕ)
      → HashGrown t t
      → is_nil_value value ≡ true
      → set_in_hash ops owner h t key value ≡ ok (h', t')
      → HashGrown t t'
  unfolding set_in_hash
  set_in_hash_nil h h' t t' key value g gone eq =
      let ((p, aux), k, rest) = >>=-eq-ok (probe_key ops t.object key) _ eq in
      let (r, f, last) = >>=-eq-ok (find_in t p) _ rest in
      place_nil h h' t t' p aux value r g gone last

  pub set_hash_nil :
      (h h' : H) (t t' : Table) (key value : ℕ)
      → is_nil_value value ≡ true
      → set_hash_value ops owner h t key value ≡ ok (h', t')
      → ((t ≡ t')
          ⊎ ((t.object.hash_capacity ≢ 0) × (set_in_hash ops owner h t key value ≡ ok (h', t'))))
  unfolding set_hash_value first_hash_part make_room
  set_hash_nil h h' t t' key value gone eq = ground (arith, gone, eq)

module _ {H : Type 0} (ops : HeapOps H) (laws : HeapLaws ops) (owner : ℕ) where
  pub hash_kept :
      (h h' : H) (t t' : Table) (key value : ℕ)
      → HasHash t
      → check_key key ≡ ok tt
      → set_hash_value ops owner h t key value ≡ ok (h', t')
      → HashKept t t'
  hash_kept h h' t t' key value v c eq = elim (Bool-cases (is_nil_value value)) [
    | inr full ↦
        grown_kept t t' (set_hash_value_lem ops laws owner h h' t t' key value v c full eq).0
    | inl gone ↦ elim (set_hash_nil ops owner h h' t t' key value gone eq) [
      | inl same ↦ subst (HashKept t) same (v, (refl, refl), refl)
      | inr (some_slot, rest) ↦ grown_kept t t' (
          set_in_hash_nil ops owner h h' t t' key value (same_lem ops laws owner t v some_slot) gone
            rest)
    ]
  ]

  array_same :
      (t u : Table) → HasArray u → SameArray (t.object) (u.object) → t.array ≡ u.array → HasArray t
  array_same t u (len, there) (a, b) p = (ap length p ∙ len ∙ sym a, ground (arith, there, a, b))

  hash_same :
      (t u : Table)
      → HasHash u
      → SameHash (t.object) (u.object)
      → t.ctrl ≡ u.ctrl
      → t.entries ≡ u.entries
      → HasHash t
  hash_same t u (inl gone) (a, b, c, d) p q = inl (a ∙ gone)
  hash_same t u (inr (sized, at, there)) (a, b, c, d) p q = inr (
    record {
      some_slot = omega (arith, sized.some_slot, a);
      ctrl_length = ap length p ∙ sized.ctrl_length ∙ ap (λ x. x + 1) (sym a);
      entries_length = ap length q ∙ sized.entries_length ∙ sym a;
    },
    (λ z. at (sym b ∙ z)),
    (λ z. there (sym c ∙ z)),
  )

  -- Over a heap that never gives out offset 0, a `Set` that succeeds keeps the regions of a table
  -- as long as its object says, and present where a capacity is not 0: for any key and value, nil
  -- included, and through any growth.
  pub set_key-IsTable :
      (h h' : H) (t t' : Table) (key value : ℕ)
      → IsTable t
      → set_key ops owner h t key value ≡ ok (h', t')
      → IsTable t'
  set_key-IsTable h h' t t' key value (va, vh) eq =
      let (h₁, u, c, s, ((array, hash), a, p, q)) = set_key_lem ops owner h h' t t' key value eq in
      elim (Option-cases (array_target t key value)) [
        | inr (i, at) ↦
            (let (index, path) = array_path ops laws owner t key value i at in
              let ((there, same, cs, es), here, positive, low) =
                set_array_value_lem ops laws owner h h₁ t u i value va
                  (sym (target_lem ops laws owner h t key value i index path) ∙ s) in
              (
                array_same t' u there array a,
                hash_same t' t vh
                    (hash.0 ∙ same.0, hash.1 ∙ same.1, hash.2 ∙ same.2, hash.3 ∙ same.3) (p ∙ cs)
                    (q ∙ es),
              ))
        | inl none_there ↦
            (let (kept, same, slots) =
                hash_kept h h₁ t u key value vh c
                  (sym (hash_path ops laws owner h t key value none_there) ∙ s) in
              (
                array_same t' t va (array.0 ∙ same.0, array.1 ∙ same.1) (a ∙ slots),
                hash_same t' u kept hash p q,
              ))
      ]
