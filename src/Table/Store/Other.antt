-- ===== src/Table/Store/Other.antt =====
-- `Get` of a key after `Set` of another one.
use vex_lua.Base.{ℕ, ◌≡◌, ◌≢◌, sym, ap, ◌∙◌, false, some, ok, inl, inr, Option-cases}
use vex_lua.Table.Keys.{values_equal, array_index}
use vex_lua.Table.Store.{HeapOps, Table}
use vex_lua.Table.Store.Write.{set_key, array_target}
use vex_lua.Table.Store.Read.{get}
use vex_lua.Table.Store.Invariant.{HeapLaws, IsTable}
use vex_lua.Table.Store.Slot.{read_array_slot_congr, set_array_value_lem}
use vex_lua.Table.Store.Slots.{set_array_value-others}
use vex_lua.Table.Store.Step.{get_in_hash_congr, set_key_lem}
use vex_lua.Table.Store.Laws.{target_lem}
use vex_lua.Table.Store.Place.{hash_path, array_path}
use vex_lua.Table.Store.Kept.{hash_kept}
use vex_lua.Table.Store.Ordered.{HasOrder, ordered}
use vex_lua.Table.Store.Beside.{
  get_in_hash-set_hash_value, from_array_congr, get_congr, held-some_slot,
}

module _ {H : Type 0} (ops : HeapOps H) (laws : HeapLaws ops) (owner : ℕ) where
  -- For a table whose regions are as its object says and whose hash part finds its entries, over a
  -- heap that never gives out offset 0: a `Set` of a key that succeeds, with any value, nil
  -- included, and through any growth, keeps what `Get` returns for every other key that has a
  -- value. Other keys are not equal to the key, and are not the same index of an array.
  pub get-set_key_other :
      (h h' : H) (t t' : Table) (key other value held : ℕ)
      → IsTable t
      → HasOrder t
      → values_equal key other ≡ false
      → ((i : ℕ) → array_index key ≡ some i → array_index other ≢ some i)
      → set_key ops owner h t key value ≡ ok (h', t')
      → get ops t other ≡ ok (some held)
      → get ops t' other ≡ ok (some held)
  get-set_key_other h h' t t' key other value held (va, vh) o different apart eq there =
      let (h₁, u, c, s, ((array, hash), a, p, q)) = set_key_lem ops owner h h' t t' key value eq in
      elim (Option-cases (array_target t key value)) [
        | inr (i, at) ↦
            (let (index, path) = array_path ops laws owner t key value i at in
              let s' = sym (target_lem ops laws owner h t key value i index path) ∙ s in
              let ((grown, same, cs, es), here, positive, low) =
                set_array_value_lem ops laws owner h h₁ t u i value va s' in
              get_congr ops t t' other held
                (from_array_congr t t' (array_index other) (λ j found.
                  read_array_slot_congr u t' j array a
                  ∙ set_array_value-others ops laws owner h h₁ t u i value j va
                      (λ e. apart i index (found ∙ ap some e)) s'))
                (λ held_there.
                  get_in_hash_congr ops u t' other hash p q
                  ∙ get_in_hash_congr ops t u other same cs es
                  ∙ held_there)
                there)
        | inl none_there ↦
            (let s' = sym (hash_path ops laws owner h t key value none_there) ∙ s in
              let (v', array', a') = hash_kept ops laws owner h h₁ t u key value vh c s' in
              get_congr ops t t' other held
                (from_array_congr t t' (array_index other) (λ j found.
                  read_array_slot_congr u t' j array a ∙ read_array_slot_congr t u j array' a'))
                (λ held_there.
                  get_in_hash_congr ops u t' other hash p q
                  ∙ get_in_hash-set_hash_value ops laws owner h h₁ t u key other value held vh
                      (ordered t o (held-some_slot ops t other held held_there)) c different s'
                      held_there)
                there)
      ]
