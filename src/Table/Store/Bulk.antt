-- ===== src/Table/Store/Bulk.antt =====
-- internal/runtime/table/store.go: `New`, `SetListArray` and `SetMetatable`.
use vex_lua.Base.{
  ℕ, ◌+◌, ◌^◌, bit_or, bit_xor, Bool, true, false, not, ◌&&◌, ◌||◌, List, [], ◌∷◌, length, ltb,
  ◌==◌, if◌then◌else◌, Result, ok, ◌>>=◌, ◌>>◌, guard,
}
use vex_lua.Value.Header.{with_bits, without}
use vex_lua.Table.Layout.{
  Object, object_size, new_object, bump_version, sync_layout_flags, is_nil_value,
  flag_has_metatable, flag_index_fast_path_blocked, flag_new_index_fast_path_blocked,
}
use vex_lua.Table.Keys.{mix64_to_32}
use vex_lua.Table.Find.{Error, array_range}
use vex_lua.Table.Store.{HeapOps, Table, read_array_slot, write_array_slot}
use vex_lua.Table.Store.Grow.{
  bump_if, ensure_array_capacity, ensure_hash_capacity, refresh_array_len_hint,
}
use vex_lua.Table.Store.Write.{
  differ, lacks, barrier_or_remember, store_object, release_detached_payloads,
}
use vex_lua.Table.Store.Read.{blocks_set}

abbrev metatable_flags : ℕ
metatable_flags =
    bit_or (bit_or flag_has_metatable flag_index_fast_path_blocked) flag_new_index_fast_path_blocked

-- The object with another metatable.
unfoldable pub with_metatable : Object → ℕ → Object
with_metatable object metatable = bump_version (record object {
  metatable = metatable;
  flags =
      if is_nil_value metatable
      then without object.flags metatable_flags
      else with_bits object.flags metatable_flags;
})

unfoldable pub fresh_table : ℕ → Table
fresh_table ref = record {
  object = new_object (mix64_to_32 (bit_xor ref 0xa511e9b3));
  array = [];
  ctrl = [];
  entries = [];
}

module _ {H : Type 0} (ops : HeapOps H) where
  -- `New`: the table's reference and the table, whose object is at the offset `owner`.
  unfoldable pub new_table : H → ℕ → ℕ → Result Error (H × (ℕ × (ℕ × Table)))
  new_table h array_cap hash_cap = do
    (h₁, (ref, owner)) ← ops.alloc_object h object_size
    let empty = fresh_table ref
    (h₂, t₁) ←
        if array_cap == 0
        then ok (h₁, empty)
        else ensure_array_capacity ops owner h₁ empty array_cap
    (h₃, t₂) ← if hash_cap == 0 then ok (h₂, t₁) else ensure_hash_capacity ops owner h₂ t₁ hash_cap
    ok (h₃, (ref, (owner, record t₂ { object = sync_layout_flags t₂.object })))

module _ {H : Type 0} (ops : HeapOps H) (owner : ℕ) where
  -- One value of the list, and whether a slot has become nil or has ceased to be nil.
  unfoldable pub set_list_slot : H → Table → Bool → ℕ → ℕ → Result Error (H × (Table × Bool))
  set_list_slot h t changed index value = do
    let previous = read_array_slot t index
    let now = not (previous == value) && differ (is_nil_value previous) (is_nil_value value)
    written ← write_array_slot t index value
    h₁ ← barrier_or_remember ops owner h written.object value
    ok (h₁, (written, changed || now))

  unfoldable pub set_list_loop : H → Table → Bool → ℕ → List ℕ → Result Error (H × (Table × Bool))
  set_list_loop h t changed index [] = ok (h, (t, changed))
  set_list_loop h t changed index (value ∷ values) = do
    (h₁, (t₁, changed₁)) ← set_list_slot h t changed index value
    set_list_loop h₁ t₁ changed₁ (index + 1) values

  -- The Boolean says whether the list was stored.
  unfoldable pub set_list_array : H → Table → ℕ → List ℕ → Result Error (H × (Table × Bool))
  set_list_array h t start_index [] = do
    guard (not (start_index == 0)) (array_range start_index)
    ok (h, (t, true))
  set_list_array h t start_index (value ∷ values) = do
    guard (not (start_index == 0)) (array_range start_index)
    let last_index = start_index + length values
    guard (ltb last_index (2 ^ 32)) (array_range last_index)
    if not (lacks t.object blocks_set) then ok (h, (t, false)) else (do
      (h₁, grown) ← ensure_array_capacity ops owner h t last_index
      (h₂, (filled, changed)) ← set_list_loop h₁ grown false start_index (value ∷ values)
      let bumped = record filled { object = bump_if changed filled.object }
      let hinted = refresh_array_len_hint bumped
      stored ←
          store_object ops owner h₂ (record hinted { object = sync_layout_flags hinted.object })
      h₃ ← release_detached_payloads ops owner h₂ t.object stored.object
      ok (h₃, (stored, true)))

  unfoldable pub set_metatable : H → Table → ℕ → Result Error (H × Table)
  set_metatable h t metatable = if t.object.metatable == metatable then ok (h, t) else (do
    stored ← store_object ops owner h (record t { object = with_metatable t.object metatable })
    h₁ ← ops.write_barrier h owner metatable
    ok (h₁, stored))
