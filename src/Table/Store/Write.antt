-- ===== src/Table/Store/Write.antt =====
-- internal/runtime/table/store.go: `setArrayValue`, `setHashValue`, `setValue` and `Set`.
use vex_lua.Base.{
  ℕ, ◌+◌, ◌-◌, ◌*◌, ◌%◌, ◌^◌, bit_and, bit_or, Bool, true, false, not, ◌&&◌, ◌||◌, List, [], ◌∷◌,
  Option, none, some, set, ltb, leb, ◌==◌, if◌then◌else◌, Result, ok, err, ◌>>=◌, ◌>>◌,
}
use vex_lua.Value.TValue.{is_boxed_tag, payload, tag_string_ref}
use vex_lua.Table.Layout.{
  Object, Entry, empty_entry, ctrl_deleted, min_hash_capacity, flag_weak_keys, flag_weak_values,
  bump_version, sync_layout_flags, is_nil_value,
}
use vex_lua.Table.Keys.{
  max_load, remaining_growth, ctrl_fingerprint, should_use_array_path,
  weak_table_string_uses_strong_barrier, validate_key, array_index,
}
use vex_lua.Table.Find.{Error, bad_key, Probe}
use vex_lua.Table.Store.{HeapOps, Table, find_in, read_array_slot, write_array_slot, probe_key}
use vex_lua.Table.Store.Grow.{
  bump_if, ensure_array_capacity, ensure_hash_capacity, rehash, refresh_array_len_hint,
}

abbrev pub check_key : ℕ → Result Error (Unit {0})
check_key key = elim (validate_key key) [ ok _ ↦ ok tt | err e ↦ err (bad_key e) ]

abbrev pub lacks : Object → ℕ → Bool
lacks object mask = bit_and object.flags mask == 0

abbrev pub weak : ℕ
weak = bit_or flag_weak_keys flag_weak_values

abbrev pub differ : Bool → Bool → Bool
differ true b = not b
differ false b = b

-- `text[0] == '_' && text[1] == '_'`
abbrev pub starts_with_two : Result Error (List ℕ) → Bool
starts_with_two (ok (a ∷ b ∷ rest)) = a == 95 && b == 95
starts_with_two (ok (a ∷ [])) = false
starts_with_two (ok []) = false
starts_with_two (err e) = false

-- The object with another number of entries.
unfoldable pub with_count : Object → ℕ → Object
with_count object count = sync_layout_flags (
    bump_version (record object {
      hash_count = count;
      growth_left = remaining_growth object.hash_capacity count;
    }))

-- The tables that `setHashValue` makes: without an entry, with another value in an entry (and
-- another version, if `bump` says so), and with a new entry.
unfoldable pub without_entry : Table → ℕ → Table
without_entry t slot = record t {
  object = with_count t.object (if t.object.hash_count == 0 then 0 else t.object.hash_count - 1);
  ctrl = set t.ctrl slot ctrl_deleted;
  entries = set t.entries slot empty_entry;
}

unfoldable pub with_value : Table → ℕ → Entry → ℕ → Bool → Table
with_value t slot entry new_value bump = record t {
  object = bump_if bump t.object;
  entries = set t.entries slot (record entry { value = new_value });
}

unfoldable pub with_entry : Table → ℕ → Entry → Table
with_entry t slot entry = record t {
  object = with_count t.object ((t.object.hash_count + 1) % 2 ^ 32);
  ctrl = set t.ctrl slot (ctrl_fingerprint entry.full_hash);
  entries = set t.entries slot entry;
}

-- The entry for a key that was not found.
abbrev pub entry_for : Probe → ℕ → ℕ → Entry
entry_for p key_aux value = record {
  full_hash = p.full_hash;
  key_class = p.key_class;
  key_aux = key_aux;
  key = p.key;
  value = value;
}

-- The index of the array part that a value goes to.
abbrev pub array_target : Table → ℕ → ℕ → Option ℕ
array_target t key new_value = elim (array_index key) [
  | some index ↦
      if should_use_array_path t.object.array_cap index new_value then some index else none
  | none ↦ none
]

-- The object as it is written back.
unfoldable pub with_mark : Table → ℕ → Table
with_mark t mark = record t {
  object =
      sync_layout_flags (record (t.object) { common = record (t.object.common) { mark = mark } });
}

module _ {H : Type 0} (ops : HeapOps H) (owner : ℕ) where
  unfoldable pub is_version_sensitive_key : ℕ → Bool
  is_version_sensitive_key key =
      is_boxed_tag key tag_string_ref && starts_with_two (ops.string_text (payload key))

  -- `if object.Flags&mask == 0 || strong(value) { write barrier }`
  abbrev pub barrier_unless : H → Object → ℕ → ℕ → Result Error H
  barrier_unless h object mask value =
      if lacks object mask || weak_table_string_uses_strong_barrier value
      then ops.write_barrier h owner value
      else ok h

  abbrev pub remember_if_weak : H → Object → Result Error H
  remember_if_weak h object = if lacks object weak then ok h else ops.remember_weak h owner

  -- The barrier of an array slot: one of the two.
  abbrev pub barrier_or_remember : H → Object → ℕ → Result Error H
  barrier_or_remember h object value =
      if lacks object flag_weak_values || weak_table_string_uses_strong_barrier value
      then ops.write_barrier h owner value
      else ops.remember_weak h owner

  unfoldable pub set_array_value : H → Table → ℕ → ℕ → Result Error (H × Table)
  set_array_value h t index new_value = do
    (h₁, grown) ←
        if leb index t.object.array_cap
        then ok (h, t)
        else ensure_array_capacity ops owner h t index
    let previous = read_array_slot grown index
    let changed =
        not (previous == new_value) && differ (is_nil_value previous) (is_nil_value new_value)
    let bumped = record grown { object = bump_if changed grown.object }
    written ← write_array_slot bumped index new_value
    h₂ ← barrier_or_remember h₁ written.object new_value
    let hinted = refresh_array_len_hint written
    ok (h₂, record hinted { object = sync_layout_flags hinted.object })

  -- The branches of `setHashValue` after the search: the key was found and the value is nil, or
  -- another one; or it was not found.
  unfoldable pub remove_found : H → Table → ℕ → Result Error (H × Table)
  remove_found h t slot = do
    let removed = without_entry t slot
    h₁ ← remember_if_weak h removed.object
    ok (h₁, removed)

  unfoldable pub update_found : H → Table → ℕ → Entry → ℕ → ℕ → Result Error (H × Table)
  update_found h t slot entry key new_value = do
    h₁ ← barrier_unless h t.object flag_weak_values new_value
    h₂ ← remember_if_weak h₁ t.object
    let changed = not (entry.value == new_value)
    ok (h₂, with_value t slot entry new_value (changed && is_version_sensitive_key key))

  unfoldable pub add_entry : H → Table → ℕ → Entry → Result Error (H × Table)
  add_entry h t slot entry = do
    h₁ ← barrier_unless h t.object flag_weak_keys entry.key
    h₂ ← barrier_unless h₁ t.object flag_weak_values entry.value
    h₃ ← remember_if_weak h₂ t.object
    ok (h₃, with_entry t slot entry)

  unfoldable pub place : H → Table → Probe → ℕ → ℕ → ℕ × Option Entry → Result Error (H × Table)
  place h t p key_aux new_value (slot, some entry) =
      if is_nil_value new_value
      then remove_found h t slot
      else update_found h t slot entry p.key new_value
  place h t p key_aux new_value (slot, none) =
      if is_nil_value new_value
      then ok (h, t)
      else add_entry h t slot (entry_for p key_aux new_value)

  -- The search and the write, in a table with a hash part.
  unfoldable pub set_in_hash : H → Table → ℕ → ℕ → Result Error (H × Table)
  set_in_hash h t key new_value = do
    (p, key_aux) ← probe_key ops t.object key
    result ← find_in t p
    place h t p key_aux new_value result

  unfoldable pub make_room : H → Table → ℕ → Result Error (H × Table)
  make_room h t new_value =
      if not (is_nil_value new_value)
        && ltb (max_load t.object.hash_capacity) ((t.object.hash_count + 1) % 2 ^ 32)
      then rehash ops owner h t (t.object.hash_capacity * 2 % 2 ^ 32)
      else ok (h, t)

  unfoldable pub first_hash_part : H → Table → ℕ → Result Error (H × Table)
  first_hash_part h t new_value =
      if t.object.hash_capacity == 0 && not (is_nil_value new_value)
      then ensure_hash_capacity ops owner h t min_hash_capacity
      else ok (h, t)

  unfoldable pub set_hash_value : H → Table → ℕ → ℕ → Result Error (H × Table)
  set_hash_value h t key new_value = do
    (h₁, t₁) ← first_hash_part h t new_value
    if t₁.object.hash_capacity == 0
        then ok (h₁, t₁)
        else (do (h₂, t₂) ← make_room h₁ t₁ new_value; set_in_hash h₂ t₂ key new_value)

  unfoldable pub set_value : H → Table → ℕ → ℕ → Result Error (H × Table)
  set_value h t key new_value = elim (array_target t key new_value) [
    | some index ↦ set_array_value h t index new_value
    | none ↦ set_hash_value h t key new_value
  ]

  -- `writeObject`, which takes the mark from the heap and brings the flags up to date.
  unfoldable pub store_object : H → Table → Result Error Table
  store_object h t = do mark ← ops.header_mark h owner; ok (with_mark t mark)

  abbrev pub release_one : H → ℕ → ℕ → Result Error H
  release_one h old new = if old == 0 || old == new then ok h else ops.free_span h old

  unfoldable pub release_detached_payloads : H → Object → Object → Result Error H
  release_detached_payloads h previous current = do
    h₁ ← release_one h previous.array_data current.array_data
    h₂ ← release_one h₁ previous.ctrl_data current.ctrl_data
    release_one h₂ previous.entries_data current.entries_data

  -- `Set`
  unfoldable pub set_key : H → Table → ℕ → ℕ → Result Error (H × Table)
  set_key h t key new_value = do
    check_key key
    (h₁, updated) ← set_value h t key new_value
    stored ← store_object h₁ updated
    h₂ ← release_detached_payloads h₁ t.object updated.object
    ok (h₂, stored)
