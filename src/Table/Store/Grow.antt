-- ===== src/Table/Store/Grow.antt =====
-- internal/runtime/table/store.go: `ensureArrayCapacity`, `ensureHashCapacity`, `rehash` and
-- `refreshArrayLenHint`.
use vex_lua.Base.{
  ℕ, zero, suc, ◌+◌, ◌*◌, ◌%◌, ◌^◌, Bool, not, ◌&&◌, ◌||◌, List, [], ◌∷◌, ◌++◌, none, some,
  replicate, get_or, set, ltb, ◌==◌, if◌then◌else◌, Result, ok, err, ◌>>=◌,
}
use vex_lua.Value.Header.{with_bits, without}
use vex_lua.Table.Layout.{
  Object, Entry, nil_word, empty_entry, entry_size, ctrl_empty, ctrl_deleted, ctrl_sentinel,
  flag_rehashing, bump_version, sync_layout_flags, is_nil_value,
}
use vex_lua.Table.Keys.{
  next_power_of_two, normalize_hash_capacity, remaining_growth, ctrl_fingerprint,
}
use vex_lua.Table.Find.{Error, duplicate_key}
use vex_lua.Table.Find.View.{probe_of}
use vex_lua.Table.Store.{HeapOps, Table, hash_regions, find_in}

abbrev pub tvalue_size : ℕ
tvalue_size = 8

abbrev pub layout_tvalue_array : ℕ
layout_tvalue_array = 2

abbrev pub layout_hash_control : ℕ
layout_hash_control = 4

abbrev pub layout_hash_entry_array : ℕ
layout_hash_entry_array = 5

-- A new array of `n` slots: the old ones, then nil.
unfoldable pub copy_slots : ℕ → List ℕ → List ℕ
copy_slots zero old = []
copy_slots (suc n) [] = nil_word ∷ copy_slots n []
copy_slots (suc n) (v ∷ old) = v ∷ copy_slots n old

abbrev pub bump_if : Bool → Object → Object
bump_if test object = if test then bump_version object else object

abbrev pub at_least : ℕ → ℕ → ℕ
at_least target current = if ltb target current then current else target

-- The table with a new array region.
unfoldable pub with_array : Table → ℕ → ℕ → Table
with_array t target offset =
    let old = if t.object.array_cap == 0 || t.object.array_data == 0 then [] else t.array in
    let bumped =
      bump_if (not (t.object.array_data == 0) && not (t.object.array_data == offset)) t.object in
    record t {
      object = sync_layout_flags (record bumped { array_data = offset; array_cap = target });
      array = copy_slots target old;
    }

-- The table with new hash regions, which are empty.
unfoldable pub with_hash : Table → ℕ → ℕ → ℕ → Table
with_hash t target ctrl entries =
    let bumped =
      bump_if (not (t.object.ctrl_data == 0) || not (t.object.entries_data == 0)) t.object in
    record t {
      object = sync_layout_flags (record bumped {
        ctrl_data = ctrl;
        entries_data = entries;
        hash_capacity = target;
        hash_count = 0;
        growth_left = remaining_growth target 0;
      });
      ctrl = replicate target ctrl_empty ++ ctrl_sentinel ∷ [];
      entries = replicate target empty_entry;
    }

module _ {H : Type 0} (ops : HeapOps H) (owner : ℕ) where
  unfoldable pub ensure_array_capacity : H → Table → ℕ → Result Error (H × Table)
  ensure_array_capacity h t minimum =
      let target = at_least (next_power_of_two minimum) t.object.array_cap in
      do
        (h₁, offset) ← ops.alloc_payload h (target * tvalue_size) layout_tvalue_array owner
        ok (h₁, with_array t target offset)

  unfoldable pub ensure_hash_capacity : H → Table → ℕ → Result Error (H × Table)
  ensure_hash_capacity h t minimum =
      let target = at_least (normalize_hash_capacity minimum) t.object.hash_capacity in
      do
        (h₁, ctrl) ← ops.alloc_payload h (target + 1) layout_hash_control owner
        (h₂, entries) ← ops.alloc_payload h₁ (target * entry_size) layout_hash_entry_array owner
        ok (h₂, with_hash t target ctrl entries)

-- `newCtrl[slot] = ctrlFingerprint(entry.FullHash)` and the entry, with the count.
abbrev pub put_entry : Table → ℕ → Entry → Table
put_entry t slot entry = record t {
  object = record (t.object) { hash_count = (t.object.hash_count + 1) % 2 ^ 32 };
  ctrl = set t.ctrl slot (ctrl_fingerprint entry.full_hash);
  entries = set t.entries slot entry;
}

unfoldable pub move_entry : Table → Entry → Result Error Table
move_entry t entry = do
  (slot, found) ← find_in t (probe_of entry)
  elim found [ some _ ↦ err (duplicate_key slot) | none ↦ ok (put_entry t slot entry) ]

abbrev pub is_skipped : ℕ → Bool
is_skipped ctrl = ctrl == ctrl_empty || (ctrl == ctrl_deleted || ctrl == ctrl_sentinel)

-- The loop of `rehash` over the old slots: the ones that are left, and the next one's index.
unfoldable pub rehash_loop : List ℕ → List Entry → ℕ → ℕ → Table → Result Error Table
rehash_loop old_ctrl old_entries zero index t = ok t
rehash_loop old_ctrl old_entries (suc rounds) index t = do
  let ctrl = get_or old_ctrl index 0
  let entry = get_or old_entries index empty_entry
  t₁ ← if is_skipped ctrl || is_nil_value entry.value then ok t else move_entry t entry
  rehash_loop old_ctrl old_entries rounds (index + 1) t₁

-- The object while its entries are moved, and after that.
unfoldable pub start_rehash : Object → Object
start_rehash o = record o {
  flags = with_bits o.flags flag_rehashing;
  hash_count = 0;
  growth_left = remaining_growth o.hash_capacity 0;
}

unfoldable pub end_rehash : Object → Object → Object
end_rehash before o =
    let ended = record o {
      growth_left = remaining_growth o.hash_capacity o.hash_count;
      flags = without o.flags flag_rehashing;
    } in
    let moved =
      not (before.hash_capacity == o.hash_capacity)
      || (not (before.ctrl_data == o.ctrl_data) || not (before.entries_data == o.entries_data)) in
    sync_layout_flags (bump_if moved ended)

module _ {H : Type 0} (ops : HeapOps H) (owner : ℕ) where
  unfoldable pub rehash : H → Table → ℕ → Result Error (H × Table)
  rehash h t minimum = do
    old ← hash_regions t
    (h₁, t₁) ← ensure_hash_capacity ops owner h t minimum
    t₂ ←
        rehash_loop old.ctrl old.entries old.capacity 0
          (record t₁ { object = start_rehash t₁.object })
    ok (h₁, record t₂ { object = end_rehash t.object t₂.object })

-- The number of slots before the first nil.
unfoldable pub leading : ℕ → List ℕ → ℕ
leading zero slots = 0
leading (suc n) [] = 0
leading (suc n) (v ∷ slots) = if is_nil_value v then 0 else suc (leading n slots)

unfoldable pub refresh_array_len_hint : Table → Table
refresh_array_len_hint t = record t {
  object = record (t.object) {
    array_len_hint =
        if t.object.array_cap == 0 || t.object.array_data == 0
        then 0
        else leading t.object.array_cap t.array;
  };
}
