-- ===== src/Table/Store/Tests.antt =====
-- Runs of the table store, on a heap that counts its allocations, and instances of its laws.
use vex_lua.Base.{
  ℕ, ◌+◌, ◌-◌, ◌^◌, ◌≡◌, ◌≢◌, refl, [], ◌∷◌, Option, some, Result, ok, err, zero, suc, arith, inl,
  inr, ◌⊎◌,
}
use vex_lua.Base.Float.{is_nan, is_zero, float_eq, positive_u32}
use vex_lua.Value.TValue.{is_number, is_boxed_tag, number_value, tag, payload, heap_ref}
use vex_lua.Value.Header.{with_bits, without}
use vex_lua.Table.Layout.{
  Entry, nil_word, new_object, empty_entry, is_nil_value, bump_version, sync_layout_flags,
}
use vex_lua.Table.Keys.{
  next_power_of_two, normalize_hash_capacity, max_load, remaining_growth, ctrl_fingerprint,
  mix64_to_32, should_use_array_path, weak_table_string_uses_strong_barrier, validate_key,
  array_index, values_equal, is_integral, magnitude, int_like_number, bit_len,
}
use vex_lua.Table.Find.{Error, Probe, Cells, matches, probe_slot, probe_loop, find_entry}
use vex_lua.Table.Find.Update.{write_cell}
use vex_lua.Table.Find.View.{IsLive, IsIndexed}
use vex_lua.Table.Find.Laws.{find_entry-write_cell_new}
use vex_lua.Table.Find.Total.{find_entry-Result}
use vex_lua.Table.Store.{
  cells_of, HeapOps, Table, hash_regions, find_in, read_array_slot, write_array_slot, number_key,
  hash_key, probe_key,
}
use vex_lua.Table.Store.Grow.{
  copy_slots, with_array, with_hash, ensure_array_capacity, ensure_hash_capacity, move_entry,
  rehash_loop, rehash, start_rehash, end_rehash, leading, refresh_array_len_hint,
}
use vex_lua.Table.Store.Write.{
  is_version_sensitive_key, set_array_value, with_count, without_entry, with_value, with_entry,
  remove_found, update_found, add_entry, place, set_in_hash, make_room, first_hash_part,
  set_hash_value, set_value, with_mark, store_object, release_detached_payloads, set_key,
}
use vex_lua.Table.Store.Read.{
  of_u32, get_in_hash, get, integer_key_present, halve, linear_length_search, doubling,
  unbound_length_search, table_length, access_array, describe_in_hash, describe, describe_fast_get,
  describe_fast_set,
}
use vex_lua.Table.Store.Length.{IsPresent, IsAbsent, table_length-IsBorder}
use vex_lua.Table.Store.Sound.{describe_fast_get-get}
use vex_lua.Table.Store.Invariant.{HeapLaws, IsTable}
use vex_lua.Table.Store.Laws.{get-set_key_nil}
use vex_lua.Table.Store.Place.{get-set_key}
use vex_lua.Table.Store.Moved.{lookup, HasControls}
use vex_lua.Table.Store.Regrown.{rehash-lookup}
use vex_lua.Table.Store.Kept.{set_key-IsTable}
use vex_lua.Table.Store.Ordered.{HasOrder, set_key-HasOrder}
use vex_lua.Table.Store.Other.{get-set_key_other}

program : Unit {0}
unfolding is_nan is_zero float_eq positive_u32 is_number is_boxed_tag number_value tag payload
    heap_ref with_bits without new_object empty_entry is_nil_value bump_version sync_layout_flags
    next_power_of_two normalize_hash_capacity max_load remaining_growth ctrl_fingerprint mix64_to_32
    should_use_array_path weak_table_string_uses_strong_barrier validate_key array_index
    values_equal is_integral magnitude int_like_number bit_len matches probe_slot probe_loop
    find_entry hash_regions find_in read_array_slot write_array_slot number_key hash_key probe_key
    copy_slots with_array with_hash ensure_array_capacity ensure_hash_capacity move_entry
    rehash_loop rehash start_rehash end_rehash leading refresh_array_len_hint
    is_version_sensitive_key set_array_value with_count without_entry with_value with_entry
    remove_found update_found add_entry place set_in_hash make_room first_hash_part set_hash_value
    set_value with_mark store_object release_detached_payloads set_key of_u32 get_in_hash get
    integer_key_present halve linear_length_search doubling unbound_length_search table_length
    describe_in_hash describe describe_fast_get describe_fast_set
program = tt

-- The heap's state is the number of bytes given out.
abbrev heap_ops : HeapOps ℕ
heap_ops = record {
  alloc_object = λ h size. ok (h + size, (h + 1, h + 1));
  alloc_payload = λ h size layout owner. ok (h + size, h + 1);
  write_barrier = λ h owner value. ok h;
  remember_weak = λ h owner. ok h;
  free_span = λ h offset. ok h;
  header_mark = λ h offset. ok 0;
  string_hash = λ ref. ok ref;
  string_text = λ ref. ok [];
  convert = λ x. 0;
}

heap_laws : HeapLaws heap_ops
heap_laws = record { some_offset = λ h size layout owner h' offset eq. λ z. ground (arith, eq, z) }

abbrev empty_table : Table
empty_table = record { object = new_object 7; array = []; ctrl = []; entries = [] }

abbrev result : Result Error (ℕ × Table) → ℕ × Table
result (ok x) = x
result (err e) = (0, empty_table)

abbrev step : ℕ × Table → ℕ → ℕ → Result Error (ℕ × Table)
step (h, t) k v = set_key heap_ops 1 h t k v

-- The numbers 1 to 5, 17, 20 and 2.5.
abbrev one : ℕ
one = 0x3ff0000000000000

abbrev two : ℕ
two = 0x4000000000000000

abbrev seventeen : ℕ
seventeen = 0x4031000000000000

abbrev twenty : ℕ
twenty = 0x4034000000000000

abbrev two_and_a_half : ℕ
two_and_a_half = 0x4004000000000000

numbers : (of_u32 1 ≡ one) × (of_u32 2 ≡ two) × (of_u32 17 ≡ seventeen) × (of_u32 20 ≡ twenty)
unfolding program
numbers = (refl, refl, refl, refl)

empty-IsTable : IsTable empty_table
unfolding program
empty-IsTable = ((refl, inl refl), inl refl)

abbrev after_one : ℕ × Table
after_one = result (step (64, empty_table) one two)

abbrev after_half : ℕ × Table
after_half = result (step after_one two_and_a_half two)

one-IsTable : IsTable (after_one.1)
unfolding program
one-IsTable =
    set_key-IsTable heap_ops heap_laws 1 64 (after_one.0) empty_table (after_one.1) one two
      empty-IsTable refl

get-set_key_example : get heap_ops (after_half.1) two_and_a_half ≡ ok (some two)
unfolding program
get-set_key_example =
    get-set_key heap_ops heap_laws 1 (after_one.0) (after_half.0) (after_one.1) (after_half.1)
      two_and_a_half two one-IsTable refl refl

set_key-IsTable_example : IsTable (after_half.1)
unfolding program
set_key-IsTable_example =
    set_key-IsTable heap_ops heap_laws 1 (after_one.0) (after_half.0) (after_one.1) (after_half.1)
      two_and_a_half two one-IsTable refl

half_is_no_index : (i : ℕ) → array_index two_and_a_half ≢ some i
unfolding program
half_is_no_index i at = ground (arith, at)

half-IsTable : IsTable (after_half.1)
unfolding program
half-IsTable =
    set_key-IsTable heap_ops heap_laws 1 (after_one.0) (after_half.0) (after_one.1) (after_half.1)
      two_and_a_half two one-IsTable refl

half-HasOrder : HasOrder (after_half.1)
unfolding program
half-HasOrder =
    set_key-HasOrder heap_ops heap_laws 1 (after_one.0) (after_half.0) (after_one.1) (after_half.1)
      two_and_a_half two one-IsTable (inl refl) refl

-- A second key of the hash part.
abbrev after_two_keys : ℕ × Table
after_two_keys = result (step after_half twenty one)

set_key-HasOrder_example : HasOrder (after_two_keys.1)
unfolding program
set_key-HasOrder_example =
    set_key-HasOrder heap_ops heap_laws 1 (after_half.0) (after_two_keys.0) (after_half.1)
      (after_two_keys.1) twenty one half-IsTable half-HasOrder refl

get-set_key_other_example : get heap_ops (after_two_keys.1) two_and_a_half ≡ ok (some two)
unfolding program
get-set_key_other_example =
    get-set_key_other heap_ops heap_laws 1 (after_half.0) (after_two_keys.0) (after_half.1)
      (after_two_keys.1) twenty two_and_a_half one two half-IsTable half-HasOrder refl
      (λ i at at'. half_is_no_index i at') refl refl

-- Index 17 goes to the hash part of a table without an array part; then the array part grows to 32
-- slots.
abbrev after_17 : ℕ × Table
after_17 = result (step (64, empty_table) seventeen two)

abbrev after_20 : ℕ × Table
after_20 = result (step (result (step after_17 one one)) twenty one)

abbrev after_nil : ℕ × Table
after_nil = result (step after_20 seventeen nil_word)

get-set_key_nil_example :
    get heap_ops (after_nil.1) seventeen ≡ get_in_hash heap_ops (after_20.1) seventeen
unfolding program
get-set_key_nil_example =
    get-set_key_nil heap_ops heap_laws 1 (after_20.0) (after_nil.0) (after_20.1) (after_nil.1)
      seventeen 17 (refl, inr (λ z. omega (arith, z))) refl (omega arith) refl

-- The key that was set to nil still has its value.
stale_17 : get heap_ops (after_nil.1) seventeen ≡ ok (some two)
unfolding program
stale_17 = refl

table_length-IsBorder_example :
    (1 ≡ 2 ^ 31 - 1)
    ⊎ (((◌≡◌ {A = ℕ} 1 0) ⊎ IsPresent heap_ops (after_half.1) 1)
        × IsAbsent heap_ops (after_half.1) 2)
unfolding program
table_length-IsBorder_example = table_length-IsBorder heap_ops (after_half.1) 1 (omega arith) refl

describe_fast_get-get_example : get heap_ops (after_half.1) one ≡ ok (some two)
unfolding program
describe_fast_get-get_example =
    describe_fast_get-get heap_ops (after_half.1) one
      (access_array after_half.1.object.table_version 0 one) refl

-- A hash part of one slot.
abbrev one_slot : Cells
one_slot = record { ctrl = 128 ∷ 255 ∷ []; entries = empty_entry ∷ []; capacity = 1 }

abbrev probe_one : Probe
probe_one = record { key = one; full_hash = 5; key_class = 2 }

abbrev probe_two : Probe
probe_two = record { key = two; full_hash = 5; key_class = 2 }

abbrev entry_one : ℕ → Entry
entry_one value = record { full_hash = 5; key_class = 2; key_aux = 1; key = one; value = value }

one_slot-IsIndexed : IsIndexed one_slot
one_slot-IsIndexed = record {
  sized = record { some_slot = omega arith; ctrl_length = refl; entries_length = refl };
  indexed = λ s live. absurd (one_slot_dead s live);
}
  where
    one_slot_dead : (s : ℕ) → ¬ (IsLive one_slot s)
    one_slot_dead zero (below, full) = omega (arith, full)
    one_slot_dead (suc s) (below, full) = omega (arith, below)

abbrev filled : Cells
filled = write_cell one_slot 0 0 (entry_one two)

filled-IsIndexed : IsIndexed filled
unfolding program
filled-IsIndexed =
    (find_entry-write_cell_new one_slot probe_one probe_two 0 (entry_one two) one_slot-IsIndexed
      refl refl refl).0

find_entry-Result_example :
    (slot : ℕ) × (found : Option Entry) × (find_entry one_slot probe_one ≡ ok (slot, found))
find_entry-Result_example = find_entry-Result one_slot probe_one (record {
  log = 0;
  log_bound = omega arith;
  power = refl;
  slot = 0;
  in_range = omega arith;
  is_vacant = inl refl;
})

-- A table with the hash part of one slot, rehashed.
abbrev small_table : Table
small_table = record {
  object = record (new_object 7) {
    ctrl_data = 1;
    entries_data = 2;
    hash_count = 1;
    hash_capacity = 1;
  };
  array = [];
  ctrl = filled.ctrl;
  entries = filled.entries;
}

abbrev rehashed : ℕ × Table
rehashed = result (rehash heap_ops 1 64 small_table 2)

filled_controls : HasControls filled
filled_controls zero below = inl (omega arith)
filled_controls (suc j) below = absurd (omega (arith, below))

rehash-lookup_example :
    IsIndexed (cells_of (rehashed.1))
    × (lookup (cells_of (rehashed.1)) probe_one ≡ some (entry_one two))
unfolding program
rehash-lookup_example =
    rehash-lookup heap_ops heap_laws 1 64 (rehashed.0) small_table (rehashed.1) 2 probe_one 0
      (entry_one two) filled-IsIndexed filled_controls refl refl refl
