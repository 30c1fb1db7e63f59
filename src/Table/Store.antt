-- ===== src/Table/Store.antt =====
-- internal/runtime/table/store.go: a table with its regions, and what the store asks of the heap.
-- A table's array, control bytes and hash entries are payload spans that no other object refers to;
-- they are lists here, as long as the spans. The 64-bit offsets of the spans are kept, since the
-- store compares them. No span holds 2 ^ 32 bytes, so that `(index - 1) * TValueSize` and
-- `index * EntrySize` do not wrap. After an error the model has no state, and the callers use none.
pub mod Grow
pub mod Write
pub mod Read
mod Tests
pub mod Border
pub mod Integers
pub mod Length
pub mod Sound
pub mod Invariant
pub mod Slot
pub mod Step
pub mod Laws
pub mod Rehash
pub mod Hash
pub mod Place
pub mod Kept
pub mod Moved
pub mod Regrown
pub mod Bulk
pub mod Slots
pub mod Others
pub mod Spared
pub mod Beside
pub mod Ordered
pub mod Other
use vex_lua.Base.{
  ℕ, ◌+◌, ◌-◌, ◌*◌, ◌/◌, ◌%◌, ◌^◌, bit_and, bit_xor, Bool, not, ◌&&◌, ◌||◌, List, [], ◌∷◌, Option,
  none, some, get_or, set, leb, ◌==◌, if◌then◌else◌, Result, ok, err, ◌>>=◌, ◌>>◌, guard,
}
use vex_lua.Base.Float.{is_nan, is_zero}
use vex_lua.Value.TValue.{
  is_number, is_boxed_tag, heap_ref, payload, tag, number_value, tag_string_ref, tag_light_handle,
}
use vex_lua.Table.Layout.{Object, Entry, nil_word}
use vex_lua.Table.Keys.{
  KeyError, nan_key, mix64_to_32, int_like_number, class_generic, class_interned_string,
  class_int_like_number, class_non_int_number, class_light_handle, class_heap_object_identity,
}
use vex_lua.Table.Find.{Error, bad_key, no_hash_part, array_range, Probe, Cells, find_entry}

-- The heap and the strings, for a state `H` of the heap. `convert` is Go's conversion of a float64
-- to a 64-bit integer outside the integer's range, which depends on the machine.
pub record HeapOps (H : Type 0) : Type 0 where
  pub alloc_object : H → ℕ → Result Error (H × (ℕ × ℕ))
  pub alloc_payload : H → ℕ → ℕ → ℕ → Result Error (H × ℕ)
  pub write_barrier : H → ℕ → ℕ → Result Error H
  pub remember_weak : H → ℕ → Result Error H
  pub free_span : H → ℕ → Result Error H
  pub header_mark : H → ℕ → Result Error ℕ
  pub string_hash : ℕ → Result Error ℕ
  pub string_text : ℕ → Result Error (List ℕ)
  pub convert : ℕ → ℕ

pub record Table : Type 0 where
  pub object : Object
  pub array : List ℕ
  pub ctrl : List ℕ
  pub entries : List Entry

abbrev pub cells_of : Table → Cells
cells_of t = record { ctrl = t.ctrl; entries = t.entries; capacity = t.object.hash_capacity }

unfoldable pub hash_regions : Table → Result Error Cells
hash_regions t =
    if t.object.hash_capacity == 0 || (t.object.ctrl_data == 0 || t.object.entries_data == 0)
    then err no_hash_part
    else ok (cells_of t)

-- `findEntry`, which resolves the regions first.
unfoldable pub find_in : Table → Probe → Result Error (ℕ × Option Entry)
find_in t p = do cells ← hash_regions t; find_entry cells p

abbrev pub outside : Object → ℕ → Bool
outside object index = index == 0 || (not (leb index object.array_cap) || object.array_data == 0)

unfoldable pub read_array_slot : Table → ℕ → ℕ
read_array_slot t index =
    if outside t.object index then nil_word else get_or t.array (index - 1) nil_word

unfoldable pub write_array_slot : Table → ℕ → ℕ → Result Error Table
write_array_slot t index value = do
  guard (not (outside t.object index)) (array_range index)
  ok (record t { array = set t.array (index - 1) value })

-- `hashKey`: the hash, the class and the auxiliary word of a key.
unfoldable pub number_key : (ℕ → ℕ) → ℕ → ℕ → Result Error (ℕ × (ℕ × ℕ))
unfolding is_nan is_zero number_value
number_key convert seed number = do
  guard (not (is_nan number)) (bad_key nan_key)
  elim (int_like_number convert number) [
    | some integer ↦
        ok (mix64_to_32 (bit_xor (seed * 2 ^ 32) integer), (class_int_like_number, integer))
    | none ↦
        (let bits = if is_zero number then 0 else number_value number in
          ok (mix64_to_32 (bit_xor bits (seed * 2 ^ 32)), (class_non_int_number, 0)))
  ]

unfoldable pub hash_key : {H : Type 0} → HeapOps H → ℕ → ℕ → Result Error (ℕ × (ℕ × ℕ))
hash_key ops seed key =
    if is_number key
    then number_key ops.convert seed key
    else if is_boxed_tag key tag_string_ref
    then (do
      hash ← ops.string_hash (payload key)
      ok (mix64_to_32 (bit_xor hash (seed * 2 ^ 32)), (class_interned_string, payload key)))
    else if is_boxed_tag key tag_light_handle
    then ok (mix64_to_32 (bit_xor (seed * 2 ^ 32) (payload key)), (class_light_handle, payload key))
    else elim (heap_ref key) [
      | some ref ↦ ok (
        mix64_to_32 (bit_xor (bit_xor (seed * 2 ^ 32) (tag key * 2 ^ 48)) ref),
        (class_heap_object_identity, ref),
      )
      | none ↦ ok (mix64_to_32 (bit_xor key (seed * 2 ^ 32)), (class_generic, payload key))
    ]

-- The key with its hash and class, and its auxiliary word.
unfoldable pub probe_key : {H : Type 0} → HeapOps H → Object → ℕ → Result Error (Probe × ℕ)
probe_key ops object key = do
  (full_hash, (key_class, key_aux)) ← hash_key ops object.hash_seed key
  ok (record { key = key; full_hash = full_hash; key_class = key_class }, key_aux)
