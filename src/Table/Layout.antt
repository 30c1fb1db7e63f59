-- ===== src/Table/Layout.antt =====
-- internal/runtime/table/layout.go: the table object and the hash entry, as records and as bytes.
pub mod RoundTrip
mod Tests
use vex_lua.Base.{
  ℕ, ◌+◌, ◌%◌, ◌^◌, bit_or, Bool, ◌||◌, List, [], ◌∷◌, length, leb, ◌==◌, if◌then◌else◌, Result, ok,
  err, ◌>>=◌, ◌>>◌, guard,
}
use vex_lua.Base.Bytes.{read_le}
use vex_lua.Base.Slots.{Slot, put, write_slots}
use vex_lua.Value.TValue.{is_boxed_tag, tag_nil}
use vex_lua.Value.Header.{
  CommonHeader, HeaderError, read_common_header, write_common_header, with_bits, without,
}

abbrev pub object_size : ℕ
object_size = 0x60

abbrev pub entry_size : ℕ
entry_size = 0x20

abbrev pub min_hash_capacity : ℕ
min_hash_capacity = 16

abbrev pub ctrl_empty : ℕ
ctrl_empty = 0x80

abbrev pub ctrl_deleted : ℕ
ctrl_deleted = 0xfe

abbrev pub ctrl_sentinel : ℕ
ctrl_sentinel = 0xff

abbrev pub kind_table : ℕ
kind_table = 2

abbrev pub flag_has_metatable : ℕ
flag_has_metatable = 1

abbrev pub flag_index_fast_path_blocked : ℕ
flag_index_fast_path_blocked = 2

abbrev pub flag_new_index_fast_path_blocked : ℕ
flag_new_index_fast_path_blocked = 4

abbrev pub flag_weak_keys : ℕ
flag_weak_keys = 8

abbrev pub flag_weak_values : ℕ
flag_weak_values = 16

abbrev pub flag_has_array_part : ℕ
flag_has_array_part = 32

abbrev pub flag_has_hash_part : ℕ
flag_has_hash_part = 64

abbrev pub flag_rehashing : ℕ
flag_rehashing = 128

abbrev pub flag_frozen : ℕ
flag_frozen = 256

abbrev pub flag_read_only : ℕ
flag_read_only = 512

abbrev pub nil_word : ℕ
nil_word = 0xffff000000000000

unfoldable pub is_nil_value : ℕ → Bool
unfolding is_boxed_tag
is_nil_value candidate = is_boxed_tag candidate tag_nil

pub record Object : Type 0 where
  pub common : CommonHeader
  pub flags : ℕ
  pub shape_id : ℕ
  pub table_version : ℕ
  pub metatable : ℕ
  pub array_data : ℕ
  pub array_len_hint : ℕ
  pub array_cap : ℕ
  pub ctrl_data : ℕ
  pub entries_data : ℕ
  pub hash_count : ℕ
  pub hash_capacity : ℕ
  pub growth_left : ℕ
  pub hash_seed : ℕ

pub record Entry : Type 0 where
  pub full_hash : ℕ
  pub key_class : ℕ
  pub key_aux : ℕ
  pub key : ℕ
  pub value : ℕ

unfoldable pub new_object : ℕ → Object
new_object hash_seed = record {
  common = record {
    kind = kind_table;
    mark = 0;
    flags = 0;
    size_bytes = object_size;
    version = 1;
    aux = 0;
  };
  flags = 0;
  shape_id = 0;
  table_version = 1;
  metatable = nil_word;
  array_data = 0;
  array_len_hint = 0;
  array_cap = 0;
  ctrl_data = 0;
  entries_data = 0;
  hash_count = 0;
  hash_capacity = 0;
  growth_left = 0;
  hash_seed = hash_seed;
}

-- The version skips 0 when its 32 bits wrap.
unfoldable pub bump_version : Object → Object
bump_version object =
    let next = (object.table_version + 1) % 2 ^ 32 in
    record object { table_version = if next == 0 then 1 else next }

abbrev pub choose_flag : Bool → ℕ → ℕ → ℕ
choose_flag test flags mask = if test then without flags mask else with_bits flags mask

unfoldable pub sync_layout_flags : Object → Object
unfolding is_nil_value
sync_layout_flags object =
    let f₁ = choose_flag (is_nil_value object.metatable) object.flags flag_has_metatable in
    let f₂ = choose_flag (object.array_cap == 0 || object.array_data == 0) f₁ flag_has_array_part in
    let f₃ =
      choose_flag (object.hash_capacity == 0 || (object.ctrl_data == 0 || object.entries_data == 0))
        f₂ flag_has_hash_part in
    let f₄ =
      if is_nil_value object.metatable
      then without f₃ (bit_or flag_index_fast_path_blocked flag_new_index_fast_path_blocked)
      else f₃ in
    record object { flags = f₄ }

pub data LayoutError : Type 0 where
  too_small : ℕ → LayoutError
  wrong_kind : ℕ → LayoutError
  bad_header : HeaderError → LayoutError

abbrev pub lift {ℓ} : {A : Type ℓ} → Result HeaderError A → Result LayoutError A
lift (ok a) = ok a
lift (err e) = err (bad_header e)

unfoldable pub read_object : List ℕ → Result LayoutError Object
read_object buffer = do
  guard (leb object_size (length buffer)) (too_small (length buffer))
  common ← lift (read_common_header buffer)
  guard (common.kind == kind_table) (wrong_kind common.kind)
  ok (record {
    common = common;
    flags = read_le 4 buffer 0x10;
    shape_id = read_le 4 buffer 0x14;
    table_version = read_le 4 buffer 0x18;
    metatable = read_le 8 buffer 0x20;
    array_data = read_le 8 buffer 0x28;
    array_len_hint = read_le 4 buffer 0x30;
    array_cap = read_le 4 buffer 0x34;
    ctrl_data = read_le 8 buffer 0x38;
    entries_data = read_le 8 buffer 0x40;
    hash_count = read_le 4 buffer 0x48;
    hash_capacity = read_le 4 buffer 0x4c;
    growth_left = read_le 4 buffer 0x50;
    hash_seed = read_le 4 buffer 0x54;
  })

abbrev pub object_slots : Object → List Slot
object_slots object =
    put 0x10 4 object.flags
    ∷ put 0x14 4 object.shape_id
    ∷ put 0x18 4 object.table_version
    ∷ put 0x1c 4 0
    ∷ put 0x20 8 object.metatable
    ∷ put 0x28 8 object.array_data
    ∷ put 0x30 4 object.array_len_hint
    ∷ put 0x34 4 object.array_cap
    ∷ put 0x38 8 object.ctrl_data
    ∷ put 0x40 8 object.entries_data
    ∷ put 0x48 4 object.hash_count
    ∷ put 0x4c 4 object.hash_capacity
    ∷ put 0x50 4 object.growth_left
    ∷ put 0x54 4 object.hash_seed
    ∷ put 0x58 8 0
    ∷ []

-- The mark in the buffer is kept, where the buffer holds an object of the same kind.
abbrev pub with_mark_of : Result HeaderError CommonHeader → CommonHeader → CommonHeader
with_mark_of (ok current) h = if current.kind == h.kind then record h { mark = current.mark } else h
with_mark_of (err e) h = h

unfoldable pub write_object : List ℕ → Object → Result LayoutError (List ℕ)
write_object buffer object = do
  guard (leb object_size (length buffer)) (too_small (length buffer))
  let synced = sync_layout_flags object
  let common = with_mark_of (read_common_header buffer) synced.common
  headed ← lift (write_common_header buffer common)
  ok (write_slots headed (object_slots synced))

unfoldable pub read_entry : List ℕ → Result LayoutError Entry
read_entry buffer = do
  guard (leb entry_size (length buffer)) (too_small (length buffer))
  ok (record {
    full_hash = read_le 4 buffer 0x00;
    key_class = read_le 1 buffer 0x04;
    key_aux = read_le 8 buffer 0x08;
    key = read_le 8 buffer 0x10;
    value = read_le 8 buffer 0x18;
  })

abbrev pub entry_slots : Entry → List Slot
entry_slots entry =
    put 0x00 4 entry.full_hash
    ∷ put 0x04 1 entry.key_class
    ∷ put 0x05 1 0
    ∷ put 0x06 2 0
    ∷ put 0x08 8 entry.key_aux
    ∷ put 0x10 8 entry.key
    ∷ put 0x18 8 entry.value
    ∷ []

unfoldable pub write_entry : List ℕ → Entry → Result LayoutError (List ℕ)
write_entry buffer entry = do
  guard (leb entry_size (length buffer)) (too_small (length buffer))
  ok (write_slots buffer (entry_slots entry))

unfoldable pub empty_entry : Entry
empty_entry = record { full_hash = 0; key_class = 0; key_aux = 0; key = nil_word; value = nil_word }
