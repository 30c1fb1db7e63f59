-- ===== src/Table/Store/Read.antt =====
-- internal/runtime/table/store.go: `Get`, `Length` and the descriptions of fast accesses.
use vex_lua.Base.{
  ℕ, zero, suc, ◌+◌, ◌-◌, ◌*◌, ◌/◌, ◌%◌, ◌^◌, bit_or, Bool, true, false, not, ◌&&◌, Option, none,
  some, ltb, leb, ◌==◌, if◌then◌else◌, Result, ok, ◌>>=◌, ◌>>◌,
}
use vex_lua.Table.Layout.{
  Object, Entry, flag_index_fast_path_blocked, flag_new_index_fast_path_blocked, flag_weak_keys,
  flag_weak_values, flag_rehashing, flag_frozen, flag_read_only, is_nil_value,
}
use vex_lua.Table.Keys.{bit_len, array_index, class_interned_string}
use vex_lua.Table.Find.{Error}
use vex_lua.Table.Store.{HeapOps, Table, find_in, read_array_slot, probe_key}
use vex_lua.Table.Store.Write.{check_key, lacks}

-- `float64(n)` for an `n` from 1 to 2 ^ 32 - 1
unfoldable pub of_u32 : ℕ → ℕ
of_u32 n = let e = bit_len 32 n - 1 in (1023 + e) * 2 ^ 52 + (n - 2 ^ e) * 2 ^ (52 - e)

-- The value of an entry that was found, if it is not nil.
abbrev pub present_value : ℕ × Option Entry → Option ℕ
present_value (slot, some entry) = if is_nil_value entry.value then none else some entry.value
present_value (slot, none) = none

-- What the array part has for a key.
abbrev pub from_array : Table → Option ℕ → Option (ℕ × ℕ)
from_array t (some index) =
    if leb index t.object.array_cap && not (is_nil_value (read_array_slot t index))
    then some (index, read_array_slot t index)
    else none
from_array t none = none

module _ {H : Type 0} (ops : HeapOps H) where
  -- What the hash part has for a key.
  unfoldable pub get_in_hash : Table → ℕ → Result Error (Option ℕ)
  get_in_hash t key = if t.object.hash_capacity == 0 then ok none else (do
    (p, key_aux) ← probe_key ops t.object key
    result ← find_in t p
    ok (present_value result))

  -- `Get`: the value, or none where Go returns nil and false.
  unfoldable pub get : Table → ℕ → Result Error (Option ℕ)
  get t key = do
    check_key key
    elim (from_array t (array_index key)) [
      | some (index, value) ↦ ok (some value)
      | none ↦ get_in_hash t key
    ]

  abbrev pub is_some : Option ℕ → Bool
  is_some (some v) = true
  is_some none = false

  unfoldable pub integer_key_present : Table → ℕ → Result Error Bool
  integer_key_present t index =
      if index == 0
      then ok false
      else if leb index t.object.array_cap
      then ok (not (is_nil_value (read_array_slot t index)))
      else (do value ← get_in_hash t (of_u32 index); ok (is_some value))

abbrev pub max_len_search_index : ℕ
max_len_search_index = 2 ^ 31 - 1

-- `for j-i > 1`: the halving of the interval from `i`, which is present, to `j`, which is not, with
-- the sum of the two in 32 bits. An interval of at most 2 ^ 32 is done in 32 rounds, if no sum wraps.
unfoldable pub halve : (ℕ → Result Error Bool) → ℕ → ℕ → ℕ → Result Error ℕ
halve present zero i j = ok i
halve present (suc rounds) i j = if leb (j - i) 1 then ok i else (do
  let mid = (i + j) % 2 ^ 32 / 2
  test ← present mid
  elim test [ true ↦ halve present rounds mid j | false ↦ halve present rounds i mid ])

-- `linearLengthSearch`, with the rounds that are left before `maxLenSearchIndex`.
unfoldable pub linear_length_search : (ℕ → Result Error Bool) → ℕ → ℕ → Result Error ℕ
linear_length_search present zero index = ok max_len_search_index
linear_length_search present (suc rounds) index = do
  test ← present index
  elim test [ true ↦ linear_length_search present rounds (index + 1) | false ↦ ok (index - 1) ]

abbrev pub linear : (ℕ → Result Error Bool) → Result Error ℕ
linear present = linear_length_search present (max_len_search_index - 1) 1

-- The first loop of `unboundLengthSearch`: `j` doubles until it is not present. It ends in 32
-- rounds, since it gives up past `maxLenSearchIndex/2`.
unfoldable pub doubling : (ℕ → Result Error Bool) → ℕ → ℕ → ℕ → Result Error ℕ
doubling present zero i j = linear present
doubling present (suc rounds) i j = do
  test ← present j
  elim test [
    | false ↦ halve present 32 i j
    | true ↦ elim (ltb (max_len_search_index / 2) j) [
      | true ↦ linear present
      | false ↦ doubling present rounds j (j * 2)
    ]
  ]

unfoldable pub unbound_length_search : (ℕ → Result Error Bool) → ℕ → Result Error ℕ
unbound_length_search present j = elim (leb max_len_search_index j) [
  | true ↦ linear present
  | false ↦ doubling present 32 j (j + 1)
]

abbrev pub array_present : Table → ℕ → Result Error Bool
array_present t index = ok (not (is_nil_value (read_array_slot t index)))

unfoldable pub table_length : {H : Type 0} → HeapOps H → Table → Result Error ℕ
table_length ops t =
    let j = t.object.array_cap in
    if not (j == 0) && is_nil_value (read_array_slot t j)
    then halve (array_present t) 32 0 j
    else if t.object.hash_capacity == 0
    then ok j
    else unbound_length_search (integer_key_present ops t) j

pub data FastAccess : Type 0 where
  access_array access_hash : (version slot_index key_bits : ℕ) → FastAccess

abbrev pub blocks_get : ℕ
blocks_get =
    bit_or (bit_or (bit_or flag_index_fast_path_blocked flag_weak_keys) flag_weak_values)
      flag_rehashing

abbrev pub blocks_set : ℕ
blocks_set =
    bit_or
      (bit_or
        (bit_or (bit_or (bit_or flag_new_index_fast_path_blocked flag_weak_keys) flag_weak_values)
          flag_rehashing)
        flag_frozen)
      flag_read_only

abbrev pub hash_access : Object → ℕ → ℕ × Option Entry → Option FastAccess
hash_access object key (slot, some entry) =
    if is_nil_value entry.value then none else some (access_hash object.table_version slot key)
hash_access object key (slot, none) = none

module _ {H : Type 0} (ops : HeapOps H) where
  unfoldable pub describe_in_hash : Table → ℕ → Result Error (Option FastAccess)
  describe_in_hash t key = if t.object.hash_capacity == 0 then ok none else (do
    (p, key_aux) ← probe_key ops t.object key
    if not (p.key_class == class_interned_string)
        then ok none
        else (do result ← find_in t p; ok (hash_access t.object key result)))

  -- What the two descriptions have in common, past their guards.
  unfoldable pub describe : Table → ℕ → Result Error (Option FastAccess)
  describe t key = elim (from_array t (array_index key)) [
    | some (index, value) ↦ ok (some (access_array t.object.table_version (index - 1) key))
    | none ↦ describe_in_hash t key
  ]

  unfoldable pub describe_fast_get : Table → ℕ → Result Error (Option FastAccess)
  describe_fast_get t key = do
    check_key key
    if lacks t.object blocks_get then describe t key else ok none

  unfoldable pub describe_fast_set : Table → ℕ → ℕ → Result Error (Option FastAccess)
  describe_fast_set t key new_value = do
    check_key key
    if is_nil_value new_value
        then ok none
        else if lacks t.object blocks_set
        then describe t key
        else ok none
