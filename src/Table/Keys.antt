-- ===== src/Table/Keys.antt =====
-- internal/runtime/table/store.go: the numbers that the store works with, its keys and hashes.
pub mod Size
mod Tests
use vex_lua.Base.{
  ℕ, zero, suc, ◌+◌, ◌-◌, ◌*◌, ◌/◌, ◌%◌, ◌^◌, bit_and, bit_xor, Bool, true, false, not, ◌&&◌, ◌||◌,
  Option, none, some, ltb, leb, ◌==◌, if◌then◌else◌, Result, ◌>>◌, guard,
}
use vex_lua.Base.Float.{is_nan, is_zero, float_eq, positive_u32, sign_bit, exponent, fraction}
use vex_lua.Value.TValue.{is_number, is_boxed_tag, tag_string_ref}
use vex_lua.Table.Layout.{min_hash_capacity, is_nil_value}

-- `bits.Len32`
unfoldable pub bit_len : ℕ → ℕ → ℕ
bit_len zero x = 0
bit_len (suc w) x = if x == 0 then 0 else suc (bit_len w (x / 2))

unfoldable pub next_power_of_two : ℕ → ℕ
next_power_of_two n = if leb n 1 then 1 else 2 ^ bit_len 32 (n - 1) % 2 ^ 32

unfoldable pub normalize_hash_capacity : ℕ → ℕ
normalize_hash_capacity capacity =
    if capacity == 0
    then min_hash_capacity
    else (let c = if ltb capacity min_hash_capacity then min_hash_capacity else capacity in
        if bit_and c (c - 1) == 0 then c else next_power_of_two c)

unfoldable pub max_load : ℕ → ℕ
max_load capacity = if capacity == 0 then 0 else capacity - capacity / 8

unfoldable pub remaining_growth : ℕ → ℕ → ℕ
unfolding max_load
remaining_growth capacity count =
    let limit = max_load capacity in if leb limit count then 0 else limit - count

unfoldable pub ctrl_fingerprint : ℕ → ℕ
ctrl_fingerprint full_hash = bit_and (full_hash / 2 ^ 25) 0x7f

-- `x ^= x >> 33`
abbrev fold33 : ℕ → ℕ
fold33 x = bit_xor x (x / 2 ^ 33)

unfoldable pub mix64_to_32 : ℕ → ℕ
mix64_to_32 v =
    let a = fold33 v * 0xff51afd7ed558ccd % 2 ^ 64 in
    let b = fold33 a * 0xc4ceb9fe1a85ec53 % 2 ^ 64 in
    let c = fold33 b in bit_xor (c % 2 ^ 32) (c / 2 ^ 32 % 2 ^ 32)

unfoldable pub should_use_array_path : ℕ → ℕ → ℕ → Bool
should_use_array_path current_cap index new_value =
    if index == 0
    then false
    else if leb index current_cap
    then true
    else if is_nil_value new_value
    then false
    else if current_cap == 0
    then leb index 16
    else if leb index 1024
    then true
    else leb index (current_cap * 2 % 2 ^ 32)

unfoldable pub weak_table_string_uses_strong_barrier : ℕ → Bool
unfolding is_boxed_tag
weak_table_string_uses_strong_barrier value = is_boxed_tag value tag_string_ref

pub data KeyError : Type 0 where
  nil_key nan_key : KeyError

unfoldable pub validate_key : ℕ → Result KeyError (Unit {0})
unfolding is_nil_value is_number is_nan
validate_key key = do
  guard (not (is_nil_value key)) nil_key
  guard (not (is_number key && is_nan key)) nan_key

-- A number that is a whole number from 1 to 2 ^ 32 - 1.
unfoldable pub array_index : ℕ → Option ℕ
unfolding is_number positive_u32
array_index key = if is_number key then positive_u32 key else none

unfoldable pub values_equal : ℕ → ℕ → Bool
values_equal left right =
    if is_number left && is_number right then float_eq left right else left == right

abbrev pub class_generic : ℕ
class_generic = 0

abbrev pub class_interned_string : ℕ
class_interned_string = 1

abbrev pub class_int_like_number : ℕ
class_int_like_number = 2

abbrev pub class_non_int_number : ℕ
class_non_int_number = 3

abbrev pub class_light_handle : ℕ
class_light_handle = 4

abbrev pub class_heap_object_identity : ℕ
class_heap_object_identity = 5

-- `math.Trunc(x) == x`, which infinities meet too
unfoldable pub is_integral : ℕ → Bool
unfolding is_nan is_zero
is_integral x =
    not (is_nan x)
    && (is_zero x
        || (leb 1075 (exponent x)
            || (leb 1023 (exponent x) && ((2 ^ 52 + fraction x) % 2 ^ (1075 - exponent x) == 0))))

-- The size of an integral number that is not zero. (An infinity counts as 2 ^ 1024.)
unfoldable pub magnitude : ℕ → ℕ
magnitude x =
    if leb 1075 (exponent x)
    then (2 ^ 52 + fraction x) * 2 ^ (exponent x - 1075)
    else (2 ^ 52 + fraction x) / 2 ^ (1075 - exponent x)

-- `uint64(number)`, or `uint64(int64(number))` if it is negative. Past 64 bits (and below the
-- least int64) Go leaves the result of the conversion to the machine, `wide`.
unfoldable pub int_like_number : (ℕ → ℕ) → ℕ → Option ℕ
unfolding is_integral magnitude
int_like_number wide x =
    if not (is_integral x)
    then none
    else if is_zero x
    then some 0
    else if sign_bit x == 1
    then some (if leb (magnitude x) (2 ^ 63) then 2 ^ 64 - magnitude x else wide x)
    else some (if ltb (magnitude x) (2 ^ 64) then magnitude x else wide x)
