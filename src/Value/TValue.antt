-- ===== src/Value/TValue.antt =====
-- internal/runtime/value/tvalue.go and layout.go: a Lua value in 64 bits. A float64 stands for
-- itself; every other value carries a tag and a payload under sixteen one bits.
-- `FromRaw` and `Bits` convert between names of one 64-bit word and are left out.
pub mod Boxing
mod Tests
use vex_lua.Base.{
  ℕ, ◌+◌, ◌-◌, ◌*◌, ◌/◌, ◌%◌, ◌^◌, bit_and, bit_or, Bool, true, false, not, ◌&&◌, Option, none,
  some, ltb, leb, ◌==◌, if◌then◌else◌, Result, ok, err, ◌>>=◌, ◌>>◌, guard,
}
use vex_lua.Base.Float.{is_nan}

abbrev pub boxed_marker : ℕ
boxed_marker = 0xffff000000000000

abbrev pub canonical_nan : ℕ
canonical_nan = 0x7ff8000000000000

abbrev pub tag_shift : ℕ
tag_shift = 44

abbrev pub payload_bits : ℕ
payload_bits = 44

abbrev pub payload_mask : ℕ
payload_mask = 2 ^ payload_bits - 1

abbrev pub object_alignment : ℕ
object_alignment = 16

abbrev pub tag_nil : ℕ
tag_nil = 0

abbrev pub tag_bool : ℕ
tag_bool = 1

abbrev pub tag_i32 : ℕ
tag_i32 = 2

abbrev pub tag_string_ref : ℕ
tag_string_ref = 3

abbrev pub tag_table_ref : ℕ
tag_table_ref = 4

abbrev pub tag_lua_closure_ref : ℕ
tag_lua_closure_ref = 5

abbrev pub tag_proto_ref : ℕ
tag_proto_ref = 6

abbrev pub tag_up_value_ref : ℕ
tag_up_value_ref = 7

abbrev pub tag_thread_ref : ℕ
tag_thread_ref = 8

abbrev pub tag_host_object_ref : ℕ
tag_host_object_ref = 9

abbrev pub tag_host_function_ref : ℕ
tag_host_function_ref = 10

abbrev pub tag_native_closure_ref : ℕ
tag_native_closure_ref = 11

abbrev pub tag_light_handle : ℕ
tag_light_handle = 12

abbrev pub tag_reserved3 : ℕ
tag_reserved3 = 15

abbrev pub tag_invalid : ℕ
tag_invalid = 0xff

pub data Panic : Type 0 where
  invalid_tag payload_range light_handle_range not_heap_tag ref_range : ℕ → Panic
  zero_ref : Panic

unfoldable pub number_value : ℕ → ℕ
unfolding is_nan
number_value number = if is_nan number then canonical_nan else number

unfoldable pub canonicalize_number : ℕ → ℕ
unfolding number_value
canonicalize_number number = number_value number

unfoldable pub is_number : ℕ → Bool
is_number value = not (value / 2 ^ 48 == 0xffff)

unfoldable pub is_boxed : ℕ → Bool
is_boxed value = value / 2 ^ 48 == 0xffff

unfoldable pub tag : ℕ → ℕ
unfolding is_boxed
tag value = if not (is_boxed value) then tag_invalid else bit_and (value / 2 ^ tag_shift) 0xf

unfoldable pub is_boxed_tag : ℕ → ℕ → Bool
unfolding is_boxed tag
is_boxed_tag value t = is_boxed value && tag value == t

unfoldable pub payload : ℕ → ℕ
unfolding is_boxed
payload value = if not (is_boxed value) then 0 else bit_and value payload_mask

-- A value and a success flag are an option.
unfoldable pub float64 : ℕ → Option ℕ
unfolding is_number
float64 value = if not (is_number value) then none else some value

unfoldable pub bool : ℕ → Option Bool
unfolding is_boxed_tag payload
bool value = if not (is_boxed_tag value tag_bool) then none else some (not (payload value == 0))

unfoldable pub is_heap_ref_tag : ℕ → Bool
is_heap_ref_tag t = leb tag_string_ref t && leb t tag_native_closure_ref

unfoldable pub heap_ref : ℕ → Option ℕ
unfolding is_heap_ref_tag tag payload
heap_ref value = if not (is_heap_ref_tag (tag value)) then none else some (payload value)

unfoldable pub boxed_value : ℕ → ℕ → Result Panic ℕ
boxed_value t p = do
  guard (leb t tag_reserved3) (invalid_tag t)
  guard (leb p payload_mask) (payload_range p)
  ok (bit_or (bit_or boxed_marker (t * 2 ^ tag_shift % 2 ^ 64)) p)

unfoldable pub nil_value : Result Panic ℕ
unfolding boxed_value
nil_value = boxed_value tag_nil 0

unfoldable pub bool_value : Bool → Result Panic ℕ
unfolding boxed_value
bool_value true = boxed_value tag_bool 1
bool_value false = boxed_value tag_bool 0

unfoldable pub must_heap_ref_value : ℕ → ℕ → Result Panic ℕ
unfolding is_heap_ref_tag boxed_value
must_heap_ref_value t ref = do
  guard (is_heap_ref_tag t) (not_heap_tag t)
  guard (not (ref == 0)) zero_ref
  guard (leb ref payload_mask) (ref_range ref)
  boxed_value t ref

unfoldable pub light_handle_value : ℕ → Result Panic ℕ
unfolding boxed_value
light_handle_value handle = do
  guard (leb handle payload_mask) (light_handle_range handle)
  boxed_value tag_light_handle handle

unfoldable pub string_ref_value : ℕ → Result Panic ℕ
unfolding must_heap_ref_value
string_ref_value ref = must_heap_ref_value tag_string_ref ref

unfoldable pub table_ref_value : ℕ → Result Panic ℕ
unfolding must_heap_ref_value
table_ref_value ref = must_heap_ref_value tag_table_ref ref

unfoldable pub lua_closure_ref_value : ℕ → Result Panic ℕ
unfolding must_heap_ref_value
lua_closure_ref_value ref = must_heap_ref_value tag_lua_closure_ref ref

unfoldable pub proto_ref_value : ℕ → Result Panic ℕ
unfolding must_heap_ref_value
proto_ref_value ref = must_heap_ref_value tag_proto_ref ref

unfoldable pub up_value_ref_value : ℕ → Result Panic ℕ
unfolding must_heap_ref_value
up_value_ref_value ref = must_heap_ref_value tag_up_value_ref ref

unfoldable pub thread_ref_value : ℕ → Result Panic ℕ
unfolding must_heap_ref_value
thread_ref_value ref = must_heap_ref_value tag_thread_ref ref

unfoldable pub host_object_ref_value : ℕ → Result Panic ℕ
unfolding must_heap_ref_value
host_object_ref_value ref = must_heap_ref_value tag_host_object_ref ref

unfoldable pub host_function_ref_value : ℕ → Result Panic ℕ
unfolding must_heap_ref_value
host_function_ref_value ref = must_heap_ref_value tag_host_function_ref ref

unfoldable pub native_closure_ref_value : ℕ → Result Panic ℕ
unfolding must_heap_ref_value
native_closure_ref_value ref = must_heap_ref_value tag_native_closure_ref ref
