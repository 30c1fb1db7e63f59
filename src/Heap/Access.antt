-- ===== src/Heap/Access.antt =====
-- internal/runtime/heap/heap.go: offsets, addresses and references, and the headers behind them.
use vex_lua.Base.{
  ℕ, ◌+◌, ◌^◌, ◌%◌, not, List, Option, none, some, ◌==◌, if◌then◌else◌, Result, ok, err, ◌>>=◌,
  ◌>>◌, guard,
}
use vex_lua.Value.TValue.{object_alignment}
use vex_lua.Value.Header.{
  CommonHeader, HeaderError, common_header_size, validate, read_common_header, write_common_header,
}
use vex_lua.Value.Address.{AddressError, encode_heap_ref44, decode_heap_ref44, encode_heap_off64}
use vex_lua.Heap.{
  Heap, HeapError, Platform, is_live, is_object, zero_offset, out_of_range, not_heap_memory,
  misaligned_address, not_start, not_live, not_object, header_error, address_error,
}
use vex_lua.Heap.Memory.{store}
use vex_lua.Heap.Pages.{find_page, ensure_committed, arena_bytes}

abbrev pub of_header {ℓ} : {A : Type ℓ} → Result HeaderError A → Result HeapError A
of_header (ok a) = ok a
of_header (err e) = err (header_error e)

abbrev pub of_address {ℓ} : {A : Type ℓ} → Result AddressError A → Result HeapError A
of_address (ok a) = ok a
of_address (err e) = err (address_error e)

abbrev pub present {ℓ} : {A : Type ℓ} → Option A → HeapError → Result HeapError A
present none e = err e
present (some a) e = ok a

unfoldable pub resolve : Platform → Heap → ℕ → ℕ → Result HeapError (List ℕ)
unfolding find_page ensure_committed arena_bytes
resolve p h offset size = do
  guard (not (offset == 0)) zero_offset
  found ← present (find_page h.pages offset size) (out_of_range offset)
  (if size == 0 then ok tt else ensure_committed p h.native ((offset + size) % 2 ^ 64))
  arena_bytes h.native h.memory offset size

unfoldable pub address_for_offset : Platform → Heap → ℕ → Result HeapError ℕ
unfolding resolve
address_for_offset p h offset =
    if offset == 0 then ok 0 else (do bytes ← resolve p h offset 1; ok ((h.base + offset) % 2 ^ 64))

unfoldable pub native_address_for_offset : Platform → Heap → ℕ → Result HeapError ℕ
unfolding resolve
native_address_for_offset p h offset =
    if offset == 0
    then ok 0
    else (do bytes ← resolve p h offset 1; ok ((h.native.native_base + offset) % 2 ^ 64))

-- `OffsetForAddress` and `OffsetForNativeAddress`, which differ in the base.
unfoldable pub offset_from : Platform → Heap → ℕ → ℕ → Result HeapError ℕ
unfolding encode_heap_off64 resolve
offset_from p h base address = do
  offset ← of_address (encode_heap_off64 base address)
  guard (not (offset == 0)) (not_heap_memory address)
  bytes ← resolve p h offset 1
  ok offset

unfoldable pub offset_for_address : Platform → Heap → ℕ → Result HeapError ℕ
unfolding offset_from
offset_for_address p h address = offset_from p h h.base address

unfoldable pub offset_for_native_address : Platform → Heap → ℕ → Result HeapError ℕ
unfolding offset_from
offset_for_native_address p h address = offset_from p h h.native.native_base address

unfoldable pub header_at_offset : Platform → Heap → ℕ → Result HeapError CommonHeader
unfolding resolve read_common_header
header_at_offset p h offset = do
  bytes ← resolve p h offset common_header_size
  of_header (read_common_header bytes)

unfoldable pub header_at_address : Platform → Heap → ℕ → Result HeapError CommonHeader
unfolding offset_for_address header_at_offset
header_at_address p h address = do
  offset ← offset_for_address p h address
  header_at_offset p h offset

unfoldable pub write_header : Platform → Heap → ℕ → CommonHeader → Result HeapError Heap
unfolding resolve write_common_header store
write_header p h offset header = do
  bytes ← resolve p h offset common_header_size
  written ← of_header (write_common_header bytes header)
  ok (record h { memory = store h.memory offset written })

unfoldable pub validate_object_address : Platform → Heap → ℕ → Result HeapError (Unit {0})
unfolding offset_for_address header_at_offset validate
validate_object_address p h address = do
  guard (address % object_alignment == 0) (misaligned_address address)
  offset ← offset_for_address p h address
  span ← present (h.allocations offset) (not_start address)
  guard (is_live span.metadata.state) (not_live address)
  guard (is_object span.metadata.kind) (not_object address)
  header ← header_at_offset p h offset
  of_header (validate header)

unfoldable pub encode_heap_ref : Platform → Heap → ℕ → Result HeapError ℕ
unfolding validate_object_address encode_heap_ref44
encode_heap_ref p h address = do
  validate_object_address p h address
  of_address (encode_heap_ref44 h.base address)

unfoldable pub decode_heap_ref : Platform → Heap → ℕ → Result HeapError ℕ
unfolding decode_heap_ref44 validate_object_address
decode_heap_ref p h ref = do
  address ← of_address (decode_heap_ref44 h.base ref)
  validate_object_address p h address
  ok address

unfoldable pub ref_for_offset : Platform → Heap → ℕ → Result HeapError ℕ
unfolding address_for_offset encode_heap_ref
ref_for_offset p h offset = do address ← address_for_offset p h offset; encode_heap_ref p h address
