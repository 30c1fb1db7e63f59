-- ===== src/Value/Header.antt =====
-- internal/runtime/value/header.go: the sixteen bytes that every heap object starts with.
pub mod Flags
pub mod Layout
mod Tests
use vex_lua.Base.{
  ℕ, ◌+◌, ◌%◌, bit_and, bit_or, Bool, not, List, [], ◌∷◌, length, get_or, set, ltb, leb, ◌==◌,
  if◌then◌else◌, Result, ok, err, ◌>>=◌, ◌>>◌, guard,
}
use vex_lua.Base.Bits.{and_not}
use vex_lua.Base.Bytes.{read_le, write_le}
use vex_lua.Base.Slots.{Slot, put, write_slots}
use vex_lua.Value.TValue.{object_alignment}

abbrev pub common_header_size : ℕ
common_header_size = 0x10

abbrev pub kind_offset : ℕ
kind_offset = 0x00

abbrev pub mark_offset : ℕ
mark_offset = 0x02

abbrev pub flags_offset : ℕ
flags_offset = 0x03

abbrev pub size_bytes_offset : ℕ
size_bytes_offset = 0x04

abbrev pub version_offset : ℕ
version_offset = 0x08

abbrev pub aux_offset : ℕ
aux_offset = 0x0c

abbrev pub mark_white0 : ℕ
mark_white0 = 1

abbrev pub mark_white1 : ℕ
mark_white1 = 2

abbrev pub mark_gray : ℕ
mark_gray = 4

abbrev pub mark_black : ℕ
mark_black = 8

abbrev pub mark_remembered : ℕ
mark_remembered = 32

pub record CommonHeader : Type 0 where
  pub kind : ℕ  -- uint16
  pub mark : ℕ  -- uint8
  pub flags : ℕ  -- uint8
  pub size_bytes : ℕ  -- uint32
  pub version : ℕ  -- uint32
  pub aux : ℕ  -- uint32

pub data HeaderError : Type 0 where
  zero_kind : HeaderError
  size_too_small size_misaligned buffer_too_small : ℕ → HeaderError

unfoldable pub new_common_header : ℕ → ℕ → CommonHeader
new_common_header kind size_bytes = record {
  kind = kind;
  mark = 0;
  flags = 0;
  size_bytes = size_bytes;
  version = 0;
  aux = 0;
}

unfoldable pub validate : CommonHeader → Result HeaderError (Unit {0})
validate header = do
  guard (not (header.kind == 0)) zero_kind
  guard (leb common_header_size header.size_bytes) (size_too_small header.size_bytes)
  guard (header.size_bytes % object_alignment == 0) (size_misaligned header.size_bytes)

-- `Has`, `With` and `Without` of `HeaderFlags` and `MarkBits`, which are the same on both.
unfoldable pub has : ℕ → ℕ → Bool
has bits mask = bit_and bits mask == mask

unfoldable pub with_bits : ℕ → ℕ → ℕ
with_bits bits mask = bit_or bits mask

unfoldable pub without : ℕ → ℕ → ℕ
unfolding and_not
without bits mask = and_not bits mask

unfoldable pub read_common_header : List ℕ → Result HeaderError CommonHeader
read_common_header buffer = do
  guard (leb common_header_size (length buffer)) (buffer_too_small (length buffer))
  ok (record {
    kind = read_le 2 buffer kind_offset;
    mark = read_le 1 buffer mark_offset;
    flags = read_le 1 buffer flags_offset;
    size_bytes = read_le 4 buffer size_bytes_offset;
    version = read_le 4 buffer version_offset;
    aux = read_le 4 buffer aux_offset;
  })

abbrev pub header_slots : CommonHeader → List Slot
header_slots header =
    put kind_offset 2 header.kind
    ∷ put mark_offset 1 header.mark
    ∷ put flags_offset 1 header.flags
    ∷ put size_bytes_offset 4 header.size_bytes
    ∷ put version_offset 4 header.version
    ∷ put aux_offset 4 header.aux
    ∷ []

-- The buffer that results.
unfoldable pub write_common_header : List ℕ → CommonHeader → Result HeaderError (List ℕ)
write_common_header buffer header = do
  guard (leb common_header_size (length buffer)) (buffer_too_small (length buffer))
  validate header
  ok (write_slots buffer (header_slots header))

-- `ReadObjectKind` and the five readers like it, which differ in the offset and the width.
unfoldable pub read_field : ℕ → ℕ → List ℕ → Result HeaderError ℕ
read_field width off buffer = do
  guard (leb (off + width) (length buffer)) (buffer_too_small (length buffer))
  ok (read_le width buffer off)

unfoldable pub write_field : ℕ → ℕ → List ℕ → ℕ → Result HeaderError (List ℕ)
write_field width off buffer v = do
  guard (leb (off + width) (length buffer)) (buffer_too_small (length buffer))
  ok (write_le width buffer off v)

unfoldable pub read_object_kind : List ℕ → Result HeaderError ℕ
unfolding read_field
read_object_kind = read_field 2 kind_offset

unfoldable pub read_mark_bits : List ℕ → Result HeaderError ℕ
unfolding read_field
read_mark_bits = read_field 1 mark_offset

unfoldable pub read_header_flags : List ℕ → Result HeaderError ℕ
unfolding read_field
read_header_flags = read_field 1 flags_offset

unfoldable pub read_size_bytes : List ℕ → Result HeaderError ℕ
unfolding read_field
read_size_bytes = read_field 4 size_bytes_offset

unfoldable pub read_version : List ℕ → Result HeaderError ℕ
unfolding read_field
read_version = read_field 4 version_offset

unfoldable pub read_aux : List ℕ → Result HeaderError ℕ
unfolding read_field
read_aux = read_field 4 aux_offset

unfoldable pub write_object_kind : List ℕ → ℕ → Result HeaderError (List ℕ)
unfolding write_field
write_object_kind = write_field 2 kind_offset

unfoldable pub write_mark_bits : List ℕ → ℕ → Result HeaderError (List ℕ)
unfolding write_field
write_mark_bits = write_field 1 mark_offset

unfoldable pub write_header_flags : List ℕ → ℕ → Result HeaderError (List ℕ)
unfolding write_field
write_header_flags = write_field 1 flags_offset

unfoldable pub write_size_bytes : List ℕ → ℕ → Result HeaderError (List ℕ)
unfolding write_field
write_size_bytes = write_field 4 size_bytes_offset

unfoldable pub write_version : List ℕ → ℕ → Result HeaderError (List ℕ)
unfolding write_field
write_version = write_field 4 version_offset

unfoldable pub write_aux : List ℕ → ℕ → Result HeaderError (List ℕ)
unfolding write_field
write_aux = write_field 4 aux_offset
