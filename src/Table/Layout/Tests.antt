-- ===== src/Table/Layout/Tests.antt =====
-- A table object and a hash entry written to a buffer and read back.
use vex_lua.Base.{ℕ, List, [], ok, err, Result, replicate}
use vex_lua.Base.Bits.{and_not}
use vex_lua.Base.Bytes.{read_le, write_le}
use vex_lua.Base.Slots.{write_slots}
use vex_lua.Value.TValue.{is_boxed_tag}
use vex_lua.Value.Header.{read_common_header, write_common_header, validate, with_bits, without}
use vex_lua.Table.Layout.{
  Entry, new_object, sync_layout_flags, is_nil_value, read_object, write_object, read_entry,
  write_entry,
}

program : Unit {0}
unfolding and_not read_le write_le write_slots is_boxed_tag read_common_header write_common_header
    validate with_bits without new_object sync_layout_flags is_nil_value read_object write_object
    read_entry write_entry
program = tt

abbrev bytes : {E : Type 0} → Result E (List ℕ) → List ℕ
bytes (ok b) = b
bytes (err e) = []

abbrev entry : Entry
entry = record { full_hash = 700; key_class = 2; key_aux = 1; key = 0x3ff0000000000000; value = 9 }

abbrev entry_bytes : List ℕ
entry_bytes = bytes (write_entry (replicate 32 7) entry)

abbrev object_bytes : List ℕ
object_bytes = bytes (write_object (replicate 96 0) (new_object 7))
