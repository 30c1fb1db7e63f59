-- ===== src/Value/Header/Tests.antt =====
-- A run of the header's write and read.
use vex_lua.Base.{ℕ, ◌≡◌, refl, ok, replicate, List}
use vex_lua.Base.Bytes.{read_le}
use vex_lua.Base.Slots.{write_slots}
use vex_lua.Value.Header.{CommonHeader, validate, header_slots, read_common_header}

-- A table object of 96 bytes in a buffer of 20.
abbrev table_header : CommonHeader
table_header = record { kind = 2; mark = 1; flags = 0; size_bytes = 96; version = 1; aux = 0 }

abbrev blank : List ℕ
blank = replicate 20 7

read_back :
    (validate table_header ≡ ok tt)
    × (read_common_header (write_slots blank (header_slots table_header)) ≡ ok table_header)
unfolding validate read_common_header write_slots read_le
read_back = (refl, refl)
