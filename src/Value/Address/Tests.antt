-- ===== src/Value/Address/Tests.antt =====
-- Runs of the address conversions.
use vex_lua.Base.{◌≡◌, refl, ok}
use vex_lua.Value.Address.{encode_heap_ref44, decode_heap_ref44}

there_and_back :
    (encode_heap_ref44 0x10000 0x10030 ≡ ok 3) × (decode_heap_ref44 0x10000 3 ≡ ok 0x10030)
unfolding encode_heap_ref44 decode_heap_ref44
there_and_back = (refl, refl)
