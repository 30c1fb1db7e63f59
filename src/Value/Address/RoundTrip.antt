-- ===== src/Value/Address/RoundTrip.antt =====
-- References and offsets lead back to the address.
use vex_lua.Base.{ℕ, ◌^◌, ◌≤◌, ◌<◌, ◌≡◌, ok, arith}
use vex_lua.Value.TValue.{payload_mask}
use vex_lua.Value.Address.{encode_heap_ref44, decode_heap_ref44}

-- A reference that `EncodeHeapRef44` returns is not zero, fits 44 bits, and `DecodeHeapRef44`
-- leads it back to the address.
pub decode-encode_heap_ref44 :
    (base address ref : ℕ)
    → address < 2 ^ 64
    → encode_heap_ref44 base address ≡ ok ref
    → (0 < ref) × (ref ≤ payload_mask) × (decode_heap_ref44 base ref ≡ ok address)
unfolding encode_heap_ref44 decode_heap_ref44
decode-encode_heap_ref44 base address ref h e = ground arith
