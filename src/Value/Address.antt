-- ===== src/Value/Address.antt =====
-- internal/runtime/value/address.go: addresses in the heap as 44-bit references and as offsets.
-- An address is below 2 ^ 64, and sums of addresses wrap there.
pub mod RoundTrip
mod Tests
use vex_lua.Base.{
  ℕ, ◌+◌, ◌-◌, ◌*◌, ◌/◌, ◌%◌, ◌^◌, Bool, not, ltb, leb, ◌==◌, if◌then◌else◌, Result, ok, err, ◌>>=◌,
  ◌>>◌, guard,
}
use vex_lua.Value.TValue.{payload_mask, object_alignment}

pub data AddressError : Type 0 where
  zero_base zero_ref : AddressError
  below_base : ℕ → ℕ → AddressError
  misaligned ref_range : ℕ → AddressError

unfoldable pub encode_heap_ref44 : ℕ → ℕ → Result AddressError ℕ
encode_heap_ref44 base address = do
  guard (not (base == 0)) zero_base
  guard (not (ltb address base)) (below_base address base)
  let delta = address - base
  guard (not (delta == 0)) zero_ref
  guard (delta % object_alignment == 0) (misaligned address)
  let ref = delta / 2 ^ 4
  guard (leb ref payload_mask) (ref_range ref)
  ok ref

unfoldable pub decode_heap_ref44 : ℕ → ℕ → Result AddressError ℕ
decode_heap_ref44 base ref = do
  guard (not (base == 0)) zero_base
  guard (not (ref == 0)) zero_ref
  guard (leb ref payload_mask) (ref_range ref)
  ok ((base + ref * 2 ^ 4 % 2 ^ 64) % 2 ^ 64)

unfoldable pub encode_heap_off64 : ℕ → ℕ → Result AddressError ℕ
encode_heap_off64 base address = if address == 0 then ok 0 else (do
  guard (not (base == 0)) zero_base
  guard (not (ltb address base)) (below_base address base)
  ok (address - base))

unfoldable pub decode_heap_off64 : ℕ → ℕ → ℕ
decode_heap_off64 base offset = if offset == 0 then 0 else (base + offset) % 2 ^ 64
