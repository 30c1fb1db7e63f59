-- ===== src/Value/Header/Flags.antt =====
-- Flag words and mark bits.
use vex_lua.Base.{ℕ, ◌≡◌, true, bit_and, ==_iff}
use vex_lua.Base.Bits.{bit_and-bit_or_self}
use vex_lua.Base.Bits.Masks.{bit_and-and_not_self, bit_and-bit_or_apart, bit_and-and_not_apart}
use vex_lua.Value.Header.{has, with_bits, without}

-- After `With` the mask's flags are all set, after `Without` none of them is, and under any mask
-- that shares no flag with it both leave the flags as they were.
pub has-with_bits-without :
    (bits mask : ℕ)
    → (has (with_bits bits mask) mask ≡ true)
      × (bit_and (without bits mask) mask ≡ 0)
      × ((other : ℕ)
          → bit_and mask other ≡ 0
          → (bit_and (with_bits bits mask) other ≡ bit_and bits other)
            × (bit_and (without bits mask) other ≡ bit_and bits other))
unfolding has with_bits without
has-with_bits-without bits mask = (
  (==_iff _ mask).1 (bit_and-bit_or_self bits mask),
  bit_and-and_not_self bits mask,
  λ other h. (bit_and-bit_or_apart bits mask other h, bit_and-and_not_apart bits mask other h),
)
