-- ===== src/Base/Float.antt =====
-- Go's float64 as its 64 bits (IEEE 754 binary64): what the program asks of a number.
use Prim.Native.Nat.{ℕ, ◌+◌, ◌-◌, ◌/◌, ◌%◌, ◌^◌}
use mathlib.Core.Bool.{Bool, not, ◌&&◌, ◌||◌}
use mathlib.Core.Option.{Option, none, some}
use vex_lua.Base.Tests.{ltb, leb, ◌==◌, if◌then◌else◌}

abbrev pub sign_bit : ℕ → ℕ
sign_bit x = x / 2 ^ 63 % 2

abbrev pub exponent : ℕ → ℕ
exponent x = x / 2 ^ 52 % 2 ^ 11

abbrev pub fraction : ℕ → ℕ
fraction x = x % 2 ^ 52

-- `math.IsNaN`
unfoldable pub is_nan : ℕ → Bool
is_nan x = exponent x == 2047 && not (fraction x == 0)

-- `x == 0`, for either sign
unfoldable pub is_zero : ℕ → Bool
is_zero x = x % 2 ^ 63 == 0

-- `a == b` on numbers
unfoldable pub float_eq : ℕ → ℕ → Bool
float_eq a b = (not (is_nan a) && not (is_nan b)) && (a == b || (is_zero a && is_zero b))

-- The positive integer below 2 ^ 32 that a number is, if it is one: the significand, with its
-- point moved, has no digit behind it.
unfoldable pub positive_u32 : ℕ → Option ℕ
positive_u32 x =
    if sign_bit x == 1 || (ltb (exponent x) 1023 || leb 1055 (exponent x))
    then none
    else (let significand = 2 ^ 52 + fraction x in
        let unit = 2 ^ (1075 - exponent x) in
        if significand % unit == 0 then some (significand / unit) else none)
