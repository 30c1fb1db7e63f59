-- ===== src/Table/Store/Integers.antt =====
-- internal/runtime/table/store.go: a 32-bit integer as a key, `value.NumberValue(float64(index))`.
use vex_lua.Base.{
  ℕ, zero, suc, ◌+◌, ◌-◌, ◌*◌, ◌/◌, ◌^◌, ◌<◌, ◌≤◌, ◌≡◌, refl, ap, ◌∙◌, some, ok, true, arith,
}
use native.Mathlib.Nat.{
  pow-suc, mul_assoc, add-mul, mul-mod_left, mul-div_cancel, mul-lt-mul_of_pos_right, one-le-pow,
}
use vex_lua.Base.Float.{positive_u32, is_nan}
use vex_lua.Value.TValue.{is_number, is_boxed_tag}
use vex_lua.Table.Keys.{bit_len, array_index, validate_key}
use vex_lua.Table.Layout.{is_nil_value}
use vex_lua.Table.Keys.Size.{bit_len-bounds}
use vex_lua.Table.Store.{HeapOps, Table}
use vex_lua.Table.Store.Read.{of_u32, get, get_in_hash}

pow_split : (a b c : ℕ) → a + b ≡ c → 2 ^ a * 2 ^ b ≡ 2 ^ c
pow_split zero b c h = omega (arith, ap (λ x. 2 ^ x) h')
  where
    h' : b ≡ c
    h' = omega (arith, h)
pow_split (suc a) b zero h = absurd (omega (arith, h))
pow_split (suc a) b (suc c) h = omega (
  arith,
  ap (λ x. x * 2 ^ b) (pow-suc 2 a),
  pow-suc 2 c,
  pow_split a b c (omega (arith, h)),
  mul_assoc 2 (2 ^ a) (2 ^ b),
  mul_assoc (2 ^ a) 2 (2 ^ b),
)

bit_len_within : (w x : ℕ) → bit_len w x ≤ w
unfolding bit_len
bit_len_within zero x = omega arith
bit_len_within (suc w) x = ground (arith, bit_len_within w (x / 2))

-- The place of the leading digit.
leading :
    (n l : ℕ)
    → 0 < n
    → l ≤ 32
    → n < 2 ^ l
    → 2 ^ l ≤ 2 * n
    → (e : ℕ) × (l ≡ suc e) × (e ≤ 31) × (2 ^ e ≤ n) × (n < 2 ^ e + 2 ^ e)
leading n zero positive low above below = absurd (omega arith)
leading n (suc e) positive low above below =
    (e, refl, omega arith, omega (arith, pow-suc 2 e), omega (arith, pow-suc 2 e))

read_back :
    (e k u d : ℕ)
    → e ≤ 31
    → u ≡ 2 ^ (52 - e)
    → k * u ≡ 2 ^ 52
    → 0 < u
    → d * u < k * u
    → positive_u32 ((1023 + e) * 2 ^ 52 + d * u) ≡ some (k + d)
unfolding positive_u32
read_back e k u d low unit whole some_unit below =
    let exact : 1075 - (1023 + e) ≡ 52 - e = omega (arith, low) in
    let sum : 2 ^ 52 + d * u ≡ (k + d) * u = omega (arith, whole, add-mul k d u) in
    ground
      (arith, ap (λ x. 2 ^ x) exact, sum, mul-mod_left (k + d) u, mul-div_cancel (k + d) some_unit)

-- The word of an integer from 1 to 2 ^ 32 - 1: its leading digit, and the others moved up.
of_u32-word :
    (n : ℕ)
    → 0 < n
    → n < 2 ^ 32
    → (e d u : ℕ) × (e ≤ 31)
      × (u ≡ 2 ^ (52 - e))
      × (2 ^ e * u ≡ 2 ^ 52)
      × (0 < u)
      × (d * u < 2 ^ e * u)
      × (2 ^ e + d ≡ n)
      × (of_u32 n ≡ (1023 + e) * 2 ^ 52 + d * u)
unfolding of_u32
of_u32-word n positive small =
    let (above, below, zero_case) = bit_len-bounds 32 n small in
    let (e, is_length, low, least, most) =
      leading n (bit_len 32 n) positive (bit_len_within 32 n) above (below positive) in
    let shift : bit_len 32 n - 1 ≡ e = omega (arith, is_length) in
    let some_unit : 0 < 2 ^ (52 - e) = one-le-pow (52 - e) 2 (omega arith) in
    (
      e,
      n - 2 ^ e,
      2 ^ (52 - e),
      low,
      refl,
      pow_split e (52 - e) 52 (omega (arith, low)),
      some_unit,
      mul-lt-mul_of_pos_right {m = n - 2 ^ e} {n = 2 ^ e} (omega (arith, least, most)) some_unit,
      omega (arith, least),
      ap (λ x. (1023 + x) * 2 ^ 52 + (n - 2 ^ x) * 2 ^ (52 - x)) shift,
    )

-- The key of an integer from 1 to 2 ^ 32 - 1 is the number that names that index.
pub array_index-of_u32 : (n : ℕ) → 0 < n → n < 2 ^ 32 → array_index (of_u32 n) ≡ some n
unfolding array_index is_number
array_index-of_u32 n positive small =
    let (e, d, u, low, unit, whole, some_unit, below, sum, word) = of_u32-word n positive small in
    let back = read_back e (2 ^ e) u d low unit whole some_unit below in
    let number : is_number (of_u32 n) ≡ true = ground (arith, word, below, whole, low) in
    rw (array_index, number) (ap positive_u32 word ∙ back ∙ ap some sum)

-- It is a key that the table takes.
of_u32-valid : (n : ℕ) → 0 < n → n < 2 ^ 32 → validate_key (of_u32 n) ≡ ok tt
unfolding validate_key is_nil_value is_boxed_tag is_number is_nan
of_u32-valid n positive small =
    let (e, d, u, low, unit, whole, some_unit, below, sum, word) = of_u32-word n positive small in
    ground (arith, word, below, whole, low)

-- Past the array part, `Get` at the number of an index is what the hash part has for it.
pub get-of_u32 :
    {H : Type 0} (ops : HeapOps H) (t : Table) (n : ℕ)
    → t.object.array_cap < n
    → n < 2 ^ 32
    → get ops t (of_u32 n) ≡ get_in_hash ops t (of_u32 n)
unfolding get
get-of_u32 ops t n past small = ground (
  arith,
  of_u32-valid n (omega (arith, past)) small,
  array_index-of_u32 n (omega (arith, past)) small,
)
