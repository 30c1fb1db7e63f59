-- ===== src/Table/Keys/Size.antt =====
-- `nextPowerOfTwo`, by which regions get their sizes, and the load that a hash part bears.
use vex_lua.Base.{ℕ, zero, suc, ◌-◌, ◌*◌, ◌/◌, ◌^◌, ◌≤◌, ◌<◌, ◌≡◌, refl, ap, ◌∙◌, arith, dec_lt}
use native.Mathlib.Nat.{pow-suc, mod-eq_of_lt}
use vex_lua.Table.Keys.{bit_len, next_power_of_two}

-- The length is the least one that holds the number.
pub bit_len-bounds :
    (w x : ℕ)
    → x < 2 ^ w
    → (x < 2 ^ bit_len w x) × (0 < x → 2 ^ bit_len w x ≤ 2 * x) × (x ≡ 0 → bit_len w x ≡ 0)
unfolding bit_len
bit_len-bounds zero x h = (omega arith, λ p. absurd (omega arith), λ _. refl)
bit_len-bounds (suc w) x h =
    let (above, below, none_left) = bit_len-bounds w (x / 2) (omega (arith, pow-suc 2 w)) in
    let double = pow-suc 2 (bit_len w (x / 2)) in
    (
      ground (arith, above, double),
      λ p. ground (arith, below, none_left, double, p),
      λ z. ground (arith, z),
    )

rounded : (n : ℕ) → 1 < n → n ≤ 2 ^ 31 → next_power_of_two n ≡ 2 ^ bit_len 32 (n - 1)
unfolding next_power_of_two
rounded n more small =
    let (above, below, zero_case) = bit_len-bounds 32 (n - 1) (omega arith) in
    let low = below (omega arith) in
    ground (arith, mod-eq_of_lt {n = 2 ^ bit_len 32 (n - 1)} {m = 2 ^ 32} (omega (arith, low)))

least : next_power_of_two 1 ≡ 1
unfolding next_power_of_two
least = refl

-- `nextPowerOfTwo` of a number from 1 to 2 ^ 31 is a power of two, at least the number and below
-- its double.
pub next_power_of_two-bounds :
    (n : ℕ)
    → 0 < n
    → n ≤ 2 ^ 31
    → (k : ℕ) × (next_power_of_two n ≡ 2 ^ k) × (n ≤ 2 ^ k) × (2 ^ k < 2 * n)
next_power_of_two-bounds n positive small = elim (dec_lt 1 n) [
  | no one ↦ (0, ap next_power_of_two (omega (arith, one)) ∙ least, omega (arith, one), omega arith)
  | yes more ↦
      (let (above, below, zero_case) = bit_len-bounds 32 (n - 1) (omega arith) in
        (
          bit_len 32 (n - 1),
          rounded n more small,
          omega (arith, above),
          omega (arith, below (omega (arith, more)), more),
        ))
]
