-- ===== src/Base/Bits.antt =====
-- Go's `|`, `&`, `&^` and shifts on words, as arithmetic, at every width.
mod Step
pub mod Masks
use Prim.Native.Nat.{ℕ, zero, suc, ◌+◌, ◌-◌, ◌*◌, ◌/◌, ◌%◌, ◌^◌, ◌<◌, ◌≤◌, bit_and, bit_or}
use mathlib.Core.Path.{◌≡◌, refl, ap}
use native.Mathlib.Nat.{pow-suc, one-le-pow, div-add-mod', mod-lt}
use native.Mathlib.Omega.{arith}
use Step.{bit_or_step, bit_and_step, halving}

-- `(1 << k) - 1`
abbrev pub low_mask : ℕ → ℕ
low_mask k = 2 ^ k - 1

-- `x &^ m`: the bits of `x` that `m` has are a part of `x`, and are taken away.
unfoldable pub and_not : ℕ → ℕ → ℕ
and_not x m = x - bit_and x m

pub zero-bit_and : (x : ℕ) → bit_and 0 x ≡ 0
zero-bit_and =
    halving (λ x. bit_and 0 x ≡ 0) refl (λ x half. omega (arith, bit_and_step 0 (suc x), half))

pub bit_and-zero : (x : ℕ) → bit_and x 0 ≡ 0
bit_and-zero =
    halving (λ x. bit_and x 0 ≡ 0) refl (λ x half. omega (arith, bit_and_step (suc x) 0, half))

pub zero-bit_or : (x : ℕ) → bit_or 0 x ≡ x
zero-bit_or =
    halving (λ x. bit_or 0 x ≡ x) refl (λ x half. omega (arith, bit_or_step 0 (suc x), half))

pub bit_or-zero : (x : ℕ) → bit_or x 0 ≡ x
bit_or-zero =
    halving (λ x. bit_or x 0 ≡ x) refl (λ x half. omega (arith, bit_or_step (suc x) 0, half))

place_up : (digit place : ℕ) → digit * 2 ^ suc place ≡ 2 * (digit * 2 ^ place)
place_up digit place = omega (arith, ap (λ x. digit * x) (pow-suc 2 place))

-- `|` and `&` act on the digits above and below a place separately.
pub bit_or_split :
    (k a c r s : ℕ)
    → r < 2 ^ k
    → s < 2 ^ k
    → bit_or (a * 2 ^ k + r) (c * 2 ^ k + s) ≡ bit_or a c * 2 ^ k + bit_or r s
bit_or_split zero a c r s p q = ground (arith, zero-bit_or 0)
bit_or_split (suc k) a c r s p q = ground (
  arith,
  bit_or_step (a * 2 ^ suc k + r) (c * 2 ^ suc k + s),
  bit_or_step r s,
  place_up a k,
  place_up c k,
  place_up (bit_or a c) k,
  pow-suc 2 k,
  bit_or_split k a c (r / 2) (s / 2),
)

pub bit_and_split :
    (k a c r s : ℕ)
    → r < 2 ^ k
    → s < 2 ^ k
    → bit_and (a * 2 ^ k + r) (c * 2 ^ k + s) ≡ bit_and a c * 2 ^ k + bit_and r s
bit_and_split zero a c r s p q = ground (arith, zero-bit_and 0)
bit_and_split (suc k) a c r s p q = ground (
  arith,
  bit_and_step (a * 2 ^ suc k + r) (c * 2 ^ suc k + s),
  bit_and_step r s,
  place_up a k,
  place_up c k,
  place_up (bit_and a c) k,
  pow-suc 2 k,
  bit_and_split k a c (r / 2) (s / 2),
)

-- A field over `k` low bits: `q << k | r` is a sum.
pub bit_or_above : (k q r : ℕ) → r < 2 ^ k → bit_or (q * 2 ^ k) r ≡ q * 2 ^ k + r
bit_or_above k q r h = ground (arith, bit_or_split k q 0 0 r, zero-bit_or r, bit_or-zero q)

-- The same with the operands swapped.
pub bit_or_below : (k q r : ℕ) → r < 2 ^ k → bit_or r (q * 2 ^ k) ≡ r + q * 2 ^ k
bit_or_below k q r h = ground (arith, bit_or_split k 0 q r 0, bit_or-zero r, zero-bit_or q)

bit_and_ones : (k r : ℕ) → r < 2 ^ k → bit_and r (low_mask k) ≡ r
bit_and_ones zero r h = ground (arith, bit_and-zero r)
bit_and_ones (suc k) r h =
    ground (arith, bit_and_step r (low_mask (suc k)), pow-suc 2 k, bit_and_ones k (r / 2))

-- Masking the low bits takes a remainder.
pub bit_and_mask : (k a : ℕ) → bit_and a (low_mask k) ≡ a % 2 ^ k
bit_and_mask k a = ground (
  arith,
  one-le-pow k 2,
  div-add-mod' a (2 ^ k),
  mod-lt a {m = 2 ^ k},
  bit_and_split k (a / 2 ^ k) 0 (a % 2 ^ k) (low_mask k),
  bit_and_ones k (a % 2 ^ k),
  bit_and-zero (a / 2 ^ k),
)

-- A mask that stands `p` places up takes the bits from there.
pub bit_and_shifted : (p a m : ℕ) → bit_and a (m * 2 ^ p) ≡ bit_and (a / 2 ^ p) m * 2 ^ p
bit_and_shifted p a m = ground (
  arith,
  one-le-pow p 2,
  div-add-mod' a (2 ^ p),
  mod-lt a {m = 2 ^ p},
  bit_and_split p (a / 2 ^ p) m (a % 2 ^ p) 0,
  bit_and-zero (a % 2 ^ p),
)

-- `x & (1 << k) - 1 << p` is a field of `k` bits, `p` places up.
pub bit_and_field : (p k a : ℕ) → bit_and a (low_mask k * 2 ^ p) ≡ a / 2 ^ p % 2 ^ k * 2 ^ p
bit_and_field p k a = ground (arith, bit_and_shifted p a (low_mask k), bit_and_mask k (a / 2 ^ p))

-- Setting bits sets them; clearing bits clears them.
pub bit_and-bit_or_self : (a m : ℕ) → bit_and (bit_or a m) m ≡ m
bit_and-bit_or_self a m =
    halving (λ n. (a : ℕ) → bit_and (bit_or a n) n ≡ n) (λ a. bit_and-zero (bit_or a 0)) step m a
  where
    half : (a n : ℕ) → bit_or a (suc n) / 2 ≡ bit_or (a / 2) (suc n / 2)
    half a n = omega (arith, bit_or_step a (suc n))

    step :
        (n : ℕ)
        → ((a : ℕ) → bit_and (bit_or a (suc n / 2)) (suc n / 2) ≡ suc n / 2)
        → (a : ℕ) → bit_and (bit_or a (suc n)) (suc n) ≡ suc n
    step n ih a = omega (
      arith,
      bit_and_step (bit_or a (suc n)) (suc n),
      bit_or_step a (suc n),
      ap (λ x. bit_and x (suc n / 2)) (half a n),
      ih (a / 2),
    )
