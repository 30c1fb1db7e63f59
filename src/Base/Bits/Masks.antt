-- ===== src/Base/Bits/Masks.antt =====
-- Setting and clearing the bits of a mask, and the bits that stay.
use Prim.Native.Nat.{ℕ, zero, suc, ◌+◌, ◌-◌, ◌*◌, ◌/◌, ◌%◌, ◌<◌, ◌≤◌, min, bit_and, bit_or}
use mathlib.Core.Path.{◌≡◌, ap}
use mathlib.Core.WellFounded.{induction}
use native.Mathlib.Omega.{arith}
use vex_lua.Base.Bits.Step.{bit_or_step, bit_and_step, every_acc}
use vex_lua.Base.Bits.{and_not, bit_and-zero, zero-bit_and}

pub bit_and-le : (a m : ℕ) → bit_and a m ≤ a
bit_and-le a = induction every_acc {C = λ n. (m : ℕ) → bit_and n m ≤ n} a step
  where
    step : (n : ℕ) → ((k : ℕ) → k < n → (m : ℕ) → bit_and k m ≤ k) → (m : ℕ) → bit_and n m ≤ n
    step zero ih m = omega (arith, zero-bit_and m)
    step (suc n) ih m = omega (arith, bit_and_step (suc n) m, ih (suc n / 2) (omega arith) (m / 2))

pub and_not_step :
    (a m : ℕ) → and_not a m ≡ and_not (a / 2) (m / 2) * 2 + (a % 2 - min (a % 2) (m % 2))
unfolding and_not
and_not_step a m = omega (arith, bit_and_step a m, bit_and-le (a / 2) (m / 2))

half-bit_or : (a b : ℕ) → bit_or a b / 2 ≡ bit_or (a / 2) (b / 2)
half-bit_or a b = omega (arith, bit_or_step a b)

half-and_not : (a b : ℕ) → and_not a b / 2 ≡ and_not (a / 2) (b / 2)
half-and_not a b = omega (arith, and_not_step a b)

pub bit_and-and_not_self : (a m : ℕ) → bit_and (and_not a m) m ≡ 0
bit_and-and_not_self a m =
    induction every_acc {C = λ n. (a : ℕ) → bit_and (and_not a n) n ≡ 0} m step a
  where
    step :
        (n : ℕ)
        → ((k : ℕ) → k < n → (a : ℕ) → bit_and (and_not a k) k ≡ 0)
        → (a : ℕ) → bit_and (and_not a n) n ≡ 0
    step zero ih a = bit_and-zero (and_not a 0)
    step (suc n) ih a = omega (
      arith,
      bit_and_step (and_not a (suc n)) (suc n),
      and_not_step a (suc n),
      ap (λ x. bit_and x (suc n / 2)) (half-and_not a (suc n)),
      ih (suc n / 2) (omega arith) (a / 2),
    )

-- A mask that shares no bit with `n` leaves the bits under `n`.
pub bit_and-bit_or_apart : (a m n : ℕ) → bit_and m n ≡ 0 → bit_and (bit_or a m) n ≡ bit_and a n
bit_and-bit_or_apart a m n =
    induction every_acc
      {C = λ n. (a m : ℕ) → bit_and m n ≡ 0 → bit_and (bit_or a m) n ≡ bit_and a n} n step a m
  where
    step :
        (n : ℕ)
        → ((k : ℕ) → k < n → (a m : ℕ) → bit_and m k ≡ 0 → bit_and (bit_or a m) k ≡ bit_and a k)
        → (a m : ℕ) → bit_and m n ≡ 0
        → bit_and (bit_or a m) n ≡ bit_and a n
    step zero ih a m h = omega (arith, bit_and-zero (bit_or a m), bit_and-zero a)
    step (suc n) ih a m h = omega (
      arith,
      bit_and_step (bit_or a m) (suc n),
      bit_and_step a (suc n),
      bit_and_step m (suc n),
      bit_or_step a m,
      ap (λ x. bit_and x (suc n / 2)) (half-bit_or a m),
      ih (suc n / 2) (omega arith) (a / 2) (m / 2) (omega (arith, bit_and_step m (suc n))),
    )

pub bit_and-and_not_apart : (a m n : ℕ) → bit_and m n ≡ 0 → bit_and (and_not a m) n ≡ bit_and a n
bit_and-and_not_apart a m n =
    induction every_acc
      {C = λ n. (a m : ℕ) → bit_and m n ≡ 0 → bit_and (and_not a m) n ≡ bit_and a n} n step a m
  where
    step :
        (n : ℕ)
        → ((k : ℕ) → k < n → (a m : ℕ) → bit_and m k ≡ 0 → bit_and (and_not a m) k ≡ bit_and a k)
        → (a m : ℕ) → bit_and m n ≡ 0
        → bit_and (and_not a m) n ≡ bit_and a n
    step zero ih a m h = omega (arith, bit_and-zero (and_not a m), bit_and-zero a)
    step (suc n) ih a m h = omega (
      arith,
      bit_and_step (and_not a m) (suc n),
      bit_and_step a (suc n),
      bit_and_step m (suc n),
      and_not_step a m,
      ap (λ x. bit_and x (suc n / 2)) (half-and_not a m),
      ih (suc n / 2) (omega arith) (a / 2) (m / 2) (omega (arith, bit_and_step m (suc n))),
    )

pub bit_and-le_right : (a m : ℕ) → bit_and a m ≤ m
bit_and-le_right a m = induction every_acc {C = λ n. (a : ℕ) → bit_and a n ≤ n} m step a
  where
    step : (n : ℕ) → ((k : ℕ) → k < n → (a : ℕ) → bit_and a k ≤ k) → (a : ℕ) → bit_and a n ≤ n
    step zero ih a = omega (arith, bit_and-zero a)
    step (suc n) ih a = omega (arith, bit_and_step a (suc n), ih (suc n / 2) (omega arith) (a / 2))
