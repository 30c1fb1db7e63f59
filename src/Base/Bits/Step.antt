-- ===== src/Base/Bits/Step.antt =====
-- The lowest digit of `|` and `&`, from the recursion on binary digits that they stand for.
use Prim.Native.Nat.{
  ℕ, zero, suc, ◌+◌, ◌*◌, ◌/◌, ◌%◌, ◌≤◌, ◌<◌, min, max, bit_and, bit_or, digits, bitwise,
  bit_and-bitwise, bit_or-bitwise,
}
use mathlib.Core.Path.{◌≡◌, refl}
use mathlib.Core.WellFounded.{Acc, WellFounded, induction}
use native.Mathlib.Nat.{le_refl}
use native.Mathlib.Omega.{arith}

below_acc : (bound x : ℕ) → x < bound → Acc ◌<◌ x
below_acc zero x small = absurd (omega arith)
below_acc (suc bound) x small = Acc.intro x (λ y less. below_acc bound y (omega arith))

pub every_acc : WellFounded ◌<◌
every_acc = record { apply = λ x. below_acc (x + 1) x (omega arith) }

-- Induction that takes a number to its half.
pub halving : (P : ℕ → Type 0) → P 0 → ((x : ℕ) → P (suc x / 2) → P (suc x)) → (x : ℕ) → P x
halving P base step x = induction every_acc x go
  where
    go : (y : ℕ) → ((z : ℕ) → z < y → P z) → P y
    go zero ih = base
    go (suc y) ih = step y (ih (suc y / 2) (omega arith))

module _ (keep : ℕ → ℕ) (digit : ℕ → ℕ → ℕ) where
  -- More fuel than the first number does not show.
  fuel_lem : (f g x y : ℕ) → x ≤ g → x ≤ f → digits keep digit f x y ≡ digits keep digit g x y
  fuel_lem zero zero zero y small small' = refl
  fuel_lem zero zero (suc x) y small small' = absurd (omega arith)
  fuel_lem zero (suc g) zero y small small' = refl
  fuel_lem zero (suc g) (suc x) y small small' = absurd (omega arith)
  fuel_lem (suc f) zero zero y small small' = refl
  fuel_lem (suc f) zero (suc x) y small small' = absurd (omega arith)
  fuel_lem (suc f) (suc g) zero y small small' = refl
  fuel_lem (suc f) (suc g) (suc x) y small small' =
      rw (fuel_lem f g (suc x / 2) (y / 2) (omega arith) (omega arith))

  last_digit :
      (x y : ℕ)
      → bitwise keep digit (suc x) y
        ≡ bitwise keep digit (suc x / 2) (y / 2) * 2 + digit (suc x % 2) (y % 2)
  last_digit x y =
      let half = suc x / 2 in
      omega (arith, fuel_lem x half half (y / 2) (le_refl half) (omega arith))

pub bit_and_step : (x y : ℕ) → bit_and x y ≡ bit_and (x / 2) (y / 2) * 2 + min (x % 2) (y % 2)
bit_and_step (suc x) y = simp bit_and-bitwise (last_digit (λ _. 0) min x y)
bit_and_step zero y = simp bit_and-bitwise (omega arith)

pub bit_or_step : (x y : ℕ) → bit_or x y ≡ bit_or (x / 2) (y / 2) * 2 + max (x % 2) (y % 2)
bit_or_step (suc x) y = simp bit_or-bitwise (last_digit (λ z. z) max x y)
bit_or_step zero y = simp bit_or-bitwise (omega arith)
