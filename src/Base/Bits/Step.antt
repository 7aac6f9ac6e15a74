-- ===== src/Base/Bits/Step.antt =====
-- The native bit operations are a recursion on binary digits with fuel; here is its equation for
-- the lowest digit, without the fuel.
use Prim.Native.Nat.{ℕ, zero, suc, ◌+◌, ◌*◌, ◌/◌, ◌%◌, ◌≤◌, digits, bitwise}
use mathlib.Core.Path.{◌≡◌, refl}
use native.Mathlib.Omega.{arith}

module _ (z : ℕ → ℕ) (f : ℕ → ℕ → ℕ) where
  -- At 0 the recursion stops, whatever the fuel.
  digits-zero : (n y : ℕ) → digits z f n 0 y ≡ z y
  digits-zero zero y = refl
  digits-zero (suc n) y = refl

  digits-fuel : (n m x y : ℕ) → x ≤ n → x ≤ m → digits z f n x y ≡ digits z f m x y
  digits-fuel n m zero y h k = rw (digits-zero n y, digits-zero m y)
  digits-fuel zero m (suc x) y h k = absurd (omega arith)
  digits-fuel (suc n) zero (suc x) y h k = absurd (omega arith)
  digits-fuel (suc n) (suc m) (suc x) y h k =
      let half = digits-fuel n m (suc x / 2) (y / 2) (omega arith) (omega arith) in
      omega (arith, half)

  pub digits_of :
      (x y : ℕ)
      → bitwise z f (suc x) y ≡ bitwise z f (suc x / 2) (y / 2) * 2 + f (suc x % 2) (y % 2)
  digits_of x y =
      let same = digits-fuel x (suc x / 2) (suc x / 2) (y / 2) (omega arith) (omega arith) in
      omega (arith, same)
