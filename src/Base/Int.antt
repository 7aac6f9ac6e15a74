-- ===== src/Base/Int.antt =====
-- C's `int` results over the native numbers: only signs, negation and comparison are needed.
use Prim.Native.Nat.{ℕ, zero, suc}
use mathlib.Core.Path.{◌≡◌, refl}
use mathlib.Core.Bool.{Bool, true, false}
use native.Mathlib.Omega.{arith}
use platform_external_nos_ho.Base.Tests.{◌==◌}

-- `negsuc n` is -(n + 1).
pub data ℤ : Type 0 where
  pos : ℕ → ℤ
  negsuc : ℕ → ℤ

-- -n, for a number n.
abbrev pub neg_ℕ : ℕ → ℤ
neg_ℕ zero = pos 0
neg_ℕ (suc n) = negsuc n

-- -z
abbrev pub neg_ℤ : ℤ → ℤ
neg_ℤ (pos n) = neg_ℕ n
neg_ℤ (negsuc n) = pos (suc n)

-- z == y
abbrev pub eqb_ℤ : ℤ → ℤ → Bool
eqb_ℤ (pos n) (pos m) = n == m
eqb_ℤ (pos n) (negsuc m) = false
eqb_ℤ (negsuc n) (pos m) = false
eqb_ℤ (negsuc n) (negsuc m) = n == m

-- z < 0
abbrev pub is_neg : ℤ → Bool
is_neg (pos n) = false
is_neg (negsuc n) = true

-- z != 0
abbrev pub is_nonzero : ℤ → Bool
is_nonzero (pos zero) = false
is_nonzero (pos (suc n)) = true
is_nonzero (negsuc n) = true

pub eqb_ℤ-eq : (a b : ℤ) → eqb_ℤ a b ≡ true → a ≡ b
eqb_ℤ-eq (pos n) (pos m) h = ground arith
eqb_ℤ-eq (pos n) (negsuc m) h = cc
eqb_ℤ-eq (negsuc n) (pos m) h = cc
eqb_ℤ-eq (negsuc n) (negsuc m) h = ground arith

pub is_nonzero-neg_ℤ : (a : ℤ) → is_nonzero (neg_ℤ a) ≡ is_nonzero a
is_nonzero-neg_ℤ (pos zero) = refl
is_nonzero-neg_ℤ (pos (suc n)) = refl
is_nonzero-neg_ℤ (negsuc n) = refl

pub is_nonzero-false : (a : ℤ) → is_nonzero a ≡ false → a ≡ pos 0
is_nonzero-false (pos zero) h = refl
is_nonzero-false (pos (suc n)) h = cc
is_nonzero-false (negsuc n) h = cc
