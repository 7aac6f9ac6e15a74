-- ===== src/Base/Bits.antt =====
-- `|` of disjoint fields and `&` with a mask, as arithmetic.
pub mod Step
use Step.{digits_of}
use Prim.Native.Nat.{ℕ, zero, suc, ◌+◌, ◌-◌, ◌*◌, ◌/◌, ◌%◌, ◌^◌, ◌≤◌, ◌<◌, min, max}
use Prim.Native.Nat.{bit_and, bit_or, bit_and-bitwise, bit_or-bitwise}
use mathlib.Core.Path.{◌≡◌, refl, ap}
use native.Mathlib.Nat.{pow-suc, one-le-pow}
use native.Mathlib.Omega.{arith}

pub bit_or_digit : (x y : ℕ) → bit_or x y ≡ bit_or (x / 2) (y / 2) * 2 + max (x % 2) (y % 2)
bit_or_digit zero y = simp bit_or-bitwise (omega arith)
bit_or_digit (suc x) y = simp bit_or-bitwise (digits_of (λ low. low) max x y)

pub bit_and_digit : (x y : ℕ) → bit_and x y ≡ bit_and (x / 2) (y / 2) * 2 + min (x % 2) (y % 2)
bit_and_digit zero y = simp bit_and-bitwise (omega arith)
bit_and_digit (suc x) y = simp bit_and-bitwise (digits_of (λ low. 0) min x y)

-- Both identities with 0, by halving.
with_zero : (bound x : ℕ) → x ≤ bound → (bit_or x 0 ≡ x) × (bit_and x 0 ≡ 0)
with_zero bound zero h = (refl, refl)
with_zero zero (suc x) h = absurd (omega arith)
with_zero (suc bound) (suc x) h =
    let half = with_zero bound (suc x / 2) (omega arith) in
    (omega (arith, bit_or_digit (suc x) 0, half.0), omega (arith, bit_and_digit (suc x) 0, half.1))

pub bit_or-zero : (x : ℕ) → bit_or x 0 ≡ x
bit_or-zero x = (with_zero x x (omega arith)).0

pub bit_and-zero : (x : ℕ) → bit_and x 0 ≡ 0
bit_and-zero x = (with_zero x x (omega arith)).1

pub zero-bit_or : (y : ℕ) → bit_or 0 y ≡ y
zero-bit_or y = simp bit_or-bitwise

pub shift-suc : (p k : ℕ) → p * 2 ^ suc k ≡ p * 2 ^ k * 2
shift-suc p k =
    let doubled : p * 2 ^ suc k ≡ p * (2 ^ k * 2) = ap (λ (n : ℕ). p * n) (pow-suc 2 k) in
    omega (arith, doubled)

-- Above the low `k` bits and in them `|` works separately.
pub bit_or_split :
    (k p q r s : ℕ)
    → r < 2 ^ k
    → s < 2 ^ k
    → bit_or (p * 2 ^ k + r) (q * 2 ^ k + s) ≡ bit_or p q * 2 ^ k + bit_or r s
bit_or_split zero p q r s hr hs = ground (arith, bit_or-zero 0)
bit_or_split (suc k) p q r s hr hs = ground (
  arith,
  bit_or_digit (p * 2 ^ suc k + r) (q * 2 ^ suc k + s),
  bit_or_digit r s,
  shift-suc p k,
  shift-suc q k,
  shift-suc (bit_or p q) k,
  pow-suc 2 k,
  bit_or_split k p q (r / 2) (s / 2) (omega (arith, pow-suc 2 k)) (omega (arith, pow-suc 2 k)),
)

-- So does `&`.
pub bit_and_split :
    (k p q r s : ℕ)
    → r < 2 ^ k
    → s < 2 ^ k
    → bit_and (p * 2 ^ k + r) (q * 2 ^ k + s) ≡ bit_and p q * 2 ^ k + bit_and r s
bit_and_split zero p q r s hr hs = ground (arith, bit_and-zero 0)
bit_and_split (suc k) p q r s hr hs = ground (
  arith,
  bit_and_digit (p * 2 ^ suc k + r) (q * 2 ^ suc k + s),
  bit_and_digit r s,
  shift-suc p k,
  shift-suc q k,
  shift-suc (bit_and p q) k,
  pow-suc 2 k,
  bit_and_split k p q (r / 2) (s / 2) (omega (arith, pow-suc 2 k)) (omega (arith, pow-suc 2 k)),
)

bit_and-ones : (k r : ℕ) → r < 2 ^ k → bit_and r (2 ^ k - 1) ≡ r
bit_and-ones zero r h = ground (arith, bit_and-zero r)
bit_and-ones (suc k) r h =
    let half : (2 ^ suc k - 1) / 2 ≡ 2 ^ k - 1 = omega (arith, pow-suc 2 k, one-le-pow k 2) in
    ground (
      arith,
      half,
      bit_and_digit r (2 ^ suc k - 1),
      pow-suc 2 k,
      one-le-pow k 2,
      bit_and-ones k (r / 2) (omega (arith, pow-suc 2 k)),
    )

-- A mask of `k` low ones is the remainder by `2 ^ k`.
pub bit_and_mask : (k a : ℕ) → bit_and a (2 ^ k - 1) ≡ a % 2 ^ k
bit_and_mask k a =
    let low : a % 2 ^ k < 2 ^ k = grind (arith, one-le-pow k 2) in
    let ones : 2 ^ k - 1 < 2 ^ k = omega (arith, one-le-pow k 2) in
    ground (
      arith,
      bit_and_split k (a / 2 ^ k) 0 (a % 2 ^ k) (2 ^ k - 1) low ones,
      bit_and-zero (a / 2 ^ k),
      bit_and-ones k (a % 2 ^ k) low,
    )
