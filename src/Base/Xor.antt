-- ===== src/Base/Xor.antt =====
-- The laws of exclusive or, by the binary digits.
use platform_external_nos_ho.Base.Bits.Step.{digits_of}
use Prim.Native.Nat.{◌<◌, ◌≤◌, ℕ, zero, suc, ◌^◌, ◌%◌, ◌/◌, ◌+◌, ◌*◌}
use Prim.Native.Nat.{bit_xor, bit_xor-bitwise, differ}
use mathlib.Core.Path.{◌≡◌, refl}
use native.Mathlib.Nat.{pow-suc}
use native.Mathlib.Omega.{arith}
use platform_external_nos_ho.Base.Bits.{shift-suc}

differ_digits : (x y : ℕ) → x < 2 → y < 2 → differ x y ≡ (x + y) % 2
differ_digits zero y hx hy = omega arith
differ_digits (suc zero) zero hx hy = refl
differ_digits (suc zero) (suc zero) hx hy = refl
differ_digits (suc zero) (suc (suc y)) hx hy = absurd (omega arith)
differ_digits (suc (suc x)) y hx hy = absurd (omega arith)

pub bit_xor_digit : (a b : ℕ) → bit_xor a b ≡ bit_xor (a / 2) (b / 2) * 2 + (a + b) % 2
bit_xor_digit zero b = simp bit_xor-bitwise (omega arith)
bit_xor_digit (suc a) b = simp bit_xor-bitwise (
    omega (
      arith,
      digits_of (λ y. y) differ a b,
      differ_digits (suc a % 2) (b % 2) (omega arith) (omega arith),
    ))

pub zero-bit_xor : (b : ℕ) → bit_xor 0 b ≡ b
zero-bit_xor b = simp bit_xor-bitwise

pub bit_xor-half : (a b : ℕ) → bit_xor a b / 2 ≡ bit_xor (a / 2) (b / 2)
bit_xor-half a b = omega (arith, bit_xor_digit a b)

pub bit_xor_parity : (a b : ℕ) → bit_xor a b % 2 ≡ (a + b) % 2
bit_xor_parity a b = omega (arith, bit_xor_digit a b)

-- Two numbers are equal if their halves and their parities are.
same_digits : (a b : ℕ) → a / 2 ≡ b / 2 → a % 2 ≡ b % 2 → a ≡ b
same_digits a b h p = omega arith

comm_below : (n a b : ℕ) → a + b ≤ n → bit_xor a b ≡ bit_xor b a
comm_below zero zero zero h = refl
comm_below zero zero (suc b) h = absurd (omega arith)
comm_below zero (suc a) b h = absurd (omega arith)
comm_below (suc n) zero zero h = refl
comm_below (suc n) zero (suc b) h = omega (
  arith,
  bit_xor_digit 0 (suc b),
  bit_xor_digit (suc b) 0,
  comm_below n 0 (suc b / 2) (omega arith),
)
comm_below (suc n) (suc a) b h = omega (
  arith,
  bit_xor_digit (suc a) b,
  bit_xor_digit b (suc a),
  comm_below n (suc a / 2) (b / 2) (omega arith),
)

pub bit_xor_comm : (a b : ℕ) → bit_xor a b ≡ bit_xor b a
bit_xor_comm a b = comm_below (a + b) a b (omega arith)

pub bit_xor-zero : (a : ℕ) → bit_xor a 0 ≡ a
bit_xor-zero a = omega (arith, bit_xor_comm a 0, zero-bit_xor a)

self_below : (n a : ℕ) → a ≤ n → bit_xor a a ≡ 0
self_below n zero h = refl
self_below zero (suc a) h = absurd (omega arith)
self_below (suc n) (suc a) h =
    omega (arith, bit_xor_digit (suc a) (suc a), self_below n (suc a / 2) (omega arith))

pub bit_xor_self : (a : ℕ) → bit_xor a a ≡ 0
bit_xor_self a = self_below a a (omega arith)

assoc_below : (n a b c : ℕ) → a ≤ n → bit_xor (bit_xor a b) c ≡ bit_xor a (bit_xor b c)
assoc_below n zero b c h = ground (arith, zero-bit_xor b, zero-bit_xor (bit_xor b c))
assoc_below zero (suc a) b c h = absurd (omega arith)
assoc_below (suc n) (suc a) b c h = ground (
  arith,
  bit_xor_digit (bit_xor (suc a) b) c,
  bit_xor_digit (suc a) (bit_xor b c),
  bit_xor-half (suc a) b,
  bit_xor-half b c,
  bit_xor_parity (suc a) b,
  bit_xor_parity b c,
  assoc_below n (suc a / 2) (b / 2) (c / 2) (omega arith),
)

pub bit_xor_assoc : (a b c : ℕ) → bit_xor (bit_xor a b) c ≡ bit_xor a (bit_xor b c)
bit_xor_assoc a b c = assoc_below a a b c (omega arith)

-- Exclusive or keeps to `k` bits.
pub bit_xor-lt : (k a b : ℕ) → a < 2 ^ k → b < 2 ^ k → bit_xor a b < 2 ^ k
bit_xor-lt zero zero zero p q = omega (arith, bit_xor_self 0)
bit_xor-lt zero zero (suc b) p q = absurd (omega arith)
bit_xor-lt zero (suc a) b p q = absurd (omega arith)
bit_xor-lt (suc k) a b p q = omega (
  arith,
  pow-suc 2 k,
  bit_xor_digit a b,
  bit_xor-lt k (a / 2) (b / 2) (omega (arith, pow-suc 2 k)) (omega (arith, pow-suc 2 k)),
)

-- Above the low `k` bits and in them exclusive or works separately.
pub bit_xor_split :
    (k p q r s : ℕ)
    → r < 2 ^ k
    → s < 2 ^ k
    → bit_xor (p * 2 ^ k + r) (q * 2 ^ k + s) ≡ bit_xor p q * 2 ^ k + bit_xor r s
bit_xor_split zero p q zero zero hr hs = ground (arith, bit_xor_self 0)
bit_xor_split zero p q zero (suc s) hr hs = absurd (omega arith)
bit_xor_split zero p q (suc r) s hr hs = absurd (omega arith)
bit_xor_split (suc k) p q r s hr hs = ground (
  arith,
  bit_xor_digit (p * 2 ^ suc k + r) (q * 2 ^ suc k + s),
  bit_xor_digit r s,
  shift-suc p k,
  shift-suc q k,
  shift-suc (bit_xor p q) k,
  pow-suc 2 k,
  bit_xor_split k p q (r / 2) (s / 2) (omega (arith, pow-suc 2 k)) (omega (arith, pow-suc 2 k)),
)

-- (a ^ b) ^ (c ^ d) regrouped.
pub bit_xor_swap :
    (a b c d : ℕ) → bit_xor (bit_xor a b) (bit_xor c d) ≡ bit_xor (bit_xor a c) (bit_xor b d)
bit_xor_swap a b c d = cc (
  bit_xor_assoc a b (bit_xor c d),
  bit_xor_assoc b c d,
  bit_xor_comm b c,
  bit_xor_assoc c b d,
  bit_xor_assoc a c (bit_xor b d),
)
