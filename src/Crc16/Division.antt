-- ===== src/Crc16/Division.antt =====
-- What the table of crc16.c holds: the remainder of each byte after eight steps of the bit by bit
-- division by the reflected polynomial 0xA001, and what follows for exclusive or.
use platform_external_nos_ho.Base.{
  ℕ, zero, suc, ◌/◌, ◌%◌, ◌^◌, ◌<◌, bit_xor, ◌≡◌, refl, ◌⊎◌, inl, inr, ◌∙◌, ap, true, arith, ◌==◌,
  ==_iff, if◌then◌else◌, holds_below, holds_below_lem, get_or,
}
use platform_external_nos_ho.Base.Xor.{
  bit_xor-half, bit_xor_parity, bit_xor-lt, bit_xor_swap, bit_xor-zero, bit_xor_self, bit_xor_comm,
  bit_xor_assoc,
}
use platform_external_nos_ho.Crc16.{crc16_table}

-- One step of the division: shift the lowest bit out, and subtract the polynomial if it was set.
unfoldable pub divide_bit : ℕ → ℕ
divide_bit x = if x % 2 == 0 then x / 2 else bit_xor (x / 2) 0xA001

unfoldable pub divide_bits : ℕ → ℕ → ℕ
unfolding divide_bit
divide_bits zero x = x
divide_bits (suc n) x = divide_bits n (divide_bit x)

table-divide_bits_all : holds_below (λ i. get_or crc16_table i 0 == divide_bits 8 i) 256 ≡ true
unfolding holds_below divide_bits
table-divide_bits_all = refl

-- Every entry of the table is eight steps of the division of its index.
pub table-divide_bits : (i : ℕ) → i < 256 → get_or crc16_table i 0 ≡ divide_bits 8 i
table-divide_bits i h =
    (==_iff (get_or crc16_table i 0) (divide_bits 8 i)).0 (
      holds_below_lem (λ i. get_or crc16_table i 0 == divide_bits 8 i) 256 i h
        table-divide_bits_all)

divide_bit-lt : (x : ℕ) → x < 2 ^ 16 → divide_bit x < 2 ^ 16
unfolding divide_bit
divide_bit-lt x h = ground (arith, bit_xor-lt 16 (x / 2) 0xA001)

pub divide_bits-lt : (n x : ℕ) → x < 2 ^ 16 → divide_bits n x < 2 ^ 16
unfolding divide_bits
divide_bits-lt zero x h = h
divide_bits-lt (suc n) x h = divide_bits-lt n (divide_bit x) (divide_bit-lt x h)

even_divide_bit : (x : ℕ) → x % 2 ≡ 0 → divide_bit x ≡ x / 2
unfolding divide_bit
even_divide_bit x h = ground arith

odd_divide_bit : (x : ℕ) → x % 2 ≡ 1 → divide_bit x ≡ bit_xor (x / 2) 0xA001
unfolding divide_bit
odd_divide_bit x h = ground arith

parity : (x : ℕ) → (x % 2 ≡ 0) ⊎ (x % 2 ≡ 1)
parity x = omega arith

-- The step is linear over exclusive or.
divide_bit-bit_xor : (x y : ℕ) → divide_bit (bit_xor x y) ≡ bit_xor (divide_bit x) (divide_bit y)
divide_bit-bit_xor x y = elim (parity x) [
  | inl ex ↦ elim (parity y) [
    | inl ey ↦
        rw (even_divide_bit x ex, even_divide_bit y ey)
          (even_divide_bit (bit_xor x y) (omega (arith, bit_xor_parity x y)) ∙ bit_xor-half x y)
    | inr oy ↦
        rw (even_divide_bit x ex, odd_divide_bit y oy)
          (odd_divide_bit (bit_xor x y) (omega (arith, bit_xor_parity x y))
            ∙ cc (bit_xor-half x y, bit_xor_assoc (x / 2) (y / 2) 0xA001))
  ]
  | inr ox ↦ elim (parity y) [
    | inl ey ↦
        rw (odd_divide_bit x ox, even_divide_bit y ey)
          (odd_divide_bit (bit_xor x y) (omega (arith, bit_xor_parity x y))
            ∙ cc (
              bit_xor-half x y,
              bit_xor_assoc (x / 2) (y / 2) 0xA001,
              bit_xor_comm (y / 2) 0xA001,
              bit_xor_assoc (x / 2) 0xA001 (y / 2),
            ))
    | inr oy ↦
        rw (odd_divide_bit x ox, odd_divide_bit y oy)
          (even_divide_bit (bit_xor x y) (omega (arith, bit_xor_parity x y))
            ∙ cc (
              bit_xor-half x y,
              bit_xor_swap (x / 2) 0xA001 (y / 2) 0xA001,
              bit_xor_self 0xA001,
              bit_xor-zero (bit_xor (x / 2) (y / 2)),
            ))
  ]
]

pub divide_bits-bit_xor :
    (n x y : ℕ) → divide_bits n (bit_xor x y) ≡ bit_xor (divide_bits n x) (divide_bits n y)
unfolding divide_bits
divide_bits-bit_xor zero x y = refl
divide_bits-bit_xor (suc n) x y =
    ap (divide_bits n) (divide_bit-bit_xor x y)
    ∙ divide_bits-bit_xor n (divide_bit x) (divide_bit y)

-- So the table is linear on bytes.
pub table-bit_xor :
    (i j : ℕ)
    → i < 256
    → j < 256
    → get_or crc16_table (bit_xor i j) 0 ≡ bit_xor (get_or crc16_table i 0) (get_or crc16_table j 0)
table-bit_xor i j hi hj =
    rw
      (
        table-divide_bits i hi,
        table-divide_bits j hj,
        table-divide_bits (bit_xor i j) (bit_xor-lt 8 i j hi hj),
      )
      (divide_bits-bit_xor 8 i j)

-- and its entries have 16 bits.
pub table-lt : (i : ℕ) → i < 256 → get_or crc16_table i 0 < 2 ^ 16
table-lt i h = rw (table-divide_bits i h) (divide_bits-lt 8 i (omega arith))
