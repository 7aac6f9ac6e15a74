-- ===== src/Crc16/Update.antt =====
-- How `crc16_update` extends a checksum, and its range.
use platform_external_nos_ho.Base.{
  ℕ, ◌*◌, ◌/◌, ◌%◌, ◌^◌, ◌<◌, bit_xor, ◌≡◌, refl, List, [], ◌∷◌, ◌++◌, arith, get_or,
}
use platform_external_nos_ho.Base.Bits.{bit_and_mask}
use platform_external_nos_ho.Base.Xor.{bit_xor-lt, bit_xor_split, zero-bit_xor}
use platform_external_nos_ho.Crc16.{crc16_table, crc16_byte, crc16_update}
use platform_external_nos_ho.Crc16.Division.{table-lt}

-- Extending by a concatenation is extending twice: the checksum of `x | y` is that of `y` started
-- from that of `x`.
pub crc16_update-append :
    (xs ys : List ℕ) (crc : ℕ) → crc16_update (xs ++ ys) crc ≡ crc16_update ys (crc16_update xs crc)
unfolding crc16_update
crc16_update-append [] ys crc = refl
crc16_update-append (b ∷ xs) ys crc = crc16_update-append xs ys (crc16_byte crc b)

pub crc16_byte-lt : (crc b : ℕ) → crc16_byte crc b < 2 ^ 16
unfolding crc16_byte
crc16_byte-lt crc b = omega arith

pub crc16_update-lt : (xs : List ℕ) (crc : ℕ) → crc < 2 ^ 16 → crc16_update xs crc < 2 ^ 16
unfolding crc16_update
crc16_update-lt [] crc h = h
crc16_update-lt (b ∷ xs) crc h = crc16_update-lt xs (crc16_byte crc b) (crc16_byte-lt crc b)

-- On a 16-bit checksum and a byte, a round is one table entry over the shifted low half.
pub crc16_byte_lem :
    (crc b : ℕ)
    → crc < 2 ^ 16
    → b < 256
    → crc16_byte crc b ≡ bit_xor (get_or crc16_table (bit_xor (crc / 256) b) 0) (crc % 256 * 256)
unfolding crc16_byte
crc16_byte_lem crc b hc hb = ground (
  arith,
  bit_and_mask 8 (bit_xor (crc / 256) b),
  index_in_range,
  table-lt (bit_xor (crc / 256) b) index_in_range,
  bit_xor_split 16 0 (crc / 256) (get_or crc16_table (bit_xor (crc / 256) b) 0) (crc % 256 * 256),
  zero-bit_xor (crc / 256),
  bit_xor-lt 16 (get_or crc16_table (bit_xor (crc / 256) b) 0) (crc % 256 * 256),
)
  where
    index_in_range : bit_xor (crc / 256) b < 256
    index_in_range = bit_xor-lt 8 (crc / 256) b (omega arith) hb
