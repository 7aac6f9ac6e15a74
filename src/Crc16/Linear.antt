-- ===== src/Crc16/Linear.antt =====
-- The checksum is linear over exclusive or.
use platform_external_nos_ho.Base.{
  ℕ, ◌+◌, ◌*◌, ◌/◌, ◌%◌, ◌^◌, ◌<◌, bit_xor, ◌≡◌, refl, ◌∙◌, ap, ap₂, List, [], ◌∷◌, arith, get_or,
  length, All,
}
use platform_external_nos_ho.Base.Xor.{bit_xor-lt, bit_xor_split, bit_xor_swap, bit_xor_self}
use platform_external_nos_ho.Crc16.{crc16_table, crc16_byte, crc16_update}
use platform_external_nos_ho.Crc16.Division.{table-bit_xor}
use platform_external_nos_ho.Crc16.Update.{crc16_byte_lem, crc16_byte-lt}

abbrev pub IsByte : ℕ → Type 0
IsByte b = b < 256

-- The bytes of two buffers, position by position; past the end of the second the first stands.
unfoldable pub xor_bytes : List ℕ → List ℕ → List ℕ
xor_bytes [] ys = []
xor_bytes (x ∷ xs) [] = x ∷ xs
xor_bytes (x ∷ xs) (y ∷ ys) = bit_xor x y ∷ xor_bytes xs ys

bytes_of : (n : ℕ) → n ≡ n / 256 * 2 ^ 8 + n % 256
bytes_of n = omega arith

bit_xor_bytes :
    (c e : ℕ) → bit_xor c e ≡ bit_xor (c / 256) (e / 256) * 256 + bit_xor (c % 256) (e % 256)
bit_xor_bytes c e =
    ap₂ bit_xor (bytes_of c) (bytes_of e)
    ∙ bit_xor_split 8 (c / 256) (e / 256) (c % 256) (e % 256) (omega arith) (omega arith)

pub high-bit_xor : (c e : ℕ) → bit_xor c e / 256 ≡ bit_xor (c / 256) (e / 256)
high-bit_xor c e =
    omega (arith, bit_xor_bytes c e, bit_xor-lt 8 (c % 256) (e % 256) (omega arith) (omega arith))

pub low-bit_xor : (c e : ℕ) → bit_xor c e % 256 ≡ bit_xor (c % 256) (e % 256)
low-bit_xor c e =
    omega (arith, bit_xor_bytes c e, bit_xor-lt 8 (c % 256) (e % 256) (omega arith) (omega arith))

shifted-bit_xor : (p q : ℕ) → bit_xor p q * 256 ≡ bit_xor (p * 256) (q * 256)
shifted-bit_xor p q =
    ground (arith, bit_xor_split 8 p q 0 0 (omega arith) (omega arith), bit_xor_self 0)

-- One round is linear in the checksum and the byte together.
pub crc16_byte-bit_xor :
    (c e a d : ℕ)
    → c < 2 ^ 16
    → e < 2 ^ 16
    → IsByte a
    → IsByte d
    → crc16_byte (bit_xor c e) (bit_xor a d) ≡ bit_xor (crc16_byte c a) (crc16_byte e d)
crc16_byte-bit_xor c e a d hc he ha hd =
    rw
      (
        crc16_byte_lem (bit_xor c e) (bit_xor a d) (bit_xor-lt 16 c e hc he)
            (bit_xor-lt 8 a d ha hd),
        crc16_byte_lem c a hc ha,
        crc16_byte_lem e d he hd,
      )
      (cc (
        high-bit_xor c e,
        low-bit_xor c e,
        bit_xor_swap (c / 256) (e / 256) a d,
        table-bit_xor (bit_xor (c / 256) a) (bit_xor (e / 256) d)
            (bit_xor-lt 8 (c / 256) a (omega arith) ha) (bit_xor-lt 8 (e / 256) d (omega arith) hd),
        shifted-bit_xor (c % 256) (e % 256),
        bit_xor_swap (get_or crc16_table (bit_xor (c / 256) a) 0)
            (get_or crc16_table (bit_xor (e / 256) d) 0) (c % 256 * 256) (e % 256 * 256),
      ))

-- The checksum of the exclusive or of two messages of one length is the exclusive or of their
-- checksums, for 16-bit starting values.
pub crc16_update-bit_xor :
    (xs ys : List ℕ) (c e : ℕ)
    → length xs ≡ length ys
    → All IsByte xs
    → All IsByte ys
    → c < 2 ^ 16
    → e < 2 ^ 16
    → crc16_update (xor_bytes xs ys) (bit_xor c e) ≡ bit_xor (crc16_update xs c) (crc16_update ys e)
unfolding crc16_update xor_bytes
crc16_update-bit_xor [] [] c e same hx hy hc he = refl
crc16_update-bit_xor [] (y ∷ ys) c e same hx hy hc he = absurd (omega arith)
crc16_update-bit_xor (x ∷ xs) [] c e same hx hy hc he = absurd (omega arith)
crc16_update-bit_xor (x ∷ xs) (y ∷ ys) c e same hx hy hc he =
    ap (crc16_update (xor_bytes xs ys)) (crc16_byte-bit_xor c e x y hc he hx.0 hy.0)
    ∙ crc16_update-bit_xor xs ys (crc16_byte c x) (crc16_byte e y) (omega arith) hx.1 hy.1
        (crc16_byte-lt c x) (crc16_byte-lt e y)
