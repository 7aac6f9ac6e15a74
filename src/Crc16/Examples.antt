-- ===== src/Crc16/Examples.antt =====
-- Runs of the checksum, and its theorems at concrete inputs. The messages are the status messages
-- for which nugget/include/application.h gives checksums.
use platform_external_nos_ho.Base.{ℕ, ◌≡◌, ◌≢◌, refl, List, [], ◌∷◌, arith, get_or}
use platform_external_nos_ho.Crc16.{crc16_table, crc16_update, crc16}
use platform_external_nos_ho.Crc16.Division.{divide_bits, table-divide_bits}
use platform_external_nos_ho.Crc16.Detect.{
  IsNarrow, crc16_update_detects_byte, crc16_update_misses_burst, crc16_update-IsNarrow,
}

abbrev idle : List ℕ
idle = 0 ∷ 0 ∷ 0 ∷ 0 ∷ 0 ∷ 0 ∷ 0x10 ∷ 0 ∷ 1 ∷ 0 ∷ 0 ∷ 0 ∷ 0 ∷ 0 ∷ 0 ∷ 0 ∷ []

abbrev working : List ℕ
working = 0 ∷ 0 ∷ 0 ∷ 0 ∷ 0 ∷ 0 ∷ 0x10 ∷ 0 ∷ 1 ∷ 0 ∷ 1 ∷ 0 ∷ 0 ∷ 0 ∷ 0 ∷ 0 ∷ []

-- `STATUS_CRC_FOR_IDLE`
crc16-idle : crc16 idle ≡ 0x54c1
unfolding crc16
crc16-idle = refl

-- `STATUS_CRC_FOR_WORKING`
crc16-working : crc16 working ≡ 0x2101
unfolding crc16
crc16-working = refl

-- The reading of the comment in crc16.h, the checksum of the second part first, is another number.
crc16_update_order : crc16_update (1 ∷ []) (crc16 (2 ∷ [])) ≢ crc16 (1 ∷ 2 ∷ [])
unfolding crc16
crc16_update_order = omega arith

table-divide_bits_example : get_or crc16_table 200 0 ≡ divide_bits 8 200
table-divide_bits_example = table-divide_bits 200 (omega arith)

crc16_update_detects_byte_example :
    crc16_update (1 ∷ 2 ∷ 9 ∷ 4 ∷ []) 0 ≢ crc16_update (1 ∷ 2 ∷ 8 ∷ 4 ∷ []) 0
crc16_update_detects_byte_example =
    crc16_update_detects_byte (1 ∷ 2 ∷ []) (4 ∷ []) 9 8 0 (omega arith) (omega arith) (omega arith)
      (omega arith) (omega arith)

crc16_update_misses_burst_example :
    crc16_update (1 ∷ 0x0C ∷ 0x05 ∷ 9 ∷ []) 0 ≡ crc16_update (1 ∷ 0 ∷ 0 ∷ 9 ∷ []) 0
crc16_update_misses_burst_example =
    crc16_update_misses_burst (1 ∷ []) (9 ∷ []) 0 0 0 (omega arith) (omega arith) (omega arith)

crc16_update-IsNarrow_example : IsNarrow (crc16_update (1 ∷ 2 ∷ []) 0)
crc16_update-IsNarrow_example = crc16_update-IsNarrow 1 (2 ∷ []) 0 (omega arith) (omega arith)
