-- ===== src/Application/Status/Examples.antt =====
-- Status messages as bytes.
use platform_external_nos_ho.Base.{◌≡◌, [], ◌∷◌, refl}
use platform_external_nos_ho.Application.Status.{TransportStatus, encode_status, le16, le32}

abbrev done : TransportStatus
done = record {
  status = 0x80000007;
  reply_len = 0x0104;
  length = 16;
  version = 1;
  flags = 0;
  crc = 0xBEEF;
  reply_crc = 0x5100;
}

-- The order of the fields and of their bytes.
encode_status_bytes :
    encode_status done
    ≡ 0x07 ∷ 0x00 ∷ 0x00 ∷ 0x80 ∷ 0x04 ∷ 0x01 ∷ 0x10 ∷ 0x00 ∷ 0x01 ∷ 0x00 ∷ 0x00 ∷ 0x00 ∷ 0xEF
      ∷ 0xBE ∷ 0x00 ∷ 0x51 ∷ []
unfolding encode_status le16 le32
encode_status_bytes = refl
