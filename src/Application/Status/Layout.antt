-- ===== src/Application/Status/Layout.antt =====
-- Status messages and their bytes.
use platform_external_nos_ho.Base.{◌^◌, ◌<◌, ◌≡◌, arith, refl, length}
use platform_external_nos_ho.Application.Status.{
  TransportStatus, decode_status, encode_status, clear_crc,
}

-- Every field fits its width.
pub record IsStatus (s : TransportStatus) : Type 0 where
  pub status_fits : s.status < 2 ^ 32
  pub reply_len_fits : s.reply_len < 2 ^ 16
  pub length_fits : s.length < 2 ^ 16
  pub version_fits : s.version < 2 ^ 16
  pub flags_fit : s.flags < 2 ^ 16
  pub crc_fits : s.crc < 2 ^ 16
  pub reply_crc_fits : s.reply_crc < 2 ^ 16

-- The host reads back the status message that was laid out, whatever its fields, if each fits its
-- width.
pub decode_status-encode_status :
    (s : TransportStatus) → IsStatus s → decode_status (encode_status s) ≡ s
unfolding decode_status encode_status
decode_status-encode_status s fits = ground arith

pub length-encode_status : (s : TransportStatus) → length (encode_status s) ≡ 16
unfolding encode_status
length-encode_status s = refl

pub clear_crc-encode_status :
    (s : TransportStatus) → clear_crc (encode_status s) ≡ encode_status (record s { crc = 0 })
unfolding clear_crc encode_status
clear_crc-encode_status s = refl
