-- ===== src/Transport/Precomputed.antt =====
-- The checksums that nugget/include/application.h gives for statuses, against crc16.
use platform_external_nos_ho.Base.{ℕ, ◌+◌, ◌≡◌, refl}
use platform_external_nos_ho.Application.AppStatus.{
  app_error_too_much, app_status_idle, app_status_done,
}
use platform_external_nos_ho.Application.Status.{
  TransportStatus, transport_v1, status_min_length, status_flag_working, status_crc_for_idle,
  status_crc_for_working, status_crc_for_error_too_much, encode_status, le16, le32,
}
use platform_external_nos_ho.Crc16.{crc16}

abbrev reported : ℕ → ℕ → TransportStatus
reported status flags = record {
  status = status;
  reply_len = 0;
  length = status_min_length;
  version = transport_v1;
  flags = flags;
  crc = 0;
  reply_crc = 0;
}

idle_sum : crc16 (encode_status (reported app_status_idle 0)) ≡ status_crc_for_idle
unfolding crc16 encode_status le16 le32
idle_sum = refl

working_sum :
    crc16 (encode_status (reported app_status_idle status_flag_working)) ≡ status_crc_for_working
unfolding crc16 encode_status le16 le32
working_sum = refl

too_much_sum :
    crc16 (encode_status (reported (app_status_done + app_error_too_much) 0))
    ≡ status_crc_for_error_too_much
unfolding crc16 encode_status le16 le32
too_much_sum = refl
