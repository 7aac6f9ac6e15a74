-- ===== src/Application/AppId.antt =====
-- The application ids of nugget/include/application.h.
use platform_external_nos_ho.Base.{ℕ}

abbrev pub app_id_nugget : ℕ
app_id_nugget = 0x00

abbrev pub app_id_tpm_register_api : ℕ
app_id_tpm_register_api = 0xD4

abbrev pub app_id_avb : ℕ
app_id_avb = 0x01

abbrev pub app_id_keymaster : ℕ
app_id_keymaster = 0x02

abbrev pub app_id_weaver : ℕ
app_id_weaver = 0x03

abbrev pub app_id_protobuf : ℕ
app_id_protobuf = 0x04

abbrev pub app_id_identity : ℕ
app_id_identity = 0x05

abbrev pub app_id_gsc_faceauth : ℕ
app_id_gsc_faceauth = 0x06

abbrev pub app_id_avb_test : ℕ
app_id_avb_test = 0x11

abbrev pub app_id_transport_test : ℕ
app_id_transport_test = 0x12

abbrev pub app_id_faceauth_test : ℕ
app_id_faceauth_test = 0x13

abbrev pub app_id_test : ℕ
app_id_test = 0xff
