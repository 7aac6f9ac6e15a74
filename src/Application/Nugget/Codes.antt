-- ===== src/Application/Nugget/Codes.antt =====
-- nugget/include/app_nugget.h: the application's codes, sizes and settings.
use platform_external_nos_ho.Base.{ℕ, ◌+◌}
use platform_external_nos_ho.Application.AppStatus.{app_specific_error}

abbrev pub nugget_error_locked : ℕ
nugget_error_locked = app_specific_error

abbrev pub nugget_error_retry : ℕ
nugget_error_retry = nugget_error_locked + 1

abbrev pub np_flash_block_size : ℕ
np_flash_block_size = 2048

abbrev pub nugget_update_password_len : ℕ
nugget_update_password_len = 32

abbrev pub nugget_enable_header_ro : ℕ
nugget_enable_header_ro = 0x01

abbrev pub nugget_enable_header_rw : ℕ
nugget_enable_header_rw = 0x02

abbrev pub erase_confirmation : ℕ
erase_confirmation = 0xc05fefee

abbrev pub nugget_ap_uart_off : ℕ
nugget_ap_uart_off = 0

abbrev pub nugget_ap_uart_is_usb : ℕ
nugget_ap_uart_is_usb = 1

abbrev pub nugget_ap_uart_enabled : ℕ
nugget_ap_uart_enabled = 2

abbrev pub nugget_ap_uart_ssc_uart : ℕ
nugget_ap_uart_ssc_uart = 3

abbrev pub nugget_ap_uart_citadel_uart : ℕ
nugget_ap_uart_citadel_uart = 4

abbrev pub nugget_ap_uart_num_cfgs : ℕ
nugget_ap_uart_num_cfgs = 5

abbrev pub file_id_nugget_persist : ℕ
file_id_nugget_persist = 0

abbrev pub nugget_persist_version_1 : ℕ
nugget_persist_version_1 = 1

abbrev pub nugget_sjtag_user_consent_disallow : ℕ
nugget_sjtag_user_consent_disallow = 0

abbrev pub nugget_sjtag_user_consent_allow : ℕ
nugget_sjtag_user_consent_allow = 1

abbrev pub nugget_sjtag_user_consent_num_cfgs : ℕ
nugget_sjtag_user_consent_num_cfgs = 2

abbrev pub avb_boot_lock_disabled : ℕ
avb_boot_lock_disabled = 0

abbrev pub avb_boot_lock_enabled : ℕ
avb_boot_lock_enabled = 1

abbrev pub avb_boot_lock_error : ℕ
avb_boot_lock_error = 2

abbrev pub gsc_debug_dump_version : ℕ
gsc_debug_dump_version = 0

abbrev pub debug_message_max_count : ℕ
debug_message_max_count = 64

abbrev pub gsa_gsc_pairing_version : ℕ
gsa_gsc_pairing_version = 0

abbrev pub ec_p256_public_key_size : ℕ
ec_p256_public_key_size = 64

abbrev pub ec_p256_private_key_size : ℕ
ec_p256_private_key_size = 32

abbrev pub psk_key_size : ℕ
psk_key_size = 32

abbrev pub has_gsa_pubkey : ℕ
has_gsa_pubkey = 0xa3

abbrev pub gsa_gsc_psk_version : ℕ
gsa_gsc_psk_version = 0

abbrev pub has_gsa_gsc_psk : ℕ
has_gsa_gsc_psk = 0xa5

abbrev pub gsa_gsc_psk_state_unknown : ℕ
gsa_gsc_psk_state_unknown = 0

abbrev pub gsa_gsc_psk_state_key_verify_success : ℕ
gsa_gsc_psk_state_key_verify_success = 1

abbrev pub gsa_gsc_psk_state_key_mismatch : ℕ
gsa_gsc_psk_state_key_mismatch = 2

abbrev pub gsa_gsc_psk_state_gsa_internal_error : ℕ
gsa_gsc_psk_state_gsa_internal_error = 3

abbrev pub gsa_gsc_psk_state_gsa_has_no_key : ℕ
gsa_gsc_psk_state_gsa_has_no_key = 4

abbrev pub gsa_gsc_psk_state_gsa_crypto_prng_fail : ℕ
gsa_gsc_psk_state_gsa_crypto_prng_fail = 5

abbrev pub gsa_gsc_psk_state_gsa_crypto_hkdf_fail : ℕ
gsa_gsc_psk_state_gsa_crypto_hkdf_fail = 6

abbrev pub gsa_gsc_psk_state_gsa_crypto_hmac_fail : ℕ
gsa_gsc_psk_state_gsa_crypto_hmac_fail = 7

abbrev pub gsa_gsc_psk_state_gsa_crypto_done : ℕ
gsa_gsc_psk_state_gsa_crypto_done = 8

abbrev pub gsa_gsc_psk_state_gsc_has_no_key : ℕ
gsa_gsc_psk_state_gsc_has_no_key = 9

abbrev pub gsa_gsc_psk_state_gsc_not_in_bootloader : ℕ
gsa_gsc_psk_state_gsc_not_in_bootloader = 10

abbrev pub gsa_gsc_psk_state_gsc_invalid_parameter : ℕ
gsa_gsc_psk_state_gsc_invalid_parameter = 11

abbrev pub gsa_gsc_psk_state_gsc_internal_error : ℕ
gsa_gsc_psk_state_gsc_internal_error = 12

abbrev pub gsa_gsc_psk_state_gsc_crypto_hkdf_fail : ℕ
gsa_gsc_psk_state_gsc_crypto_hkdf_fail = 13

abbrev pub gsa_gsc_psk_state_gsc_crypto_hmac_fail : ℕ
gsa_gsc_psk_state_gsc_crypto_hmac_fail = 14

abbrev pub gsa_gsc_psk_state_gsc_exceed_max_retry_count : ℕ
gsa_gsc_psk_state_gsc_exceed_max_retry_count = 15

abbrev pub gsa_gsa_psk_state_gsc_nos_call_fail : ℕ
gsa_gsa_psk_state_gsc_nos_call_fail = 16

abbrev pub verify_psk_req_header_size : ℕ
verify_psk_req_header_size = 17

abbrev pub verify_psk_req_version : ℕ
verify_psk_req_version = 0

abbrev pub verify_psk_nonce_size : ℕ
verify_psk_nonce_size = 32

abbrev pub verify_psk_hmac_size : ℕ
verify_psk_hmac_size = 32

abbrev pub verify_secure_channel_retry_count_version : ℕ
verify_secure_channel_retry_count_version = 0

abbrev pub nugget_app_selftest_cmd_default : ℕ
nugget_app_selftest_cmd_default = 0

abbrev pub nugget_app_selftest_cmd_help : ℕ
nugget_app_selftest_cmd_help = 1

abbrev pub nugget_app_selftest_cmd_trng : ℕ
nugget_app_selftest_cmd_trng = 0x10

abbrev pub nugget_app_low_power_stats_magic : ℕ
nugget_app_low_power_stats_magic = 0xC0DEACE1

abbrev pub nugget_error_coverage_overflow : ℕ
nugget_error_coverage_overflow = app_specific_error + 0x300

abbrev pub nugget_app_sleep_mode_default : ℕ
nugget_app_sleep_mode_default = 0

abbrev pub nugget_app_sleep_mode_wfi : ℕ
nugget_app_sleep_mode_wfi = 1

abbrev pub nugget_app_sleep_mode_sleep : ℕ
nugget_app_sleep_mode_sleep = 2
