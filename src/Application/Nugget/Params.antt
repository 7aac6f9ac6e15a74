-- ===== src/Application/Nugget/Params.antt =====
-- nugget/include/app_nugget.h: the commands of the application, which are the argument of a call.
use platform_external_nos_ho.Base.{ℕ}

abbrev pub nugget_param_version : ℕ
nugget_param_version = 0x0000

abbrev pub nugget_param_flash_block : ℕ
nugget_param_flash_block = 0x0001

abbrev pub nugget_param_reboot : ℕ
nugget_param_reboot = 0x0002

abbrev pub nugget_param_enable_update : ℕ
nugget_param_enable_update = 0x0003

abbrev pub nugget_param_change_update_password : ℕ
nugget_param_change_update_password = 0x0004

abbrev pub nugget_param_nuke_from_orbit : ℕ
nugget_param_nuke_from_orbit = 0x0005

abbrev pub nugget_param_device_id : ℕ
nugget_param_device_id = 0x0006

abbrev pub nugget_param_long_version : ℕ
nugget_param_long_version = 0x0007

abbrev pub nugget_param_header_ro_a : ℕ
nugget_param_header_ro_a = 0x0008

abbrev pub nugget_param_header_ro_b : ℕ
nugget_param_header_ro_b = 0x0009

abbrev pub nugget_param_header_rw_a : ℕ
nugget_param_header_rw_a = 0x000a

abbrev pub nugget_param_header_rw_b : ℕ
nugget_param_header_rw_b = 0x000b

abbrev pub nugget_param_repo_snapshot : ℕ
nugget_param_repo_snapshot = 0x000c

abbrev pub nugget_param_ap_uart_passthru : ℕ
nugget_param_ap_uart_passthru = 0x000d

abbrev pub nugget_param_rdd_cfg : ℕ
nugget_param_rdd_cfg = 0x000e

abbrev pub nugget_param_board_id : ℕ
nugget_param_board_id = 0x000f

abbrev pub nugget_param_get_event_report : ℕ
nugget_param_get_event_report = 0x0010

abbrev pub nugget_param_ap_is_rebooting : ℕ
nugget_param_ap_is_rebooting = 0x0011

abbrev pub nugget_param_sjtag_user_consent : ℕ
nugget_param_sjtag_user_consent = 0x0012

abbrev pub nugget_param_sjtag_allow : ℕ
nugget_param_sjtag_allow = 0x0013

abbrev pub nugget_param_storage_write : ℕ
nugget_param_storage_write = 0x0014

abbrev pub nugget_param_storage_read : ℕ
nugget_param_storage_read = 0x0015

abbrev pub nugget_param_debug_dump : ℕ
nugget_param_debug_dump = 0x0016

abbrev pub nugget_param_gsa_key_provision : ℕ
nugget_param_gsa_key_provision = 0x0017

abbrev pub nugget_param_verify_gsa_gsc_psk : ℕ
nugget_param_verify_gsa_gsc_psk = 0x0018

abbrev pub nugget_param_secure_transport_handshake : ℕ
nugget_param_secure_transport_handshake = 0x0019

abbrev pub nugget_param_secure_transport_report_state : ℕ
nugget_param_secure_transport_report_state = 0x001a

abbrev pub nugget_param_get_big_event_report : ℕ
nugget_param_get_big_event_report = 0x001b

abbrev pub nugget_param_cycles_since_boot : ℕ
nugget_param_cycles_since_boot = 0x0100

abbrev pub nugget_param_selftest : ℕ
nugget_param_selftest = 0x0101

abbrev pub nugget_param_get_low_power_stats : ℕ
nugget_param_get_low_power_stats = 0x200

abbrev pub nugget_param_clear_low_power_stats : ℕ
nugget_param_clear_low_power_stats = 0x201

abbrev pub nugget_get_coverage_counters : ℕ
nugget_get_coverage_counters = 0x0300

abbrev pub nugget_param_read32 : ℕ
nugget_param_read32 = 0xF000

abbrev pub nugget_param_write32 : ℕ
nugget_param_write32 = 0xF001

abbrev pub nugget_param_console : ℕ
nugget_param_console = 0xF002

abbrev pub nugget_param_module_test : ℕ
nugget_param_module_test = 0xF003

abbrev pub nugget_param_set_sleep_mode : ℕ
nugget_param_set_sleep_mode = 0xF004

abbrev pub nugget_param_trigger_pin : ℕ
nugget_param_trigger_pin = 0xF005
