-- ===== src/Application/Nugget/Examples.antt =====
-- Sizes that the comments of app_nugget.h give, and the commands told apart.
use platform_external_nos_ho.Base.{ℕ, ◌≡◌, refl, List, [], ◌∷◌, Bool, true, ◌&&◌, not, ◌==◌}
use platform_external_nos_ho.Application.Nugget.Structs.{
  size, verify_psk_request, debug_message_buffer_size,
}
use platform_external_nos_ho.Application.Nugget.Params.{
  nugget_param_version, nugget_param_flash_block, nugget_param_reboot, nugget_param_enable_update,
  nugget_param_change_update_password, nugget_param_nuke_from_orbit, nugget_param_device_id,
  nugget_param_long_version, nugget_param_header_ro_a, nugget_param_header_ro_b,
  nugget_param_header_rw_a, nugget_param_header_rw_b, nugget_param_repo_snapshot,
  nugget_param_ap_uart_passthru, nugget_param_rdd_cfg, nugget_param_board_id,
  nugget_param_get_event_report, nugget_param_ap_is_rebooting, nugget_param_sjtag_user_consent,
  nugget_param_sjtag_allow, nugget_param_storage_write, nugget_param_storage_read,
  nugget_param_debug_dump, nugget_param_gsa_key_provision, nugget_param_verify_gsa_gsc_psk,
  nugget_param_secure_transport_handshake, nugget_param_secure_transport_report_state,
  nugget_param_get_big_event_report, nugget_param_cycles_since_boot, nugget_param_selftest,
  nugget_param_get_low_power_stats, nugget_param_clear_low_power_stats,
  nugget_get_coverage_counters, nugget_param_read32, nugget_param_write32, nugget_param_console,
  nugget_param_module_test, nugget_param_set_sleep_mode, nugget_param_trigger_pin,
}

-- "83 bytes"
request_size : size verify_psk_request ≡ 83
request_size = refl

-- "1KB"
dump_size : debug_message_buffer_size ≡ 1024
dump_size = refl

abbrev absent : ℕ → List ℕ → Bool
absent p [] = true
absent p (q ∷ ps) = not (p == q) && absent p ps

abbrev apart : List ℕ → Bool
apart [] = true
apart (p ∷ ps) = absent p ps && apart ps

commands : List ℕ
commands =
    nugget_param_version ∷ nugget_param_flash_block ∷ nugget_param_reboot
    ∷ nugget_param_enable_update ∷ nugget_param_change_update_password
    ∷ nugget_param_nuke_from_orbit ∷ nugget_param_device_id ∷ nugget_param_long_version
    ∷ nugget_param_header_ro_a ∷ nugget_param_header_ro_b ∷ nugget_param_header_rw_a
    ∷ nugget_param_header_rw_b ∷ nugget_param_repo_snapshot ∷ nugget_param_ap_uart_passthru
    ∷ nugget_param_rdd_cfg ∷ nugget_param_board_id ∷ nugget_param_get_event_report
    ∷ nugget_param_ap_is_rebooting ∷ nugget_param_sjtag_user_consent ∷ nugget_param_sjtag_allow
    ∷ nugget_param_storage_write ∷ nugget_param_storage_read ∷ nugget_param_debug_dump
    ∷ nugget_param_gsa_key_provision ∷ nugget_param_verify_gsa_gsc_psk
    ∷ nugget_param_secure_transport_handshake ∷ nugget_param_secure_transport_report_state
    ∷ nugget_param_get_big_event_report ∷ nugget_param_cycles_since_boot ∷ nugget_param_selftest
    ∷ nugget_param_get_low_power_stats ∷ nugget_param_clear_low_power_stats
    ∷ nugget_get_coverage_counters ∷ nugget_param_read32 ∷ nugget_param_write32
    ∷ nugget_param_console ∷ nugget_param_module_test ∷ nugget_param_set_sleep_mode
    ∷ nugget_param_trigger_pin ∷ []

commands-apart : apart commands ≡ true
unfolding commands
commands-apart = refl
