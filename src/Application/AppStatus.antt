-- ===== src/Application/AppStatus.antt =====
-- The status codes of nugget/include/application.h, and the bit that the transport adds to them.
use platform_external_nos_ho.Base.{ℕ, bit_and}

abbrev pub app_success : ℕ
app_success = 0

abbrev pub app_error_bogus_args : ℕ
app_error_bogus_args = 1

abbrev pub app_error_internal : ℕ
app_error_internal = 2

abbrev pub app_error_too_much : ℕ
app_error_too_much = 3

abbrev pub app_error_io : ℕ
app_error_io = 4

abbrev pub app_error_rpc : ℕ
app_error_rpc = 5

abbrev pub app_error_checksum : ℕ
app_error_checksum = 6

abbrev pub app_error_busy : ℕ
app_error_busy = 7

abbrev pub app_error_timeout : ℕ
app_error_timeout = 8

abbrev pub app_error_not_ready : ℕ
app_error_not_ready = 9

abbrev pub app_specific_error : ℕ
app_specific_error = 0x20

abbrev pub app_line_number_base : ℕ
app_line_number_base = 0x70000000

abbrev pub max_app_status : ℕ
max_app_status = 0x7fffffff

abbrev pub app_status_idle : ℕ
app_status_idle = 0x00000000

abbrev pub app_status_done : ℕ
app_status_done = 0x80000000

-- `APP_STATUS_CODE(res)`
unfoldable pub app_status_code : ℕ → ℕ
app_status_code res = bit_and res 0x7fffffff
