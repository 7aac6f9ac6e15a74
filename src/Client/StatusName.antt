-- ===== src/Client/StatusName.antt =====
-- libnos/debug.cpp.
pub mod Laws
mod Examples
use platform_external_nos_ho.Base.{ℕ, ◌+◌, ◌-◌, ◌%◌, ◌^◌, ◌&&◌, ltb, leb, ◌==◌, if◌then◌else◌}
use platform_external_nos_ho.Application.AppStatus.{
  app_success, app_error_bogus_args, app_error_internal, app_error_too_much, app_error_io,
  app_error_rpc, app_error_checksum, app_error_busy, app_error_timeout, app_specific_error,
  app_line_number_base, max_app_status,
}
use Prim.Native.String.{String, ◌++◌ as ◌<>◌}

-- The difference is an `unsigned int`.
abbrev pub from_base : ℕ → ℕ
from_base code = (code + 2 ^ 32 - app_line_number_base) % 2 ^ 32

-- `std::to_string`
module _ (to_string : ℕ → String) where
  -- Behind the cases of the switch.
  unfoldable pub default_string : ℕ → String
  default_string code =
      if leb app_line_number_base code && ltb code max_app_status
      then "APP_LINE_NUMBER " <> to_string (from_base code)
      else if leb app_specific_error code && ltb code app_line_number_base
      then "APP_SPECIFIC_ERROR "
        <> to_string app_line_number_base
        <> " + "
        <> to_string (from_base code)
      else "unknown"

  unfoldable pub status_code_string : ℕ → String
  unfolding default_string
  status_code_string code =
      if code == app_success
      then "APP_SUCCESS"
      else if code == app_error_bogus_args
      then "APP_ERROR_BOGUS_ARGS"
      else if code == app_error_internal
      then "APP_ERROR_INTERNAL"
      else if code == app_error_too_much
      then "APP_ERROR_TOO_MUCH"
      else if code == app_error_io
      then "APP_ERROR_IO"
      else if code == app_error_rpc
      then "APP_ERROR_RPC"
      else if code == app_error_checksum
      then "APP_ERROR_CHECKSUM"
      else if code == app_error_busy
      then "APP_ERROR_BUSY"
      else if code == app_error_timeout
      then "APP_ERROR_TIMEOUT"
      else default_string code
