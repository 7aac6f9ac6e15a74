-- ===== src/Transport/Ready.antt =====
-- `make_ready` of transport.c.
pub mod Laws
use platform_external_nos_ho.Base.{ℕ, Bool, bit_and, M, is_nonzero, ◌==◌, ◌&&◌, not, if◌then◌else◌}
use platform_external_nos_ho.Application.AppStatus.{
  app_success, app_error_io, app_error_busy, app_status_idle,
}
use platform_external_nos_ho.Application.Status.{TransportStatus, transport_v0, status_flag_working}
use platform_external_nos_ho.Device.{Platform}
use platform_external_nos_ho.Transport.Context.{TransportContext}
use platform_external_nos_ho.Transport.Status.{get_status, clear_status}

-- `status.flags & STATUS_FLAG_WORKING`, as a condition.
abbrev pub is_working : TransportStatus → Bool
is_working s = not (bit_and s.flags status_flag_working == 0)

module _ {W : Type 0} (platform : Platform W) (ctx : TransportContext W) where
  unfoldable pub make_ready : M W ℕ
  make_ready w =
      let ((err, status), w₁) = get_status platform ctx w in
      let (cleared, w₂) = clear_status platform ctx w₁ in
      let ((err', status'), w₃) = get_status platform ctx w₂ in
      if is_nonzero err
      then (app_error_io, w₁)
      else if status.status == app_status_idle
      then (
        if not (status.version == transport_v0) && is_working status
            then app_error_busy
            else app_success,
        w₁,
      )
      else if is_nonzero cleared
      then (app_error_io, w₂)
      else if is_nonzero err'
      then (app_error_io, w₃)
      else if not (status'.status == app_status_idle)
      then (app_error_io, w₃)
      else (app_success, w₃)
