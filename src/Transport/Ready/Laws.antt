-- ===== src/Transport/Ready/Laws.antt =====
-- What `make_ready` promises.
use platform_external_nos_ho.Base.{
  ◌≡◌, ◌⊎◌, ◌==◌, pos, is_nonzero-false, arith, Bool-cases, inl, inr,
}
use platform_external_nos_ho.Application.AppStatus.{
  app_success, app_error_io, app_error_busy, app_status_idle,
}
use platform_external_nos_ho.Application.Status.{TransportStatus}
use platform_external_nos_ho.Device.{Platform}
use platform_external_nos_ho.Transport.Context.{TransportContext}
use platform_external_nos_ho.Transport.Status.{get_status, clear_status}
use platform_external_nos_ho.Transport.Ready.{make_ready}

module _ {W : Type 0} (platform : Platform W) (ctx : TransportContext W) where
  -- The last thing that `make_ready` did was to read this status without an error, and it is idle.
  pub record IsIdle (w' : W) : Type 0 where
    pub from : W
    pub status : TransportStatus
    pub read : get_status platform ctx from ≡ ((pos 0, status), w')
    pub idle : status.status ≡ app_status_idle

  -- If `make_ready` succeeds, the app's last status was read without an error and is idle.
  pub make_ready-IsIdle : (w w' : W) → make_ready platform ctx w ≡ (app_success, w') → IsIdle w'
  unfolding make_ready
  make_ready-IsIdle w w' h =
      let ((err, status), w₁) = get_status platform ctx w in
      let w₂ = (clear_status platform ctx w₁).1 in
      let ((err', status'), w₃) = get_status platform ctx w₂ in
      elim (Bool-cases (status.status == app_status_idle)) [
        | inl idle ↦ record {
          from = w;
          status = status;
          read = ground (arith, h, is_nonzero-false err);
          idle = ground arith;
        }
        | inr other ↦ record {
          from = w₂;
          status = status';
          read = ground (arith, h, is_nonzero-false err');
          idle = ground (arith, h);
        }
      ]

  -- Otherwise the result is APP_ERROR_IO or APP_ERROR_BUSY.
  pub make_ready_codes :
      (w : W)
      → ((make_ready platform ctx w).0 ≡ app_success)
        ⊎ ((make_ready platform ctx w).0 ≡ app_error_io)
        ⊎ ((make_ready platform ctx w).0 ≡ app_error_busy)
  unfolding make_ready
  make_ready_codes w = ground arith
