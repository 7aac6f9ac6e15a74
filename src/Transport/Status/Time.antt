-- ===== src/Transport/Status/Time.antt =====
-- Time does not run backwards during `get_status`.
use platform_external_nos_ho.Base.{ℕ, zero, suc, ◌≤◌, List, arith}
use platform_external_nos_ho.Application.Status.{TransportStatus, decode_status, clear_crc}
use platform_external_nos_ho.Device.{Platform}
use platform_external_nos_ho.Transport.Context.{TransportContext, crc_retry_count}
use platform_external_nos_ho.Transport.Retry.{nos_device_read}
use platform_external_nos_ho.Transport.Retry.Time.{HasClock, nos_device_read-steady}
use platform_external_nos_ho.Transport.Status.{status_command, status_tries, get_status}

module _ {W : Type 0} (platform : Platform W) (ctx : TransportContext W)
    (clock : HasClock platform ctx.dev) where
  open clock use {elapsed}

  status_tries-steady :
      (retries : ℕ) (st : List ℕ) (out : TransportStatus) (w : W)
      → elapsed w ≤ elapsed (status_tries platform ctx retries st out w).1
  unfolding status_tries
  status_tries-steady zero st out w = omega arith
  status_tries-steady (suc retries) st out w =
      let ((err, m), v) = nos_device_read platform ctx.dev (status_command platform ctx) st w in
      ground (
        arith,
        nos_device_read-steady platform ctx.dev clock (status_command platform ctx) st w,
        status_tries-steady retries (clear_crc m) (decode_status m) v,
      )

  pub get_status-steady : (w : W) → elapsed w ≤ elapsed (get_status platform ctx w).1
  unfolding get_status
  get_status-steady w = status_tries-steady crc_retry_count _ _ w
