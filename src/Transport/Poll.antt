-- ===== src/Transport/Poll.antt =====
-- `timespec_before` and `poll_until_done` of transport.c.
pub mod Laws
use platform_external_nos_ho.Base.{
  ℕ, zero, suc, ◌+◌, bit_and, Bool, M, ℤ, is_nonzero, ltb, ◌==◌, ◌&&◌, not, Option, none, some,
  if◌then◌else◌,
}
use platform_external_nos_ho.Application.AppStatus.{
  app_error_io, app_error_internal, app_error_timeout, app_status_done, app_status_code,
}
use platform_external_nos_ho.Application.Status.{TransportStatus, transport_v0}
use platform_external_nos_ho.Device.{Platform, Timespec}
use platform_external_nos_ho.Transport.Context.{TransportContext, poll_limit_seconds}
use platform_external_nos_ho.Transport.Status.{get_status}
use platform_external_nos_ho.Transport.Ready.{is_working}

unfoldable pub timespec_before : Timespec → Timespec → Bool
timespec_before lhs rhs =
    if lhs.tv_sec == rhs.tv_sec then ltb lhs.tv_nsec rhs.tv_nsec else ltb lhs.tv_sec rhs.tv_sec

-- `status->status & APP_STATUS_DONE`, as a condition.
abbrev pub is_done : TransportStatus → Bool
is_done s = not (bit_and s.status app_status_done == 0)

-- What one look at a status message leads to: the app is done, has stopped, or is at work.
pub data Progress : Type 0 where
  finished : ℕ → Progress
  polling : Progress

unfoldable pub progress : TransportStatus → Progress
progress s =
    if is_done s
    then finished (app_status_code s.status)
    else if not (s.version == transport_v0) && not (is_working s)
    then finished app_error_internal
    else polling

module _ {W : Type 0} (platform : Platform W) (ctx : TransportContext W) where
  -- The `do … while (timespec_before(&now, &abort_at))` loop on fuel, which `none` has run out of.
  -- The result is the code with what `*status` holds. `poll_count` is only logged.
  unfoldable pub poll_loop : ℕ → Timespec → W → Option ((ℕ × TransportStatus) × W)
  poll_loop zero abort_at w = none
  poll_loop (suc fuel) abort_at w =
      let ((err, status), w') = get_status platform ctx w in
      let (clock, w'') = platform.clock_gettime w' in
      let rest = poll_loop fuel abort_at w'' in
      let after : Option ((ℕ × TransportStatus) × W) = elim clock [
        | none ↦ some ((app_error_io, status), w'')
        | some now ↦
            if timespec_before now abort_at then rest else some ((app_error_timeout, status), w'')
      ] in
      if is_nonzero err
      then some ((app_error_io, status), w')
      else elim (progress status) [ finished code ↦ some ((code, status), w') | polling ↦ after ]

  -- `status` comes with what the caller's variable holds, and keeps that if the clock fails at once.
  unfoldable pub poll_until_done : ℕ → TransportStatus → W → Option ((ℕ × TransportStatus) × W)
  unfolding poll_loop
  poll_until_done fuel status w =
      let (clock, w') = platform.clock_gettime w in
      elim clock [
        | none ↦ some ((app_error_io, status), w')
        | some now ↦ poll_loop fuel (record now { tv_sec = now.tv_sec + poll_limit_seconds }) w'
      ]
