-- ===== src/Transport/Poll/Laws.antt =====
-- How `poll_until_done` ends, and that it ends.
use platform_external_nos_ho.Base.{
  ℕ, zero, suc, ◌+◌, ◌*◌, ◌^◌, ◌<◌, ◌≡◌, ◌≢◌, ◌⊎◌, ◌↔◌, arith, true, false, none, some,
  Option-cases, inl, inr,
}
use platform_external_nos_ho.Application.AppStatus.{
  app_error_io, app_error_internal, app_error_timeout, app_status_code,
}
use platform_external_nos_ho.Application.Status.{TransportStatus, transport_v0}
use platform_external_nos_ho.Device.{Platform, Timespec}
use platform_external_nos_ho.Transport.Context.{TransportContext, poll_limit_seconds}
use platform_external_nos_ho.Transport.Status.{get_status}
use platform_external_nos_ho.Transport.Retry.Time.{nanoseconds, HasClock}
use platform_external_nos_ho.Transport.Status.Time.{get_status-steady}
use platform_external_nos_ho.Transport.Ready.{is_working}
use platform_external_nos_ho.Transport.Poll.{
  is_done, progress, timespec_before, poll_loop, poll_until_done,
}

-- On times with less than a second of nanoseconds the comparison is that of the nanoseconds.
pub timespec_before_lem :
    (lhs rhs : Timespec)
    → lhs.tv_nsec < 10 ^ 9
    → rhs.tv_nsec < 10 ^ 9
    → (timespec_before lhs rhs ≡ true) ↔ (nanoseconds lhs < nanoseconds rhs)
unfolding timespec_before
timespec_before_lem lhs rhs hl hr = ground arith

module _ {W : Type 0} (platform : Platform W) (ctx : TransportContext W) where
  -- How polling ended, with the status that it read last: by an error of the host, by the app's
  -- code under the DONE bit, by an app that stopped, or by the time limit.
  abbrev pub PollEnd : ℕ → TransportStatus → Type 0
  PollEnd code s =
      (code ≡ app_error_io)
      ⊎ (is_done s ≡ true) × (code ≡ app_status_code s.status)
      ⊎ (is_done s ≡ false)
        × (s.version ≢ transport_v0)
        × (is_working s ≡ false)
        × (code ≡ app_error_internal)
      ⊎ (is_done s ≡ false) × (code ≡ app_error_timeout)

  poll_loop_end :
      (fuel : ℕ) (abort_at : Timespec) (w w' : W) (code : ℕ) (s : TransportStatus)
      → poll_loop platform ctx fuel abort_at w ≡ some ((code, s), w')
      → PollEnd code s
  unfolding poll_loop progress
  poll_loop_end zero abort_at w w' code s h = cc
  poll_loop_end (suc fuel) abort_at w w' code s h = ground (
    arith,
    poll_loop_end fuel abort_at (platform.clock_gettime (get_status platform ctx w).1).1 w' code s,
  )

  -- However `poll_until_done` ends, its code is the host's APP_ERROR_IO, the app's code from a
  -- status with the DONE bit, APP_ERROR_INTERNAL for a v1 app that is neither done nor at work, or
  -- APP_ERROR_TIMEOUT for one that is not done.
  pub poll_until_done_end :
      (fuel : ℕ) (s₀ s : TransportStatus) (w w' : W) (code : ℕ)
      → poll_until_done platform ctx fuel s₀ w ≡ some ((code, s), w')
      → PollEnd code s
  unfolding poll_until_done
  poll_until_done_end fuel s₀ s w w' code h = elim (Option-cases (platform.clock_gettime w).0) [
    | inl fails ↦ ground (arith, rw (fails, poll_until_done) at h)
    | inr (now, shown) ↦ poll_loop_end fuel _ _ w' code s (rw (shown, poll_until_done) at h)
  ]

  module _ (clock : HasClock platform ctx.dev) where
    open clock use {elapsed, below_second, shown, ticks}

    poll_loop-ne-none :
        (fuel : ℕ) (abort_at : Timespec) (w : W)
        → abort_at.tv_nsec < 10 ^ 9
        → nanoseconds abort_at < elapsed w + fuel
        → 0 < fuel
        → poll_loop platform ctx fuel abort_at w ≢ none
    unfolding poll_loop
    poll_loop-ne-none zero abort_at w hn hf h₀ e = absurd (omega arith)
    poll_loop-ne-none (suc fuel) abort_at w hn hf h₀ e =
        let w₁ = (get_status platform ctx w).1 in
        let w₂ = (platform.clock_gettime w₁).1 in
        elim (Option-cases (platform.clock_gettime w₁).0) [
          | inl fails ↦ ground arith
          | inr (now, reads) ↦ ground (
            arith,
            below_second w₁ now reads,
            shown w₁ now reads,
            ticks w₁,
            get_status-steady platform ctx clock w,
            timespec_before_lem now abort_at,
            poll_loop-ne-none fuel abort_at w₂ hn,
          )
        ]

    -- On a monotonic clock that every reading moves on, polling ends: fuel for a look at each nanosecond of the time limit,
    -- and one more, is enough.
    pub poll_until_done-ne-none :
        (fuel : ℕ) (s₀ : TransportStatus) (w : W)
        → poll_limit_seconds * 10 ^ 9 < fuel
        → poll_until_done platform ctx fuel s₀ w ≢ none
    unfolding poll_until_done
    poll_until_done-ne-none fuel s₀ w h e = elim (Option-cases (platform.clock_gettime w).0) [
      | inl fails ↦ ground (arith, rw (fails, poll_until_done) at e)
      | inr (now, reads) ↦
          poll_loop-ne-none fuel (record now { tv_sec = now.tv_sec + poll_limit_seconds })
            (platform.clock_gettime w).1 (below_second w now reads)
            (omega (arith, shown w now reads, ticks w)) (omega arith)
            (rw (reads, poll_until_done) at e)
    ]
