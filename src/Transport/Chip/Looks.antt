-- ===== src/Transport/Chip/Looks.antt =====
-- `poll_until_done` against an app that is done in time.
use platform_external_nos_ho.Base.{
  ℕ, zero, suc, ◌+◌, ◌*◌, ◌^◌, ◌<◌, ◌≡◌, refl, ap, ap₂, ◌∙◌, List, some, true, false, arith, pos,
}
use platform_external_nos_ho.Application.AppStatus.{app_error_timeout}
use platform_external_nos_ho.Application.Status.{TransportStatus}
use platform_external_nos_ho.Device.{Platform, Timespec}
use platform_external_nos_ho.Transport.Context.{TransportContext, poll_limit_seconds}
use platform_external_nos_ho.Transport.Retry.Time.{nanoseconds}
use platform_external_nos_ho.Transport.Status.{get_status}
use platform_external_nos_ho.Transport.Poll.{
  timespec_before, finished, polling, progress, poll_loop, poll_until_done,
}
use platform_external_nos_ho.Transport.Poll.Laws.{timespec_before_lem}
use platform_external_nos_ho.Transport.Call.Steps.{done_bit, done_code}
use platform_external_nos_ho.Transport.Chip.{
  App, chip_in, working, answering, looked_at, begun, signed, status_of,
}
use platform_external_nos_ho.Transport.Chip.Device.{
  IsChip, Fits, seen, get_status-chip, view-seen, time-seen,
}

pub progress-working :
    (looks code : ℕ) (reply : List ℕ) → progress (status_of (working looks code reply)) ≡ polling
unfolding progress status_of signed
progress-working looks code reply = refl

progress-answering :
    (code : ℕ) (reply rest : List ℕ)
    → code < 2 ^ 31
    → progress (status_of (answering code reply rest)) ≡ finished code
unfolding progress status_of signed
progress-answering code reply rest h = rw (done_bit code h, done_code code h) refl

pub looked_at-working :
    (looks code : ℕ) (reply : List ℕ)
    → looked_at (working looks code reply) ≡ begun looks code reply
looked_at-working zero code reply = refl
looked_at-working (suc looks) code reply = refl

-- The rounds of the loop, by what a look shows.
module _ {W : Type 0} (platform : Platform W) (ctx : TransportContext W) where
  done_round :
      (fuel code : ℕ) (abort_at : Timespec) (s : TransportStatus) (w w₁ : W)
      → get_status platform ctx w ≡ ((pos 0, s), w₁)
      → progress s ≡ finished code
      → poll_loop platform ctx (suc fuel) abort_at w ≡ some ((code, s), w₁)
  unfolding poll_loop
  done_round fuel code abort_at s w w₁ got done = ground (arith, got, done)

  pub early_round :
      (fuel : ℕ) (abort_at now : Timespec) (s : TransportStatus) (w w₁ w₂ : W)
      → get_status platform ctx w ≡ ((pos 0, s), w₁)
      → progress s ≡ polling
      → platform.clock_gettime w₁ ≡ (some now, w₂)
      → timespec_before now abort_at ≡ true
      → poll_loop platform ctx (suc fuel) abort_at w ≡ poll_loop platform ctx fuel abort_at w₂
  unfolding poll_loop
  early_round fuel abort_at now s w w₁ w₂ got at_work shown early =
      ground (arith, got, at_work, shown, early)

  pub late_round :
      (fuel : ℕ) (abort_at now : Timespec) (s : TransportStatus) (w w₁ w₂ : W)
      → get_status platform ctx w ≡ ((pos 0, s), w₁)
      → progress s ≡ polling
      → platform.clock_gettime w₁ ≡ (some now, w₂)
      → timespec_before now abort_at ≡ false
      → poll_loop platform ctx (suc fuel) abort_at w ≡ some ((app_error_timeout, s), w₂)
  unfolding poll_loop
  late_round fuel abort_at now s w w₁ w₂ got at_work shown late =
      ground (arith, got, at_work, shown, late)

  pub started_loop :
      (fuel : ℕ) (s₀ : TransportStatus) (now : Timespec) (w w₁ : W)
      → platform.clock_gettime w ≡ (some now, w₁)
      → poll_until_done platform ctx fuel s₀ w
        ≡ poll_loop platform ctx fuel (record now { tv_sec = now.tv_sec + poll_limit_seconds }) w₁
  unfolding poll_until_done
  started_loop fuel s₀ now w w₁ shown = ground (arith, shown)

module _ {W S : Type 0} (platform : Platform W) (ctx : TransportContext W) (app : App S) (pace : ℕ)
    (chip : IsChip platform ctx.dev ctx.app_id app pace) where
  open chip use {view, time, clock_shows, clock_leaves, below_second, clock_pace}

  pub clock_read :
      (w : W) → platform.clock_gettime w ≡ (some (time w), (platform.clock_gettime w).1)
  clock_read w = ap₂ (λ a b. (a, b)) (clock_shows w) refl

  module _ (code : ℕ) (reply : List ℕ) (kept : S) (fits : Fits code reply) where
    poll_loop-chip :
        (looks fuel : ℕ) (abort_at : Timespec) (w : W)
        → view w ≡ chip_in (begun looks code reply) kept
        → looks < fuel
        → abort_at.tv_nsec < 10 ^ 9
        → nanoseconds (time w) + looks * (2 * pace) < nanoseconds abort_at
        → (w' : W) × (poll_loop platform ctx fuel abort_at w
            ≡ some ((code, status_of (answering code reply reply)), w'))
          × (view w' ≡ chip_in (answering code reply reply) kept)
    poll_loop-chip looks zero abort_at w e hf hn ht = absurd (omega arith)
    poll_loop-chip zero (suc fuel) abort_at w e hf hn ht =
        let got =
          get_status-chip platform ctx app pace chip w (answering code reply reply) kept e fits in
        (
          seen platform ctx w,
          done_round platform ctx fuel code abort_at _ w (seen platform ctx w) got
              (progress-answering code reply reply fits.0),
          view-seen platform ctx app pace chip w (answering code reply reply) kept e,
        )
    poll_loop-chip (suc looks) (suc fuel) abort_at w e hf hn ht =
        let w₁ = seen platform ctx w in
        let w₂ = (platform.clock_gettime w₁).1 in
        let got =
          get_status-chip platform ctx app pace chip w (working looks code reply) kept e fits in
        let left : view w₂ ≡ chip_in (begun looks code reply) kept =
          clock_leaves w₁
          ∙ view-seen platform ctx app pace chip w (working looks code reply) kept e
          ∙ ap (λ p. chip_in p kept) (looked_at-working looks code reply) in
        let looked = time-seen platform ctx app pace chip w in
        let early : timespec_before (time w₁) abort_at ≡ true =
          (timespec_before_lem (time w₁) abort_at (below_second w₁) hn).1 (omega (arith, looked)) in
        let (w', ends, view_ends) =
          poll_loop-chip looks fuel abort_at w₂ left (omega arith) hn
            (omega (arith, looked, clock_pace w₁)) in
        (
          w',
          early_round platform ctx fuel abort_at (time w₁) _ w w₁ w₂ got
                (progress-working looks code reply) (clock_read w₁) early
              ∙ ends,
          view_ends,
        )

    -- An app that is done in less than the time limit is waited for until then.
    pub poll_until_done-chip :
        (looks fuel : ℕ) (s₀ : TransportStatus) (w : W)
        → view w ≡ chip_in (begun looks code reply) kept
        → looks < fuel
        → pace + looks * (2 * pace) < poll_limit_seconds * 10 ^ 9
        → (w' : W) × (poll_until_done platform ctx fuel s₀ w
            ≡ some ((code, status_of (answering code reply reply)), w'))
          × (view w' ≡ chip_in (answering code reply reply) kept)
    poll_until_done-chip looks fuel s₀ w e hf ht =
        let now = time w in
        let abort_at = record now { tv_sec = now.tv_sec + poll_limit_seconds } in
        let w₁ = (platform.clock_gettime w).1 in
        let (w', ends, view_ends) =
          poll_loop-chip looks fuel abort_at w₁ (clock_leaves w ∙ e) hf (below_second w)
            (omega (arith, clock_pace w)) in
        (w', started_loop platform ctx fuel s₀ now w w₁ (clock_read w) ∙ ends, view_ends)
