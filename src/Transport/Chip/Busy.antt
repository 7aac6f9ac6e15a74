-- ===== src/Transport/Chip/Busy.antt =====
-- A call that comes while the app is at work on an earlier request.
use platform_external_nos_ho.Base.{ℕ, ◌≡◌, ◌≢◌, ap, ◌∙◌, List, some, false, pos, arith}
use platform_external_nos_ho.Application.AppStatus.{app_success, app_error_busy}
use platform_external_nos_ho.Device.{Platform}
use platform_external_nos_ho.Transport.Context.{TransportContext, Reply}
use platform_external_nos_ho.Transport.Status.{get_status}
use platform_external_nos_ho.Transport.Ready.{make_ready}
use platform_external_nos_ho.Transport.Call.{attempts, invalid_args, nos_call_application}
use platform_external_nos_ho.Transport.Chip.{App, chip_in, working, begun, signed, status_of}
use platform_external_nos_ho.Transport.Chip.Device.{IsChip, Fits, seen, get_status-chip, view-seen}
use platform_external_nos_ho.Transport.Chip.Looks.{looked_at-working}

module _ {W : Type 0} (platform : Platform W) (ctx : TransportContext W) where
  make_ready-working :
      (looks code : ℕ) (reply : List ℕ) (w w₁ : W)
      → get_status platform ctx w ≡ ((pos 0, status_of (working looks code reply)), w₁)
      → make_ready platform ctx w ≡ (app_error_busy, w₁)
  unfolding make_ready status_of signed
  make_ready-working looks code reply w w₁ got = ground (arith, got)

  returned_step :
      (fuel res : ℕ) (r : Reply) (w w₁ : W)
      → make_ready platform ctx w ≡ (res, w₁)
      → res ≢ app_success
      → invalid_args ctx r ≡ false
      → nos_call_application platform ctx fuel r w ≡ some ((res, r), w₁)
  unfolding nos_call_application attempts
  returned_step fuel res r w w₁ ready bad valid = ground (arith, ready, valid)

module _ {W S : Type 0} (platform : Platform W) (ctx : TransportContext W) (app : App S) (pace : ℕ)
    (chip : IsChip platform ctx.dev ctx.app_id app pace) where
  open chip use {view}

  -- On a device whose app keeps to the protocol and is at work on an earlier request, a call with
  -- valid arguments returns APP_ERROR_BUSY and leaves the caller's variables alone. The app has been
  -- looked at once, and goes on with the earlier request.
  pub nos_call_application-working :
      (fuel looks code : ℕ) (reply : List ℕ) (r : Reply) (w : W) (kept : S)
      → view w ≡ chip_in (working looks code reply) kept
      → Fits code reply
      → invalid_args ctx r ≡ false
      → (nos_call_application platform ctx fuel r w
          ≡ some ((app_error_busy, r), seen platform ctx w))
        × (view (seen platform ctx w) ≡ chip_in (begun looks code reply) kept)
  nos_call_application-working fuel looks code reply r w kept e fits valid =
      let got =
        get_status-chip platform ctx app pace chip w (working looks code reply) kept e fits in
      let ready = make_ready-working platform ctx looks code reply w (seen platform ctx w) got in
      (
        returned_step platform ctx fuel app_error_busy r w (seen platform ctx w) ready (omega arith)
            valid,
        view-seen platform ctx app pace chip w (working looks code reply) kept e
            ∙ ap (λ p. chip_in p kept) (looked_at-working looks code reply),
      )
