-- ===== src/Transport/Chip/Refused.antt =====
-- `nos_call_application` against an app that does not find the request intact.
use platform_external_nos_ho.Base.{
  ℕ, zero, suc, ◌*◌, ◌^◌, ◌≤◌, ◌<◌, ◌≡◌, refl, ◌∙◌, List, [], some, false, arith, length,
}
use platform_external_nos_ho.Application.AppStatus.{app_success, app_error_io, app_error_checksum}
use platform_external_nos_ho.Application.Status.{TransportStatus, decode_status, status_max_length}
use platform_external_nos_ho.Device.{Platform}
use platform_external_nos_ho.Transport.Context.{TransportContext, Reply, poll_limit_seconds}
use platform_external_nos_ho.Transport.Send.{sent_len, send_command, go_command}
use platform_external_nos_ho.Transport.Send.Loop.{memory}
use platform_external_nos_ho.Transport.Ready.{make_ready}
use platform_external_nos_ho.Transport.Poll.{poll_until_done}
use platform_external_nos_ho.Transport.Call.{
  ended, attempts, finish, hide_checksum, invalid_args, nos_call_application,
}
use platform_external_nos_ho.Transport.Call.Memory.{given}
use platform_external_nos_ho.Transport.Chip.{
  App, Phase, chip_in, waiting, answering, is_intact, signed, status_of,
}
use platform_external_nos_ho.Transport.Chip.Device.{IsChip, PhaseFits}
use platform_external_nos_ho.Transport.Chip.Ready.{
  at_work, wiped, clear_status-chip, view-wiped, make_ready-chip,
}
use platform_external_nos_ho.Transport.Chip.Checks.{message_of, info_of}
use platform_external_nos_ho.Transport.Chip.Requests.{send_command-refused}
use platform_external_nos_ho.Transport.Chip.Looks.{poll_until_done-chip}
use platform_external_nos_ho.Transport.Chip.Calls.{finish_empty}

abbrev refusal : Phase
refusal = answering app_error_checksum [] []

refusal-reply_len : (status_of refusal).reply_len ≡ 0
unfolding status_of signed
refusal-reply_len = refl

module _ {W : Type 0} (platform : Platform W) (ctx : TransportContext W) where
  -- An attempt that ends with APP_ERROR_CHECKSUM is followed by the next one.
  attempts_again :
      (fuel retries code₀ : ℕ) (r : Reply) (s₀ s : TransportStatus) (w w₁ w₂ w₃ : W)
      → make_ready platform ctx w ≡ (app_success, w₁)
      → send_command platform ctx r w₁ ≡ (app_success, w₂)
      → poll_until_done platform ctx fuel s₀ w₂ ≡ some ((app_error_checksum, s), w₃)
      → attempts platform ctx fuel (suc retries) r code₀ s₀ w
        ≡ attempts platform ctx fuel retries r app_error_checksum s w₃
  unfolding attempts
  attempts_again fuel retries code₀ r s₀ s w w₁ w₂ w₃ ready sent polled =
      rw (ready, sent, polled) refl

  refused_step :
      (fuel len : ℕ) (buf : List ℕ) (s : TransportStatus) (w w₁ w' : W)
      → attempts platform ctx fuel 5
          (given buf len)
          0
          (decode_status (platform.uninitialised status_max_length))
          w
        ≡ some (ended app_error_checksum s, w₁)
      → finish platform ctx app_error_io s (given buf len) w₁ ≡ ((app_error_io, given buf 0), w')
      → invalid_args ctx (given buf len) ≡ false
      → nos_call_application platform ctx fuel (given buf len) w
        ≡ some ((app_error_io, given buf 0), w')
  unfolding nos_call_application hide_checksum
  refused_step fuel len buf s w w₁ w' tried finished valid = ground (arith, tried, finished, valid)

  -- The request that is sent does not pass the check of the app.
  abbrev pub IsRefused : Reply → Type 0
  IsRefused r =
      is_intact (message_of platform ctx) (go_command platform ctx) (info_of platform ctx r) ≡ false

module _ {W S : Type 0} (platform : Platform W) (ctx : TransportContext W) (app : App S) (pace : ℕ)
    (chip : IsChip platform ctx.dev ctx.app_id app pace) where
  open chip use {view}

  -- An attempt ends with the refusal of the app, which does not see the request, and goes on.
  attempt-refused :
      (fuel retries code₀ : ℕ) (r : Reply) (s₀ : TransportStatus) (w : W) (phase : Phase) (kept : S)
      → view w ≡ chip_in phase kept
      → PhaseFits phase
      → at_work phase ≡ false
      → 0 < fuel
      → pace < poll_limit_seconds * 10 ^ 9
      → sent_len platform ctx ≤ length (memory ctx.args)
      → IsRefused platform ctx r
      → (w' : W) × (attempts platform ctx fuel (suc retries) r code₀ s₀ w
          ≡ attempts platform ctx fuel retries r app_error_checksum (status_of refusal) w')
        × (view w' ≡ chip_in refusal kept)
  attempt-refused fuel retries code₀ r s₀ w phase kept e whole rests hf ht hm damaged =
      let (w₁, earlier, ready, idle) =
        make_ready-chip platform ctx app pace chip w phase kept e whole rests in
      let (w₂, sent, refuses) =
        send_command-refused platform ctx app pace chip r w₁ earlier kept idle hm damaged in
      let (w₃, polled, done) =
        poll_until_done-chip platform ctx app pace chip app_error_checksum [] kept
          (omega arith, omega arith) 0 fuel s₀ w₂ refuses hf (omega arith) in
      (
        w₃,
        attempts_again platform ctx fuel retries code₀ r s₀ (status_of refusal) w w₁ w₂ w₃ ready
            sent polled,
        done,
      )

  attempts-refused :
      (fuel retries code₀ : ℕ) (r : Reply) (s₀ : TransportStatus) (w : W) (phase : Phase) (kept : S)
      → view w ≡ chip_in phase kept
      → PhaseFits phase
      → at_work phase ≡ false
      → 0 < fuel
      → pace < poll_limit_seconds * 10 ^ 9
      → sent_len platform ctx ≤ length (memory ctx.args)
      → IsRefused platform ctx r
      → (w' : W) × (attempts platform ctx fuel (suc retries) r code₀ s₀ w
          ≡ some (ended app_error_checksum (status_of refusal), w'))
        × (view w' ≡ chip_in refusal kept)
  unfolding attempts
  attempts-refused fuel zero code₀ r s₀ w phase kept e whole rests hf ht hm damaged =
      attempt-refused fuel 0 code₀ r s₀ w phase kept e whole rests hf ht hm damaged
  attempts-refused fuel (suc n) code₀ r s₀ w phase kept e whole rests hf ht hm damaged =
      let (w₁, again, refuses) =
        attempt-refused fuel (suc n) code₀ r s₀ w phase kept e whole rests hf ht hm damaged in
      let (w', refused, left) =
        attempts-refused fuel n app_error_checksum r (status_of refusal) w₁ refusal kept refuses
          (omega arith, omega arith) refl hf ht hm damaged in
      (w', again ∙ refused, left)

  -- On a device whose app keeps to the protocol and is not at work, with valid arguments, and where a
  -- look at the clock takes less than the time limit: if the request and the checksum that are sent
  -- do not pass the app's check, a call returns APP_ERROR_IO, not the APP_ERROR_CHECKSUM that it
  -- gets, with the caller's buffer as it was and the length 0. The app has made no step, and is idle.
  pub nos_call_application-refused :
      (fuel len : ℕ) (buf : List ℕ) (w : W) (phase : Phase) (kept : S)
      → view w ≡ chip_in phase kept
      → PhaseFits phase
      → at_work phase ≡ false
      → 0 < fuel
      → pace < poll_limit_seconds * 10 ^ 9
      → invalid_args ctx (given buf len) ≡ false
      → sent_len platform ctx ≤ length (memory ctx.args)
      → IsRefused platform ctx (given buf len)
      → (w' : W) × (nos_call_application platform ctx fuel (given buf len) w
          ≡ some ((app_error_io, given buf 0), w'))
        × (view w' ≡ chip_in (waiting []) kept)
  nos_call_application-refused fuel len buf w phase kept e whole rests hf ht valid hm damaged =
      let undefined = decode_status (platform.uninitialised status_max_length) in
      let (w₁, tried, left) =
        attempts-refused fuel 4 0 (given buf len) undefined w phase kept e whole rests hf ht hm
          damaged in
      let w' = wiped platform ctx w₁ in
      (
        w',
        refused_step platform ctx fuel len buf (status_of refusal) w w₁ w' tried
            (finish_empty platform ctx app_error_io (status_of refusal) buf len w₁ w'
              refusal-reply_len (clear_status-chip platform ctx app pace chip w₁))
            valid,
        view-wiped platform ctx app pace chip w₁ refusal kept left,
      )
