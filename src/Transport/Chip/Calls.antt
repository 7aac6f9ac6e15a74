-- ===== src/Transport/Chip/Calls.antt =====
-- `nos_call_application` against an app that keeps to the protocol: a call is one step of the app.
use platform_external_nos_ho.Base.{
  ℕ, ◌+◌, ◌*◌, ◌%◌, ◌^◌, ◌≤◌, ◌<◌, ◌≡◌, ◌≢◌, refl, List, [], ◌∷◌, some, false, arith, length, take,
  pos,
}
use platform_external_nos_ho.Application.AppStatus.{app_error_too_much, app_error_checksum}
use platform_external_nos_ho.Application.Status.{TransportStatus, decode_status, status_max_length}
use platform_external_nos_ho.Device.{Platform}
use platform_external_nos_ho.Transport.Context.{TransportContext, Reply, poll_limit_seconds}
use platform_external_nos_ho.Transport.Status.{clear_status}
use platform_external_nos_ho.Transport.Send.{sent_len}
use platform_external_nos_ho.Transport.Send.Loop.{memory}
use platform_external_nos_ho.Transport.Call.{
  ended, attempts, finish, hide_checksum, invalid_args, nos_call_application,
}
use platform_external_nos_ho.Transport.Call.Memory.{given}
use platform_external_nos_ho.Transport.Call.Steps.{attempts_step, finish_step}
use platform_external_nos_ho.Transport.Chip.{
  Answer, App, Phase, chip_in, waiting, answering, signed, status_of,
}
use platform_external_nos_ho.Transport.Chip.Device.{IsChip, Fits, PhaseFits, stored}
use platform_external_nos_ho.Transport.Chip.Ready.{
  at_work, wiped, clear_status-chip, view-wiped, make_ready-chip,
}
use platform_external_nos_ho.Transport.Chip.Requests.{send_command-chip}
use platform_external_nos_ho.Transport.Chip.Looks.{poll_until_done-chip}
use platform_external_nos_ho.Transport.Chip.Replies.{receive_reply-chip}

-- An answer that the protocol can carry, ready before the host's time is up.
pub record IsAnswer {S : Type 0} (pace : ℕ) (answer : Answer S) : Type 0 where
  pub fits : Fits answer.code answer.reply
  pub not_much : answer.code ≢ app_error_too_much
  pub not_checksum : answer.code ≢ app_error_checksum
  pub in_time : pace + answer.looks * (2 * pace) < poll_limit_seconds * 10 ^ 9

-- What the app makes of the request of a call.
abbrev pub answer_of : {W S : Type 0} → Platform W → TransportContext W → App S → S → Answer S
answer_of platform ctx app kept =
    app kept (ctx.params % 2 ^ 16) (take (sent_len platform ctx) (memory ctx.args))

module _ {W : Type 0} (platform : Platform W) (ctx : TransportContext W) where
  -- Behind a first attempt that ends with the app's code comes the end of the call.
  pub call_step :
      (fuel code len : ℕ) (buf : List ℕ) (s : TransportStatus) (w w₁ w' : W) (r' : Reply)
      → attempts platform ctx fuel 5
          (given buf len)
          0
          (decode_status (platform.uninitialised status_max_length))
          w
        ≡ some (ended code s, w₁)
      → finish platform ctx code s (given buf len) w₁ ≡ ((code, r'), w')
      → invalid_args ctx (given buf len) ≡ false
      → code ≢ app_error_checksum
      → nos_call_application platform ctx fuel (given buf len) w ≡ some ((code, r'), w')
  unfolding nos_call_application hide_checksum
  call_step fuel code len buf s w w₁ w' r' tried finished valid other =
      ground (arith, tried, finished, valid)

  pub finish_empty :
      (code : ℕ) (s : TransportStatus) (buf : List ℕ) (len : ℕ) (w w' : W)
      → s.reply_len ≡ 0
      → clear_status platform ctx w ≡ (pos 0, w')
      → finish platform ctx code s (given buf len) w ≡ ((code, given buf 0), w')
  unfolding finish
  finish_empty code s buf len w w' none_left cleared = ground (arith, cleared, none_left)

module _ {W S : Type 0} (platform : Platform W) (ctx : TransportContext W) (app : App S) (pace : ℕ)
    (chip : IsChip platform ctx.dev ctx.app_id app pace) where
  open chip use {view, awake}

  finish-chip :
      (code : ℕ) (reply : List ℕ) (kept : S) (buf : List ℕ) (len : ℕ) (w : W)
      → view w ≡ chip_in (answering code reply reply) kept
      → length reply < 2 ^ 16
      → length reply ≤ len
      → len ≤ length buf
      → (w' : W) × (finish platform ctx code
            (status_of (answering code reply reply))
            (given buf len)
            w
          ≡ ((code, given (stored reply buf) (length reply)), w'))
        × (view w' ≡ chip_in (waiting []) kept)
  unfolding status_of signed
  finish-chip code [] kept buf len w e small fits room = (
    wiped platform ctx w,
    finish_empty platform ctx code (status_of (answering code [] [])) buf len w
        (wiped platform ctx w) refl (clear_status-chip platform ctx app pace chip w),
    view-wiped platform ctx app pace chip w (answering code [] []) kept e,
  )
  finish-chip code (b ∷ bs) kept buf len w e small fits room =
      let reply : List ℕ = b ∷ bs in
      let s = status_of (answering code reply reply) in
      let (w₁, rest, received, left) =
        receive_reply-chip platform ctx app pace chip code reply kept s len buf reply w e refl refl
          small fits room in
      (
        wiped platform ctx w₁,
        finish_step platform ctx awake code s buf reply len w w₁ (wiped platform ctx w₁) refl
            (omega arith) fits received (clear_status-chip platform ctx app pace chip w₁),
        view-wiped platform ctx app pace chip w₁ (answering code reply rest) kept left,
      )

  -- On a device whose app keeps to the protocol and is not at work, with valid arguments that
  -- 16 bits can count, and a caller's buffer with room for the reply: if the answer of the app is
  -- ready in time, and is one that the protocol can carry, then the app finds the request and its
  -- checksum intact, and a call returns the code of the answer, puts all of its reply at the front
  -- of the buffer, and gives its length. The app has made one step on the request, and is idle.
  pub nos_call_application-chip :
      (fuel len : ℕ) (buf : List ℕ) (w : W) (phase : Phase) (kept : S)
      → view w ≡ chip_in phase kept
      → PhaseFits phase
      → at_work phase ≡ false
      → IsAnswer pace (answer_of platform ctx app kept)
      → (answer_of platform ctx app kept).looks < fuel
      → invalid_args ctx (given buf len) ≡ false
      → ctx.arg_len < 2 ^ 16
      → sent_len platform ctx ≤ length (memory ctx.args)
      → length (answer_of platform ctx app kept).reply ≤ len
      → len ≤ length buf
      → let answer = answer_of platform ctx app kept in
        (w' : W) × (nos_call_application platform ctx fuel (given buf len) w
          ≡ some ((answer.code, given (stored answer.reply buf) (length answer.reply)), w'))
        × (view w' ≡ chip_in (waiting []) answer.kept)
  nos_call_application-chip fuel len buf w phase kept e whole rests ok enough valid short hmem fits
        room =
      let answer = answer_of platform ctx app kept in
      let r = given buf len in
      let undefined = decode_status (platform.uninitialised status_max_length) in
      let (w₁, earlier, ready, idle) =
        make_ready-chip platform ctx app pace chip w phase kept e whole rests in
      let (w₂, sent, begins) =
        send_command-chip platform ctx app pace chip r w₁ earlier kept idle short hmem in
      let (w₃, polled, done) =
        poll_until_done-chip platform ctx app pace chip answer.code answer.reply answer.kept ok.fits
          answer.looks fuel undefined w₂ begins enough ok.in_time in
      let status = status_of (answering answer.code answer.reply answer.reply) in
      let (w', finished, view_ends) =
        finish-chip answer.code answer.reply answer.kept buf len w₃ done ok.fits.1 fits room in
      let tried =
        attempts_step platform ctx awake fuel 4 answer.code 0 r undefined status w w₁ w₂ w₃ ready
          sent polled ok.not_much ok.not_checksum in
      (
        w',
        call_step platform ctx fuel answer.code len buf status w w₃ w'
            (given (stored answer.reply buf) (length answer.reply)) tried finished valid
            ok.not_checksum,
        view_ends,
      )
