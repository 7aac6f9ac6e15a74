-- ===== src/Transport/Call/Delivery.antt =====
-- A whole call on a device that does its part: the app is idle, takes the request, is done at the
-- first look and has a reply of one datagram.
use platform_external_nos_ho.Base.{
  ℕ, suc, ◌+◌, ◌^◌, ◌≤◌, ◌<◌, ◌≡◌, ◌≢◌, ◌∙◌, List, [], ◌++◌, some, pos, arith, length, take, drop,
  false,
}
use platform_external_nos_ho.Crc16.{crc16}
use platform_external_nos_ho.Application.AppStatus.{
  app_success, app_status_idle, app_error_too_much, app_error_checksum,
}
use platform_external_nos_ho.Application.Status.{
  TransportStatus, encode_status, decode_status, status_max_length,
}
use platform_external_nos_ho.Device.{Platform, Timespec, max_device_transfer}
use platform_external_nos_ho.Transport.Context.{TransportContext}
use platform_external_nos_ho.Transport.Status.{status_command, clear_command}
use platform_external_nos_ho.Transport.Ready.{is_working}
use platform_external_nos_ho.Transport.Send.{sent_len}
use platform_external_nos_ho.Transport.Send.Plan.{write_all}
use platform_external_nos_ho.Transport.Send.Laws.{request, send_command-write_all}
use platform_external_nos_ho.Transport.Send.Loop.{memory}
use platform_external_nos_ho.Transport.Receive.{reply_command}
use platform_external_nos_ho.Transport.Call.{hide_checksum, invalid_args, nos_call_application}
use platform_external_nos_ho.Transport.Call.Memory.{given}
use platform_external_nos_ho.Transport.Call.Steps.{
  IsSigned, signed-get_status, ready_step, poll_step, clear_step, attempts_step, finish_step,
}
use platform_external_nos_ho.Transport.Receive.Whole.{receive_step}

module _ {W : Type 0} (platform : Platform W) (ctx : TransportContext W) where
  -- What the device and the clock do, step by step, from `w` to `w'`.
  pub record Conversation (buf answer : List ℕ) (len code : ℕ) (w w' : W) : Type 0 where
    pub idle : TransportStatus
    pub done : TransportStatus
    pub now : Timespec
    pub w₁ : W
    pub w₂ : W
    pub w₃ : W
    pub w₄ : W
    pub w₅ : W
    pub idle_signed : IsSigned idle
    pub idle_status : idle.status ≡ app_status_idle
    pub idle_rests : is_working idle ≡ false
    pub idle_read :
        ctx.dev.read (status_command platform ctx) (platform.uninitialised status_max_length) w
        ≡ ((pos 0, encode_status idle), w₁)
    pub request_written :
        write_all platform ctx (request platform ctx (given buf len)) w₁ ≡ (app_success, w₂)
    pub timer_started : platform.clock_gettime w₂ ≡ (some now, w₃)
    pub done_signed : IsSigned done
    pub done_status : done.status ≡ 2 ^ 31 + code
    pub done_length : done.reply_len ≡ length answer
    pub done_sum : done.reply_crc ≡ crc16 answer
    pub done_read :
        ctx.dev.read (status_command platform ctx) (platform.uninitialised status_max_length) w₃
        ≡ ((pos 0, encode_status done), w₄)
    pub answer_read :
        ctx.dev.read (reply_command platform ctx) (take (length answer) buf) w₄
        ≡ ((pos 0, answer), w₅)
    pub cleared : ctx.dev.write (clear_command platform ctx) [] w₅ ≡ (pos 0, w')

module _ {W : Type 0} (platform : Platform W) (ctx : TransportContext W)
    (epos : 0 < platform.eagain) where
  -- For a positive EAGAIN, valid arguments, an app id of 8 bits and arguments as long as `arg_len`
  -- says, on a device with the given conversation: it is awake, its app is idle with no work under
  -- way, takes the request, is done at the first look with a code below 2 ^ 31 other than
  -- APP_ERROR_TOO_MUCH and APP_ERROR_CHECKSUM, and has a reply of one datagram that is not empty
  -- and fits the caller's length. Then the call returns the app's code, the caller's buffer starts
  -- with the app's bytes and is as it was behind them, and the caller's length is their number.
  pub nos_call_application_delivers :
      (fuel code len : ℕ) (buf answer : List ℕ) (w w' : W)
      → Conversation platform ctx buf answer len code w w'
      → invalid_args ctx (given buf len) ≡ false
      → ctx.app_id < 256
      → sent_len platform ctx ≤ length (memory ctx.args)
      → code < 2 ^ 31
      → code ≢ app_error_too_much
      → code ≢ app_error_checksum
      → 0 < length answer
      → length answer ≤ max_device_transfer
      → length answer ≤ len
      → nos_call_application platform ctx (suc fuel) (given buf len) w
        ≡ some ((code, given (answer ++ drop (length answer) buf) (length answer)), w')
  unfolding nos_call_application hide_checksum
  nos_call_application_delivers fuel code len buf answer w w' talk valid hid hmem hcode much
        checksum some_left one fits =
      let r = given buf len in
      let s₀ = decode_status (platform.uninitialised status_max_length) in
      let ready =
        ready_step platform ctx epos talk.idle w talk.w₁
          (signed-get_status platform ctx epos talk.idle w talk.w₁ talk.idle_signed talk.idle_read)
          talk.idle_status talk.idle_rests in
      let sent = send_command-write_all platform ctx r talk.w₁ hid hmem ∙ talk.request_written in
      let polled =
        poll_step platform ctx epos fuel code talk.done s₀ talk.now talk.w₂ talk.w₃ talk.w₄ hcode
          talk.timer_started
          (signed-get_status platform ctx epos talk.done talk.w₃ talk.w₄ talk.done_signed
            talk.done_read)
          talk.done_status in
      let received =
        receive_step platform ctx epos talk.done buf answer len talk.w₄ talk.w₅ talk.done_length
          talk.done_sum some_left one fits talk.answer_read in
      let ended_with =
        attempts_step platform ctx epos (suc fuel) 4 code 0 r s₀ talk.done w talk.w₁ talk.w₂ talk.w₄
          ready sent polled much checksum in
      let finished_with =
        finish_step platform ctx epos code talk.done buf answer len talk.w₄ talk.w₅ w'
          talk.done_length some_left fits received
          (clear_step platform ctx epos talk.w₅ w' talk.cleared) in
      ground (arith, ended_with, finished_with, valid)
