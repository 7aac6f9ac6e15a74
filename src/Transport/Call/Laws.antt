-- ===== src/Transport/Call/Laws.antt =====
-- What `nos_call_application` promises its caller, on every device.
use platform_external_nos_ho.Base.{
  ℕ, zero, suc, ◌*◌, ◌^◌, ◌<◌, ◌≡◌, ◌≢◌, [], none, some, arith, Option-cases, inl, inr,
}
use mathlib.Core.Option
use platform_external_nos_ho.Base.Bits.{bit_and_mask}
use platform_external_nos_ho.Application.AppStatus.{
  app_success, app_error_checksum, app_status_code,
}
use platform_external_nos_ho.Application.Status.{TransportStatus, decode_status, status_max_length}
use platform_external_nos_ho.Device.{Platform}
use platform_external_nos_ho.Transport.Context.{
  TransportContext, Reply, crc_retry_count, retry_wait_time_us, poll_limit_seconds,
}
use platform_external_nos_ho.Transport.Ready.{make_ready}
use platform_external_nos_ho.Transport.Ready.Laws.{make_ready_codes}
use platform_external_nos_ho.Transport.Send.{send_command}
use platform_external_nos_ho.Transport.Send.Laws.{send_command_codes}
use platform_external_nos_ho.Transport.Poll.{poll_until_done}
use platform_external_nos_ho.Transport.Poll.Laws.{
  PollEnd, poll_until_done_end, poll_until_done-ne-none,
}
use platform_external_nos_ho.Transport.Retry.Time.{HasClock}
use platform_external_nos_ho.Transport.Receive.Laws.{receive_reply_codes}
use platform_external_nos_ho.Transport.Call.{
  Attempts, returned, ended, attempts, hide_checksum, finish, nos_call_application,
}

app_status_code-lt : (res : ℕ) → app_status_code res < 2 ^ 31
unfolding app_status_code
app_status_code-lt res = omega (arith, bit_and_mask 31 res)

-- A code that fits the 31 bits of an application's status.
abbrev IsCode : ℕ → Type 0
IsCode code = code < 2 ^ 31

module _ {W : Type 0} (platform : Platform W) (ctx : TransportContext W) where
  PollEnd-IsCode : (code : ℕ) (s : TransportStatus) → PollEnd platform ctx code s → IsCode code
  PollEnd-IsCode code s h = ground (arith, app_status_code-lt s.status)

  -- How the attempts can end: a code that is no APP_ERROR_CHECKSUM if it is returned at once.
  abbrev AttemptsEnd : Attempts → Type 0
  AttemptsEnd (returned res) = IsCode res × (res ≢ app_error_checksum) × (res ≢ app_success)
  AttemptsEnd (ended code status) = IsCode code

  attempts_end :
      (fuel retries code : ℕ) (r : Reply) (status : TransportStatus) (w w' : W) (a : Attempts)
      → IsCode code
      → attempts platform ctx fuel retries r code status w ≡ some (a, w')
      → AttemptsEnd a
  unfolding attempts
  attempts_end fuel zero code r status w w' a hc h = ground arith
  attempts_end fuel (suc retries) code r status w w' a hc h =
      let (ready, w₁) = make_ready platform ctx w in
      let (sent, w₂) = send_command platform ctx r w₁ in
      elim (Option-cases (poll_until_done platform ctx fuel status w₂)) [
        | inl stuck ↦
            ground (arith, make_ready_codes platform ctx w, send_command_codes platform ctx r w₁)
        | inr (((code', status'), w₃), polled) ↦ ground (
          arith,
          make_ready_codes platform ctx w,
          send_command_codes platform ctx r w₁,
          PollEnd-IsCode code' status'
              (poll_until_done_end platform ctx fuel status status' w₂ w₃ code' polled),
          attempts_end fuel retries code' r status' w₃ w' a,
          attempts_end fuel retries code' r status' (platform.usleep retry_wait_time_us w₃) w' a,
        )
      ]

  finish-IsCode :
      (code : ℕ) (status : TransportStatus) (r : Reply) (w : W)
      → IsCode code
      → code ≢ app_error_checksum
      → IsCode (finish platform ctx code status r w).0.0
        × ((finish platform ctx code status r w).0.0 ≢ app_error_checksum)
  unfolding finish
  finish-IsCode code status r w h ne = ground (
    arith,
    receive_reply_codes platform ctx status (Option.get_or r.reply_len 0) (Option.get_or r.reply [])
        w,
  )

  hide_checksum-IsCode :
      (code : ℕ)
      → IsCode code
      → IsCode (hide_checksum code) × (hide_checksum code ≢ app_error_checksum)
  unfolding hide_checksum
  hide_checksum-IsCode code h = ground arith

  -- On every device, the result of a call is below 2 ^ 31, so the transport's DONE bit is never
  -- set, and it is never APP_ERROR_CHECKSUM, which stays within the protocol.
  pub nos_call_application_code :
      (fuel code : ℕ) (r r' : Reply) (w w' : W)
      → nos_call_application platform ctx fuel r w ≡ some ((code, r'), w')
      → (code < 2 ^ 31) × (code ≢ app_error_checksum)
  unfolding nos_call_application
  nos_call_application_code fuel code r r' w w' h =
      let undefined = decode_status (platform.uninitialised status_max_length) in
      elim (Option-cases (attempts platform ctx fuel crc_retry_count r 0 undefined w)) [
        | inl stuck ↦ ground arith
        | inr ((returned res, w₁), e) ↦ ground (
          arith,
          attempts_end fuel crc_retry_count 0 r undefined w w₁ (returned res) (omega arith) e,
        )
        | inr ((ended code' status, w₁), e) ↦ ground (
          arith,
          hide_checksum-IsCode code' (
              attempts_end fuel crc_retry_count 0 r undefined w w₁ (ended code' status)
                (omega arith) e),
          finish-IsCode (hide_checksum code') status r w₁,
        )
      ]

  module _ (clock : HasClock platform ctx.dev) (fuel : ℕ)
      (enough : poll_limit_seconds * 10 ^ 9 < fuel) where
    attempts-ne-none :
        (retries code : ℕ) (r : Reply) (status : TransportStatus) (w : W)
        → attempts platform ctx fuel retries r code status w ≢ none
    unfolding attempts
    attempts-ne-none zero code r status w h = ground arith
    attempts-ne-none (suc retries) code r status w h =
        let w₂ = (send_command platform ctx r (make_ready platform ctx w).1).1 in
        elim (Option-cases (poll_until_done platform ctx fuel status w₂)) [
          | inl stuck ↦ poll_until_done-ne-none platform ctx clock fuel status w₂ enough stuck
          | inr (((code', status'), w₃), polled) ↦ ground (
            arith,
            attempts-ne-none retries code' r status' w₃,
            attempts-ne-none retries code' r status' (platform.usleep retry_wait_time_us w₃),
          )
        ]

    -- On a monotonic clock that every reading moves on, and with fuel for each nanosecond of the time
    -- limit and one more, every call returns, on every device.
    pub nos_call_application_returns :
        (r : Reply) (w : W)
        → (answer : (ℕ × Reply) × W) × (nos_call_application platform ctx fuel r w ≡ some answer)
    unfolding nos_call_application
    nos_call_application_returns r w =
        elim (Option-cases (nos_call_application platform ctx fuel r w)) [
          | inl stuck ↦ absurd (
              ground (
                arith,
                attempts-ne-none crc_retry_count 0 r
                    (decode_status (platform.uninitialised status_max_length)) w,
              ))
          | inr (answer, e) ↦ (answer, e)
        ]
