-- ===== src/Transport/Frame/Whole.antt =====
-- The properties that a whole call keeps.
use mathlib.Core.Option
use platform_external_nos_ho.Base.{ℕ, zero, suc, ◌≡◌, [], some, arith, Option-cases, inl, inr}
use platform_external_nos_ho.Application.Status.{TransportStatus, decode_status, status_max_length}
use platform_external_nos_ho.Device.{Platform}
use platform_external_nos_ho.Transport.Context.{
  TransportContext, Reply, crc_retry_count, retry_wait_time_us,
}
use platform_external_nos_ho.Transport.Status.{clear_status}
use platform_external_nos_ho.Transport.Ready.{make_ready}
use platform_external_nos_ho.Transport.Send.{send_command}
use platform_external_nos_ho.Transport.Poll.{poll_until_done}
use platform_external_nos_ho.Transport.Receive.{receive_reply}
use platform_external_nos_ho.Transport.Call.{
  Attempts, returned, ended, attempts, hide_checksum, finish, nos_call_application,
}
use platform_external_nos_ho.Transport.Frame.{IsKept, clear_status-kept, make_ready-kept}
use platform_external_nos_ho.Transport.Frame.Exchange.{
  send_command-kept, receive_reply-kept, poll_until_done-kept,
}

module _ {W : Type 0} (platform : Platform W) (ctx : TransportContext W) (P : W → Type 0)
    (kept : IsKept platform ctx.dev P) where
  attempts-kept :
      (fuel retries code : ℕ) (r : Reply) (status : TransportStatus) (w w' : W) (a : Attempts)
      → P w
      → attempts platform ctx fuel retries r code status w ≡ some (a, w')
      → P w'
  unfolding attempts
  attempts-kept fuel zero code r status w w' a h e = ground arith
  attempts-kept fuel (suc retries) code r status w w' a h e =
      let w₁ = (make_ready platform ctx w).1 in
      let w₂ = (send_command platform ctx r w₁).1 in
      let h₁ : P w₁ = make_ready-kept platform ctx P kept w h in
      let h₂ : P w₂ = send_command-kept platform ctx P kept r w₁ h₁ in
      elim (Option-cases (poll_until_done platform ctx fuel status w₂)) [
        | inl stuck ↦ ground arith
        | inr (((code', status'), w₃), polled) ↦
            let h₃ : P w₃ =
              poll_until_done-kept platform ctx P kept fuel status w₂ w₃ (code', status') h₂
                polled in
            let slept = platform.usleep retry_wait_time_us w₃ in
            let h₄ : P slept = kept.sleeping retry_wait_time_us w₃ h₃ in
            ground (
              arith,
              attempts-kept fuel retries code' r status' w₃ w' a h₃,
              attempts-kept fuel retries code' r status' slept w' a h₄,
            )
      ]

  finish-kept :
      (code : ℕ) (status : TransportStatus) (r : Reply) (w : W)
      → P w
      → P (finish platform ctx code status r w).1
  unfolding finish
  finish-kept code status r w h =
      let got =
        receive_reply platform ctx status (Option.get_or r.reply_len 0) (Option.get_or r.reply [])
          w in
      let h₁ : P got.1 = receive_reply-kept platform ctx P kept status _ _ w h in
      let h₂ : P (clear_status platform ctx got.1).1 =
        clear_status-kept platform ctx P kept got.1 h₁ in
      let h₃ : P (clear_status platform ctx w).1 = clear_status-kept platform ctx P kept w h in
      ground arith

  -- A whole call keeps what the device, the sleep and the clock keep.
  pub nos_call_application-kept :
      (fuel : ℕ) (r : Reply) (w w' : W) (answer : ℕ × Reply)
      → P w
      → nos_call_application platform ctx fuel r w ≡ some (answer, w')
      → P w'
  unfolding nos_call_application
  nos_call_application-kept fuel r w w' answer h e =
      let undefined = decode_status (platform.uninitialised status_max_length) in
      elim (Option-cases (attempts platform ctx fuel crc_retry_count r 0 undefined w)) [
        | inl stuck ↦ ground arith
        | inr ((returned res, w₁), ends) ↦
            ground
              (arith, attempts-kept fuel crc_retry_count 0 r undefined w w₁ (returned res) h ends)
        | inr ((ended code status, w₁), ends) ↦
            let h₁ : P w₁ =
              attempts-kept fuel crc_retry_count 0 r undefined w w₁ (ended code status) h ends in
            ground (arith, finish-kept (hide_checksum code) status r w₁ h₁)
      ]
