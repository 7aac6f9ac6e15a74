-- ===== src/Transport/Call.antt =====
-- `nos_call_application` of transport.c.
pub mod Laws
pub mod Memory
pub mod Steps
pub mod Delivery
pub mod Runs
use mathlib.Core.Option
use platform_external_nos_ho.Base.{
  ℕ, zero, suc, Bool, true, false, List, [], M, ◌==◌, ◌&&◌, ◌||◌, not, Option, none, some,
  if◌then◌else◌,
}
use platform_external_nos_ho.Application.AppStatus.{
  app_success, app_error_io, app_error_too_much, app_error_checksum,
}
use platform_external_nos_ho.Application.Status.{TransportStatus, decode_status, status_max_length}
use platform_external_nos_ho.Device.{Platform}
use platform_external_nos_ho.Transport.Context.{
  TransportContext, Reply, crc_retry_count, retry_wait_time_us,
}
use platform_external_nos_ho.Transport.Status.{clear_status}
use platform_external_nos_ho.Transport.Ready.{make_ready}
use platform_external_nos_ho.Transport.Send.{send_command}
use platform_external_nos_ho.Transport.Poll.{poll_until_done}
use platform_external_nos_ho.Transport.Receive.{ReplyResult, receive_reply}

-- How the loop over the attempts ends: by `return res`, or with `status_code` and `status`.
pub data Attempts : Type 0 where
  returned : ℕ → Attempts
  ended : ℕ → TransportStatus → Attempts

abbrev pub is_null {ℓ} : {A : Type ℓ} → Option A → Bool
is_null none = true
is_null (some a) = false

-- `ctx.reply_len && *ctx.reply_len`
abbrev pub wants_reply : Reply → Bool
wants_reply r = elim r.reply_len [ none ↦ false | some len ↦ not (len == 0) ]

-- The condition of "Invalid args".
unfoldable pub invalid_args : {W : Type 0} → TransportContext W → Reply → Bool
invalid_args ctx r =
    (not (ctx.arg_len == 0) && is_null ctx.args) || (wants_reply r && is_null r.reply)

-- `if (status_code == APP_ERROR_CHECKSUM) status_code = APP_ERROR_IO;`
unfoldable pub hide_checksum : ℕ → ℕ
hide_checksum code = if code == app_error_checksum then app_error_io else code

module _ {W : Type 0} (platform : Platform W) (ctx : TransportContext W) where
  -- `while (retries--)`, with the fuel of each attempt's poll loop.
  unfoldable pub attempts : ℕ → ℕ → Reply → ℕ → TransportStatus → W → Option (Attempts × W)
  attempts fuel zero r status_code status w = some (ended status_code status, w)
  attempts fuel (suc retries) r status_code status w =
      let (ready, w₁) = make_ready platform ctx w in
      let (sent, w₂) = send_command platform ctx r w₁ in
      let polled : Option (Attempts × W) = elim (poll_until_done platform ctx fuel status w₂) [
        | none ↦ none
        | some ((code, status'), w₃) ↦
            let after_wait =
              attempts fuel retries r code status' (platform.usleep retry_wait_time_us w₃) in
            let again = attempts fuel retries r code status' w₃ in
            if code == app_error_too_much
            then after_wait
            else if not (code == app_error_checksum)
            then some (ended code status', w₃)
            else again
      ] in
      if not (ready == app_success)
      then some (returned ready, w₁)
      else if not (sent == app_success)
      then some (returned sent, w₂)
      else polled

  -- Behind the loop: fetch the reply if there is one and it is wanted, and clear the status.
  unfoldable pub finish : ℕ → TransportStatus → Reply → M W (ℕ × Reply)
  finish code status r w =
      let (got, w₁) =
        receive_reply platform ctx status (Option.get_or r.reply_len 0) (Option.get_or r.reply [])
          w in
      let fetched : Reply = record { reply = some got.bytes; reply_len = some got.reply_len } in
      let (_, w₂) = clear_status platform ctx w₁ in
      let unfetched = record r { reply_len = Option.map (λ _. 0) r.reply_len } in
      let (_, w₃) = clear_status platform ctx w in
      if not (is_null r.reply) && wants_reply r && not (status.reply_len == 0)
      then (if not (got.res == app_success)
          then ((got.res, fetched), w₁)
          else ((code, fetched), w₂))
      else ((code, unfetched), w₃)

  -- The result with the caller's buffer and length; `none` is a poll loop that ran out of fuel.
  -- `status` holds what its memory held, until the first poll writes it.
  unfoldable pub nos_call_application : ℕ → Reply → W → Option ((ℕ × Reply) × W)
  unfolding attempts
  nos_call_application fuel r w =
      let undefined = decode_status (platform.uninitialised status_max_length) in
      let answer : Option ((ℕ × Reply) × W) = elim (attempts fuel crc_retry_count r 0 undefined w) [
        | none ↦ none
        | some (returned res, w') ↦ some ((res, r), w')
        | some (ended code status, w') ↦ some (finish (hide_checksum code) status r w')
      ] in
      if invalid_args ctx r then some ((app_error_io, r), w) else answer
