-- ===== src/Transport/Call/Steps.antt =====
-- The steps of a call whose device does its part.
use platform_external_nos_ho.Base.{
  ℕ, suc, ◌+◌, ◌^◌, ◌≤◌, ◌<◌, ◌≡◌, ◌≢◌, ◌∙◌, List, [], ◌++◌, some, pos, arith, length, drop,
  bit_and, false,
}
use platform_external_nos_ho.Base.Bits.{bit_and_split, bit_and-zero, bit_and_mask}
use platform_external_nos_ho.Crc16.{crc16}
use platform_external_nos_ho.Application.AppStatus.{
  app_success, app_status_idle, app_status_done, app_status_code, app_error_too_much,
  app_error_checksum,
}
use platform_external_nos_ho.Application.Status.{TransportStatus, encode_status, status_max_length}
use platform_external_nos_ho.Application.Status.Layout.{IsStatus}
use platform_external_nos_ho.Device.{Platform, Timespec}
use platform_external_nos_ho.Transport.Context.{TransportContext, Reply}
use platform_external_nos_ho.Transport.Retry.Laws.{nos_device_write_first}
use platform_external_nos_ho.Transport.Status.{
  status_command, clear_command, get_status, clear_status,
}
use platform_external_nos_ho.Transport.Status.Laws.{get_status-encode_status}
use platform_external_nos_ho.Transport.Ready.{make_ready, is_working}
use platform_external_nos_ho.Transport.Send.{send_command}
use platform_external_nos_ho.Transport.Poll.{progress, poll_until_done}
use platform_external_nos_ho.Transport.Receive.{receive_reply}
use platform_external_nos_ho.Transport.Call.{ended, attempts, finish}
use platform_external_nos_ho.Transport.Call.Memory.{given}

-- A v1 status message of full length with the right checksum.
pub record IsSigned (s : TransportStatus) : Type 0 where
  pub fits : IsStatus s
  pub full : s.length ≡ 16
  pub sum : s.crc ≡ crc16 (encode_status (record s { crc = 0 }))

pub done_bit : (code : ℕ) → code < 2 ^ 31 → bit_and (2 ^ 31 + code) app_status_done ≡ 2 ^ 31
done_bit code h = bit_and_split 31 1 1 code 0 h (omega arith) ∙ omega (arith, bit_and-zero code)

pub done_code : (code : ℕ) → code < 2 ^ 31 → app_status_code (2 ^ 31 + code) ≡ code
unfolding app_status_code
done_code code h = bit_and_mask 31 (2 ^ 31 + code) ∙ omega arith

module _ {W : Type 0} (platform : Platform W) (ctx : TransportContext W)
    (epos : 0 < platform.eagain) where
  pub signed-get_status :
      (s : TransportStatus) (w w' : W)
      → IsSigned s
      → ctx.dev.read (status_command platform ctx) (platform.uninitialised status_max_length) w
        ≡ ((pos 0, encode_status s), w')
      → get_status platform ctx w ≡ ((pos 0, s), w')
  signed-get_status s w w' h = get_status-encode_status platform ctx s w w' epos h.fits h.full h.sum

  pub ready_step :
      (s : TransportStatus) (w w' : W)
      → get_status platform ctx w ≡ ((pos 0, s), w')
      → s.status ≡ app_status_idle
      → is_working s ≡ false
      → make_ready platform ctx w ≡ (app_success, w')
  unfolding make_ready
  ready_step s w w' e idle rests = ground arith

  pub poll_step :
      (fuel code : ℕ) (s s₀ : TransportStatus) (now : Timespec) (w w₁ w₂ : W)
      → code < 2 ^ 31
      → platform.clock_gettime w ≡ (some now, w₁)
      → get_status platform ctx w₁ ≡ ((pos 0, s), w₂)
      → s.status ≡ 2 ^ 31 + code
      → poll_until_done platform ctx (suc fuel) s₀ w ≡ some ((code, s), w₂)
  unfolding poll_until_done progress
  poll_step fuel code s s₀ now w w₁ w₂ h clock e done =
      ground (arith, done_bit code h, done_code code h)

  pub clear_step :
      (w w' : W)
      → ctx.dev.write (clear_command platform ctx) [] w ≡ (pos 0, w')
      → clear_status platform ctx w ≡ (pos 0, w')
  unfolding clear_status
  clear_step w w' e =
      rw (nos_device_write_first platform ctx.dev (clear_command platform ctx) [] w w' epos e)

  -- The loop over the attempts is left by the first one.
  pub attempts_step :
      (fuel retries code code₀ : ℕ) (r : Reply) (s₀ s : TransportStatus) (w w₁ w₂ w₃ : W)
      → make_ready platform ctx w ≡ (app_success, w₁)
      → send_command platform ctx r w₁ ≡ (app_success, w₂)
      → poll_until_done platform ctx fuel s₀ w₂ ≡ some ((code, s), w₃)
      → code ≢ app_error_too_much
      → code ≢ app_error_checksum
      → attempts platform ctx fuel (suc retries) r code₀ s₀ w ≡ some (ended code s, w₃)
  unfolding attempts
  attempts_step fuel retries code code₀ r s₀ s w w₁ w₂ w₃ ready sent polled much checksum =
      rw (ready, sent, polled) (ground arith)

  pub finish_step :
      (code : ℕ) (status : TransportStatus) (buf answer : List ℕ) (len : ℕ) (w w₁ w' : W)
      → status.reply_len ≡ length answer
      → 0 < length answer
      → length answer ≤ len
      → receive_reply platform ctx status len buf w ≡ (
        record {
          res = app_success;
          reply_len = length answer;
          bytes = answer ++ drop (length answer) buf;
        },
        w₁,
      )
      → clear_status platform ctx w₁ ≡ (pos 0, w')
      → finish platform ctx code status (given buf len) w
        ≡ ((code, given (answer ++ drop (length answer) buf) (length answer)), w')
  unfolding finish
  finish_step code status buf answer len w w₁ w' same some_left fits received cleared =
      ground (arith, received, cleared)
