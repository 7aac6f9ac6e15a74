-- ===== src/Transport/Receive.antt =====
-- `receive_reply` of transport.c.
pub mod Loop
pub mod Laws
pub mod Whole
use platform_external_nos_ho.Base.{
  ℕ, zero, suc, ◌+◌, ◌-◌, ◌%◌, ◌^◌, ◌<◌, min, bit_or, List, [], ◌++◌, M, ℤ, is_nonzero, not, ◌||◌,
  ◌==◌, take, drop, if◌then◌else◌, dite, dec_lt, Acc, lt_wf, arith,
}
use platform_external_nos_ho.Crc16.{crc16_update}
use platform_external_nos_ho.Application.AppStatus.{app_success, app_error_io}
use platform_external_nos_ho.Application.Command.{
  cmd_id, cmd_is_read, cmd_is_data, cmd_transport, cmd_more_to_come,
}
use platform_external_nos_ho.Application.Status.{TransportStatus, transport_v0}
use platform_external_nos_ho.Device.{Platform, max_device_transfer}
use platform_external_nos_ho.Transport.Context.{TransportContext, crc_retry_count}
use platform_external_nos_ho.Transport.Retry.{nos_device_read}

pub gimme-lt : (left : ℕ) → 0 < left → left - min left max_device_transfer < left
gimme-lt left h = omega arith

-- What the inner loop leaves: whether all reads succeeded, `crc`, `got`, and the bytes from where
-- `reply` pointed before the loop.
pub record Received : Type 0 where
  pub res : ℕ
  pub crc : ℕ
  pub got : ℕ
  pub bytes : List ℕ

-- What `receive_reply` leaves: its result, `*ctx->reply_len`, and the caller's buffer.
pub record ReplyResult : Type 0 where
  pub res : ℕ
  pub reply_len : ℕ
  pub bytes : List ℕ

module _ {W : Type 0} (platform : Platform W) (ctx : TransportContext W) where
  -- The `while (left)` loop. `buf` is the memory from `reply` on, so `reply += gimme` drops bytes.
  unfoldable pub receive_loop : ℕ → List ℕ → (left : ℕ) → Acc ◌<◌ left → ℕ → ℕ → M W Received
  receive_loop command buf left (Acc.intro _ smaller) got crc w =
      dite (dec_lt 0 left)
        (λ more.
          let gimme = min left max_device_transfer in
          let ((err, chunk), w') = nos_device_read platform ctx.dev command (take gimme buf) w in
          let (rest, w'') =
            receive_loop (bit_or command cmd_more_to_come) (drop gimme buf) (left - gimme)
              (smaller (left - gimme) (gimme-lt left more)) ((got + gimme) % 2 ^ 16)
              (crc16_update chunk crc) w' in
          if is_nonzero err
          then (
            record { res = app_error_io; crc = crc; got = got; bytes = chunk ++ drop gimme buf },
            w',
          )
          else (record rest { bytes = chunk ++ rest.bytes }, w''))
        (λ _. (record { res = app_success; crc = crc; got = got; bytes = buf }, w))

  abbrev pub reply_command : ℕ
  reply_command = bit_or (bit_or (bit_or (cmd_id ctx.app_id) cmd_is_read) cmd_transport) cmd_is_data

  -- `while (retries--)`
  unfoldable pub receive_tries : ℕ → TransportStatus → ℕ → List ℕ → M W ReplyResult
  receive_tries zero status reply_len buf w =
      (record { res = app_error_io; reply_len = reply_len; bytes = buf }, w)
  receive_tries (suc retries) status reply_len buf w =
      let left = min reply_len status.reply_len % 2 ^ 16 in
      let (r, w') = receive_loop reply_command buf left (lt_wf.apply left) 0 0 w in
      let again = receive_tries retries status r.got r.bytes w' in
      if not (r.res == app_success)
      then (record { res = app_error_io; reply_len = reply_len; bytes = r.bytes }, w')
      else if status.version == transport_v0 || r.crc == status.reply_crc
      then (record { res = app_success; reply_len = r.got; bytes = r.bytes }, w')
      else again

  unfoldable pub receive_reply : TransportStatus → ℕ → List ℕ → M W ReplyResult
  unfolding receive_tries
  receive_reply = receive_tries crc_retry_count
