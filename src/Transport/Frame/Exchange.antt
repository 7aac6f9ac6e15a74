-- ===== src/Transport/Frame/Exchange.antt =====
-- The properties that a request, the polling and a reply keep.
use platform_external_nos_ho.Base.{
  ℕ, zero, suc, ◌+◌, ◌-◌, ◌%◌, ◌^◌, ◌<◌, min, bit_or, List, is_nonzero, Option, some, take, drop,
  Acc, dec_lt, lt_wf, arith, Bool-cases, Option-cases, inl, inr, ◌≡◌, ◌==◌, ◌||◌,
}
use mathlib.Core.Logic.{dif_pos, dif_neg}
use native.Mathlib.Bridge.{le_prop}
use platform_external_nos_ho.Crc16.{crc16_update}
use platform_external_nos_ho.Application.AppStatus.{app_success}
use platform_external_nos_ho.Application.Command.{cmd_set_param, cmd_more_to_come}
use platform_external_nos_ho.Application.Status.{TransportStatus, transport_v0, encode_command_info}
use platform_external_nos_ho.Device.{Platform, Timespec, max_device_transfer}
use platform_external_nos_ho.Transport.Context.{
  TransportContext, Reply, crc_retry_count, poll_limit_seconds,
}
use platform_external_nos_ho.Transport.Retry.{nos_device_read, nos_device_write}
use platform_external_nos_ho.Transport.Status.{get_status}
use platform_external_nos_ho.Transport.Send.{
  bytes_at, advance, chunk-lt, send_loop, data_command, go_command, sent_len, command_info,
  send_command,
}
use platform_external_nos_ho.Transport.Poll.{poll_loop, poll_until_done}
use platform_external_nos_ho.Transport.Receive.{
  gimme-lt, receive_loop, reply_command, receive_tries, receive_reply,
}
use platform_external_nos_ho.Transport.Frame.{
  IsKept, nos_device_read-kept, nos_device_write-kept, get_status-kept,
}

module _ {W : Type 0} (platform : Platform W) (ctx : TransportContext W) (P : W → Type 0)
    (kept : IsKept platform ctx.dev P) where
  send_loop-kept :
      (command : ℕ) (args : Option (List ℕ)) (n : ℕ) (acc : Acc ◌<◌ n) (w : W)
      → P w
      → P (send_loop platform ctx command args n acc w).1
  unfolding send_loop
  send_loop-kept command args n (Acc.intro _ smaller) w h =
      let ulen = min n max_device_transfer in
      let command' = cmd_set_param command ulen in
      let (err, w') = nos_device_write platform ctx.dev command' (bytes_at args ulen) w in
      let once : P w' =
        nos_device_write-kept platform ctx.dev P kept command' (bytes_at args ulen) w h in
      elim (Bool-cases (is_nonzero err)) [
        | inl bad ↦ rw bad once
        | inr good ↦ rw good (elim (dec_lt 0 (n - ulen)) [
          | yes more ↦ rw (dif_pos (dec_lt 0 (n - ulen)) le_prop more) (
              send_loop-kept (bit_or command' cmd_more_to_come) (advance args ulen) (n - ulen)
                (smaller (n - ulen) (chunk-lt n more)) w' once)
          | no done ↦ rw (dif_neg (dec_lt 0 (n - ulen)) done) once
        ])
      ]

  pub send_command-kept : (r : Reply) (w : W) → P w → P (send_command platform ctx r w).1
  unfolding send_command
  send_command-kept r w h =
      let n = sent_len platform ctx in
      let sent = send_loop platform ctx (data_command platform ctx) ctx.args n (lt_wf.apply n) w in
      let info = encode_command_info (command_info platform ctx r) in
      let h₁ : P sent.1 =
        send_loop-kept (data_command platform ctx) ctx.args n (lt_wf.apply n) w h in
      let h₂ : P (nos_device_write platform ctx.dev (go_command platform ctx) info sent.1).1 =
        nos_device_write-kept platform ctx.dev P kept (go_command platform ctx) info sent.1 h₁ in
      ground arith

  receive_loop-kept :
      (command : ℕ) (buf : List ℕ) (left got crc : ℕ) (acc : Acc ◌<◌ left) (w : W)
      → P w
      → P (receive_loop platform ctx command buf left acc got crc w).1
  unfolding receive_loop
  receive_loop-kept command buf left got crc (Acc.intro _ smaller) w h = elim (dec_lt 0 left) [
    | no done ↦ rw (dif_neg (dec_lt 0 left) done) h
    | yes more ↦
        let gimme = min left max_device_transfer in
        let answer = nos_device_read platform ctx.dev command (take gimme buf) w in
        let once : P answer.1 =
          nos_device_read-kept platform ctx.dev P kept command (take gimme buf) w h in
        let later =
          receive_loop-kept (bit_or command cmd_more_to_come) (drop gimme buf) (left - gimme)
            ((got + gimme) % 2 ^ 16) (crc16_update answer.0.1 crc)
            (smaller (left - gimme) (gimme-lt left more)) answer.1 once in
        rw (dif_pos (dec_lt 0 left) le_prop more) (elim (Bool-cases (is_nonzero answer.0.0)) [
          | inl bad ↦ rw bad once
          | inr good ↦ rw good later
        ])
  ]

  receive_tries-kept :
      (retries : ℕ) (status : TransportStatus) (reply_len : ℕ) (buf : List ℕ) (w : W)
      → P w
      → P (receive_tries platform ctx retries status reply_len buf w).1
  unfolding receive_tries
  receive_tries-kept zero status reply_len buf w h = h
  receive_tries-kept (suc retries) status reply_len buf w h =
      let n = min reply_len status.reply_len % 2 ^ 16 in
      let looped =
        receive_loop platform ctx (reply_command platform ctx) buf n (lt_wf.apply n) 0 0 w in
      let r = looped.0 in
      let once : P looped.1 =
        receive_loop-kept (reply_command platform ctx) buf n 0 0 (lt_wf.apply n) w h in
      let again = receive_tries-kept retries status r.got r.bytes looped.1 once in
      elim (Bool-cases (r.res == app_success)) [
        | inr bad ↦ rw bad once
        | inl good ↦
            elim (Bool-cases (status.version == transport_v0 || r.crc == status.reply_crc)) [
              | inl done ↦ rw (good, done) once
              | inr wrong ↦ rw (good, wrong) again
            ]
      ]

  pub receive_reply-kept :
      (status : TransportStatus) (reply_len : ℕ) (buf : List ℕ) (w : W)
      → P w
      → P (receive_reply platform ctx status reply_len buf w).1
  unfolding receive_reply
  receive_reply-kept status reply_len buf w h =
      receive_tries-kept crc_retry_count status reply_len buf w h

  poll_loop-kept :
      (fuel : ℕ) (abort_at : Timespec) (w w' : W) (answer : ℕ × TransportStatus)
      → P w
      → poll_loop platform ctx fuel abort_at w ≡ some (answer, w')
      → P w'
  unfolding poll_loop
  poll_loop-kept zero abort_at w w' answer h e = cc
  poll_loop-kept (suc fuel) abort_at w w' answer h e =
      let w₁ = (get_status platform ctx w).1 in
      let w₂ = (platform.clock_gettime w₁).1 in
      let h₁ : P w₁ = get_status-kept platform ctx P kept w h in
      let h₂ : P w₂ = kept.timing w₁ h₁ in
      ground (arith, poll_loop-kept fuel abort_at w₂ w' answer h₂)

  pub poll_until_done-kept :
      (fuel : ℕ) (s₀ : TransportStatus) (w w' : W) (answer : ℕ × TransportStatus)
      → P w
      → poll_until_done platform ctx fuel s₀ w ≡ some (answer, w')
      → P w'
  unfolding poll_until_done
  poll_until_done-kept fuel s₀ w w' answer h e =
      let h₁ : P (platform.clock_gettime w).1 = kept.timing w h in
      elim (Option-cases (platform.clock_gettime w).0) [
        | inl fails ↦ ground (arith, rw (fails, poll_until_done) at e)
        | inr (now, shown) ↦
            poll_loop-kept fuel (record now { tv_sec = now.tv_sec + poll_limit_seconds }) _ w'
              answer h₁ (rw (shown, poll_until_done) at e)
      ]
