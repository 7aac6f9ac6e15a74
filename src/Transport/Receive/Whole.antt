-- ===== src/Transport/Receive/Whole.antt =====
-- `receive_reply` on a reply of one datagram.
use platform_external_nos_ho.Base.{
  ℕ, suc, ◌+◌, ◌-◌, ◌%◌, ◌^◌, ◌≤◌, ◌<◌, ◌≡◌, refl, ap, ap₂, ◌∙◌, List, ◌++◌, pos, ◌==◌, ◌||◌, arith,
  length, take, drop, min, Acc, lt_wf, dec_lt, true, bit_or,
}
use mathlib.Core.Logic.{dif_pos, dif_neg}
use native.Mathlib.Bridge.{le_prop}
use platform_external_nos_ho.Crc16.{crc16, crc16_update}
use platform_external_nos_ho.Application.AppStatus.{app_success}
use platform_external_nos_ho.Application.Status.{TransportStatus, transport_v0}
use platform_external_nos_ho.Application.Command.{cmd_more_to_come}
use platform_external_nos_ho.Device.{Platform, max_device_transfer}
use platform_external_nos_ho.Transport.Context.{TransportContext}
use platform_external_nos_ho.Transport.Retry.{nos_device_read}
use platform_external_nos_ho.Transport.Retry.Laws.{nos_device_read_first}
use platform_external_nos_ho.Transport.Status.{}
use platform_external_nos_ho.Transport.Receive.{
  gimme-lt, receive_loop, reply_command, receive_tries, receive_reply,
}
use platform_external_nos_ho.Transport.Call.{}

module _ {W : Type 0} (platform : Platform W) (ctx : TransportContext W)
    (epos : 0 < platform.eagain) where
  receive_loop_done :
      (command : ℕ) (buf : List ℕ) (left got crc : ℕ) (acc : Acc ◌<◌ left) (w : W)
      → left ≡ 0
      → receive_loop platform ctx command buf left acc got crc w
        ≡ (record { res = app_success; crc = crc; got = got; bytes = buf }, w)
  unfolding receive_loop
  receive_loop_done command buf left got crc (Acc.intro _ smaller) w none_left =
      rw (dif_neg (dec_lt 0 left) (λ more. absurd (omega arith))) refl

  -- A reply of one datagram.
  receive_loop_step :
      (buf answer : List ℕ) (left : ℕ) (acc : Acc ◌<◌ left) (w w' : W)
      → left ≡ length answer
      → 0 < length answer
      → length answer ≤ max_device_transfer
      → ctx.dev.read (reply_command platform ctx) (take (length answer) buf) w
        ≡ ((pos 0, answer), w')
      → receive_loop platform ctx (reply_command platform ctx) buf left acc 0 0 w ≡ (
        record {
          res = app_success;
          crc = crc16 answer;
          got = length answer;
          bytes = answer ++ drop (length answer) buf;
        },
        w',
      )
  unfolding receive_loop crc16
  receive_loop_step buf answer left (Acc.intro _ smaller) w w' same some_left one e =
      let gimme = min left max_device_transfer in
      let more : 0 < left = omega arith in
      let all_asked : gimme ≡ length answer = omega arith in
      let all_got : (0 + gimme) % 2 ^ 16 ≡ length answer = omega arith in
      let read : nos_device_read platform ctx.dev (reply_command platform ctx) (take gimme buf) w
          ≡ ((pos 0, answer), w') =
        ap (λ k. nos_device_read platform ctx.dev (reply_command platform ctx) (take k buf) w)
          all_asked
        ∙ nos_device_read_first platform ctx.dev (reply_command platform ctx) _ answer w w' epos
            e in
      rw
        (
          dif_pos (dec_lt 0 left) le_prop more,
          read,
          receive_loop_done (bit_or (reply_command platform ctx) cmd_more_to_come) (drop gimme buf)
              (left - gimme) ((0 + gimme) % 2 ^ 16) (crc16_update answer 0)
              (smaller (left - gimme) (gimme-lt left more)) w' (omega arith),
        )
        (ap₂
          (λ g k. (
            record {
              res = app_success;
              crc = crc16_update answer 0;
              got = g;
              bytes = answer ++ drop k buf;
            },
            w',
          ))
          all_got all_asked)

  receive_tries_step :
      (retries : ℕ) (status : TransportStatus) (buf answer : List ℕ) (len : ℕ) (w w' : W)
      → status.reply_len ≡ length answer
      → status.reply_crc ≡ crc16 answer
      → 0 < length answer
      → length answer ≤ max_device_transfer
      → length answer ≤ len
      → ctx.dev.read (reply_command platform ctx) (take (length answer) buf) w
        ≡ ((pos 0, answer), w')
      → receive_tries platform ctx (suc retries) status len buf w ≡ (
        record {
          res = app_success;
          reply_len = length answer;
          bytes = answer ++ drop (length answer) buf;
        },
        w',
      )
  unfolding receive_tries
  receive_tries_step retries status buf answer len w w' same sum some_left one fits e =
      let right : (status.version == transport_v0 || crc16 answer == status.reply_crc) ≡ true =
        ground (arith, sum) in
      let left = min len status.reply_len % 2 ^ 16 in
      rw
        (
          receive_loop_step buf answer left (lt_wf.apply left) w w' (omega arith) some_left one e,
          right,
        )
        refl

  pub receive_step :
      (status : TransportStatus) (buf answer : List ℕ) (len : ℕ) (w w' : W)
      → status.reply_len ≡ length answer
      → status.reply_crc ≡ crc16 answer
      → 0 < length answer
      → length answer ≤ max_device_transfer
      → length answer ≤ len
      → ctx.dev.read (reply_command platform ctx) (take (length answer) buf) w
        ≡ ((pos 0, answer), w')
      → receive_reply platform ctx status len buf w ≡ (
        record {
          res = app_success;
          reply_len = length answer;
          bytes = answer ++ drop (length answer) buf;
        },
        w',
      )
  unfolding receive_reply
  receive_step status buf answer len w w' same sum some_left one fits e =
      receive_tries_step 4 status buf answer len w w' same sum some_left one fits e
