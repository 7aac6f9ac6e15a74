-- ===== src/Transport/Call/Runs.antt =====
-- Whole calls against a scripted device: the cases of libnos_transport/test/test.cpp.
pub mod Delivered
use platform_external_nos_ho.Base.{
  ℕ, List, [], ◌∷◌, ℤ, pos, negsuc, Option, none, some, ◌≡◌, ◌≢◌, ◌<◌, ◌^◌, refl, map, replicate,
  arith, dec_lt, lt_wf,
}
use platform_external_nos_ho.Crc16.{crc16}
use platform_external_nos_ho.Application.Status.{clear_crc, encode_command_info, le16, le32}
use platform_external_nos_ho.Application.AppStatus.{app_status_code}
use platform_external_nos_ho.Transport.Retry.{nos_device_read, nos_device_write}
use platform_external_nos_ho.Transport.Status.{get_status, clear_status}
use platform_external_nos_ho.Transport.Ready.{make_ready}
use platform_external_nos_ho.Transport.Send.{
  send_command, send_loop, command_info, bytes_at, advance,
}
use platform_external_nos_ho.Transport.Poll.{poll_until_done, progress, timespec_before}
use platform_external_nos_ho.Transport.Receive.{receive_reply, receive_loop}
use platform_external_nos_ho.Transport.Call.{finish, hide_checksum, invalid_args}
use platform_external_nos_ho.Application.AppStatus.{
  app_success, app_error_io, app_error_busy, app_error_internal, app_error_checksum,
}
use platform_external_nos_ho.Application.Status.{TransportStatus, encode_status, decode_status}
use platform_external_nos_ho.Application.Command.{cmd_id, cmd_param, cmd_set_param}
use platform_external_nos_ho.Transport.Context.{TransportContext, Reply}
use platform_external_nos_ho.Transport.Script.{Script, scripted, linux}
use platform_external_nos_ho.Transport.Script.Laws.{scripted-IsDevice, scripted_clock}
use platform_external_nos_ho.Transport.Call.{nos_call_application}
use platform_external_nos_ho.Base.{◌++◌, ◌⊎◌, inl, inr, drop}
use platform_external_nos_ho.Application.Status.Layout.{IsStatus}
use platform_external_nos_ho.Transport.Script.{fill}
use platform_external_nos_ho.Transport.Send.{unsigned_info}
use platform_external_nos_ho.Transport.Send.Plan.{chunks, datagrams, write_all}
use platform_external_nos_ho.Transport.Send.Laws.{data_part, request}
use platform_external_nos_ho.Transport.Call.Memory.{given}
use platform_external_nos_ho.Transport.Call.Steps.{IsSigned}
use platform_external_nos_ho.Transport.Call.Delivery.{Conversation, nos_call_application_delivers}
use platform_external_nos_ho.Transport.Call.Laws.{
  nos_call_application_code, nos_call_application_returns,
}
use platform_external_nos_ho.Transport.Call.Memory.{IsSafe, nos_call_application-IsSafe}

abbrev context : ℕ → Option (List ℕ) → ℕ → TransportContext Script
context params args arg_len = record {
  dev = scripted;
  app_id = 0x12;
  params = params;
  args = args;
  arg_len = arg_len;
}

abbrev no_reply : Reply
no_reply = record { reply = none; reply_len = none }

abbrev buffer : Reply
buffer = record { reply = some (7 ∷ 7 ∷ 7 ∷ 7 ∷ 7 ∷ []); reply_len = some 5 }

-- A status message of version 1, with its checksum.
signed : ℕ → ℕ → ℕ → ℕ → ℤ × List ℕ
signed status reply_len flags reply_crc =
    let s : TransportStatus = record {
      status = status;
      reply_len = reply_len;
      length = 16;
      version = 1;
      flags = flags;
      crc = 0;
      reply_crc = reply_crc;
    } in
    (pos 0, encode_status (record s { crc = crc16 (encode_status s) }))

abbrev idle : ℤ × List ℕ
idle = signed 0 0 0 0

abbrev working : ℤ × List ℕ
working = signed 0 0 1 0

abbrev asleep : ℤ × List ℕ
asleep = (negsuc 10, [])

abbrev pub start : List (ℤ × List ℕ) → Script
start answers = record { answers = answers; written = []; seconds = 100 }

-- The result, the caller's reply, and the commands written.
abbrev outcome : Option ((ℕ × Reply) × Script) → Option (ℕ × Reply × List ℕ)
outcome none = none
outcome (some ((res, r), w)) = some (res, r, map (λ d. d.0) w.written)

run : TransportContext Script → Reply → Script → Option (ℕ × Reply × List ℕ)
unfolding nos_call_application finish hide_checksum invalid_args make_ready get_status clear_status
    send_command send_loop command_info bytes_at advance poll_until_done progress timespec_before
    receive_reply receive_loop nos_device_read nos_device_write crc16 decode_status encode_status
    clear_crc encode_command_info le16 le32 cmd_id cmd_param cmd_set_param app_status_code dec_lt
    lt_wf scripted linux signed
run ctx r w = outcome (nos_call_application linux ctx 100 r w)

-- `SuccessWithReply`, with a device that sleeps at first.
success_with_reply :
    run (context 8 none 0) buffer (
      start (
        asleep
        ∷ idle
        ∷ working
        ∷ signed 0x80000000 4 0 (crc16 (4 ∷ 3 ∷ 2 ∷ 1 ∷ []))
        ∷ (pos 0, 4 ∷ 3 ∷ 2 ∷ 1 ∷ [])
        ∷ []))
    ≡ some (
      app_success,
      record { reply = some (4 ∷ 3 ∷ 2 ∷ 1 ∷ 7 ∷ []); reply_len = some 4 },
      0x60120000 ∷ 0x00120008 ∷ 0x40120000 ∷ [],
    )
unfolding run
success_with_reply = refl

abbrev reply : List (ℤ × List ℕ)
reply = idle ∷ signed 0x80000000 4 0 (crc16 (4 ∷ 3 ∷ 2 ∷ 1 ∷ [])) ∷ (pos 0, 4 ∷ 3 ∷ 2 ∷ 1 ∷ []) ∷ []

-- A sleeping device times out, and nothing is written.
asleep_times_out :
    run (context 8 none 0) no_reply (start (replicate 240 asleep))
    ≡ some (app_error_io, no_reply, [])
unfolding run
asleep_times_out = refl

-- An app at work is busy.
busy : run (context 8 none 0) no_reply (start (working ∷ [])) ≡ some (app_error_busy, no_reply, [])
unfolding run
busy = refl

-- An app that was idle, took the command, and is neither done nor at work.
stopped :
    run (context 8 none 0) no_reply (start (idle ∷ idle ∷ []))
    ≡ some (app_error_internal, no_reply, 0x60120000 ∷ 0x00120008 ∷ 0x40120000 ∷ [])
unfolding run
stopped = refl

-- A message of version 1 with a wrong checksum.
abbrev corrupt : ℤ × List ℕ
corrupt = (pos 0, 0 ∷ 0 ∷ 0 ∷ 0 ∷ 0 ∷ 0 ∷ 16 ∷ 0 ∷ 1 ∷ 0 ∷ 0 ∷ 0 ∷ 7 ∷ 7 ∷ 0 ∷ 0 ∷ [])

-- A status with a wrong checksum is read again.
corrupt_status :
    run (context 8 none 0) no_reply (start (corrupt ∷ idle ∷ signed 0x80000000 0 0 0 ∷ []))
    ≡ some (app_success, no_reply, 0x60120000 ∷ 0x00120008 ∷ 0x40120000 ∷ [])
unfolding run
corrupt_status = refl

-- The command is sent again after APP_ERROR_CHECKSUM.
checksum_retry :
    run
      (context 8 none 0)
      no_reply
      (start (idle ∷ signed 0x80000006 0 0 0 ∷ idle ∷ signed 0x80000000 0 0 0 ∷ []))
    ≡ some
        (app_success, no_reply, 0x60120000 ∷ 0x00120008 ∷ 0x60120000 ∷ 0x00120008 ∷ 0x40120000 ∷ [])
unfolding run
checksum_retry = refl

-- A length without arguments reaches no device.
null_args : run (context 8 none 3) no_reply (start []) ≡ some (app_error_io, no_reply, [])
unfolding run
null_args = refl

abbrev answered : Reply
answered = record { reply = some (4 ∷ 3 ∷ 2 ∷ 1 ∷ 7 ∷ []); reply_len = some 4 }

abbrev pub after : Script
after = record {
  answers = [];
  written =
      (0x60120000, [])
      ∷ (0x00120008, 8 ∷ 0 ∷ 1 ∷ 0 ∷ 192 ∷ 52 ∷ 5 ∷ 0 ∷ [])
      ∷ (0x40120000, [])
      ∷ [];
  seconds = 101;
}

-- The whole outcome of a call with a reply.
called :
    nos_call_application linux (context 8 none 0) 100 buffer (start reply)
    ≡ some ((app_success, answered), after)
unfolding nos_call_application finish hide_checksum invalid_args make_ready get_status clear_status
    send_command send_loop command_info bytes_at advance poll_until_done progress timespec_before
    receive_reply receive_loop nos_device_read nos_device_write crc16 decode_status encode_status
    clear_crc encode_command_info le16 le32 cmd_id cmd_param cmd_set_param app_status_code dec_lt
    lt_wf scripted linux signed
called = refl

nos_call_application_code_example : (app_success < 2 ^ 31) × (app_success ≢ app_error_checksum)
nos_call_application_code_example =
    nos_call_application_code linux (context 8 none 0) 100 app_success buffer answered (start reply)
      after called

nos_call_application_returns_example :
    (answer : (ℕ × Reply) × Script) × (nos_call_application linux
        (context 8 none 0)
        60000000001
        buffer
        (start reply)
      ≡ some answer)
nos_call_application_returns_example =
    nos_call_application_returns linux (context 8 none 0) scripted_clock 60000000001 (omega arith)
      buffer (start reply)

nos_call_application-IsSafe_example : IsSafe (7 ∷ 7 ∷ 7 ∷ 7 ∷ 7 ∷ []) 5 answered
nos_call_application-IsSafe_example =
    nos_call_application-IsSafe linux (context 8 none 0) scripted-IsDevice (7 ∷ 7 ∷ 7 ∷ 7 ∷ 7 ∷ [])
      5 (omega arith) 100 app_success answered (start reply) after called
