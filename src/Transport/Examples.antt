-- ===== src/Transport/Examples.antt =====
-- The theorems of the transport at inputs of a scripted device.
use platform_external_nos_ho.Base.{
  ℕ, zero, suc, ◌≡◌, refl, List, [], ◌∷◌, ◌++◌, ℤ, pos, negsuc, some, arith, take, All, replicate,
}
use platform_external_nos_ho.Crc16.{crc16}
use platform_external_nos_ho.Application.AppStatus.{app_success, app_status_code}
use platform_external_nos_ho.Application.Status.{
  TransportStatus, encode_status, decode_status, clear_crc, encode_command_info, le16, le32,
}
use platform_external_nos_ho.Application.Status.Layout.{IsStatus}
use platform_external_nos_ho.Transport.Context.{TransportContext, Reply}
use platform_external_nos_ho.Transport.Script.{Script, scripted, linux, fill}
use platform_external_nos_ho.Transport.Script.Laws.{scripted-IsDevice}
use platform_external_nos_ho.Transport.Retry.{nos_device_read}
use platform_external_nos_ho.Transport.Retry.Laws.{slept, Asleep, nos_device_read_awake}
use platform_external_nos_ho.Transport.Status.{get_status}
use platform_external_nos_ho.Transport.Status.Laws.{
  IsGenuine, get_status-IsGenuine, get_status-encode_status,
}
use platform_external_nos_ho.Transport.Ready.{make_ready}
use platform_external_nos_ho.Transport.Ready.Laws.{IsIdle, make_ready-IsIdle}
use platform_external_nos_ho.Transport.Send.{send_command, go_command, command_info}
use platform_external_nos_ho.Transport.Send.Plan.{payload, write_all, IsData}
use platform_external_nos_ho.Transport.Send.Laws.{data_part, request, send_command-request}
use platform_external_nos_ho.Transport.Poll.{timespec_before, progress, poll_until_done}
use platform_external_nos_ho.Transport.Poll.Laws.{PollEnd, poll_until_done_end}
use platform_external_nos_ho.Transport.Receive.{receive_reply}
use platform_external_nos_ho.Transport.Receive.Laws.{IsReceived, receive_reply-IsReceived}

abbrev context : TransportContext Script
context = record {
  dev = scripted;
  app_id = 0x12;
  params = 8;
  args = some (1 ∷ 2 ∷ 3 ∷ []);
  arg_len = 3;
}

abbrev buffer : Reply
buffer = record { reply = some (7 ∷ 7 ∷ 7 ∷ 7 ∷ 7 ∷ []); reply_len = some 5 }

abbrev start : List (ℤ × List ℕ) → Script
start answers = record { answers = answers; written = []; seconds = 100 }

abbrev asleep : ℤ × List ℕ
asleep = (negsuc 10, [])

nos_device_read_awake_example :
    nos_device_read linux scripted 0 (7 ∷ 7 ∷ []) (start (asleep ∷ (pos 0, 9 ∷ []) ∷ []))
    ≡ ((pos 0, 9 ∷ 7 ∷ []), start [])
unfolding slept scripted linux
nos_device_read_awake_example =
    nos_device_read_awake linux scripted 0 1 (7 ∷ 7 ∷ []) (start (asleep ∷ (pos 0, 9 ∷ []) ∷ []))
      (omega arith) (refl, tt) (λ e. cc)

replicate-Asleep : (n : ℕ) → Asleep linux scripted 0 n (7 ∷ []) (start (replicate n asleep))
unfolding linux scripted
replicate-Asleep zero = tt
replicate-Asleep (suc n) = (refl, replicate-Asleep n)

receive_reply-IsReceived_example :
    IsReceived
      (decode_status [])
      1
      (7 ∷ 7 ∷ [])
      (receive_reply linux context (decode_status []) 1 (7 ∷ 7 ∷ []) (start [])).0
receive_reply-IsReceived_example =
    receive_reply-IsReceived linux context scripted-IsDevice (decode_status []) 1 (7 ∷ 7 ∷ [])
      (start []) (omega arith)

send_command-request_example :
    (send_command linux context buffer (start [])
      ≡ write_all linux context (request linux context buffer) (start []))
    × (request linux context buffer
        ≡ data_part linux context
          ++ ((go_command linux context, encode_command_info (command_info linux context buffer))
              ∷ []))
    × (payload (data_part linux context) ≡ take 3 (1 ∷ 2 ∷ 3 ∷ []))
    × All (IsData 0x12) (data_part linux context)
send_command-request_example =
    send_command-request linux context buffer (start []) (omega arith) (omega arith)

abbrev idle : TransportStatus
idle = record {
  status = 0;
  reply_len = 0;
  length = 16;
  version = 1;
  flags = 0;
  crc = 0x54C1;
  reply_crc = 0;
}

idle-IsStatus : IsStatus idle
idle-IsStatus = record {
  status_fits = omega arith;
  reply_len_fits = omega arith;
  length_fits = omega arith;
  version_fits = omega arith;
  flags_fit = omega arith;
  crc_fits = omega arith;
  reply_crc_fits = omega arith;
}

abbrev idle_answer : Script
idle_answer = start ((pos 0, encode_status idle) ∷ [])

idle_sum : idle.crc ≡ crc16 (encode_status (record idle { crc = 0 }))
unfolding crc16 encode_status le16 le32
idle_sum = refl

idle_read : get_status linux context idle_answer ≡ ((pos 0, idle), start [])
unfolding scripted linux fill encode_status le16 le32
idle_read =
    get_status-encode_status linux context idle idle_answer (start []) (omega arith) idle-IsStatus
      refl idle_sum refl

get_status-IsGenuine_example : IsGenuine linux context idle (start [])
get_status-IsGenuine_example =
    get_status-IsGenuine linux context idle idle_answer (start []) idle_read

idle_ready : make_ready linux context idle_answer ≡ (app_success, start [])
unfolding make_ready get_status nos_device_read scripted linux decode_status encode_status clear_crc
    crc16 le16 le32
idle_ready = refl

make_ready-IsIdle_example : IsIdle linux context (start [])
make_ready-IsIdle_example = make_ready-IsIdle linux context idle_answer (start []) idle_ready

-- The app is still at work when the clock has gone on by a second, and is done at the next look.
abbrev at_work : TransportStatus
at_work = record idle {
  flags = 1;
  crc = crc16 (encode_status (record idle { flags = 1; crc = 0 }));
}

abbrev done : TransportStatus
done = record idle { status = 0x80000000; crc = 0x6881 }

abbrev two_looks : Script
two_looks = start ((pos 0, encode_status at_work) ∷ (pos 0, encode_status done) ∷ [])

polled :
    poll_until_done linux context 5 idle two_looks
    ≡ some ((app_success, done), record { answers = []; written = []; seconds = 102 })
unfolding poll_until_done progress timespec_before get_status nos_device_read scripted linux
    decode_status encode_status clear_crc crc16 le16 le32 app_status_code
polled = refl

poll_until_done_end_example : PollEnd linux context app_success done
poll_until_done_end_example =
    poll_until_done_end linux context 5 idle done two_looks
      (record { answers = []; written = []; seconds = 102 }) app_success polled
