-- ===== src/Client/Examples.antt =====
-- Clients over the scripted device.
use platform_external_nos_ho.Base.{[], ◌∷◌, none, some, pos, ◌≡◌, refl, drop, arith}
use platform_external_nos_ho.Application.AppStatus.{app_error_io, app_error_not_ready}
use platform_external_nos_ho.Crc16.{crc16}
use platform_external_nos_ho.Application.Command.{cmd_id, cmd_param}
use platform_external_nos_ho.Application.Status.{encode_command_info, encode_status, le16, le32}
use platform_external_nos_ho.Transport.Retry.{nos_device_write}
use platform_external_nos_ho.Transport.Send.{command_info, bytes_at, unsigned_info}
use platform_external_nos_ho.Transport.Send.Plan.{chunks, datagrams, write_all}
use platform_external_nos_ho.Transport.Send.Laws.{data_part, request}
use platform_external_nos_ho.Transport.Script.{Script, scripted, linux, fill}
use platform_external_nos_ho.Transport.Script.Laws.{scripted-IsDevice}
use platform_external_nos_ho.Transport.Call.Delivery.{Conversation}
use platform_external_nos_ho.Transport.Call.Runs.{start, after}
use platform_external_nos_ho.Transport.Call.Runs.Delivered.{
  four, answers, sent, idle_status, done_status, idle_IsSigned, done_IsSigned,
}
use platform_external_nos_ho.Client.Vector.{Vector, resize}
use platform_external_nos_ho.Client.Host.{Host, OpenDevice}
use platform_external_nos_ho.Client.Nugget.{
  NuggetClient, nugget_client, request_context, open_client, device_of, call_app, reset_client,
}
use platform_external_nos_ho.Client.Nugget.Calls.{Bounded, call_app-Bounded, call_app_delivers}
use platform_external_nos_ho.Client.Debuggable.{NuggetClientDebuggable, nugget_client_debuggable}

abbrev pub device : OpenDevice Script
device = record {
  device = scripted;
  wait_for_interrupt = λ msecs w. some (pos 0, w);
  reset = λ w. (pos 0, w);
  close = λ w. w;
}

abbrev pub host : Host Script
host = record { platform = linux; nos_device_open = λ name w. ((pos 0, some device), w) }

abbrev pub client : NuggetClient Script
client = (open_client host (nugget_client none 0) (start answers)).0

abbrev pub room : Vector
room = record { bytes = []; capacity = 5 }

pub talk :
    Conversation host.platform
      (request_context device.device 0x12 8 [])
      (resize room 5).bytes
      four
      5
      0
      (start answers)
      after
unfolding scripted linux fill encode_status le16 le32 crc16 write_all request data_part chunks
    datagrams command_info encode_command_info bytes_at nos_device_write cmd_id cmd_param
    unsigned_info request_context resize
talk = record {
  idle = idle_status;
  done = done_status;
  now = record { tv_sec = 100; tv_nsec = 0 };
  w₁ = start (drop 1 answers);
  w₂ = record { answers = drop 1 answers; written = sent; seconds = 100 };
  w₃ = record { answers = drop 1 answers; written = sent; seconds = 101 };
  w₄ = record { answers = drop 2 answers; written = sent; seconds = 101 };
  w₅ = record { answers = []; written = sent; seconds = 101 };
  idle_signed = idle_IsSigned;
  idle_status = refl;
  idle_rests = refl;
  idle_read = refl;
  request_written = refl;
  timer_started = refl;
  done_signed = done_IsSigned;
  done_status = refl;
  done_length = refl;
  done_sum = refl;
  done_read = refl;
  answer_read = refl;
  cleared = refl;
}

pub is_open : device_of client ≡ some device
unfolding device_of open_client nugget_client
is_open = refl

delivered :
    call_app host 1 client 0x12 8 [] (some room) (start answers)
    ≡ some ((0, some (record { bytes = four; capacity = 5 })), after)
unfolding linux
delivered =
    call_app_delivers host 0 client device 0x12 8 0 [] four room (start answers) after is_open
      (omega arith) (omega arith) (omega arith) (omega arith) talk (omega arith) (omega arith)
      (omega arith) (omega arith) (omega arith) (omega arith)

call_app-Bounded_example : Bounded host room (some (record { bytes = four; capacity = 5 }))
call_app-Bounded_example =
    call_app-Bounded host 1 client device 0x12 8 0 [] room
      (some (record { bytes = four; capacity = 5 })) (start answers) after is_open scripted-IsDevice
      (omega arith) delivered

-- Callbacks that write down what they are given.
abbrev listening : NuggetClientDebuggable Script
listening =
    record (nugget_client_debuggable none 0
      (some (λ request w. record w { written = (0, request) ∷ w.written }))
      (some (λ code bytes w. record w { written = (code, bytes) ∷ w.written }))) { base = client }

shut_refuses :
    (call_app host 1 (nugget_client none 0) 0x12 8 [] (some room) (start answers)
      ≡ some ((app_error_io, some room), start answers))
    × (reset_client host (nugget_client none 0) (start answers)
        ≡ (app_error_not_ready, start answers))
unfolding call_app reset_client nugget_client device_of
shut_refuses = (refl, refl)
