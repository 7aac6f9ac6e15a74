-- ===== src/Transport/Call/Runs/Delivered.antt =====
-- A whole call with a reply, step by step.
use platform_external_nos_ho.Base.{ℕ, List, [], ◌∷◌, ℤ, pos, none, some, ◌≡◌, refl, arith}
use platform_external_nos_ho.Crc16.{crc16}
use platform_external_nos_ho.Application.Status.{encode_command_info, le16, le32}
use platform_external_nos_ho.Transport.Retry.{nos_device_write}
use platform_external_nos_ho.Transport.Send.{command_info, bytes_at}
use platform_external_nos_ho.Transport.Call.{invalid_args}
use platform_external_nos_ho.Application.AppStatus.{}
use platform_external_nos_ho.Application.Status.{TransportStatus, encode_status}
use platform_external_nos_ho.Application.Command.{cmd_id, cmd_param}
use platform_external_nos_ho.Transport.Script.{scripted, linux}
use platform_external_nos_ho.Transport.Call.{nos_call_application}
use platform_external_nos_ho.Base.{◌++◌, ◌⊎◌, inl, inr, drop}
use platform_external_nos_ho.Application.Status.Layout.{IsStatus}
use platform_external_nos_ho.Transport.Script.{fill}
use platform_external_nos_ho.Transport.Send.{unsigned_info}
use platform_external_nos_ho.Transport.Send.Plan.{chunks, datagrams, write_all}
use platform_external_nos_ho.Transport.Send.Laws.{data_part, request}
use platform_external_nos_ho.Transport.Call.Memory.{given}
use platform_external_nos_ho.Transport.Call.Steps.{IsSigned}
use platform_external_nos_ho.Transport.Call.Delivery.{Conversation, nos_call_application_delivers}
use platform_external_nos_ho.Transport.Call.Laws.{}
use platform_external_nos_ho.Transport.Call.Runs.{context, buffer, start, after}

abbrev pub idle_status : TransportStatus
idle_status = record {
  status = 0;
  reply_len = 0;
  length = 16;
  version = 1;
  flags = 0;
  crc = 0x54C1;
  reply_crc = 0;
}

abbrev pub done_status : TransportStatus
done_status = record idle_status {
  status = 0x80000000;
  reply_len = 4;
  crc = 44801;
  reply_crc = 20736;
}

small : (s : TransportStatus) → s ≡ idle_status ⊎ s ≡ done_status → IsStatus s
small s h = record {
  status_fits = ground (arith, h);
  reply_len_fits = ground (arith, h);
  length_fits = ground (arith, h);
  version_fits = ground (arith, h);
  flags_fit = ground (arith, h);
  crc_fits = ground (arith, h);
  reply_crc_fits = ground (arith, h);
}

pub idle_IsSigned : IsSigned idle_status
unfolding crc16 encode_status le16 le32
idle_IsSigned = record { fits = small idle_status (inl refl); full = refl; sum = refl }

pub done_IsSigned : IsSigned done_status
unfolding crc16 encode_status le16 le32
done_IsSigned = record { fits = small done_status (inr refl); full = refl; sum = refl }

abbrev pub four : List ℕ
four = 4 ∷ 3 ∷ 2 ∷ 1 ∷ []

abbrev pub bytes : List ℕ
bytes = 7 ∷ 7 ∷ 7 ∷ 7 ∷ 7 ∷ []

abbrev pub answers : List (ℤ × List ℕ)
answers =
    (pos 0, encode_status idle_status) ∷ (pos 0, encode_status done_status) ∷ (pos 0, four) ∷ []

abbrev pub sent : List (ℕ × List ℕ)
sent = (0x60120000, []) ∷ (0x00120008, 8 ∷ 0 ∷ 1 ∷ 0 ∷ 192 ∷ 52 ∷ 5 ∷ 0 ∷ []) ∷ []

conversation : Conversation linux (context 8 none 0) bytes four 5 0 (start answers) after
unfolding scripted linux fill encode_status le16 le32 crc16 write_all request data_part chunks
    datagrams command_info encode_command_info bytes_at nos_device_write cmd_id cmd_param
    unsigned_info
conversation = record {
  idle = idle_status;
  done = done_status;
  now = record { tv_sec = 100; tv_nsec = 0 };
  w₁ = start (drop 1 answers);
  w₂ = record { answers = drop 1 answers; written = sent; seconds = 100 };
  w₃ = record { answers = drop 1 answers; written = sent; seconds = 101 };
  w₄ = record { answers = drop 2 answers; written = sent; seconds = 101 };
  w₅ = record { answers = []; written = sent; seconds = 101 };
  idle_signed = idle_IsSigned;
  idle_status = refl;
  idle_rests = refl;
  idle_read = refl;
  request_written = refl;
  timer_started = refl;
  done_signed = done_IsSigned;
  done_status = refl;
  done_length = refl;
  done_sum = refl;
  done_read = refl;
  answer_read = refl;
  cleared = refl;
}

delivered_by_conversation :
    nos_call_application linux (context 8 none 0) 1 buffer (start answers)
    ≡ some ((0, given (four ++ (7 ∷ [])) 4), after)
unfolding invalid_args linux
delivered_by_conversation =
    nos_call_application_delivers linux (context 8 none 0) (omega arith) 0 0 5 bytes four
      (start answers) after conversation refl (omega arith) (omega arith) (omega arith)
      (omega arith) (omega arith) (omega arith) (omega arith) (omega arith)
