-- ===== src/Transport/Chip.antt =====
-- The other end of the protocol: what the transport takes an application on the chip to be, as
-- nugget/include/application.h describes it. An app is idle and collects a request, is at work on
-- one, or is done and gives its reply out in pieces. The firmware itself is not in the repository,
-- so a device that behaves like this is a parameter of what is proved about it.
pub mod Words
pub mod Device
pub mod Ready
pub mod Checks
pub mod Pieces
pub mod Requests
pub mod Looks
pub mod Replies
pub mod Calls
pub mod Busy
pub mod Late
pub mod Refused
pub mod Session
mod Examples
use platform_external_nos_ho.Base.{
  ℕ, zero, suc, ◌+◌, ◌*◌, ◌/◌, ◌%◌, ◌^◌, List, [], ◌∷◌, ◌++◌, Bool, ◌==◌, ◌&&◌, leb, take, drop,
  length, if◌then◌else◌,
}
use platform_external_nos_ho.Crc16.{crc16, crc16_update}
use platform_external_nos_ho.Application.AppStatus.{app_status_idle, app_error_checksum}
use platform_external_nos_ho.Application.Status.{
  TransportStatus, encode_status, transport_v1, status_min_length, status_flag_working, le16, le32,
  u16_at, command_info_min_length,
}

-- What an app makes of a request: how often it is seen at work before it is done, its code and its
-- reply, and what it keeps.
pub record Answer (S : Type 0) : Type 0 where
  pub looks : ℕ
  pub code : ℕ
  pub reply : List ℕ
  pub kept : S

-- An app, by the parameters and the bytes of a request.
abbrev pub App : Type 0 → Type 0
App S = S → ℕ → List ℕ → Answer S

pub data Phase : Type 0 where
  waiting : (request : List ℕ) → Phase
  working : (looks code : ℕ) (reply : List ℕ) → Phase
  answering : (code : ℕ) (reply rest : List ℕ) → Phase

pub record Chip (S : Type 0) : Type 0 where
  pub phase : Phase
  pub kept : S

abbrev pub chip_in : {S : Type 0} → Phase → S → Chip S
chip_in phase kept = record { phase = phase; kept = kept }

-- Fields of a command word: bits 31 to 24 are control flags, bits 23 to 16 the application, and
-- bits 15 to 0 its parameters.
abbrev pub says_read : ℕ → Bool
says_read command = command / 2 ^ 31 % 2 == 1

abbrev pub says_transport : ℕ → Bool
says_transport command = command / 2 ^ 30 % 2 == 1

abbrev pub says_data : ℕ → Bool
says_data command = command / 2 ^ 29 % 2 == 1

abbrev pub says_more : ℕ → Bool
says_more command = command / 2 ^ 28 % 2 == 1

abbrev pub addressee : ℕ → ℕ
addressee command = command / 2 ^ 16 % 2 ^ 8

abbrev pub parameters : ℕ → ℕ
parameters command = command % 2 ^ 16

-- A v1 status message with its checksum.
unfoldable pub signed : TransportStatus → TransportStatus
signed s = record s { crc = crc16 (encode_status (record s { crc = 0 })) }

abbrev pub message : ℕ → ℕ → ℕ → ℕ → TransportStatus
message status reply_len flags reply_crc = record {
  status = status;
  reply_len = reply_len;
  length = status_min_length;
  version = transport_v1;
  flags = flags;
  crc = 0;
  reply_crc = reply_crc;
}

unfoldable pub status_of : Phase → TransportStatus
unfolding signed
status_of (waiting request) = signed (message app_status_idle 0 0 0)
status_of (working looks code reply) = signed (message app_status_idle 0 status_flag_working 0)
status_of (answering code reply rest) =
    signed (message (2 ^ 31 + code) (length reply) 0 (crc16 reply))

-- A look at an app at work brings it nearer to its end.
abbrev pub looked_at : Phase → Phase
looked_at (waiting request) = waiting request
looked_at (working zero code reply) = answering code reply reply
looked_at (working (suc looks) code reply) = working looks code reply
looked_at (answering code reply rest) = answering code reply rest

-- Up to `n` bytes of the reply: from its start, or from where the last read ended.
abbrev pub given_out : Bool → ℕ → Phase → List ℕ × Phase
given_out more n (waiting request) = ([], waiting request)
given_out more n (working looks code reply) = ([], working looks code reply)
given_out more n (answering code reply rest) =
    let from = if more then rest else reply in (take n from, answering code reply (drop n from))

-- A read of `n` bytes: what it gives out, and what it leaves.
unfoldable pub chip_read : ℕ → ℕ → Phase → List ℕ × Phase
chip_read command n phase =
    if says_data command
    then given_out (says_more command) n phase
    else (take n (encode_status (status_of phase)), looked_at phase)

-- Data for a request: of the bytes that arrive only as many count as the command says, since bytes
-- of the next transaction may follow them.
abbrev pub collected : Bool → List ℕ → Phase → Phase
collected more bytes (waiting request) = waiting (if more then request ++ bytes else bytes)
collected more bytes (working looks code reply) = working looks code reply
collected more bytes (answering code reply rest) = answering code reply rest

abbrev pub begun : ℕ → ℕ → List ℕ → Phase
begun zero code reply = answering code reply reply
begun (suc looks) code reply = working looks code reply

-- What the checksum of a request covers: the 16-bit length of the data, the data, the command, and
-- the information about it with its own checksum set to 0.
unfoldable pub request_crc : List ℕ → ℕ → List ℕ → ℕ
request_crc request command info =
    crc16_update (take 4 info ++ (0 ∷ 0 ∷ drop 6 info))
      (crc16_update (le32 command) (crc16_update request (crc16 (le16 (length request)))))

-- The check of a request that an app has to make before it serves it: the information about the
-- command has arrived as far as its length says, and holds the checksum of the request.
unfoldable pub is_intact : List ℕ → ℕ → List ℕ → Bool
is_intact request command info =
    let n = u16_at 0 info in
    leb command_info_min_length n
    && (leb n (length info) && u16_at 4 info == request_crc request command (take n info))

-- A command that is no message of the protocol starts the app on what has been collected, if that
-- is intact. Otherwise the answer is APP_ERROR_CHECKSUM, and the app does not see the request.
abbrev pub started : {S : Type 0} → App S → ℕ → List ℕ → Chip S → Chip S
started app command info chip = elim chip.phase [
  | waiting request ↦
      let answer = app chip.kept (parameters command) request in
      if is_intact request command info
      then record { phase = begun answer.looks answer.code answer.reply; kept = answer.kept }
      else chip_in (answering app_error_checksum [] []) chip.kept
  | working looks code reply ↦ chip
  | answering code reply rest ↦ chip
]

-- What was left of an earlier exchange is forgotten.
abbrev pub cleared : Phase → Phase
cleared (waiting request) = waiting []
cleared (working looks code reply) = working looks code reply
cleared (answering code reply rest) = waiting []

-- The write of a datagram. One that is neither data nor a request clears what was left.
unfoldable pub chip_write : {S : Type 0} → App S → ℕ → List ℕ → Chip S → Chip S
chip_write app command bytes chip =
    if says_transport command
    then (if says_data command
        then record chip {
          phase = collected (says_more command) (take (parameters command) bytes) chip.phase;
        }
        else record chip { phase = cleared chip.phase })
    else started app command bytes chip
