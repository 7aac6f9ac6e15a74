-- ===== src/Transport/Send.antt =====
-- `send_command` of transport.c.
pub mod Plan
pub mod Loop
pub mod Laws
use platform_external_nos_ho.Base.{
  ℕ, suc, ◌+◌, ◌-◌, ◌%◌, ◌^◌, ◌<◌, min, bit_or, List, [], ◌∷◌, ◌++◌, M, ℤ, is_nonzero, Option, none,
  some, take, drop, ◌==◌, if◌then◌else◌, dite, dec_lt, Acc, lt_wf, arith,
}
use platform_external_nos_ho.Crc16.{crc16, crc16_update}
use platform_external_nos_ho.Application.AppStatus.{app_success, app_error_io}
use platform_external_nos_ho.Application.Command.{
  cmd_id, cmd_param, cmd_set_param, cmd_is_data, cmd_transport, cmd_more_to_come,
}
use platform_external_nos_ho.Application.Status.{
  TransportCommandInfo, encode_command_info, le16, le32, transport_v1,
}
use platform_external_nos_ho.Device.{Platform, max_device_transfer}
use platform_external_nos_ho.Transport.Context.{TransportContext, Reply}
use platform_external_nos_ho.Transport.Retry.{nos_device_write}

-- `len` bytes at a pointer; nothing is read through a null pointer.
unfoldable pub bytes_at : Option (List ℕ) → ℕ → List ℕ
bytes_at none len = []
bytes_at (some bytes) len = take len bytes

-- `if (args) args += ulen;`
unfoldable pub advance : Option (List ℕ) → ℕ → Option (List ℕ)
advance none len = none
advance (some bytes) len = some (drop len bytes)

pub chunk-lt : (n : ℕ) → 0 < n - min n max_device_transfer → n - min n max_device_transfer < n
chunk-lt n h = omega arith

module _ {W : Type 0} (platform : Platform W) (ctx : TransportContext W) where
  -- The `do … while (arg_len)` loop, with the command as the last round has left it.
  unfoldable pub send_loop : ℕ → Option (List ℕ) → (arg_len : ℕ) → Acc ◌<◌ arg_len → M W ℕ
  send_loop command args arg_len (Acc.intro _ smaller) w =
      let ulen = min arg_len max_device_transfer in
      let command' = cmd_set_param command ulen in
      let (err, w') = nos_device_write platform ctx.dev command' (bytes_at args ulen) w in
      let rest =
        dite (dec_lt 0 (arg_len - ulen))
          (λ more.
            send_loop (bit_or command' cmd_more_to_come) (advance args ulen) (arg_len - ulen)
              (smaller (arg_len - ulen) (chunk-lt arg_len more)) w')
          (λ _. (app_success, w')) in
      if is_nonzero err then (app_error_io, w') else rest

  abbrev pub data_command : ℕ
  data_command = bit_or (bit_or (cmd_id ctx.app_id) cmd_is_data) cmd_transport

  abbrev pub go_command : ℕ
  go_command = bit_or (cmd_id ctx.app_id) (cmd_param ctx.params)

  -- `uint16_t arg_len = ctx->arg_len`
  abbrev pub sent_len : ℕ
  sent_len = ctx.arg_len % 2 ^ 16

  -- `command_info`, before its checksum is stored.
  unfoldable pub unsigned_info : Reply → TransportCommandInfo
  unsigned_info r = record {
    length = 8;
    version = transport_v1;
    crc = 0;
    reply_len_hint = elim r.reply_len [ none ↦ 0 | some len ↦ len % 2 ^ 16 ];
  }

  unfoldable pub command_info : Reply → TransportCommandInfo
  unfolding unsigned_info
  command_info r =
      let info = unsigned_info r in
      let crc₁ = crc16 (le16 sent_len) in
      let crc₂ = crc16_update (bytes_at ctx.args ctx.arg_len) crc₁ in
      let crc₃ = crc16_update (le32 go_command) crc₂ in
      record info { crc = crc16_update (encode_command_info info) crc₃ }

  unfoldable pub send_command : Reply → M W ℕ
  send_command r w =
      let (res, w') = send_loop data_command ctx.args sent_len (lt_wf.apply sent_len) w in
      let info = encode_command_info (command_info r) in
      let (err, w'') = nos_device_write platform ctx.dev go_command info w' in
      if res == app_success
      then (if is_nonzero err then app_error_io else app_success, w'')
      else (res, w')
