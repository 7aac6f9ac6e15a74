-- ===== src/Transport/Status.antt =====
-- `get_status` and `clear_status` of transport.c.
pub mod Laws
pub mod Time
use platform_external_nos_ho.Base.{
  ℕ, zero, suc, bit_or, List, [], M, ℤ, pos, negsuc, is_nonzero, ltb, ◌==◌, ◌||◌, take,
  if◌then◌else◌,
}
use platform_external_nos_ho.Crc16.{crc16}
use platform_external_nos_ho.Application.Command.{cmd_id, cmd_is_read, cmd_transport}
use platform_external_nos_ho.Application.Status.{
  TransportStatus, decode_status, clear_crc, zero_status, transport_v0, status_min_length,
  status_max_length,
}
use platform_external_nos_ho.Device.{Platform}
use platform_external_nos_ho.Transport.Context.{TransportContext, crc_retry_count}
use platform_external_nos_ho.Transport.Retry.{nos_device_read, nos_device_write}

module _ {W : Type 0} (platform : Platform W) (ctx : TransportContext W) where
  abbrev pub status_command : ℕ
  status_command = bit_or (bit_or (cmd_id ctx.app_id) cmd_is_read) cmd_transport

  -- `while (retries--)`: `st` is the union with the message, `out` what `*out` has come to hold. The
  -- two v0 fields are stored before the length is looked at, and the others after.
  unfoldable pub status_tries : ℕ → List ℕ → TransportStatus → M W (ℤ × TransportStatus)
  status_tries zero st out w = ((negsuc 0, out), w)
  status_tries (suc retries) st out w =
      let ((err, st'), w') = nos_device_read platform ctx.dev status_command st w in
      let seen = decode_status st' in
      let v0 = record out { status = seen.status; reply_len = seen.reply_len } in
      let v1 = record v0 {
        length = seen.length;
        version = seen.version;
        flags = seen.flags;
        crc = seen.crc;
        reply_crc = seen.reply_crc;
      } in
      let our_crc = crc16 (take seen.length (clear_crc st')) in
      let again = status_tries retries (clear_crc st') v1 w' in
      if is_nonzero err
      then ((negsuc 0, out), w')
      else if ltb seen.length status_min_length || ltb status_max_length seen.length
      then ((pos 0, record v0 { version = transport_v0 }), w')
      else if v1.crc == our_crc
      then ((pos 0, v1), w')
      else again

  -- The result is 0 or -1, with what `*out` holds.
  unfoldable pub get_status : M W (ℤ × TransportStatus)
  unfolding status_tries
  get_status = status_tries crc_retry_count (platform.uninitialised status_max_length) zero_status

  abbrev pub clear_command : ℕ
  clear_command = bit_or (cmd_id ctx.app_id) cmd_transport

  unfoldable pub clear_status : M W ℤ
  clear_status w =
      let (err, w') = nos_device_write platform ctx.dev clear_command [] w in
      (if is_nonzero err then negsuc 0 else pos 0, w')
