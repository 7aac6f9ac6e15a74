-- ===== src/Transport/Chip/Checks.antt =====
-- The check that an app makes of a request, against the checksum that `send_command` puts in.
use platform_external_nos_ho.Base.{
  ℕ, ◌+◌, ◌*◌, ◌/◌, ◌%◌, ◌^◌, ◌≤◌, ◌<◌, ◌≡◌, refl, ap, ◌∙◌, sym, List, arith, length, true, ==_iff,
  take, length-take,
}
use platform_external_nos_ho.Application.Status.{
  TransportCommandInfo, encode_command_info, le16, le32, u16_at, transport_v1,
}
use platform_external_nos_ho.Crc16.{crc16, crc16_update}
use platform_external_nos_ho.Crc16.Update.{crc16_update-lt}
use platform_external_nos_ho.Device.{Platform}
use platform_external_nos_ho.Transport.Context.{TransportContext, Reply}
use platform_external_nos_ho.Transport.Send.{
  bytes_at, sent_len, go_command, command_info, unsigned_info,
}
use platform_external_nos_ho.Transport.Send.Loop.{memory, bytes_at-memory}
use platform_external_nos_ho.Transport.Chip.{is_intact, request_crc}

-- A signed command information of the right length is intact.
signed-is_intact :
    (bytes : List ℕ) (command hint crc : ℕ)
    → let info : TransportCommandInfo = record {
      length = 8;
      version = transport_v1;
      crc = 0;
      reply_len_hint = hint;
    } in
      crc < 2 ^ 16
      → crc16_update
          (encode_command_info info)
          (crc16_update (le32 command) (crc16_update bytes (crc16 (le16 (length bytes)))))
        ≡ crc
      → is_intact bytes command (encode_command_info (record info { crc = crc })) ≡ true
unfolding is_intact request_crc encode_command_info le16 u16_at
signed-is_intact bytes command hint crc h e =
    let field : crc % 256 + 256 * (crc / 256 % 256) ≡ crc = omega arith in
    (==_iff _ _).1 (field ∙ sym e)

module _ {W : Type 0} (platform : Platform W) (ctx : TransportContext W) where
  -- What the app collects of a request, and what it is sent with the command to start.
  abbrev pub message_of : List ℕ
  message_of = take (sent_len platform ctx) (memory ctx.args)

  abbrev pub info_of : Reply → List ℕ
  info_of r = encode_command_info (command_info platform ctx r)

  -- The request that the transport has signed is intact, if 16 bits can count its bytes.
  pub command_info-is_intact :
      (r : Reply)
      → ctx.arg_len < 2 ^ 16
      → sent_len platform ctx ≤ length (memory ctx.args)
      → is_intact message_of (go_command platform ctx) (info_of r) ≡ true
  unfolding command_info unsigned_info crc16
  command_info-is_intact r short hm =
      let n = sent_len platform ctx in
      let bytes = take n (memory ctx.args) in
      let info = unsigned_info platform ctx r in
      let whole : n ≡ ctx.arg_len = omega arith in
      let counted : length bytes ≡ n = omega (arith, length-take n (memory ctx.args)) in
      let covered : bytes_at ctx.args ctx.arg_len ≡ bytes =
        bytes_at-memory ctx.args ctx.arg_len ∙ ap (λ k. take k (memory ctx.args)) (sym whole) in
      signed-is_intact bytes (go_command platform ctx) info.reply_len_hint
        (command_info platform ctx r).crc
        (crc16_update-lt (encode_command_info info)
          (crc16_update (le32 (go_command platform ctx))
            (crc16_update (bytes_at ctx.args ctx.arg_len) (crc16 (le16 n))))
          (crc16_update-lt (le32 (go_command platform ctx))
            (crc16_update (bytes_at ctx.args ctx.arg_len) (crc16 (le16 n)))
            (crc16_update-lt (bytes_at ctx.args ctx.arg_len) (crc16 (le16 n))
              (crc16_update-lt (le16 n) 0 (omega arith)))))
        (rw (counted, covered) refl)
