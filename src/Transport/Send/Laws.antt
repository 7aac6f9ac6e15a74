-- ===== src/Transport/Send/Laws.antt =====
-- `send_command` writes the datagrams of the plan.
use platform_external_nos_ho.Base.{
  ℕ, ◌+◌, ◌*◌, ◌-◌, ◌^◌, ◌≤◌, ◌<◌, ◌≡◌, ◌⊎◌, refl, ap, ◌∙◌, List, [], ◌∷◌, ◌++◌, is_nonzero, take,
  length, All, arith, length-take, Bool-cases, inl, inr, min, bit_or, Acc, dec_lt, Option, lt_wf,
}
use mathlib.Core.Logic.{dif_pos, dif_neg}
use native.Mathlib.Bridge.{le_prop}
use platform_external_nos_ho.Application.AppStatus.{app_success, app_error_io}
use platform_external_nos_ho.Application.Command.{
  cmd_id, cmd_set_param, cmd_more_to_come, cmd_is_data, cmd_transport,
}
use platform_external_nos_ho.Application.Command.Fields.{cmd_id_lem, bit_or-flags}
use platform_external_nos_ho.Application.Status.{encode_command_info}
use platform_external_nos_ho.Device.{Platform, max_device_transfer}
use platform_external_nos_ho.Transport.Context.{TransportContext, Reply}
use platform_external_nos_ho.Transport.Retry.{nos_device_write}
use platform_external_nos_ho.Transport.Send.{
  bytes_at, advance, send_loop, data_command, go_command, sent_len, command_info, send_command,
  chunk-lt,
}
use platform_external_nos_ho.Transport.Send.Plan.{
  chunks, datagrams, Datagram, payload, payload-chunks, IsData, chunks-IsData, write_all,
  write_all-append,
}
use platform_external_nos_ho.Transport.Send.Loop.{memory, send_loop-write_all}

module _ {W : Type 0} (platform : Platform W) (ctx : TransportContext W) where
  -- The datagrams with the arguments, counted in 16 bits.
  unfoldable pub data_part : List Datagram
  data_part =
      datagrams 0x60 ctx.app_id
        (chunks (sent_len platform ctx) (take (sent_len platform ctx) (memory ctx.args)))

  -- The datagrams of a request: the arguments, and the "go" command with the command's information.
  unfoldable pub request : Reply → List Datagram
  unfolding data_part
  request r =
      data_part
      ++ ((go_command platform ctx, encode_command_info (command_info platform ctx r)) ∷ [])

  data_command_lem :
      ctx.app_id < 256 → data_command platform ctx ≡ 0x60 * 2 ^ 24 + (ctx.app_id * 2 ^ 16 + 0)
  data_command_lem h =
      ap (λ t. bit_or (bit_or t cmd_is_data) cmd_transport) word
      ∙ ap (λ t. bit_or t cmd_transport)
          (bit_or-flags 0 0x20 (ctx.app_id * 2 ^ 16 + 0) (omega arith))
      ∙ bit_or-flags 0x20 0x40 (ctx.app_id * 2 ^ 16 + 0) (omega arith)
    where
      word : cmd_id ctx.app_id ≡ 0 * 2 ^ 24 + (ctx.app_id * 2 ^ 16 + 0)
      word = cmd_id_lem ctx.app_id ∙ omega arith

  pub send_command-write_all :
      (r : Reply) (w : W)
      → ctx.app_id < 256
      → sent_len platform ctx ≤ length (memory ctx.args)
      → send_command platform ctx r w ≡ write_all platform ctx (request r) w
  unfolding send_command request data_part
  send_command-write_all r w hi hm =
      let n = sent_len platform ctx in
      let ds = datagrams 0x60 ctx.app_id (chunks n (take n (memory ctx.args))) in
      rw
        (
          write_all-append platform ctx ds
              ((go_command platform ctx, encode_command_info (command_info platform ctx r)) ∷ []) w,
          data_command_lem hi,
          send_loop-write_all platform ctx n 0x60 ctx.app_id 0 n ctx.args (lt_wf.apply n) w
              (omega arith) (inl refl) hi (omega arith) hm,
        )
        (unfold write_all in ground arith)

  -- For an app id of 8 bits and arguments as long as `arg_len` says, `send_command` writes datagrams
  -- one by one, up to the first that fails: some that carry the arguments and the "go" command. The
  -- bytes of the former are the first `arg_len % 2 ^ 16` bytes of the arguments, in order; none is
  -- longer than a transfer, and its command word has its length and the app id.
  pub send_command-request :
      (r : Reply) (w : W)
      → ctx.app_id < 256
      → sent_len platform ctx ≤ length (memory ctx.args)
      → (send_command platform ctx r w ≡ write_all platform ctx (request r) w)
        × (request r
            ≡ data_part
              ++ ((go_command platform ctx, encode_command_info (command_info platform ctx r))
                  ∷ []))
        × (payload data_part ≡ take (sent_len platform ctx) (memory ctx.args))
        × All (IsData ctx.app_id) data_part
  unfolding data_part request
  send_command-request r w hi hm =
      let n = sent_len platform ctx in
      let sent = take n (memory ctx.args) in
      (
        send_command-write_all r w hi hm,
        refl,
        payload-chunks n 0x60 ctx.app_id sent,
        chunks-IsData n 0x60 ctx.app_id sent hi (omega (arith, length-take n (memory ctx.args))),
      )

  send_loop_codes :
      (command : ℕ) (args : Option (List ℕ)) (n : ℕ) (acc : Acc ◌<◌ n) (w : W)
      → let res = (send_loop platform ctx command args n acc w).0 in
        (res ≡ app_success) ⊎ (res ≡ app_error_io)
  unfolding send_loop
  send_loop_codes command args n (Acc.intro _ smaller) w =
      let ulen = min n max_device_transfer in
      let command' = cmd_set_param command ulen in
      let (err, w') = nos_device_write platform ctx.dev command' (bytes_at args ulen) w in
      elim (Bool-cases (is_nonzero err)) [
        | inl bad ↦ rw bad (inr refl)
        | inr good ↦ rw good (elim (dec_lt 0 (n - ulen)) [
          | yes more ↦ rw (dif_pos (dec_lt 0 (n - ulen)) le_prop more) (
              send_loop_codes (bit_or command' cmd_more_to_come) (advance args ulen) (n - ulen)
                (smaller (n - ulen) (chunk-lt n more)) w')
          | no done ↦ rw (dif_neg (dec_lt 0 (n - ulen)) done) (inl refl)
        ])
      ]

  -- The result is APP_SUCCESS or APP_ERROR_IO.
  pub send_command_codes :
      (r : Reply) (w : W)
      → let res = (send_command platform ctx r w).0 in (res ≡ app_success) ⊎ (res ≡ app_error_io)
  unfolding send_command
  send_command_codes r w =
      let n = sent_len platform ctx in
      ground (arith, send_loop_codes (data_command platform ctx) ctx.args n (lt_wf.apply n) w)
