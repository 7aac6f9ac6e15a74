-- ===== src/Transport/Chip/Examples/Refused.antt =====
-- A request of 65536 bytes: none of them is sent, but the checksum covers them all.
use platform_external_nos_ho.Base.{
  ℕ, zero, suc, ◌^◌, ◌≡◌, refl, ap, ◌∙◌, List, [], ◌∷◌, ◌++◌, some, false, true, arith, replicate,
  take-all, length-append,
}
use platform_external_nos_ho.Crc16.{crc16, crc16_update, crc16_byte}
use platform_external_nos_ho.Crc16.Update.{crc16_update-append}
use platform_external_nos_ho.Application.AppStatus.{app_error_io}
use platform_external_nos_ho.Application.Status.{
  TransportCommandInfo, encode_command_info, le16, le32, u16_at, transport_v1,
}
use platform_external_nos_ho.Application.Command.{cmd_id, cmd_param}
use platform_external_nos_ho.Transport.Context.{TransportContext}
use platform_external_nos_ho.Transport.Send.{bytes_at, command_info, unsigned_info, go_command}
use platform_external_nos_ho.Transport.Call.{invalid_args, nos_call_application}
use platform_external_nos_ho.Transport.Call.Memory.{given}
use platform_external_nos_ho.Transport.Chip.{chip_in, waiting, is_intact, request_crc}
use platform_external_nos_ho.Transport.Chip.Checks.{info_of}
use platform_external_nos_ho.Transport.Chip.Refused.{IsRefused, nos_call_application-refused}
use platform_external_nos_ho.Transport.Chip.Examples.{
  World, system, device-IsChip, echo, world, context, length-replicate,
}

zeros_no_change : (n : ℕ) → crc16_update (replicate n 0) 0 ≡ 0
unfolding crc16_update crc16_byte
zeros_no_change zero = refl
zeros_no_change (suc n) = zeros_no_change n

abbrev zeros_and_one : List ℕ
zeros_and_one = replicate 65535 0 ++ (1 ∷ [])

one_left : crc16_update zeros_and_one 0 ≡ crc16_update (1 ∷ []) 0
one_left =
    crc16_update-append (replicate 65535 0) (1 ∷ []) 0
    ∙ ap (crc16_update (1 ∷ [])) (zeros_no_change 65535)

abbrev long : TransportContext World
long = context (some zeros_and_one) 65536

-- The information that is sent, by the checksum of the length and the data.
info_after : ℕ → List ℕ
info_after crc =
    let info : TransportCommandInfo = record {
      length = 8;
      version = transport_v1;
      crc = 0;
      reply_len_hint = 2;
    } in
    encode_command_info (record info {
      crc =
          crc16_update (encode_command_info info)
            (crc16_update (le32 (go_command system long)) crc);
    })

info_of-long :
    info_of system long (given (7 ∷ 7 ∷ []) 2)
    ≡ info_after (crc16_update (bytes_at (some zeros_and_one) 65536) (crc16 (le16 0)))
unfolding info_after command_info unsigned_info
info_of-long = refl

-- With the checksum of no data at all it would be intact.
intact : is_intact [] (go_command system long) (info_after 0) ≡ true
unfolding info_after is_intact request_crc encode_command_info le16 le32 u16_at crc16 crc16_update
    crc16_byte cmd_id cmd_param
intact = refl

not_intact : is_intact [] (go_command system long) (info_after (crc16_update (1 ∷ []) 0)) ≡ false
unfolding info_after is_intact request_crc encode_command_info le16 le32 u16_at crc16 crc16_update
    crc16_byte cmd_id cmd_param
not_intact = refl

all_covered : bytes_at (some zeros_and_one) 65536 ≡ zeros_and_one
unfolding bytes_at
all_covered =
    take-all 65536 zeros_and_one
      (omega (arith, length-append {A = ℕ} (replicate 65535 0) (1 ∷ []), length-replicate 65535 0))

nothing : crc16 (le16 0) ≡ 0
unfolding crc16 crc16_update crc16_byte le16
nothing = refl

refused : IsRefused system long (given (7 ∷ 7 ∷ []) 2)
refused =
    ap (is_intact [] (go_command system long)) (
      info_of-long
      ∙ ap info_after (
          ap (crc16_update (bytes_at (some zeros_and_one) 65536)) nothing
          ∙ ap (λ t. crc16_update t 0) all_covered
          ∙ one_left))
    ∙ not_intact

nos_call_application-refused_example :
    (w' : World) × (nos_call_application system long 1 (given (7 ∷ 7 ∷ []) 2) world
      ≡ some ((app_error_io, given (7 ∷ 7 ∷ []) 0), w'))
    × (w'.chip ≡ chip_in (waiting []) 40)
unfolding invalid_args device-IsChip
nos_call_application-refused_example =
    nos_call_application-refused system long echo (10 ^ 9) (device-IsChip echo 0x12 (omega arith)) 1
      2 (7 ∷ 7 ∷ []) world (waiting []) 40 refl tt refl (omega arith) (omega arith) refl
      (omega arith) refused
