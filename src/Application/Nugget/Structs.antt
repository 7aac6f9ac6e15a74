-- ===== src/Application/Nugget/Structs.antt =====
-- nugget/include/app_nugget.h: the structs that commands carry, as their fields in order. None has padding:
-- they are packed, or made of bytes, or each field lies at a multiple of its width.
use platform_external_nos_ho.Base.{ℕ, ◌+◌, ◌*◌, List, [], ◌∷◌, ◌++◌}
use platform_external_nos_ho.Application.Nugget.Codes.{
  np_flash_block_size, nugget_update_password_len, debug_message_max_count, ec_p256_public_key_size,
  ec_p256_private_key_size, psk_key_size, verify_psk_req_header_size, verify_psk_nonce_size,
  verify_psk_hmac_size,
}

-- A field: the bytes of an element, and the number of elements.
abbrev pub Layout : Type 0
Layout = List (ℕ × ℕ)

abbrev pub u8 : ℕ
u8 = 1

abbrev pub u32 : ℕ
u32 = 4

abbrev pub u64 : ℕ
u64 = 8

-- `sizeof`
abbrev pub size : Layout → ℕ
size [] = 0
size ((width, count) ∷ fields) = width * count + size fields

abbrev pub nugget_app_flash_block : Layout
nugget_app_flash_block = (u32, 1) ∷ (u32, 1) ∷ (u8, np_flash_block_size) ∷ []

abbrev pub nugget_app_password : Layout
nugget_app_password = (u32, 1) ∷ (u8, nugget_update_password_len) ∷ []

abbrev pub nugget_app_enable_update : Layout
nugget_app_enable_update = nugget_app_password ++ (u8, 1) ∷ []

abbrev pub nugget_app_change_update_password : Layout
nugget_app_change_update_password = nugget_app_password ++ nugget_app_password

abbrev pub nugget_app_board_id : Layout
nugget_app_board_id = (u32, 1) ∷ (u32, 1) ∷ (u32, 1) ∷ []

abbrev pub nugget_persist : Layout
nugget_persist = (u8, 1) ∷ (u8, 1) ∷ (u8, 2) ∷ []

-- Without its data, which has no length.
abbrev pub nugget_app_storage : Layout
nugget_app_storage = (u32, 1) ∷ []

abbrev pub gsc_debug_dump_msg : Layout
gsc_debug_dump_msg = (u8, 6) ∷ (u8, 1) ∷ (u8, 1) ∷ (u32, 1) ∷ (u32, 1) ∷ []

abbrev pub debug_message_buffer_size : ℕ
debug_message_buffer_size = debug_message_max_count * size gsc_debug_dump_msg

abbrev pub gsa_gsc_pairing_persist_storage : Layout
gsa_gsc_pairing_persist_storage =
    (u8, 1)
    ∷ (u8, 1)
    ∷ (u8, ec_p256_public_key_size)
    ∷ (u8, ec_p256_private_key_size)
    ∷ (u8, ec_p256_public_key_size)
    ∷ []

abbrev pub gsa_gsc_psk_persist_storage : Layout
gsa_gsc_psk_persist_storage = (u8, 1) ∷ (u8, 1) ∷ (u8, psk_key_size) ∷ []

abbrev pub verify_psk_request : Layout
verify_psk_request =
    (u8, verify_psk_req_header_size)
    ∷ (u8, 1)
    ∷ (u8, verify_psk_nonce_size)
    ∷ (u8, 1)
    ∷ (u8, verify_psk_hmac_size)
    ∷ []

abbrev pub secure_channel_retry_count_persist_storage : Layout
secure_channel_retry_count_persist_storage = (u8, 1) ∷ (u8, 1) ∷ (u8, 2) ∷ []

-- The last field holds the bits of the signals.
abbrev pub nugget_app_low_power_stats : Layout
nugget_app_low_power_stats =
    (u64, 1)
    ∷ (u64, 1)
    ∷ (u64, 1)
    ∷ (u64, 1)
    ∷ (u64, 1)
    ∷ (u64, 1)
    ∷ (u64, 1)
    ∷ (u64, 1)
    ∷ (u64, 1)
    ∷ (u64, 1)
    ∷ (u32, 1)
    ∷ (u32, 1)
    ∷ (u32, 1)
    ∷ []

abbrev pub nugget_app_write32 : Layout
nugget_app_write32 = (u32, 1) ∷ (u32, 1) ∷ []
