-- ===== src/Application/Status.antt =====
-- The two messages of nugget/include/application.h that carry the state of the protocol, and their
-- packed little-endian layout.
pub mod Layout
mod Examples
use platform_external_nos_ho.Base.{
  ℕ, ◌+◌, ◌*◌, ◌/◌, ◌%◌, ◌^◌, List, [], ◌∷◌, ◌++◌, get_or, take, drop,
}

abbrev pub transport_v0 : ℕ
transport_v0 = 0x0000

abbrev pub transport_v1 : ℕ
transport_v1 = 0x0001

abbrev pub status_min_length : ℕ
status_min_length = 0x10

-- `sizeof(struct transport_status)`
abbrev pub status_max_length : ℕ
status_max_length = 0x10

abbrev pub status_flag_working : ℕ
status_flag_working = 0x0001

abbrev pub status_crc_for_idle : ℕ
status_crc_for_idle = 0x54c1

abbrev pub status_crc_for_working : ℕ
status_crc_for_working = 0x2101

abbrev pub status_crc_for_error_too_much : ℕ
status_crc_for_error_too_much = 0x97c0

abbrev pub command_info_min_length : ℕ
command_info_min_length = 8

abbrev pub command_info_max_length : ℕ
command_info_max_length = 32

-- `struct transport_status`
pub record TransportStatus : Type 0 where
  pub status : ℕ
  pub reply_len : ℕ
  pub length : ℕ
  pub version : ℕ
  pub flags : ℕ
  pub crc : ℕ
  pub reply_crc : ℕ

-- `struct transport_command_info`
pub record TransportCommandInfo : Type 0 where
  pub length : ℕ
  pub version : ℕ
  pub crc : ℕ
  pub reply_len_hint : ℕ

-- The bytes of a `uint16_t` and of a `uint32_t`.
unfoldable pub le16 : ℕ → List ℕ
le16 n = (n % 256) ∷ (n / 256 % 256) ∷ []

unfoldable pub le32 : ℕ → List ℕ
le32 n = (n % 256) ∷ (n / 256 % 256) ∷ (n / 65536 % 256) ∷ (n / 16777216 % 256) ∷ []

-- `le16toh` and `le32toh` of the field at an offset.
unfoldable pub u16_at : ℕ → List ℕ → ℕ
u16_at i bytes = get_or bytes i 0 + 256 * get_or bytes (i + 1) 0

unfoldable pub u32_at : ℕ → List ℕ → ℕ
unfolding u16_at
u32_at i bytes = u16_at i bytes + 65536 * u16_at (i + 2) bytes

-- All zero, as after `memset`.
abbrev pub zero_status : TransportStatus
zero_status = record {
  status = 0;
  reply_len = 0;
  length = 0;
  version = 0;
  flags = 0;
  crc = 0;
  reply_crc = 0;
}

-- The struct that the bytes of the union hold.
unfoldable pub decode_status : List ℕ → TransportStatus
unfolding u16_at u32_at
decode_status st = record {
  status = u32_at 0 st;
  reply_len = u16_at 4 st;
  length = u16_at 6 st;
  version = u16_at 8 st;
  flags = u16_at 10 st;
  crc = u16_at 12 st;
  reply_crc = u16_at 14 st;
}

-- `st.status.crc = 0`
unfoldable pub clear_crc : List ℕ → List ℕ
clear_crc st = take 12 st ++ (0 ∷ 0 ∷ drop 14 st)

-- The bytes of a status message.
unfoldable pub encode_status : TransportStatus → List ℕ
unfolding le16 le32
encode_status s =
    le32 s.status
    ++ (le16 s.reply_len
        ++ (le16 s.length
            ++ (le16 s.version ++ (le16 s.flags ++ (le16 s.crc ++ le16 s.reply_crc)))))

-- The bytes of a command's information.
unfoldable pub encode_command_info : TransportCommandInfo → List ℕ
unfolding le16
encode_command_info c = le16 c.length ++ (le16 c.version ++ (le16 c.crc ++ le16 c.reply_len_hint))
