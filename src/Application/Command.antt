-- ===== src/Application/Command.antt =====
-- The command word of nugget/include/application.h: control flags in bits 31 to 24, the application
-- in bits 23 to 16, parameters below.
pub mod Fields
use platform_external_nos_ho.Base.{ℕ, ◌*◌, ◌/◌, ◌^◌, bit_and, bit_or}

abbrev pub cmd_is_read : ℕ
cmd_is_read = 0x80000000

abbrev pub cmd_transport : ℕ
cmd_transport = 0x40000000

abbrev pub cmd_is_data : ℕ
cmd_is_data = 0x20000000

abbrev pub cmd_more_to_come : ℕ
cmd_more_to_come = 0x10000000

-- `GET_APP_ID(cmd)`
unfoldable pub get_app_id : ℕ → ℕ
get_app_id cmd = bit_and cmd 0x00ff0000 / 2 ^ 16

-- `GET_APP_PARAM(cmd)`
unfoldable pub get_app_param : ℕ → ℕ
get_app_param cmd = bit_and cmd 0x0000ffff

-- `CMD_ID(id)`
unfoldable pub cmd_id : ℕ → ℕ
cmd_id id = bit_and id 0x000000ff * 2 ^ 16

-- `CMD_PARAM(p)`
unfoldable pub cmd_param : ℕ → ℕ
cmd_param p = bit_and p 0x0000ffff

-- `CMD_SET_PARAM(cmd, p)`: what it assigns to `cmd`.
unfoldable pub cmd_set_param : ℕ → ℕ → ℕ
cmd_set_param cmd p = bit_or (bit_and cmd 0xffff0000) (bit_and p 0x0000ffff)
