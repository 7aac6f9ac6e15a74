-- ===== src/Transport/Context.antt =====
-- The constants of transport.c and `struct transport_context`.
use platform_external_nos_ho.Base.{ℕ, List, Option}
use platform_external_nos_ho.Device.{NosDevice}

abbrev pub retry_count : ℕ
retry_count = 240

abbrev pub retry_wait_time_us : ℕ
retry_wait_time_us = 5000

abbrev pub crc_retry_count : ℕ
crc_retry_count = 5

abbrev pub poll_limit_seconds : ℕ
poll_limit_seconds = 60

-- `none` is a null pointer. What `reply` and `reply_len` point to changes during a call: it is in
-- `Reply`.
pub record TransportContext (W : Type 0) : Type 0 where
  pub dev : NosDevice W
  pub app_id : ℕ
  pub params : ℕ
  pub args : Option (List ℕ)
  pub arg_len : ℕ

-- The caller's buffer, all of its bytes, and the caller's length.
pub record Reply : Type 0 where
  pub reply : Option (List ℕ)
  pub reply_len : Option ℕ
