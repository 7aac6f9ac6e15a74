-- ===== src/Transport/Retry.antt =====
-- `nos_device_read` and `nos_device_write` of transport.c.
pub mod Laws
pub mod Time
use platform_external_nos_ho.Base.{
  ℕ, zero, suc, List, M, ℤ, pos, neg_ℕ, neg_ℤ, eqb_ℤ, if◌then◌else◌,
}
use platform_external_nos_ho.Device.{NosDevice, Platform}
use platform_external_nos_ho.Transport.Context.{retry_count, retry_wait_time_us}

module _ {W : Type 0} (platform : Platform W) (dev : NosDevice W) (command : ℕ) where
  -- `while (retries--)`, with the buffer that each try may change.
  unfoldable pub read_tries : ℕ → List ℕ → M W (ℤ × List ℕ)
  read_tries zero buf w = ((pos platform.etimedout, buf), w)
  read_tries (suc retries) buf w =
      let ((err, buf'), w') = dev.read command buf w in
      let again = read_tries retries buf' (platform.usleep retry_wait_time_us w') in
      if eqb_ℤ err (neg_ℕ platform.eagain) then again else ((neg_ℤ err, buf'), w')

  unfoldable pub write_tries : ℕ → List ℕ → M W ℤ
  write_tries zero buf w = (pos platform.etimedout, w)
  write_tries (suc retries) buf w =
      let (err, w') = dev.write command buf w in
      let again = write_tries retries buf (platform.usleep retry_wait_time_us w') in
      if eqb_ℤ err (neg_ℕ platform.eagain) then again else (neg_ℤ err, w')

  unfoldable pub nos_device_read : List ℕ → M W (ℤ × List ℕ)
  unfolding read_tries
  nos_device_read buf = read_tries retry_count buf

  unfoldable pub nos_device_write : List ℕ → M W ℤ
  unfolding write_tries
  nos_device_write buf = write_tries retry_count buf
