-- ===== src/Transport/Frame.antt =====
-- What holds of the world throughout: a property that the device's operations, the sleep and the
-- clock keep is kept by every function of transport.c.
pub mod Exchange
pub mod Whole
use platform_external_nos_ho.Base.{
  ℕ, zero, suc, List, [], neg_ℕ, eqb_ℤ, arith, Bool-cases, inl, inr,
}
use platform_external_nos_ho.Application.Status.{TransportStatus, decode_status, clear_crc}
use platform_external_nos_ho.Device.{NosDevice, Platform}
use platform_external_nos_ho.Transport.Context.{
  TransportContext, retry_count, retry_wait_time_us, crc_retry_count,
}
use platform_external_nos_ho.Transport.Retry.{
  read_tries, write_tries, nos_device_read, nos_device_write,
}
use platform_external_nos_ho.Transport.Status.{
  status_command, status_tries, get_status, clear_command, clear_status,
}
use platform_external_nos_ho.Transport.Ready.{make_ready}

-- A property that what is outside keeps, step by step.
pub record IsKept {W : Type 0} (platform : Platform W) (dev : NosDevice W) (P : W → Type 0)
    : Type 0 where
  pub reading : (command : ℕ) (buf : List ℕ) (w : W) → P w → P (dev.read command buf w).1
  pub writing : (command : ℕ) (buf : List ℕ) (w : W) → P w → P (dev.write command buf w).1
  pub sleeping : (us : ℕ) (w : W) → P w → P (platform.usleep us w)
  pub timing : (w : W) → P w → P (platform.clock_gettime w).1

module _ {W : Type 0} (platform : Platform W) (dev : NosDevice W) (P : W → Type 0)
    (kept : IsKept platform dev P) where
  read_tries-kept :
      (command retries : ℕ) (buf : List ℕ) (w : W)
      → P w
      → P (read_tries platform dev command retries buf w).1
  unfolding read_tries
  read_tries-kept command zero buf w h = h
  read_tries-kept command (suc retries) buf w h =
      let ((err, buf'), w') = dev.read command buf w in
      let once : P w' = kept.reading command buf w h in
      elim (Bool-cases (eqb_ℤ err (neg_ℕ platform.eagain))) [
        | inl again ↦
            rw again
              (read_tries-kept command retries buf' _ (kept.sleeping retry_wait_time_us w' once))
        | inr other ↦ rw other once
      ]

  write_tries-kept :
      (command retries : ℕ) (buf : List ℕ) (w : W)
      → P w
      → P (write_tries platform dev command retries buf w).1
  unfolding write_tries
  write_tries-kept command zero buf w h = h
  write_tries-kept command (suc retries) buf w h =
      let (err, w') = dev.write command buf w in
      let once : P w' = kept.writing command buf w h in
      elim (Bool-cases (eqb_ℤ err (neg_ℕ platform.eagain))) [
        | inl again ↦
            rw again
              (write_tries-kept command retries buf _ (kept.sleeping retry_wait_time_us w' once))
        | inr other ↦ rw other once
      ]

  pub nos_device_read-kept :
      (command : ℕ) (buf : List ℕ) (w : W) → P w → P (nos_device_read platform dev command buf w).1
  unfolding nos_device_read
  nos_device_read-kept command buf w h = read_tries-kept command retry_count buf w h

  pub nos_device_write-kept :
      (command : ℕ) (buf : List ℕ) (w : W) → P w → P (nos_device_write platform dev command buf w).1
  unfolding nos_device_write
  nos_device_write-kept command buf w h = write_tries-kept command retry_count buf w h

module _ {W : Type 0} (platform : Platform W) (ctx : TransportContext W) (P : W → Type 0)
    (kept : IsKept platform ctx.dev P) where
  status_tries-kept :
      (retries : ℕ) (st : List ℕ) (out : TransportStatus) (w : W)
      → P w
      → P (status_tries platform ctx retries st out w).1
  unfolding status_tries
  status_tries-kept zero st out w h = h
  status_tries-kept (suc retries) st out w h =
      let ((err, m), w') = nos_device_read platform ctx.dev (status_command platform ctx) st w in
      let once : P w' =
        nos_device_read-kept platform ctx.dev P kept (status_command platform ctx) st w h in
      ground (arith, once, status_tries-kept retries (clear_crc m) (decode_status m) w' once)

  pub get_status-kept : (w : W) → P w → P (get_status platform ctx w).1
  unfolding get_status
  get_status-kept w h = status_tries-kept crc_retry_count _ _ w h

  pub clear_status-kept : (w : W) → P w → P (clear_status platform ctx w).1
  unfolding clear_status
  clear_status-kept w h =
      nos_device_write-kept platform ctx.dev P kept (clear_command platform ctx) [] w h

  pub make_ready-kept : (w : W) → P w → P (make_ready platform ctx w).1
  unfolding make_ready
  make_ready-kept w h =
      let w₁ = (get_status platform ctx w).1 in
      let w₂ = (clear_status platform ctx w₁).1 in
      let h₁ : P w₁ = get_status-kept w h in
      let h₂ : P w₂ = clear_status-kept w₁ h₁ in
      let h₃ : P (get_status platform ctx w₂).1 = get_status-kept w₂ h₂ in ground arith
