-- ===== src/Transport/Retry/Time.antt =====
-- The clock, and that time does not run backwards during `nos_device_read`.
use platform_external_nos_ho.Base.{
  ℕ, zero, suc, ◌*◌, ◌+◌, ◌^◌, ◌≤◌, ◌<◌, ◌≡◌, List, neg_ℕ, eqb_ℤ, arith, Bool-cases, inl, inr, some,
}
use platform_external_nos_ho.Device.{NosDevice, Platform, Timespec}
use platform_external_nos_ho.Transport.Context.{retry_count, retry_wait_time_us}
use platform_external_nos_ho.Transport.Retry.{read_tries, nos_device_read}

-- In nanoseconds.
abbrev pub nanoseconds : Timespec → ℕ
nanoseconds t = t.tv_sec * 10 ^ 9 + t.tv_nsec

-- The world has a time in nanoseconds, which the monotonic clock shows. Reading the clock takes a
-- nanosecond at least, and reading from the device and sleeping do not turn it back.
pub record HasClock {W : Type 0} (platform : Platform W) (dev : NosDevice W) : Type 0 where
  pub elapsed : W → ℕ
  pub below_second :
      (w : W) (now : Timespec) → (platform.clock_gettime w).0 ≡ some now → now.tv_nsec < 10 ^ 9
  pub shown :
      (w : W) (now : Timespec)
      → (platform.clock_gettime w).0 ≡ some now
      → nanoseconds now ≡ elapsed w
  pub ticks : (w : W) → elapsed w < elapsed (platform.clock_gettime w).1
  pub read_steady :
      (command : ℕ) (buf : List ℕ) (w : W) → elapsed w ≤ elapsed (dev.read command buf w).1
  pub sleep_steady : (us : ℕ) (w : W) → elapsed w ≤ elapsed (platform.usleep us w)

module _ {W : Type 0} (platform : Platform W) (dev : NosDevice W)
    (clock : HasClock platform dev) where
  open clock use {elapsed, read_steady, sleep_steady}

  read_tries-steady :
      (command retries : ℕ) (buf : List ℕ) (w : W)
      → elapsed w ≤ elapsed (read_tries platform dev command retries buf w).1
  unfolding read_tries
  read_tries-steady command zero buf w = omega arith
  read_tries-steady command (suc retries) buf w =
      let ((err, buf'), w') = dev.read command buf w in
      let w'' = platform.usleep retry_wait_time_us w' in
      elim (Bool-cases (eqb_ℤ err (neg_ℕ platform.eagain))) [
        | inl again ↦ rw again (
            omega (
              arith,
              read_steady command buf w,
              sleep_steady retry_wait_time_us w',
              read_tries-steady command retries buf' w'',
            ))
        | inr other ↦ rw other (read_steady command buf w)
      ]

  pub nos_device_read-steady :
      (command : ℕ) (buf : List ℕ) (w : W)
      → elapsed w ≤ elapsed (nos_device_read platform dev command buf w).1
  unfolding nos_device_read
  nos_device_read-steady command buf w = read_tries-steady command retry_count buf w
