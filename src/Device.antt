-- ===== src/Device.antt =====
-- libnos_datagram/include/nos/device.h: the operations that a device offers to the transport, and
-- what the transport takes from the operating system. `W` is the state of all that is outside.
use platform_external_nos_ho.Base.{ℕ, ℤ, List, Option, M}

abbrev pub max_device_transfer : ℕ
max_device_transfer = 2044

-- The operations of `struct nos_device_ops` that the transport calls, on an open device. `read` gets
-- the bytes of the caller's buffer and gives back what they are after the call.
pub record NosDevice (W : Type 0) : Type 0 where
  pub read : ℕ → List ℕ → M W (ℤ × List ℕ)
  pub write : ℕ → List ℕ → M W ℤ

-- `struct timespec`
pub record Timespec : Type 0 where
  pub tv_sec : ℕ
  pub tv_nsec : ℕ

-- The C library and the system: two error numbers, the sleep, the monotonic clock (`none` if the
-- call fails), and what a local variable of so many bytes holds before it is written.
pub record Platform (W : Type 0) : Type 0 where
  pub eagain : ℕ
  pub etimedout : ℕ
  pub usleep : ℕ → W → W
  pub clock_gettime : M W (Option Timespec)
  pub uninitialised : ℕ → List ℕ
