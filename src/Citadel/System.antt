-- ===== src/Citadel/System.antt =====
-- What citadel.c takes from the C library and the kernel, and its static data.
use platform_external_nos_ho.Base.{ℕ, ℤ, List, Bool, M}

-- A buffer in memory: the byte at each offset.
abbrev pub Buffer : Type 0
Buffer = ℕ → ℕ

-- `in_buf_mutex` and `out_buf_mutex`.
pub data Mutex : Type 0 where
  in_buf_mutex : Mutex
  out_buf_mutex : Mutex

-- The calls; `W` is the state of the system. `errno` is the error number as the state has it.
-- `ioctl_datagram` is the ioctl with CITADEL_IOC_TPM_DATAGRAM: a descriptor, `command`, `len` and the
-- buffer, with what the buffer holds afterwards. A device name is the list of its characters.
pub record System (W : Type 0) : Type 0 where
  pub enodev : ℕ
  pub e2big : ℕ
  pub enomem : ℕ
  pub errno : W → ℕ
  pub mutex_lock : Mutex → M W ℤ
  pub mutex_unlock : Mutex → M W ℤ
  pub ioctl_datagram : ℤ → ℕ → ℕ → Buffer → M W (ℤ × Buffer)
  pub ioctl_reset : ℤ → M W ℤ
  pub poll_in : ℤ → ℤ → M W ℤ
  pub stat : List ℕ → M W ℤ
  pub open_rdwr : List ℕ → M W ℤ
  pub malloc_int : M W Bool
  pub free_int : W → W
  pub close_fd : ℤ → M W ℤ

-- The static buffers and the system.
pub record Driver (W : Type 0) : Type 0 where
  pub in_buf : Buffer
  pub out_buf : Buffer
  pub world : W
