-- ===== src/Citadel/Datagram/Laws.antt =====
-- What a datagram's transaction leaves behind.
use platform_external_nos_ho.Base.{
  ℕ, zero, suc, ◌+◌, ◌-◌, ◌≤◌, ◌<◌, ◌≡◌, refl, List, length, length-append, length-drop, ℤ,
  is_nonzero, Option, none, some, false, true, drop, arith,
}
use platform_external_nos_ho.Device.{max_device_transfer}
use platform_external_nos_ho.Transport.Retry.Laws.{IsDevice}
use platform_external_nos_ho.Citadel.System.{
  Buffer, Mutex, in_buf_mutex, out_buf_mutex, System, Driver,
}
use platform_external_nos_ho.Citadel.Datagram.{
  bytes_from, copy_out, copy_in, read_transaction, read_datagram, write_transaction, write_datagram,
  citadel_device,
}

length-bytes_from : (b : Buffer) (i len : ℕ) → length (bytes_from b i len) ≡ len
unfolding bytes_from
length-bytes_from b i zero = refl
length-bytes_from b i (suc len) = omega (arith, length-bytes_from b (i + 1) len)

length-copy_out : (b : Buffer) (buf : List ℕ) → length (copy_out b (length buf) buf) ≡ length buf
unfolding copy_out
length-copy_out b buf = omega (
  arith,
  length-append (bytes_from b 0 (length buf)) (drop (length buf) buf),
  length-bytes_from b 0 (length buf),
  length-drop (length buf) buf,
)

module _ {W : Type 0} (system : System W) where
  -- The kernel's driver: an ioctl changes no byte of the buffer behind the datagram.
  pub record HasBuffers : Type 0 where
    pub ioctl_within :
        (fd : ℤ) (command len : ℕ) (b : Buffer) (w : W) (i : ℕ)
        → len ≤ i
        → (system.ioctl_datagram fd command len b w).0.1 i ≡ b i

  -- POSIX: how often each mutex is held, by the results of the calls. A held mutex is unlocked.
  pub record HasMutex : Type 0 where
    pub held : W → Mutex → ℕ
    pub lock_takes :
        (m : Mutex) (w : W)
        → is_nonzero (system.mutex_lock m w).0 ≡ false
        → held (system.mutex_lock m w).1 m ≡ suc (held w m)
    pub lock_fails :
        (m : Mutex) (w : W)
        → is_nonzero (system.mutex_lock m w).0 ≡ true
        → held (system.mutex_lock m w).1 m ≡ held w m
    pub unlock_gives :
        (m : Mutex) (w : W) → 0 < held w m → held (system.mutex_unlock m w).1 m ≡ held w m - 1
    pub ioctl_keeps :
        (fd : ℤ) (command len : ℕ) (b : Buffer) (w : W) (m : Mutex)
        → held (system.ioctl_datagram fd command len b w).1 m ≡ held w m

  read_datagram-length :
      (ctx : Option ℤ) (command : ℕ) (buf : List ℕ) (s : Driver W)
      → length (read_datagram system ctx command buf (length buf) s).0.1 ≡ length buf
  unfolding read_datagram read_transaction
  read_datagram-length none command buf s = refl
  read_datagram-length (some fd) command buf s =
      let locked = (system.mutex_lock in_buf_mutex s.world).1 in
      ground (
        arith,
        length-copy_out (system.ioctl_datagram fd command (length buf) s.in_buf locked).0.1 buf,
      )

  -- The driver is a device for the transport: whatever the kernel answers, a read writes into the
  -- caller's buffer only.
  pub citadel_device-IsDevice : (ctx : Option ℤ) → IsDevice (citadel_device system ctx)
  unfolding citadel_device
  citadel_device-IsDevice ctx = record {
    keeps_length = λ command buf s. read_datagram-length ctx command buf s;
  }

  -- If the kernel keeps to the datagram, then for every length that a caller asks for, reading and
  -- writing leave all memory behind the 2044 bytes of the static buffers as it was.
  pub datagrams_bounded :
      HasBuffers
      → (ctx : Option ℤ) (command : ℕ) (buf : List ℕ) (len : ℕ) (s : Driver W) (i : ℕ)
      → max_device_transfer ≤ i
      → ((read_datagram system ctx command buf len s).1.in_buf i ≡ s.in_buf i)
        × ((write_datagram system ctx command buf len s).1.out_buf i ≡ s.out_buf i)
  unfolding read_datagram read_transaction write_datagram write_transaction copy_in
  datagrams_bounded kernel none command buf len s i h = (refl, refl)
  datagrams_bounded kernel (some fd) command buf len s i h =
      let w_in = (system.mutex_lock in_buf_mutex s.world).1 in
      let w_out = (system.mutex_lock out_buf_mutex s.world).1 in
      (
        ground (arith, kernel.ioctl_within fd command len s.in_buf w_in i),
        ground (arith, kernel.ioctl_within fd command len (copy_in buf len s.out_buf) w_out i),
      )

  -- On every path, the errors included, reading and writing leave their mutex as often held as
  -- before.
  pub datagrams_unlock :
      (mutex : HasMutex)
      → (ctx : Option ℤ) (command : ℕ) (buf : List ℕ) (len : ℕ) (s : Driver W)
      → (mutex.held (read_datagram system ctx command buf len s).1.world in_buf_mutex
          ≡ mutex.held s.world in_buf_mutex)
        × (mutex.held (write_datagram system ctx command buf len s).1.world out_buf_mutex
            ≡ mutex.held s.world out_buf_mutex)
  unfolding read_datagram read_transaction write_datagram write_transaction
  datagrams_unlock mutex none command buf len s = (refl, refl)
  datagrams_unlock mutex (some fd) command buf len s =
      let w_in = (system.mutex_lock in_buf_mutex s.world).1 in
      let w_out = (system.mutex_lock out_buf_mutex s.world).1 in
      let sent = copy_in buf len s.out_buf in
      (
        ground (
          arith,
          mutex.lock_takes in_buf_mutex s.world,
          mutex.lock_fails in_buf_mutex s.world,
          mutex.ioctl_keeps fd command len s.in_buf w_in in_buf_mutex,
          mutex.unlock_gives in_buf_mutex (system.ioctl_datagram fd command len s.in_buf w_in).1,
        ),
        ground (
          arith,
          mutex.lock_takes out_buf_mutex s.world,
          mutex.lock_fails out_buf_mutex s.world,
          mutex.ioctl_keeps fd command len sent w_out out_buf_mutex,
          mutex.unlock_gives out_buf_mutex (system.ioctl_datagram fd command len sent w_out).1,
        ),
      )
