-- ===== src/Citadel/Datagram.antt =====
-- `read_datagram` and `write_datagram` of citadel.c.
pub mod Laws
pub mod Works
use platform_external_nos_ho.Base.{
  ℕ, zero, suc, ◌+◌, List, [], ◌∷◌, ◌++◌, M, ℤ, neg_ℕ, is_neg, is_nonzero, ltb, Option, none, some,
  get_or, drop, length, if◌then◌else◌,
}
use platform_external_nos_ho.Device.{NosDevice, max_device_transfer}
use platform_external_nos_ho.Citadel.System.{Buffer, System, Driver, in_buf_mutex, out_buf_mutex}

-- The first `len` bytes of a buffer from an offset on.
unfoldable pub bytes_from : Buffer → ℕ → ℕ → List ℕ
bytes_from b i zero = []
bytes_from b i (suc len) = b i ∷ bytes_from b (i + 1) len

-- `memcpy(buf, in_buf, len)`
unfoldable pub copy_out : Buffer → ℕ → List ℕ → List ℕ
unfolding bytes_from
copy_out b len buf = bytes_from b 0 len ++ drop len buf

-- `memcpy(out_buf, buf, len)`
unfoldable pub copy_in : List ℕ → ℕ → Buffer → Buffer
copy_in buf len b i = if ltb i len then get_or buf i 0 else b i

module _ {W : Type 0} (system : System W) where
  -- From the lock on; `buf` is the caller's buffer, and the result has what it holds afterwards.
  unfoldable pub read_transaction : ℤ → ℕ → List ℕ → ℕ → M (Driver W) (ℤ × List ℕ)
  read_transaction fd command buf len s =
      let (locked, w₁) = system.mutex_lock in_buf_mutex s.world in
      let ((ret, in_buf), w₂) = system.ioctl_datagram fd command len s.in_buf w₁ in
      let (unlocked, w₃) = system.mutex_unlock in_buf_mutex w₂ in
      let ret' = if is_neg ret then neg_ℕ (system.errno w₂) else ret in
      let buf' = if is_neg ret then buf else copy_out in_buf len buf in
      let ret'' = if is_nonzero unlocked then neg_ℕ (system.errno w₃) else ret' in
      if is_nonzero locked
      then ((neg_ℕ (system.errno w₁), buf), record s { world = w₁ })
      else ((ret'', buf'), record s { in_buf = in_buf; world = w₃ })

  -- `ctx` points to the descriptor, or is null.
  unfoldable pub read_datagram : Option ℤ → ℕ → List ℕ → ℕ → M (Driver W) (ℤ × List ℕ)
  read_datagram none command buf len s = ((neg_ℕ system.enodev, buf), s)
  read_datagram (some fd) command buf len s =
      if is_neg fd
      then ((neg_ℕ system.enodev, buf), s)
      else if ltb max_device_transfer len
      then ((neg_ℕ system.e2big, buf), s)
      else read_transaction fd command buf len s

  unfoldable pub write_transaction : ℤ → ℕ → List ℕ → ℕ → M (Driver W) ℤ
  write_transaction fd command buf len s =
      let (locked, w₁) = system.mutex_lock out_buf_mutex s.world in
      let ((ret, out_buf), w₂) =
        system.ioctl_datagram fd command len (copy_in buf len s.out_buf) w₁ in
      let (unlocked, w₃) = system.mutex_unlock out_buf_mutex w₂ in
      let ret' = if is_neg ret then neg_ℕ (system.errno w₂) else ret in
      let ret'' = if is_nonzero unlocked then neg_ℕ (system.errno w₃) else ret' in
      if is_nonzero locked
      then (neg_ℕ (system.errno w₁), record s { world = w₁ })
      else (ret'', record s { out_buf = out_buf; world = w₃ })

  unfoldable pub write_datagram : Option ℤ → ℕ → List ℕ → ℕ → M (Driver W) ℤ
  write_datagram none command buf len s = (neg_ℕ system.enodev, s)
  write_datagram (some fd) command buf len s =
      if is_neg fd
      then (neg_ℕ system.enodev, s)
      else if ltb max_device_transfer len
      then (neg_ℕ system.e2big, s)
      else write_transaction fd command buf len s

  -- The operations as `nos_device_open` stores them: the transport hands over whole buffers.
  unfoldable pub citadel_device : Option ℤ → NosDevice (Driver W)
  unfolding read_datagram write_datagram
  citadel_device ctx = record {
    read = λ command buf s. read_datagram ctx command buf (length buf) s;
    write = λ command buf s. write_datagram ctx command buf (length buf) s;
  }
