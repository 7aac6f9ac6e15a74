-- ===== src/Citadel/Datagram/Works.antt =====
-- The two datagram operations when all calls of the system succeed.
use mathlib.Core.List.{append-nil}
use platform_external_nos_ho.Base.{
  ℕ, ◌≤◌, ◌≡◌, ap, ◌∙◌, List, ◌++◌, ℤ, pos, false, is_neg, some, length, drop, drop-all, arith,
}
use platform_external_nos_ho.Device.{max_device_transfer}
use platform_external_nos_ho.Citadel.System.{Buffer, in_buf_mutex, out_buf_mutex, System, Driver}
use platform_external_nos_ho.Citadel.Datagram.{
  bytes_from, copy_out, copy_in, read_transaction, read_datagram, write_transaction, write_datagram,
}

module _ {W : Type 0} (system : System W) (fd : ℤ) (opened : is_neg fd ≡ false) where
  pub read_works :
      (command : ℕ) (buf : List ℕ) (d : Driver W)
      → length buf ≤ max_device_transfer
      → let locked = system.mutex_lock in_buf_mutex d.world in
        let answer = system.ioctl_datagram fd command (length buf) d.in_buf locked.1 in
        let unlocked = system.mutex_unlock in_buf_mutex answer.1 in
        locked.0 ≡ pos 0
        → answer.0.0 ≡ pos 0
        → unlocked.0 ≡ pos 0
        → read_datagram system (some fd) command buf (length buf) d ≡ (
          (pos 0, copy_out answer.0.1 (length buf) buf),
          record d { in_buf = answer.0.1; world = unlocked.1 },
        )
  unfolding read_datagram read_transaction
  read_works command buf d carried locks answers unlocks =
      ground (arith, opened, carried, locks, answers, unlocks)

  pub write_works :
      (command : ℕ) (bytes : List ℕ) (d : Driver W)
      → length bytes ≤ max_device_transfer
      → let locked = system.mutex_lock out_buf_mutex d.world in
        let filled = copy_in bytes (length bytes) d.out_buf in
        let answer = system.ioctl_datagram fd command (length bytes) filled locked.1 in
        let unlocked = system.mutex_unlock out_buf_mutex answer.1 in
        locked.0 ≡ pos 0
        → answer.0.0 ≡ pos 0
        → unlocked.0 ≡ pos 0
        → write_datagram system (some fd) command bytes (length bytes) d
          ≡ (pos 0, record d { out_buf = answer.0.1; world = unlocked.1 })
  unfolding write_datagram write_transaction
  write_works command bytes d carried locks answers unlocks =
      ground (arith, opened, carried, locks, answers, unlocks)

pub copy_out_whole :
    (b : Buffer) (buf bytes : List ℕ)
    → bytes_from b 0 (length buf) ≡ bytes
    → copy_out b (length buf) buf ≡ bytes
unfolding copy_out
copy_out_whole b buf bytes h =
    ap (λ t. t ++ drop (length buf) buf) h
    ∙ ap (λ t. bytes ++ t) (drop-all (length buf) buf (omega arith))
    ∙ append-nil bytes
