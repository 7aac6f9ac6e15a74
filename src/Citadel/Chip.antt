-- ===== src/Citadel/Chip.antt =====
-- The driver with a chip behind the kernel: what the transport sees through citadel.c is the chip.
pub mod Examples
use mathlib.Core.Path.{subst}
use mathlib.Core.List.{append-nil}
use platform_external_nos_ho.Base.{
  ℕ, ◌+◌, ◌*◌, ◌^◌, ◌≤◌, ◌<◌, ◌≡◌, refl, ap, ◌∙◌, sym, List, ◌++◌, ℤ, pos, Bool, true, false,
  is_neg, is_nonzero, ltb, some, length, drop, drop-all, arith,
}
use platform_external_nos_ho.Device.{Platform, Timespec, max_device_transfer}
use platform_external_nos_ho.Transport.Retry.Time.{nanoseconds}
use platform_external_nos_ho.Transport.Chip.{
  App, Chip, chip_in, addressee, says_read, chip_read, chip_write,
}
use platform_external_nos_ho.Transport.Chip.Device.{IsChip, IsReadOf, IsWriteTo, stored_whole}
use platform_external_nos_ho.Citadel.System.{
  Buffer, Mutex, in_buf_mutex, out_buf_mutex, System, Driver,
}
use platform_external_nos_ho.Citadel.Datagram.{
  bytes_from, copy_out, copy_in, read_transaction, read_datagram, write_transaction, write_datagram,
  citadel_device,
}
use platform_external_nos_ho.Citadel.Datagram.Works.{read_works, write_works, copy_out_whole}
use platform_external_nos_ho.Citadel.Threads.Exclusion.Sharing.{Holds-copy_in}

-- The kernel's side, on one open descriptor: the mutexes can be had, an ioctl carries a datagram of
-- the app to the chip, a read's bytes come to lie at the front of the buffer, and the clock shows the
-- time. None of the calls of a read takes longer than `tick` nanoseconds, nor does a look at the
-- clock.
pub record IsKernel {W S : Type 0} (platform : Platform (Driver W)) (system : System W) (fd : ℤ)
    (id : ℕ) (app : App S) (tick : ℕ) : Type 0 where
  pub view : W → Chip S
  pub time : W → Timespec
  pub awake : 0 < platform.eagain
  pub narrow : id < 256
  pub space : (n : ℕ) → length (platform.uninitialised n) ≡ n
  pub opened : is_neg fd ≡ false
  pub locks : (m : Mutex) (w : W) → (system.mutex_lock m w).0 ≡ pos 0
  pub unlocks : (m : Mutex) (w : W) → (system.mutex_unlock m w).0 ≡ pos 0
  pub lock_leaves : (m : Mutex) (w : W) → view (system.mutex_lock m w).1 ≡ view w
  pub unlock_leaves : (m : Mutex) (w : W) → view (system.mutex_unlock m w).1 ≡ view w
  pub read_carried :
      (command : ℕ) (buf : List ℕ) (b : Buffer) (w : W)
      → IsReadOf id command buf (view w).phase
      → let answer = system.ioctl_datagram fd command (length buf) b w in
        (answer.0.0 ≡ pos 0)
        × (bytes_from answer.0.1 0 (length buf) ≡ (chip_read command (length buf) (view w).phase).0)
        × (view answer.1 ≡ chip_in (chip_read command (length buf) (view w).phase).1 (view w).kept)
  pub write_carried :
      (command : ℕ) (bytes : List ℕ) (b : Buffer) (w : W)
      → IsWriteTo id command bytes
      → bytes_from b 0 (length bytes) ≡ bytes
      → let answer = system.ioctl_datagram fd command (length bytes) b w in
        (answer.0.0 ≡ pos 0) × (view answer.1 ≡ chip_write app command bytes (view w))
  pub clock_shows : (d : Driver W) → (platform.clock_gettime d).0 ≡ some (time d.world)
  pub clock_leaves : (d : Driver W) → view (platform.clock_gettime d).1.world ≡ view d.world
  pub below_second : (w : W) → (time w).tv_nsec < 10 ^ 9
  pub clock_pace :
      (d : Driver W)
      → nanoseconds (time (platform.clock_gettime d).1.world) ≤ nanoseconds (time d.world) + tick
  pub lock_pace :
      (m : Mutex) (w : W)
      → nanoseconds (time (system.mutex_lock m w).1) ≤ nanoseconds (time w) + tick
  pub unlock_pace :
      (m : Mutex) (w : W)
      → nanoseconds (time (system.mutex_unlock m w).1) ≤ nanoseconds (time w) + tick
  pub read_pace :
      (command len : ℕ) (b : Buffer) (w : W)
      → nanoseconds (time (system.ioctl_datagram fd command len b w).1)
        ≤ nanoseconds (time w) + tick

module _ {W S : Type 0} (platform : Platform (Driver W)) (system : System W) (fd : ℤ) (id : ℕ)
    (app : App S) (tick : ℕ) (kernel : IsKernel platform system fd id app tick) where
  open kernel use {
    view, time, opened, locks, unlocks, lock_leaves, unlock_leaves, read_carried, write_carried,
    lock_pace, unlock_pace, read_pace,
  }

  -- What a read leaves.
  pub record IsFetched (command : ℕ) (buf : List ℕ) (d : Driver W) : Type 0 where
    pub gives :
        (read_datagram system (some fd) command buf (length buf) d).0
        ≡ (pos 0, (chip_read command (length buf) (view d.world).phase).0)
    pub leaves :
        view (read_datagram system (some fd) command buf (length buf) d).1.world
        ≡ chip_in (chip_read command (length buf) (view d.world).phase).1 (view d.world).kept
    pub paced :
        nanoseconds (time (read_datagram system (some fd) command buf (length buf) d).1.world)
        ≤ nanoseconds (time d.world) + 3 * tick

  -- A read that the chip has bytes for.
  module _ (command : ℕ) (buf : List ℕ) (d : Driver W)
      (fetch : IsReadOf id command buf (view d.world).phase) where
    w₁ : W
    w₁ = (system.mutex_lock in_buf_mutex d.world).1

    w₂ : W
    w₂ = (system.ioctl_datagram fd command (length buf) d.in_buf w₁).1

    locked_fetch : IsReadOf id command buf (view w₁).phase
    unfolding w₁
    locked_fetch =
        subst (λ (c : Chip S). IsReadOf id command buf c.phase)
          (sym (lock_leaves in_buf_mutex d.world)) fetch

    pub fetched : IsFetched command buf d
    unfolding w₁ w₂
    fetched =
        let (zero, filled, left) = read_carried command buf d.in_buf w₁ locked_fetch in
        let works =
          read_works system fd opened command buf d fetch.carried (locks in_buf_mutex d.world) zero
            (unlocks in_buf_mutex w₂) in
        record {
          gives =
              ap (λ t. t.0) works
              ∙ ap (λ t. (pos 0, t))
                  (copy_out_whole (system.ioctl_datagram fd command (length buf) d.in_buf w₁).0.1
                    buf _ filled)
              ∙ ap (λ c. (pos 0, (chip_read command (length buf) c.phase).0))
                  (lock_leaves in_buf_mutex d.world);
          leaves =
              ap (λ t. view t.1.world) works
              ∙ unlock_leaves in_buf_mutex w₂
              ∙ left
              ∙ ap (λ c. chip_in (chip_read command (length buf) c.phase).1 c.kept)
                  (lock_leaves in_buf_mutex d.world);
          paced =
              subst
                (λ (t : (ℤ × List ℕ) × Driver W).
                  nanoseconds (time t.1.world) ≤ nanoseconds (time d.world) + 3 * tick)
                (sym works)
                (omega (
                  arith,
                  lock_pace in_buf_mutex d.world,
                  read_pace command (length buf) d.in_buf w₁,
                  unlock_pace in_buf_mutex w₂,
                ));
        }

  -- A write.
  module _ (command : ℕ) (bytes : List ℕ) (d : Driver W) (post : IsWriteTo id command bytes) where
    pub posted :
        let r = write_datagram system (some fd) command bytes (length bytes) d in
        (r.0 ≡ pos 0) × (view r.1.world ≡ chip_write app command bytes (view d.world))
    posted =
        let w₁ = (system.mutex_lock out_buf_mutex d.world).1 in
        let filled = copy_in bytes (length bytes) d.out_buf in
        let (zero, left) =
          write_carried command bytes filled w₁ post (Holds-copy_in bytes d.out_buf) in
        let w₂ = (system.ioctl_datagram fd command (length bytes) filled w₁).1 in
        let works =
          write_works system fd opened command bytes d post.carried (locks out_buf_mutex d.world)
            zero (unlocks out_buf_mutex w₂) in
        (
          ap (λ t. t.0) works,
          ap (λ t. view t.1.world) works
              ∙ unlock_leaves out_buf_mutex w₂
              ∙ left
              ∙ ap (chip_write app command bytes) (lock_leaves out_buf_mutex d.world),
        )

  -- The chip and the time as the driver shows them.
  unfoldable pub driver_chip : IsChip platform (citadel_device system (some fd)) id app (3 * tick)
  unfolding citadel_device
  driver_chip = record {
    view = λ d. view d.world;
    time = λ d. time d.world;
    awake = kernel.awake;
    narrow = kernel.narrow;
    space = kernel.space;
    read_gives = λ command buf d fetch. (fetched command buf d fetch).gives;
    read_leaves = λ command buf d fetch. (fetched command buf d fetch).leaves;
    write_succeeds = λ command bytes d post. (posted command bytes d post).0;
    write_leaves = λ command bytes d post. (posted command bytes d post).1;
    clock_shows = kernel.clock_shows;
    clock_leaves = kernel.clock_leaves;
    below_second = λ d. kernel.below_second d.world;
    clock_pace = λ d. omega (arith, kernel.clock_pace d);
    read_pace = λ command buf d fetch. (fetched command buf d fetch).paced;
  }

  -- With the kernel's side as described, the driver on the open descriptor is a device behind which
  -- the app keeps to the protocol, and the chip that it shows is the kernel's.
  pub citadel_device-IsChip :
      (chip : IsChip platform (citadel_device system (some fd)) id app (3 * tick)) × ((d : Driver W)
        → chip.view d ≡ view d.world)
  unfolding driver_chip
  citadel_device-IsChip = (driver_chip, λ d. refl)
