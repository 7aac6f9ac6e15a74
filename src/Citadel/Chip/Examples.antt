-- ===== src/Citadel/Chip/Examples.antt =====
-- A kernel with a chip whose app gives its requests back, and a session through the driver.
use platform_external_nos_ho.Base.{
  ℕ, zero, suc, ◌+◌, ◌*◌, ◌^◌, ◌<◌, ◌≡◌, refl, ap, sym, ◌∙◌, ◌∷◌, some, ℤ, pos, true, Bool-cases,
  inl, inr, arith, replicate, length, if◌then◌else◌,
}
use platform_external_nos_ho.Device.{Platform}
use platform_external_nos_ho.Transport.Chip.{App, Chip, chip_in, says_read, chip_read, chip_write}
use platform_external_nos_ho.Transport.Chip.Device.{IsChip}
use platform_external_nos_ho.Citadel.System.{Buffer, System, Driver}
use platform_external_nos_ho.Citadel.Datagram.{bytes_from, copy_in, citadel_device}
use platform_external_nos_ho.Citadel.Threads.Exclusion.Sharing.{Holds-copy_in}
use platform_external_nos_ho.Citadel.Chip.{IsKernel, citadel_device-IsChip}

abbrev pub echo : App ℕ
echo count params request = record {
  looks = 2;
  code = params;
  reply = count ∷ request;
  kept = count + 1;
}

pub record World : Type 0 where
  pub chip : Chip ℕ
  pub seconds : ℕ

-- Bit 31 of a command tells which way the datagram goes.
abbrev pub carried : ℕ → ℕ → Buffer → World → (ℤ × Buffer) × World
carried command len b w =
    let (bytes, phase) = chip_read command len w.chip.phase in
    if says_read command
    then ((pos 0, copy_in bytes (length bytes) b), record w { chip = chip_in phase w.chip.kept })
    else ((pos 0, b), record w { chip = chip_write echo command (bytes_from b 0 len) w.chip })

abbrev pub kernel : System World
kernel = record {
  enodev = 19;
  e2big = 7;
  enomem = 12;
  errno = λ w. 0;
  mutex_lock = λ m w. (pos 0, w);
  mutex_unlock = λ m w. (pos 0, w);
  ioctl_datagram = λ fd command len b w. carried command len b w;
  ioctl_reset = λ fd w. (pos 0, w);
  poll_in = λ fd msecs w. (pos 0, w);
  stat = λ name w. (pos 0, w);
  open_rdwr = λ name w. (pos 3, w);
  malloc_int = λ w. (true, w);
  free_int = λ w. w;
  close_fd = λ fd w. (pos 0, w);
}

abbrev pub system : Platform (Driver World)
system = record {
  eagain = 11;
  etimedout = 110;
  usleep = λ us d. d;
  clock_gettime = λ d. (
    some (record { tv_sec = d.world.seconds; tv_nsec = 0 }),
    record d { world = record d.world { seconds = d.world.seconds + 1 } },
  );
  uninitialised = λ n. replicate n 0xAA;
}

pub length-replicate : (n a : ℕ) → length (replicate n a) ≡ n
length-replicate zero a = refl
length-replicate (suc n) a = omega (arith, length-replicate n a)

unfoldable pub kernel-IsKernel :
    (id : ℕ) → id < 256 → IsKernel system kernel (pos 3) id echo (10 ^ 9)
kernel-IsKernel id narrow = record {
  view = λ w. w.chip;
  time = λ w. record { tv_sec = w.seconds; tv_nsec = 0 };
  awake = omega arith;
  narrow = narrow;
  space = λ n. length-replicate n 0xAA;
  opened = refl;
  locks = λ m w. refl;
  unlocks = λ m w. refl;
  lock_leaves = λ m w. refl;
  unlock_leaves = λ m w. refl;
  read_carried = λ command buf b w fetch.
      let bytes = (chip_read command (length buf) w.chip.phase).0 in
      rw fetch.reads (
        refl,
        ap (bytes_from (copy_in bytes (length bytes) b) 0) (sym fetch.given)
            ∙ Holds-copy_in bytes b,
        refl,
      );
  write_carried = λ command bytes b w post held.
      rw post.writes (refl, ap (λ t. chip_write echo command t w.chip) held);
  clock_shows = λ d. refl;
  clock_leaves = λ d. refl;
  below_second = λ w. omega arith;
  clock_pace = λ d. omega arith;
  lock_pace = λ m w. omega arith;
  unlock_pace = λ m w. omega arith;
  read_pace = λ command len b w. elim (Bool-cases (says_read command)) [
    | inl reads ↦ rw reads (omega arith)
    | inr writes ↦ rw writes (omega arith)
  ];
}

citadel_device-IsChip_example :
    (chip : IsChip system (citadel_device kernel (some (pos 3))) 0x12 echo (3 * 10 ^ 9))
    × ((d : Driver World) → chip.view d ≡ d.world.chip)
unfolding kernel-IsKernel
citadel_device-IsChip_example =
    citadel_device-IsChip system kernel (pos 3) 0x12 echo (10 ^ 9)
      (kernel-IsKernel 0x12 (omega arith))
