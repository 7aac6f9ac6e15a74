-- ===== src/Citadel/Examples.antt =====
-- The theorems of the driver on a system for tests: one descriptor table, two mutexes, and a chip
-- that answers each datagram by its command's low byte.
use platform_external_nos_ho.Base.{
  ℕ, suc, ap, Bool-cases, inl, inr, eqb_ℤ-eq, ◌+◌, ◌-◌, ◌%◌, ◌≡◌, refl, [], ◌∷◌, ℤ, pos, negsuc,
  is_nonzero, eqb_ℤ, Bool, true, false, ◌&&◌, not, ltb, some, if◌then◌else◌, arith,
}
use platform_external_nos_ho.Citadel.System.{Mutex, in_buf_mutex, out_buf_mutex, System, Driver}
use platform_external_nos_ho.Citadel.Datagram.{
  bytes_from, copy_out, read_transaction, read_datagram, write_datagram,
}
use platform_external_nos_ho.Citadel.Datagram.Laws.{
  HasBuffers, HasMutex, datagrams_bounded, datagrams_unlock,
}
use platform_external_nos_ho.Citadel.Control.{
  nos_device_open, open_named, chosen_device, close_device, dev_dauntless,
}
use platform_external_nos_ho.Citadel.Control.Laws.{
  HasFiles, OpenEnd, nos_device_open-OpenEnd, close_device-nos_device_open,
}

-- Whether descriptor 3 is open, how often each mutex is held, and whether locking works.
pub record Linux : Type 0 where
  pub three_open : Bool
  pub in_held : ℕ
  pub out_held : ℕ
  pub lockable : Bool

abbrev held_by : Linux → Mutex → ℕ
held_by w in_buf_mutex = w.in_held
held_by w out_buf_mutex = w.out_held

abbrev hold : Linux → Mutex → ℕ → Linux
hold w in_buf_mutex n = record w { in_held = n }
hold w out_buf_mutex n = record w { out_held = n }

unfoldable pub linux : System Linux
linux = record {
  enodev = 19;
  e2big = 7;
  enomem = 12;
  errno = λ w. if w.three_open then 24 else 0;
  mutex_lock = λ m w. if w.lockable then (pos 0, hold w m (held_by w m + 1)) else (pos 22, w);
  mutex_unlock = λ m w. (pos 0, hold w m (held_by w m - 1));
  ioctl_datagram =
      λ fd command len b w. ((pos 0, λ i. if ltb i len then command % 256 else b i), w);
  ioctl_reset = λ fd w. (pos 0, w);
  poll_in = λ fd msecs w. (pos 0, w);
  stat = λ name w. (negsuc 0, w);
  open_rdwr =
      λ name w. if w.three_open then (negsuc 0, w) else (pos 3, record w { three_open = true });
  malloc_int = λ w. (true, w);
  free_int = λ w. w;
  close_fd = λ fd w. (pos 0, if eqb_ℤ fd (pos 3) then record w { three_open = false } else w);
}

abbrev pub booted : Bool → Linux
booted lockable = record { three_open = false; in_held = 0; out_held = 0; lockable = lockable }

abbrev pub driver : Bool → Driver Linux
driver lockable = record { in_buf = λ i. 0; out_buf = λ i. 0; world = booted lockable }

linux_buffers : HasBuffers linux
unfolding linux
linux_buffers = record { ioctl_within = λ fd command len b w i h. ground arith }

lock_takes :
    (m : Mutex) (w : Linux)
    → is_nonzero (linux.mutex_lock m w).0 ≡ false
    → held_by (linux.mutex_lock m w).1 m ≡ suc (held_by w m)
unfolding linux
lock_takes in_buf_mutex w h = ground arith
lock_takes out_buf_mutex w h = ground arith

lock_fails :
    (m : Mutex) (w : Linux)
    → is_nonzero (linux.mutex_lock m w).0 ≡ true
    → held_by (linux.mutex_lock m w).1 m ≡ held_by w m
unfolding linux
lock_fails in_buf_mutex w h = ground arith
lock_fails out_buf_mutex w h = ground arith

unlock_gives : (m : Mutex) (w : Linux) → held_by (linux.mutex_unlock m w).1 m ≡ held_by w m - 1
unfolding linux
unlock_gives in_buf_mutex w = refl
unlock_gives out_buf_mutex w = refl

linux_mutex : HasMutex linux
unfolding linux
linux_mutex = record {
  held = held_by;
  lock_takes = lock_takes;
  lock_fails = lock_fails;
  unlock_gives = λ m w h. unlock_gives m w;
  ioctl_keeps = λ fd command len b w m. refl;
}

abbrev pub three : Linux → ℤ → Bool
three w x = eqb_ℤ x (pos 3) && w.three_open

close_removes :
    (fd : ℤ) (w : Linux) (x : ℤ) → three (linux.close_fd fd w).1 x ≡ (not (eqb_ℤ x fd) && three w x)
unfolding linux
close_removes fd w x = elim (Bool-cases (eqb_ℤ x fd)) [
  | inl same ↦
      let moved : eqb_ℤ x (pos 3) ≡ eqb_ℤ fd (pos 3) =
        ap (λ y. eqb_ℤ y (pos 3)) (eqb_ℤ-eq x fd same) in
      ground (arith, same, moved)
  | inr other ↦ elim (Bool-cases (eqb_ℤ fd (pos 3))) [
    | inl closes ↦
        let moved : eqb_ℤ x fd ≡ eqb_ℤ x (pos 3) = ap (eqb_ℤ x) (eqb_ℤ-eq fd (pos 3) closes) in
        ground (arith, closes, other, moved)
    | inr keeps ↦ ground (arith, keeps, other)
  ]
]

unfoldable pub linux_files : HasFiles linux
unfolding linux close_removes
linux_files = record {
  is_open = three;
  enodev_pos = omega arith;
  enomem_pos = omega arith;
  errno_pos = λ name w h. ground arith;
  open_fails = λ name w x h. ground arith;
  open_fresh = λ name w h. ground arith;
  open_adds = λ name w x h. ground arith;
  close_removes = close_removes;
  stat_keeps = λ name w x. refl;
  malloc_keeps = λ w x. refl;
  free_keeps = λ w x. refl;
}

-- A read of two bytes by an open device.
read_two :
    (read_datagram linux (some (pos 3)) 0x12 (7 ∷ 7 ∷ 7 ∷ []) 2 (driver true)).0
    ≡ (pos 0, 0x12 ∷ 0x12 ∷ 7 ∷ [])
unfolding read_datagram read_transaction copy_out bytes_from linux
read_two = refl

datagrams_bounded_example :
    ((read_datagram linux (some (pos 3)) 0x12 (7 ∷ 7 ∷ []) 2 (driver true)).1.in_buf 3000 ≡ 0)
    × ((write_datagram linux (some (pos 3)) 0x12 (7 ∷ 7 ∷ []) 2 (driver true)).1.out_buf 3000 ≡ 0)
datagrams_bounded_example =
    datagrams_bounded linux linux_buffers (some (pos 3)) 0x12 (7 ∷ 7 ∷ []) 2 (driver true) 3000
      (omega arith)

datagrams_unlock_example :
    ((read_datagram linux (some (pos 3)) 0x12 (7 ∷ 7 ∷ []) 2 (driver true)).1.world.in_held ≡ 0)
    × ((write_datagram linux (some (pos 3)) 0x12 (7 ∷ 7 ∷ []) 2 (driver true)).1.world.out_held ≡ 0)
unfolding linux_mutex
datagrams_unlock_example =
    datagrams_unlock linux linux_mutex (some (pos 3)) 0x12 (7 ∷ 7 ∷ []) 2 (driver true)

nos_device_open-OpenEnd_example :
    OpenEnd linux linux_files
      (booted true)
      (nos_device_open linux (some dev_dauntless) (booted true)).1
      (nos_device_open linux (some dev_dauntless) (booted true)).0
nos_device_open-OpenEnd_example =
    nos_device_open-OpenEnd linux linux_files (some dev_dauntless) (booted true)

opened_three :
    nos_device_open linux (some dev_dauntless) (booted true)
    ≡ ((pos 0, some (pos 3)), record (booted true) { three_open = true })
unfolding nos_device_open open_named chosen_device linux
opened_three = refl

close_device-nos_device_open_example :
    let ((err, ctx), w') = nos_device_open linux (some dev_dauntless) (booted true) in
    three (close_device linux ctx w') (pos 3) ≡ false
unfolding linux_files
close_device-nos_device_open_example =
    close_device-nos_device_open linux linux_files (some dev_dauntless) (booted true) (pos 3)
      (ap (λ r. r.0.0) opened_three)
