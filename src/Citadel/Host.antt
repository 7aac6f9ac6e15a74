-- ===== src/Citadel/Host.antt =====
-- The driver as the host that a client opens its device on.
mod Examples
use mathlib.Core.Path.{subst}
use mathlib.Core.Option
use platform_external_nos_ho.Base.{
  ℕ, ◌≡◌, refl, sym, ap, ◌∙◌, List, Bool, true, false, Option, none, some, ℤ, pos, neg_ℕ, is_neg,
  is_nonzero, M, arith, Bool-cases, inl, inr,
}
use platform_external_nos_ho.Device.{Platform, Timespec}
use platform_external_nos_ho.Transport.Frame.{IsKept}
use platform_external_nos_ho.Client.Host.{Host, IsHost, OpenDevice}
use platform_external_nos_ho.Citadel.System.{
  Buffer, Mutex, in_buf_mutex, out_buf_mutex, System, Driver,
}
use platform_external_nos_ho.Citadel.Datagram.{
  copy_in, read_transaction, read_datagram, write_transaction, write_datagram, citadel_device,
}
use platform_external_nos_ho.Citadel.Control.{
  nos_device_open, close_device, reset, wait_for_interrupt,
}
use platform_external_nos_ho.Citadel.Control.Laws.{
  HasFiles, OpenEnd, opened, failed, nos_device_open-OpenEnd, close_device-OpenEnd,
}

-- What the driver's system offers the transport; its state is the driver's.
abbrev platform_on : {W : Type 0} → Platform W → Platform (Driver W)
platform_on p = record {
  eagain = p.eagain;
  etimedout = p.etimedout;
  usleep = λ us s. record s { world = p.usleep us s.world };
  clock_gettime = λ s. let (now, w) = p.clock_gettime s.world in (now, record s { world = w });
  uninitialised = p.uninitialised;
}

module _ {W : Type 0} (system : System W) (platform : Platform W) where
  -- `dev->ops` with the context that points to `fd`.
  unfoldable pub citadel_ops : ℤ → OpenDevice (Driver W)
  citadel_ops fd = record {
    device = citadel_device system (some fd);
    wait_for_interrupt = λ msecs s.
        Option.map (λ r. (r.0, record s { world = r.1 }))
          (wait_for_interrupt system (some fd) msecs s.world);
    reset = λ s. let (err, w) = reset system (some fd) s.world in (err, record s { world = w });
    close = λ s. record s { world = close_device system (some fd) s.world };
  }

  abbrev with_ops : Option ℤ → Option (OpenDevice (Driver W))
  with_ops none = none
  with_ops (some fd) = some (citadel_ops fd)

  unfoldable pub citadel_host : Host (Driver W)
  unfolding citadel_ops
  citadel_host = record {
    platform = platform_on platform;
    nos_device_open = λ name s.
        let ((err, ctx), w) = nos_device_open system name s.world in
        ((err, with_ops ctx), record s { world = w });
  }

  -- The other calls of the system leave the descriptors alone.
  pub record HasCalls (files : HasFiles system) : Type 0 where
    pub lock_keeps :
        (m : Mutex) (w : W) (x : ℤ) → files.is_open (system.mutex_lock m w).1 x ≡ files.is_open w x
    pub unlock_keeps :
        (m : Mutex) (w : W) (x : ℤ)
        → files.is_open (system.mutex_unlock m w).1 x ≡ files.is_open w x
    pub datagram_keeps :
        (fd : ℤ) (command len : ℕ) (b : Buffer) (w : W) (x : ℤ)
        → files.is_open (system.ioctl_datagram fd command len b w).1 x ≡ files.is_open w x
    pub ioctl_reset_keeps :
        (fd : ℤ) (w : W) (x : ℤ) → files.is_open (system.ioctl_reset fd w).1 x ≡ files.is_open w x
    pub poll_keeps :
        (fd msecs : ℤ) (w : W) (x : ℤ)
        → files.is_open (system.poll_in fd msecs w).1 x ≡ files.is_open w x
    pub usleep_keeps :
        (us : ℕ) (w : W) (x : ℤ) → files.is_open (platform.usleep us w) x ≡ files.is_open w x
    pub clock_keeps :
        (w : W) (x : ℤ) → files.is_open (platform.clock_gettime w).1 x ≡ files.is_open w x

  module _ (files : HasFiles system) (calls : HasCalls files) where
    open files use {is_open}

    read_datagram-keeps :
        (fd : ℤ) (command len : ℕ) (buf : List ℕ) (s : Driver W) (x : ℤ)
        → is_open (read_datagram system (some fd) command buf len s).1.world x ≡ is_open s.world x
    unfolding read_datagram read_transaction
    read_datagram-keeps fd command len buf s x =
        let w₁ = (system.mutex_lock in_buf_mutex s.world).1 in
        let w₂ = (system.ioctl_datagram fd command len s.in_buf w₁).1 in
        ground (
          arith,
          calls.lock_keeps in_buf_mutex s.world x,
          calls.datagram_keeps fd command len s.in_buf w₁ x,
          calls.unlock_keeps in_buf_mutex w₂ x,
        )

    write_datagram-keeps :
        (fd : ℤ) (command len : ℕ) (buf : List ℕ) (s : Driver W) (x : ℤ)
        → is_open (write_datagram system (some fd) command buf len s).1.world x ≡ is_open s.world x
    unfolding write_datagram write_transaction
    write_datagram-keeps fd command len buf s x =
        let w₁ = (system.mutex_lock out_buf_mutex s.world).1 in
        let w₂ = (system.ioctl_datagram fd command len (copy_in buf len s.out_buf) w₁).1 in
        ground (
          arith,
          calls.lock_keeps out_buf_mutex s.world x,
          calls.datagram_keeps fd command len (copy_in buf len s.out_buf) w₁ x,
          calls.unlock_keeps out_buf_mutex w₂ x,
        )

    reset-keeps : (fd : ℤ) (w : W) (x : ℤ) → is_open (reset system (some fd) w).1 x ≡ is_open w x
    unfolding reset
    reset-keeps fd w x = ground (arith, calls.ioctl_reset_keeps fd w x)

    wait_for_interrupt-keeps :
        (fd msecs : ℤ) (s : Driver W)
        → (r : ℤ) × (s' : Driver W) × ((citadel_ops fd).wait_for_interrupt msecs s ≡ some (r, s'))
          × ((x : ℤ) → is_open s'.world x ≡ is_open s.world x)
    unfolding citadel_ops wait_for_interrupt
    wait_for_interrupt-keeps fd msecs s =
        let (r, w') = system.poll_in fd msecs s.world in
        (r, record s { world = w' }, refl, λ x. calls.poll_keeps fd msecs s.world x)

    citadel_ops-IsKept :
        (fd : ℤ) (table : ℤ → Bool)
        → IsKept
            (platform_on platform)
            (citadel_ops fd).device
            (λ s. (x : ℤ) → is_open s.world x ≡ table x)
    unfolding citadel_ops citadel_device
    citadel_ops-IsKept fd table = record {
      reading = λ command buf s h x. read_datagram-keeps fd command _ buf s x ∙ h x;
      writing = λ command buf s h x. write_datagram-keeps fd command _ buf s x ∙ h x;
      sleeping = λ us s h x. calls.usleep_keeps us s.world x ∙ h x;
      timing = λ s h x. calls.clock_keeps s.world x ∙ h x;
    }

    failed_same :
        (w w' : W) (r : ℤ × Option ℤ) (x : ℤ)
        → is_nonzero r.0 ≡ true
        → OpenEnd system files w w' r
        → is_open w' x ≡ is_open w x
    failed_same w w' r x bad (opened fd good fresh adds) = cc
    failed_same w w' r x bad (failed err neg keeps) = keeps x

    stored_ops :
        (w w' : W) (r : ℤ × Option ℤ)
        → r.0 ≡ pos 0
        → OpenEnd system files w w' r
        → (fd : ℤ) × (r.1 ≡ some fd)
    stored_ops w w' r success (opened fd good fresh adds) = (fd, refl)
    stored_ops w w' r success (failed err neg keeps) =
        let contrary : true ≡ false = sym neg ∙ ap is_neg success in cc

    with_ops-some :
        (ctx : Option ℤ) (d : OpenDevice (Driver W))
        → with_ops ctx ≡ some d
        → (fd : ℤ) × (ctx ≡ some fd) × (citadel_ops fd ≡ d)
    with_ops-some none d h = cc
    with_ops-some (some fd) d h = (fd, refl, cc)

    closed_restores :
        (name : Option (List ℕ)) (w w' : W) (fd x : ℤ)
        → (nos_device_open system name w).0 ≡ (pos 0, some fd)
        → ((y : ℤ) → is_open w' y ≡ is_open (nos_device_open system name w).1 y)
        → is_open (close_device system (some fd) w') x ≡ is_open w x
    closed_restores name w w' fd x h same =
        let r = nos_device_open system name w in
        rw (ap (λ a. a.1) h) at (
          close_device-OpenEnd system files w r.1 w' r.0 x (ap (λ a. a.0) h)
            (nos_device_open-OpenEnd system files name w) same)

    pub citadel_host-IsHost : IsHost citadel_host
    unfolding citadel_host
    citadel_host-IsHost = record {
      is_open = λ s. is_open s.world;
      failed_keeps = λ name s x bad.
          let r = nos_device_open system name s.world in
          failed_same s.world r.1 r.0 x bad (nos_device_open-OpenEnd system files name s.world);
      device_stored = λ name s success.
          let r = nos_device_open system name s.world in
          let (fd, has) =
            stored_ops s.world r.1 r.0 success
              (nos_device_open-OpenEnd system files name s.world) in
          (citadel_ops fd, ap with_ops has);
      close_restores = λ name s s' d h same x.
          let (fd, has, ops) =
            with_ops-some (nos_device_open system name s.world).0.1 d (ap (λ a. a.1) h) in
          let made : (nos_device_open system name s.world).0 ≡ (pos 0, some fd) =
            ground (arith, h, has) in
          subst (λ e. is_open (e.close s').world x ≡ is_open s.world x) ops
            (closed_restores name s.world s'.world fd x made same);
      operations_keep = λ name s d table h.
          let (fd, has, ops) =
            with_ops-some (nos_device_open system name s.world).0.1 d (ap (λ a. a.1) h) in
          subst
            (λ e.
              IsKept (platform_on platform) e.device (λ t. (x : ℤ) → is_open t.world x ≡ table x))
            ops (citadel_ops-IsKept fd table);
      wait_keeps = λ name s s' d msecs h.
          let (fd, has, ops) =
            with_ops-some (nos_device_open system name s.world).0.1 d (ap (λ a. a.1) h) in
          subst
            (λ e.
              (r : ℤ) × (t : Driver W) × (e.wait_for_interrupt msecs s' ≡ some (r, t))
              × ((x : ℤ) → is_open t.world x ≡ is_open s'.world x))
            ops (wait_for_interrupt-keeps fd msecs s');
      reset_keeps = λ name s s' d x h.
          let (fd, has, ops) =
            with_ops-some (nos_device_open system name s.world).0.1 d (ap (λ a. a.1) h) in
          subst (λ e. is_open (e.reset s').1.world x ≡ is_open s'.world x) ops
            (reset-keeps fd s'.world x);
    }
