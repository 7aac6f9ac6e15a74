-- ===== src/Citadel/Control.antt =====
-- The other operations of citadel.c: opening, closing, resetting and waiting.
pub mod Laws
use platform_external_nos_ho.Base.{
  ℕ, List, [], ◌∷◌, M, ℤ, pos, neg_ℕ, is_neg, is_nonzero, not, Option, none, some, if◌then◌else◌,
}
use platform_external_nos_ho.Citadel.System.{System}

-- "/dev/citadel0"
abbrev pub dev_citadel : List ℕ
dev_citadel =
    0x2F ∷ 0x64 ∷ 0x65 ∷ 0x76 ∷ 0x2F ∷ 0x63 ∷ 0x69 ∷ 0x74 ∷ 0x61 ∷ 0x64 ∷ 0x65 ∷ 0x6C ∷ 0x30 ∷ []

-- "/dev/gsc0"
abbrev pub dev_dauntless : List ℕ
dev_dauntless = 0x2F ∷ 0x64 ∷ 0x65 ∷ 0x76 ∷ 0x2F ∷ 0x67 ∷ 0x73 ∷ 0x63 ∷ 0x30 ∷ []

module _ {W : Type 0} (system : System W) where
  -- The descriptor is read through `ctx` with no test for null: `none` is that undefined read.
  unfoldable pub wait_for_interrupt : Option ℤ → ℤ → W → Option (ℤ × W)
  wait_for_interrupt none msecs w = none
  wait_for_interrupt (some fd) msecs w = some (system.poll_in fd msecs w)

  unfoldable pub reset : Option ℤ → M W ℤ
  reset none w = (neg_ℕ system.enodev, w)
  reset (some fd) w =
      let (ret, w') = system.ioctl_reset fd w in
      if is_neg fd
      then (neg_ℕ system.enodev, w)
      else if is_neg ret
      then (neg_ℕ (system.errno w'), w')
      else (pos 0, w')

  unfoldable pub close_device : Option ℤ → W → W
  close_device none w = w
  close_device (some fd) w = if is_neg fd then w else system.free_int (system.close_fd fd w).1

  unfoldable pub default_device : M W (Option (List ℕ))
  default_device w =
      let (citadel, w₁) = system.stat dev_citadel w in
      let (dauntless, w₂) = system.stat dev_dauntless w₁ in
      if not (is_nonzero citadel)
      then (some dev_citadel, w₁)
      else if not (is_nonzero dauntless)
      then (some dev_dauntless, w₂)
      else (none, w₂)

  -- The device name, the given one if there is one.
  unfoldable pub chosen_device : Option (List ℕ) → M W (Option (List ℕ))
  unfolding default_device
  chosen_device none w = default_device w
  chosen_device (some name) w = (some name, w)

  -- From `open` on.
  unfoldable pub open_named : List ℕ → M W (ℤ × Option ℤ)
  open_named name w =
      let (fd, w₁) = system.open_rdwr name w in
      let (allocated, w₂) = system.malloc_int w₁ in
      let (_, w₃) = system.close_fd fd w₂ in
      if is_neg fd
      then ((neg_ℕ (system.errno w₁), none), w₁)
      else if not allocated
      then ((neg_ℕ system.enomem, none), w₃)
      else ((pos 0, some fd), w₂)

  -- The result with `dev->ctx` if it was stored; the operations stored with it are those here.
  unfoldable pub nos_device_open : Option (List ℕ) → M W (ℤ × Option ℤ)
  unfolding chosen_device
  nos_device_open device_name w =
      let (chosen, w') = chosen_device device_name w in
      elim chosen [ none ↦ ((neg_ℕ system.enodev, none), w') | some name ↦ open_named name w' ]
