-- ===== src/Client/Host.antt =====
-- What a client takes from the host's variant of libnos_datagram: `nos_device_open`, and the operations
-- of a device that it has opened.
use platform_external_nos_ho.Base.{ℕ, ◌≡◌, List, Bool, Option, some, M, ℤ, pos, is_nonzero, true}
use platform_external_nos_ho.Device.{NosDevice, Platform}
use platform_external_nos_ho.Transport.Frame.{IsKept}

-- `device.ops` with `device.ctx`. Waiting gives nothing where it is undefined.
pub record OpenDevice (W : Type 0) : Type 0 where
  pub device : NosDevice W
  pub wait_for_interrupt : ℤ → W → Option (ℤ × W)
  pub reset : M W ℤ
  pub close : W → W

-- `nos_device_open`: the result, and the device where it has been stored.
pub record Host (W : Type 0) : Type 0 where
  pub platform : Platform W
  pub nos_device_open : Option (List ℕ) → M W (ℤ × Option (OpenDevice W))

-- What a host promises of the descriptors: opening changes none if it fails, and if it succeeds it has
-- stored a device, whose operations are defined and keep them, and closing it in a world with the same descriptors
-- gives back those of before.
pub record IsHost {W : Type 0} (host : Host W) : Type 0 where
  pub is_open : W → ℤ → Bool
  pub failed_keeps :
      (name : Option (List ℕ)) (w : W) (x : ℤ)
      → is_nonzero (host.nos_device_open name w).0.0 ≡ true
      → is_open (host.nos_device_open name w).1 x ≡ is_open w x
  pub device_stored :
      (name : Option (List ℕ)) (w : W)
      → (host.nos_device_open name w).0.0 ≡ pos 0
      → (d : OpenDevice W) × ((host.nos_device_open name w).0.1 ≡ some d)
  pub close_restores :
      (name : Option (List ℕ)) (w w' : W) (d : OpenDevice W)
      → (host.nos_device_open name w).0 ≡ (pos 0, some d)
      → ((x : ℤ) → is_open w' x ≡ is_open (host.nos_device_open name w).1 x)
      → (x : ℤ) → is_open (d.close w') x ≡ is_open w x
  pub operations_keep :
      (name : Option (List ℕ)) (w₀ : W) (d : OpenDevice W) (table : ℤ → Bool)
      → (host.nos_device_open name w₀).0 ≡ (pos 0, some d)
      → IsKept host.platform d.device (λ w. (x : ℤ) → is_open w x ≡ table x)
  pub wait_keeps :
      (name : Option (List ℕ)) (w₀ w : W) (d : OpenDevice W) (msecs : ℤ)
      → (host.nos_device_open name w₀).0 ≡ (pos 0, some d)
      → (r : ℤ) × (w' : W) × (d.wait_for_interrupt msecs w ≡ some (r, w'))
        × ((x : ℤ) → is_open w' x ≡ is_open w x)
  pub reset_keeps :
      (name : Option (List ℕ)) (w₀ w : W) (d : OpenDevice W) (x : ℤ)
      → (host.nos_device_open name w₀).0 ≡ (pos 0, some d)
      → is_open (d.reset w).1 x ≡ is_open w x
