-- ===== src/Transport/Retry/Laws.antt =====
-- The retries of `nos_device_read` and `nos_device_write`, and what a well-behaved device keeps.
use platform_external_nos_ho.Base.{
  ℕ, zero, suc, ◌<◌, ◌≡◌, ◌≢◌, refl, ◌∙◌, List, ℤ, pos, neg_ℕ, neg_ℤ, eqb_ℤ, eqb_ℤ-eq, arith, true,
  false, length, Bool-cases, inl, inr,
}
use platform_external_nos_ho.Device.{NosDevice, Platform}
use platform_external_nos_ho.Transport.Context.{retry_count, retry_wait_time_us}
use platform_external_nos_ho.Transport.Retry.{read_tries, nos_device_read, nos_device_write}

eqb_ℤ_self : (a : ℤ) → eqb_ℤ a a ≡ true
eqb_ℤ_self (pos n) = ground arith
eqb_ℤ_self (ℤ.negsuc n) = ground arith

eqb_ℤ_ne : (a b : ℤ) → a ≢ b → eqb_ℤ a b ≡ false
eqb_ℤ_ne a b ne = elim (Bool-cases (eqb_ℤ a b)) [
  | inl same ↦ absurd (ne (eqb_ℤ-eq a b same))
  | inr other ↦ other
]

-- 0 is no negated error number.
zero_ne_neg : (n : ℕ) → 0 < n → pos 0 ≢ neg_ℕ n
zero_ne_neg zero h = absurd (omega arith)
zero_ne_neg (suc n) h = λ e. cc

-- The memory and the bus: a read writes into the caller's buffer only.
pub record IsDevice {W : Type 0} (dev : NosDevice W) : Type 0 where
  pub keeps_length :
      (command : ℕ) (buf : List ℕ) (w : W) → length (dev.read command buf w).0.1 ≡ length buf

module _ {W : Type 0} (platform : Platform W) (dev : NosDevice W) (command : ℕ) where
  -- The buffer and the world after `n` tries, each followed by the sleep.
  unfoldable pub slept : ℕ → List ℕ → W → List ℕ × W
  slept zero buf w = (buf, w)
  slept (suc n) buf w =
      let ((_, buf'), w') = dev.read command buf w in
      slept n buf' (platform.usleep retry_wait_time_us w')

  -- The first `n` tries are all answered by -EAGAIN.
  abbrev pub Asleep : ℕ → List ℕ → W → Type 0
  Asleep zero buf w = Unit {0}
  Asleep (suc n) buf w =
      ((dev.read command buf w).0.0 ≡ neg_ℕ platform.eagain)
      × Asleep n (dev.read command buf w).0.1
          (platform.usleep retry_wait_time_us (dev.read command buf w).1)

  read_tries_awake :
      (retries n : ℕ) (buf : List ℕ) (w : W)
      → n < retries
      → Asleep n buf w
      → (dev.read command (slept n buf w).0 (slept n buf w).1).0.0 ≢ neg_ℕ platform.eagain
      → read_tries platform dev command retries buf w ≡ (
          let ((err, buf'), w') = dev.read command (slept n buf w).0 (slept n buf w).1 in
          ((neg_ℤ err, buf'), w'))
  unfolding read_tries slept
  read_tries_awake zero n buf w h a ne = absurd (omega arith)
  read_tries_awake (suc retries) zero buf w h a ne = rw (eqb_ℤ_ne _ _ ne)
  read_tries_awake (suc retries) (suc n) buf w h a ne =
      rw (a.0, eqb_ℤ_self (neg_ℕ platform.eagain))
        (read_tries_awake retries n _ _ (omega arith) a.1 ne)

  read_tries-Asleep :
      (retries : ℕ) (buf : List ℕ) (w : W)
      → Asleep retries buf w
      → read_tries platform dev command retries buf w
        ≡ ((pos platform.etimedout, (slept retries buf w).0), (slept retries buf w).1)
  unfolding read_tries slept
  read_tries-Asleep zero buf w a = refl
  read_tries-Asleep (suc retries) buf w a =
      rw (a.0, eqb_ℤ_self (neg_ℕ platform.eagain)) (read_tries-Asleep retries _ _ a.1)

  -- If the device answers the first `n` reads by -EAGAIN, fewer than 240, and the next one
  -- otherwise, the result is that answer, negated, after as many sleeps.
  pub nos_device_read_awake :
      (n : ℕ) (buf : List ℕ) (w : W)
      → n < retry_count
      → Asleep n buf w
      → (dev.read command (slept n buf w).0 (slept n buf w).1).0.0 ≢ neg_ℕ platform.eagain
      → nos_device_read platform dev command buf w ≡ (
          let ((err, buf'), w') = dev.read command (slept n buf w).0 (slept n buf w).1 in
          ((neg_ℤ err, buf'), w'))
  unfolding nos_device_read
  nos_device_read_awake n buf w h a ne = read_tries_awake retry_count n buf w h a ne

  -- If the device answers 240 reads by -EAGAIN, the result is ETIMEDOUT, after 240 sleeps.
  pub nos_device_read-Asleep :
      (buf : List ℕ) (w : W)
      → Asleep retry_count buf w
      → nos_device_read platform dev command buf w
        ≡ ((pos platform.etimedout, (slept retry_count buf w).0), (slept retry_count buf w).1)
  unfolding nos_device_read
  nos_device_read-Asleep buf w a = read_tries-Asleep retry_count buf w a

  read_tries-length :
      IsDevice dev
      → (retries : ℕ) (buf : List ℕ) (w : W)
      → length (read_tries platform dev command retries buf w).0.1 ≡ length buf
  unfolding read_tries
  read_tries-length ok zero buf w = refl
  read_tries-length ok (suc retries) buf w =
      let ((err, buf'), w') = dev.read command buf w in
      let same : length buf' ≡ length buf = ok.keeps_length command buf w in
      elim (Bool-cases (eqb_ℤ err (neg_ℕ platform.eagain))) [
        | inl again ↦ rw again (read_tries-length ok retries buf' _ ∙ same)
        | inr other ↦ rw other same
      ]

  -- Whatever the outcome, the buffer keeps its length.
  pub nos_device_read-length :
      IsDevice dev
      → (buf : List ℕ) (w : W)
      → length (nos_device_read platform dev command buf w).0.1 ≡ length buf
  unfolding nos_device_read
  nos_device_read-length ok buf w = read_tries-length ok retry_count buf w

  -- A first answer of 0 is the result.
  pub nos_device_read_first :
      (buf answer : List ℕ) (w w' : W)
      → 0 < platform.eagain
      → dev.read command buf w ≡ ((pos 0, answer), w')
      → nos_device_read platform dev command buf w ≡ ((pos 0, answer), w')
  nos_device_read_first buf answer w w' h e =
      nos_device_read_awake 0 buf w (omega arith) tt
        (unfold slept in rw e (zero_ne_neg platform.eagain h))
      ∙ unfold slept in rw e

  pub nos_device_write_first :
      (buf : List ℕ) (w w' : W)
      → 0 < platform.eagain
      → dev.write command buf w ≡ (pos 0, w')
      → nos_device_write platform dev command buf w ≡ (pos 0, w')
  unfolding nos_device_write
  nos_device_write_first buf w w' h e =
      rw (e, eqb_ℤ_ne (pos 0) (neg_ℕ platform.eagain) (zero_ne_neg platform.eagain h))
