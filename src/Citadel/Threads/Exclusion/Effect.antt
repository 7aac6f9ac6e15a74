-- ===== src/Citadel/Threads/Exclusion/Effect.antt =====
-- What one step of a thread does to the mutexes and to the buffers.
use mathlib.Core.Path.{subst}
use platform_external_nos_ho.Base.{
  ℕ, ℤ, neg_ℕ, List, true, false, is_neg, is_nonzero, length, some, ◌≡◌, ◌≢◌, refl, ap, ◌∙◌,
  Bool-cases, inl, inr, arith,
}
use platform_external_nos_ho.Citadel.System.{
  Buffer, Mutex, in_buf_mutex, out_buf_mutex, System, Driver,
}
use platform_external_nos_ho.Citadel.Datagram.{copy_out, copy_in}
use platform_external_nos_ho.Citadel.Threads.{
  Job, reading, writing, mutex_of, Place, outside, refused, locked, loaded, answered, leaving,
  finished, lock_step, fetch_step, send_step, unlock_step, move,
}
use platform_external_nos_ho.Citadel.Threads.Exclusion.Sharing.{
  IsMutex, inside, buffer_of, Owns, Holds-copy_in,
}

buffer_world :
    {W : Type 0} (n : Mutex) (d : Driver W) (w : W)
    → buffer_of n (record d { world = w }) ≡ buffer_of n d
buffer_world in_buf_mutex d w = refl
buffer_world out_buf_mutex d w = refl

module _ {W : Type 0} (d : Driver W) (b : Buffer) (w : W) where
  apart_in :
      (n : Mutex)
      → n ≢ in_buf_mutex
      → buffer_of n (record d { in_buf = b; world = w }) ≡ buffer_of n d
  apart_in in_buf_mutex ne = absurd (ne refl)
  apart_in out_buf_mutex ne = refl

  apart_out :
      (n : Mutex)
      → n ≢ out_buf_mutex
      → buffer_of n (record d { out_buf = b; world = w }) ≡ buffer_of n d
  apart_out in_buf_mutex ne = refl
  apart_out out_buf_mutex ne = absurd (ne refl)

module _ {W : Type 0} (system : System W) (mutex : IsMutex system) where
  open mutex use {taken, lock_enters, lock_fails, lock_apart, unlock_apart, ioctl_keeps}

  -- What a step from `p` to `p'` may do to the driver.
  pub record IsEffect (job : Job) (p : Place) (d : Driver W) (p' : Place) (d' : Driver W)
      : Type 0 where
    pub apart_taken : (n : Mutex) → n ≢ mutex_of job → taken d'.world n ≡ taken d.world n
    pub apart_buffer : (n : Mutex) → n ≢ mutex_of job → buffer_of n d' ≡ buffer_of n d
    pub keeps_buffer : inside p ≡ false → buffer_of (mutex_of job) d' ≡ buffer_of (mutex_of job) d
    pub keeps_taken :
        inside p ≡ false
        → taken d.world (mutex_of job) ≡ true
        → taken d'.world (mutex_of job) ≡ true
    pub was_free : inside p ≡ false → inside p' ≡ true → taken d.world (mutex_of job) ≡ false
    pub is_taken :
        (inside p ≡ true → taken d.world (mutex_of job) ≡ true)
        → inside p' ≡ true
        → taken d'.world (mutex_of job) ≡ true
    pub owns : Owns (buffer_of (mutex_of job) d) job p → Owns (buffer_of (mutex_of job) d') job p'

  lock_step-IsEffect :
      (job : Job) (d : Driver W)
      → IsEffect job outside d (lock_step system job d).0 (lock_step system job d).1
  unfolding lock_step
  lock_step-IsEffect job d =
      elim (Bool-cases (is_nonzero (system.mutex_lock (mutex_of job) d.world).0)) [
        | inl bad ↦ rw bad (record {
          apart_taken = λ n ne. lock_apart (mutex_of job) n d.world ne;
          apart_buffer = λ n ne. buffer_world n d (system.mutex_lock (mutex_of job) d.world).1;
          keeps_buffer =
              λ h. buffer_world (mutex_of job) d (system.mutex_lock (mutex_of job) d.world).1;
          keeps_taken = λ h t. lock_fails (mutex_of job) d.world bad ∙ t;
          was_free = λ h i. absurd (ground arith);
          is_taken = λ h i. absurd (ground arith);
          owns = λ o. tt;
        })
        | inr good ↦ rw good (record {
          apart_taken = λ n ne. lock_apart (mutex_of job) n d.world ne;
          apart_buffer = λ n ne. buffer_world n d (system.mutex_lock (mutex_of job) d.world).1;
          keeps_buffer =
              λ h. buffer_world (mutex_of job) d (system.mutex_lock (mutex_of job) d.world).1;
          keeps_taken = λ h t. (lock_enters (mutex_of job) d.world good).1;
          was_free = λ h i. (lock_enters (mutex_of job) d.world good).0;
          is_taken = λ h i. (lock_enters (mutex_of job) d.world good).1;
          owns = λ o. tt;
        })
      ]

  -- A step of a thread that is inside.
  from_inside :
      (job : Job) (p p' : Place) (d d' : Driver W)
      → inside p ≡ true
      → ((n : Mutex) → n ≢ mutex_of job → taken d'.world n ≡ taken d.world n)
      → ((n : Mutex) → n ≢ mutex_of job → buffer_of n d' ≡ buffer_of n d)
      → (inside p' ≡ true → taken d'.world (mutex_of job) ≡ taken d.world (mutex_of job))
      → (Owns (buffer_of (mutex_of job) d) job p → Owns (buffer_of (mutex_of job) d') job p')
      → IsEffect job p d p' d'
  from_inside job p p' d d' here apart buffers keeps owned = record {
    apart_taken = apart;
    apart_buffer = buffers;
    keeps_buffer = λ h. absurd (ground (arith, here, h));
    keeps_taken = λ h t. absurd (ground (arith, here, h));
    was_free = λ h i. absurd (ground (arith, here, h));
    is_taken = λ t i. keeps i ∙ t here;
    owns = owned;
  }

  unlock_step-IsEffect :
      (job : Job) (own : ℤ × Buffer) (ret : ℤ) (bytes : List ℕ) (d : Driver W)
      → IsEffect job
          (leaving own ret bytes)
          d
          (unlock_step system job own ret bytes d).0
          (unlock_step system job own ret bytes d).1
  unfolding unlock_step
  unlock_step-IsEffect (reading fd command buf) own ret bytes d =
      from_inside (reading fd command buf) (leaving own ret bytes) (finished own _ bytes) d _ refl
        (λ n ne. unlock_apart in_buf_mutex n d.world ne)
        (λ n ne. buffer_world n d (system.mutex_unlock in_buf_mutex d.world).1)
        (λ i. absurd (ground arith)) (λ o. o)
  unlock_step-IsEffect (writing fd command buf) own ret bytes d =
      from_inside (writing fd command buf) (leaving own ret bytes) (finished own _ bytes) d _ refl
        (λ n ne. unlock_apart out_buf_mutex n d.world ne)
        (λ n ne. buffer_world n d (system.mutex_unlock out_buf_mutex d.world).1)
        (λ i. absurd (ground arith)) (λ o. o)

  fetch_step-IsEffect :
      (fd : ℤ) (command : ℕ) (buf : List ℕ) (d : Driver W)
      → IsEffect
          (reading fd command buf)
          locked
          d
          (fetch_step system fd command buf d).0
          (fetch_step system fd command buf d).1
  unfolding fetch_step
  fetch_step-IsEffect fd command buf d =
      let answer = system.ioctl_datagram fd command (length buf) d.in_buf d.world in
      let job = reading fd command buf in
      let d' : Driver W = record d { in_buf = answer.0.1; world = answer.1 } in
      let keeps = ioctl_keeps fd command (length buf) d.in_buf d.world in
      elim (Bool-cases (is_neg answer.0.0)) [
        | inl bad ↦ rw bad (
            from_inside job locked (leaving answer.0 (neg_ℕ (system.errno answer.1)) buf) d d' refl
              (λ n ne. keeps n) (apart_in d answer.0.1 answer.1) (λ i. keeps in_buf_mutex)
              (λ o. rw bad refl))
        | inr good ↦ rw good (
            from_inside job locked (answered answer.0 answer.0.0) d d' refl (λ n ne. keeps n)
              (apart_in d answer.0.1 answer.1) (λ i. keeps in_buf_mutex) (λ o. (refl, good)))
      ]

  load-IsEffect :
      (fd : ℤ) (command : ℕ) (buf : List ℕ) (d : Driver W)
      → IsEffect
          (writing fd command buf)
          locked
          d
          loaded
          (record d { out_buf = copy_in buf (length buf) d.out_buf })
  load-IsEffect fd command buf d =
      from_inside (writing fd command buf) locked loaded d
        (record d { out_buf = copy_in buf (length buf) d.out_buf }) refl (λ n ne. refl)
        (apart_out d (copy_in buf (length buf) d.out_buf) d.world) (λ i. refl)
        (λ o. Holds-copy_in buf d.out_buf)

  send_step-IsEffect :
      (fd : ℤ) (command : ℕ) (buf : List ℕ) (d : Driver W)
      → IsEffect
          (writing fd command buf)
          loaded
          d
          (send_step system fd command buf d).0
          (send_step system fd command buf d).1
  unfolding send_step
  send_step-IsEffect fd command buf d =
      let answer = system.ioctl_datagram fd command (length buf) d.out_buf d.world in
      let keeps = ioctl_keeps fd command (length buf) d.out_buf d.world in
      from_inside (writing fd command buf) loaded (leaving (answer.0.0, d.out_buf) _ buf) d
        (record d { out_buf = answer.0.1; world = answer.1 }) refl (λ n ne. keeps n)
        (apart_out d answer.0.1 answer.1) (λ i. keeps out_buf_mutex) (λ o. o)

  copy-IsEffect :
      (fd : ℤ) (command : ℕ) (buf : List ℕ) (own : ℤ × Buffer) (ret : ℤ) (d : Driver W)
      → IsEffect
          (reading fd command buf)
          (answered own ret)
          d
          (leaving own ret (copy_out d.in_buf (length buf) buf))
          d
  copy-IsEffect fd command buf own ret d =
      from_inside (reading fd command buf) (answered own ret)
        (leaving own ret (copy_out d.in_buf (length buf) buf)) d d refl (λ n ne. refl)
        (λ n ne. refl) (λ i. refl) (λ o. rw o.1 (ap (λ b. copy_out b (length buf) buf) o.0))

  moved :
      (job : Job) (p p' : Place) (d d' : Driver W) (step : Place × Driver W)
      → IsEffect job p d step.0 step.1
      → some step ≡ some (p', d')
      → IsEffect job p d p' d'
  moved job p p' d d' step effect h =
      let same : step ≡ (p', d') = ground (arith, h) in
      subst (λ (t : Place × Driver W). IsEffect job p d t.0 t.1) same effect

  pub move-IsEffect :
      (job : Job) (p p' : Place) (d d' : Driver W)
      → move system job p d ≡ some (p', d')
      → IsEffect job p d p' d'
  unfolding move
  move-IsEffect job outside p' d d' h = moved job outside p' d d' _ (lock_step-IsEffect job d) h
  move-IsEffect job (refused ret) p' d d' h = absurd (ground (arith, h))
  move-IsEffect (reading fd command buf) locked p' d d' h =
      moved (reading fd command buf) locked p' d d' _ (fetch_step-IsEffect fd command buf d) h
  move-IsEffect (writing fd command buf) locked p' d d' h =
      moved (writing fd command buf) locked p' d d' _ (load-IsEffect fd command buf d) h
  move-IsEffect (reading fd command buf) loaded p' d d' h = absurd (ground (arith, h))
  move-IsEffect (writing fd command buf) loaded p' d d' h =
      moved (writing fd command buf) loaded p' d d' _ (send_step-IsEffect fd command buf d) h
  move-IsEffect (reading fd command buf) (answered own ret) p' d d' h =
      moved (reading fd command buf) (answered own ret) p' d d' _
        (copy-IsEffect fd command buf own ret d) h
  move-IsEffect (writing fd command buf) (answered own ret) p' d d' h = absurd (ground (arith, h))
  move-IsEffect job (leaving own ret bytes) p' d d' h =
      moved job (leaving own ret bytes) p' d d' _ (unlock_step-IsEffect job own ret bytes d) h
  move-IsEffect job (finished own ret bytes) p' d d' h = absurd (ground (arith, h))
