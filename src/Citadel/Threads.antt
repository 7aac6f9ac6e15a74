-- ===== src/Citadel/Threads.antt =====
-- Threads that use the driver of citadel.c at the same time: the static buffers are shared, and each
-- call of the system and each `memcpy` of `read_datagram` and `write_datagram` is one step. The steps
-- of the threads may come in any order.
pub mod Exclusion
pub mod Alone
mod Examples
use platform_external_nos_ho.Base.{
  ℕ, ℤ, List, neg_ℕ, is_neg, is_nonzero, Option, none, some, length, ◌==◌, ◌≡◌, if◌then◌else◌,
}
use platform_external_nos_ho.Citadel.System.{
  Buffer, Mutex, in_buf_mutex, out_buf_mutex, System, Driver,
}
use platform_external_nos_ho.Citadel.Datagram.{copy_out, copy_in}

-- What a thread is there to do, behind the checks of its arguments: a datagram on a descriptor, with
-- the command and the caller's buffer.
pub data Job : Type 0 where
  reading : (fd : ℤ) (command : ℕ) (buf : List ℕ) → Job
  writing : (fd : ℤ) (command : ℕ) (buf : List ℕ) → Job

abbrev pub mutex_of : Job → Mutex
mutex_of (reading fd command buf) = in_buf_mutex
mutex_of (writing fd command buf) = out_buf_mutex

abbrev pub buf_of : Job → List ℕ
buf_of (reading fd command buf) = buf
buf_of (writing fd command buf) = buf

-- Where a thread is. `own` is no variable of the code: it records what the thread's own ioctl did,
-- its result with the buffer that a read's ioctl left, or that a write's ioctl was given. `ret` is the
-- code's variable, and `bytes` the caller's buffer.
pub data Place : Type 0 where
  outside : Place
  refused : (ret : ℤ) → Place
  locked : Place
  loaded : Place
  answered : (own : ℤ × Buffer) (ret : ℤ) → Place
  leaving : (own : ℤ × Buffer) (ret : ℤ) (bytes : List ℕ) → Place
  finished : (own : ℤ × Buffer) (ret : ℤ) (bytes : List ℕ) → Place

module _ {W : Type 0} (system : System W) where
  -- `pthread_mutex_lock`
  unfoldable pub lock_step : Job → Driver W → Place × Driver W
  lock_step job d =
      let (res, w) = system.mutex_lock (mutex_of job) d.world in
      if is_nonzero res
      then (refused (neg_ℕ (system.errno w)), record d { world = w })
      else (locked, record d { world = w })

  -- The ioctl of a read. A failure goes on behind the `memcpy`.
  unfoldable pub fetch_step : ℤ → ℕ → List ℕ → Driver W → Place × Driver W
  fetch_step fd command buf d =
      let ((ret, filled), w) = system.ioctl_datagram fd command (length buf) d.in_buf d.world in
      let d' = record d { in_buf = filled; world = w } in
      if is_neg ret
      then (leaving (ret, filled) (neg_ℕ (system.errno w)) buf, d')
      else (answered (ret, filled) ret, d')

  -- The ioctl of a write.
  unfoldable pub send_step : ℤ → ℕ → List ℕ → Driver W → Place × Driver W
  send_step fd command buf d =
      let ((ret, left), w) = system.ioctl_datagram fd command (length buf) d.out_buf d.world in
      let ret' = if is_neg ret then neg_ℕ (system.errno w) else ret in
      (leaving (ret, d.out_buf) ret' buf, record d { out_buf = left; world = w })

  -- `pthread_mutex_unlock`
  unfoldable pub unlock_step : Job → ℤ × Buffer → ℤ → List ℕ → Driver W → Place × Driver W
  unlock_step job own ret bytes d =
      let (res, w) = system.mutex_unlock (mutex_of job) d.world in
      let ret' = if is_nonzero res then neg_ℕ (system.errno w) else ret in
      (finished own ret' bytes, record d { world = w })

  -- The next step of a thread; `none` at its end.
  unfoldable pub move : Job → Place → Driver W → Option (Place × Driver W)
  unfolding lock_step fetch_step send_step unlock_step
  move job outside d = some (lock_step job d)
  move job (refused ret) d = none
  move (reading fd command buf) locked d = some (fetch_step fd command buf d)
  move (writing fd command buf) locked d =
      some (loaded, record d { out_buf = copy_in buf (length buf) d.out_buf })
  move (reading fd command buf) loaded d = none
  move (writing fd command buf) loaded d = some (send_step fd command buf d)
  move (reading fd command buf) (answered own ret) d =
      some (leaving own ret (copy_out d.in_buf (length buf) buf), d)
  move (writing fd command buf) (answered own ret) d = none
  move job (leaving own ret bytes) d = some (unlock_step job own ret bytes d)
  move job (finished own ret bytes) d = none

-- All threads, by number, and the driver that they share.
pub record Threads (W : Type 0) : Type 0 where
  pub driver : Driver W
  pub place : ℕ → Place

abbrev pub update : (ℕ → Place) → ℕ → Place → ℕ → Place
update places i p j = if j == i then p else places j

-- Thread `i` takes its next step.
pub data Step {W : Type 0} (system : System W) (jobs : ℕ → Job) (t : Threads W)
    : Threads W → Type 0 where
  pick :
      (i : ℕ) {p : Place} {d : Driver W}
      → move system (jobs i) (t.place i) t.driver ≡ some (p, d)
      → Step system jobs t (record { driver = d; place = update t.place i p })

-- The states that can be reached from a driver that no thread has entered.
pub data Reach {W : Type 0} (system : System W) (jobs : ℕ → Job) (d : Driver W)
    : Threads W → Type 0 where
  start : Reach system jobs d (record { driver = d; place = λ _. outside })
  later : {t u : Threads W} → Reach system jobs d t → Step system jobs t u → Reach system jobs d u
