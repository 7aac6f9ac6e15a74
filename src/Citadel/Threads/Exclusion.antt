-- ===== src/Citadel/Threads/Exclusion.antt =====
-- Threads that share the driver do not disturb each other.
pub mod Sharing
pub mod Effect
pub mod Invariant
use mathlib.Core.Path.{subst}
use platform_external_nos_ho.Base.{ℕ, ℤ, List, true, ◌≡◌}
use platform_external_nos_ho.Citadel.System.{Buffer, System, Driver}
use platform_external_nos_ho.Citadel.Threads.{
  Job, reading, writing, mutex_of, Place, finished, Threads, Reach,
}
use platform_external_nos_ho.Citadel.Threads.Exclusion.Sharing.{
  IsMutex, inside, buffer_of, Gets, Holds, Owns,
}
use platform_external_nos_ho.Citadel.Threads.Exclusion.Invariant.{reach-Invariant}

-- What a thread has got when it is done.
abbrev pub IsOwn : Job → ℤ × Buffer → List ℕ → Type 0
IsOwn (reading fd command buf) own bytes = Gets own buf bytes
IsOwn (writing fd command buf) own bytes = Holds own.1 buf

finished-IsOwn :
    (b : Buffer) (job : Job) (own : ℤ × Buffer) (ret : ℤ) (bytes : List ℕ)
    → Owns b job (finished own ret bytes)
    → IsOwn job own bytes
finished-IsOwn b (reading fd command buf) own ret bytes o = o
finished-IsOwn b (writing fd command buf) own ret bytes o = o

module _ {W : Type 0} (system : System W) (jobs : ℕ → Job) (mutex : IsMutex system) where
  -- On POSIX mutexes and from a driver that no thread has entered: whatever the order of the
  -- threads' steps, no two of them are at the same time between the lock and the unlock of the same
  -- mutex.
  pub threads_exclude :
      (d : Driver W) (t : Threads W)
      → Reach system jobs d t
      → (i j : ℕ) → inside (t.place i) ≡ true
      → inside (t.place j) ≡ true
      → mutex_of (jobs i) ≡ mutex_of (jobs j)
      → i ≡ j
  threads_exclude d t reached i j = (reach-Invariant system jobs mutex d t reached).one_inside i j

  -- On POSIX mutexes and from a driver that no thread has entered: whatever the order of the
  -- threads' steps, a thread that has done its datagram has had its own. A read has copied what its
  -- own ioctl left in the shared buffer, or nothing if that failed, and the ioctl of a write was given
  -- the bytes of the thread's own caller.
  pub threads-IsOwn :
      (d : Driver W) (t : Threads W)
      → Reach system jobs d t
      → (i : ℕ) (own : ℤ × Buffer) (ret : ℤ) (bytes : List ℕ) → t.place i ≡ finished own ret bytes
      → IsOwn (jobs i) own bytes
  threads-IsOwn d t reached i own ret bytes done =
      let inv = reach-Invariant system jobs mutex d t reached in
      finished-IsOwn (buffer_of (mutex_of (jobs i)) t.driver) (jobs i) own ret bytes (
        subst (λ (q : Place). Owns (buffer_of (mutex_of (jobs i)) t.driver) (jobs i) q) done
          (inv.owns i))
