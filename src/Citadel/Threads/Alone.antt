-- ===== src/Citadel/Threads/Alone.antt =====
-- The steps of a thread that nobody interrupts are the transaction of citadel.c.
use platform_external_nos_ho.Base.{
  ℕ, zero, suc, ℤ, List, Bool-cases, inl, inr, is_neg, is_nonzero, Option, none, some, length, ◌≡◌,
  arith,
}
use platform_external_nos_ho.Citadel.System.{in_buf_mutex, out_buf_mutex, System, Driver}
use platform_external_nos_ho.Citadel.Datagram.{read_transaction, write_transaction}
use platform_external_nos_ho.Citadel.Threads.{
  Job, reading, writing, buf_of, Place, outside, refused, locked, loaded, answered, leaving,
  finished, lock_step, fetch_step, send_step, unlock_step, move,
}

-- Up to so many steps of one thread.
unfoldable pub alone : {W : Type 0} → System W → ℕ → Job → Place → Driver W → Place × Driver W
alone system zero job p d = (p, d)
alone system (suc n) job p d = elim (move system job p d) [
  | none ↦ (p, d)
  | some (p', d') ↦ alone system n job p' d'
]

-- What the thread's caller gets: the result and the buffer, if the thread is at its end.
abbrev pub outcome : {W : Type 0} → Job → Place × Driver W → Option ((ℤ × List ℕ) × Driver W)
outcome job (refused ret, d) = some ((ret, buf_of job), d)
outcome job (finished own ret bytes, d) = some ((ret, bytes), d)
outcome job (outside, d) = none
outcome job (locked, d) = none
outcome job (loaded, d) = none
outcome job (answered own ret, d) = none
outcome job (leaving own ret bytes, d) = none

-- What the transactions do, with the caller's buffer.
abbrev pub transaction : {W : Type 0} → System W → Job → Driver W → (ℤ × List ℕ) × Driver W
transaction system (reading fd command buf) d =
    read_transaction system fd command buf (length buf) d
transaction system (writing fd command buf) d =
    let (ret, d') = write_transaction system fd command buf (length buf) d in ((ret, buf), d')

module _ {W : Type 0} (system : System W) where
  -- A thread that nobody interrupts is at its end after five steps, with the result, the caller's
  -- buffer and the driver as `read_transaction` and `write_transaction` leave them.
  pub alone-transaction :
      (job : Job) (d : Driver W)
      → outcome job (alone system 5 job outside d) ≡ some (transaction system job d)
  unfolding alone move lock_step fetch_step send_step unlock_step read_transaction write_transaction
  alone-transaction (reading fd command buf) d =
      let (locks, w₁) = system.mutex_lock in_buf_mutex d.world in
      let ((ret, filled), w₂) = system.ioctl_datagram fd command (length buf) d.in_buf w₁ in
      elim (Bool-cases (is_nonzero locks)) [
        | inl bad ↦ ground (arith, bad)
        | inr good ↦ elim (Bool-cases (is_neg ret)) [
          | inl fails ↦ ground (arith, good, fails)
          | inr works ↦ ground (arith, good, works)
        ]
      ]
  alone-transaction (writing fd command buf) d =
      let (locks, w₁) = system.mutex_lock out_buf_mutex d.world in
      elim (Bool-cases (is_nonzero locks)) [
        | inl bad ↦ ground (arith, bad)
        | inr good ↦ ground (arith, good)
      ]
