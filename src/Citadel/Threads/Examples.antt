-- ===== src/Citadel/Threads/Examples.antt =====
-- Two readers and a writer on a system for tests, whose mutexes refuse a second lock.
use platform_external_nos_ho.Base.{
  ℕ, zero, suc, ◌%◌, ◌≡◌, ◌≢◌, refl, List, [], ◌∷◌, ℤ, pos, negsuc, Bool, true, false, ltb,
  if◌then◌else◌, arith, Option, none, some,
}
use platform_external_nos_ho.Citadel.System.{
  Buffer, Mutex, in_buf_mutex, out_buf_mutex, System, Driver,
}
use platform_external_nos_ho.Citadel.Datagram.{bytes_from, copy_out, copy_in}
use platform_external_nos_ho.Citadel.Threads.{
  Job, reading, writing, Place, outside, Threads, pick, Reach, start, later, update, lock_step,
  fetch_step, send_step, unlock_step, move,
}
use platform_external_nos_ho.Citadel.Threads.Exclusion.Sharing.{IsMutex}
use platform_external_nos_ho.Citadel.Threads.Exclusion.{IsOwn, threads_exclude, threads-IsOwn}

record Mutexes : Type 0 where
  in_taken : Bool
  out_taken : Bool

abbrev taken_in : Mutexes → Mutex → Bool
taken_in w in_buf_mutex = w.in_taken
taken_in w out_buf_mutex = w.out_taken

abbrev set_taken : Mutexes → Mutex → Bool → Mutexes
set_taken w in_buf_mutex b = record w { in_taken = b }
set_taken w out_buf_mutex b = record w { out_taken = b }

-- A datagram is answered by its command's low byte, over its whole length.
abbrev checking : System Mutexes
checking = record {
  enodev = 19;
  e2big = 7;
  enomem = 12;
  errno = λ w. 35;
  mutex_lock = λ m w. if taken_in w m then (pos 35, w) else (pos 0, set_taken w m true);
  mutex_unlock = λ m w. (pos 0, set_taken w m false);
  ioctl_datagram =
      λ fd command len b w. ((pos 0, λ i. if ltb i len then command % 256 else b i), w);
  ioctl_reset = λ fd w. (pos 0, w);
  poll_in = λ fd msecs w. (pos 0, w);
  stat = λ name w. (negsuc 0, w);
  open_rdwr = λ name w. (pos 3, w);
  malloc_int = λ w. (true, w);
  free_int = λ w. w;
  close_fd = λ fd w. (pos 0, w);
}

set_apart :
    (m n : Mutex) (w : Mutexes) (b : Bool) → n ≢ m → taken_in (set_taken w m b) n ≡ taken_in w n
set_apart in_buf_mutex in_buf_mutex w b ne = absurd (ne refl)
set_apart in_buf_mutex out_buf_mutex w b ne = refl
set_apart out_buf_mutex in_buf_mutex w b ne = refl
set_apart out_buf_mutex out_buf_mutex w b ne = absurd (ne refl)

set_here : (m : Mutex) (w : Mutexes) (b : Bool) → taken_in (set_taken w m b) m ≡ b
set_here in_buf_mutex w b = refl
set_here out_buf_mutex w b = refl

checking-IsMutex : IsMutex checking
checking-IsMutex = record {
  taken = taken_in;
  lock_enters = λ m w h. ground (arith, h, set_here m w true);
  lock_fails = λ m w h. ground (arith, h);
  lock_apart = λ m n w ne. ground (arith, set_apart m n w true ne);
  unlock_apart = λ m n w ne. set_apart m n w false ne;
  ioctl_keeps = λ fd command len b w n. refl;
}

abbrev jobs : ℕ → Job
jobs zero = reading (pos 3) 0x101 (7 ∷ 7 ∷ [])
jobs (suc zero) = reading (pos 3) 0x102 (7 ∷ 7 ∷ 7 ∷ [])
jobs (suc (suc n)) = writing (pos 3) 0x103 (5 ∷ 6 ∷ [])

abbrev fresh : Driver Mutexes
fresh = record {
  in_buf = λ i. 0;
  out_buf = λ i. 0;
  world = record { in_taken = false; out_taken = false };
}

-- A run of the threads, with how it was reached.
record Run : Type 0 where
  last : Threads Mutexes
  reach : Reach checking jobs fresh last

turned :
    (r : Run) (i : ℕ) (next : Option (Place × Driver Mutexes))
    → move checking (jobs i) (r.last.place i) r.last.driver ≡ next
    → Run
turned r i none h = r
turned r i (some (p, d)) h = record {
  last = record { driver = d; place = update r.last.place i p };
  reach = later r.reach (pick i h);
}

-- The threads take their steps in a given order.
run : List ℕ → Run → Run
unfolding turned
run [] r = r
run (i ∷ is) r = run is (turned r i (move checking (jobs i) (r.last.place i) r.last.driver) refl)

abbrev begin : Run
begin = record { last = record { driver = fresh; place = λ _. outside }; reach = start }

-- The first reader and the writer are inside at the same time, and the second reader comes later.
abbrev interleaved : Run
interleaved = run (0 ∷ 2 ∷ 0 ∷ 2 ∷ 2 ∷ 0 ∷ 0 ∷ 1 ∷ 1 ∷ 1 ∷ 1 ∷ 2 ∷ []) begin

abbrev both_inside : Run
both_inside = run (0 ∷ 2 ∷ 0 ∷ []) begin

abbrev answer : ℤ × Buffer
answer = (pos 0, λ i. if ltb i 3 then 2 else (if ltb i 2 then 1 else 0))

threads-IsOwn_example : IsOwn (jobs 1) answer (2 ∷ 2 ∷ 2 ∷ [])
unfolding run turned move lock_step fetch_step send_step unlock_step bytes_from copy_out copy_in
threads-IsOwn_example =
    threads-IsOwn checking jobs checking-IsMutex fresh interleaved.last interleaved.reach 1 answer
      (pos 0) (2 ∷ 2 ∷ 2 ∷ []) refl

threads_exclude_example : ◌≡◌ {A = ℕ} 0 0
unfolding run turned move lock_step fetch_step send_step unlock_step
threads_exclude_example =
    threads_exclude checking jobs checking-IsMutex fresh both_inside.last both_inside.reach 0 0 refl
      refl refl
