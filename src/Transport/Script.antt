-- ===== src/Transport/Script.antt =====
-- A device for tests that gives its answers from a list, as the mock of libnos_transport/test/test.cpp
-- does, and a clock that moves on by a second whenever it is read.
pub mod Laws
use platform_external_nos_ho.Base.{
  ℕ, ◌+◌, List, [], ◌∷◌, ◌++◌, ℤ, pos, negsuc, some, take, drop, length, replicate,
}
use platform_external_nos_ho.Device.{NosDevice, Platform}

-- What reads are answered with, what has been written, and the seconds of the clock.
pub record Script : Type 0 where
  pub answers : List (ℤ × List ℕ)
  pub written : List (ℕ × List ℕ)
  pub seconds : ℕ

-- An answer fills the front of the buffer. Without answers left a read fails.
unfoldable pub fill : List ℕ → List ℕ → List ℕ
fill buf bytes = take (length buf) bytes ++ drop (length bytes) buf

unfoldable pub read_answer : List (ℤ × List ℕ) → ℕ → List ℕ → Script → (ℤ × List ℕ) × Script
unfolding fill
read_answer [] command buf w = ((negsuc 4, buf), w)
read_answer ((err, bytes) ∷ rest) command buf w =
    ((err, fill buf bytes), record w { answers = rest })

unfoldable pub scripted : NosDevice Script
unfolding read_answer
scripted = record {
  read = λ command buf w. read_answer w.answers command buf w;
  write = λ command buf w. (pos 0, record w { written = w.written ++ ((command, buf) ∷ []) });
}

-- Linux's numbers.
unfoldable pub linux : Platform Script
linux = record {
  eagain = 11;
  etimedout = 110;
  usleep = λ us w. w;
  clock_gettime = λ w.
      (some (record { tv_sec = w.seconds; tv_nsec = 0 }), record w { seconds = w.seconds + 1 });
  uninitialised = λ n. replicate n 0xAA;
}
