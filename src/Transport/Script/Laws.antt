-- ===== src/Transport/Script/Laws.antt =====
-- The scripted device and its clock keep what the transport relies on.
use platform_external_nos_ho.Base.{
  ℕ, ◌*◌, ◌^◌, ◌≡◌, refl, List, [], ◌∷◌, ℤ, take, drop, length, arith, length-append, length-take,
  length-drop,
}
use platform_external_nos_ho.Transport.Script.{Script, scripted, linux, fill, read_answer}
use platform_external_nos_ho.Transport.Retry.Laws.{IsDevice}
use platform_external_nos_ho.Transport.Retry.Time.{HasClock}

length-fill : (buf bytes : List ℕ) → length (fill buf bytes) ≡ length buf
unfolding fill
length-fill buf bytes = omega (
  arith,
  length-append (take (length buf) bytes) (drop (length bytes) buf),
  length-take (length buf) bytes,
  length-drop (length bytes) buf,
)

read_answer-length :
    (answers : List (ℤ × List ℕ)) (command : ℕ) (buf : List ℕ) (w : Script)
    → length (read_answer answers command buf w).0.1 ≡ length buf
unfolding read_answer
read_answer-length [] command buf w = refl
read_answer-length ((err, bytes) ∷ rest) command buf w = length-fill buf bytes

read_answer-seconds :
    (answers : List (ℤ × List ℕ)) (command : ℕ) (buf : List ℕ) (w : Script)
    → (read_answer answers command buf w).1.seconds ≡ w.seconds
unfolding read_answer
read_answer-seconds [] command buf w = refl
read_answer-seconds ((err, bytes) ∷ rest) command buf w = refl

pub scripted-IsDevice : IsDevice scripted
unfolding scripted
scripted-IsDevice = record {
  keeps_length = λ command buf w. read_answer-length w.answers command buf w;
}

pub scripted_clock : HasClock linux scripted
unfolding linux scripted
scripted_clock = record {
  elapsed = λ w. w.seconds * 10 ^ 9;
  below_second = λ w now h. ground arith;
  shown = λ w now h. ground arith;
  ticks = λ w. omega arith;
  read_steady = λ command buf w. omega (arith, read_answer-seconds w.answers command buf w);
  sleep_steady = λ us w. omega arith;
}
