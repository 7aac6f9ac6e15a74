-- ===== src/Transport/Chip/Examples.antt =====
-- A chip with an app that gives its request back, and two calls of it.
mod Late
mod Refused
use platform_external_nos_ho.Base.{
  ℕ, zero, suc, ◌+◌, ◌^◌, ◌<◌, ◌≡◌, refl, ap, List, [], ◌∷◌, Option, none, some, pos, false, arith,
  replicate, length,
}
use platform_external_nos_ho.Device.{NosDevice, Platform}
use platform_external_nos_ho.Transport.Context.{TransportContext}
use platform_external_nos_ho.Transport.Call.{invalid_args, nos_call_application}
use platform_external_nos_ho.Transport.Call.Memory.{given}
use platform_external_nos_ho.Transport.Chip.{
  App, Phase, Chip, chip_in, waiting, working, answering, chip_read, chip_write,
}
use platform_external_nos_ho.Application.AppStatus.{app_error_busy}
use platform_external_nos_ho.Transport.Chip.Device.{IsChip, stored, stored_whole, seen}
use platform_external_nos_ho.Transport.Chip.Busy.{nos_call_application-working}
use platform_external_nos_ho.Transport.Chip.Ready.{at_work}
use platform_external_nos_ho.Transport.Chip.Calls.{IsAnswer, nos_call_application-chip}
use platform_external_nos_ho.Transport.Chip.Session.{Request, session, app_run, session-app_run}

-- It counts its calls, is seen at work twice, and answers with the request behind the count.
abbrev echo : App ℕ
echo count params request = record {
  looks = 2;
  code = params;
  reply = count ∷ request;
  kept = count + 1;
}

record World : Type 0 where
  chip : Chip ℕ
  seconds : ℕ

abbrev device : App ℕ → NosDevice World
device app = record {
  read = λ command buf w.
      let (bytes, phase) = chip_read command (length buf) w.chip.phase in
      ((pos 0, stored bytes buf), record w { chip = chip_in phase w.chip.kept });
  write = λ command bytes w. (pos 0, record w { chip = chip_write app command bytes w.chip });
}

abbrev system : Platform World
system = record {
  eagain = 11;
  etimedout = 110;
  usleep = λ us w. w;
  clock_gettime = λ w.
      (some (record { tv_sec = w.seconds; tv_nsec = 0 }), record w { seconds = w.seconds + 1 });
  uninitialised = λ n. replicate n 0xAA;
}

length-replicate : (n a : ℕ) → length (replicate n a) ≡ n
length-replicate zero a = refl
length-replicate (suc n) a = omega (arith, length-replicate n a)

device-IsChip : (app : App ℕ) (id : ℕ) → id < 256 → IsChip system (device app) id app (10 ^ 9)
device-IsChip app id narrow = record {
  view = λ w. w.chip;
  time = λ w. record { tv_sec = w.seconds; tv_nsec = 0 };
  awake = omega arith;
  narrow = narrow;
  space = λ n. length-replicate n 0xAA;
  read_gives = λ command buf w fetch.
      ap (λ t. (pos 0, t))
        (stored_whole (chip_read command (length buf) w.chip.phase).0 buf fetch.given);
  read_leaves = λ command buf w here. refl;
  write_succeeds = λ command bytes w here. refl;
  write_leaves = λ command bytes w here. refl;
  clock_shows = λ w. refl;
  clock_leaves = λ w. refl;
  below_second = λ w. omega arith;
  clock_pace = λ w. omega arith;
  read_pace = λ command buf w here. omega arith;
}

echo_IsAnswer :
    (count params : ℕ) (request : List ℕ)
    → (7 < params) × (params < 2 ^ 31)
    → length request < 60000
    → IsAnswer (10 ^ 9) (echo count params request)
echo_IsAnswer count params request (above, below) h = record {
  fits = (below, omega arith);
  not_much = omega arith;
  not_checksum = omega arith;
  in_time = omega arith;
}

abbrev world : World
world = record { chip = chip_in (waiting []) 40; seconds = 100 }

abbrev long_request : List ℕ
long_request = replicate 3000 5

abbrev context : Option (List ℕ) → ℕ → TransportContext World
context args arg_len = record {
  dev = device echo;
  app_id = 0x12;
  params = 8;
  args = args;
  arg_len = arg_len;
}

-- An app that is left with the answer to another host's call.
abbrev left_over : World
left_over = record { chip = chip_in (answering 1 (9 ∷ []) []) 40; seconds = 100 }

-- A request and a reply of two datagrams each.
nos_call_application-chip_example :
    (w' : World) × (nos_call_application system
        (context (some long_request) 3000)
        5
        (given (replicate 3500 7) 3400)
        left_over
      ≡ some ((8, given (stored (40 ∷ long_request) (replicate 3500 7)) 3001), w'))
    × (w'.chip ≡ chip_in (waiting []) 41)
unfolding invalid_args device-IsChip
nos_call_application-chip_example =
    nos_call_application-chip system (context (some long_request) 3000) echo (10 ^ 9)
      (device-IsChip echo 0x12 (omega arith)) 5 3400 (replicate 3500 7) left_over
      (answering 1 (9 ∷ []) []) 40 refl (omega arith, omega arith) refl
      (echo_IsAnswer 40 8 long_request (omega arith, omega arith) (omega arith)) (omega arith) refl
      (omega arith) (omega arith) (omega arith) (omega arith)

abbrev requests : List Request
requests =
    record {
      params = 8;
      args = some (1 ∷ 2 ∷ 3 ∷ []);
      arg_len = 3;
      buf = 7 ∷ 7 ∷ 7 ∷ 7 ∷ 7 ∷ [];
      len = 5;
    }
    ∷ record { params = 9; args = none; arg_len = 0; buf = 7 ∷ 7 ∷ []; len = 2 }
    ∷ []

session-app_run_example :
    (w' : World) × (phase' : Phase) × (session system (device echo) 0x12 5 requests world
      ≡ some ((8, given (40 ∷ 1 ∷ 2 ∷ 3 ∷ 7 ∷ []) 4) ∷ (9, given (41 ∷ 7 ∷ []) 1) ∷ [], w'))
    × (w'.chip ≡ chip_in phase' 42)
    × (at_work phase' ≡ false)
unfolding app_run invalid_args device-IsChip
session-app_run_example =
    session-app_run system (device echo) 0x12 echo (10 ^ 9) (device-IsChip echo 0x12 (omega arith))
      5 requests world (waiting []) 40 refl tt refl
      (
        record {
          answers = echo_IsAnswer 40 8 (1 ∷ 2 ∷ 3 ∷ []) (omega arith, omega arith) (omega arith);
          enough = omega arith;
          valid = refl;
          short = omega arith;
          there = omega arith;
          fits = omega arith;
          room = omega arith;
        },
        (
          record {
            answers = echo_IsAnswer 41 9 [] (omega arith, omega arith) (omega arith);
            enough = omega arith;
            valid = refl;
            short = omega arith;
            there = omega arith;
            fits = omega arith;
            room = omega arith;
          },
          tt,
        ),
      )

-- An app at work for another host.
abbrev occupied : World
occupied = record { chip = chip_in (working 1 0 (9 ∷ [])) 40; seconds = 100 }

nos_call_application-working_example :
    (nos_call_application system (context none 0) 5 (given (7 ∷ 7 ∷ []) 2) occupied
      ≡ some ((app_error_busy, given (7 ∷ 7 ∷ []) 2), seen system (context none 0) occupied))
    × ((seen system (context none 0) occupied).chip ≡ chip_in (working 0 0 (9 ∷ [])) 40)
unfolding invalid_args device-IsChip
nos_call_application-working_example =
    nos_call_application-working system (context none 0) echo (10 ^ 9)
      (device-IsChip echo 0x12 (omega arith)) 5 1 0 (9 ∷ []) (given (7 ∷ 7 ∷ []) 2) occupied 40 refl
      (omega arith, omega arith) refl
