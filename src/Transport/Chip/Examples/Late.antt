-- ===== src/Transport/Chip/Examples/Late.antt =====
-- An app that is at work for longer than the host waits.
use platform_external_nos_ho.Base.{ℕ, ◌*◌, ◌^◌, ◌≡◌, refl, [], ◌∷◌, none, some, arith}
use platform_external_nos_ho.Application.AppStatus.{app_error_timeout}
use platform_external_nos_ho.Transport.Context.{TransportContext}
use platform_external_nos_ho.Transport.Retry.Time.{HasClock}
use platform_external_nos_ho.Transport.Call.{invalid_args, nos_call_application}
use platform_external_nos_ho.Transport.Call.Memory.{given}
use platform_external_nos_ho.Transport.Chip.{App, chip_in, waiting, working}
use platform_external_nos_ho.Transport.Chip.Late.{nos_call_application-late}
use platform_external_nos_ho.Transport.Chip.Examples.{World, device, system, device-IsChip, world}

abbrev slow : App ℕ
slow count params request = record { looks = 10 ^ 12; code = 0; reply = request; kept = count }

slow_clock : HasClock system (device slow)
slow_clock = record {
  elapsed = λ w. w.seconds * 10 ^ 9;
  below_second = λ w now h. ground arith;
  shown = λ w now h. ground arith;
  ticks = λ w. omega arith;
  read_steady = λ command buf w. omega arith;
  sleep_steady = λ us w. omega arith;
}

abbrev slow_context : TransportContext World
slow_context = record { dev = device slow; app_id = 0x12; params = 8; args = none; arg_len = 0 }

nos_call_application-late_example :
    (w' : World) × (left : ℕ) × (nos_call_application system slow_context 60000000001
        (given (7 ∷ 7 ∷ []) 2)
        world
      ≡ some ((app_error_timeout, given (7 ∷ 7 ∷ []) 0), w'))
    × (w'.chip ≡ chip_in (working left 0 []) 40)
unfolding invalid_args device-IsChip
nos_call_application-late_example =
    nos_call_application-late system slow_context slow (10 ^ 9)
      (device-IsChip slow 0x12 (omega arith)) slow_clock 60000000001 2 (7 ∷ 7 ∷ []) world
      (waiting []) 40 refl tt refl (omega arith, omega arith) (omega arith) (omega arith) refl
      (omega arith) (omega arith)
