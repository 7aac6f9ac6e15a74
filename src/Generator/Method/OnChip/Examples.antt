-- ===== src/Generator/Method/OnChip/Examples.antt =====
-- A typed call through the client, the transport and the driver, to an app behind the kernel.
use platform_external_nos_ho.Base.{
  ℕ, ◌==◌, ◌≡◌, refl, List, [], ◌∷◌, true, length, some, pos, if◌then◌else◌, arith, ◌*◌, ◌^◌,
}
use platform_external_nos_ho.Application.AppStatus.{app_success}
use platform_external_nos_ho.Transport.Chip.{Answer, chip_in, waiting}
use platform_external_nos_ho.Transport.Chip.Device.{IsChip}
use platform_external_nos_ho.Transport.Chip.Calls.{IsAnswer}
use platform_external_nos_ho.Citadel.System.{Driver}
use platform_external_nos_ho.Citadel.Datagram.{citadel_device}
use platform_external_nos_ho.Citadel.Chip.{driver_chip}
use platform_external_nos_ho.Citadel.Chip.Examples.{World, kernel, system, echo, kernel-IsKernel}
use platform_external_nos_ho.Client.Host.{Host, OpenDevice}
use platform_external_nos_ho.Client.Nugget.{NuggetClient, device_of, call_app}
use platform_external_nos_ho.Generator.Method.{Messages, MethodNumbers, method}
use platform_external_nos_ho.Generator.Method.Laws.{IsMessages}
use platform_external_nos_ho.Generator.Method.OnChip.{method-chip}

abbrev messages : Messages (List ℕ) (List ℕ)
messages = record {
  byte_size = length;
  serialize_to_array =
      λ request array. (true, if length request == length array then request else array);
  parse_from_array = λ bytes response. (true, bytes);
}

messages-IsMessages : IsMessages messages
messages-IsMessages = record { within = λ request array. ground arith }

abbrev numbers : MethodNumbers
numbers = record { method_id = 0; max_request_size = 4; max_response_size = 8 }

abbrev device : OpenDevice (Driver World)
device = record {
  device = citadel_device kernel (some (pos 3));
  wait_for_interrupt = λ msecs s. some (pos 0, s);
  reset = λ s. (pos 0, s);
  close = λ s. s;
}

abbrev host : Host (Driver World)
host = record { platform = system; nos_device_open = λ name s. ((pos 0, some device), s) }

abbrev client : NuggetClient (Driver World)
client = record { device_name = []; config = 0; device = some device; is_open = true }

abbrev begin : Driver World
begin = record {
  in_buf = λ i. 0;
  out_buf = λ i. 0;
  world = record { chip = chip_in (waiting []) 40; seconds = 100 };
}

behind : IsChip system (citadel_device kernel (some (pos 3))) 0x12 echo (3 * 10 ^ 9)
behind = driver_chip system kernel (pos 3) 0x12 echo (10 ^ 9) (kernel-IsKernel 0x12 (omega arith))

answer : Answer ℕ
answer = record { looks = 2; code = 0; reply = 40 ∷ 5 ∷ 6 ∷ []; kept = 41 }

answer-IsAnswer : IsAnswer (3 * 10 ^ 9) answer
unfolding answer
answer-IsAnswer = record {
  fits = (omega arith, omega arith);
  not_much = omega arith;
  not_checksum = omega arith;
  in_time = omega arith;
}

method-chip_example :
    (w' : Driver World) × (method messages numbers
        (record { client = call_app host 9 client; app_id = 0x12 })
        (5 ∷ 6 ∷ [])
        (some [])
        begin
      ≡ some ((app_success, some (40 ∷ 5 ∷ 6 ∷ [])), w'))
    × (behind.view w' ≡ chip_in (waiting []) 41)
unfolding answer device_of behind driver_chip kernel-IsKernel
method-chip_example =
    method-chip messages messages-IsMessages host device 0x12 echo (3 * 10 ^ 9) behind 9 client
      numbers (5 ∷ 6 ∷ []) (5 ∷ 6 ∷ []) [] (40 ∷ 5 ∷ 6 ∷ []) begin (waiting []) 40 answer refl refl
      tt refl (omega arith) (omega arith) refl refl refl answer-IsAnswer (omega arith) (omega arith)
      (omega arith) refl
