-- ===== src/Generator/Method/Examples.antt =====
-- A typed call over the scripted device: an empty request, and a response that is its bytes.
use platform_external_nos_ho.Base.{
  ℕ, ◌==◌, ◌≡◌, refl, List, [], ◌∷◌, true, ltb, length, some, if◌then◌else◌, arith,
}
use platform_external_nos_ho.Application.AppStatus.{app_success}
use platform_external_nos_ho.Transport.Script.{Script, linux}
use platform_external_nos_ho.Transport.Call.Runs.{start, after}
use platform_external_nos_ho.Transport.Call.Runs.Delivered.{four, answers}
use platform_external_nos_ho.Client.Examples.{host, client, device, is_open, talk}
use platform_external_nos_ho.Client.Vector.{resize}
use platform_external_nos_ho.Client.Nugget.{call_app}
use platform_external_nos_ho.Client.App.{CallApp}
use platform_external_nos_ho.Generator.Method.{Messages, MethodNumbers, method}
use platform_external_nos_ho.Generator.Method.Laws.{IsMessages, method-Agree, method_delivers}

abbrev messages : Messages (List ℕ) (List ℕ)
messages = record {
  byte_size = length;
  serialize_to_array =
      λ request array. (true, if length request == length array then request else array);
  parse_from_array = λ bytes response. (true, bytes);
}

messages-IsMessages : IsMessages messages
messages-IsMessages = record { within = λ request array. ground arith }

abbrev numbers : MethodNumbers
numbers = record { method_id = 8; max_request_size = 2; max_response_size = 5 }

delivered :
    method messages numbers
      (record { client = call_app host 1 client; app_id = 0x12 })
      []
      (some [])
      (start answers)
    ≡ some ((app_success, some four), after)
unfolding linux resize
delivered =
    method_delivers messages host 0 client device numbers 0x12 [] [] four [] four (start answers)
      after is_open (omega arith) (omega arith) (omega arith) (omega arith) refl messages-IsMessages
      talk (omega arith) (omega arith) (omega arith) refl

-- A client that answers only requests of two bytes at most.
abbrev picky : CallApp Script
picky app_id arg request response w =
    if ltb 2 (length request) then some ((7, response), w) else some ((app_success, response), w)

abbrev easy : CallApp Script
easy app_id arg request response w = some ((app_success, response), w)

method-Agree_example :
    method messages numbers
      (record { client = picky; app_id = 0x12 })
      (1 ∷ 2 ∷ [])
      (some [])
      (start [])
    ≡ method messages numbers
        (record { client = easy; app_id = 0x12 })
        (1 ∷ 2 ∷ [])
        (some [])
        (start [])
method-Agree_example =
    method-Agree messages numbers picky easy 0x12 (1 ∷ 2 ∷ []) (some []) (start [])
      messages-IsMessages (λ arg buffer response w h. ground arith)
