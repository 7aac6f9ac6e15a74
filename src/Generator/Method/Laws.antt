-- ===== src/Generator/Method/Laws.antt =====
-- A typed call, down to the datagrams.
use mathlib.Core.Path.{subst}
use mathlib.Core.List.{append-nil}
use platform_external_nos_ho.Base.{
  ℕ, zero, suc, ◌-◌, ◌%◌, ◌^◌, ◌≤◌, ◌<◌, ◌≡◌, refl, sym, ap, ◌∙◌, List, [], true, false, ltb,
  length, replicate, Option, some, if◌then◌else◌, arith, leb, take, take-all, Bool-cases, inl, inr,
}
use platform_external_nos_ho.Application.AppStatus.{app_success}
use platform_external_nos_ho.Device.{max_device_transfer}
use platform_external_nos_ho.Transport.Call.Delivery.{Conversation}
use platform_external_nos_ho.Client.Vector.{Vector, resize}
use platform_external_nos_ho.Client.Host.{Host, OpenDevice}
use platform_external_nos_ho.Client.Nugget.{NuggetClient, request_context, device_of, call_app}
use platform_external_nos_ho.Client.Nugget.Calls.{call_app_delivers}
use platform_external_nos_ho.Client.App.{CallApp, call}
use platform_external_nos_ho.Generator.Method.{
  Messages, MethodNumbers, response_buffer, send, method,
}

-- `SerializeToArray` writes to the array that it is given, and not behind it.
pub record IsMessages {Request Response : Type 0} (messages : Messages Request Response)
    : Type 0 where
  pub within :
      (request : Request) (array : List ℕ)
      → length (messages.serialize_to_array request array).1 ≡ length array

pub length-replicate : (n a : ℕ) → length (replicate n a) ≡ n
length-replicate zero a = refl
length-replicate (suc n) a = omega (arith, length-replicate n a)

take-nil : (n : ℕ) → take {A = ℕ} n [] ≡ []
take-nil zero = refl
take-nil (suc n) = refl

-- An empty vector that is resized, and then resized to its room.
pub empty-resize :
    (n : ℕ)
    → resize (record { bytes = []; capacity = 0 }) n
      ≡ record { bytes = replicate n 0; capacity = n }
unfolding resize
empty-resize n =
    let all_new : n - 0 ≡ n = omega arith in
    let grown : (if leb n 0 then 0 else n) ≡ n = ground arith in
    rw (take-nil n, all_new) (ap (λ (k : ℕ). record { bytes = replicate n 0; capacity = k }) grown)

zeros-resize :
    (n : ℕ) → (resize (record { bytes = replicate n 0; capacity = n }) n).bytes ≡ replicate n 0
unfolding resize
zeros-resize n =
    let none_new : n - length {A = ℕ} (replicate n 0) ≡ 0 = omega (arith, length-replicate n 0) in
    rw none_new (
      append-nil (take n (replicate n 0))
      ∙ take-all n (replicate n 0) (omega (arith, length-replicate n 0)))

module _ {Request Response W : Type 0} (messages : Messages Request Response) where
  module _ (app_id max_request max_response : ℕ) where
    -- Two clients that answer alike each call of the app with at most so many bytes and with no response
    -- or one of so many zero bytes.
    abbrev pub Agree : CallApp W → CallApp W → Type 0
    Agree c d =
        (arg : ℕ) (buffer : List ℕ) (response : Option Response) (w : W)
        → length buffer ≤ max_request
        → c app_id arg buffer (response_buffer max_response response) w
          ≡ d app_id arg buffer (response_buffer max_response response) w

  -- For messages whose serialising keeps to its array: over two clients that answer alike each call of
  -- the app with a request of at most the service's request size, and with no response or one with the
  -- service's response size, the method returns the same, so it makes no other call.
  pub method-Agree :
      (n : MethodNumbers) (c d : CallApp W) (app_id : ℕ) (request : Request)
      (response : Option Response) (w : W)
      → IsMessages messages
      → Agree app_id n.max_request_size n.max_response_size c d
      → method messages n (record { client = c; app_id = app_id }) request response w
        ≡ method messages n (record { client = d; app_id = app_id }) request response w
  unfolding method send call
  method-Agree n c d app_id request response w ok agree =
      let zeros : List ℕ = replicate (messages.byte_size request) 0 in
      let buffer = (messages.serialize_to_array request zeros).1 in
      let size : length buffer ≡ messages.byte_size request =
        ok.within request zeros ∙ length-replicate (messages.byte_size request) 0 in
      elim (Bool-cases (ltb n.max_request_size (messages.byte_size request))) [
        | inl long ↦ rw long
        | inr short ↦
            let same =
              agree (n.method_id % 2 ^ 16) buffer response w (ground (arith, short, size)) in
            rw (short, same, send, call)
      ]

  -- For messages whose serialising keeps to its array, an open client, a positive EAGAIN, and a
  -- service whose response size is below 2 ^ 32: the request's message takes no more than the
  -- service's request size, which is below 2 ^ 32, and is serialised. The device has the
  -- conversation of a call whose request is those bytes, and whose app returns APP_SUCCESS and a
  -- reply of one datagram that is not empty, has the service's response size at most and is
  -- parsed to a message. Then the method returns APP_SUCCESS and that message.
  pub method_delivers :
      (host : Host W) (fuel : ℕ) (c : NuggetClient W) (d : OpenDevice W) (n : MethodNumbers)
      (app_id : ℕ) (request : Request) (buffer answer : List ℕ) (before after : Response) (w w' : W)
      → device_of c ≡ some d
      → 0 < host.platform.eagain
      → messages.byte_size request ≤ n.max_request_size
      → n.max_request_size < 2 ^ 32
      → n.max_response_size < 2 ^ 32
      → messages.serialize_to_array request (replicate (messages.byte_size request) 0)
        ≡ (true, buffer)
      → IsMessages messages
      → Conversation host.platform
          (request_context d.device app_id (n.method_id % 2 ^ 16) buffer)
          (replicate n.max_response_size 0)
          answer
          n.max_response_size
          app_success
          w
          w'
      → 0 < length answer
      → length answer ≤ max_device_transfer
      → length answer ≤ n.max_response_size
      → messages.parse_from_array answer before ≡ (true, after)
      → method messages n
          (record { client = call_app host (suc fuel) c; app_id = app_id })
          request
          (some before)
          w
        ≡ some ((app_success, some after), w')
  unfolding method send call
  method_delivers host fuel c d n app_id request buffer answer before after w w' has epos fits small
        room serialised ok talk some_left one short parses =
      let zeros : List ℕ = replicate (messages.byte_size request) 0 in
      let size : length buffer ≡ messages.byte_size request =
        ap (λ r. length r.1) (sym serialised)
        ∙ ok.within request zeros
        ∙ length-replicate (messages.byte_size request) 0 in
      let vector : Vector = record {
        bytes = replicate n.max_response_size 0;
        capacity = n.max_response_size;
      } in
      let talk' =
        subst
          (λ b.
            Conversation host.platform
              (request_context d.device app_id (n.method_id % 2 ^ 16) buffer) b answer
              n.max_response_size app_success w w')
          (sym (zeros-resize n.max_response_size)) talk in
      let called =
        call_app_delivers host fuel c d app_id (n.method_id % 2 ^ 16) app_success buffer answer
          vector w w' has epos (omega (arith, size))
          (omega (arith, length-replicate n.max_response_size 0)) room talk' (omega arith)
          (omega arith) (omega arith) some_left one short in
      let fits' : ltb n.max_request_size (messages.byte_size request) ≡ false = ground arith in
      rw (serialised, fits', send, call, empty-resize n.max_response_size, called, parses)
