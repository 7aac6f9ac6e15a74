-- ===== src/Generator/Method/OnChip.antt =====
-- A typed call, from the printed method to the application on the chip.
mod Examples
use platform_external_nos_ho.Base.{
  ℕ, ◌+◌, ◌*◌, ◌%◌, ◌^◌, ◌≤◌, ◌<◌, ◌≡◌, refl, sym, ap, ◌∙◌, List, [], true, false, ltb, length,
  replicate, some, arith,
}
use platform_external_nos_ho.Application.AppStatus.{app_success}
use platform_external_nos_ho.Transport.Chip.{Answer, App, Phase, chip_in, waiting}
use platform_external_nos_ho.Transport.Chip.Device.{IsChip, PhaseFits}
use platform_external_nos_ho.Transport.Chip.Ready.{at_work}
use platform_external_nos_ho.Transport.Chip.Calls.{IsAnswer}
use platform_external_nos_ho.Client.Vector.{Vector, resize}
use platform_external_nos_ho.Client.Host.{Host, OpenDevice}
use platform_external_nos_ho.Client.Nugget.{NuggetClient, device_of, call_app}
use platform_external_nos_ho.Client.Nugget.OnChip.{call_app-chip}
use platform_external_nos_ho.Client.App.{call}
use platform_external_nos_ho.Generator.Method.{Messages, MethodNumbers, send, method}
use platform_external_nos_ho.Generator.Method.Laws.{IsMessages, length-replicate, empty-resize}

module _ {Request Response : Type 0} (messages : Messages Request Response)
    (proper : IsMessages messages) where
  module _ {W S : Type 0} (host : Host W) (d : OpenDevice W) (app_id : ℕ) (app : App S) (pace : ℕ)
      (chip : IsChip host.platform d.device (app_id % 2 ^ 8) app pace) where
    open chip use {view}

    -- For messages whose serialising keeps to its array, and an open client on a device whose app keeps
    -- to the protocol and is not at work. The request's message takes no more than the service's request
    -- size and fewer than 2 ^ 16 bytes, and is serialised. The app answers these bytes, under the
    -- method's number, with APP_SUCCESS, in time, and with a reply that has the service's response size at
    -- most, which is below 2 ^ 32, and is parsed to a message. Then the method returns APP_SUCCESS and
    -- that message. The app has made one step, and is idle.
    pub method-chip :
        (fuel : ℕ) (c : NuggetClient W) (n : MethodNumbers) (request : Request) (buffer : List ℕ)
        (before after : Response) (w : W) (phase : Phase) (kept : S) (answer : Answer S)
        → device_of c ≡ some d
        → view w ≡ chip_in phase kept
        → PhaseFits phase
        → at_work phase ≡ false
        → messages.byte_size request ≤ n.max_request_size
        → messages.byte_size request < 2 ^ 16
        → messages.serialize_to_array request (replicate (messages.byte_size request) 0)
          ≡ (true, buffer)
        → app kept (n.method_id % 2 ^ 16) buffer ≡ answer
        → answer.code ≡ app_success
        → IsAnswer pace answer
        → answer.looks < fuel
        → n.max_response_size < 2 ^ 32
        → length answer.reply ≤ n.max_response_size
        → messages.parse_from_array answer.reply before ≡ (true, after)
        → (w' : W) × (method messages n
              (record { client = call_app host fuel c; app_id = app_id })
              request
              (some before)
              w
            ≡ some ((app_success, some after), w'))
          × (view w' ≡ chip_in (waiting []) answer.kept)
    unfolding method send call
    method-chip fuel c n request buffer before after w phase kept answer has e whole rests fits
          short serialised answered success ok enough small room parses =
        let zeros : List ℕ = replicate (messages.byte_size request) 0 in
        let size : length buffer ≡ messages.byte_size request =
          ap (λ r. length r.1) (sym serialised)
          ∙ proper.within request zeros
          ∙ length-replicate (messages.byte_size request) 0 in
        let vector : Vector = record {
          bytes = replicate n.max_response_size 0;
          capacity = n.max_response_size;
        } in
        let param : n.method_id % 2 ^ 16 % 2 ^ 16 ≡ n.method_id % 2 ^ 16 = omega arith in
        let (w', called, left) =
          call_app-chip host d app_id app pace chip fuel c (n.method_id % 2 ^ 16) buffer vector w
            phase kept answer has e whole rests (omega (arith, size))
            (ap (λ k. app kept k buffer) param ∙ answered) ok enough
            (omega (arith, length-replicate n.max_response_size 0)) small room in
        let fits' : ltb n.max_request_size (messages.byte_size request) ≡ false = ground arith in
        (
          w',
          rw (
            serialised,
            fits',
            send,
            call,
            empty-resize n.max_response_size,
            called,
            success,
            parses,
          ),
          left,
        )
