-- ===== src/Client/Nugget/OnChip.antt =====
-- A call of a client whose device has an app behind it that keeps to the protocol.
use mathlib.Core.Path.{subst}
use platform_external_nos_ho.Base.{
  ℕ, ◌%◌, ◌^◌, ◌≤◌, ◌<◌, ◌≡◌, sym, ap, ap₂, ◌∙◌, List, [], length, take-all, false, some, arith,
}
use platform_external_nos_ho.Transport.Call.{nos_call_application}
use platform_external_nos_ho.Transport.Call.Memory.{given}
use platform_external_nos_ho.Transport.Chip.{Answer, App, Phase, chip_in, waiting}
use platform_external_nos_ho.Transport.Chip.Device.{IsChip, PhaseFits, stored}
use platform_external_nos_ho.Transport.Chip.Ready.{at_work}
use platform_external_nos_ho.Transport.Chip.Calls.{IsAnswer, answer_of, nos_call_application-chip}
use platform_external_nos_ho.Client.Vector.{Vector, IsVector}
use platform_external_nos_ho.Client.Host.{Host, OpenDevice}
use platform_external_nos_ho.Client.Nugget.{
  NuggetClient, request_context, device_of, call_device, call_app,
}
use platform_external_nos_ho.Client.Nugget.Calls.{
  full, length-full, cut_to_answer, call_app-open, valid_args,
}

module _ {W S : Type 0} (host : Host W) (d : OpenDevice W) (app_id : ℕ) (app : App S) (pace : ℕ)
    (chip : IsChip host.platform d.device (app_id % 2 ^ 8) app pace) where
  open chip use {view}

  -- The app gets all of a request that 16 bits can count.
  answer_of-request :
      (arg : ℕ) (request : List ℕ) (kept : S) (answer : Answer S)
      → length request < 2 ^ 16
      → app kept (arg % 2 ^ 16) request ≡ answer
      → answer_of host.platform (request_context d.device app_id arg request) app kept ≡ answer
  unfolding request_context
  answer_of-request arg request kept answer short answered =
      let param : arg % 2 ^ 16 % 2 ^ 16 ≡ arg % 2 ^ 16 = omega arith in
      let all : length request ≤ length request % 2 ^ 32 % 2 ^ 16 = omega arith in
      ap₂ (app kept) param (take-all (length request % 2 ^ 32 % 2 ^ 16) request all) ∙ answered

  -- What a call on a given buffer returns for an answer of the app.
  abbrev Returns : ℕ → ℕ → List ℕ → ℕ → List ℕ → W → Answer S → Type 0
  Returns fuel arg request len buf w answer =
      (w' : W) × (nos_call_application host.platform (request_context d.device app_id arg request)
          fuel (given buf len) w
        ≡ some ((answer.code, given (stored answer.reply buf) (length answer.reply)), w'))
      × (view w' ≡ chip_in (waiting []) answer.kept)

  returns :
      (fuel arg : ℕ) (request : List ℕ) (len : ℕ) (buf : List ℕ) (w : W) (phase : Phase) (kept : S)
      (answer : Answer S)
      → view w ≡ chip_in phase kept
      → PhaseFits phase
      → at_work phase ≡ false
      → length request < 2 ^ 16
      → app kept (arg % 2 ^ 16) request ≡ answer
      → IsAnswer pace answer
      → answer.looks < fuel
      → length answer.reply ≤ len
      → len ≤ length buf
      → Returns fuel arg request len buf w answer
  unfolding request_context
  returns fuel arg request len buf w phase kept answer e whole rests short answered ok enough fits
        room =
      let ctx = request_context d.device app_id arg request in
      let same = answer_of-request arg request kept answer short answered in
      let back = sym same in
      subst (Returns fuel arg request len buf w) same (
        nos_call_application-chip host.platform ctx app pace chip fuel len buf w phase kept e whole
          rests (subst (IsAnswer pace) back ok) (subst (λ a. a.looks < fuel) back enough)
          (valid_args host d app_id arg request buf len) (omega arith) (omega arith)
          (subst (λ a. length a.reply ≤ len) back fits) room)

  -- For an open client on a device whose app keeps to the protocol and is not at work: with a request
  -- that 16 bits can count, and a response with room for the reply, below 2 ^ 32, if the answer of the
  -- app is in time and one that the protocol can carry, the call returns the app's code, and the
  -- response holds the app's reply and no other bytes. The app has made one step, and is idle.
  pub call_app-chip :
      (fuel : ℕ) (c : NuggetClient W) (arg : ℕ) (request : List ℕ) (v : Vector) (w : W)
      (phase : Phase) (kept : S) (answer : Answer S)
      → device_of c ≡ some d
      → view w ≡ chip_in phase kept
      → PhaseFits phase
      → at_work phase ≡ false
      → length request < 2 ^ 16
      → app kept (arg % 2 ^ 16) request ≡ answer
      → IsAnswer pace answer
      → answer.looks < fuel
      → IsVector v
      → v.capacity < 2 ^ 32
      → length answer.reply ≤ v.capacity
      → (w' : W) × (call_app host fuel c app_id arg request (some v) w
          ≡ some ((answer.code, some (record { bytes = answer.reply; capacity = v.capacity })), w'))
        × (view w' ≡ chip_in (waiting []) answer.kept)
  unfolding call_device
  call_app-chip fuel c arg request v w phase kept answer has e whole rests short answered ok enough
        hv small fits =
      let buf = (full v).bytes in
      let size = length-full v hv in
      let len : length buf % 2 ^ 32 ≡ v.capacity = omega (arith, size) in
      let (w', called, left) =
        returns fuel arg request (length buf % 2 ^ 32) buf w phase kept answer e whole rests short
          answered ok enough (omega (arith, len)) (omega (arith, size)) in
      (
        w',
        call_app-open host fuel c d app_id arg request (some v) w has (omega arith)
            ∙ rw (called, call_device)
                (ap (λ (u : Vector). some ((answer.code, some u), w'))
                  (cut_to_answer v answer.reply fits)),
        left,
      )
