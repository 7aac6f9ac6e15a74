-- ===== src/Transport/Chip/Session.antt =====
-- A session: calls of one application, one after another, against the steps of the app alone.
use platform_external_nos_ho.Base.{
  ℕ, ◌%◌, ◌^◌, ◌≤◌, ◌<◌, ◌≡◌, refl, List, [], ◌∷◌, Option, none, some, false, length, take, arith,
}
use platform_external_nos_ho.Device.{NosDevice, Platform}
use platform_external_nos_ho.Transport.Context.{TransportContext, Reply}
use platform_external_nos_ho.Transport.Send.Loop.{memory}
use platform_external_nos_ho.Transport.Call.{invalid_args, nos_call_application}
use platform_external_nos_ho.Transport.Call.Memory.{given}
use platform_external_nos_ho.Transport.Chip.{Answer, App, Phase, chip_in, waiting}
use platform_external_nos_ho.Transport.Chip.Device.{IsChip, PhaseFits, stored}
use platform_external_nos_ho.Transport.Chip.Ready.{at_work}
use platform_external_nos_ho.Transport.Chip.Calls.{IsAnswer, nos_call_application-chip}

-- The arguments of one call of `nos_call_application`, but for the device and the app id.
pub record Request : Type 0 where
  pub params : ℕ
  pub args : Option (List ℕ)
  pub arg_len : ℕ
  pub buf : List ℕ
  pub len : ℕ

abbrev pub call_context : {W : Type 0} → NosDevice W → ℕ → Request → TransportContext W
call_context dev id q = record {
  dev = dev;
  app_id = id;
  params = q.params;
  args = q.args;
  arg_len = q.arg_len;
}

-- The calls on the host, with their results and what they leave in the callers' variables.
unfoldable pub session :
    {W : Type 0}
    → Platform W
    → NosDevice W
    → ℕ
    → ℕ
    → List Request
    → W
    → Option (List (ℕ × Reply) × W)
session platform dev id fuel [] w = some ([], w)
session platform dev id fuel (q ∷ qs) w =
    elim (nos_call_application platform (call_context dev id q) fuel (given q.buf q.len) w) [
      | none ↦ none
      | some (r, w') ↦ elim (session platform dev id fuel qs w') [
        | none ↦ none
        | some (rs, w'') ↦ some (r ∷ rs, w'')
      ]
    ]

-- The same by the app alone: neither datagrams, nor statuses, nor time.
abbrev pub answer_to : {S : Type 0} → App S → S → Request → Answer S
answer_to app kept q = app kept (q.params % 2 ^ 16) (take (q.arg_len % 2 ^ 16) (memory q.args))

abbrev pub result_of : {S : Type 0} → Answer S → Request → ℕ × Reply
result_of answer q = (answer.code, given (stored answer.reply q.buf) (length answer.reply))

unfoldable pub app_run : {S : Type 0} → App S → S → List Request → List (ℕ × Reply) × S
app_run app kept [] = ([], kept)
app_run app kept (q ∷ qs) =
    let answer = answer_to app kept q in
    let (rs, last) = app_run app answer.kept qs in (result_of answer q ∷ rs, last)

-- A call that the protocol can carry: its arguments are valid, 16 bits can count them, and the
-- answer is in time and fits the caller's buffer.
pub record IsCarried {W S : Type 0} (dev : NosDevice W) (id fuel pace : ℕ) (app : App S) (kept : S)
    (q : Request) : Type 0 where
  pub answers : IsAnswer pace (answer_to app kept q)
  pub enough : (answer_to app kept q).looks < fuel
  pub valid : invalid_args (call_context dev id q) (given q.buf q.len) ≡ false
  pub short : q.arg_len < 2 ^ 16
  pub there : q.arg_len ≤ length (memory q.args)
  pub fits : length (answer_to app kept q).reply ≤ q.len
  pub room : q.len ≤ length q.buf

abbrev pub AllCarried : {W S : Type 0} → NosDevice W → ℕ → ℕ → ℕ → App S → S → List Request → Type 0
AllCarried dev id fuel pace app kept [] = Unit {0}
AllCarried dev id fuel pace app kept (q ∷ qs) =
    IsCarried dev id fuel pace app kept q
    × AllCarried dev id fuel pace app (answer_to app kept q).kept qs

module _ {W S : Type 0} (platform : Platform W) (dev : NosDevice W) (id : ℕ) (app : App S)
    (pace : ℕ) (chip : IsChip platform dev id app pace) where
  open chip use {view}

  session_step :
      (fuel : ℕ) (q : Request) (qs : List Request) (r : ℕ × Reply) (rs : List (ℕ × Reply))
      (w w₁ w' : W)
      → nos_call_application platform (call_context dev id q) fuel (given q.buf q.len) w
        ≡ some (r, w₁)
      → session platform dev id fuel qs w₁ ≡ some (rs, w')
      → session platform dev id fuel (q ∷ qs) w ≡ some (r ∷ rs, w')
  unfolding session
  session_step fuel q qs r rs w w₁ w' first later = ground (arith, first, later)

  -- On a device whose app keeps to the protocol and is not at work: calls one after another, each
  -- of which has valid arguments that 16 bits can count, and gets an answer that the protocol can
  -- carry, that is in time and fits the caller's buffer, return what the app alone returns for the same requests in order.
  -- What the app keeps between them is what it keeps alone, and it is not at work afterwards.
  pub session-app_run :
      (fuel : ℕ) (qs : List Request) (w : W) (phase : Phase) (kept : S)
      → view w ≡ chip_in phase kept
      → PhaseFits phase
      → at_work phase ≡ false
      → AllCarried dev id fuel pace app kept qs
      → let (rs, last) = app_run app kept qs in
        (w' : W) × (phase' : Phase) × (session platform dev id fuel qs w ≡ some (rs, w'))
        × (view w' ≡ chip_in phase' last)
        × (at_work phase' ≡ false)
  unfolding app_run session
  session-app_run fuel [] w phase kept e whole rests ok = (w, phase, refl, e, rests)
  session-app_run fuel (q ∷ qs) w phase kept e whole rests (ok, oks) =
      let answer = answer_to app kept q in
      let (w₁, called, left) =
        nos_call_application-chip platform (call_context dev id q) app pace chip fuel q.len q.buf w
          phase kept e whole rests ok.answers ok.enough ok.valid ok.short
          (omega (arith, ok.there, ok.short)) ok.fits ok.room in
      let (w', phase', later, last, rests') =
        session-app_run fuel qs w₁ (waiting []) answer.kept left tt refl oks in
      (
        w',
        phase',
        session_step fuel q qs (result_of answer q) (app_run app answer.kept qs).0 w w₁ w' called
            later,
        last,
        rests',
      )
