-- ===== src/Client/Nugget.antt =====
-- libnos/NuggetClient.cpp.
pub mod Lifetime
pub mod Calls
pub mod OnChip
use mathlib.Core.Option
use platform_external_nos_ho.Base.{
  ℕ, ◌-◌, ◌%◌, ◌^◌, List, [], ◌∷◌, Bool, true, false, not, ltb, length, Option, none, some, M, ℤ,
  pos, negsuc, is_nonzero, if◌then◌else◌,
}
use platform_external_nos_ho.Application.AppStatus.{
  app_error_io, app_error_too_much, app_error_not_ready,
}
use platform_external_nos_ho.Device.{NosDevice}
use platform_external_nos_ho.Transport.Context.{TransportContext, Reply}
use platform_external_nos_ho.Transport.Call.{nos_call_application}
use platform_external_nos_ho.Client.Vector.{Vector, resize}
use platform_external_nos_ho.Client.Host.{Host, OpenDevice}

-- `device_name_`, `device_` and `open_`. `device` is what `nos_device_open` has stored, and `config`
-- is `device_.config`, which nothing reads.
pub record NuggetClient (W : Type 0) : Type 0 where
  pub device_name : List ℕ
  pub config : ℕ
  pub device : Option (OpenDevice W)
  pub is_open : Bool

-- The constructors; a null name is the empty one.
unfoldable pub nugget_client : {W : Type 0} → Option (List ℕ) → ℕ → NuggetClient W
nugget_client name config = record {
  device_name = Option.get_or name [];
  config = config;
  device = none;
  is_open = false;
}

-- `device_name_.empty() ? nullptr : device_name_.c_str()`
abbrev pub name_given : List ℕ → Option (List ℕ)
name_given [] = none
name_given (c ∷ cs) = some (c ∷ cs)

-- `uint32_t` of an `int`.
abbrev pub u32_of : ℤ → ℕ
u32_of (pos n) = n % 2 ^ 32
u32_of (negsuc n) = 2 ^ 32 - 1 - n % 2 ^ 32

-- The request that a client makes: the app's id and its argument are cut to their C types.
unfoldable pub request_context : {W : Type 0} → NosDevice W → ℕ → ℕ → List ℕ → TransportContext W
request_context dev app_id arg request = record {
  dev = dev;
  app_id = app_id % 2 ^ 8;
  params = arg % 2 ^ 16;
  args = some request;
  arg_len = length request % 2 ^ 32;
}

-- `replyData` and `replySize` of a response that has been resized, or of none.
abbrev pub reply_of : Option Vector → Reply
reply_of none = record { reply = none; reply_len = some 0 }
reply_of (some v) = record { reply = some v.bytes; reply_len = some (length v.bytes % 2 ^ 32) }

-- The response with the bytes that the call has left, before it is resized to `replySize`.
abbrev pub response_after : Option Vector → Reply → Option Vector
response_after none r = none
response_after (some v) r =
    some (resize (record v { bytes = Option.get_or r.reply v.bytes }) (Option.get_or r.reply_len 0))

-- `response->resize(response->capacity())`
abbrev pub resized : Option Vector → Option Vector
resized none = none
resized (some v) = some (resize v v.capacity)

-- The device of an open client: `Device()`, and the guard `open_` of the other methods.
unfoldable pub device_of : {W : Type 0} → NuggetClient W → Option (OpenDevice W)
device_of c = if c.is_open then c.device else none

module _ {W : Type 0} (host : Host W) where
  unfoldable pub open_client : NuggetClient W → W → NuggetClient W × W
  open_client c w =
      let ((err, device), w') = host.nos_device_open (name_given c.device_name) w in
      let stored : Option (OpenDevice W) = elim device [ none ↦ c.device | some d ↦ some d ] in
      if c.is_open
      then (c, w)
      else (record c { device = stored; is_open = not (is_nonzero err) }, w')

  unfoldable pub close_client : NuggetClient W → W → NuggetClient W × W
  close_client c w =
      let closed : W = elim c.device [ none ↦ w | some d ↦ d.close w ] in
      if c.is_open then (record c { is_open = false }, closed) else (c, w)

  -- From the size check on, on the open device; `none` is a poll loop that ran out of fuel.
  unfoldable pub call_device :
      ℕ → OpenDevice W → ℕ → ℕ → List ℕ → Option Vector → W → Option ((ℕ × Option Vector) × W)
  unfolding request_context
  call_device fuel d app_id arg request response w =
      let full = resized response in
      let ctx = request_context d.device app_id arg request in
      elim (nos_call_application host.platform ctx fuel (reply_of full) w) [
        | none ↦ none
        | some ((code, r), w') ↦ some ((code, response_after full r), w')
      ]

  unfoldable pub call_app :
      ℕ → NuggetClient W → ℕ → ℕ → List ℕ → Option Vector → W → Option ((ℕ × Option Vector) × W)
  unfolding device_of call_device
  call_app fuel c app_id arg request response w = elim (device_of c) [
    | none ↦ some ((app_error_io, response), w)
    | some d ↦
        if ltb (2 ^ 32 - 1) (length request)
        then some ((app_error_too_much, response), w)
        else call_device fuel d app_id arg request response w
  ]

  -- The device's result as a `uint32_t`.
  unfoldable pub reset_client : NuggetClient W → M W ℕ
  unfolding device_of
  reset_client c w = elim (device_of c) [
    | none ↦ (app_error_not_ready, w)
    | some d ↦ let (err, w') = d.reset w in (u32_of err, w')
  ]
