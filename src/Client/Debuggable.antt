-- ===== src/Client/Debuggable.antt =====
-- libnos/NuggetClientDebuggable.cpp.
pub mod Laws
use platform_external_nos_ho.Base.{
  ℕ, ◌-◌, ◌^◌, List, ltb, length, Option, none, some, if◌then◌else◌,
}
use platform_external_nos_ho.Application.AppStatus.{app_error_io, app_error_too_much}
use platform_external_nos_ho.Transport.Call.{nos_call_application}
use platform_external_nos_ho.Client.Vector.{Vector}
use platform_external_nos_ho.Client.Host.{Host, OpenDevice}
use platform_external_nos_ho.Client.Nugget.{
  NuggetClient, nugget_client, request_context, reply_of, response_after, resized, device_of,
}

-- The base class, and the callbacks, which may be empty and act on the world outside.
pub record NuggetClientDebuggable (W : Type 0) : Type 0 where
  pub base : NuggetClient W
  pub request_cb : Option (List ℕ → W → W)
  pub response_cb : Option (ℕ → List ℕ → W → W)

unfoldable pub nugget_client_debuggable :
    {W : Type 0}
    → Option (List ℕ)
    → ℕ
    → Option (List ℕ → W → W)
    → Option (ℕ → List ℕ → W → W)
    → NuggetClientDebuggable W
nugget_client_debuggable name config request_cb response_cb = record {
  base = nugget_client name config;
  request_cb = request_cb;
  response_cb = response_cb;
}

module _ {W : Type 0} where
  abbrev pub on_request : Option (List ℕ → W → W) → List ℕ → W → W
  on_request none request w = w
  on_request (some f) request w = f request w

  abbrev pub on_response : Option (ℕ → List ℕ → W → W) → ℕ → Option Vector → W → W
  on_response cb code none w = w
  on_response none code (some v) w = w
  on_response (some f) code (some v) w = f code v.bytes w

module _ {W : Type 0} (host : Host W) where
  unfoldable pub call_device_debug :
      ℕ
      → NuggetClientDebuggable W
      → OpenDevice W
      → ℕ
      → ℕ
      → List ℕ
      → Option Vector
      → W
      → Option ((ℕ × Option Vector) × W)
  unfolding request_context
  call_device_debug fuel c d app_id arg request response w =
      let full = resized response in
      let ctx = request_context d.device app_id arg request in
      let w₁ = on_request c.request_cb request w in
      elim (nos_call_application host.platform ctx fuel (reply_of full) w₁) [
        | none ↦ none
        | some ((code, r), w₂) ↦
            let after = response_after full r in
            some ((code, after), on_response c.response_cb code after w₂)
      ]

  unfoldable pub call_app_debug :
      ℕ
      → NuggetClientDebuggable W
      → ℕ
      → ℕ
      → List ℕ
      → Option Vector
      → W
      → Option ((ℕ × Option Vector) × W)
  unfolding device_of call_device_debug
  call_app_debug fuel c app_id arg request response w = elim (device_of c.base) [
    | none ↦ some ((app_error_io, response), w)
    | some d ↦
        if ltb (2 ^ 32 - 1) (length request)
        then some ((app_error_too_much, response), w)
        else call_device_debug fuel c d app_id arg request response w
  ]
