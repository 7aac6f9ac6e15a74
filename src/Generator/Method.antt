-- ===== src/Generator/Method.antt =====
-- The method that libnos/generator/main.cpp prints for each method of a service, as it runs.
pub mod Laws
pub mod OnChip
mod Examples
use platform_external_nos_ho.Base.{
  ℕ, List, [], Bool, true, false, not, ltb, ◌==◌, replicate, Option, none, some, if◌then◌else◌,
}
use platform_external_nos_ho.Application.AppStatus.{app_success, app_error_too_much, app_error_rpc}
use platform_external_nos_ho.Client.Vector.{Vector, resize}
use platform_external_nos_ho.Client.App.{AppClient, call}

-- The messages' `ByteSizeLong`, `SerializeToArray` and `ParseFromArray`, of the protocol buffers: what
-- is serialised is left in the array, and what is parsed in the message, also if they fail.
pub record Messages (Request Response : Type 0) : Type 0 where
  pub byte_size : Request → ℕ
  pub serialize_to_array : Request → List ℕ → Bool × List ℕ
  pub parse_from_array : List ℕ → Response → Bool × Response

-- The numbers that are printed into the method.
pub record MethodNumbers : Type 0 where
  pub method_id : ℕ
  pub max_request_size : ℕ
  pub max_response_size : ℕ

-- `responseBuffer`, if there is a response.
abbrev pub response_buffer : {Response : Type 0} → ℕ → Option Response → Option Vector
response_buffer size none = none
response_buffer size (some r) = some (resize (record { bytes = []; capacity = 0 }) size)

module _ {Request Response : Type 0} (messages : Messages Request Response) where
  -- Behind the call: the bytes of the response buffer are parsed into the response. A client leaves a buffer if it is given one.
  abbrev pub parsed : Option Response → ℕ × Option Vector → ℕ × Option Response
  parsed none (status, buffer) = (status, none)
  parsed (some r) (status, none) = (status, some r)
  parsed (some r) (status, some buffer) =
      let (ok, r') = messages.parse_from_array buffer.bytes r in
      if status == app_success
      then (if ok then status else app_error_rpc, some r')
      else (status, some r)

module _ {Request Response W : Type 0} (messages : Messages Request Response) where
  -- From the call on.
  unfoldable pub send :
      MethodNumbers
      → AppClient W
      → List ℕ
      → Option Response
      → W
      → Option ((ℕ × Option Response) × W)
  send n app buffer response w =
      elim (call app n.method_id buffer (response_buffer n.max_response_size response) w) [
        | none ↦ none
        | some (answer, w') ↦ some (parsed messages response answer, w')
      ]

  unfoldable pub method :
      MethodNumbers
      → AppClient W
      → Request
      → Option Response
      → W
      → Option ((ℕ × Option Response) × W)
  unfolding send
  method n app request response w =
      let request_size = messages.byte_size request in
      let (ok, buffer) = messages.serialize_to_array request (replicate request_size 0) in
      if ltb n.max_request_size request_size
      then some ((app_error_too_much, response), w)
      else if not ok
      then some ((app_error_rpc, response), w)
      else send n app buffer response w
