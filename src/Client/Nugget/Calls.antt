-- ===== src/Client/Nugget/Calls.antt =====
-- What a call of a client does to the response.
use platform_external_nos_ho.Base.{
  ℕ, zero, suc, ◌-◌, ◌%◌, ◌^◌, ◌≤◌, ◌<◌, ◌≡◌, ◌≢◌, refl, ap, ap₂, ◌∙◌, List, [], ◌∷◌, ◌++◌, true,
  false, ltb, leb, length, take, drop, replicate, length-append, length-take, Option, some, arith,
  Bool-cases, Option-cases, inl, inr,
}
use mathlib.Core.Path.{subst}
use mathlib.Core.List.{append-nil}
use platform_external_nos_ho.Application.AppStatus.{app_error_too_much, app_error_checksum}
use platform_external_nos_ho.Device.{max_device_transfer}
use platform_external_nos_ho.Transport.Retry.Laws.{IsDevice}
use platform_external_nos_ho.Transport.Call.{nos_call_application, invalid_args}
use platform_external_nos_ho.Transport.Call.Memory.{given, nos_call_application-IsSafe}
use platform_external_nos_ho.Transport.Call.Delivery.{Conversation, nos_call_application_delivers}
use platform_external_nos_ho.Client.Vector.{Vector, resize, IsVector}
use platform_external_nos_ho.Client.Host.{Host, OpenDevice}
use platform_external_nos_ho.Client.Nugget.{
  NuggetClient, request_context, device_of, call_device, call_app,
}

-- The vector whose elements fill its room.
abbrev pub full : Vector → Vector
full v = resize v v.capacity

length-replicate : (n a : ℕ) → length (replicate n a) ≡ n
length-replicate zero a = refl
length-replicate (suc n) a = omega (arith, length-replicate n a)

pub length-full : (v : Vector) → IsVector v → length (full v).bytes ≡ v.capacity
unfolding resize
length-full v h = omega (
  arith,
  length-append (take v.capacity v.bytes) (replicate (v.capacity - length v.bytes) 0),
  length-take v.capacity v.bytes,
  length-replicate (v.capacity - length v.bytes) 0,
)

capacity-full : (v : Vector) → (full v).capacity ≡ v.capacity
unfolding resize
capacity-full v = ground arith

-- Cutting a vector to fewer elements than it has.
resize_shorter :
    (v : Vector) (n : ℕ)
    → n ≤ length v.bytes
    → n ≤ v.capacity
    → resize v n ≡ record { bytes = take n v.bytes; capacity = v.capacity }
unfolding resize
resize_shorter v n h k =
    let none_new : n - length v.bytes ≡ 0 = omega arith in
    let fits : leb n v.capacity ≡ true = ground arith in
    rw (none_new, fits)
      (ap (λ (b : List ℕ). record { bytes = b; capacity = v.capacity })
        (append-nil (take n v.bytes)))

take_front : (xs ys : List ℕ) → take (length xs) (xs ++ ys) ≡ xs
take_front [] ys = refl
take_front (x ∷ xs) ys = ap (λ l. x ∷ l) (take_front xs ys)

-- The answer at the front of a full vector, cut to its length.
pub cut_to_answer :
    (v : Vector) (answer : List ℕ)
    → length answer ≤ v.capacity
    → resize
        (record (full v) { bytes = answer ++ drop (length answer) (full v).bytes })
        (length answer)
      ≡ record { bytes = answer; capacity = v.capacity }
cut_to_answer v answer fits =
    resize_shorter (record (full v) { bytes = answer ++ drop (length answer) (full v).bytes })
      (length answer) (omega (arith, length-append answer (drop (length answer) (full v).bytes)))
      (omega (arith, capacity-full v))
    ∙ ap₂ (λ (b : List ℕ) (k : ℕ). record { bytes = b; capacity = k })
        (take_front answer (drop (length answer) (full v).bytes)) (capacity-full v)

module _ {W : Type 0} (host : Host W) where
  pub call_app-open :
      (fuel : ℕ) (c : NuggetClient W) (d : OpenDevice W) (app_id arg : ℕ) (request : List ℕ)
      (response : Option Vector) (w : W)
      → device_of c ≡ some d
      → length request < 2 ^ 32
      → call_app host fuel c app_id arg request response w
        ≡ call_device host fuel d app_id arg request response w
  unfolding call_app
  call_app-open fuel c d app_id arg request response w has short =
      let fits : ltb (2 ^ 32 - 1) (length request) ≡ false = ground arith in
      rw (has, call_app, fits)

  -- What a call leaves of a response.
  abbrev pub Bounded : Vector → Option Vector → Type 0
  Bounded v response =
      (v' : Vector) × (response ≡ some v')
      × (v'.capacity ≡ v.capacity)
      × (length v'.bytes ≤ v.capacity)

  call_device-Bounded :
      (fuel : ℕ) (d : OpenDevice W) (app_id arg code : ℕ) (request : List ℕ) (v : Vector)
      (response : Option Vector) (w w' : W)
      → IsDevice d.device
      → IsVector v
      → call_device host fuel d app_id arg request (some v) w ≡ some ((code, response), w')
      → Bounded v response
  unfolding call_device request_context
  call_device-Bounded fuel d app_id arg code request v response w w' ok hv e =
      let ctx = request_context d.device app_id arg request in
      let buf = (full v).bytes in
      let len = length buf % 2 ^ 32 in
      elim (Option-cases (nos_call_application host.platform ctx fuel (given buf len) w)) [
        | inl stuck ↦ ground arith
        | inr (((code', r), w₁), called) ↦
            let safe =
              nos_call_application-IsSafe host.platform ctx ok buf len (omega arith) fuel code' r w
                w₁ called in
            let left : response ≡ some (resize (record (full v) { bytes = safe.bytes }) safe.got) =
              ground (arith, safe.in_buffer, safe.in_length) in
            let cut =
              resize_shorter (record (full v) { bytes = safe.bytes }) safe.got
                (omega (arith, safe.shorter, safe.same_length))
                (omega (arith, safe.shorter, length-full v hv, capacity-full v)) in
            (
              record { bytes = take safe.got safe.bytes; capacity = (full v).capacity },
              left ∙ ap (λ (u : Vector). some u) cut,
              capacity-full v,
              omega (arith, length-take safe.got safe.bytes, safe.shorter, length-full v hv),
            )
      ]

  -- On every device that writes no more than it is asked for: however a call of an open client ends,
  -- its response has the room that it had, and no more elements than that.
  pub call_app-Bounded :
      (fuel : ℕ) (c : NuggetClient W) (d : OpenDevice W) (app_id arg code : ℕ) (request : List ℕ)
      (v : Vector) (response : Option Vector) (w w' : W)
      → device_of c ≡ some d
      → IsDevice d.device
      → IsVector v
      → call_app host fuel c app_id arg request (some v) w ≡ some ((code, response), w')
      → Bounded v response
  unfolding call_app
  call_app-Bounded fuel c d app_id arg code request v response w w' has ok hv e =
      let e' = rw (has, call_app) at e in
      elim (Bool-cases (ltb (2 ^ 32 - 1) (length request))) [
        | inl long ↦
            let same : response ≡ some v = ground (arith, rw long at e') in (v, same, refl, hv)
        | inr short ↦
            call_device-Bounded fuel d app_id arg code request v response w w' ok hv
              (rw short at e')
      ]

  pub valid_args :
      (d : OpenDevice W) (app_id arg : ℕ) (request buf : List ℕ) (len : ℕ)
      → invalid_args (request_context d.device app_id arg request) (given buf len) ≡ false
  unfolding invalid_args request_context
  valid_args d app_id arg request buf len = ground arith

  -- For an open client, a positive EAGAIN and a request below 2 ^ 32 bytes, on a device with the given
  -- conversation, whose app's code is below 2 ^ 31 and neither APP_ERROR_TOO_MUCH nor
  -- APP_ERROR_CHECKSUM, and whose reply of one datagram is not empty and fits the room of the
  -- response, and a room below 2 ^ 32: the call returns the app's code, and the response holds the app's bytes and no others.
  pub call_app_delivers :
      (fuel : ℕ) (c : NuggetClient W) (d : OpenDevice W) (app_id arg code : ℕ)
      (request answer : List ℕ) (v : Vector) (w w' : W)
      → device_of c ≡ some d
      → 0 < host.platform.eagain
      → length request < 2 ^ 32
      → IsVector v
      → v.capacity < 2 ^ 32
      → Conversation host.platform
          (request_context d.device app_id arg request)
          (resize v v.capacity).bytes
          answer
          v.capacity
          code
          w
          w'
      → code < 2 ^ 31
      → code ≢ app_error_too_much
      → code ≢ app_error_checksum
      → 0 < length answer
      → length answer ≤ max_device_transfer
      → length answer ≤ v.capacity
      → call_app host (suc fuel) c app_id arg request (some v) w
        ≡ some ((code, some (record { bytes = answer; capacity = v.capacity })), w')
  unfolding call_device request_context
  call_app_delivers fuel c d app_id arg code request answer v w w' has epos short hv small talk
        hcode much checksum some_left one fits =
      let ctx = request_context d.device app_id arg request in
      let buf = (full v).bytes in
      let len : v.capacity ≡ length buf % 2 ^ 32 = omega (arith, length-full v hv) in
      let delivered =
        nos_call_application_delivers host.platform ctx epos fuel code v.capacity buf answer w w'
          talk (valid_args d app_id arg request buf v.capacity) (omega arith) (omega arith) hcode
          much checksum some_left one fits in
      let called : nos_call_application host.platform ctx (suc fuel)
            (given buf (length buf % 2 ^ 32)) w
          ≡ some ((code, given (answer ++ drop (length answer) buf) (length answer)), w') =
        subst
          (λ k.
            nos_call_application host.platform ctx (suc fuel) (given buf k) w
            ≡ some ((code, given (answer ++ drop (length answer) buf) (length answer)), w'))
          len delivered in
      let cut = cut_to_answer v answer fits in
      call_app-open (suc fuel) c d app_id arg request (some v) w has short
      ∙ rw (called, call_device) (ap (λ (u : Vector). some ((code, some u), w')) cut)
