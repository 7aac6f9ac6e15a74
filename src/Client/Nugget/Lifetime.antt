-- ===== src/Client/Nugget/Lifetime.antt =====
-- The life of a client: whatever is called, and in whatever order, no descriptor is lost.
use platform_external_nos_ho.Base.{
  ℕ, ◌-◌, ◌^◌, ltb, length, ◌≡◌, refl, ap, ◌∙◌, List, Bool, true, false, Option, some, ℤ, pos,
  is_nonzero, is_nonzero-false, arith, Bool-cases, Option-cases, inl, inr,
}
use platform_external_nos_ho.Transport.Call.{nos_call_application}
use platform_external_nos_ho.Transport.Frame.{IsKept}
use platform_external_nos_ho.Transport.Frame.Whole.{nos_call_application-kept}
use platform_external_nos_ho.Client.Vector.{Vector}
use platform_external_nos_ho.Client.Host.{Host, OpenDevice, IsHost}
use platform_external_nos_ho.Client.Nugget.{
  NuggetClient, nugget_client, name_given, request_context, reply_of, resized, device_of,
  open_client, close_client, call_device, call_app, reset_client,
}

module _ {W : Type 0} (host : Host W) where
  -- A client in its world.
  abbrev pub Life : Type 0
  Life = NuggetClient W × W

  -- What a program may do with a client; a call that does not end is no step.
  pub data Step : Life → Life → Type 0 where
    opening : (c : NuggetClient W) (w : W) → Step (c, w) (open_client host c w)
    closing : (c : NuggetClient W) (w : W) → Step (c, w) (close_client host c w)
    resetting : (c : NuggetClient W) (w : W) → Step (c, w) (c, (reset_client host c w).1)
    calling :
        (c : NuggetClient W) (w w' : W) (fuel app_id arg : ℕ) (request : List ℕ)
        (response : Option Vector) (answer : ℕ × Option Vector)
        → call_app host fuel c app_id arg request response w ≡ some (answer, w')
        → Step (c, w) (c, w')

  pub data Reach (s : Life) : Life → Type 0 where
    here : Reach s s
    next : {t u : Life} → Reach s t → Step t u → Reach s u

  module _ (laws : IsHost host) where
    open laws use {is_open}

    -- A client over the descriptors of `table`: closed, or with a device that was opened over them
    -- and has changed none since.
    data IsLive (table : ℤ → Bool) (s : Life) : Type 0 where
      closed : s.0.is_open ≡ false → ((x : ℤ) → is_open s.1 x ≡ table x) → IsLive table s
      opened :
          (name : Option (List ℕ)) (v : W) (d : OpenDevice W)
          → s.0.is_open ≡ true
          → s.0.device ≡ some d
          → (host.nos_device_open name v).0 ≡ (pos 0, some d)
          → ((x : ℤ) → is_open v x ≡ table x)
          → ((x : ℤ) → is_open s.1 x ≡ is_open (host.nos_device_open name v).1 x)
          → IsLive table s

    opening-IsLive :
        (table : ℤ → Bool) (c : NuggetClient W) (w : W)
        → IsLive table (c, w)
        → IsLive table (open_client host c w)
    unfolding open_client
    opening-IsLive table c w (opened name v d is stored made before since) =
        let unchanged : (c, w) ≡ open_client host c w = ground arith in
        let live : IsLive table (c, w) = opened name v d is stored made before since in
        rw unchanged at live
    opening-IsLive table c w (closed shut same) =
        let answer = host.nos_device_open (name_given c.device_name) w in
        elim (Bool-cases (is_nonzero answer.0.0)) [
          | inl fails ↦ rw shut (
              closed (rw fails)
                (λ x. laws.failed_keeps (name_given c.device_name) w x fails ∙ same x))
          | inr works ↦
              let success : answer.0.0 ≡ pos 0 = is_nonzero-false answer.0.0 works in
              let (d, stored) = laws.device_stored (name_given c.device_name) w success in
              rw shut (
                opened (name_given c.device_name) w d (rw works) (rw (stored, open_client))
                  (ground (arith, success, stored)) same (λ x. refl))
        ]

    closing-same :
        (table : ℤ → Bool) (c : NuggetClient W) (w : W) (x : ℤ)
        → IsLive table (c, w)
        → is_open (close_client host c w).1 x ≡ table x
    unfolding close_client
    closing-same table c w x (closed shut same) = rw shut (same x)
    closing-same table c w x (opened name v d is stored made before since) =
        rw (is, stored) (laws.close_restores name v w d made since x ∙ before x)

    closing-shut : (c : NuggetClient W) (w : W) → (close_client host c w).0.is_open ≡ false
    unfolding close_client
    closing-shut c w = ground arith

    resetting-IsLive :
        (table : ℤ → Bool) (c : NuggetClient W) (w : W)
        → IsLive table (c, w)
        → IsLive table (c, (reset_client host c w).1)
    unfolding reset_client
    resetting-IsLive table c w (closed shut same) =
        let unchanged : (reset_client host c w).1 ≡ w = ground arith in
        closed shut (λ x. ap (λ v. is_open v x) unchanged ∙ same x)
    resetting-IsLive table c w (opened name v d is stored made before since) =
        let done : (reset_client host c w).1 ≡ (d.reset w).1 = ground arith in
        opened name v d is stored made before
          (λ x. ap (λ v. is_open v x) done ∙ laws.reset_keeps name v w d x made ∙ since x)

    call_device-keeps :
        (d : OpenDevice W) (fuel app_id arg : ℕ) (request : List ℕ) (response : Option Vector)
        (answer : ℕ × Option Vector) (w w' : W) (table : ℤ → Bool)
        → IsKept host.platform d.device (λ v. (x : ℤ) → is_open v x ≡ table x)
        → ((x : ℤ) → is_open w x ≡ table x)
        → call_device host fuel d app_id arg request response w ≡ some (answer, w')
        → (x : ℤ) → is_open w' x ≡ table x
    unfolding call_device request_context
    call_device-keeps d fuel app_id arg request response answer w w' table kept same e =
        let ctx = request_context d.device app_id arg request in
        let r = reply_of (resized response) in
        elim (Option-cases (nos_call_application host.platform ctx fuel r w)) [
          | inl stuck ↦ ground arith
          | inr (((code, r'), w₁), called) ↦
              let ends : w₁ ≡ w' = ground arith in
              rw ends at (
                nos_call_application-kept host.platform ctx (λ v. (x : ℤ) → is_open v x ≡ table x)
                  kept fuel r w w₁ (code, r') same called)
        ]

    call_app-keeps :
        (c : NuggetClient W) (d : OpenDevice W) (fuel app_id arg : ℕ) (request : List ℕ)
        (response : Option Vector) (answer : ℕ × Option Vector) (w w' : W) (table : ℤ → Bool)
        → IsKept host.platform d.device (λ v. (x : ℤ) → is_open v x ≡ table x)
        → device_of c ≡ some d
        → ((x : ℤ) → is_open w x ≡ table x)
        → call_app host fuel c app_id arg request response w ≡ some (answer, w')
        → (x : ℤ) → is_open w' x ≡ table x
    unfolding call_app
    call_app-keeps c d fuel app_id arg request response answer w w' table kept has same e =
        let e' = rw (has, call_app) at e in
        elim (Bool-cases (ltb (2 ^ 32 - 1) (length request))) [
          | inl long ↦ let ends : w ≡ w' = ground (arith, rw long at e') in rw ends at same
          | inr short ↦
              call_device-keeps d fuel app_id arg request response answer w w' table kept same
                (rw short at e')
        ]

    call_app-closed :
        (c : NuggetClient W) (fuel app_id arg : ℕ) (request : List ℕ) (response : Option Vector)
        (answer : ℕ × Option Vector) (w w' : W)
        → c.is_open ≡ false
        → call_app host fuel c app_id arg request response w ≡ some (answer, w')
        → w ≡ w'
    unfolding call_app
    call_app-closed c fuel app_id arg request response answer w w' shut e = ground arith

    device_of-open :
        (c : NuggetClient W) (d : OpenDevice W)
        → c.is_open ≡ true
        → c.device ≡ some d
        → device_of c ≡ some d
    unfolding device_of
    device_of-open c d is stored = ground arith

    Step-IsLive : (table : ℤ → Bool) {s t : Life} → Step s t → IsLive table s → IsLive table t
    Step-IsLive table (opening c w) live = opening-IsLive table c w live
    Step-IsLive table (closing c w) live =
        closed (closing-shut c w) (λ x. closing-same table c w x live)
    Step-IsLive table (resetting c w) live = resetting-IsLive table c w live
    Step-IsLive table (calling c w w' fuel app_id arg request response answer e)
          (closed shut same) =
        closed shut
          (rw (call_app-closed c fuel app_id arg request response answer w w' shut e) at same)
    Step-IsLive table (calling c w w' fuel app_id arg request response answer e)
          (opened name v d is stored made before since) =
        opened name v d is stored made before (
          call_app-keeps c d fuel app_id arg request response answer w w'
            (is_open (host.nos_device_open name v).1)
            (laws.operations_keep name v d (is_open (host.nos_device_open name v).1) made)
            (device_of-open c d is stored) since e)

    Reach-IsLive : (table : ℤ → Bool) {s t : Life} → Reach s t → IsLive table s → IsLive table t
    Reach-IsLive table here live = live
    Reach-IsLive table (next r st) live = Step-IsLive table st (Reach-IsLive table r live)

    -- On every host that keeps its promises: after any sequence of Open, Close, CallApp and Reset of
    -- a new client, in any order and however they end, the destructor, which closes it, leaves
    -- every descriptor as it was before.
    pub no_descriptor_lost :
        (name : Option (List ℕ)) (config : ℕ) (w w' : W) (c : NuggetClient W) (x : ℤ)
        → Reach (nugget_client name config, w) (c, w')
        → is_open (close_client host c w').1 x ≡ is_open w x
    no_descriptor_lost name config w w' c x steps =
        closing-same (is_open w) c w' x
          (Reach-IsLive (is_open w) steps (closed (unfold nugget_client in refl) (λ x. refl)))
