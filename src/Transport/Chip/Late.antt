-- ===== src/Transport/Chip/Late.antt =====
-- `nos_call_application` against an app that is not done before the host's time is up.
use mathlib.Core.Path.{subst}
use platform_external_nos_ho.Base.{
  ℕ, zero, suc, ◌+◌, ◌*◌, ◌-◌, ◌^◌, ◌≤◌, ◌<◌, ◌≡◌, refl, ap, sym, ◌∙◌, List, some, false, arith,
  length, Bool-cases, Option-cases, inl, inr,
}
use platform_external_nos_ho.Application.AppStatus.{app_error_timeout}
use platform_external_nos_ho.Application.Status.{TransportStatus, decode_status, status_max_length}
use platform_external_nos_ho.Device.{Platform, Timespec}
use platform_external_nos_ho.Transport.Context.{TransportContext, poll_limit_seconds}
use platform_external_nos_ho.Transport.Retry.Time.{HasClock}
use platform_external_nos_ho.Transport.Poll.{timespec_before, poll_loop, poll_until_done}
use platform_external_nos_ho.Transport.Poll.Laws.{poll_until_done-ne-none}
use platform_external_nos_ho.Transport.Send.{sent_len}
use platform_external_nos_ho.Transport.Send.Loop.{memory}
use platform_external_nos_ho.Transport.Call.{invalid_args, nos_call_application}
use platform_external_nos_ho.Transport.Call.Memory.{given}
use platform_external_nos_ho.Transport.Call.Steps.{attempts_step}
use platform_external_nos_ho.Transport.Chip.{App, Phase, chip_in, working, begun, signed, status_of}
use platform_external_nos_ho.Transport.Chip.Device.{
  IsChip, Fits, PhaseFits, seen, get_status-chip, view-seen,
}
use platform_external_nos_ho.Transport.Chip.Ready.{
  at_work, wiped, clear_status-chip, view-wiped, make_ready-chip,
}
use platform_external_nos_ho.Transport.Chip.Requests.{send_command-chip}
use platform_external_nos_ho.Transport.Chip.Looks.{
  early_round, late_round, started_loop, progress-working, clock_read,
}
use platform_external_nos_ho.Transport.Chip.Calls.{answer_of, call_step, finish_empty}

status_of-working-reply_len :
    (looks code : ℕ) (reply : List ℕ) → (status_of (working looks code reply)).reply_len ≡ 0
unfolding status_of signed
status_of-working-reply_len looks code reply = refl

begun-later :
    (looks code : ℕ) (reply : List ℕ)
    → 0 < looks
    → begun looks code reply ≡ working (looks - 1) code reply
begun-later zero code reply h = absurd (omega arith)
begun-later (suc looks) code reply h =
    let same : looks ≡ suc looks - 1 = omega arith in ap (λ k. working k code reply) same

module _ {W S : Type 0} (platform : Platform W) (ctx : TransportContext W) (app : App S) (pace : ℕ)
    (chip : IsChip platform ctx.dev ctx.app_id app pace) where
  open chip use {view, time, awake, clock_leaves}

  module _ (code : ℕ) (reply : List ℕ) (kept : S) (fits : Fits code reply) where
    -- The end of polling an app that is still at work.
    record IsLate (c : ℕ) (s : TransportStatus) (w : W) : Type 0 where
      left : ℕ
      timed_out : c ≡ app_error_timeout
      empty : s.reply_len ≡ 0
      still : view w ≡ chip_in (working left code reply) kept

    poll_loop-IsLate :
        (fuel looks : ℕ) (abort_at : Timespec) (w w' : W) (c : ℕ) (s : TransportStatus)
        → view w ≡ chip_in (working looks code reply) kept
        → fuel ≤ looks
        → poll_loop platform ctx fuel abort_at w ≡ some ((c, s), w')
        → IsLate c s w'
    unfolding poll_loop
    poll_loop-IsLate zero looks abort_at w w' c s e h ends = absurd (ground arith)
    poll_loop-IsLate (suc fuel) zero abort_at w w' c s e h ends = absurd (omega arith)
    poll_loop-IsLate (suc fuel) (suc looks) abort_at w w' c s e h ends =
        let w₁ = seen platform ctx w in
        let w₂ = (platform.clock_gettime w₁).1 in
        let status = status_of (working (suc looks) code reply) in
        let got =
          get_status-chip platform ctx app pace chip w (working (suc looks) code reply) kept e
            fits in
        let at_work = progress-working (suc looks) code reply in
        let shown = clock_read platform ctx app pace chip w₁ in
        let left =
          clock_leaves w₁
          ∙ view-seen platform ctx app pace chip w (working (suc looks) code reply) kept e in
        elim (Bool-cases (timespec_before (time w₁) abort_at)) [
          | inl early ↦ poll_loop-IsLate fuel looks abort_at w₂ w' c s left (omega arith) (
              sym (
                early_round platform ctx fuel abort_at (time w₁) status w w₁ w₂ got at_work shown
                  early)
              ∙ ends)
          | inr late ↦
              let same : ((app_error_timeout, status), w₂) ≡ ((c, s), w') = ground (
                arith,
                late_round platform ctx fuel abort_at (time w₁) status w w₁ w₂ got at_work shown
                    late,
                ends,
              ) in
              subst (λ (t : (ℕ × TransportStatus) × W). IsLate t.0.0 t.0.1 t.1) same
                (record {
                  left = looks;
                  timed_out = refl;
                  empty = status_of-working-reply_len (suc looks) code reply;
                  still = left;
                })
        ]

    -- With fuel for the time limit, polling ends that way.
    polls-IsLate :
        (clock : HasClock platform ctx.dev) (fuel looks : ℕ) (s₀ : TransportStatus) (w : W)
        → view w ≡ chip_in (working looks code reply) kept
        → fuel ≤ looks
        → poll_limit_seconds * 10 ^ 9 < fuel
        → (s : TransportStatus) × (w' : W) × (poll_until_done platform ctx fuel s₀ w
            ≡ some ((app_error_timeout, s), w'))
          × IsLate app_error_timeout s w'
    polls-IsLate clock fuel looks s₀ w e h enough =
        elim (Option-cases (poll_until_done platform ctx fuel s₀ w)) [
          | inl stuck ↦ absurd (poll_until_done-ne-none platform ctx clock fuel s₀ w enough stuck)
          | inr (((c, s), w'), ends) ↦
              let now = time w in
              let late =
                poll_loop-IsLate fuel looks
                  (record now { tv_sec = now.tv_sec + poll_limit_seconds })
                  (platform.clock_gettime w).1 w' c s (clock_leaves w ∙ e) h
                  (sym (
                      started_loop platform ctx fuel s₀ now w (platform.clock_gettime w).1
                        (clock_read platform ctx app pace chip w))
                    ∙ ends) in
              (
                s,
                w',
                ends ∙ ap (λ k. some ((k, s), w')) late.timed_out,
                subst (λ (k : ℕ). IsLate k s w') late.timed_out late,
              )
        ]

  -- On a monotonic clock that every reading moves on, and with fuel for each nanosecond of the time
  -- limit and one more: on a device whose app keeps to the protocol and is not at work, with valid
  -- arguments that 16 bits can count, if the app would be seen at work more often than there is
  -- fuel, a call returns APP_ERROR_TIMEOUT with the caller's buffer as it was and the length 0. The
  -- app has found the request and its checksum intact, and stays at work on it.
  pub nos_call_application-late :
      (clock : HasClock platform ctx.dev) (fuel len : ℕ) (buf : List ℕ) (w : W) (phase : Phase)
      (kept : S)
      → view w ≡ chip_in phase kept
      → PhaseFits phase
      → at_work phase ≡ false
      → let answer = answer_of platform ctx app kept in
        Fits answer.code answer.reply
        → fuel < answer.looks
        → poll_limit_seconds * 10 ^ 9 < fuel
        → invalid_args ctx (given buf len) ≡ false
        → ctx.arg_len < 2 ^ 16
        → sent_len platform ctx ≤ length (memory ctx.args)
        → (w' : W) × (left : ℕ) × (nos_call_application platform ctx fuel (given buf len) w
            ≡ some ((app_error_timeout, given buf 0), w'))
          × (view w' ≡ chip_in (working left answer.code answer.reply) answer.kept)
  nos_call_application-late clock fuel len buf w phase kept e whole rests fits slow enough valid
        short hmem =
      let answer = answer_of platform ctx app kept in
      let r = given buf len in
      let undefined = decode_status (platform.uninitialised status_max_length) in
      let (w₁, earlier, ready, idle) =
        make_ready-chip platform ctx app pace chip w phase kept e whole rests in
      let (w₂, sent, begins) =
        send_command-chip platform ctx app pace chip r w₁ earlier kept idle short hmem in
      let at_it : begun answer.looks answer.code answer.reply
          ≡ working (answer.looks - 1) answer.code answer.reply =
        begun-later answer.looks answer.code answer.reply (omega arith) in
      let (s, w₃, polled, late) =
        polls-IsLate answer.code answer.reply answer.kept fits clock fuel (answer.looks - 1)
          undefined w₂ (begins ∙ ap (λ p. chip_in p answer.kept) at_it) (omega arith) enough in
      let cleared = clear_status-chip platform ctx app pace chip w₃ in
      let tried =
        attempts_step platform ctx awake fuel 4 app_error_timeout 0 r undefined s w w₁ w₂ w₃ ready
          sent polled (omega arith) (omega arith) in
      (
        wiped platform ctx w₃,
        late.left,
        call_step platform ctx fuel app_error_timeout len buf s w w₃ (wiped platform ctx w₃)
            (given buf 0) tried
            (finish_empty platform ctx app_error_timeout s buf len w₃ (wiped platform ctx w₃)
              late.empty cleared)
            valid (omega arith),
        view-wiped platform ctx app pace chip w₃ (working late.left answer.code answer.reply)
            answer.kept late.still,
      )
