-- ===== src/Transport/Chip/Ready.antt =====
-- `make_ready` and `clear_status` against an app that keeps to the protocol.
use platform_external_nos_ho.Base.{
  ℕ, ◌+◌, ◌*◌, ◌^◌, ◌≡◌, refl, ap, ap₂, ◌∙◌, List, [], Bool, true, false, pos, arith,
}
use platform_external_nos_ho.Application.AppStatus.{app_success}
use platform_external_nos_ho.Device.{Platform}
use platform_external_nos_ho.Transport.Context.{TransportContext}
use platform_external_nos_ho.Transport.Status.{clear_command, clear_status}
use platform_external_nos_ho.Transport.Ready.{make_ready}
use platform_external_nos_ho.Transport.Call.Steps.{clear_step}
use platform_external_nos_ho.Transport.Chip.{
  App, chip_in, Phase, waiting, working, answering, Chip, addressee, says_read, signed, status_of,
  cleared, chip_write,
}
use platform_external_nos_ho.Transport.Chip.Words.{
  clear_word, clear_message, clear_no_data, addressee_word, writes_word,
}
use platform_external_nos_ho.Transport.Chip.Device.{
  IsChip, IsWriteTo, PhaseFits, seen, get_status-chip, view-seen,
}

-- An app at work cannot take a request.
abbrev pub at_work : Phase → Bool
at_work (waiting request) = false
at_work (working looks code reply) = true
at_work (answering code reply rest) = false

-- The world after the datagram that clears the status.
unfoldable pub wiped : {W : Type 0} → Platform W → TransportContext W → W → W
wiped platform ctx w = (ctx.dev.write (clear_command platform ctx) [] w).1

module _ {W S : Type 0} (platform : Platform W) (ctx : TransportContext W) (app : App S) (pace : ℕ)
    (chip : IsChip platform ctx.dev ctx.app_id app pace) where
  open chip use {view, awake, narrow, write_succeeds, write_leaves}

  clear_write : IsWriteTo ctx.app_id (clear_command platform ctx) []
  clear_write = record {
    here =
        ap addressee (clear_word ctx.app_id narrow)
        ∙ addressee_word 0x40 ctx.app_id 0 narrow (omega arith);
    writes =
        ap says_read (clear_word ctx.app_id narrow)
        ∙ writes_word 0x40 (ctx.app_id * 2 ^ 16 + 0) (omega arith) (omega arith);
    carried = omega arith;
  }

  pub clear_status-chip : (w : W) → clear_status platform ctx w ≡ (pos 0, wiped platform ctx w)
  unfolding wiped
  clear_status-chip w =
      clear_step platform ctx awake w (wiped platform ctx w)
        (ap₂ (λ a b. (a, b)) (write_succeeds (clear_command platform ctx) [] w clear_write) refl)

  clear_written :
      (c : Chip S)
      → chip_write app (clear_command platform ctx) [] c
        ≡ record { phase = cleared c.phase; kept = c.kept }
  unfolding chip_write
  clear_written c =
      let low = ctx.app_id * 2 ^ 16 + 0 in
      rw
        (
          clear_word ctx.app_id narrow,
          clear_message low (omega arith),
          clear_no_data low (omega arith),
        )
        refl

  pub view-wiped :
      (w : W) (phase : Phase) (kept : S)
      → view w ≡ chip_in phase kept
      → view (wiped platform ctx w) ≡ chip_in (cleared phase) kept
  unfolding wiped
  view-wiped w phase kept e =
      write_leaves (clear_command platform ctx) [] w clear_write
      ∙ clear_written (view w)
      ∙ ap (λ c. chip_in (cleared c.phase) c.kept) e

  -- An app that is not at work is ready for a request, whatever is left of an earlier exchange.
  pub make_ready-chip :
      (w : W) (phase : Phase) (kept : S)
      → view w ≡ chip_in phase kept
      → PhaseFits phase
      → at_work phase ≡ false
      → (w' : W) × (request : List ℕ) × (make_ready platform ctx w ≡ (app_success, w'))
        × (view w' ≡ chip_in (waiting request) kept)
  unfolding make_ready status_of signed
  make_ready-chip w (waiting request) kept e fits rest =
      let got = get_status-chip platform ctx app pace chip w (waiting request) kept e fits in
      (
        seen platform ctx w,
        request,
        rw got refl,
        view-seen platform ctx app pace chip w (waiting request) kept e,
      )
  make_ready-chip w (working looks code reply) kept e fits rest = absurd (ground arith)
  make_ready-chip w (answering code reply rest) kept e fits none_at_work =
      let w₁ = seen platform ctx w in
      let w₂ = wiped platform ctx w₁ in
      let got =
        get_status-chip platform ctx app pace chip w (answering code reply rest) kept e fits in
      let left = view-seen platform ctx app pace chip w (answering code reply rest) kept e in
      let wiped_clean = view-wiped w₁ (answering code reply rest) kept left in
      let again = get_status-chip platform ctx app pace chip w₂ (waiting []) kept wiped_clean tt in
      (
        seen platform ctx w₂,
        [],
        ground (arith, got, clear_status-chip w₁, again),
        view-seen platform ctx app pace chip w₂ (waiting []) kept wiped_clean,
      )
