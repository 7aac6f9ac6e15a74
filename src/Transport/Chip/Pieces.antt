-- ===== src/Transport/Chip/Pieces.antt =====
-- What the datagrams of a request do to an app that is idle.
use platform_external_nos_ho.Base.{
  ℕ, ◌+◌, ◌*◌, ◌%◌, ◌^◌, ◌<◌, ◌≡◌, refl, ap, ◌∙◌, sym, List, [], ◌∷◌, ◌++◌, All, arith, length, ◌≢◌,
  true, false, take-all,
}
use mathlib.Core.List.{append_assoc, append-nil}
use platform_external_nos_ho.Application.AppStatus.{app_error_checksum}
use platform_external_nos_ho.Transport.Send.Plan.{Datagram, datagrams, payload, IsData}
use platform_external_nos_ho.Transport.Chip.{
  App, chip_in, waiting, Chip, chip_write, begun, is_intact, answering,
}
use platform_external_nos_ho.Transport.Chip.Words.{first_message, next_message, go_no_message}

-- What a list of datagrams does to the chip.
unfoldable pub chip_writes : {S : Type 0} → App S → List Datagram → Chip S → Chip S
chip_writes app [] c = c
chip_writes app ((command, bytes) ∷ ds) c = chip_writes app ds (chip_write app command bytes c)

module _ {S : Type 0} (app : App S) (kept : S) where
  first_collected :
      (id : ℕ) (earlier bytes : List ℕ)
      → id < 256
      → length bytes < 2 ^ 16
      → chip_write app
          (0x60 * 2 ^ 24 + (id * 2 ^ 16 + length bytes))
          bytes
          (chip_in (waiting earlier) kept)
        ≡ chip_in (waiting bytes) kept
  unfolding chip_write
  first_collected id earlier bytes hid h =
      let low : ℕ = id * 2 ^ 16 + length bytes in
      let (message, content, first) = first_message low (omega arith) in
      let count : (0x60 * 2 ^ 24 + low) % 2 ^ 16 ≡ length bytes = omega arith in
      rw (message, content, first, count)
        (ap (λ t. chip_in (waiting t) kept) (take-all (length bytes) bytes (omega arith)))

  next_collected :
      (id : ℕ) (earlier bytes : List ℕ)
      → id < 256
      → length bytes < 2 ^ 16
      → chip_write app
          (0x70 * 2 ^ 24 + (id * 2 ^ 16 + length bytes))
          bytes
          (chip_in (waiting earlier) kept)
        ≡ chip_in (waiting (earlier ++ bytes)) kept
  unfolding chip_write
  next_collected id earlier bytes hid h =
      let low : ℕ = id * 2 ^ 16 + length bytes in
      let (message, content, more) = next_message low (omega arith) in
      let count : (0x70 * 2 ^ 24 + low) % 2 ^ 16 ≡ length bytes = omega arith in
      rw (message, content, more, count)
        (ap (λ t. chip_in (waiting (earlier ++ t)) kept)
          (take-all (length bytes) bytes (omega arith)))

  pub go_started :
      (id params : ℕ) (earlier info : List ℕ)
      → id < 256
      → is_intact earlier (id * 2 ^ 16 + params % 2 ^ 16) info ≡ true
      → let answer = app kept (params % 2 ^ 16) earlier in
        chip_write app (id * 2 ^ 16 + params % 2 ^ 16) info (chip_in (waiting earlier) kept)
        ≡ chip_in (begun answer.looks answer.code answer.reply) answer.kept
  unfolding chip_write
  go_started id params earlier info hid intact =
      let low : ℕ = id * 2 ^ 16 + params % 2 ^ 16 in
      let param : low % 2 ^ 16 ≡ params % 2 ^ 16 = omega arith in
      rw (go_no_message low (omega arith), intact, param) refl

  pub go_refused :
      (id params : ℕ) (earlier info : List ℕ)
      → id < 256
      → is_intact earlier (id * 2 ^ 16 + params % 2 ^ 16) info ≡ false
      → chip_write app (id * 2 ^ 16 + params % 2 ^ 16) info (chip_in (waiting earlier) kept)
        ≡ chip_in (answering app_error_checksum [] []) kept
  unfolding chip_write
  go_refused id params earlier info hid damaged =
      let low : ℕ = id * 2 ^ 16 + params % 2 ^ 16 in
      rw (go_no_message low (omega arith), damaged) refl

  more_collected :
      (id : ℕ) (cs : List (List ℕ)) (earlier : List ℕ)
      → id < 256
      → All (IsData id) (datagrams 0x70 id cs)
      → chip_writes app (datagrams 0x70 id cs) (chip_in (waiting earlier) kept)
        ≡ chip_in (waiting (earlier ++ payload (datagrams 0x70 id cs))) kept
  unfolding chip_writes datagrams payload
  more_collected id [] earlier hid ok =
      ap (λ t. chip_in (waiting t) kept) (sym (append-nil earlier))
  more_collected id (c ∷ cs) earlier hid ((short, _, _), rest) =
      ap (chip_writes app (datagrams 0x70 id cs)) (next_collected id earlier c hid (omega arith))
      ∙ more_collected id cs (earlier ++ c) hid rest
      ∙ ap (λ t. chip_in (waiting t) kept) (append_assoc earlier c (payload (datagrams 0x70 id cs)))

  -- The pieces of a message make it up again, whatever an earlier exchange has left.
  pub message_collected :
      (id : ℕ) (cs : List (List ℕ)) (earlier : List ℕ)
      → id < 256
      → cs ≢ []
      → All (IsData id) (datagrams 0x60 id cs)
      → chip_writes app (datagrams 0x60 id cs) (chip_in (waiting earlier) kept)
        ≡ chip_in (waiting (payload (datagrams 0x60 id cs))) kept
  unfolding chip_writes datagrams payload
  message_collected id [] earlier hid some_piece ok = absurd (some_piece refl)
  message_collected id (c ∷ cs) earlier hid some_piece ((short, _, _), rest) =
      ap (chip_writes app (datagrams 0x70 id cs)) (first_collected id earlier c hid (omega arith))
      ∙ more_collected id cs c hid rest
