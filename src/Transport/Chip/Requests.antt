-- ===== src/Transport/Chip/Requests.antt =====
-- A request of any length, datagram by datagram, against an app that keeps to the protocol.
use platform_external_nos_ho.Base.{
  ℕ, ◌+◌, ◌*◌, ◌%◌, ◌^◌, ◌≤◌, ◌<◌, ◌≡◌, refl, ap, ap₂, ◌∙◌, sym, List, [], ◌∷◌, All, arith, length,
  zero, suc, ◌≢◌, false, Bool-cases, inl, inr, leb, take, length-take,
}
use platform_external_nos_ho.Application.AppStatus.{app_success, app_error_checksum}
use platform_external_nos_ho.Application.Status.{TransportCommandInfo, encode_command_info, le16}
use platform_external_nos_ho.Device.{Platform, max_device_transfer}
use platform_external_nos_ho.Transport.Context.{TransportContext, Reply}
use platform_external_nos_ho.Transport.Retry.Laws.{nos_device_write_first}
use platform_external_nos_ho.Transport.Send.{sent_len, send_command, go_command, command_info}
use platform_external_nos_ho.Transport.Send.Plan.{
  Datagram, datagrams, chunks, payload-chunks, chunks-IsData, IsData, write_all, write_all-append,
}
use platform_external_nos_ho.Transport.Send.Loop.{memory}
use platform_external_nos_ho.Transport.Send.Laws.{data_part, request, send_command-write_all}
use platform_external_nos_ho.Transport.Chip.{
  App, chip_in, waiting, Chip, addressee, says_read, chip_write, begun, is_intact, answering,
}
use platform_external_nos_ho.Transport.Chip.Words.{go_word, writes_word}
use platform_external_nos_ho.Transport.Chip.Device.{IsChip, IsWriteTo}
use platform_external_nos_ho.Transport.Chip.Checks.{message_of, info_of, command_info-is_intact}
use platform_external_nos_ho.Transport.Chip.Pieces.{
  chip_writes, message_collected, go_started, go_refused,
}

chunks-ne-nil : (n : ℕ) (xs : List ℕ) → chunks n xs ≢ []
unfolding chunks
chunks-ne-nil zero xs = λ e. cc
chunks-ne-nil (suc n) xs = elim (Bool-cases (leb (length xs) max_device_transfer)) [
  | inl short ↦ rw short (λ e. cc)
  | inr long ↦ rw long (λ e. cc)
]

first_flags : (low : ℕ) → low ≡ 0 * 2 ^ 24 + low
first_flags low = omega arith

length-encode_command_info : (c : TransportCommandInfo) → length (encode_command_info c) ≡ 8
unfolding encode_command_info le16
length-encode_command_info c = refl

module _ {W S : Type 0} (platform : Platform W) (ctx : TransportContext W) (app : App S) (pace : ℕ)
    (chip : IsChip platform ctx.dev ctx.app_id app pace) where
  open chip use {view, awake, narrow, write_succeeds, write_leaves}

  write_all-chip :
      (ds : List Datagram) (w : W) (c : Chip S)
      → view w ≡ c
      → All (λ (d : Datagram). IsWriteTo ctx.app_id d.0 d.1) ds
      → (w' : W) × (write_all platform ctx ds w ≡ (app_success, w'))
        × (view w' ≡ chip_writes app ds c)
  unfolding write_all chip_writes
  write_all-chip [] w c e ok = (w, refl, e)
  write_all-chip ((command, bytes) ∷ ds) w c e (here, rest) =
      let w₁ = (ctx.dev.write command bytes w).1 in
      let written =
        nos_device_write_first platform ctx.dev command bytes w w₁ awake
          (ap₂ (λ a b. (a, b)) (write_succeeds command bytes w here) refl) in
      let left = write_leaves command bytes w here ∙ ap (chip_write app command bytes) e in
      let (w', sent, there) = write_all-chip ds w₁ (chip_write app command bytes c) left rest in
      (w', rw written sent, there)

  pieces_written :
      (flags : ℕ) (cs : List (List ℕ))
      → flags < 128
      → All (IsData ctx.app_id) (datagrams flags ctx.app_id cs)
      → All (λ (d : Datagram). IsWriteTo ctx.app_id d.0 d.1) (datagrams flags ctx.app_id cs)
  unfolding datagrams
  pieces_written flags [] hf ok = tt
  pieces_written flags (c ∷ cs) hf ((short, _, here), rest) =
      let low : ℕ = ctx.app_id * 2 ^ 16 + length c in
      (
        record {
          here = here;
          writes = writes_word flags low hf (omega (arith, narrow));
          carried = short;
        },
        pieces_written 0x70 cs (omega arith) rest,
      )

  -- An idle app gets the request datagram by datagram, and the command to start behind it.
  send_command-collected :
      (r : Reply) (w : W) (earlier : List ℕ) (kept : S)
      → view w ≡ chip_in (waiting earlier) kept
      → sent_len platform ctx ≤ length (memory ctx.args)
      → (w' : W) × (send_command platform ctx r w ≡ (app_success, w'))
        × (view w'
            ≡ chip_write app
                (ctx.app_id * 2 ^ 16 + ctx.params % 2 ^ 16)
                (info_of platform ctx r)
                (chip_in (waiting (message_of platform ctx)) kept))
  unfolding request data_part write_all chip_writes
  send_command-collected r w earlier kept e hm =
      let n = sent_len platform ctx in
      let message = take n (memory ctx.args) in
      let cs = chunks n message in
      let ds = datagrams 0x60 ctx.app_id cs in
      let info = encode_command_info (command_info platform ctx r) in
      let go = go_command platform ctx in
      let ok =
        chunks-IsData n 0x60 ctx.app_id message narrow
          (omega (arith, length-take n (memory ctx.args))) in
      let (w₁, data_sent, collected) =
        write_all-chip ds w (chip_in (waiting earlier) kept) e
          (pieces_written 0x60 cs (omega arith) ok) in
      let whole : view w₁ ≡ chip_in (waiting message) kept =
        collected
        ∙ message_collected app kept ctx.app_id cs earlier narrow (chunks-ne-nil n message) ok
        ∙ ap (λ t. chip_in (waiting t) kept) (payload-chunks n 0x60 ctx.app_id message) in
      let word = go_word ctx.app_id narrow ctx.params in
      let low : ℕ = ctx.app_id * 2 ^ 16 + ctx.params % 2 ^ 16 in
      let go_write : IsWriteTo ctx.app_id go info = record {
        here = ap addressee word ∙ omega (arith, narrow);
        writes =
            ap says_read (word ∙ first_flags low)
            ∙ writes_word 0 low (omega arith) (omega (arith, narrow));
        carried = omega (arith, length-encode_command_info (command_info platform ctx r));
      } in
      let (w', go_sent, begins) =
        write_all-chip ((go, info) ∷ []) w₁ (chip_in (waiting message) kept) whole (go_write, tt) in
      (
        w',
        send_command-write_all platform ctx r w narrow hm
            ∙ write_all-append platform ctx ds ((go, info) ∷ []) w
            ∙ rw data_sent go_sent,
        begins
            ∙ ap (λ t. chip_write app t info (chip_in (waiting message) kept))
                (go_word ctx.app_id narrow ctx.params),
      )

  -- If 16 bits can count the request, the app finds it intact, and is started on it.
  pub send_command-chip :
      (r : Reply) (w : W) (earlier : List ℕ) (kept : S)
      → view w ≡ chip_in (waiting earlier) kept
      → ctx.arg_len < 2 ^ 16
      → sent_len platform ctx ≤ length (memory ctx.args)
      → let answer = app kept (ctx.params % 2 ^ 16) (message_of platform ctx) in
        (w' : W) × (send_command platform ctx r w ≡ (app_success, w'))
        × (view w' ≡ chip_in (begun answer.looks answer.code answer.reply) answer.kept)
  send_command-chip r w earlier kept e short hm =
      let (w', sent, there) = send_command-collected r w earlier kept e hm in
      (
        w',
        sent,
        there
            ∙ go_started app kept ctx.app_id ctx.params (message_of platform ctx)
                (info_of platform ctx r) narrow
                (ap (λ t. is_intact (message_of platform ctx) t (info_of platform ctx r))
                    (sym (go_word ctx.app_id narrow ctx.params))
                  ∙ command_info-is_intact platform ctx r short hm),
      )

  -- If the app does not find it intact, it answers APP_ERROR_CHECKSUM.
  pub send_command-refused :
      (r : Reply) (w : W) (earlier : List ℕ) (kept : S)
      → view w ≡ chip_in (waiting earlier) kept
      → sent_len platform ctx ≤ length (memory ctx.args)
      → is_intact (message_of platform ctx) (go_command platform ctx) (info_of platform ctx r)
        ≡ false
      → (w' : W) × (send_command platform ctx r w ≡ (app_success, w'))
        × (view w' ≡ chip_in (answering app_error_checksum [] []) kept)
  send_command-refused r w earlier kept e hm damaged =
      let (w', sent, there) = send_command-collected r w earlier kept e hm in
      (
        w',
        sent,
        there
            ∙ go_refused app kept ctx.app_id ctx.params (message_of platform ctx)
                (info_of platform ctx r) narrow
                (ap (λ t. is_intact (message_of platform ctx) t (info_of platform ctx r))
                    (sym (go_word ctx.app_id narrow ctx.params))
                  ∙ damaged),
      )
