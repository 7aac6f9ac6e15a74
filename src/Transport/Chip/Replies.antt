-- ===== src/Transport/Chip/Replies.antt =====
-- `receive_reply` on a reply of any length.
use platform_external_nos_ho.Base.{
  ℕ, ◌+◌, ◌*◌, ◌-◌, ◌%◌, ◌^◌, ◌≤◌, ◌<◌, ◌≡◌, refl, ap, ap₂, ◌∙◌, sym, List, [], ◌∷◌, ◌++◌, Bool,
  true, false, pos, arith, length, take, drop, min, Acc, lt_wf, dec_lt, bit_or, ◌==◌, ◌||◌,
  if◌then◌else◌, length-take, length-drop, take-append-drop, drop-drop,
}
use mathlib.Core.Logic.{dif_pos, dif_neg}
use mathlib.Core.List.{append_assoc}
use native.Mathlib.Bridge.{le_prop}
use platform_external_nos_ho.Crc16.{crc16, crc16_update}
use platform_external_nos_ho.Crc16.Update.{crc16_update-append}
use platform_external_nos_ho.Application.AppStatus.{app_success}
use platform_external_nos_ho.Application.Status.{TransportStatus, transport_v0}
use platform_external_nos_ho.Application.Command.{cmd_more_to_come}
use platform_external_nos_ho.Device.{Platform, max_device_transfer}
use platform_external_nos_ho.Transport.Context.{TransportContext}
use platform_external_nos_ho.Transport.Retry.{nos_device_read}
use platform_external_nos_ho.Transport.Retry.Laws.{nos_device_read_first}
use platform_external_nos_ho.Transport.Receive.{
  Received, gimme-lt, receive_loop, receive_tries, receive_reply,
}
use platform_external_nos_ho.Transport.Chip.{
  App, chip_in, answering, addressee, says_read, chip_read,
}
use platform_external_nos_ho.Transport.Chip.Words.{
  word, reply_word, more_word, again_word, reply_data, more_data, addressee_word, reads_word,
}
use platform_external_nos_ho.Transport.Chip.Device.{IsChip, IsReadOf, stored}

-- The command of a read: the first of a reply, or a later one.
abbrev reading : Bool → ℕ → ℕ
reading false id = word 0xE0 id
reading true id = word 0xF0 id

-- What a read of a reply starts from.
abbrev source : Bool → List ℕ → List ℕ → List ℕ
source more reply rest = if more then rest else reply

module _ (id : ℕ) (narrow : id < 256) where
  reading-more : (more : Bool) → bit_or (reading more id) cmd_more_to_come ≡ reading true id
  reading-more false = more_word id narrow
  reading-more true = again_word id narrow

  reading_addressed : (more : Bool) → addressee (reading more id) ≡ id
  reading_addressed false = addressee_word 0xE0 id 0 narrow (omega arith)
  reading_addressed true = addressee_word 0xF0 id 0 narrow (omega arith)

  reading_reads : (more : Bool) → says_read (reading more id) ≡ true
  reading_reads false = reads_word 0xE0 (id * 2 ^ 16 + 0) (omega arith) (omega arith) (omega arith)
  reading_reads true = reads_word 0xF0 (id * 2 ^ 16 + 0) (omega arith) (omega arith) (omega arith)

  reading_gives :
      (more : Bool) (n code : ℕ) (reply rest : List ℕ)
      → chip_read (reading more id) n (answering code reply rest)
        ≡ (take n (source more reply rest), answering code reply (drop n (source more reply rest)))
  unfolding chip_read
  reading_gives false n code reply rest =
      let (content, first) = reply_data (id * 2 ^ 16 + 0) (omega arith) in rw (content, first) refl
  reading_gives true n code reply rest =
      let (content, more) = more_data (id * 2 ^ 16 + 0) (omega arith) in rw (content, more) refl

module _ {W : Type 0} (platform : Platform W) (ctx : TransportContext W) where
  -- A round of the loop whose read succeeds.
  receive_round :
      (command : ℕ) (buf chunk : List ℕ) (left got crc : ℕ)
      (smaller : (y : ℕ) → y < left → Acc ◌<◌ y) (more : 0 < left) (r : Received) (w w₁ w' : W)
      → let gimme = min left max_device_transfer in
        nos_device_read platform ctx.dev command (take gimme buf) w ≡ ((pos 0, chunk), w₁)
        → receive_loop platform ctx
            (bit_or command cmd_more_to_come)
            (drop gimme buf)
            (left - gimme)
            (smaller (left - gimme) (gimme-lt left more))
            ((got + gimme) % 2 ^ 16)
            (crc16_update chunk crc)
            w₁
          ≡ (r, w')
        → receive_loop platform ctx command buf left (Acc.intro left smaller) got crc w
          ≡ (record r { bytes = chunk ++ r.bytes }, w')
  unfolding receive_loop
  receive_round command buf chunk left got crc smaller more r w w₁ w' read later =
      rw (dif_pos (dec_lt 0 left) le_prop more, read, later) refl

  receive_none :
      (command : ℕ) (buf : List ℕ) (left got crc : ℕ) (acc : Acc ◌<◌ left) (w : W)
      → left ≡ 0
      → receive_loop platform ctx command buf left acc got crc w
        ≡ (record { res = app_success; crc = crc; got = got; bytes = buf }, w)
  unfolding receive_loop
  receive_none command buf left got crc (Acc.intro _ smaller) w none_left =
      rw (dif_neg (dec_lt 0 left) (λ more. absurd (omega arith))) refl

-- What the loop leaves when it has got all of `from`.
abbrev got_all : ℕ → ℕ → List ℕ → List ℕ → Received
got_all got crc from buf = record {
  res = app_success;
  crc = crc16_update from crc;
  got = got + length from;
  bytes = from ++ drop (length from) buf;
}

got_all-step :
    (gimme got crc : ℕ) (from buf : List ℕ)
    → gimme ≤ length from
    → got + length from < 2 ^ 16
    → let later =
        got_all
          ((got + gimme) % 2 ^ 16)
          (crc16_update (take gimme from) crc)
          (drop gimme from)
          (drop gimme buf) in
      record later { bytes = take gimme from ++ later.bytes } ≡ got_all got crc from buf
got_all-step gimme got crc from buf h hg =
    let size : length (take gimme from) ≡ gimme = omega (arith, length-take gimme from) in
    let rest : length (drop gimme from) ≡ length from - gimme =
      omega (arith, length-drop gimme from) in
    let there : gimme + length (drop gimme from) ≡ length from = omega arith in
    let summed : crc16_update (drop gimme from) (crc16_update (take gimme from) crc)
        ≡ crc16_update from crc =
      sym (crc16_update-append (take gimme from) (drop gimme from) crc)
      ∙ ap (λ t. crc16_update t crc) (take-append-drop gimme from) in
    let counted : (got + gimme) % 2 ^ 16 + length (drop gimme from) ≡ got + length from =
      omega arith in
    let bytes : take gimme from
          ++ (drop gimme from ++ drop (length (drop gimme from)) (drop gimme buf))
        ≡ from ++ drop (length from) buf =
      sym (
        append_assoc (take gimme from) (drop gimme from)
          (drop (length (drop gimme from)) (drop gimme buf)))
      ∙ ap₂ (λ a b. a ++ b) (take-append-drop gimme from)
          (drop-drop (length (drop gimme from)) gimme buf ∙ ap (λ k. drop k buf) there) in
    ap
      (λ c. record {
        res = app_success;
        crc = c;
        got = (got + gimme) % 2 ^ 16 + length (drop gimme from);
        bytes =
            take gimme from
            ++ (drop gimme from ++ drop (length (drop gimme from)) (drop gimme buf));
      })
      summed
    ∙ ap₂ (λ g b. record { res = app_success; crc = crc16_update from crc; got = g; bytes = b })
        counted bytes

got_all-none :
    (got crc : ℕ) (from buf : List ℕ)
    → length from ≡ 0
    → record { res = app_success; crc = crc; got = got; bytes = buf } ≡ got_all got crc from buf
unfolding crc16_update
got_all-none got crc [] buf h =
    let same : got ≡ got + 0 = omega arith in
    ap (λ g. record { res = app_success; crc = crc; got = g; bytes = buf }) same
got_all-none got crc (b ∷ from) buf h = absurd (omega arith)

module _ {W S : Type 0} (platform : Platform W) (ctx : TransportContext W) (app : App S) (pace : ℕ)
    (chip : IsChip platform ctx.dev ctx.app_id app pace) (code : ℕ) (reply : List ℕ)
    (kept : S) where
  open chip use {view, awake, narrow, read_gives, read_leaves}

  -- One datagram of a reply that has as much left.
  read_piece :
      (more : Bool) (rest buf : List ℕ) (w : W)
      → view w ≡ chip_in (answering code reply rest) kept
      → length buf ≤ length (source more reply rest)
      → length buf ≤ max_device_transfer
      → (w' : W) × (nos_device_read platform ctx.dev (reading more ctx.app_id) buf w
          ≡ ((pos 0, take (length buf) (source more reply rest)), w'))
        × (view w'
            ≡ chip_in (answering code reply (drop (length buf) (source more reply rest))) kept)
  read_piece more rest buf w e enough one =
      let command = reading more ctx.app_id in
      let n = length buf in
      let from = source more reply rest in
      let w' = (ctx.dev.read command buf w).1 in
      let gives : chip_read command n (view w).phase
          ≡ (take n from, answering code reply (drop n from)) =
        ap (λ c. chip_read command n c.phase) e
        ∙ reading_gives ctx.app_id narrow more n code reply rest in
      let fetch : IsReadOf ctx.app_id command buf (view w).phase = record {
        here = reading_addressed ctx.app_id narrow more;
        reads = reading_reads ctx.app_id narrow more;
        carried = one;
        given = ap (λ t. length t.0) gives ∙ omega (arith, length-take n from);
      } in
      (
        w',
        nos_device_read_first platform ctx.dev command buf (take n from) w w' awake (
            ap₂ (λ a b. (a, b)) (read_gives command buf w fetch ∙ ap (λ t. (pos 0, t.0)) gives)
              refl),
        read_leaves command buf w fetch
            ∙ ap (λ t. chip_in t.1 (view w).kept) gives
            ∙ ap (λ c. chip_in (answering code reply (drop n from)) c.kept) e,
      )

  receive_loop-chip :
      (more : Bool) (rest buf : List ℕ) (left got crc : ℕ) (acc : Acc ◌<◌ left) (w : W)
      → view w ≡ chip_in (answering code reply rest) kept
      → left ≡ length (source more reply rest)
      → left ≤ length buf
      → got + left < 2 ^ 16
      → (w' : W) × (rest' : List ℕ) × (receive_loop platform ctx
            (reading more ctx.app_id)
            buf
            left
            acc
            got
            crc
            w
          ≡ (got_all got crc (source more reply rest) buf, w'))
        × (view w' ≡ chip_in (answering code reply rest') kept)
  receive_loop-chip more rest buf left got crc (Acc.intro _ smaller) w e same fits hg =
      elim (dec_lt 0 left) [
        | no done ↦ (
          w,
          rest,
          receive_none platform ctx (reading more ctx.app_id) buf left got crc
                (Acc.intro left smaller) w (omega arith)
              ∙ ap (λ r. (r, w)) (got_all-none got crc (source more reply rest) buf (omega arith)),
          e,
        )
        | yes some_left ↦
            let from : List ℕ = source more reply rest in
            let gimme = min left max_device_transfer in
            let size : length (take gimme buf) ≡ gimme = omega (arith, length-take gimme buf) in
            let (w₁, read, left_view) =
              read_piece more rest (take gimme buf) w e (omega arith) (omega arith) in
            let (w', rest', later, last) =
              receive_loop-chip true (drop gimme from) (drop gimme buf) (left - gimme)
                ((got + gimme) % 2 ^ 16) (crc16_update (take gimme from) crc)
                (smaller (left - gimme) (gimme-lt left some_left)) w₁
                (left_view ∙ ap (λ k. chip_in (answering code reply (drop k from)) kept) size)
                (omega (arith, length-drop gimme from)) (omega (arith, length-drop gimme buf))
                (omega arith) in
            (
              w',
              rest',
              receive_round platform ctx (reading more ctx.app_id) buf (take gimme from) left got
                    crc smaller some_left _ w w₁ w'
                    (read ∙ ap (λ k. ((pos 0, take k from), w₁)) size)
                    (ap
                        (λ c.
                          receive_loop platform ctx c (drop gimme buf) (left - gimme)
                            (smaller (left - gimme) (gimme-lt left some_left))
                            ((got + gimme) % 2 ^ 16) (crc16_update (take gimme from) crc) w₁)
                        (reading-more ctx.app_id narrow more)
                      ∙ later)
                  ∙ ap (λ r. (r, w'))
                      (got_all-step gimme got crc from buf (omega arith) (omega arith)),
              last,
            )
      ]

  -- A reply of any length that the caller has room for is received whole, with the right checksum.
  pub receive_reply-chip :
      (status : TransportStatus) (len : ℕ) (buf rest : List ℕ) (w : W)
      → view w ≡ chip_in (answering code reply rest) kept
      → status.reply_len ≡ length reply
      → status.reply_crc ≡ crc16 reply
      → length reply < 2 ^ 16
      → length reply ≤ len
      → len ≤ length buf
      → (w' : W) × (rest' : List ℕ) × (receive_reply platform ctx status len buf w
          ≡ (record { res = app_success; reply_len = length reply; bytes = stored reply buf }, w'))
        × (view w' ≡ chip_in (answering code reply rest') kept)
  unfolding receive_reply receive_tries crc16
  receive_reply-chip status len buf rest w e same sum small fits room =
      let left = min len status.reply_len % 2 ^ 16 in
      let (w', rest', read, last) =
        receive_loop-chip false rest buf left 0 0 (lt_wf.apply left) w e (omega arith) (omega arith)
          (omega arith) in
      let counted : 0 + length reply ≡ length reply = omega arith in
      let right : (status.version == transport_v0 || crc16_update reply 0 == status.reply_crc)
          ≡ true =
        ground (arith, sum) in
      (
        w',
        rest',
        rw (reply_word ctx.app_id narrow, read, right)
            (ap (λ g. (record { res = app_success; reply_len = g; bytes = stored reply buf }, w'))
              counted),
        last,
      )
