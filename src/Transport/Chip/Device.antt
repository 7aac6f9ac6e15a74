-- ===== src/Transport/Chip/Device.antt =====
-- A device behind which an app keeps to the protocol.
use platform_external_nos_ho.Base.{
  ℕ, ◌+◌, ◌*◌, ◌^◌, ◌≤◌, ◌<◌, ◌≡◌, refl, ap, sym, true, false, ap₂, ◌∙◌, List, ◌++◌, some, pos,
  arith, length, drop, take-all, drop-all,
}
use platform_external_nos_ho.Application.Status.{encode_status, status_max_length}
use platform_external_nos_ho.Application.Status.Layout.{length-encode_status}
use mathlib.Core.List.{append-nil}
use platform_external_nos_ho.Crc16.{crc16}
use platform_external_nos_ho.Device.{NosDevice, Platform, Timespec, max_device_transfer}
use platform_external_nos_ho.Crc16.Update.{crc16_update-lt}
use platform_external_nos_ho.Transport.Context.{TransportContext}
use platform_external_nos_ho.Transport.Retry.Time.{nanoseconds}
use platform_external_nos_ho.Transport.Status.{status_command, get_status}
use platform_external_nos_ho.Transport.Call.Steps.{IsSigned, signed-get_status}
use platform_external_nos_ho.Transport.Chip.{
  App, chip_in, Phase, waiting, working, answering, Chip, addressee, says_read, signed, status_of,
  looked_at, chip_read, chip_write, message,
}
use platform_external_nos_ho.Transport.Chip.Words.{
  status_word, status_no_data, addressee_word, reads_word,
}

-- The bytes that a call gets lie at the front of the caller's buffer.
abbrev pub stored : List ℕ → List ℕ → List ℕ
stored bytes buf = bytes ++ drop (length bytes) buf

pub stored_whole : (bytes buf : List ℕ) → length bytes ≡ length buf → stored bytes buf ≡ bytes
stored_whole bytes buf h =
    ap (λ t. bytes ++ t) (drop-all (length bytes) buf (omega arith)) ∙ append-nil bytes

-- A read of an app that has as many bytes to give as the buffer, which a datagram can carry, takes.
pub record IsReadOf (id command : ℕ) (buf : List ℕ) (phase : Phase) : Type 0 where
  pub here : addressee command ≡ id
  pub reads : says_read command ≡ true
  pub carried : length buf ≤ max_device_transfer
  pub given : length (chip_read command (length buf) phase).0 ≡ length buf

-- A write to an app that a datagram can carry.
pub record IsWriteTo (id command : ℕ) (bytes : List ℕ) : Type 0 where
  pub here : addressee command ≡ id
  pub writes : says_read command ≡ false
  pub carried : length bytes ≤ max_device_transfer

-- The state of the world shows the chip and the time. Datagrams of the app succeed and do what they
-- do to the chip, and the clock shows the time. Neither a read nor a look at the clock takes longer
-- than `pace` nanoseconds.
pub record IsChip {W S : Type 0} (platform : Platform W) (dev : NosDevice W) (id : ℕ) (app : App S)
    (pace : ℕ) : Type 0 where
  pub view : W → Chip S
  pub time : W → Timespec
  pub awake : 0 < platform.eagain
  pub narrow : id < 256
  pub space : (n : ℕ) → length (platform.uninitialised n) ≡ n
  pub read_gives :
      (command : ℕ) (buf : List ℕ) (w : W)
      → IsReadOf id command buf (view w).phase
      → (dev.read command buf w).0 ≡ (pos 0, (chip_read command (length buf) (view w).phase).0)
  pub read_leaves :
      (command : ℕ) (buf : List ℕ) (w : W)
      → IsReadOf id command buf (view w).phase
      → view (dev.read command buf w).1
        ≡ chip_in (chip_read command (length buf) (view w).phase).1 (view w).kept
  pub write_succeeds :
      (command : ℕ) (bytes : List ℕ) (w : W)
      → IsWriteTo id command bytes
      → (dev.write command bytes w).0 ≡ pos 0
  pub write_leaves :
      (command : ℕ) (bytes : List ℕ) (w : W)
      → IsWriteTo id command bytes
      → view (dev.write command bytes w).1 ≡ chip_write app command bytes (view w)
  pub clock_shows : (w : W) → (platform.clock_gettime w).0 ≡ some (time w)
  pub clock_leaves : (w : W) → view (platform.clock_gettime w).1 ≡ view w
  pub below_second : (w : W) → (time w).tv_nsec < 10 ^ 9
  pub clock_pace :
      (w : W) → nanoseconds (time (platform.clock_gettime w).1) ≤ nanoseconds (time w) + pace
  pub read_pace :
      (command : ℕ) (buf : List ℕ) (w : W)
      → IsReadOf id command buf (view w).phase
      → nanoseconds (time (dev.read command buf w).1) ≤ nanoseconds (time w) + pace

-- A code of 31 bits, and a reply whose length has 16.
abbrev pub Fits : ℕ → List ℕ → Type 0
Fits code reply = (code < 2 ^ 31) × (length reply < 2 ^ 16)

abbrev pub PhaseFits : Phase → Type 0
PhaseFits (waiting request) = Unit {0}
PhaseFits (working looks code reply) = Fits code reply
PhaseFits (answering code reply rest) = Fits code reply

signed-IsSigned :
    (status reply_len flags reply_crc : ℕ)
    → status < 2 ^ 32
    → reply_len < 2 ^ 16
    → flags < 2 ^ 16
    → reply_crc < 2 ^ 16
    → IsSigned (signed (message status reply_len flags reply_crc))
unfolding signed crc16
signed-IsSigned status reply_len flags reply_crc hs hl hf hr = record {
  fits = record {
    status_fits = hs;
    reply_len_fits = hl;
    length_fits = omega arith;
    version_fits = omega arith;
    flags_fit = hf;
    crc_fits =
        crc16_update-lt (encode_status (message status reply_len flags reply_crc)) 0 (omega arith);
    reply_crc_fits = hr;
  };
  full = refl;
  sum = refl;
}

pub status_of-IsSigned : (phase : Phase) → PhaseFits phase → IsSigned (status_of phase)
unfolding status_of
status_of-IsSigned (waiting request) h =
    signed-IsSigned 0 0 0 0 (omega arith) (omega arith) (omega arith) (omega arith)
status_of-IsSigned (working looks code reply) h =
    signed-IsSigned 0 0 1 0 (omega arith) (omega arith) (omega arith) (omega arith)
status_of-IsSigned (answering code reply rest) (hc, hl) =
    signed-IsSigned (2 ^ 31 + code) (length reply) 0 (crc16 reply) (omega arith) hl (omega arith)
      (unfold crc16 in crc16_update-lt reply 0 (omega arith))

-- The world after the one read of a look at the status.
unfoldable pub seen : {W : Type 0} → Platform W → TransportContext W → W → W
seen platform ctx w =
    (ctx.dev.read (status_command platform ctx) (platform.uninitialised status_max_length) w).1

module _ {W S : Type 0} (platform : Platform W) (ctx : TransportContext W) (app : App S) (pace : ℕ)
    (chip : IsChip platform ctx.dev ctx.app_id app pace) where
  open chip use {view, time, awake, narrow, space, read_gives, read_leaves, read_pace}

  status_bytes :
      (phase : Phase)
      → chip_read
          (status_command platform ctx)
          (length (platform.uninitialised status_max_length))
          phase
        ≡ (encode_status (status_of phase), looked_at phase)
  unfolding chip_read
  status_bytes phase =
      rw
        (
          status_word ctx.app_id narrow,
          space status_max_length,
          status_no_data (ctx.app_id * 2 ^ 16 + 0) (omega arith),
        )
        (ap (λ t. (t, looked_at phase))
          (take-all 16 (encode_status (status_of phase))
            (omega (arith, length-encode_status (status_of phase)))))

  status_read :
      (w : W)
      → IsReadOf ctx.app_id
          (status_command platform ctx)
          (platform.uninitialised status_max_length)
          (view w).phase
  status_read w =
      let size : length (platform.uninitialised status_max_length) ≡ 16 = space status_max_length in
      record {
        here =
            ap addressee (status_word ctx.app_id narrow)
            ∙ addressee_word 0xC0 ctx.app_id 0 narrow (omega arith);
        reads =
            ap says_read (status_word ctx.app_id narrow)
            ∙ reads_word 0xC0 (ctx.app_id * 2 ^ 16 + 0) (omega arith) (omega arith) (omega arith);
        carried = omega arith;
        given =
            ap (λ t. length t.0) (status_bytes (view w).phase)
            ∙ length-encode_status (status_of (view w).phase)
            ∙ sym size;
      }

  -- `get_status` gets the chip's status, and has the chip looked at once.
  pub get_status-chip :
      (w : W) (phase : Phase) (kept : S)
      → view w ≡ chip_in phase kept
      → PhaseFits phase
      → get_status platform ctx w ≡ ((pos 0, status_of phase), seen platform ctx w)
  unfolding seen
  get_status-chip w phase kept e fits =
      let s = status_of phase in
      let buf = platform.uninitialised status_max_length in
      let read : ctx.dev.read (status_command platform ctx) buf w
          ≡ ((pos 0, encode_status s), seen platform ctx w) =
        ap₂ (λ a b. (a, b))
          (read_gives (status_command platform ctx) buf w (status_read w)
            ∙ ap (λ t. (pos 0, t.0)) (status_bytes (view w).phase)
            ∙ ap (λ c. (pos 0, encode_status (status_of c.phase))) e)
          refl in
      signed-get_status platform ctx awake s w (seen platform ctx w) (status_of-IsSigned phase fits)
        read

  pub view-seen :
      (w : W) (phase : Phase) (kept : S)
      → view w ≡ chip_in phase kept
      → view (seen platform ctx w) ≡ chip_in (looked_at phase) kept
  unfolding seen
  view-seen w phase kept e =
      read_leaves (status_command platform ctx) (platform.uninitialised status_max_length) w
        (status_read w)
      ∙ ap (λ t. chip_in t.1 (view w).kept) (status_bytes (view w).phase)
      ∙ ap (λ c. chip_in (looked_at c.phase) c.kept) e

  pub time-seen : (w : W) → nanoseconds (time (seen platform ctx w)) ≤ nanoseconds (time w) + pace
  unfolding seen
  time-seen w =
      read_pace (status_command platform ctx) (platform.uninitialised status_max_length) w
        (status_read w)
