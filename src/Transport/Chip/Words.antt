-- ===== src/Transport/Chip/Words.antt =====
-- The command words of transport.c, by their flag byte and their low bits.
use platform_external_nos_ho.Base.{
  ℕ, ◌+◌, ◌*◌, ◌^◌, ◌%◌, ◌<◌, ◌≤◌, ◌≡◌, ap, ap₂, ◌∙◌, bit_or, arith, true, false,
}
use platform_external_nos_ho.Application.Command.{
  cmd_id, cmd_param, cmd_is_read, cmd_is_data, cmd_transport, cmd_more_to_come,
}
use platform_external_nos_ho.Application.Command.Fields.{
  cmd_id_lem, cmd_param_lem, bit_or-flags, bit_or-param,
}
use platform_external_nos_ho.Transport.Chip.{
  says_read, says_transport, says_data, says_more, addressee,
}

-- A command word with these flags for an app.
abbrev pub word : ℕ → ℕ → ℕ
word flags id = flags * 2 ^ 24 + (id * 2 ^ 16 + 0)

module _ (id : ℕ) (narrow : id < 256) where
  app_word : cmd_id id ≡ word 0 id
  app_word = cmd_id_lem id ∙ omega arith

  joined : (f g : ℕ) → bit_or (word f id) (g * 2 ^ 24) ≡ word (bit_or f g) id
  joined f g = bit_or-flags f g (id * 2 ^ 16 + 0) (omega arith)

  pub status_word : bit_or (bit_or (cmd_id id) cmd_is_read) cmd_transport ≡ word 0xC0 id
  status_word =
      ap (λ t. bit_or (bit_or t cmd_is_read) cmd_transport) app_word
      ∙ ap (λ t. bit_or t cmd_transport) (joined 0 0x80)
      ∙ joined 0x80 0x40

  pub clear_word : bit_or (cmd_id id) cmd_transport ≡ word 0x40 id
  clear_word = ap (λ t. bit_or t cmd_transport) app_word ∙ joined 0 0x40

  pub reply_word :
      bit_or (bit_or (bit_or (cmd_id id) cmd_is_read) cmd_transport) cmd_is_data ≡ word 0xE0 id
  reply_word = ap (λ t. bit_or t cmd_is_data) status_word ∙ joined 0xC0 0x20

  pub more_word : bit_or (word 0xE0 id) cmd_more_to_come ≡ word 0xF0 id
  more_word = joined 0xE0 0x10

  pub again_word : bit_or (word 0xF0 id) cmd_more_to_come ≡ word 0xF0 id
  again_word = joined 0xF0 0x10

  pub go_word : (params : ℕ) → bit_or (cmd_id id) (cmd_param params) ≡ id * 2 ^ 16 + params % 2 ^ 16
  go_word params =
      ap₂ bit_or (cmd_id_lem id) (cmd_param_lem params)
      ∙ bit_or-param (id % 256) (params % 2 ^ 16) (omega arith)
      ∙ omega arith

-- What the words say. Below the flags of a datagram stand the app and a length.
module _ (low : ℕ) (below : low < 2 ^ 24) where
  pub status_no_data : says_data (0xC0 * 2 ^ 24 + low) ≡ false
  status_no_data = ground arith

  pub clear_no_data : says_data (0x40 * 2 ^ 24 + low) ≡ false
  clear_no_data = ground arith

  pub reply_data :
      (says_data (0xE0 * 2 ^ 24 + low) ≡ true) × (says_more (0xE0 * 2 ^ 24 + low) ≡ false)
  reply_data = (ground arith, ground arith)

  pub more_data :
      (says_data (0xF0 * 2 ^ 24 + low) ≡ true) × (says_more (0xF0 * 2 ^ 24 + low) ≡ true)
  more_data = (ground arith, ground arith)

  pub clear_message : says_transport (0x40 * 2 ^ 24 + low) ≡ true
  clear_message = ground arith

  pub first_message :
      (says_transport (0x60 * 2 ^ 24 + low) ≡ true)
      × (says_data (0x60 * 2 ^ 24 + low) ≡ true)
      × (says_more (0x60 * 2 ^ 24 + low) ≡ false)
  first_message = (ground arith, ground arith, ground arith)

  pub next_message :
      (says_transport (0x70 * 2 ^ 24 + low) ≡ true)
      × (says_data (0x70 * 2 ^ 24 + low) ≡ true)
      × (says_more (0x70 * 2 ^ 24 + low) ≡ true)
  next_message = (ground arith, ground arith, ground arith)

  pub go_no_message : says_transport low ≡ false
  go_no_message = ground arith

-- The words of reads, and those of writes.
pub reads_word :
    (flags low : ℕ)
    → 128 ≤ flags
    → flags < 256
    → low < 2 ^ 24
    → says_read (flags * 2 ^ 24 + low) ≡ true
reads_word flags low h hf hl = ground arith

pub writes_word :
    (flags low : ℕ) → flags < 128 → low < 2 ^ 24 → says_read (flags * 2 ^ 24 + low) ≡ false
writes_word flags low h hl = ground arith

pub addressee_word :
    (flags id low : ℕ)
    → id < 256
    → low < 2 ^ 16
    → addressee (flags * 2 ^ 24 + (id * 2 ^ 16 + low)) ≡ id
addressee_word flags id low h hl = omega arith
