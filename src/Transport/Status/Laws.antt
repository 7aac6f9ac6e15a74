-- ===== src/Transport/Status/Laws.antt =====
-- What `get_status` accepts.
use platform_external_nos_ho.Base.{
  ℕ, zero, suc, ◌<◌, ◌≡◌, ◌⊎◌, sym, ◌∙◌, ap, List, pos, is_nonzero, arith, ltb, ◌==◌, ==_iff, ◌||◌,
  take, Bool-cases, inl, inr, take-all, is_nonzero-false,
}
use platform_external_nos_ho.Crc16.{crc16}
use platform_external_nos_ho.Application.Status.{
  TransportStatus, decode_status, encode_status, clear_crc, transport_v0, status_max_length,
  status_min_length,
}
use platform_external_nos_ho.Application.Status.Layout.{
  IsStatus, decode_status-encode_status, length-encode_status, clear_crc-encode_status,
}
use platform_external_nos_ho.Device.{Platform}
use platform_external_nos_ho.Transport.Context.{TransportContext, crc_retry_count}
use platform_external_nos_ho.Transport.Retry.{nos_device_read}
use platform_external_nos_ho.Transport.Retry.Laws.{nos_device_read_first}
use platform_external_nos_ho.Transport.Status.{status_command, status_tries, get_status}

module _ {W : Type 0} (platform : Platform W) (ctx : TransportContext W) where
  -- `s` was read from the device by the read that ended in `w'`: a v0 message, known by a length out
  -- of range, or a message of full length whose checksum is right.
  pub record IsGenuine (s : TransportStatus) (w' : W) : Type 0 where
    pub before : List ℕ
    pub message : List ℕ
    pub from : W
    pub answered :
        nos_device_read platform ctx.dev (status_command platform ctx) before from
        ≡ ((pos 0, message), w')
    pub status_read : s.status ≡ (decode_status message).status
    pub reply_len_read : s.reply_len ≡ (decode_status message).reply_len
    pub checked :
        ((s.version ≡ transport_v0)
          × (((decode_status message).length < 16) ⊎ (16 < (decode_status message).length)))
        ⊎ ((s ≡ decode_status message)
            × (s.length ≡ 16)
            × (s.crc ≡ crc16 (take 16 (clear_crc message))))

  status_tries-IsGenuine :
      (retries : ℕ) (st : List ℕ) (out s : TransportStatus) (w w' : W)
      → status_tries platform ctx retries st out w ≡ ((pos 0, s), w')
      → IsGenuine s w'
  unfolding status_tries
  status_tries-IsGenuine zero st out s w w' h = cc
  status_tries-IsGenuine (suc retries) st out s w w' h =
      let ((err, m), v) = nos_device_read platform ctx.dev (status_command platform ctx) st w in
      let seen = decode_status m in
      let out_of_range = ltb seen.length status_min_length || ltb status_max_length seen.length in
      elim (Bool-cases (is_nonzero err)) [
        | inl bad ↦ cc (rw bad at h)
        | inr good ↦ elim (Bool-cases out_of_range) [
          | inl v0 ↦
              let e = rw (good, v0) at h in
              record {
                before = st;
                message = m;
                from = w;
                answered = ground (arith, e, is_nonzero-false err good);
                status_read = ground (arith, e);
                reply_len_read = ground (arith, e);
                checked = inl (ground (arith, e), ground (arith, v0));
              }
          | inr v1 ↦ elim (Bool-cases (seen.crc == crc16 (take seen.length (clear_crc m)))) [
            | inl right ↦
                let e = rw (good, v1, right) at h in
                let same : s ≡ seen = ap (λ r. r.0.1) (sym e) in
                let full : seen.length ≡ 16 = ground (arith, v1) in
                record {
                  before = st;
                  message = m;
                  from = w;
                  answered = ground (arith, e, is_nonzero-false err good);
                  status_read = ground (arith, e);
                  reply_len_read = ground (arith, e);
                  checked = inr (
                    same,
                    ap (λ t. t.length) same ∙ full,
                    ap (λ t. t.crc) same
                        ∙ (==_iff seen.crc (crc16 (take seen.length (clear_crc m)))).0 right
                        ∙ ap (λ n. crc16 (take n (clear_crc m))) full,
                  );
                }
            | inr wrong ↦
                status_tries-IsGenuine retries (clear_crc m) seen s v w' (rw (good, v1, wrong) at h)
          ]
        ]
      ]

  -- A status that `get_status` returns with 0 was read from the device by its last read, and unless
  -- it was taken for a v0 message, its checksum is right.
  pub get_status-IsGenuine :
      (s : TransportStatus) (w w' : W)
      → get_status platform ctx w ≡ ((pos 0, s), w')
      → IsGenuine s w'
  unfolding get_status
  get_status-IsGenuine s w w' h = status_tries-IsGenuine crc_retry_count _ _ s w w' h

  -- For a positive EAGAIN, a status message of full length whose fields fit their widths and whose
  -- checksum is right, read by the first try, comes back field by field.
  pub get_status-encode_status :
      (s : TransportStatus) (w w' : W)
      → 0 < platform.eagain
      → IsStatus s
      → s.length ≡ 16
      → s.crc ≡ crc16 (encode_status (record s { crc = 0 }))
      → ctx.dev.read (status_command platform ctx) (platform.uninitialised status_max_length) w
        ≡ ((pos 0, encode_status s), w')
      → get_status platform ctx w ≡ ((pos 0, s), w')
  unfolding get_status
  get_status-encode_status s w w' epos fits len sum answer =
      rw
        (
          nos_device_read_first platform ctx.dev (status_command platform ctx) _ (encode_status s) w
              w' epos answer,
          decode_status-encode_status s fits,
        )
        (ground (arith, whole))
    where
      whole : crc16 (take s.length (clear_crc (encode_status s))) ≡ s.crc
      whole =
          ap (λ n. crc16 (take n (clear_crc (encode_status s)))) len
          ∙ ap (λ b. crc16 (take 16 b)) (clear_crc-encode_status s)
          ∙ ap crc16 (
              take-all 16 (encode_status (record s { crc = 0 }))
                (omega (arith, length-encode_status (record s { crc = 0 }))))
          ∙ sym sum
