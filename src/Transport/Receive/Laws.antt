-- ===== src/Transport/Receive/Laws.antt =====
-- What `receive_reply` does to the caller's memory, and when it succeeds.
use platform_external_nos_ho.Base.{
  ℕ, zero, suc, ◌%◌, ◌^◌, ◌≤◌, ◌≡◌, ◌≢◌, ◌⊎◌, refl, ap, ◌∙◌, sym, List, min, take, drop, length,
  drop_later, arith, Bool-cases, inl, inr, lt_wf, ◌==◌, ==_iff, ◌||◌, true,
}
use platform_external_nos_ho.Crc16.{crc16}
use platform_external_nos_ho.Application.AppStatus.{app_success, app_error_io}
use platform_external_nos_ho.Application.Status.{TransportStatus, transport_v0}
use platform_external_nos_ho.Device.{Platform}
use platform_external_nos_ho.Transport.Context.{TransportContext, crc_retry_count}
use platform_external_nos_ho.Transport.Retry.Laws.{IsDevice}
use platform_external_nos_ho.Transport.Receive.{
  Received, ReplyResult, receive_loop, reply_command, receive_tries, receive_reply,
}
use platform_external_nos_ho.Transport.Receive.Loop.{IsRead, receive_loop-IsRead}

-- What `receive_reply` promises of a buffer and a length.
pub record IsReceived (status : TransportStatus) (reply_len : ℕ) (buf : List ℕ) (r : ReplyResult)
    : Type 0 where
  pub same_length : length r.bytes ≡ length buf
  pub shorter : r.reply_len ≤ reply_len
  pub beyond : drop reply_len r.bytes ≡ drop reply_len buf
  pub length_got : r.res ≡ app_success → r.reply_len ≡ min reply_len status.reply_len % 2 ^ 16
  pub checked :
      r.res ≡ app_success
      → (status.version ≡ transport_v0) ⊎ (crc16 (take r.reply_len r.bytes) ≡ status.reply_crc)
  pub failed : r.res ≢ app_success → r.res ≡ app_error_io

-- One try over a whole buffer, of which the loop has left `r`.
module _ (status : TransportStatus) (reply_len : ℕ) (buf : List ℕ) (r : Received)
    (fits : reply_len ≤ length buf)
    (read : IsRead buf (min reply_len status.reply_len % 2 ^ 16) 0 0 r) where
  asked : ℕ
  asked = min reply_len status.reply_len % 2 ^ 16

  asked-le : asked ≤ reply_len
  unfolding asked
  asked-le = omega arith

  beyond_all : drop reply_len r.bytes ≡ drop reply_len buf
  unfolding asked
  beyond_all = drop_later asked reply_len r.bytes buf asked-le read.beyond

  IsReceived-failed :
      IsReceived status reply_len buf
        (record { res = app_error_io; reply_len = reply_len; bytes = r.bytes })
  IsReceived-failed = record {
    same_length = read.same_length;
    shorter = omega arith;
    beyond = beyond_all;
    length_got = λ h. absurd (omega arith);
    checked = λ h. absurd (omega arith);
    failed = λ h. refl;
  }

  module _ (success : r.res ≡ app_success) where
    got-asked : r.got ≡ asked
    unfolding asked
    got-asked = omega (arith, read.counted success)

    IsReceived-done :
        (status.version == transport_v0 || r.crc == status.reply_crc) ≡ true
        → IsReceived status reply_len buf
            (record { res = app_success; reply_len = r.got; bytes = r.bytes })
    unfolding crc16
    IsReceived-done h = record {
      same_length = read.same_length;
      shorter = omega (arith, got-asked, asked-le);
      beyond = beyond_all;
      length_got = λ _. unfold asked in got-asked;
      checked = λ _. ground (arith, h, sum);
      failed = λ n. absurd (n refl);
    }
      where
        sum : crc16 (take r.got r.bytes) ≡ r.crc
        sum = ap (λ k. crc16 (take k r.bytes)) got-asked ∙ unfold asked in sym (read.summed success)

    IsReceived-again :
        (r' : ReplyResult) → IsReceived status r.got r.bytes r' → IsReceived status reply_len buf r'
    IsReceived-again r' h = record {
      same_length = h.same_length ∙ read.same_length;
      shorter = omega (arith, h.shorter, got-asked, asked-le);
      beyond =
          drop_later r.got reply_len r'.bytes r.bytes (omega (arith, got-asked, asked-le)) h.beyond
          ∙ beyond_all;
      length_got = λ e. unfold asked in omega (arith, h.length_got e, got-asked);
      checked = h.checked;
      failed = h.failed;
    }

module _ {W : Type 0} (platform : Platform W) (ctx : TransportContext W)
    (ok : IsDevice ctx.dev) where
  receive_tries-IsReceived :
      (retries : ℕ) (status : TransportStatus) (reply_len : ℕ) (buf : List ℕ) (w : W)
      → reply_len ≤ length buf
      → IsReceived status reply_len buf
          (receive_tries platform ctx retries status reply_len buf w).0
  unfolding receive_tries
  receive_tries-IsReceived zero status reply_len buf w fits = record {
    same_length = refl;
    shorter = omega arith;
    beyond = refl;
    length_got = λ h. absurd (omega arith);
    checked = λ h. absurd (omega arith);
    failed = λ h. refl;
  }
  receive_tries-IsReceived (suc retries) status reply_len buf w fits =
      let n = min reply_len status.reply_len % 2 ^ 16 in
      let looped =
        receive_loop platform ctx (reply_command platform ctx) buf n (lt_wf.apply n) 0 0 w in
      let r = looped.0 in
      let read =
        receive_loop-IsRead platform ctx ok (reply_command platform ctx) buf n 0 0 (lt_wf.apply n) w
          (omega arith) (omega arith) in
      elim (Bool-cases (r.res == app_success)) [
        | inr bad ↦ rw bad (IsReceived-failed status reply_len buf r fits read)
        | inl good ↦
            let success : r.res ≡ app_success = (==_iff r.res app_success).0 good in
            elim (Bool-cases (status.version == transport_v0 || r.crc == status.reply_crc)) [
              | inl done ↦
                  rw (good, done) (IsReceived-done status reply_len buf r fits read success done)
              | inr wrong ↦
                  rw (good, wrong)
                    (IsReceived-again status reply_len buf r fits read success _ (
                      receive_tries-IsReceived retries status r.got r.bytes looped.1
                        (omega (arith, read.counted success, read.same_length))))
            ]
      ]

  -- On a device that writes no more than it is asked for, and with a buffer of `*reply_len` bytes at
  -- least, `receive_reply` keeps to the first `*reply_len` bytes of the caller's buffer and does not
  -- raise `*reply_len`. If it succeeds, the length is the smaller of the caller's and the app's,
  -- modulo 2 ^ 16, and the bytes have the app's checksum, unless the app speaks v0; if not, the
  -- result is APP_ERROR_IO.
  pub receive_reply-IsReceived :
      (status : TransportStatus) (reply_len : ℕ) (buf : List ℕ) (w : W)
      → reply_len ≤ length buf
      → IsReceived status reply_len buf (receive_reply platform ctx status reply_len buf w).0
  unfolding receive_reply
  receive_reply-IsReceived status reply_len buf w fits =
      receive_tries-IsReceived crc_retry_count status reply_len buf w fits

module _ {W : Type 0} (platform : Platform W) (ctx : TransportContext W) where
  receive_tries_codes :
      (retries : ℕ) (status : TransportStatus) (reply_len : ℕ) (buf : List ℕ) (w : W)
      → let r = (receive_tries platform ctx retries status reply_len buf w).0 in
        (r.res ≡ app_success) ⊎ (r.res ≡ app_error_io)
  unfolding receive_tries
  receive_tries_codes zero status reply_len buf w = inr refl
  receive_tries_codes (suc retries) status reply_len buf w =
      let n = min reply_len status.reply_len % 2 ^ 16 in
      let looped =
        receive_loop platform ctx (reply_command platform ctx) buf n (lt_wf.apply n) 0 0 w in
      ground (arith, receive_tries_codes retries status looped.0.got looped.0.bytes looped.1)

  pub receive_reply_codes :
      (status : TransportStatus) (reply_len : ℕ) (buf : List ℕ) (w : W)
      → let r = (receive_reply platform ctx status reply_len buf w).0 in
        (r.res ≡ app_success) ⊎ (r.res ≡ app_error_io)
  unfolding receive_reply
  receive_reply_codes status reply_len buf w =
      receive_tries_codes crc_retry_count status reply_len buf w
