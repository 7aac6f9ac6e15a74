-- ===== src/Transport/Call/Memory.antt =====
-- `nos_call_application` and the caller's memory.
use mathlib.Core.Path.{subst}
use platform_external_nos_ho.Base.{
  ℕ, ◌≤◌, ◌≡◌, refl, List, some, ◌==◌, ◌&&◌, not, arith, Bool-cases, Option-cases, inl, inr, length,
  drop,
}
use platform_external_nos_ho.Application.Status.{TransportStatus, decode_status, status_max_length}
use platform_external_nos_ho.Application.AppStatus.{app_success}
use platform_external_nos_ho.Device.{Platform}
use platform_external_nos_ho.Transport.Context.{TransportContext, Reply, crc_retry_count}
use platform_external_nos_ho.Transport.Retry.Laws.{IsDevice}
use platform_external_nos_ho.Transport.Receive.{receive_reply}
use platform_external_nos_ho.Transport.Receive.Laws.{receive_reply-IsReceived}
use platform_external_nos_ho.Transport.Call.{
  returned, ended, attempts, hide_checksum, finish, invalid_args, nos_call_application,
}

-- A caller's buffer `buf` with the length `len` after a call: the length has not grown, and the
-- memory behind it is as it was.
pub record IsSafe (buf : List ℕ) (len : ℕ) (r : Reply) : Type 0 where
  pub bytes : List ℕ
  pub got : ℕ
  pub in_buffer : r.reply ≡ some bytes
  pub in_length : r.reply_len ≡ some got
  pub shorter : got ≤ len
  pub same_length : length bytes ≡ length buf
  pub beyond : drop len bytes ≡ drop len buf

-- A caller's buffer and its length.
abbrev pub given : List ℕ → ℕ → Reply
given buf len = record { reply = some buf; reply_len = some len }

-- A call returns what it was given or what `finish` leaves.
module _ {W : Type 0} (platform : Platform W) (ctx : TransportContext W) (r : Reply)
    (P : Reply → Type 0) where
  pub call_leaves :
      (fuel code : ℕ) (r' : Reply) (w w' : W)
      → P r
      → ((code' : ℕ) (status : TransportStatus) (w₁ : W)
          → P (finish platform ctx code' status r w₁).0.1)
      → nos_call_application platform ctx fuel r w ≡ some ((code, r'), w')
      → P r'
  unfolding nos_call_application
  call_leaves fuel code r' w w' as_given finished h =
      let undefined = decode_status (platform.uninitialised status_max_length) in
      elim (Option-cases (attempts platform ctx fuel crc_retry_count r 0 undefined w)) [
        | inl stuck ↦ let same : r ≡ r' = ground arith in subst P same as_given
        | inr ((returned res, w₁), e) ↦ let same : r ≡ r' = ground arith in subst P same as_given
        | inr ((ended code' status, w₁), e) ↦ elim (Bool-cases (invalid_args ctx r)) [
          | inl invalid ↦ let same : r ≡ r' = ground arith in subst P same as_given
          | inr valid ↦
              let same : (finish platform ctx (hide_checksum code') status r w₁).0.1 ≡ r' =
                ground arith in
              subst P same (finished (hide_checksum code') status w₁)
        ]
      ]

module _ {W : Type 0} (platform : Platform W) (ctx : TransportContext W) (ok : IsDevice ctx.dev)
    (buf : List ℕ) (len : ℕ) (fits : len ≤ length buf) where
  given-IsSafe : IsSafe buf len (given buf len)
  given-IsSafe = record {
    bytes = buf;
    got = len;
    in_buffer = refl;
    in_length = refl;
    shorter = omega arith;
    same_length = refl;
    beyond = refl;
  }

  finish-IsSafe :
      (code : ℕ) (status : TransportStatus) (w : W)
      → IsSafe buf len (finish platform ctx code status (given buf len) w).0.1
  unfolding finish
  finish-IsSafe code status w =
      let r = (receive_reply platform ctx status len buf w).0 in
      let kept = receive_reply-IsReceived platform ctx ok status len buf w fits in
      let fetched : IsSafe buf len (record { reply = some r.bytes; reply_len = some r.reply_len }) =
        record {
          bytes = r.bytes;
          got = r.reply_len;
          in_buffer = refl;
          in_length = refl;
          shorter = kept.shorter;
          same_length = kept.same_length;
          beyond = kept.beyond;
        } in
      elim (Bool-cases (not (len == 0) && not (status.reply_len == 0))) [
        | inl fetches ↦ rw fetches (elim (Bool-cases (r.res == app_success)) [
          | inl good ↦ rw good fetched
          | inr bad ↦ rw bad fetched
        ])
        | inr other ↦ rw other (record {
          bytes = buf;
          got = 0;
          in_buffer = refl;
          in_length = refl;
          shorter = omega arith;
          same_length = refl;
          beyond = refl;
        })
      ]

  -- On every device that writes no more than it is asked for, and with a buffer of `*reply_len` bytes
  -- at least, a call keeps to the first
  -- `*reply_len` bytes of the caller's buffer and does not raise `*reply_len`, however it ends.
  pub nos_call_application-IsSafe :
      (fuel code : ℕ) (r' : Reply) (w w' : W)
      → nos_call_application platform ctx fuel (given buf len) w ≡ some ((code, r'), w')
      → IsSafe buf len r'
  nos_call_application-IsSafe fuel code r' w w' h =
      call_leaves platform ctx (given buf len) (IsSafe buf len) fuel code r' w w' given-IsSafe
        finish-IsSafe h
