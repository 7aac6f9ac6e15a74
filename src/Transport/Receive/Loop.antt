-- ===== src/Transport/Receive/Loop.antt =====
-- The loop of `receive_reply` over the datagrams of a reply.
use platform_external_nos_ho.Base.{
  ℕ, ◌+◌, ◌-◌, ◌%◌, ◌^◌, ◌≤◌, ◌<◌, ◌≡◌, refl, ap, ◌∙◌, sym, List, ◌++◌, min, take, drop, length,
  length-append, length-take, length-drop, take-append, drop-append, drop-drop, arith, is_nonzero,
  Bool-cases, inl, inr, Acc, dec_lt, bit_or,
}
use mathlib.Core.Logic.{dif_pos, dif_neg}
use native.Mathlib.Bridge.{le_prop}
use platform_external_nos_ho.Crc16.{crc16_update}
use platform_external_nos_ho.Crc16.Update.{crc16_update-append}
use platform_external_nos_ho.Application.AppStatus.{app_success, app_error_io}
use platform_external_nos_ho.Application.Command.{cmd_more_to_come}
use platform_external_nos_ho.Device.{Platform, max_device_transfer}
use platform_external_nos_ho.Transport.Context.{TransportContext}
use platform_external_nos_ho.Transport.Retry.{nos_device_read}
use platform_external_nos_ho.Transport.Retry.Laws.{IsDevice, nos_device_read-length}
use platform_external_nos_ho.Transport.Receive.{Received, receive_loop, gimme-lt}

-- The loop over `left` bytes changes no byte behind them, and if it succeeds it has counted and
-- summed them.
pub record IsRead (buf : List ℕ) (left got crc : ℕ) (r : Received) : Type 0 where
  pub same_length : length r.bytes ≡ length buf
  pub beyond : drop left r.bytes ≡ drop left buf
  pub counted : r.res ≡ app_success → r.got ≡ (got + left) % 2 ^ 16
  pub summed : r.res ≡ app_success → r.crc ≡ crc16_update (take left r.bytes) crc

-- A round that reads `chunk` into the front of `buf`.
module _ (buf chunk : List ℕ) (left gimme : ℕ) (size : length chunk ≡ gimme) (within : gimme ≤ left)
    (fits : left ≤ length buf) where
  length-stored : length (chunk ++ drop gimme buf) ≡ length buf
  length-stored = omega (arith, length-append chunk (drop gimme buf), length-drop gimme buf)

  beyond-stored : drop left (chunk ++ drop gimme buf) ≡ drop left buf
  beyond-stored =
      let there : gimme + (left - length chunk) ≡ left = omega arith in
      drop-append left chunk (drop gimme buf) (omega arith)
      ∙ drop-drop (left - length chunk) gimme buf
      ∙ ap (λ k. drop k buf) there

  IsRead-error :
      (got crc : ℕ)
      → IsRead buf left got crc
          (record { res = app_error_io; crc = crc; got = got; bytes = chunk ++ drop gimme buf })
  IsRead-error got crc = record {
    same_length = length-stored;
    beyond = beyond-stored;
    counted = λ h. absurd (omega arith);
    summed = λ h. absurd (omega arith);
  }

  IsRead-more :
      (got crc : ℕ) (r : Received)
      → IsRead (drop gimme buf) (left - gimme) ((got + gimme) % 2 ^ 16) (crc16_update chunk crc) r
      → IsRead buf left got crc (record r { bytes = chunk ++ r.bytes })
  IsRead-more got crc r h =
      let rest : left - length chunk ≡ left - gimme = omega arith in
      let there : gimme + (left - gimme) ≡ left = omega arith in
      record {
        same_length =
            omega (arith, h.same_length, length-append chunk r.bytes, length-drop gimme buf);
        beyond =
            drop-append left chunk r.bytes (omega arith)
            ∙ ap (λ k. drop k r.bytes) rest
            ∙ h.beyond
            ∙ drop-drop (left - gimme) gimme buf
            ∙ ap (λ k. drop k buf) there;
        counted = λ success. omega (arith, h.counted success);
        summed = λ success.
            h.summed success
            ∙ sym (crc16_update-append chunk (take (left - gimme) r.bytes) crc)
            ∙ ap (λ t. crc16_update t crc)
                (ap (λ k. chunk ++ take k r.bytes) (sym rest)
                  ∙ sym (take-append left chunk r.bytes (omega arith)));
      }

module _ {W : Type 0} (platform : Platform W) (ctx : TransportContext W)
    (ok : IsDevice ctx.dev) where
  pub receive_loop-IsRead :
      (command : ℕ) (buf : List ℕ) (left got crc : ℕ) (acc : Acc ◌<◌ left) (w : W)
      → left ≤ length buf
      → got < 2 ^ 16
      → IsRead buf left got crc (receive_loop platform ctx command buf left acc got crc w).0
  unfolding receive_loop crc16_update
  receive_loop-IsRead command buf left got crc (Acc.intro _ smaller) w fits hg =
      elim (dec_lt 0 left) [
        | no done ↦
            let none_left : left ≡ 0 = omega arith in
            rw (dif_neg (dec_lt 0 left) done) (record {
              same_length = refl;
              beyond = refl;
              counted = λ h. omega arith;
              summed = λ h. ap (λ k. crc16_update (take k buf) crc) (sym none_left);
            })
        | yes more ↦
            let gimme = min left max_device_transfer in
            let answer = nos_device_read platform ctx.dev command (take gimme buf) w in
            let chunk = answer.0.1 in
            let size : length chunk ≡ gimme = omega (
              arith,
              nos_device_read-length platform ctx.dev command ok (take gimme buf) w,
              length-take gimme buf,
            ) in
            let later =
              receive_loop-IsRead (bit_or command cmd_more_to_come) (drop gimme buf) (left - gimme)
                ((got + gimme) % 2 ^ 16) (crc16_update chunk crc)
                (smaller (left - gimme) (gimme-lt left more)) answer.1
                (omega (arith, length-drop gimme buf)) (omega arith) in
            rw (dif_pos (dec_lt 0 left) le_prop more) (elim (Bool-cases (is_nonzero answer.0.0)) [
              | inl bad ↦ rw bad (IsRead-error buf chunk left gimme size (omega arith) fits got crc)
              | inr good ↦
                  rw good (IsRead-more buf chunk left gimme size (omega arith) fits got crc _ later)
            ])
      ]
