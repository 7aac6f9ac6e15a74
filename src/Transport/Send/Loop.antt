-- ===== src/Transport/Send/Loop.antt =====
-- The loop of `send_command`: a round is a datagram of the plan.
use platform_external_nos_ho.Base.{
  ℕ, zero, suc, ◌+◌, ◌*◌, ◌-◌, ◌^◌, ◌≤◌, ◌<◌, ◌≡◌, ◌⊎◌, refl, ap, ◌∙◌, sym, List, [], ◌∷◌, leb,
  is_nonzero, take, drop, length, if◌then◌else◌, arith, length-take, length-drop, take-take,
  drop-take, take-nil, drop-nil, Bool-cases, inl, inr, min, bit_or, Acc, dec_lt, dite, Option, none,
  some,
}
use mathlib.Core.Logic.{dif_pos, dif_neg}
use native.Mathlib.Bridge.{le_prop}
use platform_external_nos_ho.Application.AppStatus.{app_success, app_error_io}
use platform_external_nos_ho.Application.Command.{cmd_set_param, cmd_more_to_come}
use platform_external_nos_ho.Application.Command.Fields.{cmd_set_param_lem, bit_or-flags}
use platform_external_nos_ho.Device.{Platform, max_device_transfer}
use platform_external_nos_ho.Transport.Context.{TransportContext}
use platform_external_nos_ho.Transport.Retry.{nos_device_write}
use platform_external_nos_ho.Transport.Send.{bytes_at, advance, send_loop, chunk-lt}
use platform_external_nos_ho.Transport.Send.Plan.{chunks, datagrams, write_all}

-- The bytes behind a pointer; a null pointer has none.
abbrev pub memory : Option (List ℕ) → List ℕ
memory none = []
memory (some bytes) = bytes

pub bytes_at-memory : (p : Option (List ℕ)) (n : ℕ) → bytes_at p n ≡ take n (memory p)
unfolding bytes_at
bytes_at-memory none n = sym (take-nil n)
bytes_at-memory (some bytes) n = refl

advance-memory : (p : Option (List ℕ)) (n : ℕ) → memory (advance p n) ≡ drop n (memory p)
unfolding advance
advance-memory none n = sym (drop-nil n)
advance-memory (some bytes) n = refl

-- The command word of a round, and the flag for more.
round_command :
    (flags id low n : ℕ)
    → flags < 256
    → id < 256
    → low < 2 ^ 16
    → n < 2 ^ 16
    → cmd_set_param (flags * 2 ^ 24 + (id * 2 ^ 16 + low)) n ≡ flags * 2 ^ 24 + (id * 2 ^ 16 + n)
round_command flags id low n hf hi hl hn =
    cmd_set_param_lem (flags * 2 ^ 24 + (id * 2 ^ 16 + low)) n (omega arith) ∙ omega arith

more_command :
    (flags id n : ℕ)
    → (flags ≡ 0x60) ⊎ (flags ≡ 0x70)
    → id < 256
    → n < 2 ^ 16
    → bit_or (flags * 2 ^ 24 + (id * 2 ^ 16 + n)) cmd_more_to_come
      ≡ 0x70 * 2 ^ 24 + (id * 2 ^ 16 + n)
more_command flags id n hf hi hn =
    bit_or-flags flags 0x10 (id * 2 ^ 16 + n) (omega arith)
    ∙ ap (λ f. f * 2 ^ 24 + (id * 2 ^ 16 + n)) (joined flags hf)
  where
    joined : (f : ℕ) → (f ≡ 0x60) ⊎ (f ≡ 0x70) → bit_or f 0x10 ≡ 0x70
    joined f (inl e) = ap (λ t. bit_or t 0x10) e
    joined f (inr e) = ap (λ t. bit_or t 0x10) e

module _ {W : Type 0} (platform : Platform W) (ctx : TransportContext W) where
  -- One round, as a write of the planned command followed by the rest of the loop.
  send_loop_round :
      (flags id low n : ℕ) (args : Option (List ℕ)) (smaller : (m : ℕ) → m < n → Acc ◌<◌ m) (w : W)
      → (flags ≡ 0x60) ⊎ (flags ≡ 0x70)
      → id < 256
      → low < 2 ^ 16
      → send_loop platform ctx (flags * 2 ^ 24 + (id * 2 ^ 16 + low)) args n (Acc.intro n smaller) w
        ≡ (let ulen = min n max_device_transfer in
            let (err, w') =
              nos_device_write platform ctx.dev
                (flags * 2 ^ 24 + (id * 2 ^ 16 + ulen))
                (take ulen (memory args))
                w in
            if is_nonzero err
            then (app_error_io, w')
            else dite
                (dec_lt 0 (n - ulen))
                (λ more.
                  send_loop platform ctx
                    (0x70 * 2 ^ 24 + (id * 2 ^ 16 + ulen))
                    (advance args ulen)
                    (n - ulen)
                    (smaller (n - ulen) (chunk-lt n more))
                    w')
                (λ _. (app_success, w')))
  unfolding send_loop
  send_loop_round flags id low n args smaller w hf hi hl = rw (
    round_command flags id low (min n max_device_transfer) (omega arith) hi hl (omega arith),
    bytes_at-memory args (min n max_device_transfer),
    more_command flags id (min n max_device_transfer) hf hi (omega arith),
  )

  -- The last round writes what is left.
  send_loop_last :
      (flags id low n : ℕ) (args : Option (List ℕ)) (acc : Acc ◌<◌ n) (w : W)
      → (flags ≡ 0x60) ⊎ (flags ≡ 0x70)
      → id < 256
      → low < 2 ^ 16
      → n ≤ length (memory args)
      → n ≤ max_device_transfer
      → send_loop platform ctx (flags * 2 ^ 24 + (id * 2 ^ 16 + low)) args n acc w
        ≡ write_all platform ctx (datagrams flags id (take n (memory args) ∷ [])) w
  unfolding write_all datagrams
  send_loop_last flags id low n args (Acc.intro _ smaller) w hf hi hl hm hn =
      let whole : min n max_device_transfer ≡ n = omega arith in
      let all : length (take n (memory args)) ≡ n = omega (arith, length-take n (memory args)) in
      rw (
        send_loop_round flags id low n args smaller w hf hi hl,
        dif_neg (dec_lt 0 (n - min n max_device_transfer)) (omega arith),
        whole,
        all,
      )

  pub send_loop-write_all :
      (fuel flags id low n : ℕ) (args : Option (List ℕ)) (acc : Acc ◌<◌ n) (w : W)
      → n ≤ fuel
      → (flags ≡ 0x60) ⊎ (flags ≡ 0x70)
      → id < 256
      → low < 2 ^ 16
      → n ≤ length (memory args)
      → send_loop platform ctx (flags * 2 ^ 24 + (id * 2 ^ 16 + low)) args n acc w
        ≡ write_all platform ctx (datagrams flags id (chunks fuel (take n (memory args)))) w
  send_loop-write_all zero flags id low n args acc w hn hf hi hl hm =
      send_loop_last flags id low n args acc w hf hi hl hm (omega arith) ∙ unfold chunks in refl
  send_loop-write_all (suc fuel) flags id low n args (Acc.intro _ smaller) w hn hf hi hl hm =
      let size : length (take n (memory args)) ≡ n = omega (arith, length-take n (memory args)) in
      elim (Bool-cases (leb n max_device_transfer)) [
        | inl short ↦
            send_loop_last flags id low n args (Acc.intro n smaller) w hf hi hl hm
              (ground (arith, short))
            ∙ unfold chunks in rw (size, short)
        | inr long ↦
            let ulen = min n max_device_transfer in
            let full : ulen ≡ max_device_transfer = ground (arith, long) in
            let more : 0 < n - ulen = ground (arith, long) in
            let rest : take (n - ulen) (memory (advance args ulen))
                ≡ drop max_device_transfer (take n (memory args)) =
              ap (take (n - ulen)) (advance-memory args ulen)
              ∙ sym (drop-take ulen n (memory args))
              ∙ ap (λ k. drop k (take n (memory args))) full in
            let later =
              (nos_device_write platform ctx.dev (flags * 2 ^ 24 + (id * 2 ^ 16 + ulen))
                (take ulen (memory args)) w).1 in
            let piece : length (take max_device_transfer (memory args)) ≡ max_device_transfer =
              omega (arith, full, length-take max_device_transfer (memory args)) in
            rw
              (
                send_loop_round flags id low n args smaller w hf hi hl,
                dif_pos (dec_lt 0 (n - ulen)) le_prop more,
                send_loop-write_all fuel 0x70 id ulen (n - ulen) (advance args ulen)
                    (smaller (n - ulen) (chunk-lt n more)) later (omega arith) (inr refl) hi
                    (omega arith)
                    (rw (advance-memory args ulen) (omega (arith, length-drop ulen (memory args)))),
                rest,
                full,
              )
              (unfold chunks datagrams write_all in
                rw (size, long, take-take max_device_transfer n (memory args) (omega arith), piece))
      ]
