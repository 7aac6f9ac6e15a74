-- ===== src/Crc16/Detect.antt =====
-- Which damage to a message the checksum of crc16.c shows, and which it does not.
use platform_external_nos_ho.Base.{
  ◌<◌, bit_xor, ℕ, zero, suc, ◌^◌, ◌%◌, ◌/◌, ◌+◌, ◌*◌, ◌≡◌, refl, ◌≢◌, ◌∙◌, sym, ap, ap₂, List, [],
  ◌∷◌, ◌++◌, arith, All, Bool, true, ◌&&◌, ◌||◌, not, ◌==◌, ==_iff, holds_below, holds_below_lem,
  get_or,
}
use platform_external_nos_ho.Base.Xor.{
  bit_xor-lt, bit_xor_assoc, bit_xor_self, bit_xor-zero, zero-bit_xor,
}
use platform_external_nos_ho.Crc16.{crc16_table, crc16_byte, crc16_update}
use platform_external_nos_ho.Crc16.Update.{
  crc16_update-append, crc16_update-lt, crc16_byte-lt, crc16_byte_lem,
}
use platform_external_nos_ho.Crc16.Linear.{IsByte, crc16_byte-bit_xor, low-bit_xor}

-- The low byte of a table entry has only its bits 0, 6 and 7, so this holds of every checksum of a
-- message that is not empty.
abbrev pub IsNarrow : ℕ → Type 0
IsNarrow crc = crc % 256 ≡ crc % 2 + 64 * (crc / 64 % 4)

abbrev is_narrow : ℕ → Bool
is_narrow crc = crc % 256 == crc % 2 + 64 * (crc / 64 % 4)

-- The narrow number with the high byte `h` and the three low bits of `j` at 0, 6 and 7.
abbrev narrow : ℕ → ℕ → ℕ
narrow h j = 256 * h + (j % 2 + 64 * (j / 2))

-- On a narrow difference that the next round does not cancel, no later round does.
abbrev goes_on : ℕ → Bool
goes_on e =
    let next = crc16_byte e 0 in is_narrow next && (next == 0 || not (crc16_byte next 0 == 0))

goes_on_row : ℕ → Bool
goes_on_row h = holds_below (λ j. goes_on (narrow h j)) 8

goes_on_all : holds_below goes_on_row 256 ≡ true
unfolding holds_below goes_on_row crc16_byte
goes_on_all = refl

goes_on_narrow : (e : ℕ) → e < 2 ^ 16 → IsNarrow e → goes_on e ≡ true
unfolding goes_on_row
goes_on_narrow e h n = rw (split) (
    holds_below_lem (λ j. goes_on (narrow (e / 256) j)) 8 (e % 2 + 2 * (e / 64 % 4)) (omega arith)
      (holds_below_lem goes_on_row 256 (e / 256) (omega arith) goes_on_all))
  where
    split : e ≡ narrow (e / 256) (e % 2 + 2 * (e / 64 % 4))
    split = omega arith

-- A difference of two checksums that every further byte carries on.
record Survives (e : ℕ) : Type 0 where
  bounded : e < 2 ^ 16
  shape : IsNarrow e
  carried : crc16_byte e 0 ≢ 0

Survives-next : (e : ℕ) → Survives e → Survives (crc16_byte e 0)
Survives-next e s = record {
  bounded = crc16_byte-lt e 0;
  shape = ground (arith, step);
  carried = λ z. ground (arith, step, s.carried);
}
  where
    step : goes_on e ≡ true
    step = goes_on_narrow e s.bounded s.shape

starts : ℕ → Bool
starts d = is_narrow (crc16_byte 0 (suc d)) && not (crc16_byte (crc16_byte 0 (suc d)) 0 == 0)

starts_all : holds_below starts 255 ≡ true
unfolding holds_below starts crc16_byte
starts_all = refl

Survives-start : (d : ℕ) → d < 256 → d ≢ 0 → Survives (crc16_byte 0 d)
unfolding starts
Survives-start zero h nonzero = absurd (nonzero refl)
Survives-start (suc d) h nonzero =
    let row : starts d ≡ true = holds_below_lem starts 255 d (omega arith) starts_all in
    record {
      bounded = crc16_byte-lt 0 (suc d);
      shape = ground (arith, row);
      carried = λ z. ground (arith, row);
    }

-- If a difference leaves a number as it was, it is zero.
bit_xor_cancel : (x e : ℕ) → bit_xor x e ≡ x → e ≡ 0
bit_xor_cancel x e h = cc (bit_xor_assoc x x e, bit_xor_self x, zero-bit_xor e)

bit_xor_twice : (x y : ℕ) → bit_xor x (bit_xor x y) ≡ y
bit_xor_twice x y = cc (bit_xor_assoc x x y, bit_xor_self x, zero-bit_xor y)

zero_round : crc16_byte 0 0 ≡ 0
unfolding crc16_byte
zero_round = refl

-- A message with the checksum off by a surviving difference does not come back to the right one.
Survives-update :
    (suffix : List ℕ) (crc e : ℕ)
    → All IsByte suffix
    → crc < 2 ^ 16
    → Survives e
    → crc16_update suffix (bit_xor crc e) ≢ crc16_update suffix crc
unfolding crc16_update
Survives-update [] crc e bytes hc s same =
    s.carried (ap (λ t. crc16_byte t 0) (bit_xor_cancel crc e same) ∙ zero_round)
Survives-update (b ∷ suffix) crc e bytes hc s same =
    Survives-update suffix (crc16_byte crc b) (crc16_byte e 0) bytes.1 (crc16_byte-lt crc b)
      (Survives-next e s) (ap (crc16_update suffix) (sym step) ∙ same)
  where
    step : crc16_byte (bit_xor crc e) b ≡ bit_xor (crc16_byte crc b) (crc16_byte e 0)
    step =
        ap (crc16_byte (bit_xor crc e)) (sym (bit_xor-zero b))
        ∙ crc16_byte-bit_xor crc e b 0 hc s.bounded bytes.0 (omega arith)

-- One damaged byte, anywhere in a message, always changes the checksum.
pub crc16_update_detects_byte :
    (front suffix : List ℕ) (x y crc : ℕ)
    → All IsByte suffix
    → x < 256
    → y < 256
    → x ≢ y
    → crc < 2 ^ 16
    → crc16_update (front ++ x ∷ suffix) crc ≢ crc16_update (front ++ y ∷ suffix) crc
crc16_update_detects_byte front suffix x y crc bytes hx hy ne hc same =
    Survives-update suffix (crc16_byte state x) (crc16_byte 0 (bit_xor x y)) bytes
      (crc16_byte-lt state x) (Survives-start (bit_xor x y) (bit_xor-lt 8 x y hx hy) differs)
      (ap (crc16_update suffix) (sym step)
        ∙ unfold crc16_update in
          (sym (crc16_update-append front (y ∷ suffix) crc)
            ∙ sym same
            ∙ crc16_update-append front (x ∷ suffix) crc))
  where
    state : ℕ
    state = crc16_update front crc

    differs : bit_xor x y ≢ 0
    differs z = ne (cc (bit_xor_twice x y, bit_xor-zero x))

    step : crc16_byte state y ≡ bit_xor (crc16_byte state x) (crc16_byte 0 (bit_xor x y))
    step =
        ap₂ crc16_byte (sym (bit_xor-zero state)) (sym (bit_xor_twice x y))
        ∙ crc16_byte-bit_xor state 0 x (bit_xor x y) (crc16_update-lt front crc hc) (omega arith) hx
            (bit_xor-lt 8 x y hx hy)

first_round : crc16_byte 0 0x0C ≡ 0x0500
unfolding crc16_byte
first_round = refl

second_round : crc16_byte 0x0500 0x05 ≡ 0
unfolding crc16_byte
second_round = refl

-- The rounds on the bytes `a`, `b` and on these with the differences 0x0C and 0x05 agree.
burst :
    (crc a b : ℕ)
    → crc < 2 ^ 16
    → a < 256
    → b < 256
    → crc16_byte (crc16_byte crc (bit_xor a 0x0C)) (bit_xor b 0x05)
      ≡ crc16_byte (crc16_byte crc a) b
burst crc a b hc ha hb =
    ap (λ t. crc16_byte t (bit_xor b 0x05)) first
    ∙ crc16_byte-bit_xor (crc16_byte crc a) 0x0500 b 0x05 (crc16_byte-lt crc a) (omega arith) hb
        (omega arith)
    ∙ ap (bit_xor (crc16_byte (crc16_byte crc a) b)) second_round
    ∙ bit_xor-zero (crc16_byte (crc16_byte crc a) b)
  where
    first : crc16_byte crc (bit_xor a 0x0C) ≡ bit_xor (crc16_byte crc a) 0x0500
    first =
        ap (λ t. crc16_byte t (bit_xor a 0x0C)) (sym (bit_xor-zero crc))
        ∙ crc16_byte-bit_xor crc 0 a 0x0C hc (omega arith) ha (omega arith)
        ∙ ap (bit_xor (crc16_byte crc a)) first_round

-- Two neighbouring bytes with the differences 0x0C and 0x05, a burst of twelve bits, are never
-- detected, whatever the message.
pub crc16_update_misses_burst :
    (front suffix : List ℕ) (a b crc : ℕ)
    → a < 256
    → b < 256
    → crc < 2 ^ 16
    → crc16_update (front ++ bit_xor a 0x0C ∷ bit_xor b 0x05 ∷ suffix) crc
      ≡ crc16_update (front ++ a ∷ b ∷ suffix) crc
unfolding crc16_update
crc16_update_misses_burst front suffix a b crc ha hb hc =
    crc16_update-append front (bit_xor a 0x0C ∷ bit_xor b 0x05 ∷ suffix) crc
    ∙ ap (crc16_update suffix)
        (burst (crc16_update front crc) a b (crc16_update-lt front crc hc) ha hb)
    ∙ sym (crc16_update-append front (a ∷ b ∷ suffix) crc)

narrow_entry : ℕ → Bool
narrow_entry i = is_narrow (get_or crc16_table i 0)

narrow_entries : holds_below narrow_entry 256 ≡ true
unfolding holds_below narrow_entry
narrow_entries = refl

-- Being narrow is about the low byte.
IsNarrow-low : (t r : ℕ) → t % 256 ≡ r % 256 → IsNarrow r → IsNarrow t
IsNarrow-low t r h n = omega arith

-- Adding a shifted number leaves the low byte alone.
low_byte-shifted : (t q : ℕ) → bit_xor t (q * 256) % 256 ≡ t % 256
low_byte-shifted t q =
    let shifted : q * 256 % 256 ≡ 0 = omega arith in
    low-bit_xor t (q * 256) ∙ ap (bit_xor (t % 256)) shifted ∙ bit_xor-zero (t % 256)

crc16_byte-IsNarrow : (crc b : ℕ) → crc < 2 ^ 16 → b < 256 → IsNarrow (crc16_byte crc b)
unfolding narrow_entry
crc16_byte-IsNarrow crc b hc hb =
    IsNarrow-low (crc16_byte crc b) entry
      (ap (λ t. t % 256) (crc16_byte_lem crc b hc hb) ∙ low_byte-shifted entry (crc % 256))
      ((==_iff (entry % 256) (entry % 2 + 64 * (entry / 64 % 4))).0 (
        holds_below_lem narrow_entry 256 (bit_xor (crc / 256) b)
          (bit_xor-lt 8 (crc / 256) b (omega arith) hb) narrow_entries))
  where
    entry : ℕ
    entry = get_or crc16_table (bit_xor (crc / 256) b) 0

-- The checksum of a message that is not empty is narrow, so it takes 2048 values at most.
pub crc16_update-IsNarrow :
    (b : ℕ) (bytes : List ℕ) (crc : ℕ)
    → All IsByte (b ∷ bytes)
    → crc < 2 ^ 16
    → IsNarrow (crc16_update (b ∷ bytes) crc)
unfolding crc16_update
crc16_update-IsNarrow b [] crc h hc = crc16_byte-IsNarrow crc b hc h.0
crc16_update-IsNarrow b (x ∷ bytes) crc h hc =
    crc16_update-IsNarrow x bytes (crc16_byte crc b) h.1 (crc16_byte-lt crc b)
