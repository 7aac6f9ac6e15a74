-- ===== src/Application/Command/Fields.antt =====
-- The macros on command words in arithmetic, and the fields that they set and get.
use platform_external_nos_ho.Base.{
  ℕ, ◌+◌, ◌*◌, ◌/◌, ◌%◌, ◌^◌, ◌<◌, bit_and, bit_or, ◌≡◌, ◌∙◌, ap, ap₂, arith,
}
use platform_external_nos_ho.Base.Bits.{
  bit_and_mask, bit_and_split, bit_or_split, bit_and-zero, bit_or-zero, zero-bit_or,
}
use platform_external_nos_ho.Application.Command.{
  get_app_id, get_app_param, cmd_id, cmd_param, cmd_set_param,
}

pub cmd_id_lem : (id : ℕ) → cmd_id id ≡ id % 256 * 2 ^ 16
unfolding cmd_id
cmd_id_lem id = ap (λ t. t * 2 ^ 16) (bit_and_mask 8 id)

pub cmd_param_lem : (p : ℕ) → cmd_param p ≡ p % 2 ^ 16
unfolding cmd_param
cmd_param_lem p = bit_and_mask 16 p

pub get_app_param_lem : (cmd : ℕ) → get_app_param cmd ≡ cmd % 2 ^ 16
unfolding get_app_param
get_app_param_lem cmd = bit_and_mask 16 cmd

-- A number by its upper part and its low sixteen bits.
halves : (cmd : ℕ) → cmd ≡ cmd / 2 ^ 16 * 2 ^ 16 + cmd % 2 ^ 16
halves cmd = omega arith

-- A mask above the low sixteen bits sees the upper part only.
upper_mask : (cmd m : ℕ) → bit_and cmd (m * 2 ^ 16) ≡ bit_and (cmd / 2 ^ 16) m * 2 ^ 16
upper_mask cmd m =
    ap₂ bit_and (halves cmd) (omega arith)
    ∙ bit_and_split 16 (cmd / 2 ^ 16) m (cmd % 2 ^ 16) 0 (omega arith) (omega arith)
    ∙ omega (arith, bit_and-zero (cmd % 2 ^ 16))

pub get_app_id_lem : (cmd : ℕ) → get_app_id cmd ≡ cmd / 2 ^ 16 % 256
unfolding get_app_id
get_app_id_lem cmd =
    ap (λ t. t / 2 ^ 16) (upper_mask cmd 0xff) ∙ omega (arith, bit_and_mask 8 (cmd / 2 ^ 16))

-- A parameter joined to the application's field.
pub bit_or-param : (id p : ℕ) → p < 2 ^ 16 → bit_or (id * 2 ^ 16) p ≡ id * 2 ^ 16 + p
bit_or-param id p h =
    ap₂ bit_or (omega arith) (omega arith)
    ∙ bit_or_split 16 id 0 0 p (omega arith) h
    ∙ omega (arith, bit_or-zero id, zero-bit_or p)

-- On a 32-bit word the macro replaces the low half.
pub cmd_set_param_lem :
    (cmd p : ℕ) → cmd < 2 ^ 32 → cmd_set_param cmd p ≡ cmd / 2 ^ 16 * 2 ^ 16 + p % 2 ^ 16
unfolding cmd_set_param
cmd_set_param_lem cmd p h =
    ap₂ bit_or (upper_mask cmd 0xffff ∙ omega (arith, bit_and_mask 16 (cmd / 2 ^ 16)))
      (bit_and_mask 16 p)
    ∙ bit_or-param (cmd / 2 ^ 16) (p % 2 ^ 16) (omega arith)

-- Setting the parameter of a 32-bit command word reads back, and leaves the application and the
-- flags as they were.
cmd_set_param_fields :
    (cmd p : ℕ)
    → cmd < 2 ^ 32
    → (get_app_param (cmd_set_param cmd p) ≡ p % 2 ^ 16)
      × (get_app_id (cmd_set_param cmd p) ≡ get_app_id cmd)
      × (cmd_set_param cmd p / 2 ^ 24 ≡ cmd / 2 ^ 24)
cmd_set_param_fields cmd p h = (
  omega (arith, get_app_param_lem (cmd_set_param cmd p), cmd_set_param_lem cmd p h),
  omega
      (arith, get_app_id_lem (cmd_set_param cmd p), get_app_id_lem cmd, cmd_set_param_lem cmd p h),
  omega (arith, cmd_set_param_lem cmd p h),
)

-- A flag byte joined to the application's field.
pub bit_or-flags :
    (f g low : ℕ)
    → low < 2 ^ 24
    → bit_or (f * 2 ^ 24 + low) (g * 2 ^ 24) ≡ bit_or f g * 2 ^ 24 + low
bit_or-flags f g low h =
    ap (bit_or (f * 2 ^ 24 + low)) (omega arith)
    ∙ bit_or_split 24 f g low 0 h (omega arith)
    ∙ omega (arith, bit_or-zero low)

-- The "go" command holds the application and the parameters that it was built from, and no flag.
go_fields :
    (id p : ℕ)
    → id < 256
    → p < 2 ^ 16
    → (get_app_id (bit_or (cmd_id id) (cmd_param p)) ≡ id)
      × (get_app_param (bit_or (cmd_id id) (cmd_param p)) ≡ p)
      × (bit_or (cmd_id id) (cmd_param p) / 2 ^ 24 ≡ 0)
go_fields id p hid hp = (
  omega (arith, word, get_app_id_lem (bit_or (cmd_id id) (cmd_param p))),
  omega (arith, word, get_app_param_lem (bit_or (cmd_id id) (cmd_param p))),
  omega (arith, word),
)
  where
    word : bit_or (cmd_id id) (cmd_param p) ≡ id * 2 ^ 16 + p
    word =
        ap₂ bit_or (cmd_id_lem id) (cmd_param_lem p)
        ∙ bit_or-param (id % 256) (p % 2 ^ 16) (omega arith)
        ∙ omega arith

-- A command word that is built from an 8-bit application and 16-bit parameters holds these and no flag,
-- and so does every 32-bit command word after its parameters have been set to these: it holds them, and
-- the application and the flags that it had.
pub command_words_fields :
    (id p cmd : ℕ)
    → id < 256
    → p < 2 ^ 16
    → cmd < 2 ^ 32
    → (let go = bit_or (cmd_id id) (cmd_param p) in
        let set = cmd_set_param cmd p in
        ((get_app_id go ≡ id) × (get_app_param go ≡ p) × (go / 2 ^ 24 ≡ 0))
        × ((get_app_id set ≡ get_app_id cmd)
            × (get_app_param set ≡ p)
            × (set / 2 ^ 24 ≡ cmd / 2 ^ 24)))
command_words_fields id p cmd hid hp hcmd =
    let (param, app, flags) = cmd_set_param_fields cmd p hcmd in
    (go_fields id p hid hp, (app, omega (arith, param), flags))
