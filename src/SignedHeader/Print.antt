-- ===== src/SignedHeader/Print.antt =====
-- nugget/include/signed_header.h, print: the calls of printf in their order.
use Prim.Native.String.{String, ◌++◌ as ◌<>◌}
use platform_external_nos_ho.Base.{
  ℕ, zero, suc, bit_and, bit_xor, List, [], ◌∷◌, ◌++◌, ◌==◌, if◌then◌else◌,
}
use platform_external_nos_ho.Application.Status.{le32}
use platform_external_nos_ho.SignedHeader.{
  SignedHeader, signed_header_magic_haven, signed_header_magic_citadel,
  signed_header_magic_dauntless, signed_header_padding,
}

-- What the code calls on the way: be32toh, `asctime(localtime(&timestamp_))` and the macro PRIx64.
pub record Locale : Type 0 where
  pub be32toh : ℕ → ℕ
  pub asctime : ℕ → String
  pub pri_x64 : String

pub data Argument : Type 0 where
  number : ℕ → Argument
  text : String → Argument

-- One call: its format and the arguments after it.
pub record Printf : Type 0 where
  pub format : String
  pub args : List Argument

abbrev pub printf : String → List Argument → Printf
printf format args = record { format = format; args = args }

abbrev pub printf_number : String → ℕ → Printf
printf_number format n = printf format (number n ∷ [])

abbrev pub newline : Printf
newline = printf "\n" []

-- `&tag` as bytes: the words of the array, the lowest of each word first.
unfoldable pub tag_bytes : List ℕ → List ℕ
tag_bytes [] = []
tag_bytes (word ∷ words) = le32 word ++ tag_bytes words

-- The switch on the magic.
abbrev pub print_magic : ℕ → Printf
print_magic magic =
    if magic == signed_header_magic_haven
    then printf "Haven B" []
    else if magic == signed_header_magic_citadel
    then printf "Citadel" []
    else if magic == signed_header_magic_dauntless
    then printf "Dauntless" []
    else printf "?" []

-- The loop over the bytes of the tag.
unfoldable pub print_bytes : List ℕ → List Printf
print_bytes [] = newline ∷ []
print_bytes (byte ∷ bytes) = printf_number "%02x" (bit_and byte 255) ∷ print_bytes bytes

-- The loops over the fuse maps.
unfoldable pub print_words : List ℕ → List Printf
print_words [] = newline ∷ []
print_words (word ∷ words) = printf_number "%08X" word ∷ print_words words

-- A device id is printed twice in its line, and not at all if it is 0.
unfoldable pub print_id : String → ℕ → List Printf
print_id format zero = []
print_id format (suc n) = printf format (number (suc n) ∷ number (suc n) ∷ []) ∷ []

abbrev pub print_numbers : Locale → SignedHeader → List Printf
print_numbers locale h =
    printf_number "hdr.epoch          : %08x\n" h.epoch
    ∷ printf_number "hdr.major          : %08x\n" h.major
    ∷ printf_number "hdr.minor          : %08x\n" h.minor
    ∷ printf ("hdr.timestamp      : %016" <> locale.pri_x64 <> ", %s")
        (number h.timestamp ∷ text (locale.asctime h.timestamp) ∷ [])
    ∷ printf_number "hdr.img_size       : %08x\n" h.image_size
    ∷ printf_number "hdr.img_chk        : %08x\n" (locale.be32toh h.img_chk)
    ∷ printf_number "hdr.fuses_chk      : %08x\n" (locale.be32toh h.fuses_chk)
    ∷ printf_number "hdr.info_chk       : %08x\n" (locale.be32toh h.info_chk)
    ∷ printf_number "hdr.applysec       : %08x\n" h.applysec
    ∷ printf_number "hdr.config1        : %08x\n" h.config1
    ∷ printf_number "hdr.err_response   : %08x\n" h.err_response
    ∷ printf_number "hdr.expect_response: %08x\n" h.expect_response
    ∷ []

abbrev pub print_board : SignedHeader → Printf
print_board h = printf "hdr.board_id       : %08x %08x %08x\n" (
    number (bit_xor signed_header_padding h.board_type)
    ∷ number (bit_xor signed_header_padding h.board_type_mask)
    ∷ number (bit_xor signed_header_padding h.board_flags)
    ∷ [])

unfoldable pub print : Locale → SignedHeader → List Printf
print locale h =
    (printf_number "hdr.magic          : %08x (" h.magic
      ∷ print_magic h.magic
      ∷ printf ")\n" []
      ∷ printf_number "hdr.ro_base        : %08x\n" h.ro_base
      ∷ printf_number "hdr.keyid          : %08x\n" h.keyid
      ∷ printf "hdr.tag            : " []
      ∷ print_bytes (tag_bytes h.tag))
    ++ print_numbers locale h
    ++ print_id "hdr.dev_id0        : %08x (%d)\n" h.dev_id0
    ++ print_id "hdr.dev_id1        : %08x (%d)\n" h.dev_id1
    ++ (printf "hdr.fusemap        : " [] ∷ print_words h.fusemap)
    ++ (printf "hdr.infomap        : " [] ∷ print_words h.infomap)
    ++ (print_board h ∷ [])
