-- ===== src/SignedHeader.antt =====
-- nugget/include/signed_header.h: the header of a firmware image, its fuse maps and its check.
pub mod Marks
pub mod Print
mod Examples
use platform_external_nos_ho.Base.{
  ℕ, zero, suc, ◌/◌, ◌^◌, bit_or, bit_and, List, [], ◌∷◌, Bool, true, false, ◌==◌, ◌||◌, ltb,
  get_or, replicate, if◌then◌else◌,
}

abbrev pub fuse_max : ℕ
fuse_max = 128

abbrev pub info_max : ℕ
info_max = 128

abbrev pub fuse_ignore_b : ℕ
fuse_ignore_b = 0xa3badaac

abbrev pub info_ignore_b : ℕ
info_ignore_b = 0xaa3c55c3

abbrev pub fuse_ignore_c : ℕ
fuse_ignore_c = 0x3aabadac

abbrev pub info_ignore_c : ℕ
info_ignore_c = 0xa5c35a3c

abbrev pub fuse_ignore_d : ℕ
fuse_ignore_d = 0xdaa3baca

abbrev pub info_ignore_d : ℕ
info_ignore_d = 0x5a3ca5c3

abbrev pub signed_header_magic_haven : ℕ
signed_header_magic_haven = 0xffffffff

abbrev pub signed_header_magic_citadel : ℕ
signed_header_magic_citadel = 0xfffffffe

abbrev pub signed_header_magic_dauntless : ℕ
signed_header_magic_dauntless = 0xfffffffd

abbrev pub signed_header_padding : ℕ
signed_header_padding = 0x33333333

-- The fields in their order. The union `u` is the list of its 17 words.
pub record SignedHeader : Type 0 where
  pub magic : ℕ
  pub signature : List ℕ
  pub img_chk : ℕ
  pub tag : List ℕ
  pub keyid : ℕ
  pub key : List ℕ
  pub image_size : ℕ
  pub ro_base : ℕ
  pub ro_max : ℕ
  pub rx_base : ℕ
  pub rx_max : ℕ
  pub fusemap : List ℕ
  pub infomap : List ℕ
  pub epoch : ℕ
  pub major : ℕ
  pub minor : ℕ
  pub timestamp : ℕ
  pub p4cl : ℕ
  pub applysec : ℕ
  pub config1 : ℕ
  pub err_response : ℕ
  pub expect_response : ℕ
  pub u : List ℕ
  pub pad : List ℕ
  pub swap_mark_size : ℕ
  pub swap_mark_offset : ℕ
  pub rw_product_family : ℕ
  pub board_type : ℕ
  pub board_type_mask : ℕ
  pub board_flags : ℕ
  pub dev_id0 : ℕ
  pub dev_id1 : ℕ
  pub fuses_chk : ℕ
  pub info_chk : ℕ

-- The constructor. The fields that it leaves are those of `memory`. A byte set by memset fills the
-- word: 'S' and 'T' are 0x53 and 0x54, and of the padding it is 0x33.
unfoldable pub constructed : SignedHeader → SignedHeader
constructed memory = record memory {
  magic = signed_header_magic_haven;
  image_size = 0;
  epoch = 0x1337;
  major = 0;
  minor = 0xbabe;
  p4cl = 0;
  applysec = 0;
  config1 = 0;
  err_response = 0;
  expect_response = 0;
  swap_mark_size = 0;
  swap_mark_offset = 0;
  dev_id0 = 0;
  dev_id1 = 0;
  signature = replicate 96 0x53535353;
  tag = replicate 7 0x54545454;
  fusemap = replicate 4 0;
  infomap = replicate 4 0;
  pad = replicate 5 signed_header_padding;
  rw_product_family = signed_header_padding;
  u = replicate 17 signed_header_padding;
  board_type = signed_header_padding;
  board_type_mask = signed_header_padding;
  board_flags = signed_header_padding;
}

-- `map[i] = word`, within the array.
unfoldable pub set_word : List ℕ → ℕ → ℕ → List ℕ
set_word [] i word = []
set_word (x ∷ xs) zero word = word ∷ xs
set_word (x ∷ xs) (suc i) word = x ∷ set_word xs i word

-- `map[n / 32] |= 1 << (n & 31)`; the assertion before it, that `n` is below 128, is for the caller.
unfoldable pub mark : List ℕ → ℕ → List ℕ
unfolding set_word
mark map n = set_word map (n / 32) (bit_or (get_or map (n / 32) 0) (2 ^ bit_and n 31))

unfoldable pub mark_fuse : SignedHeader → ℕ → SignedHeader
mark_fuse h n = record h { fusemap = mark h.fusemap n }

unfoldable pub mark_info : SignedHeader → ℕ → SignedHeader
mark_info h n = record h { infomap = mark h.infomap n }

abbrev pub fuse_ignore : Bool → Bool → ℕ
fuse_ignore c d = if d then fuse_ignore_d else if c then fuse_ignore_c else fuse_ignore_b

abbrev pub info_ignore : Bool → Bool → ℕ
info_ignore c d = if d then info_ignore_d else if c then info_ignore_c else info_ignore_b

unfoldable pub plausible : SignedHeader → Bool
plausible h =
    if h.magic == signed_header_magic_haven
      || (h.magic == signed_header_magic_citadel || h.magic == signed_header_magic_dauntless)
    then (if h.keyid == 0xffffffff
        then false
        else if ltb h.ro_base h.ro_max
        then (if ltb h.rx_base h.rx_max then get_or h.pad 0 0 == signed_header_padding else false)
        else false)
    else false
