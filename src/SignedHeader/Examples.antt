-- ===== src/SignedHeader/Examples.antt =====
-- A header as constructed, and one that is plausible.
use platform_external_nos_ho.Base.{◌≡◌, refl, [], ◌∷◌, true, false, length, arith}
use platform_external_nos_ho.SignedHeader.{
  SignedHeader, constructed, mark_fuse, mark_info, mark, set_word, plausible,
}
use platform_external_nos_ho.SignedHeader.Print.{
  Locale, print, printf, printf_number, newline, print_bytes, print_words, print_id, tag_bytes,
  number,
}
use platform_external_nos_ho.Application.Status.{le32}
use platform_external_nos_ho.SignedHeader.Marks.{marked, marks_one}

abbrev zero_header : SignedHeader
zero_header = record {
  magic = 0;
  signature = [];
  img_chk = 0;
  tag = [];
  keyid = 0;
  key = [];
  image_size = 0;
  ro_base = 0;
  ro_max = 0;
  rx_base = 0;
  rx_max = 0;
  fusemap = [];
  infomap = [];
  epoch = 0;
  major = 0;
  minor = 0;
  timestamp = 0;
  p4cl = 0;
  applysec = 0;
  config1 = 0;
  err_response = 0;
  expect_response = 0;
  u = [];
  pad = [];
  swap_mark_size = 0;
  swap_mark_offset = 0;
  rw_product_family = 0;
  board_type = 0;
  board_type_mask = 0;
  board_flags = 0;
  dev_id0 = 0;
  dev_id1 = 0;
  fuses_chk = 0;
  info_chk = 0;
}

-- Without regions a header is not plausible,
no_regions : plausible (constructed zero_header) ≡ false
unfolding plausible constructed
no_regions = refl

-- and with regions it is.
with_regions :
    plausible
      (record (constructed zero_header) { ro_max = 0x4000; rx_base = 0x4000; rx_max = 0x8000 })
    ≡ true
unfolding plausible constructed
with_regions = refl

fuse_37 : (mark_fuse (constructed zero_header) 37).fusemap ≡ 0 ∷ 32 ∷ 0 ∷ 0 ∷ []
unfolding mark_fuse mark set_word constructed
fuse_37 = refl

-- A tag is printed from the lowest byte of its first word on.
tag_printed :
    print_bytes (tag_bytes (0x4241 ∷ []))
    ≡ printf_number "%02x" 0x41
      ∷ printf_number "%02x" 0x42
      ∷ printf_number "%02x" 0
      ∷ printf_number "%02x" 0
      ∷ newline
      ∷ []
unfolding print_bytes tag_bytes le32
tag_printed = refl

-- A device id is printed only if it is there.
ids_printed :
    (print_id "%08x (%d)\n" 0 ≡ [])
    × (print_id "%08x (%d)\n" 7 ≡ printf "%08x (%d)\n" (number 7 ∷ number 7 ∷ []) ∷ [])
unfolding print_id
ids_printed = (refl, refl)

abbrev c_locale : Locale
c_locale = record { be32toh = λ n. n; asctime = λ t. "then\n"; pri_x64 = "llx" }

-- The header of zeros has no tag, no ids and no fuse maps: 24 calls are left.
calls_printed : length (print c_locale zero_header) ≡ 24
unfolding print print_bytes print_words print_id tag_bytes
calls_printed = refl

marks_one_example :
    (marked (mark_fuse (constructed zero_header) 37).fusemap 37 ≡ 1)
    × (marked (mark_fuse (constructed zero_header) 37).fusemap 5
        ≡ marked (constructed zero_header).fusemap 5)
    × ((mark_fuse (constructed zero_header) 37).infomap ≡ (constructed zero_header).infomap)
    × (marked (mark_info (constructed zero_header) 37).infomap 37 ≡ 1)
    × (marked (mark_info (constructed zero_header) 37).infomap 5
        ≡ marked (constructed zero_header).infomap 5)
    × ((mark_info (constructed zero_header) 37).fusemap ≡ (constructed zero_header).fusemap)
unfolding constructed
marks_one_example = marks_one (constructed zero_header) 37 5 refl refl (omega arith) (omega arith)
