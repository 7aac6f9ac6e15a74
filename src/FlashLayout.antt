-- ===== src/FlashLayout.antt =====
-- nugget/include/flash_layout.h: where the two halves of the flash hold their images.
use platform_external_nos_ho.Base.{ℕ, ◌+◌, ◌*◌, ◌/◌, ◌%◌, ◌≡◌, refl}

abbrev pub citadel_flash_base : ℕ
citadel_flash_base = 0x40000

abbrev pub citadel_flash_size : ℕ
citadel_flash_size = 512 * 1024

abbrev pub citadel_flash_half : ℕ
citadel_flash_half = citadel_flash_size / 2

abbrev pub citadel_ro_size : ℕ
citadel_ro_size = 0x4000

abbrev pub citadel_ro_a_mem_off : ℕ
citadel_ro_a_mem_off = 0

abbrev pub citadel_ro_b_mem_off : ℕ
citadel_ro_b_mem_off = citadel_flash_half

abbrev pub citadel_rw_a_mem_off : ℕ
citadel_rw_a_mem_off = citadel_ro_size

abbrev pub citadel_rw_b_mem_off : ℕ
citadel_rw_b_mem_off = citadel_flash_half + citadel_rw_a_mem_off

abbrev pub dauntless_flash_base : ℕ
dauntless_flash_base = 0x80000

abbrev pub dauntless_flash_size : ℕ
dauntless_flash_size = 1024 * 1024

abbrev pub dauntless_flash_half : ℕ
dauntless_flash_half = dauntless_flash_size / 2

abbrev pub dauntless_ro_size : ℕ
dauntless_ro_size = 0x4000

abbrev pub dauntless_ro_a_mem_off : ℕ
dauntless_ro_a_mem_off = 0

abbrev pub dauntless_ro_b_mem_off : ℕ
dauntless_ro_b_mem_off = dauntless_flash_half

abbrev pub dauntless_rw_a_mem_off : ℕ
dauntless_rw_a_mem_off = dauntless_ro_size

abbrev pub dauntless_rw_b_mem_off : ℕ
dauntless_rw_b_mem_off = dauntless_flash_half + dauntless_rw_a_mem_off

abbrev pub flash_rw_alignment : ℕ
flash_rw_alignment = 0x4000

-- On both chips the two halves follow each other, each with room for its read-only image, and the
-- images that can be written are aligned.
halves_meet :
    (citadel_ro_a_mem_off + citadel_flash_half ≡ citadel_ro_b_mem_off)
    × (dauntless_ro_a_mem_off + dauntless_flash_half ≡ dauntless_ro_b_mem_off)
halves_meet = (refl, refl)

images_aligned :
    (citadel_rw_a_mem_off % flash_rw_alignment ≡ 0)
    × (citadel_rw_b_mem_off % flash_rw_alignment ≡ 0)
    × (dauntless_rw_a_mem_off % flash_rw_alignment ≡ 0)
    × (dauntless_rw_b_mem_off % flash_rw_alignment ≡ 0)
images_aligned = (refl, refl, refl, refl)
