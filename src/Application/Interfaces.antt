-- ===== src/Application/Interfaces.antt =====
-- nugget/include/avb.h, app_transport_test.h and keymaster.h: the constants of other applications.
use platform_external_nos_ho.Base.{ℕ, ◌+◌, ◌/◌}
use platform_external_nos_ho.Application.AppStatus.{app_specific_error}

abbrev pub avb_num_slots : ℕ
avb_num_slots = 8

abbrev pub avb_metadata_max_size : ℕ
avb_metadata_max_size = 2048

abbrev pub avb_chunk_max_size : ℕ
avb_chunk_max_size = 512

abbrev pub avb_device_data_size : ℕ
avb_device_data_size = 256 / 8

abbrev pub avb_signature_size : ℕ
avb_signature_size = 256

abbrev pub app_error_avb_bootloader : ℕ
app_error_avb_bootloader = app_specific_error + 0

abbrev pub app_error_avb_hlos : ℕ
app_error_avb_hlos = app_error_avb_bootloader + 1

abbrev pub app_error_avb_denied : ℕ
app_error_avb_denied = app_error_avb_hlos + 1

abbrev pub app_error_avb_authorization : ℕ
app_error_avb_authorization = app_error_avb_denied + 1

abbrev pub transport_test_nop : ℕ
transport_test_nop = 5

abbrev pub transport_test_1234 : ℕ
transport_test_1234 = 8

abbrev pub transport_test_9876 : ℕ
transport_test_9876 = 9

abbrev pub transport_test_hang : ℕ
transport_test_hang = 12

abbrev pub transport_test_echo_2 : ℕ
transport_test_echo_2 = 13

abbrev pub km_mnf_device_id_version : ℕ
km_mnf_device_id_version = 1

abbrev pub km_mnf_max_entry_size : ℕ
km_mnf_max_entry_size = 30
