-- ===== src/Application/Events.antt =====
-- nugget/include/citadel_events.h: the events that the chip reports.
use platform_external_nos_ho.Base.{ℕ, List}

abbrev pub event_priority_low : ℕ
event_priority_low = 0

abbrev pub event_priority_medium : ℕ
event_priority_medium = 1

abbrev pub event_priority_high : ℕ
event_priority_high = 2

abbrev pub event_none : ℕ
event_none = 0

abbrev pub event_alert : ℕ
event_alert = 1

abbrev pub event_rebooted : ℕ
event_rebooted = 2

abbrev pub event_upgraded : ℕ
event_upgraded = 3

abbrev pub event_alert_v2 : ℕ
event_alert_v2 = 4

abbrev pub event_sec_ch_state : ℕ
event_sec_ch_state = 5

abbrev pub event_v1_no_support : ℕ
event_v1_no_support = 6

abbrev pub upgrade_success : ℕ
upgrade_success = 0

abbrev pub upgrade_pw_mismatch : ℕ
upgrade_pw_mismatch = 1

abbrev pub upgrade_en_fw_fail : ℕ
upgrade_en_fw_fail = 2

abbrev pub hdr_flag_empty_slot : ℕ
hdr_flag_empty_slot = 0

abbrev pub hdr_flag_occupied_slot : ℕ
hdr_flag_occupied_slot = 1

abbrev pub event_report_size : ℕ
event_report_size = 64

-- The members of the union `event`; `raw` is its bytes.
pub data Event : Type 0 where
  alert : (intr_sts₀ intr_sts₁ intr_sts₂ : ℕ) → Event
  rebooted : (rstsrc exitpd which₀ which₁ : ℕ) → Event
  upgraded : (upgrade_state : ℕ) → Event
  alert_v2 :
      (alert_grp₀ alert_grp₁ alert_grp₂ alert_grp₃ camo_breaches₀ camo_breaches₁ temp_min temp_max
        bus_err : ℕ)
      → Event
  sec_ch_state : (state : ℕ) → Event
  raw : List ℕ → Event

-- `struct event_report`, with the 40 bytes of its union.
pub record EventReport : Type 0 where
  pub reset_count : ℕ
  pub uptime_usecs : ℕ
  pub id : ℕ
  pub priority : ℕ
  pub event : List ℕ

-- `struct big_event_report`, whose 384 bytes of data are `payload`.
pub record BigEventReport : Type 0 where
  pub reset_count : ℕ
  pub uptime_usecs : ℕ
  pub priority : ℕ
  pub version : ℕ
  pub flags : ℕ
  pub length : ℕ
  pub payload : List ℕ
